-- ===== src/Net/Url/Parse.antt =====
-- What a URL is, and that `Url::parse` reads it back from what it is written as.
use crab_os.Prelude.{
  ℕ, ◌+◌, ◌<◌, ◌≡◌, ◌≢◌, ◌≤◌, ◌⊎◌, All, Bool, [], refl, sym, ◌∙◌, ap, subst, true, false, not, ◌||◌,
  Option, none, some, List, ◌∷◌, ◌++◌, length, all, all-append, ◌==◌, Bool-cases, inl, inr, arith,
}
use crab_os.Net.Url.{
  Url, ok, err, invalid_url, scheme, parse_u16, is_host, is_path, is_empty, check, parse,
}
use crab_os.Net.Url.Search.{
  is_not, find_byte-append, rfind_byte-none, rfind_byte-append, take-length, drop-length,
  drop-after, all-weaken, parse_u16-all, is_sign_or_digit,
}

-- A digit, a letter, a dot or a dash.
abbrev pub HostByte : ℕ → Type 0
HostByte c =
    ((48 ≤ c) × (c ≤ 57))
    ⊎ (((65 ≤ c) × (c ≤ 90)) ⊎ (((97 ≤ c) × (c ≤ 122)) ⊎ ((c ≡ 46) ⊎ (c ≡ 45))))

-- A printable ASCII character that is neither the space nor `#`.
abbrev pub PathByte : ℕ → Type 0
PathByte c = (33 ≤ c) × (c ≤ 126) × (c ≢ 35)

-- A host that is not empty, a port that is not zero, and the path.
pub record IsUrl (u : Url) : Type 0 where
  pub some_host : 0 < length u.host
  pub host : All HostByte u.host
  pub port : 0 < u.port
  pub path : All PathByte u.path

HostByte-is_host : (c : ℕ) → HostByte c → is_host c ≡ true
HostByte-is_host c h = ground arith

pub is_host-HostByte : (c : ℕ) → is_host c ≡ true → HostByte c
is_host-HostByte c h = ground arith

PathByte-is_path : (c : ℕ) → PathByte c → is_path c ≡ true
PathByte-is_path c h = ground arith

pub is_path-PathByte : (c : ℕ) → is_path c ≡ true → PathByte c
is_path-PathByte c h = ground arith

All-all :
    {P : ℕ → Type 0} (p : ℕ → Bool) (xs : List ℕ)
    → ((c : ℕ) → P c → p c ≡ true)
    → All P xs
    → all p xs ≡ true
All-all p [] f h = refl
All-all p (x ∷ xs) f h = rw (f x h.0, All-all p xs f h.1) refl

pub all-All :
    {P : ℕ → Type 0} (p : ℕ → Bool) (xs : List ℕ)
    → ((c : ℕ) → p c ≡ true → P c)
    → all p xs ≡ true
    → All P xs
all-All p [] f h = tt
all-All p (x ∷ xs) f h = (f x (ground arith), all-All p xs f (ground arith))

length-is_empty : (xs : List ℕ) → 0 < length xs → is_empty xs ≡ false
length-is_empty [] h = absurd (omega arith)
length-is_empty (x ∷ xs) h = refl

is_empty-length : (xs : List ℕ) → is_empty xs ≡ false → 0 < length xs
is_empty-length [] h = absurd cc
is_empty-length (x ∷ xs) h = omega arith

check-ok :
    (host path : List ℕ) (port : ℕ)
    → IsUrl (record { host = host; port = port; path = path })
    → check host path (some port) ≡ ok (record { host = host; port = port; path = path })
unfolding check
check-ok host path port v =
    let some_port : (port == 0) ≡ false = let p = v.port in ground arith in
    rw
      (
        length-is_empty host v.some_host,
        All-all is_host host HostByte-is_host v.host,
        some_port,
        All-all is_path path PathByte-is_path v.path,
      )
      refl

pub check-eq_ok :
    (host path : List ℕ) (port : Option ℕ) (u : Url)
    → check host path port ≡ ok u
    → (host ≡ u.host) × (path ≡ u.path) × (port ≡ some u.port) × IsUrl u
unfolding check
check-eq_ok host path none u h = absurd cc
check-eq_ok host path (some port) u h =
    elim (Bool-cases
      (is_empty host || (not (all is_host host) || (port == 0 || not (all is_path path))))) [
        | inl e ↦ absurd (let q : err invalid_url ≡ ok u = sym (rw e refl) ∙ h in cc)
        | inr e ↦
            let q : ok (record { host = host; port = port; path = path }) ≡ ok u =
              sym (rw e refl) ∙ h in
            let same : record { host = host; port = port; path = path } ≡ u = cc in
            let valid : IsUrl (record { host = host; port = port; path = path }) = record {
              some_host = is_empty-length host (ground arith);
              host = all-All is_host host is_host-HostByte (ground arith);
              port = ground arith;
              path = all-All is_path path is_path-PathByte (ground arith);
            } in
            (
              ap (λ (w : Url). w.host) same,
              ap (λ (w : Url). w.path) same,
              ap (λ (w : Url). some w.port) same,
              subst IsUrl same valid,
            )
      ]

host-is_not :
    (b : ℕ) (host : List ℕ)
    → (is_host b ≡ false)
    → all is_host host ≡ true
    → all (is_not b) host ≡ true
host-is_not b host h k = all-weaken is_host (is_not b) host (λ c e. other c e) k
  where
    other : (c : ℕ) → is_host c ≡ true → is_not b c ≡ true
    other c e = elim (Bool-cases (c == b)) [
      | inr f ↦ rw f refl
      | inl f ↦ absurd (
          let same : c ≡ b = ground arith in
          let q : true ≡ false = sym e ∙ ap is_host same ∙ h in cc)
    ]

-- A URL of a host and a path is read back, with the port 80.
pub parse-host_path :
    (host tail : List ℕ)
    → IsUrl (record { host = host; port = 80; path = b'/' ∷ tail })
    → parse (scheme ++ (host ++ b'/' ∷ tail))
      ≡ ok (record { host = host; port = 80; path = b'/' ∷ tail })
unfolding parse
parse-host_path host tail v =
    rw
      (
        find_byte-append b'/' host tail
            (host-is_not b'/' host refl (All-all is_host host HostByte-is_host v.host)),
        take-length host (b'/' ∷ tail),
        drop-length host (b'/' ∷ tail),
        rfind_byte-none b':' host
            (host-is_not b':' host refl (All-all is_host host HostByte-is_host v.host)),
      )
      (check-ok host (b'/' ∷ tail) 80 v)

-- A URL of a host, a port that `str::parse` reads, and a path is read back.
pub parse-host_port_path :
    (host digits : List ℕ) (port : ℕ) (tail : List ℕ)
    → IsUrl (record { host = host; port = port; path = b'/' ∷ tail })
    → parse_u16 digits ≡ some port
    → parse (scheme ++ ((host ++ b':' ∷ digits) ++ b'/' ∷ tail))
      ≡ ok (record { host = host; port = port; path = b'/' ∷ tail })
unfolding parse
parse-host_port_path host digits port tail v p =
    let signs = parse_u16-all digits port p in
    let no_slash = all-weaken is_sign_or_digit (is_not b'/') digits (λ c e. ground arith) signs in
    let no_colon = all-weaken is_sign_or_digit (is_not b':') digits (λ c e. ground arith) signs in
    let authority = host ++ b':' ∷ digits in
    let plain =
      all-append (is_not b'/') host (b':' ∷ digits)
        (host-is_not b'/' host refl (All-all is_host host HostByte-is_host v.host)) no_slash in
    rw
      (
        find_byte-append b'/' authority tail plain,
        take-length authority (b'/' ∷ tail),
        drop-length authority (b'/' ∷ tail),
        rfind_byte-append b':' host digits no_colon,
        take-length host (b':' ∷ digits),
        drop-after host digits b':' (length host + 1) refl,
        p,
      )
      (check-ok host (b'/' ∷ tail) port v)
