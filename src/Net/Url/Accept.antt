-- ===== src/Net/Url/Accept.antt =====
-- How `Url::parse` reads the text that it accepts.
use crab_os.Prelude.{
  ℕ, zero, suc, ◌+◌, ◌≡◌, ◌≢◌, ◌⊎◌, inl, inr, refl, sym, ◌∙◌, ap, subst, All, true, Bool-cases,
  Option, none, some, List, [], ◌∷◌, ◌++◌, length, take, drop, ◌==◌, arith,
}
use crab_os.Net.Web.Bytes.{starts_with, find_byte, later}
use crab_os.Net.Url.{
  Url, ok, err, use_http, scheme, rfind_byte, rfind_or, parse_rest, split_path, split_port, parse,
}
use crab_os.Net.Url.Numeral.{Numeral, parse_u16-Numeral}
use crab_os.Net.Url.Parse.{IsUrl, check-eq_ok}

-- `input` is `http://`, an authority without `/`, and a tail that is empty or starts with `/`.
pub record Reads (input : List ℕ) (u : Url) : Type 0 where
  pub authority : List ℕ
  pub tail : List ℕ
  pub written : input ≡ (b'h' ∷ b't' ∷ b't' ∷ b'p' ∷ b':' ∷ b'/' ∷ b'/' ∷ []) ++ (authority ++ tail)
  pub no_slash : All (λ c. c ≢ b'/') authority
  pub path :
      ((tail ≡ []) × (u.path ≡ b'/' ∷ []))
      ⊎ ((rest : List ℕ) × (tail ≡ b'/' ∷ rest) × (u.path ≡ tail))
  pub port :
      ((authority ≡ u.host) × (u.port ≡ 80))
      ⊎ ((text : List ℕ) × (authority ≡ u.host ++ b':' ∷ text) × Numeral text u.port)
  pub is_url : IsUrl u

append-nil : (xs : List ℕ) → xs ++ [] ≡ xs
append-nil [] = refl
append-nil (x ∷ xs) = ap (λ (ys : List ℕ). x ∷ ys) (append-nil xs)

starts_with-drop : (p xs : List ℕ) → starts_with p xs ≡ true → xs ≡ p ++ drop (length p) xs
starts_with-drop [] xs h = refl
starts_with-drop (p ∷ ps) [] h = absurd cc
starts_with-drop (p ∷ ps) (x ∷ xs) h =
    let e : p ≡ x = ground arith in
    let r = starts_with-drop ps xs (ground arith) in
    ap (λ (ys : List ℕ). x ∷ ys) r ∙ ap (λ y. y ∷ ps ++ drop (length ps) xs) (sym e)

take-drop : (n : ℕ) (xs : List ℕ) → xs ≡ take n xs ++ drop n xs
take-drop zero xs = refl
take-drop (suc n) [] = refl
take-drop (suc n) (x ∷ xs) = ap (λ (ys : List ℕ). x ∷ ys) (take-drop n xs)

later-eq_none : (r : Option ℕ) → later r ≡ none → r ≡ none
later-eq_none none h = refl
later-eq_none (some i) h = absurd cc

find_byte-eq_none : (b : ℕ) (xs : List ℕ) → find_byte b xs ≡ none → All (λ c. c ≢ b) xs
find_byte-eq_none b [] h = tt
find_byte-eq_none b (x ∷ xs) h = elim (Bool-cases (x == b)) [
  | inl e ↦ absurd (let q : some 0 ≡ none = sym (rw e refl) ∙ h in cc)
  | inr e ↦
      (ground arith, find_byte-eq_none b xs (later-eq_none (find_byte b xs) (sym (rw e refl) ∙ h)))
]

abbrev FoundAt : ℕ → List ℕ → ℕ → Type 0
FoundAt b xs i = (All (λ c. c ≢ b) (take i xs)) × ((rest : List ℕ) × (drop i xs ≡ b ∷ rest))

find_byte-eq_some : (b : ℕ) (xs : List ℕ) (i : ℕ) → find_byte b xs ≡ some i → FoundAt b xs i
find_byte-eq_some b [] i h = absurd cc
find_byte-eq_some b (x ∷ xs) i h = elim (Bool-cases (x == b)) [
  | inl e ↦
      let here : some 0 ≡ some i = sym (rw e refl) ∙ h in
      let zero_th : 0 ≡ i = cc in
      let same : x ≡ b = ground arith in
      subst (FoundAt b (x ∷ xs)) zero_th (tt, (xs, ap (λ c. c ∷ xs) same))
  | inr e ↦
      later_on (λ j f. find_byte-eq_some b xs j f) (find_byte b xs) refl (sym (rw e refl) ∙ h)
        (ground arith)
]
  where
    later_on :
        ((j : ℕ) → find_byte b xs ≡ some j → FoundAt b xs j)
        → (r : Option ℕ) → find_byte b xs ≡ r
        → later (find_byte b xs) ≡ some i
        → x ≢ b
        → FoundAt b (x ∷ xs) i
    later_on inner none f h n = absurd (let q : none ≡ some i = sym (rw f refl) ∙ h in cc)
    later_on inner (some j) f h n =
        let q : some (suc j) ≡ some i = sym (rw f refl) ∙ h in
        let next : suc j ≡ i = cc in
        let r = inner j f in subst (FoundAt b (x ∷ xs)) next ((n, r.0), r.1)

rfind_byte-eq_some :
    (b : ℕ) (xs : List ℕ) (i : ℕ) → rfind_byte b xs ≡ some i → xs ≡ take i xs ++ b ∷ drop (suc i) xs
rfind_byte-eq_some b [] i h = absurd cc
rfind_byte-eq_some b (x ∷ xs) i h =
    last (λ j f. rfind_byte-eq_some b xs j f) (rfind_byte b xs) refl h
  where
    last :
        ((j : ℕ) → rfind_byte b xs ≡ some j → xs ≡ take j xs ++ b ∷ drop (suc j) xs)
        → (r : Option ℕ) → rfind_byte b xs ≡ r
        → rfind_or (x == b) (rfind_byte b xs) ≡ some i
        → x ∷ xs ≡ take i (x ∷ xs) ++ b ∷ drop (suc i) (x ∷ xs)
    last inner none f k = elim (Bool-cases (x == b)) [
      | inr e ↦ absurd (let q : none ≡ some i = sym (rw (f, e) refl) ∙ k in cc)
      | inl e ↦
          let here : some 0 ≡ some i = sym (rw (f, e) refl) ∙ k in
          let zero_th : 0 ≡ i = cc in
          let same : x ≡ b = ground arith in
          subst (λ n. x ∷ xs ≡ take n (x ∷ xs) ++ b ∷ drop (suc n) (x ∷ xs)) zero_th
            (ap (λ c. c ∷ xs) same)
    ]
    last inner (some j) f k =
        let q : some (suc j) ≡ some i = sym (rw f refl) ∙ k in
        let next : suc j ≡ i = cc in
        subst (λ n. x ∷ xs ≡ take n (x ∷ xs) ++ b ∷ drop (suc n) (x ∷ xs)) next
          (ap (λ (ys : List ℕ). x ∷ ys) (inner j f))

-- What `split_port` makes of an authority.
Port-split :
    (authority : List ℕ) (found : Option ℕ) (u : Url)
    → rfind_byte b':' authority ≡ found
    → (split_port authority found).0 ≡ u.host
    → (split_port authority found).1 ≡ some u.port
    → ((authority ≡ u.host) × (u.port ≡ 80))
      ⊎ ((text : List ℕ) × (authority ≡ u.host ++ b':' ∷ text) × Numeral text u.port)
Port-split authority none u f h p = let e : u.port ≡ 80 = cc in inl (h, e)
Port-split authority (some i) u f h p =
    let text = drop (i + 1) authority in
    let same : i + 1 ≡ suc i = omega arith in
    let cut = rfind_byte-eq_some b':' authority i f in
    inr (
      text,
      cut
          ∙ ap (λ (host : List ℕ). host ++ b':' ∷ drop (suc i) authority) h
          ∙ ap (λ n. u.host ++ b':' ∷ drop n authority) (sym same),
      parse_u16-Numeral text u.port p,
    )

Path-split :
    (input rest : List ℕ) (found : Option ℕ) (u : Url)
    → input ≡ scheme ++ rest
    → find_byte b'/' rest ≡ found
    → parse_rest rest (split_path rest found) ≡ ok u
    → Reads input u
Path-split input rest none u w f h =
    let r =
      check-eq_ok (split_port rest (rfind_byte b':' rest)).0 (b'/' ∷ [])
        (split_port rest (rfind_byte b':' rest)).1 u h in
    record {
      authority = rest;
      tail = [];
      written = w ∙ ap (λ (ys : List ℕ). scheme ++ ys) (sym (append-nil rest));
      no_slash = find_byte-eq_none b'/' rest f;
      path = inl (refl, sym r.1);
      port = Port-split rest (rfind_byte b':' rest) u refl r.0 r.2;
      is_url = r.3;
    }
Path-split input rest (some i) u w f h =
    let authority = take i rest in
    let tail = drop i rest in
    let r =
      check-eq_ok (split_port authority (rfind_byte b':' authority)).0 tail
        (split_port authority (rfind_byte b':' authority)).1 u h in
    let cut = find_byte-eq_some b'/' rest i f in
    record {
      authority = authority;
      tail = tail;
      written = w ∙ ap (λ (ys : List ℕ). scheme ++ ys) (take-drop i rest);
      no_slash = cut.0;
      path = inr (cut.1.0, cut.1.1, sym r.1);
      port = Port-split authority (rfind_byte b':' authority) u refl r.0 r.2;
      is_url = r.3;
    }

-- Any input that `Url::parse` accepts is `http://`, an authority that ends before the first `/`, and the
-- rest. The path is that rest, `/` where it is empty. The authority is the host alone, the port being 80,
-- or the host, a `:` and the port in decimal, below 65536. The host is not empty and is letters, digits,
-- dots and dashes; the port is not zero; the path is graphic characters without `#`.
pub parse-Reads : (input : List ℕ) (u : Url) → parse input ≡ ok u → Reads input u
unfolding parse
parse-Reads input u h = elim (Bool-cases (starts_with scheme input)) [
  | inr e ↦ absurd (let q : err use_http ≡ ok u = sym (rw e refl) ∙ h in cc)
  | inl e ↦
      let rest = drop 7 input in
      Path-split input rest (find_byte b'/' rest) u (starts_with-drop scheme input e) refl
        (sym (rw e refl) ∙ h)
]
