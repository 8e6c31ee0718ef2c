-- ===== src/Net/Url/Search.antt =====
-- Searches for a byte in bytes that were put together.
use crab_os.Prelude.{
  ℕ, zero, suc, ◌+◌, ◌-◌, ◌*◌, ◌||◌, ◌≡◌, refl, sym, ◌∙◌, ap, Bool, true, false, not, ◌&&◌, none,
  some, List, [], ◌∷◌, ◌++◌, length, take, drop, all, ◌==◌, ==-eq_true, arith, Bool-cases, inl, inr,
  leb,
}
use crab_os.Net.Web.Bytes.{find_byte}
use crab_os.Net.Url.{rfind_byte, digits_from, parse_digits, parse_u16, is_digit}

-- Not that byte.
abbrev pub is_not : ℕ → ℕ → Bool
is_not b c = not (c == b)

pub find_byte-append :
    (b : ℕ) (xs ys : List ℕ)
    → all (is_not b) xs ≡ true
    → find_byte b (xs ++ b ∷ ys) ≡ some (length xs)
find_byte-append b [] ys h = rw (==-eq_true b b refl) refl
find_byte-append b (x ∷ xs) ys h =
    let e : (x == b) ≡ false = ground arith in rw (e, find_byte-append b xs ys (ground arith)) refl

pub rfind_byte-none : (b : ℕ) (xs : List ℕ) → all (is_not b) xs ≡ true → rfind_byte b xs ≡ none
rfind_byte-none b [] h = refl
rfind_byte-none b (x ∷ xs) h =
    let e : (x == b) ≡ false = ground arith in rw (rfind_byte-none b xs (ground arith), e) refl

pub rfind_byte-append :
    (b : ℕ) (xs ys : List ℕ)
    → all (is_not b) ys ≡ true
    → rfind_byte b (xs ++ b ∷ ys) ≡ some (length xs)
rfind_byte-append b [] ys h = rw (rfind_byte-none b ys h, ==-eq_true b b refl) refl
rfind_byte-append b (x ∷ xs) ys h = rw (rfind_byte-append b xs ys h) refl

pub take-length : (xs ys : List ℕ) → take (length xs) (xs ++ ys) ≡ xs
take-length [] ys = refl
take-length (x ∷ xs) ys = ap (λ (zs : List ℕ). x ∷ zs) (take-length xs ys)

pub drop-length : (xs ys : List ℕ) → drop (length xs) (xs ++ ys) ≡ ys
drop-length [] ys = refl
drop-length (x ∷ xs) ys = drop-length xs ys

pub drop-after : (xs ys : List ℕ) (b n : ℕ) → n ≡ length xs + 1 → drop n (xs ++ b ∷ ys) ≡ ys
drop-after [] ys b zero e = absurd (omega arith)
drop-after [] ys b (suc n) e = let z : n ≡ 0 = omega arith in rw z refl
drop-after (x ∷ xs) ys b zero e = absurd (omega arith)
drop-after (x ∷ xs) ys b (suc n) e = drop-after xs ys b n (omega arith)

-- All bytes that have one property have another.
pub all-weaken :
    (p q : ℕ → Bool) (xs : List ℕ)
    → ((c : ℕ) → p c ≡ true → q c ≡ true)
    → all p xs ≡ true
    → all q xs ≡ true
all-weaken p q [] f h = refl
all-weaken p q (x ∷ xs) f h =
    let a : p x ≡ true = ground arith in
    let b : all p xs ≡ true = ground arith in rw (f x a, all-weaken p q xs f b) refl

digits_from-all : (n : ℕ) (ds : List ℕ) (v : ℕ) → digits_from n ds ≡ some v → all is_digit ds ≡ true
digits_from-all n [] v h = refl
digits_from-all n (c ∷ ds) v h =
    elim (Bool-cases (is_digit c && leb (n * 10 + (c - b'0')) 0xffff)) [
      | inl e ↦
          let d : is_digit c ≡ true = ground arith in
          rw (d, digits_from-all (n * 10 + (c - b'0')) ds v (sym (rw e refl) ∙ h)) refl
      | inr e ↦ absurd (let q : none ≡ some v = sym (rw e refl) ∙ h in cc)
    ]

-- A port that parses as a number.
abbrev pub is_sign_or_digit : ℕ → Bool
is_sign_or_digit c = c == b'+' || is_digit c

pub parse_u16-all : (ds : List ℕ) (v : ℕ) → parse_u16 ds ≡ some v → all is_sign_or_digit ds ≡ true
parse_u16-all [] v h = absurd cc
parse_u16-all (c ∷ digits) v h = elim (Bool-cases (c == b'+')) [
  | inl e ↦ rw (e, signed digits (sym (rw e refl) ∙ h)) refl
  | inr e ↦
      all-weaken is_digit is_sign_or_digit (c ∷ digits) (λ d k. ground arith)
        (digits_from-all 0 (c ∷ digits) v (sym (rw e refl) ∙ h))
]
  where
    signed : (ds : List ℕ) → parse_digits ds ≡ some v → all is_sign_or_digit ds ≡ true
    signed [] k = refl
    signed (d ∷ ds) k =
        all-weaken is_digit is_sign_or_digit (d ∷ ds) (λ d k. ground arith)
          (digits_from-all 0 (d ∷ ds) v k)
