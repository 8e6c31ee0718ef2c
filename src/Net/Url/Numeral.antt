-- ===== src/Net/Url/Numeral.antt =====
-- `str::parse::<u16>` as Net/Url reads it, and what it accepts: a port in decimal.
use crab_os.Prelude.{
  ℕ, ◌+◌, ◌-◌, ◌*◌, ◌<◌, ◌≤◌, ◌≡◌, ◌⊎◌, inl, inr, refl, sym, ◌∙◌, ap, subst, All, ◌&&◌, Bool-cases,
  none, some, List, [], ◌∷◌, length, ◌==◌, leb, arith,
}
use crab_os.Net.Url.{is_digit, digits_from, parse_digits, parse_u16}

-- The number that decimal digits stand for, behind digits that stand for `n`.
abbrev pub decimal : ℕ → List ℕ → ℕ
decimal n [] = n
decimal n (c ∷ digits) = decimal (n * 10 + (c - 48)) digits

-- `text` is the number in decimal, a `+` allowed before it.
pub record Numeral (text : List ℕ) (n : ℕ) : Type 0 where
  pub digits : List ℕ
  pub sign : (text ≡ digits) ⊎ (text ≡ b'+' ∷ digits)
  pub some_digit : 0 < length digits
  pub all_digits : All (λ c. (48 ≤ c) × (c ≤ 57)) digits
  pub value : decimal 0 digits ≡ n
  pub bound : n < 65536

digits_from-eq_some :
    (n : ℕ) (ds : List ℕ) (v : ℕ)
    → n < 65536
    → digits_from n ds ≡ some v
    → All (λ c. (48 ≤ c) × (c ≤ 57)) ds × (decimal n ds ≡ v) × (v < 65536)
digits_from-eq_some n [] v l h = let e : n ≡ v = cc in (tt, e, subst (λ m. m < 65536) e l)
digits_from-eq_some n (c ∷ ds) v l h =
    elim (Bool-cases (is_digit c && leb (n * 10 + (c - b'0')) 0xffff)) [
      | inr e ↦ absurd (let q : none ≡ some v = sym (rw e refl) ∙ h in cc)
      | inl e ↦
          let r =
            digits_from-eq_some (n * 10 + (c - b'0')) ds v (ground arith) (sym (rw e refl) ∙ h) in
          ((ground arith, r.0), r.1, r.2)
    ]

parse_digits-Numeral :
    (text ds : List ℕ) (v : ℕ)
    → (text ≡ ds) ⊎ (text ≡ b'+' ∷ ds)
    → parse_digits ds ≡ some v
    → Numeral text v
parse_digits-Numeral text [] v s h = absurd cc
parse_digits-Numeral text (c ∷ ds) v s h =
    let r = digits_from-eq_some 0 (c ∷ ds) v (omega arith) h in
    record {
      digits = c ∷ ds;
      sign = s;
      some_digit = omega arith;
      all_digits = r.0;
      value = r.1;
      bound = r.2;
    }

pub parse_u16-Numeral : (text : List ℕ) (v : ℕ) → parse_u16 text ≡ some v → Numeral text v
parse_u16-Numeral [] v h = absurd cc
parse_u16-Numeral (c ∷ ds) v h = elim (Bool-cases (c == b'+')) [
  | inl e ↦
      let same : c ≡ b'+' = ground arith in
      parse_digits-Numeral (c ∷ ds) ds v (inr (ap (λ d. d ∷ ds) same)) (sym (rw e refl) ∙ h)
  | inr e ↦ parse_digits-Numeral (c ∷ ds) (c ∷ ds) v (inl refl) (sym (rw e refl) ∙ h)
]
