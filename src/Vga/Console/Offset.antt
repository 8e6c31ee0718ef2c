-- ===== src/Vga/Console/Offset.antt =====
-- `Position::offset` against the step of the cursor that one written byte makes.
use native.Mathlib.Nat.{
  mul-add-div_right, div-eq_of_lt, add-mul-mod_self_right, mod-eq_of_lt, add_comm, mod-lt,
  div-add-mod', add-zero,
}
use crab_os.Prelude.{
  ℕ, zero, suc, ◌+◌, ◌-◌, ◌*◌, ◌/◌, ◌%◌, ◌≤◌, ◌<◌, ◌≡◌, sym, ◌∙◌, ap, ◌&&◌, arith, ltb, ◌==◌,
  if◌then◌else◌, dec_lt,
}
use crab_os.Vga.Console.{Position, offset}

abbrev position : ℕ → ℕ → Position
position line column = record { line = line; column = column }

-- The place of the byte behind: at the end of a row the cursor waits, and the next byte wraps.
abbrev pub advance : ℕ → Position → Position
advance width p =
    if p.column == width then position (p.line + 1) 1 else position p.line (p.column + 1)

-- `offset` by the quotient and the remainder of the column that is not yet wrapped.
abbrev wrapped : ℕ → ℕ → ℕ → ℕ → Position
wrapped width line q r =
    if ltb 0 q && r == 0 then position (line + q - 1) width else position (line + q) r

module _ (q r width : ℕ) (small : r < width) where
  div_of_parts : (q * width + r) / width ≡ q
  div_of_parts = rw (mul-add-div_right {m = width} (omega arith) q r, div-eq_of_lt small, add-zero)

  mod_of_parts : (q * width + r) % width ≡ r
  mod_of_parts = rw (add_comm (q * width) r, add-mul-mod_self_right r q width, mod-eq_of_lt small)

  positive_parts : (ltb 0 (q * width + r) && r == 0) ≡ (ltb 0 q && r == 0)
  positive_parts = grind arith

  offset-eq-wrapped :
      (p : Position) (bytes : ℕ)
      → p.column + bytes ≡ q * width + r
      → offset p bytes width ≡ wrapped width p.line q r
  unfolding offset
  offset-eq-wrapped p bytes e = rw (e, div_of_parts, mod_of_parts, positive_parts)

advance-wrapped :
    (q r width line : ℕ)
    → suc r < width
    → advance width (wrapped width line q r) ≡ wrapped width line q (r + 1)
advance-wrapped q r width line h = ground arith

advance-wrapped_last :
    (q r width line : ℕ)
    → suc r ≡ width
    → advance width (wrapped width line q r) ≡ wrapped width line (q + 1) 0
advance-wrapped_last q r width line h = ground arith

module _ (width : ℕ) (pos : 0 < width) (p : Position) where
  -- One more byte is one more step of the cursor.
  offset-suc : (n : ℕ) → offset p (suc n) width ≡ advance width (offset p n width)
  offset-suc n =
      let o = p.column + n in
      let q = o / width in
      let r = o % width in
      let small : r < width = mod-lt o pos in
      let parts : o ≡ q * width + r = sym (div-add-mod' o width) in
      rw (offset-eq-wrapped q r width small p n parts) (elim (dec_lt (suc r) width) [
        | yes h ↦
            rw (offset-eq-wrapped q (r + 1) width (omega arith) p (suc n) (omega arith))
              (sym (advance-wrapped q r width p.line h))
        | no h ↦
            rw (offset-eq-wrapped (q + 1) 0 width pos p (suc n) (grind arith))
              (sym (advance-wrapped_last q r width p.line (omega arith)))
      ])

  pub offset-zero : p.column ≤ width → offset p 0 width ≡ p
  offset-zero h = elim (dec_lt p.column width) [
    | yes k ↦ rw (offset-eq-wrapped 0 p.column width k p 0 (omega arith)) (ground arith)
    | no k ↦ rw (offset-eq-wrapped 1 0 width pos p 0 (omega arith)) (ground arith)
  ]

  -- The column stays in the row, or waits at its end.
  pub column-offset-le : (n : ℕ) → p.column ≤ width → (offset p n width).column ≤ width
  column-offset-le zero h = rw (offset-zero h) h
  column-offset-le (suc n) h = let ih = column-offset-le n h in rw (offset-suc n) (ground arith)

  -- No byte moves the cursor up, and each row takes a whole row of bytes.
  pub line-offset : (n : ℕ) → p.column ≤ width → p.line ≤ (offset p n width).line
  line-offset zero h = rw (offset-zero h) (omega arith)
  line-offset (suc n) h = let ih = line-offset n h in rw (offset-suc n) (ground arith)

  line-offset_mono :
      (n m : ℕ) → p.column ≤ width → n ≤ m → (offset p n width).line ≤ (offset p m width).line
  line-offset_mono n zero h k = let e : n ≡ 0 = omega arith in rw e (omega arith)
  line-offset_mono n (suc m) h k = elim (dec_lt n (suc m)) [
    | yes l ↦ let ih = line-offset_mono n m h (omega arith) in rw (offset-suc m) (ground arith)
    | no l ↦ let e : n ≡ suc m = omega arith in rw e (omega arith)
  ]

  -- A text takes at most so many rows.
  pub line-offset-le : (n : ℕ) → (offset p n width).line ≤ p.line + (p.column + n) / width
  unfolding offset
  line-offset-le n = ground arith

-- A step first and then `n` more.
pub offset-advance :
    (width : ℕ) (pos : 0 < width) (p : Position) (n : ℕ)
    → p.column ≤ width
    → offset (advance width p) n width ≡ offset p (suc n) width
offset-advance width pos p zero h =
    let fits : (advance width p).column ≤ width = ground arith in
    offset-zero width pos (advance width p) fits
    ∙ sym (offset-suc width pos p 0 ∙ ap (advance width) (offset-zero width pos p h))
offset-advance width pos p (suc n) h =
    offset-suc width pos (advance width p) n
    ∙ (ap (advance width) (offset-advance width pos p n h) ∙ sym (offset-suc width pos p (suc n)))
