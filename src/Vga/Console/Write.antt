-- ===== src/Vga/Console/Write.antt =====
-- Writing a text: where the cursor ends, and that the console stays valid.
use crab_os.Prelude.{
  ℕ, zero, suc, ◌-◌, ◌%◌, ◌≤◌, ◌≡◌, refl, ◌∙◌, Bool, true, false, not, ◌&&◌, Option, some, List, [],
  ◌∷◌, arith, ◌==◌, if◌then◌else◌, Bool-cases, inl, inr, length, all, ◌>>=◌, is_ascii, subst,
}
use crab_os.Vga.Console.{
  Position, Writer, scroll_live, write_plain, write_spaces, write_byte, write_string, offset,
}
use crab_os.Vga.Console.Offset.{advance, offset-zero, offset-advance, column-offset-le, line-offset}
use crab_os.Vga.Console.Bounds.{IsValid, Writes}
use crab_os.Vga.Console.Cursor.{
  Writes-IsValid, Writes-bind, none-Writes, line_feed-Writes, write_plain-Writes,
  write_plain-IsValid, advance_bounds, rebase,
}

-- A character that moves the cursor by one place: no tab, line feed or carriage return.
abbrev pub is_plain : ℕ → Bool
is_plain c = not (c == 9) && (not (c == 10) && not (c == 13))

-- A plain write, and then a write of `n` bytes.
plain_then :
    (w : Writer) (v : IsValid w) (byte n : ℕ) (f : Writer → Option Writer)
    → ((w' : Writer) → IsValid w' → Writes (f w') w' (offset w'.cursor n w'.columns))
    → Writes (write_plain w byte >>= f) w (offset w.cursor (suc n) w.columns)
plain_then w v byte n f rest =
    let r = write_plain-Writes w byte v in
    let s = rest r.writer (write_plain-IsValid w v byte) in
    let target : offset r.writer.cursor n r.writer.columns ≡ offset w.cursor (suc n) w.columns =
      rw (r.cursor, r.columns) (offset-advance w.columns v.columns.0 w.cursor n v.column) in
    Writes-bind f r (subst (Writes (f r.writer) r.writer) target s) below
  where
    below : (advance w.columns w.cursor).line ≤ (offset w.cursor (suc n) w.columns).line
    below =
        subst (λ (q : Position). (advance w.columns w.cursor).line ≤ q.line)
          (offset-advance w.columns v.columns.0 w.cursor n v.column)
          (line-offset w.columns v.columns.0 (advance w.columns w.cursor) n (advance_bounds w v).0)

pub write_spaces-Writes :
    (n : ℕ) (w : Writer) → IsValid w → Writes (write_spaces n w) w (offset w.cursor n w.columns)
unfolding write_spaces
write_spaces-Writes zero w v =
    rw (offset-zero w.columns v.columns.0 w.cursor v.column) (none-Writes w v)
write_spaces-Writes (suc n) w v = plain_then w v b' ' n (write_spaces n) (write_spaces-Writes n)

-- The byte of a character.
abbrev shown : ℕ → ℕ
shown c = if is_ascii c then c else 0xfe

shown_plain :
    (c : ℕ)
    → is_plain c ≡ true
    → ((shown c == 10) ≡ false) × ((shown c == 13) ≡ false) × ((shown c == 9) ≡ false)
shown_plain c h = (ground arith, ground arith, ground arith)

write_byte-eq_plain :
    (w : Writer) (c : ℕ) → is_plain c ≡ true → write_byte w (shown c) ≡ write_plain w (shown c)
unfolding write_byte
write_byte-eq_plain w c h = let (feed, back, tab) = shown_plain c h in rw (feed, back, tab)

-- Writing plain characters moves the cursor as `Position::offset` says, past the ends of rows and
-- with a wrap pending at the end of the last; the ring grows to the cursor's line, the view stays
-- in it, width and color are kept, and no index is out of range.
pub write_string-Writes :
    (text : List ℕ) (w : Writer)
    → IsValid w
    → all is_plain text ≡ true
    → Writes (write_string w text) w (offset w.cursor (length text) w.columns)
unfolding write_string
write_string-Writes [] w v h =
    rw (offset-zero w.columns v.columns.0 w.cursor v.column) (none-Writes w v)
write_string-Writes (c ∷ text) w v h = rw (write_byte-eq_plain w c (ground arith)) (
    plain_then w v (shown c) (length text) (λ w'. write_string w' text)
      (λ w' v'. write_string-Writes text w' v' (ground arith)))

-- A valid console with the width and the color of `w`.
pub record Keeps (result : Option Writer) (w : Writer) : Type 0 where
  pub writer : Writer
  pub returns : result ≡ some writer
  pub valid : IsValid writer
  pub columns : writer.columns ≡ w.columns
  pub color : writer.color ≡ w.color

Writes-Keeps :
    {result : Option Writer} {w : Writer} {p : Position}
    → IsValid w
    → Writes result w p
    → p.column ≤ w.columns
    → w.first_line ≤ p.line
    → Keeps result w
Writes-Keeps v r fits behind = record {
  writer = r.writer;
  returns = r.returns;
  valid = Writes-IsValid v r fits behind;
  columns = r.columns;
  color = r.color;
}

live-IsValid : (w : Writer) → IsValid w → IsValid (scroll_live w)
live-IsValid w v = record {
  grid = v.grid;
  columns = v.columns;
  column = v.column;
  first = v.first;
  above = v.above;
  below = v.below;
  view = let a = v.first in omega arith;
}

write_byte-Keeps : (w : Writer) (byte : ℕ) → IsValid w → Keeps (write_byte w byte) w
unfolding write_byte
write_byte-Keeps w byte v = elim (Bool-cases (byte == 10)) [
  | inl e ↦ rw e (
      Writes-Keeps v (rebase (line_feed-Writes (scroll_live w) v.grid)) (omega arith)
        (let a = v.above in omega arith))
  | inr e ↦ rw e (elim (Bool-cases (byte == 13)) [
    | inl e ↦ rw e (record {
      writer = record (scroll_live w) { cursor = record { line = w.cursor.line; column = 0 } };
      returns = refl;
      valid = record {
        grid = v.grid;
        columns = v.columns;
        column = omega arith;
        first = v.first;
        above = v.above;
        below = v.below;
        view = let a = v.first in omega arith;
      };
      columns = refl;
      color = refl;
    })
    | inr e ↦ rw e (elim (Bool-cases (byte == 9)) [
      | inl e ↦
          let n = 4 - w.cursor.column % 4 in
          rw e (
            Writes-Keeps v (rebase (write_spaces-Writes n (scroll_live w) (live-IsValid w v)))
              (column-offset-le w.columns v.columns.0 w.cursor n v.column)
              (let a = v.above in
                let b = line-offset w.columns v.columns.0 w.cursor n v.column in omega arith))
      | inr e ↦
          let b = advance_bounds w v in
          rw e (Writes-Keeps v (write_plain-Writes w byte v) b.0 (let a = v.above in omega arith))
    ])
  ])
]

-- Writing any text to a valid console panics nowhere, and leaves a valid console of the same width
-- and color: the ring has 128 lines of 80 cells and holds the last 128 lines, the cursor stands in
-- them and in its row, and the view is in them.
pub write_string-Keeps : (text : List ℕ) (w : Writer) → IsValid w → Keeps (write_string w text) w
unfolding write_string
write_string-Keeps [] w v = record {
  writer = w;
  returns = refl;
  valid = v;
  columns = refl;
  color = refl;
}
write_string-Keeps (c ∷ text) w v =
    let r = write_byte-Keeps w (shown c) v in
    let s = write_string-Keeps text r.writer r.valid in
    record {
      writer = s.writer;
      returns = rw r.returns s.returns;
      valid = s.valid;
      columns = s.columns ∙ r.columns;
      color = s.color ∙ r.color;
    }
