-- ===== src/Vga/Console/Redraw.antt =====
-- `Writer::replace_input`: the shell's input line is redrawn in place, and its anchor stays in the
-- ring. Scrolling stays in the ring, and writing returns to the live view.
use native.Mathlib.Nat.{div-lt_iff_lt-mul}
use crab_os.Prelude.{
  ℕ, ◌+◌, ◌-◌, ◌/◌, ◌≤◌, ◌<◌, ◌≡◌, refl, ◌∙◌, ap, max, min, true, Option, some, List, [], ◌∷◌,
  arith, le→leb, length, all, is_ascii, subst,
}
use crab_os.Shell.Line.{is_printable, max_input}
use crab_os.Vga.Console.{
  Position, Writer, terminal_rows, live_top, write_spaces, ensure_line, replace_input, offset,
  scroll_up, scroll_down,
}
use crab_os.Vga.Console.Offset.{column-offset-le, line-offset, line-offset-le}
use crab_os.Vga.Console.Bounds.{IsValid, Writes, ensure_line-Writes}
use crab_os.Vga.Console.Cursor.{Writes-IsValid}
use crab_os.Vga.Console.Write.{is_plain, write_string-Writes, write_spaces-Writes}

printable-plain : (text : List ℕ) → all is_printable text ≡ true → all is_plain text ≡ true
printable-plain [] h = refl
printable-plain (c ∷ text) h = ground (arith, printable-plain text)

printable-ascii : (text : List ℕ) → all is_printable text ≡ true → all is_ascii text ≡ true
printable-ascii [] h = refl
printable-ascii (c ∷ text) h = ground (arith, printable-ascii text)

-- The smallest width that the desktop gives a terminal.
abbrev pub min_columns : ℕ
min_columns = 36

-- An input line takes few rows.
few_rows :
    (width column n : ℕ)
    → min_columns ≤ width
    → column ≤ width
    → n ≤ max_input
    → (column + n) / width < 10
few_rows width column n wide inside short = (div-lt_iff_lt-mul (omega arith)).1 (omega arith)

-- A redraw returns a valid console with the cursor at its place in the text, and the anchor is still
-- one of the lines that the ring holds.
pub record Redraws (result : Option Writer) (w : Writer) (from : Position) (at : ℕ) : Type 0 where
  pub writer : Writer
  pub returns : result ≡ some writer
  pub valid : IsValid writer
  pub cursor : writer.cursor ≡ offset from at w.columns
  pub anchor : writer.first_line ≤ from.line
  pub columns : writer.columns ≡ w.columns

module _ (w : Writer) (anchor : Position) (v : IsValid w) where
  at_anchor :
      w.first_line ≤ anchor.line
      → anchor.line ≤ w.last_line
      → anchor.column ≤ w.columns
      → IsValid (record w { cursor = anchor })
  at_anchor above below column = record {
    grid = v.grid;
    columns = v.columns;
    column = column;
    first = v.first;
    above = above;
    below = below;
    view = v.view;
  }

-- Redrawing an input line of at most 256 printable bytes over one of at most 256, from an anchor in
-- the ring of a console of at least 36 columns, panics nowhere. The cursor stands where
-- `Position::offset` puts it, the console is valid, and the anchor is still in the ring.
pub replace_input-Redraws :
    (w : Writer) (anchor : Position) (text : List ℕ) (cursor old_len : ℕ)
    → IsValid w
    → w.first_line ≤ anchor.line
    → anchor.line ≤ w.last_line
    → anchor.column ≤ w.columns
    → min_columns ≤ w.columns
    → all is_printable text ≡ true
    → cursor ≤ length text
    → length text ≤ max_input
    → old_len ≤ max_input
    → Redraws (replace_input w anchor text cursor old_len) w anchor cursor
unfolding replace_input
replace_input-Redraws w anchor text cursor old_len v above below column wide ok at short old =
    let start = record w { cursor = anchor } in
    let v0 = at_anchor w anchor v above below column in
    let pos = v.columns.0 in
    let n = length text in
    let k = old_len - n in
    let p1 = offset anchor n w.columns in
    let p2 = offset p1 k w.columns in
    let r1 = write_string-Writes text start v0 (printable-plain text ok) in
    let down1 = line-offset w.columns pos anchor n column in
    let rows1 = few_rows w.columns anchor.column n wide column short in
    let le1 = line-offset-le w.columns pos anchor n in
    let in1 = column-offset-le w.columns pos anchor n column in
    let v1 = Writes-IsValid v0 r1 in1 (omega arith) in
    let r2 : Writes (write_spaces k r1.writer) r1.writer p2 =
      subst (Writes (write_spaces k r1.writer) r1.writer)
        (ap (λ (q : Position). offset q k r1.writer.columns) r1.cursor
          ∙ ap (offset p1 k) r1.columns)
        (write_spaces-Writes k r1.writer v1) in
    let down2 = line-offset w.columns pos p1 k in1 in
    let rows2 = few_rows w.columns p1.column k wide in1 (omega arith) in
    let le2 = line-offset-le w.columns pos p1 k in
    let target = offset anchor cursor w.columns in
    let down3 = line-offset w.columns pos anchor cursor column in
    let rows3 = few_rows w.columns anchor.column cursor wide column (omega arith) in
    let le3 = line-offset-le w.columns pos anchor cursor in
    let in3 = column-offset-le w.columns pos anchor cursor column in
    let w2 = record (r2.writer) { cursor = target } in
    let r3 = ensure_line-Writes w2 target r2.grid refl in
    let same_width = r2.columns ∙ r1.columns in
    let l1 = r1.last in
    let l2 = r2.last in
    let l3 = r3.last in
    let f3 = r3.first in
    let c3 = r3.columns in
    let u = v.columns in
    let g = v.first in
    let at_line : r3.writer.cursor.line ≡ target.line = ap (λ (q : Position). q.line) r3.cursor in
    let at_column : r3.writer.cursor.column ≡ target.column =
      ap (λ (q : Position). q.column) r3.cursor in
    let anchored : r3.writer.first_line ≤ anchor.line = omega arith in
    record {
      writer = r3.writer;
      returns =
          rw (le→leb _ _ above, printable-ascii text ok, le→leb _ _ at)
            (rw r1.returns (
              rw r2.returns (
                ap
                  (λ (c : ℕ).
                    ensure_line (record (r2.writer) { cursor = offset anchor cursor c })
                      (offset anchor cursor c).line)
                  same_width
                ∙ r3.returns)));
      valid = record {
        grid = r3.grid;
        columns = omega arith;
        column = omega arith;
        first = r3.first;
        above = omega arith;
        below = omega arith;
        view = r3.view;
      };
      cursor = r3.cursor;
      anchor = anchored;
      columns = c3 ∙ same_width;
    }

-- Scrolling keeps the console valid.
pub scroll_up-IsValid : (w : Writer) → IsValid w → IsValid (scroll_up w)
unfolding scroll_up
scroll_up-IsValid w v = record {
  grid = v.grid;
  columns = v.columns;
  column = v.column;
  first = v.first;
  above = v.above;
  below = v.below;
  view = let a = v.view in let f = v.first in omega arith;
}

pub scroll_down-IsValid : (w : Writer) → IsValid w → IsValid (scroll_down w)
unfolding scroll_down
scroll_down-IsValid w v = record {
  grid = v.grid;
  columns = v.columns;
  column = v.column;
  first = v.first;
  above = v.above;
  below = v.below;
  view = let a = v.view in let f = v.first in omega arith;
}

-- From the live view, a page up and then a page down shows the live view again.
scroll_down-scroll_up :
    (w : Writer) → IsValid w → w.view_top ≡ live_top w → scroll_down (scroll_up w) ≡ w
unfolding scroll_up scroll_down
scroll_down-scroll_up w v live =
    ap (λ (top : ℕ). record w { view_top = top }) (let a = v.view in let f = v.first in the_view)
  where
    the_view :
        min (max (w.view_top - (terminal_rows - 1)) w.first_line + (terminal_rows - 1)) (live_top w)
        ≡ w.view_top
    the_view = let a = v.view in let f = v.first in omega arith
