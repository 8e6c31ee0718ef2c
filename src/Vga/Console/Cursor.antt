-- ===== src/Vga/Console/Cursor.antt =====
-- Where the cursor stands behind written bytes, and that every write is safe.
use crab_os.Prelude.{
  ℕ, ◌+◌, ◌%◌, ◌≤◌, ◌<◌, ◌≡◌, refl, ◌∙◌, ap, Option, some, List, arith, ◌==◌, Bool-cases, inl, inr,
  set, store-eq_some, length-set, ◌>>=◌,
}
use crab_os.Vga.Console.{
  ScreenChar, Position, Writer, buffer_width, scrollback_lines, line_feed, put, cell_of,
  scroll_live, write_plain,
}
use crab_os.Vga.Console.Offset.{advance}
use crab_os.Vga.Console.Bounds.{Grid, IsValid, Writes, Grid-set, row_of, ensure_line-Writes}

abbrev position : ℕ → ℕ → Position
position line column = record { line = line; column = column }

-- A write whose cursor stays behind the oldest line and within its row keeps the invariant.
pub Writes-IsValid :
    {result : Option Writer} {w : Writer} {p : Position}
    → IsValid w
    → (r : Writes result w p) → p.column ≤ w.columns
    → w.first_line ≤ p.line
    → IsValid r.writer
Writes-IsValid {w = w} {p = p} v r fits behind =
    let l = r.last in
    let f = r.first in
    let c = r.columns in
    let u = v.columns in
    let k = r.view in
    let g = v.first in
    let at : r.writer.cursor.line ≡ p.line = ap (λ (q : Position). q.line) r.cursor in
    let column : r.writer.cursor.column ≡ p.column = ap (λ (q : Position). q.column) r.cursor in
    record {
      grid = r.grid;
      columns = omega arith;
      column = omega arith;
      first = r.first;
      above = omega arith;
      below = omega arith;
      view = r.view;
    }

pub line_feed-Writes :
    (w : Writer) → Grid w.lines → Writes (line_feed w) w (position (w.cursor.line + 1) 0)
unfolding line_feed
line_feed-Writes w g =
    let p = position (w.cursor.line + 1) 0 in
    let r = ensure_line-Writes (record w { cursor = p }) p g refl in
    record {
      writer = r.writer;
      returns = r.returns;
      grid = r.grid;
      cursor = r.cursor;
      last = r.last;
      first = r.first;
      view = r.view;
      columns = r.columns;
      color = r.color;
    }

put-stores :
    (w : Writer) (byte : ℕ)
    → Grid w.lines
    → w.cursor.column < buffer_width
    → (lines : List (List ScreenChar)) × (put w byte
        ≡ some (record w { lines = lines; cursor = position w.cursor.line (w.cursor.column + 1) }))
      × Grid lines
unfolding put
put-stores w byte g inside =
    let (row, at, full, place) = row_of w.lines w.cursor.line g in
    let row' = set row w.cursor.column (cell_of w byte) in
    let store_cell = store-eq_some row w.cursor.column (cell_of w byte) (omega arith) in
    let store_row = store-eq_some w.lines (w.cursor.line % scrollback_lines) row' place in
    (
      set w.lines (w.cursor.line % scrollback_lines) row',
      rw at (rw store_cell (rw store_row)),
      Grid-set w.lines (w.cursor.line % scrollback_lines) row' g (length-set row _ _ ∙ full),
    )

-- `put` behind a write that left room in the row.
put-Writes :
    {result : Option Writer} {w : Writer} {p : Position} (byte : ℕ)
    → (r : Writes result w p) → p.column < buffer_width
    → Writes (result >>= λ w'. put w' byte) w (position p.line (p.column + 1))
put-Writes {result} {w} {p} byte r inside =
    let column : r.writer.cursor.column ≡ p.column = ap (λ (q : Position). q.column) r.cursor in
    let (lines, returns, grid) = put-stores r.writer byte r.grid (omega arith) in
    record {
      writer = record (r.writer) {
        lines = lines;
        cursor = position r.writer.cursor.line (r.writer.cursor.column + 1);
      };
      returns = rw r.returns returns;
      grid = grid;
      cursor = ap (λ (q : Position). position q.line (q.column + 1)) r.cursor;
      last = r.last;
      first = r.first;
      view = r.view;
      columns = r.columns;
      color = r.color;
    }

-- A console whose view is live, seen as the result of a write that wrote nothing.
live-Writes : (w : Writer) → IsValid w → Writes (some (scroll_live w)) w w.cursor
live-Writes w v = record {
  writer = scroll_live w;
  returns = refl;
  grid = v.grid;
  cursor = refl;
  last = let b = v.below in omega arith;
  first = v.first;
  view = let a = v.above in omega arith;
  columns = refl;
  color = refl;
}

-- The view of the console that is written to does not matter.
pub rebase :
    {result : Option Writer} {w : Writer} {p : Position}
    → Writes result (scroll_live w) p
    → Writes result w p
rebase r = record {
  writer = r.writer;
  returns = r.returns;
  grid = r.grid;
  cursor = r.cursor;
  last = r.last;
  first = r.first;
  view = r.view;
  columns = r.columns;
  color = r.color;
}

pub write_plain-Writes :
    (w : Writer) (byte : ℕ) → IsValid w → Writes (write_plain w byte) w (advance w.columns w.cursor)
unfolding write_plain
write_plain-Writes w byte v = elim (Bool-cases (w.cursor.column == w.columns)) [
  | inl wrap ↦
      rw wrap (put-Writes byte (rebase (line_feed-Writes (scroll_live w) v.grid)) (omega arith))
  | inr room ↦
      rw room
        (put-Writes byte (live-Writes w v) (let c = v.columns in let k = v.column in ground arith))
]

-- Two writes, one behind the other.
pub Writes-bind :
    {m : Option Writer} {w : Writer} {p q : Position} (f : Writer → Option Writer)
    → (r : Writes m w p) → Writes (f r.writer) r.writer q
    → p.line ≤ q.line
    → Writes (m >>= f) w q
Writes-bind f r s h =
    let l = r.last in
    let l' = s.last in
    record {
      writer = s.writer;
      returns = rw r.returns s.returns;
      grid = s.grid;
      cursor = s.cursor;
      last = omega arith;
      first = s.first;
      view = s.view;
      columns = s.columns ∙ r.columns;
      color = s.color ∙ r.color;
    }

-- Nothing is written.
pub none-Writes : (w : Writer) → IsValid w → Writes (some w) w w.cursor
none-Writes w v = record {
  writer = w;
  returns = refl;
  grid = v.grid;
  cursor = refl;
  last = let b = v.below in omega arith;
  first = v.first;
  view = v.view;
  columns = refl;
  color = refl;
}

module _ (w : Writer) (v : IsValid w) where
  pub advance_bounds :
      ((advance w.columns w.cursor).column ≤ w.columns)
      × (w.cursor.line ≤ (advance w.columns w.cursor).line)
  advance_bounds = let c = v.columns in let k = v.column in (ground arith, ground arith)

  pub write_plain-IsValid : (byte : ℕ) → IsValid (write_plain-Writes w byte v).writer
  write_plain-IsValid byte =
      let b = advance_bounds in
      let a = v.above in Writes-IsValid v (write_plain-Writes w byte v) b.0 (omega arith)
