-- ===== src/Vga/Console/Bounds.antt =====
-- The console keeps its indices in range: no write panics, and the counters of the ring stay in step.
use crab_os.Prelude.{
  ℕ, zero, suc, ◌+◌, ◌-◌, ◌%◌, ◌≤◌, ◌<◌, ◌≡◌, refl, ◌∙◌, max, Option, some, List, arith, length,
  get_elem?, set, store-eq_some, get_elem?_of_lt, length-set, length-map, All, All-get_elem?,
  All-set,
}
use crab_os.Vga.Console.{
  ScreenChar, Position, Writer, buffer_width, scrollback_lines, terminal_rows, live_top, fill_blank,
  add_lines, ensure_line,
}

abbrev pub FullRow : List ScreenChar → Type 0
FullRow row = length row ≡ buffer_width

-- The shape of the ring: 128 lines of 80 cells.
pub record Grid (lines : List (List ScreenChar)) : Type 0 where
  pub size : length lines ≡ scrollback_lines
  pub rows : All FullRow lines

pub record IsValid (w : Writer) : Type 0 where
  pub grid : Grid w.lines
  pub columns : (0 < w.columns) × (w.columns ≤ buffer_width)
  pub column : w.cursor.column ≤ w.columns
  pub first : w.first_line ≡ w.last_line - (scrollback_lines - 1)
  pub above : w.first_line ≤ w.cursor.line
  pub below : w.cursor.line ≤ w.last_line
  pub view : (w.first_line ≤ w.view_top) × (w.view_top ≤ live_top w)

-- A write returns a console in which the cursor stands at `p`, the view is in the ring, and the ring has
-- grown to the cursor's line; width and color are those of `w`.
pub record Writes (result : Option Writer) (w : Writer) (p : Position) : Type 0 where
  pub writer : Writer
  pub returns : result ≡ some writer
  pub grid : Grid writer.lines
  pub cursor : writer.cursor ≡ p
  pub last : writer.last_line ≡ max w.last_line p.line
  pub first : writer.first_line ≡ writer.last_line - (scrollback_lines - 1)
  pub view : (writer.first_line ≤ writer.view_top) × (writer.view_top ≤ live_top writer)
  pub columns : writer.columns ≡ w.columns
  pub color : writer.color ≡ w.color

pub Grid-set :
    (lines : List (List ScreenChar)) (i : ℕ) (row : List ScreenChar)
    → Grid lines
    → FullRow row
    → Grid (set lines i row)
Grid-set lines i row g full = record {
  size = length-set lines i row ∙ g.size;
  rows = All-set FullRow lines i row g.rows full;
}

-- The line of the ring that holds a line of the console.
pub row_of :
    (lines : List (List ScreenChar)) (line : ℕ)
    → Grid lines
    → (row : List ScreenChar) × (get_elem? lines (line % scrollback_lines) ≡ some row)
      × FullRow row
      × (line % scrollback_lines < length lines)
row_of lines line g =
    let inside : line % scrollback_lines < length lines = let s = g.size in omega arith in
    let (row, at) = get_elem?_of_lt lines (line % scrollback_lines) inside in
    (row, at, All-get_elem? FullRow lines (line % scrollback_lines) row g.rows at, inside)

-- What the loop of `ensure_line` leaves.
add_lines-Grid :
    (n : ℕ) (w : Writer)
    → Grid w.lines
    → (lines : List (List ScreenChar)) × (last : ℕ) × (add_lines n w
        ≡ some (record w { lines = lines; last_line = last }))
      × Grid lines
      × (last ≡ w.last_line + n)
unfolding add_lines
add_lines-Grid zero w g = (w.lines, w.last_line, refl, g, omega arith)
add_lines-Grid (suc n) w g =
    let last = w.last_line + 1 in
    let (row, at, full, inside) = row_of w.lines last g in
    let cleared = fill_blank row in
    let lines = set w.lines (last % scrollback_lines) cleared in
    let g' = Grid-set w.lines (last % scrollback_lines) cleared g (length-map row _ ∙ full) in
    let (lines', last', returns, grid, size) =
      add_lines-Grid n (record w { lines = lines; last_line = last }) g' in
    (
      lines',
      last',
      rw at (rw (store-eq_some w.lines (last % scrollback_lines) cleared inside) returns),
      grid,
      omega arith,
    )

-- `ensure_line` where the cursor stands at the line.
pub ensure_line-Writes :
    (w : Writer) (p : Position) → Grid w.lines → w.cursor ≡ p → Writes (ensure_line w p.line) w p
unfolding ensure_line
ensure_line-Writes w p g at =
    let (lines, last, returns, grid, size) = add_lines-Grid (p.line - w.last_line) w g in
    record {
      writer = record w {
        lines = lines;
        last_line = last;
        first_line = last - (scrollback_lines - 1);
        view_top = last - (terminal_rows - 1);
      };
      returns = rw returns;
      grid = grid;
      cursor = at;
      last = omega arith;
      first = refl;
      view = omega arith;
      columns = refl;
      color = refl;
    }
