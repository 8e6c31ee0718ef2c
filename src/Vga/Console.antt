-- ===== src/Vga/Console.antt =====
-- The console of src/vga_buffer.rs: `Position`, `Writer` and its methods, over a ring of 128 lines.
-- A method that may panic returns an `Option`, and `none` is the panic.
pub mod Offset
pub mod Bounds
pub mod Cursor
pub mod Write
pub mod Redraw
use crab_os.Prelude.{
  ℕ, zero, suc, ◌+◌, ◌-◌, ◌*◌, ◌/◌, ◌%◌, max, min, Bool, true, false, not, ◌&&◌, ◌||◌, Option, none,
  some, List, [], ◌∷◌, map, ltb, leb, ◌==◌, if◌then◌else◌, length, get_elem?, set, replicate, all,
  store, assert, is_ascii, is_ascii_graphic, ◌>>=◌, ◌>>◌,
}

pub data Color : Type 0 where
  black blue green cyan red magenta brown light_gray : Color
  dark_gray light_blue light_green light_cyan light_red pink yellow white : Color

-- `color as u8`
abbrev pub color_number : Color → ℕ
color_number black = 0
color_number blue = 1
color_number green = 2
color_number cyan = 3
color_number red = 4
color_number magenta = 5
color_number brown = 6
color_number light_gray = 7
color_number dark_gray = 8
color_number light_blue = 9
color_number light_green = 10
color_number light_cyan = 11
color_number light_red = 12
color_number pink = 13
color_number yellow = 14
color_number white = 15

pub record ScreenChar : Type 0 where
  pub ascii_character : ℕ
  pub color_code : ℕ

abbrev pub blank : ScreenChar
blank = record { ascii_character = b' '; color_code = color_number light_gray }

abbrev pub buffer_height : ℕ
buffer_height = 25

abbrev pub buffer_width : ℕ
buffer_width = 80

abbrev pub terminal_rows : ℕ
terminal_rows = 16

abbrev pub scrollback_lines : ℕ
scrollback_lines = 128

pub record Position : Type 0 where
  pub line : ℕ
  pub column : ℕ

-- `Position::offset`. The subtraction is made only where the quotient is positive.
unfoldable pub offset : Position → ℕ → ℕ → Position
offset p bytes width =
    let offset = p.column + bytes in
    if ltb 0 offset && offset % width == 0
    then record { line = p.line + offset / width - 1; column = width }
    else record { line = p.line + offset / width; column = offset % width }

pub record Writer : Type 0 where
  pub lines : List (List ScreenChar)
  pub cursor : Position
  pub last_line : ℕ
  pub first_line : ℕ
  pub view_top : ℕ
  pub color : ℕ
  pub columns : ℕ

abbrev pub blank_lines : List (List ScreenChar)
blank_lines = replicate scrollback_lines (replicate buffer_width blank)

abbrev pub origin : Position
origin = record { line = 0; column = 0 }

-- `Writer::new`
abbrev pub new : Writer
new = record {
  lines = blank_lines;
  cursor = origin;
  last_line = 0;
  first_line = 0;
  view_top = 0;
  color = color_number light_gray;
  columns = buffer_width;
}

-- `line.fill(BLANK)`
abbrev pub fill_blank : List ScreenChar → List ScreenChar
fill_blank = map (λ _. blank)

unfoldable pub clear : Writer → Writer
clear w = record w {
  lines = map fill_blank w.lines;
  cursor = origin;
  last_line = 0;
  first_line = 0;
  view_top = 0;
  color = color_number light_gray;
}

-- `(background as u8) << 4 | foreground as u8`, where the foreground has four bits.
abbrev pub color_code : Color → Color → ℕ
color_code foreground background = color_number background * 16 + color_number foreground

unfoldable pub set_color : Writer → Color → Color → Writer
set_color w foreground background = record w { color = color_code foreground background }

unfoldable pub set_columns : Writer → ℕ → Option Writer
set_columns w columns =
    assert (leb 1 columns && leb columns buffer_width) >> some (record w { columns = columns })

abbrev pub live_top : Writer → ℕ
live_top w = w.last_line - (terminal_rows - 1)

-- The rounds of the loop in `ensure_line`: each adds a line and clears its place in the ring.
unfoldable pub add_lines : ℕ → Writer → Option Writer
add_lines zero w = some w
add_lines (suc rounds) w = do
  let last = w.last_line + 1
  row ← get_elem? w.lines (last % scrollback_lines)
  lines ← store w.lines (last % scrollback_lines) (fill_blank row)
  add_lines rounds (record w { lines = lines; last_line = last })

-- `while self.last_line < line` makes `line - last_line` rounds.
unfoldable pub ensure_line : Writer → ℕ → Option Writer
unfolding add_lines
ensure_line w line = do
  w' ← add_lines (line - w.last_line) w
  some (record w' { first_line = w'.last_line - (scrollback_lines - 1); view_top = live_top w' })

-- The branch for a line feed.
unfoldable pub line_feed : Writer → Option Writer
unfolding ensure_line
line_feed w =
    ensure_line (record w { cursor = record { line = w.cursor.line + 1; column = 0 } })
      (w.cursor.line + 1)

-- The byte that is shown for a byte.
abbrev pub glyph : ℕ → ℕ
glyph byte = if is_ascii_graphic byte || byte == b' ' then byte else 0xfe

abbrev pub cell_of : Writer → ℕ → ScreenChar
cell_of w byte = record { ascii_character = glyph byte; color_code = w.color }

-- The store of a cell and the step of the cursor.
unfoldable pub put : Writer → ℕ → Option Writer
put w byte = do
  row ← get_elem? w.lines (w.cursor.line % scrollback_lines)
  row' ← store row w.cursor.column (cell_of w byte)
  lines ← store w.lines (w.cursor.line % scrollback_lines) row'
  some (record w {
    lines = lines;
    cursor = record { line = w.cursor.line; column = w.cursor.column + 1 };
  })

-- `self.view_top = self.live_top()`, the first statement of `write_byte`.
abbrev pub scroll_live : Writer → Writer
scroll_live w = record w { view_top = live_top w }

-- `write_byte` of a byte that is no line feed, carriage return or tab: its last branch.
unfoldable pub write_plain : Writer → ℕ → Option Writer
unfolding line_feed put
write_plain w byte =
    let live = scroll_live w in
    (if live.cursor.column == live.columns then line_feed (scroll_live live) else some live)
    >>= λ w'. put w' byte

-- A space written so many times.
unfoldable pub write_spaces : ℕ → Writer → Option Writer
unfolding write_plain
write_spaces zero w = some w
write_spaces (suc n) w = write_plain w b' ' >>= write_spaces n

unfoldable pub write_byte : Writer → ℕ → Option Writer
unfolding line_feed write_plain write_spaces
write_byte w byte =
    let live = scroll_live w in
    if byte == 10
    then line_feed live
    else if byte == 13
    then some (record live { cursor = record { line = live.cursor.line; column = 0 } })
    else if byte == 9
    then write_spaces (4 - live.cursor.column % 4) live
    else write_plain w byte

-- `write_string`, on the code points of the text.
unfoldable pub write_string : Writer → List ℕ → Option Writer
unfolding write_byte
write_string w [] = some w
write_string w (character ∷ text) =
    write_byte w (if is_ascii character then character else 0xfe) >>= λ w'. write_string w' text

-- Redraw the input line behind `anchor`, and clear what an older, longer line left.
unfoldable pub replace_input : Writer → Position → List ℕ → ℕ → ℕ → Option Writer
unfolding write_string write_spaces ensure_line offset
replace_input w anchor text cursor old_len =
    assert (leb w.first_line anchor.line)
    >> (assert (all is_ascii text && leb cursor (length text))
        >> (write_string (record w { cursor = anchor }) text >>= λ w1.
            write_spaces (old_len - length text) w1 >>= λ w2.
            let target = offset anchor cursor w2.columns in
            ensure_line (record w2 { cursor = target }) target.line))

unfoldable pub scroll_up : Writer → Writer
scroll_up w = record w { view_top = max (w.view_top - (terminal_rows - 1)) w.first_line }

unfoldable pub scroll_down : Writer → Writer
scroll_down w = record w { view_top = min (w.view_top + (terminal_rows - 1)) (live_top w) }
