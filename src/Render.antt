-- ===== src/Render.antt =====
-- The screen renderer of src/vga_buffer.rs: `draw_cell`, `draw_window` and `render_desktop_inner`, with
-- the frame cache and the cells of the VGA memory. `none` is a panic.
pub mod Cells
pub mod Frames
pub mod Flush
mod Tests
use Prim.Native.String.{String}
use crab_os.Prelude.{
  ℕ, zero, suc, ◌+◌, ◌-◌, ◌*◌, ◌%◌, min, Bool, true, false, not, ◌&&◌, ◌||◌, Option, none, some,
  List, [], ◌∷◌, length, get_elem?, replicate, store, ltb, leb, ◌==◌, if◌then◌else◌, codes,
  pos_part, ◌>>=◌,
}
use crab_os.Vga.Console.{
  Color, Writer, ScreenChar, black, blue, cyan, red, light_gray, dark_gray, light_blue, light_cyan,
  white, color_code, buffer_width, buffer_height, terminal_rows, scrollback_lines,
}
use crab_os.Desktop.Pairs.{Two, at}
use crab_os.Desktop.{Desktop, Screen, Rect, layout}

abbrev pub screen_cells : ℕ
screen_cells = buffer_width * buffer_height

abbrev pub Frame : Type 0
Frame = List ScreenChar

-- `let cell = ScreenChar { … }`
abbrev pub cell : ℕ → Color → Color → ScreenChar
cell byte fg bg = record { ascii_character = byte; color_code = color_code fg bg }

-- The loop of `draw_cell`, with the column of the next byte. It ends at the edge of the screen.
unfoldable pub draw_cell : Frame → ℕ → ℕ → List ℕ → Color → Color → Option Frame
draw_cell frame row col [] fg bg = some frame
draw_cell frame row col (byte ∷ text) fg bg =
    if leb buffer_width col
    then some frame
    else store frame (row * buffer_width + col) (cell byte fg bg) >>= λ frame'.
        draw_cell frame' row (col + 1) text fg bg

-- `for index in from..from + count`
unfoldable pub for_range : ℕ → ℕ → (ℕ → Frame → Option Frame) → Frame → Option Frame
for_range zero from body frame = some frame
for_range (suc count) from body frame = body from frame >>= for_range count (from + 1) body

abbrev pub space : List ℕ
space = b' ' ∷ []

-- A row inside a window: its two borders, and the text's background.
unfoldable pub draw_row : ℕ → ℕ → ℕ → ℕ → Frame → Option Frame
draw_row x y width row frame = do
  f1 ← draw_cell frame (y + row) x space white dark_gray
  f2 ← draw_cell f1 (y + row) (x + width - 1) space white dark_gray
  for_range (width - 1 - 1) 1 (λ col f. draw_cell f (y + row) (x + col) space light_gray black) f2

-- A column of the title bar and of the bottom bar.
unfoldable pub draw_bars : ℕ → ℕ → Color → ℕ → Frame → Option Frame
draw_bars x y title_bg col frame = do
  f1 ← draw_cell frame y (x + col) space white title_bg
  draw_cell f1 (y + 19) (x + col) space white dark_gray

-- `draw_window`, with the active terminal that it asks for.
unfoldable pub draw_window : ℕ → ℕ → ℕ → ℕ → ℕ → Frame → Option Frame
draw_window active x y width index frame = do
  let title = if index == 0 then codes " Terminal 1 - crabsh " else codes " Terminal 2 - crabsh "
  let title_bg = if active == index then cyan else dark_gray
  f1 ← for_range width 0 (draw_bars x y title_bg) frame
  f2 ← for_range 18 1 (draw_row x y width) f1
  f3 ← draw_cell f2 y (x + 1) title white title_bg
  f4 ← draw_cell f3 y (x + width - 4) (codes "[x]") white red
  draw_cell f4 (y + 19) (x + 2) (codes " crabsh / PS/2 ") light_gray dark_gray

-- A cell of the console, copied to the window.
unfoldable pub copy_cell : Writer → ℕ → ℕ → ℕ → ℕ → Frame → Option Frame
copy_cell w x y row col frame = do
  line ← get_elem? w.lines ((w.view_top + row) % scrollback_lines)
  c ← get_elem? line col
  store frame ((y + 2 + row) * buffer_width + x + 1 + col) c

-- A row of the console, if there is one.
unfoldable pub copy_row : Writer → ℕ → ℕ → ℕ → ℕ → Frame → Option Frame
copy_row w x y width row frame =
    if leb (w.view_top + row) w.last_line
    then for_range (width - 2) 0 (copy_cell w x y row) frame
    else some frame

abbrev pub copy_rows : Writer → ℕ → ℕ → ℕ → Frame → Option Frame
copy_rows w x y width frame = for_range terminal_rows 0 (copy_row w x y width) frame

-- A window with its text, at the place that the layout gives it.
unfoldable pub draw_terminal : Screen → ℕ → Option Rect → Frame → Option Frame
draw_terminal s index none frame = some frame
draw_terminal s index (some r) frame = do
  let x = pos_part r.x
  let y = pos_part r.y
  let width = pos_part r.width
  f1 ← draw_window s.desktop.active x y width index frame
  w ← at s.terminals index
  copy_rows w x y width f1

-- `frame[offset].color_code = …`
abbrev pub color_cell : Frame → ℕ → Option Frame
color_cell frame offset = do
  c ← get_elem? frame offset
  store frame offset (record c { color_code = color_code black light_gray })

-- The text cursor, where its line is seen.
unfoldable pub draw_cursor : Screen → ℕ → Option Rect → Frame → Option Frame
draw_cursor s active none frame = some frame
draw_cursor s active (some r) frame = do
  w ← at s.terminals active
  let row = w.cursor.line - w.view_top
  let col = min w.cursor.column (pos_part r.width - 3)
  (if leb w.view_top w.cursor.line && ltb row terminal_rows
      then color_cell frame ((pos_part r.y + 2 + row) * buffer_width + pos_part r.x + 1 + col)
      else some frame)

-- The wallpaper: a dot where row and column add up to a multiple of twelve.
unfoldable pub draw_dot : ℕ → ℕ → Frame → Option Frame
draw_dot row col frame =
    if (row + col) % 12 == 0
    then draw_cell frame row col (0xfa ∷ []) light_blue blue
    else some frame

unfoldable pub draw_edges : ℕ → Frame → Option Frame
draw_edges col frame = do
  f1 ← draw_cell frame 0 col space white black
  draw_cell f1 24 col space light_gray black

abbrev pub label : ℕ → ℕ → String → Color → Color → Frame → Option Frame
label row col text fg bg frame = draw_cell frame row col (codes text) fg bg

-- The background, with its labels.
unfoldable pub draw_background : Frame → Option Frame
draw_background frame = do
  f1 ← for_range 19 5 (λ row f. for_range buffer_width 0 (draw_dot row) f) frame
  f2 ← for_range buffer_width 0 draw_edges f1
  f3 ← label 0 2 "C R A B O S" light_cyan black f2
  f4 ← label 0 58 "DESKTOP / WORKSPACE 01" light_gray black f3
  f5 ← label 1 4 " +----+ " light_cyan blue f4
  f6 ← label 2 4 " | >_ | " white black f5
  f7 ← label 3 3 " Terminal " white blue f6
  f8 ← label 10 29 "C R A B O S" white blue f7
  f9 ← label 12 24 "A little shell. A lot of possibility." light_cyan blue f8
  f10 ← label 15 24 "Click Terminal to get started" light_gray blue f9
  f11 ← label 24 2 "Terminal: click icon / Ctrl+Q" light_cyan black f10
  label 24 38 "Drag title to move   [x] / Ctrl+C: close" light_gray black f11

-- `frame.fill(…)`
unfoldable pub filled : Frame
filled = replicate screen_cells (cell b' ' light_blue blue)

-- The frame: the background, the windows with the active one last, the cursor and the pointer.
unfoldable pub draw_frame : Screen → Option Frame
draw_frame s = do
  f1 ← draw_background filled
  rects ← layout s.desktop
  let active = s.desktop.active
  below ← at rects (1 - active)
  above ← at rects active
  f2 ← draw_terminal s (1 - active) below f1
  f3 ← draw_terminal s active above f2
  f4 ← draw_cursor s active above f3
  draw_cell f4 (pos_part s.desktop.pointer_y) (pos_part s.desktop.pointer_x) (b'+' ∷ []) white blue

-- `FrameCache`, and the VGA memory that it stands for.
pub record Cache : Type 0 where
  pub cells : Frame
  pub valid : Bool
  pub vga : Frame

abbrev pub same_cell : ScreenChar → ScreenChar → Bool
same_cell a b = a.ascii_character == b.ascii_character && a.color_code == b.color_code

-- The loop over the cells, for the arrays of the cache, the frame and the VGA memory, which are equally
-- long: a cell is written where it differs, or where the cache does not hold what is shown.
pub record Written : Type 0 where
  pub cells : Frame
  pub vga : Frame

abbrev pub write_cell : Bool → ScreenChar → ScreenChar → ScreenChar → Written → Written
write_cell valid previous new shown rest =
    if not valid || not (same_cell previous new)
    then record { cells = new ∷ rest.cells; vga = new ∷ rest.vga }
    else record { cells = previous ∷ rest.cells; vga = shown ∷ rest.vga }

unfoldable pub write_cells : Bool → Frame → Frame → Frame → Written
write_cells valid (previous ∷ cells) (new ∷ frame) (shown ∷ vga) =
    write_cell valid previous new shown (write_cells valid cells frame vga)
write_cells valid cells frame vga = record { cells = cells; vga = vga }

-- `render_desktop_inner`
unfoldable pub render_desktop : Screen → Cache → Option Cache
render_desktop s cache = do
  frame ← draw_frame s
  let written = write_cells cache.valid cache.cells frame cache.vga
  some (record { cells = written.cells; valid = true; vga = written.vga })
