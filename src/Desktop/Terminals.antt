-- ===== src/Desktop/Terminals.antt =====
-- `open_terminal` and `close_terminal` of src/desktop.rs.
pub mod Windows
pub mod Opening
use Prim.Native.Nat.{bit_xor}
use crab_os.Prelude.{
  ℕ, zero, suc, ◌+◌, ◌-◌, ◌*◌, ◌%◌, min, Bool, true, false, not, ◌&&◌, ◌||◌, Option, none, some,
  List, [], ◌∷◌, ◌++◌, ◌==◌, leb, if◌then◌else◌, get_elem?, store, assert, has_bit, ◌>>=◌, ◌>>◌, ℤ,
  pos, negsuc, pos_part, ◌+ℤ◌, ◌-ℤ◌, leb_ℤ, ltb_ℤ, eqb_ℤ, quot, rem, clamp,
}
use crab_os.Desktop.Pairs.{Two, at, put, position}
use crab_os.Desktop.{
  Desktop, Screen, Window, Drag, Rect, InputEvent, open_terminal_event, close_terminal_event,
  screen_w, screen_h, window_w, window_h, mouse_cells_per_count_x, mouse_cells_per_count_y, layout,
  set_active_terminal, window, columns_of,
}
use crab_os.Vga.Console.{set_columns}

-- The loop over the two terminals.
unfoldable pub sync_terminal_widths : Screen → Option Screen
sync_terminal_widths s = do
  rects ← layout s.desktop
  w0 ← set_columns s.terminals.zeroth (columns_of rects.zeroth)
  w1 ← set_columns s.terminals.first (columns_of rects.first)
  some (record s { terminals = record { zeroth = w0; first = w1 } })

-- `closed ^ 1` for an index below 2 is the other terminal.
abbrev pub other : ℕ → ℕ
other index = bit_xor index 1

unfoldable pub close_terminal : Screen → ℕ → Option Screen
close_terminal s index = do
  let d = s.desktop
  let closed = min index 1
  opens ← put d.is_open closed false
  still ← at opens (other closed)
  let active = if not still then closed else other closed
  s' ←
      sync_terminal_widths
        (record s { desktop = record d { drag = none; is_open = opens; active = active } })
  some (set_active_terminal s' s'.desktop.active)

-- Where the windows are put before another terminal opens.
abbrev pub placed : Desktop → ℕ → Option (Two Window)
placed d index =
    if d.is_open.zeroth || d.is_open.first
    then some (record { zeroth = window 1 4; first = window 41 4 })
    else put d.windows index (window 3 4)

unfoldable pub open_at : Screen → ℕ → Option Screen
open_at s index = do
  let d = s.desktop
  windows ← placed d index
  opens ← put d.is_open index true
  s' ← sync_terminal_widths (record s {
    desktop = record d { windows = windows; drag = none; is_open = opens; active = index };
  })
  some (set_active_terminal s' index)

-- `open_terminal`, with the index that it returns.
unfoldable pub open_terminal : Screen → Option (Screen × Option ℕ)
open_terminal s = elim (position not s.desktop.is_open) [
  | none ↦ some (s, none)
  | some index ↦ open_at s index >>= λ s'. some (s', some index)
]
