-- ===== src/Desktop.antt =====
-- The desktop of src/desktop.rs: two terminal windows, the mouse, and opening and closing. A function
-- that may panic returns an `Option`, and `none` is the panic.
pub mod Pairs
pub mod Layout
pub mod Mouse
pub mod Terminals
mod Tests
use Prim.Native.Nat.{bit_xor}
use crab_os.Prelude.{
  ℕ, zero, suc, ◌+◌, ◌-◌, ◌*◌, ◌%◌, min, Bool, true, false, not, ◌&&◌, ◌||◌, Option, none, some,
  List, [], ◌∷◌, ◌++◌, ◌==◌, leb, if◌then◌else◌, get_elem?, store, assert, has_bit, ◌>>=◌, ◌>>◌, ℤ,
  pos, negsuc, pos_part, ◌+ℤ◌, ◌-ℤ◌, leb_ℤ, ltb_ℤ, eqb_ℤ, quot, rem, clamp,
}
use crab_os.Desktop.Pairs.{Two, at, put, position}
use crab_os.Vga.Console.{Writer}

abbrev pub screen_w : ℤ
screen_w = pos 80

abbrev pub screen_h : ℤ
screen_h = pos 25

abbrev pub window_w : ℤ
window_w = pos 74

abbrev pub window_h : ℤ
window_h = pos 20

abbrev pub mouse_cells_per_count_x : ℕ
mouse_cells_per_count_x = 8

abbrev pub mouse_cells_per_count_y : ℕ
mouse_cells_per_count_y = 16

pub record Window : Type 0 where
  pub x : ℤ
  pub y : ℤ

-- The window that is dragged, and where in it the pointer holds it.
pub record Drag : Type 0 where
  pub index : ℕ
  pub offset_x : ℤ
  pub offset_y : ℤ

-- A window on the screen.
pub record Rect : Type 0 where
  pub x : ℤ
  pub y : ℤ
  pub width : ℤ

-- The two events of the keyboard's queue that the desktop sends.
pub data InputEvent : Type 0 where
  open_terminal_event : InputEvent
  close_terminal_event : ℕ → InputEvent

pub record Desktop : Type 0 where
  pub windows : Two Window
  pub is_open : Two Bool
  pub drag : Option Drag
  pub packet : List ℕ
  pub packet_len : ℕ
  pub pointer_x : ℤ
  pub pointer_y : ℤ
  pub motion_x : ℤ
  pub motion_y : ℤ
  pub buttons : ℕ
  pub active : ℕ

abbrev pub window : ℕ → ℕ → Window
window x y = record { x = pos x; y = pos y }

-- The static `DESKTOP`.
abbrev pub initial : Desktop
initial = record {
  windows = record { zeroth = window 3 4; first = window 41 4 };
  is_open = record { zeroth = false; first = false };
  drag = none;
  packet = 0 ∷ 0 ∷ 0 ∷ [];
  packet_len = 0;
  pointer_x = pos 72;
  pointer_y = pos 22;
  motion_x = pos 0;
  motion_y = pos 0;
  buttons = 0;
  active = 0;
}

-- The desktop with what it changes elsewhere: the consoles, the terminal that they take output for,
-- the events sent to the keyboard task, and the request to draw.
pub record Screen : Type 0 where
  pub desktop : Desktop
  pub terminals : Two Writer
  pub active_terminal : ℕ
  pub actions : List InputEvent
  pub redraw_pending : Bool

abbrev pub no_rect : Option Rect
no_rect = none

-- The rectangle of a window of a width, at a place.
abbrev pub rect_at : ℤ → Window → ℤ → Rect
rect_at x w width = record { x = x; y = w.y; width = width }

abbrev pub count_open : Two Bool → ℕ
count_open t = (if t.zeroth then 1 else 0) + (if t.first then 1 else 0)

unfoldable pub layout : Desktop → Option (Two (Option Rect))
layout d =
    let count = count_open d.is_open in
    let width = if count == 1 then window_w else pos 38 in
    let rects : Two (Option Rect) = record { zeroth = no_rect; first = no_rect } in
    if count == 1
    then (do
      index ← position (λ b. b) d.is_open
      w ← at d.windows index
      x ← clamp w.x (pos 0) (screen_w -ℤ width)
      put rects index (some (rect_at x w width)))
    else if count == 2
    then some (record {
      zeroth = some (rect_at d.windows.zeroth.x d.windows.zeroth width);
      first = some (rect_at d.windows.first.x d.windows.first width);
    })
    else some rects

-- `set_active_terminal`
abbrev pub set_active_terminal : Screen → ℕ → Screen
set_active_terminal s index = record s { active_terminal = min index 1 }

-- `rect.map_or(76, |(_, _, width)| (width - 2) as usize)`, where widths are at least 2.
abbrev pub columns_of : Option Rect → ℕ
columns_of none = 76
columns_of (some r) = pos_part (r.width -ℤ pos 2)
