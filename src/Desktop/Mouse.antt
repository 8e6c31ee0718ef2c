-- ===== src/Desktop/Mouse.antt =====
-- `mouse_byte` of src/desktop.rs: packets of the PS/2 mouse, the pointer, presses and drags.
pub mod Pointer
pub mod Press
pub mod Follow
pub mod Packet
pub mod Stream
use Prim.Native.Nat.{bit_xor}
use crab_os.Prelude.{
  ℕ, zero, suc, ◌+◌, ◌-◌, ◌*◌, ◌%◌, min, Bool, true, false, not, ◌&&◌, ◌||◌, Option, none, some,
  List, [], ◌∷◌, ◌++◌, ◌==◌, leb, if◌then◌else◌, get_elem?, store, assert, has_bit, ◌>>=◌, ◌>>◌, ℤ,
  pos, negsuc, pos_part, ◌+ℤ◌, ◌-ℤ◌, leb_ℤ, ltb_ℤ, eqb_ℤ, quot, rem, clamp,
}
use crab_os.Desktop.Pairs.{Two, at, put, position}
use crab_os.Desktop.{
  Desktop, Screen, Window, Drag, Rect, InputEvent, open_terminal_event, close_terminal_event,
  screen_w, screen_h, window_w, window_h, mouse_cells_per_count_x, mouse_cells_per_count_y, layout,
  set_active_terminal, window,
}

-- Add a packet's movement to the rest of the earlier ones, and move the pointer by whole cells.
unfoldable pub move_pointer : Desktop → ℕ → ℕ → ℕ → Option Desktop
move_pointer d flags byte_x byte_y = do
  let dx = pos byte_x -ℤ (if has_bit 4 flags then pos 256 else pos 0)
  let dy = pos byte_y -ℤ (if has_bit 5 flags then pos 256 else pos 0)
  let motion_x = d.motion_x +ℤ dx
  let motion_y = d.motion_y +ℤ dy
  let move_x = quot motion_x mouse_cells_per_count_x
  let move_y = quot motion_y mouse_cells_per_count_y
  x ← clamp (d.pointer_x +ℤ move_x) (pos 0) (screen_w -ℤ pos 1)
  y ← clamp (d.pointer_y -ℤ move_y) (pos 0) (screen_h -ℤ pos 1)
  some (record d {
    motion_x = rem motion_x mouse_cells_per_count_x;
    motion_y = rem motion_y mouse_cells_per_count_y;
    pointer_x = x;
    pointer_y = y;
  })

-- The test of the search for the window under the pointer.
unfoldable pub inside : Option Rect → ℤ → ℤ → Bool
inside none x y = false
inside (some r) x y =
    leb_ℤ r.x x && (ltb_ℤ x (r.x +ℤ r.width) && (leb_ℤ r.y y && ltb_ℤ y (r.y +ℤ window_h)))

-- The first of some windows that is under the pointer.
unfoldable pub hit : Two (Option Rect) → ℤ → ℤ → List ℕ → Option (Option ℕ)
unfolding inside
hit rects x y [] = some none
hit rects x y (index ∷ rest) = do
  rect ← at rects index
  let later = hit rects x y rest
  if inside rect x y then some (some index) else later

-- A press on a window: it becomes the active one, and its button closes it, or its title bar starts
-- a drag.
unfoldable pub press_window : Desktop → ℕ → Option Rect → Option (Desktop × List InputEvent)
press_window d index none = none
press_window d index (some r) =
    let x = d.pointer_x in
    let y = d.pointer_y in
    let d' = record d { active = index } in
    if eqb_ℤ y r.y && (leb_ℤ (r.x +ℤ r.width -ℤ pos 4) x && ltb_ℤ x (r.x +ℤ r.width -ℤ pos 1))
    then some (d', close_terminal_event index ∷ [])
    else if eqb_ℤ y r.y
    then some (
      record d' {
        drag = some (record { index = index; offset_x = x -ℤ r.x; offset_y = y -ℤ r.y });
      },
      [],
    )
    else some (d', [])

-- A press outside the windows: the button of the desktop asks for a terminal.
unfoldable pub press_desktop : Desktop → Desktop × List InputEvent
press_desktop d =
    if (leb_ℤ (pos 3) d.pointer_x && leb_ℤ d.pointer_x (pos 12))
      && (leb_ℤ (pos 1) d.pointer_y && leb_ℤ d.pointer_y (pos 3))
    then (d, open_terminal_event ∷ [])
    else (d, [])

abbrev pub press_at : Desktop → Two (Option Rect) → Option ℕ → Option (Desktop × List InputEvent)
press_at d rects none = some (press_desktop d)
press_at d rects (some index) = at rects index >>= press_window d index

-- The branch for a press of the left button.
unfoldable pub press : Desktop → Option (Desktop × List InputEvent)
unfolding layout hit press_window press_desktop
press d = do
  rects ← layout d
  let d' = record d { drag = none }
  index ← hit rects d'.pointer_x d'.pointer_y (d'.active ∷ bit_xor d'.active 1 ∷ [])
  press_at d' rects index

-- `rect.map_or(38, |(_, _, width)| width)`
abbrev pub width_or_38 : Option Rect → ℤ
width_or_38 none = pos 38
width_or_38 (some r) = r.width

-- The window that is dragged follows the pointer.
unfoldable pub follow : Desktop → Option Drag → Option Desktop
unfolding layout
follow d none = some d
follow d (some g) = do
  rects ← layout d
  rect ← at rects g.index
  x ← clamp (d.pointer_x -ℤ g.offset_x) (pos 0) (screen_w -ℤ width_or_38 rect)
  y ← clamp (d.pointer_y -ℤ g.offset_y) (pos 1) (screen_h -ℤ window_h -ℤ pos 1)
  windows ← put d.windows g.index (record { x = x; y = y })
  some (record d { windows = windows })

-- `desktop.drag = None` where the left button is up.
abbrev pub release : ℕ → Desktop → Desktop
release flags d = if not (has_bit 0 flags) then record d { drag = none } else d

-- A whole packet.
unfoldable pub packet_done : Desktop → Option (Desktop × List InputEvent)
packet_done d = do
  flags ← get_elem? d.packet 0
  byte_x ← get_elem? d.packet 1
  byte_y ← get_elem? d.packet 2
  d1 ← move_pointer d flags byte_x byte_y
  (d2, events) ← if has_bit 0 flags && not (has_bit 0 d1.buttons) then press d1 else some (d1, [])
  d3 ← follow (release flags d2) (release flags d2).drag
  some (record d3 { buttons = flags % 8; packet_len = 0 }, events)

-- What `mouse_byte` does with a whole packet.
unfoldable pub packet_read : Screen → Desktop → Option Screen
packet_read s d = do
  (d', events) ← packet_done d
  some (record (set_active_terminal s d'.active) {
    desktop = d';
    actions = s.actions ++ events;
    redraw_pending = true;
  })

unfoldable pub mouse_byte : Screen → ℕ → Option Screen
mouse_byte s byte =
    let d = s.desktop in
    if d.packet_len == 0 && not (has_bit 3 byte) then some s else (do
      packet ← store d.packet d.packet_len byte
      let d1 = record d { packet = packet; packet_len = d.packet_len + 1 }
      let read = packet_read s d1
      if d1.packet_len == 3 then read else some (record s { desktop = d1 }))
