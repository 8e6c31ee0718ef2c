-- ===== src/Desktop/Mouse/Packet.antt =====
-- Whole packets and single bytes: `mouse_byte` keeps the desktop valid.
use crab_os.Prelude.{
  ℕ, ◌+◌, ◌%◌, ◌≡◌, refl, ◌∙◌, Bool, true, false, not, ◌&&◌, Bool-cases, Option, none, some, inl,
  inr, List, [], arith, length-set, set, get_elem?_of_lt, store-eq_some, has_bit, if◌then◌else◌,
  ◌==◌, ◌++◌,
}
use crab_os.Desktop.Pairs.{Two}
use crab_os.Desktop.{Desktop, Screen, Drag, Window, InputEvent, set_active_terminal}
use crab_os.Desktop.Layout.{Fits, Sound, IsValid, DragOk}
use crab_os.Desktop.Mouse.{follow, press, release, packet_done, packet_read, mouse_byte}
use crab_os.Desktop.Mouse.Pointer.{move_pointer-Moves}
use crab_os.Desktop.Mouse.Press.{Presses, press-Presses}
use crab_os.Desktop.Mouse.Follow.{follow-Follows}

follow-Fits :
    (d : Desktop) (drag : Option Drag)
    → Fits d.windows.zeroth
    → Fits d.windows.first
    → DragOk d.is_open drag
    → (t : Two Window) × (follow d drag ≡ some (record d { windows = t }))
      × Fits t.zeroth
      × Fits t.first
unfolding follow
follow-Fits d none f g h = (d.windows, refl, f, g)
follow-Fits d (some k) f g h =
    let r = follow-Follows d k f g h in (r.placed, r.returns, r.zeroth, r.first)

-- What holds after a packet.
pub record Done (d : Desktop) (result : Option (Desktop × List InputEvent)) : Type 0 where
  pub after : Desktop
  pub events : List InputEvent
  pub returns : result ≡ some (after, events)
  pub valid : IsValid after
  pub same_open : after.is_open ≡ d.is_open

-- No press, or a press.
pressed_or_not :
    (d : Desktop) (b : Bool) → Sound d → Presses d (if b then press d else some (d, []))
pressed_or_not d true v = press-Presses d v
pressed_or_not d false v = record {
  held = d.drag;
  now_active = d.active;
  events = [];
  returns = refl;
  below_two = v.active;
  active_open = v.active_open;
  held_ok = v.drag;
}

-- The step of a drag, where a released button has ended it.
pub record Released (d : Desktop) (flags : ℕ) : Type 0 where
  pub still : Option Drag
  pub placed : Two Window
  pub released : release flags d ≡ record d { drag = still }
  pub followed :
      follow (record d { drag = still }) still ≡ some (record d { drag = still; windows = placed })
  pub zeroth : Fits placed.zeroth
  pub first : Fits placed.first
  pub still_ok : DragOk d.is_open still

release-Released :
    (d : Desktop) (flags : ℕ)
    → DragOk d.is_open d.drag
    → Fits d.windows.zeroth
    → Fits d.windows.first
    → Released d flags
release-Released d flags h f g = elim (Bool-cases (has_bit 0 flags)) [
  | inl e ↦
      let (t, r, f', g') = follow-Fits d d.drag f g h in
      record {
        still = d.drag;
        placed = t;
        released = rw e refl;
        followed = r;
        zeroth = f';
        first = g';
        still_ok = h;
      }
  | inr e ↦
      let (t, r, f', g') = follow-Fits (record d { drag = none }) none f g tt in
      record {
        still = none;
        placed = t;
        released = rw e refl;
        followed = r;
        zeroth = f';
        first = g';
        still_ok = tt;
      }
]

packet_done-Done : (d : Desktop) → Sound d → Done d (packet_done d)
unfolding packet_done
packet_done-Done d v =
    let (flags, e0) = get_elem?_of_lt d.packet 0 (let s = v.size in omega arith) in
    let (bx, e1) = get_elem?_of_lt d.packet 1 (let s = v.size in omega arith) in
    let (by, e2) = get_elem?_of_lt d.packet 2 (let s = v.size in omega arith) in
    let m = move_pointer-Moves d flags bx by in
    let b = has_bit 0 flags && not (has_bit 0 d.buttons) in
    let d1 : Desktop = record d {
      motion_x = m.rest_x;
      motion_y = m.rest_y;
      pointer_x = m.to_x;
      pointer_y = m.to_y;
    } in
    let v1 : Sound d1 = record {
      zeroth = v.zeroth;
      first = v.first;
      pointer_x = m.inside_x;
      pointer_y = m.inside_y;
      motion_x = m.small_x;
      motion_y = m.small_y;
      size = v.size;
      active = v.active;
      active_open = v.active_open;
      drag = v.drag;
    } in
    let p = pressed_or_not d1 b v1 in
    let d2 : Desktop = record d1 { drag = p.held; active = p.now_active } in
    let r = release-Released d2 flags p.held_ok v.zeroth v.first in
    record {
      after = record d2 { drag = r.still; windows = r.placed; buttons = flags % 8; packet_len = 0 };
      events = p.events;
      returns =
          rw e0 (rw e1 (rw e2 (rw m.returns (rw p.returns (rw r.released (rw r.followed refl))))));
      valid = record {
        sound = record {
          zeroth = r.zeroth;
          first = r.first;
          pointer_x = m.inside_x;
          pointer_y = m.inside_y;
          motion_x = m.small_x;
          motion_y = m.small_y;
          size = v.size;
          active = p.below_two;
          active_open = p.active_open;
          drag = r.still_ok;
        };
        packet_len = omega arith;
      };
      same_open = refl;
    }

-- What holds after a byte of the mouse.
pub record Reads (s : Screen) (result : Option Screen) : Type 0 where
  pub after : Screen
  pub returns : result ≡ some after
  pub valid : IsValid after.desktop
  pub same_open : after.desktop.is_open ≡ s.desktop.is_open
  pub same_terminals : after.terminals ≡ s.terminals

packet_read-Reads :
    (s : Screen) (d : Desktop) → Sound d → d.is_open ≡ s.desktop.is_open → Reads s (packet_read s d)
unfolding packet_read
packet_read-Reads s d v e =
    let r = packet_done-Done d v in
    record {
      after = record (set_active_terminal s (r.after).active) {
        desktop = r.after;
        actions = s.actions ++ r.events;
        redraw_pending = true;
      };
      returns = rw r.returns refl;
      valid = r.valid;
      same_open = r.same_open ∙ e;
      same_terminals = refl;
    }

-- On a valid desktop a byte of the mouse never panics, and it stays valid: the pointer and both windows lie on
-- the screen, the rest of the movement is less than a cell, the active terminal is open if any is,
-- and only an open window is dragged. No terminal is opened, closed or resized.
pub mouse_byte-Reads : (s : Screen) (byte : ℕ) → IsValid s.desktop → Reads s (mouse_byte s byte)
unfolding mouse_byte
mouse_byte-Reads s byte v =
    let d = s.desktop in
    let z = v.sound.size in
    let l = v.packet_len in
    let stored = store-eq_some d.packet d.packet_len byte (omega arith) in
    let d1 : Desktop = record d {
      packet = set d.packet d.packet_len byte;
      packet_len = d.packet_len + 1;
    } in
    let v1 : Sound d1 = record {
      zeroth = v.sound.zeroth;
      first = v.sound.first;
      pointer_x = v.sound.pointer_x;
      pointer_y = v.sound.pointer_y;
      motion_x = v.sound.motion_x;
      motion_y = v.sound.motion_y;
      size = length-set d.packet d.packet_len byte ∙ z;
      active = v.sound.active;
      active_open = v.sound.active_open;
      drag = v.sound.drag;
    } in
    elim (Bool-cases (d.packet_len == 0 && not (has_bit 3 byte))) [
      | inl e ↦ record {
        after = s;
        returns = rw e refl;
        valid = v;
        same_open = refl;
        same_terminals = refl;
      }
      | inr e ↦ elim (Bool-cases (d.packet_len + 1 == 3)) [
        | inl full ↦
            let r = packet_read-Reads s d1 v1 refl in
            record {
              after = r.after;
              returns = rw e (rw stored (rw full r.returns));
              valid = r.valid;
              same_open = r.same_open;
              same_terminals = r.same_terminals;
            }
        | inr part ↦ record {
          after = record s { desktop = d1 };
          returns = rw e (rw stored (rw part refl));
          valid = record { sound = v1; packet_len = ground arith };
          same_open = refl;
          same_terminals = refl;
        }
      ]
    ]
