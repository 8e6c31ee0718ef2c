-- ===== src/Desktop/Tests.antt =====
-- Runs of the desktop of src/desktop.rs.
use crab_os.Prelude.{ℕ, ◌≡◌, refl, true, false, [], arith, none, some, pos, ◌⊎◌, ◌&&◌}
use crab_os.Vga.Console.{new}
use crab_os.Desktop.{Desktop, Screen, initial, layout}
use crab_os.Desktop.Layout.{Layout, layout-Layout, IsValid, Held}
use crab_os.Desktop.Mouse.{mouse_byte, follow, move_pointer}
use crab_os.Desktop.Mouse.Pointer.{Moves, move_pointer-Moves, delta}
use crab_os.Desktop.Mouse.Packet.{Reads, mouse_byte-Reads}
use crab_os.Desktop.Mouse.Follow.{Follows, follow-Follows}
use crab_os.Desktop.Terminals.{close_terminal, open_terminal}
use crab_os.Desktop.Terminals.Windows.{Closes, close_terminal-Closes}
use crab_os.Desktop.Terminals.Opening.{Opens, open_terminal-cases}

abbrev screen : Screen
screen = record {
  desktop = initial;
  terminals = record { zeroth = new; first = new };
  active_terminal = 0;
  actions = [];
  redraw_pending = false;
}

initial-IsValid : IsValid initial
initial-IsValid = record {
  sound = record {
    zeroth = omega arith;
    first = omega arith;
    pointer_x = omega arith;
    pointer_y = omega arith;
    motion_x = omega arith;
    motion_y = omega arith;
    size = refl;
    active = omega arith;
    active_open = λ h. absurd cc;
    drag = tt;
  };
  packet_len = omega arith;
}

-- Both terminals open, the first one dragged by the fifth column of its title bar.
abbrev dragged : Desktop
dragged = record initial {
  is_open = record { zeroth = true; first = true };
  drag = some (record { index = 0; offset_x = pos 5; offset_y = pos 0 });
}

layout-Layout_example : Layout dragged (layout dragged)
layout-Layout_example = layout-Layout dragged (omega arith) (omega arith)

move_pointer-Moves_example :
    Moves initial (delta 4 0x18 250) (delta 5 0x18 20) (move_pointer initial 0x18 250 20)
move_pointer-Moves_example = move_pointer-Moves initial 0x18 250 20

mouse_byte-Reads_example : Reads screen (mouse_byte screen 9)
mouse_byte-Reads_example = mouse_byte-Reads screen 9 initial-IsValid

held : Held dragged.is_open (record { index = 0; offset_x = pos 5; offset_y = pos 0 })
held = record { held_open = refl; offset_x = omega arith; offset_y = omega arith }

follow-Follows_example :
    Follows dragged
      (record { index = 0; offset_x = pos 5; offset_y = pos 0 })
      (follow dragged (some (record { index = 0; offset_x = pos 5; offset_y = pos 0 })))
follow-Follows_example =
    follow-Follows dragged (record { index = 0; offset_x = pos 5; offset_y = pos 0 }) (omega arith)
      (omega arith) held

close_terminal-Closes_example : Closes screen 1 (close_terminal screen 1)
close_terminal-Closes_example = close_terminal-Closes screen 1 initial-IsValid

open_terminal-cases_example :
    ((initial.is_open.zeroth && initial.is_open.first ≡ true)
      × (open_terminal screen ≡ some (screen, none)))
    ⊎ ((index : ℕ) × Opens screen index)
open_terminal-cases_example = open_terminal-cases screen initial-IsValid
