-- ===== src/Keyboard/Tests.antt =====
-- Ctrl+Q, the letter a and a byte of the mouse, with a decoder that takes a scancode for its character.
use crab_os.Prelude.{false, ℕ, refl, arith, Option, none, some, List, [], ◌∷◌, codes, true}
use crab_os.Shell.Commands.{Machine, Fetched}
use crab_os.Shell.Loop.{DecodedKey, unicode}
use crab_os.Vga.Console
use crab_os.Desktop
use crab_os.Desktop.{Desktop}
use crab_os.Shell.Line.Text
use crab_os.Shell.Loop.{new}
use crab_os.Shell.Loop.Start.{new-Leaves}
use crab_os.Shell.Session.Ready.{Leaves}
use crab_os.Keyboard.{Kernel, scancode, next_event}
use crab_os.Keyboard.Valid.{Keeps, KernelValid, Serves-Terminal}
use crab_os.Keyboard.Lost.{StartsOver, next_event-StartsOver}
use crab_os.Keyboard.Runs.{
  fresh_console-Sized, fresh_screen, Step, key_task, key_interrupt, mouse_interrupt, start, run,
  run-Keeps,
}

abbrev machine : Machine
machine = record {
  info = record { usable_memory = 4096; vendor = []; brand = []; virtualized = true };
  readings = record { version = codes "0.1.0"; uptime_seconds = 60; requested_bytes = 512 };
  ethernet = none;
  status = none;
  fetch = λ url. Fetched.err (codes "no network");
}

abbrev decode : ℕ → ℕ → ℕ × Option DecodedKey
decode modifiers code = (modifiers, some (unicode code))

abbrev steps : List Step
steps =
    key_interrupt 0x11
    ∷ key_interrupt b'a'
    ∷ key_task machine
    ∷ mouse_interrupt 9
    ∷ key_task machine
    ∷ []

run-Keeps_example : Keeps (run 0 decode steps (start 0 7))
run-Keeps_example = run-Keeps 0 decode 7 steps

-- The first terminal open with a fresh shell, and one drop that the loop has not seen.
started : Leaves (new machine Console.new) Text.empty []
started = new-Leaves machine Console.new fresh_console-Sized

abbrev overrun : Kernel ℕ
overrun = record {
  screen = record fresh_screen {
    desktop = record Desktop.initial { is_open = record { zeroth = true; first = false } };
    terminals = record { zeroth = started.after.console; first = Console.new };
  };
  shells = record { zeroth = some started.after.shell; first = none };
  keyboard = 5;
  seen = 7;
  queue = scancode 0x11 ∷ scancode b'a' ∷ [];
  dropped = 8;
}

overrun-KernelValid : KernelValid overrun
overrun-KernelValid = record {
  desktop = record {
    sound = record {
      zeroth = omega arith;
      first = omega arith;
      pointer_x = omega arith;
      pointer_y = omega arith;
      motion_x = omega arith;
      motion_y = omega arith;
      size = refl;
      active = omega arith;
      active_open = λ e. refl;
      drag = tt;
    };
    packet_len = omega arith;
  };
  zeroth = Serves-Terminal (record {
    is = started.after.shell;
    there = refl;
    text = Text.empty;
    entries = [];
    ready = started.ready;
  });
  first = record { sized = fresh_console-Sized; remembers = tt; serves = λ e. cc };
}

next_event-StartsOver_example : StartsOver 0 overrun (next_event 0 decode machine overrun)
next_event-StartsOver_example =
    next_event-StartsOver 0 decode machine overrun (scancode 0x11) (scancode b'a' ∷ [])
      overrun-KernelValid refl (λ e. absurd (omega arith))
