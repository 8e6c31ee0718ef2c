-- ===== src/Shell/Tests/Keys.antt =====
-- A shell whose line shows "he", with the cursor behind it, and the command `echo`.
use crab_os.Prelude.{
  ◌≡◌, ◌≢◌, refl, true, false, none, [], ◌∷◌, ◌++◌, arith, replicate, All-replicate, codes, Returns,
  ◌>>=◌,
}
use crab_os.Vga.Console.{Writer, Position, blank, buffer_width, origin, write_string}
use crab_os.Vga.Console
use crab_os.Vga.Console.Bounds.{IsValid, FullRow}
use crab_os.Shell.Line.{Line}
use crab_os.Shell.Line.Text
use crab_os.Shell.Line.Text.{Text}
use crab_os.Shell.Line.Refine.{Shows}
use crab_os.Shell.History
use crab_os.Shell.Arguments.Quoted.{quoted}
use crab_os.Shell.Output.{emit}
use crab_os.Shell.Commands.{Machine, Fetched, execute}
use crab_os.Shell.Commands.Safe.{execute-Returns}
use crab_os.Shell.Commands.Echo.{execute-echo}
use crab_os.Shell.Session.{Session, complete}
use crab_os.Shell.Session.Ready.{IsReady, Leaves}
use crab_os.Shell.Session.Completion.{complete-Leaves}
use crab_os.Shell.Loop.{unicode, handle_key}
use crab_os.Shell.Loop.Table.{Handles, becomes}
use crab_os.Shell.Loop.Handle.{handle_key-Handles}
use crab_os.Shell.Loop.Start.{new-Kept}

abbrev machine : Machine
machine = record {
  info = record { usable_memory = 4096; vendor = []; brand = []; virtualized = true };
  readings = record { version = codes "0.1.0"; uptime_seconds = 60; requested_bytes = 512 };
  ethernet = none;
  status = none;
  fetch = λ url. Fetched.err (codes "no network");
}

abbrev he : Line
he = record { bytes = b'h' ∷ b'e' ∷ replicate 254 0; len = 2; cursor = 2; overflow = false }

abbrev he_text : Text
he_text = Text.of_lists (b'e' ∷ b'h' ∷ []) [] false

abbrev console : Writer
console = record Console.new { cursor = record { line = 0; column = 2 } }

abbrev session : Session
session = record {
  shell = record { line = he; history = History.new; anchor = origin };
  console = console;
}

console-IsValid : IsValid console
console-IsValid = record {
  grid = record {
    size = refl;
    rows = All-replicate FullRow 128 (replicate buffer_width blank) refl;
  };
  columns = omega arith;
  column = omega arith;
  first = refl;
  above = omega arith;
  below = omega arith;
  view = omega arith;
}

he-Shows : Shows he he_text
he-Shows = record {
  rest = replicate 254 0;
  bytes = refl;
  cursor = refl;
  len = refl;
  room = refl;
  overflow = refl;
  left = refl;
  right = refl;
}

session-IsReady : IsReady session he_text []
unfolding Console.offset
session-IsReady = record {
  prepared = record {
    shows = he-Shows;
    kept = new-Kept;
    usable = record { valid = console-IsValid; wide = omega arith };
    anchored = record { above = omega arith; below = omega arith; column = omega arith };
  };
  cursor = refl;
}

-- Tab makes the line "help ".
complete-Leaves_example :
    Leaves (complete session) (Text.of_lists (b' ' ∷ b'p' ∷ b'l' ∷ b'e' ∷ b'h' ∷ []) [] false) []
complete-Leaves_example = complete-Leaves session-IsReady

-- Backspace makes it "h".
handle_key-Handles_example :
    Handles
      (handle_key machine (unicode 8) session)
      []
      (becomes (Text.of_lists (b'h' ∷ []) [] false) [])
handle_key-Handles_example = handle_key-Handles machine session session-IsReady (unicode 8)

execute-Returns_example : Returns (execute machine History.new (codes "echo 'a b' c"))
execute-Returns_example = execute-Returns machine History.new new-Kept.holds (codes "echo 'a b' c")

no_help : codes "a|b" ∷ codes "c" ∷ [] ≢ codes "--help" ∷ []
no_help = λ e. absurd cc

execute-echo_example :
    (execute machine History.new (quoted (codes "echo" ∷ codes "a|b" ∷ codes "c" ∷ []))
      >>= λ actions. emit actions console)
    ≡ write_string console (codes "a|b c" ++ 10 ∷ [])
execute-echo_example =
    execute-echo machine History.new (codes "a|b" ∷ codes "c" ∷ []) console (refl, (refl, tt))
      (omega arith) (omega arith) no_help
