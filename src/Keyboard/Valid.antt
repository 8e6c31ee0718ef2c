-- ===== src/Keyboard/Valid.antt =====
-- What holds of the kernel between two events: the desktop is valid, each console has its
-- grid and a width, and each open terminal has a shell that is ready on its console.
use crab_os.Prelude.{◌≡◌, Bool, true, Option, some, none, List}
use crab_os.Vga.Console.{Writer}
use crab_os.Desktop.Layout.{IsValid}
use crab_os.Shell.Line.{Line}
use crab_os.Shell.Line.Text.{Text}
use crab_os.Shell.Session.{Shell}
use crab_os.Shell.Session.Ready.{Kept, IsReady}
use crab_os.Shell.Loop.Start.{Sized}
use crab_os.Keyboard.{Kernel}

-- A shell that has run keeps a history.
abbrev pub Remembers : Option Shell → Type 0
Remembers none = Unit
Remembers (some shell) = (entries : List Line) × Kept shell.history entries

-- The shell is there, and ready on this console.
pub record Serves (shell : Option Shell) (console : Writer) : Type 0 where
  pub is : Shell
  pub there : shell ≡ some is
  pub text : Text
  pub entries : List Line
  pub ready : IsReady (record { shell = is; console = console }) text entries

-- A terminal, its shell and its console.
pub record Terminal (is_open : Bool) (shell : Option Shell) (console : Writer) : Type 0 where
  pub sized : Sized console
  pub remembers : Remembers shell
  pub serves : is_open ≡ true → Serves shell console

pub record KernelValid {Decoder : Type 0} (k : Kernel Decoder) : Type 0 where
  pub desktop : IsValid k.screen.desktop
  pub zeroth : Terminal k.screen.desktop.is_open.zeroth k.shells.zeroth k.screen.terminals.zeroth
  pub first : Terminal k.screen.desktop.is_open.first k.shells.first k.screen.terminals.first

-- The code leaves a valid kernel.
pub record Keeps {Decoder : Type 0} (result : Option (Kernel Decoder)) : Type 0 where
  pub after : Kernel Decoder
  pub returns : result ≡ some after
  pub valid : KernelValid after

pub Serves-Terminal :
    {is_open : Bool} {shell : Option Shell} {console : Writer}
    → Serves shell console
    → Terminal is_open shell console
Serves-Terminal {is_open} {shell} {console} s = record {
  sized = record {
    grid = s.ready.prepared.usable.valid.grid;
    columns = (s.ready.prepared.usable.wide, s.ready.prepared.usable.valid.columns.1);
  };
  remembers = rw s.there (s.entries, s.ready.prepared.kept);
  serves = λ _. s;
}
