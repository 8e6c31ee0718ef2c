-- ===== src/Shell/Loop/Start.antt =====
-- A shell starts, and starts again after a resize: clearing makes any console good that has its grid
-- and a width, wherever its cursor was.
use crab_os.Prelude.{◌≤◌, refl, List, [], ◌∷◌, ◌++◌, arith}
use crab_os.Vga.Console.{Writer, buffer_width, clear, origin}
use crab_os.Vga.Console.Bounds.{Grid}
use crab_os.Vga.Console.Redraw.{min_columns}
use crab_os.Shell.Line
use crab_os.Shell.Line.{Line}
use crab_os.Shell.Line.Text
use crab_os.Shell.Line.Refine.{new-Shows}
use crab_os.Shell.History
use crab_os.System.{fastfetch}
use crab_os.Shell.Output.{Action, emit, act, println}
use crab_os.Shell.Output.Kept.{clear-IsValid, emit-Stays}
use crab_os.Shell.Commands.{Machine}
use crab_os.Shell.Session.{Session, with_line, put_out}
use crab_os.Shell.Session.Ready.{Kept, Leaves, Prints, prompt-Leaves}
use crab_os.Shell.Loop.{new, reset_for_resize}

-- A console of a window, which may be narrower now than its cursor's column.
pub record Sized (w : Writer) : Type 0 where
  pub grid : Grid w.lines
  pub columns : (min_columns ≤ w.columns) × (w.columns ≤ buffer_width)

-- Output that begins by clearing.
cleared-Prints :
    (actions : List Action) (s : Session)
    → Sized s.console
    → Prints (put_out (Action.clear ∷ actions) s) s
unfolding put_out emit act clear
cleared-Prints actions s z =
    let v = clear-IsValid s.console z.grid (omega (arith, z.columns.0, z.columns.1)) in
    let r = emit-Stays actions (clear s.console) v in
    record {
      console = r.writer;
      returns = rw r.returns refl;
      usable = record {
        valid = r.valid;
        wide = let e = r.columns in let k = z.columns.0 in omega arith;
      };
    }

-- After a resize the line is empty, and the shell is ready with the entries that it had.
pub reset_for_resize-Leaves :
    (s : Session) {entries : List Line}
    → Kept s.shell.history entries
    → Sized s.console
    → Leaves (reset_for_resize s) Text.empty entries
unfolding reset_for_resize
reset_for_resize-Leaves s kept z =
    let p = cleared-Prints [] s z in
    let q =
      prompt-Leaves (with_line (record s { console = p.console }) Line.new) kept p.usable refl in
    record { after = q.after; returns = rw p.returns q.returns; ready = q.ready }

pub new-Kept : Kept History.new []
unfolding History.get
new-Kept = record {
  holds = record {
    size = refl;
    start = omega arith;
    len = refl;
    bound = omega arith;
    entry = λ i l e. cc;
    lines = tt;
  };
  draft = record { text = Text.empty; shows = new-Shows };
  browsing = tt;
}

-- A new shell, on any console with its grid and a width of 36 columns or more, panics nowhere and is
-- ready, with an empty line and no entries.
pub new-Leaves :
    (m : Machine) (console : Writer) → Sized console → Leaves (new m console) Text.empty []
unfolding new
new-Leaves m console z =
    let s : Session = record {
      shell = record { line = Line.new; history = History.new; anchor = origin };
      console = console;
    } in
    let p =
      cleared-Prints
        (fastfetch m.readings m.info
          ++ println "Welcome to CrabOS. Type 'help' to get started."
            ∷ println "Tab completes commands. Up/Down recalls history. PgUp/PgDn scrolls.\n"
            ∷ [])
        s z in
    let q = prompt-Leaves (record s { console = p.console }) new-Kept p.usable refl in
    record { after = q.after; returns = rw p.returns q.returns; ready = q.ready }
