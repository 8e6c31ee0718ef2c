-- ===== src/Shell/Output/Kept.antt =====
-- Output keeps the console valid and as wide as it was, whatever is printed.
use crab_os.Prelude.{
  ◌≡◌, ◌≤◌, ◌<◌, refl, ◌∙◌, Option, some, List, [], ◌∷◌, map, arith, length-map, All,
}
use crab_os.Vga.Console.{ScreenChar, Writer, fill_blank, clear, set_color, buffer_width}
use crab_os.Vga.Console.Bounds.{FullRow, Grid, IsValid}
use crab_os.Vga.Console.Write.{write_string-Keeps}
use crab_os.Shell.Output.{Action, text, colors, act, emit}

-- A valid console of the width of `w`.
pub record Stays (result : Option Writer) (w : Writer) : Type 0 where
  pub writer : Writer
  pub returns : result ≡ some writer
  pub valid : IsValid writer
  pub columns : writer.columns ≡ w.columns

All-fill_blank :
    (lines : List (List ScreenChar)) → All FullRow lines → All FullRow (map fill_blank lines)
All-fill_blank [] h = tt
All-fill_blank (row ∷ lines) h = (length-map row _ ∙ h.0, All-fill_blank lines h.1)

-- Clearing makes any console valid that has the grid and a width, wherever its cursor was.
pub clear-IsValid :
    (w : Writer) → Grid w.lines → (0 < w.columns) × (w.columns ≤ buffer_width) → IsValid (clear w)
unfolding clear
clear-IsValid w g c = record {
  grid = record { size = length-map w.lines _ ∙ g.size; rows = All-fill_blank w.lines g.rows };
  columns = c;
  column = omega arith;
  first = omega arith;
  above = omega arith;
  below = omega arith;
  view = omega arith;
}

act-Stays : (a : Action) (w : Writer) → IsValid w → Stays (act a w) w
unfolding act set_color clear
act-Stays (text t) w v =
    let r = write_string-Keeps t w v in
    record { writer = r.writer; returns = r.returns; valid = r.valid; columns = r.columns }
act-Stays (colors foreground background) w v = record {
  writer = set_color w foreground background;
  returns = refl;
  valid = record {
    grid = v.grid;
    columns = v.columns;
    column = v.column;
    first = v.first;
    above = v.above;
    below = v.below;
    view = v.view;
  };
  columns = refl;
}
act-Stays Action.clear w v = record {
  writer = clear w;
  returns = refl;
  valid = clear-IsValid w v.grid v.columns;
  columns = refl;
}

-- Output of any texts, colors and clearings, in any order, panics nowhere on a valid console, and
-- leaves it valid and as wide as it was.
pub emit-Stays : (actions : List Action) (w : Writer) → IsValid w → Stays (emit actions w) w
unfolding emit
emit-Stays [] w v = record { writer = w; returns = refl; valid = v; columns = refl }
emit-Stays (a ∷ actions) w v =
    let r = act-Stays a w v in
    let s = emit-Stays actions r.writer r.valid in
    record {
      writer = s.writer;
      returns = rw r.returns s.returns;
      valid = s.valid;
      columns = s.columns ∙ r.columns;
    }
