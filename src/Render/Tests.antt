-- ===== src/Render/Tests.antt =====
-- A pass over a screen without windows, from a cache of blanks that shows what the memory holds.
use crab_os.Prelude.{refl, true, All-replicate, replicate, length-replicate}
use crab_os.Vga.Console.{new, blank, buffer_width}
use crab_os.Vga.Console.Bounds.{Grid, FullRow}
use crab_os.Keyboard.Runs.{fresh_screen, initial-IsValid}
use crab_os.Render.{Cache, screen_cells, render_desktop}
use crab_os.Render.Frames.{Drawable}
use crab_os.Render.Flush.{Honest, Renders, render_desktop-Renders}

new-Grid : Grid new.lines
new-Grid = record {
  size = refl;
  rows = All-replicate FullRow 128 (replicate buffer_width blank) refl;
}

fresh-Drawable : Drawable fresh_screen
fresh-Drawable = record { desktop = initial-IsValid; zeroth = new-Grid; first = new-Grid }

abbrev blanks : Cache
blanks = record {
  cells = replicate screen_cells blank;
  valid = true;
  vga = replicate screen_cells blank;
}

blanks-Honest : Honest blanks
blanks-Honest = record {
  cells = length-replicate screen_cells blank;
  vga = length-replicate screen_cells blank;
  shows = λ e. refl;
}

render_desktop-Renders_example : Renders fresh_screen (render_desktop fresh_screen blanks)
render_desktop-Renders_example =
    render_desktop-Renders fresh_screen blanks fresh-Drawable blanks-Honest
