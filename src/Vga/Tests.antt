-- ===== src/Vga/Tests.antt =====
-- Runs of the console of src/vga_buffer.rs.
use crab_os.Prelude.{ℕ, refl, List, [], ◌∷◌, arith, All-replicate, replicate}
use crab_os.Vga.Console.{blank, new, origin, offset, write_string, replace_input, buffer_width}
use crab_os.Vga.Console.Bounds.{IsValid, Writes, FullRow}
use crab_os.Vga.Console.Write.{write_string-Writes}
use crab_os.Vga.Console.Redraw.{Redraws, replace_input-Redraws}

new-IsValid : IsValid new
new-IsValid = record {
  grid = record {
    size = refl;
    rows = All-replicate FullRow 128 (replicate buffer_width blank) refl;
  };
  columns = omega arith;
  column = omega arith;
  first = refl;
  above = omega arith;
  below = omega arith;
  view = omega arith;
}

abbrev greeting : List ℕ
greeting = b'h' ∷ b'i' ∷ []

write_string-Writes_example : Writes (write_string new greeting) new (offset origin 2 80)
write_string-Writes_example = write_string-Writes greeting new new-IsValid refl

replace_input-Redraws_example : Redraws (replace_input new origin greeting 1 5) new origin 1
replace_input-Redraws_example =
    replace_input-Redraws new origin greeting 1 5 new-IsValid (omega arith) (omega arith)
      (omega arith) (omega arith) refl (omega arith) (omega arith) (omega arith)
