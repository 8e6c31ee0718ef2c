-- ===== src/Shell/Output.antt =====
-- What the commands of src/shell.rs and src/system.rs do to the console: `print!`, `println!` and
-- `write!` are writes of a text, and two calls change the colors and clear the screen.
pub mod Kept
use Prim.Native.String.{String}
use crab_os.Prelude.{ℕ, Option, some, List, [], ◌∷◌, ◌++◌, codes, ◌>>=◌}
use crab_os.Vga.Console.{Color, Writer, light_gray, light_blue, light_green, black}
use crab_os.Vga.Console

-- An operation on the console that `with_writer` gives.
pub data Action : Type 0 where
  text : List ℕ → Action
  colors : Color → Color → Action
  clear : Action

unfoldable pub act : Action → Writer → Option Writer
act (text t) w = Console.write_string w t
act (colors foreground background) w = some (Console.set_color w foreground background)
act clear w = some (Console.clear w)

unfoldable pub emit : List Action → Writer → Option Writer
unfolding act
emit [] w = some w
emit (a ∷ actions) w = act a w >>= emit actions

-- `print!` and `println!` of a literal.
abbrev pub print : String → Action
print s = text (codes s)

abbrev pub println : String → Action
println s = text (codes s ++ 10 ∷ [])

abbrev pub println_text : List ℕ → Action
println_text t = text (t ++ 10 ∷ [])

-- The four pieces of `Shell::prompt`.
abbrev pub prompt_actions : List Action
prompt_actions =
    colors light_green black
    ∷ print "shaolin@crabos"
    ∷ colors light_gray black
    ∷ print ":"
    ∷ colors light_blue black
    ∷ print "~"
    ∷ colors light_gray black
    ∷ print "$ "
    ∷ []
