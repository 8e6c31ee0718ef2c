-- ===== src/Shell/Tests/Command.antt =====
-- Command lines as bytes.
use Prim.Native.Char.{code}
use Prim.Native.String.{String}
use crab_os.Prelude.{ℕ, ◌≡◌, refl, List, [], ◌∷◌, arith}
use crab_os.Shell.Arguments.{Arguments, ok, err, chaining, unclosed_quote, parse}
use crab_os.Shell.Arguments.Words
use crab_os.Shell.Arguments.Parse.{Agree}
use crab_os.Shell.Arguments.Total.{Gives, parse_refines}
use crab_os.Shell.Arguments.Quoted.{quoted, parse-quoted}

abbrev codes : String → List ℕ
codes String.[] = []
codes (String.◌∷◌ c s) = code c ∷ codes s

split_line :
    Words.split (codes " echo 'two words' '' a\\ b")
    ≡ ok (codes "echo" ∷ codes "two words" ∷ [] ∷ codes "a b" ∷ [])
unfolding Words.split
split_line = refl

no_pipes : parse (codes "echo hi | cat") ≡ err chaining
unfolding parse
no_pipes = refl

no_open_quote : parse (codes "echo 'unfinished") ≡ err unclosed_quote
unfolding parse
no_open_quote = refl

parse_refines_example : Agree Gives (parse (codes "echo 'a b'")) (Words.split (codes "echo 'a b'"))
parse_refines_example = parse_refines (codes "echo 'a b'")

parse-quoted_example :
    (r : Arguments) × (parse (quoted (codes "a|b" ∷ [] ∷ [])) ≡ ok r)
    × Gives r (codes "a|b" ∷ [] ∷ [])
parse-quoted_example =
    parse-quoted (codes "a|b" ∷ [] ∷ []) (refl, (refl, tt)) (omega arith) (omega arith)
