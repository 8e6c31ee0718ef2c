-- ===== src/Shell/Session.antt =====
-- `struct Shell` of src/shell.rs with the console that `with_writer` gives it: the prompt, the redraw
-- of the input line, and Tab completion. `none` is a panic.
pub mod Ready
pub mod Cursor
pub mod Prefix
pub mod Typing
pub mod Completion
use crab_os.Prelude.{
  ℕ, zero, suc, ◌+◌, ◌-◌, Bool, true, false, not, ◌&&◌, ◌||◌, Option, none, some, List, [], ◌∷◌,
  ◌++◌, any, length, take, drop, ◌==◌, if◌then◌else◌, ◌>>=◌,
}
use crab_os.Vga.Console.{Position, Writer}
use crab_os.Vga.Console
use crab_os.Net.Web.Bytes.{starts_with}
use crab_os.Shell.Line.{Line}
use crab_os.Shell.Line
use crab_os.Shell.History.{History}
use crab_os.Shell.Output.{Action, text, emit, prompt_actions, println, println_text}
use crab_os.Shell.Commands.{commands}

-- The facts in `info` do not change, and stand with what `execute` reads.
pub record Shell : Type 0 where
  pub line : Line
  pub history : History
  pub anchor : Position

pub record Session : Type 0 where
  pub shell : Shell
  pub console : Writer

abbrev pub with_line : Session → Line → Session
with_line s l = record s { shell = record (s.shell) { line = l } }

abbrev pub with_history : Session → History → Session
with_history s h = record s { shell = record (s.shell) { history = h } }

abbrev pub idle : Session → Session
idle s = with_history s (record (s.shell.history) { browsing = none })

abbrev pub line_at_end : Line → Line
line_at_end l = record l { cursor = l.len }

unfoldable pub put_out : List Action → Session → Option Session
put_out actions s = do console ← emit actions s.console; some (record s { console = console })

-- `self.anchor = Self::prompt()`
unfoldable pub prompt : Session → Option Session
prompt s = do
  s' ← put_out prompt_actions s
  some (record s' { shell = record (s'.shell) { anchor = s'.console.cursor } })

unfoldable pub redraw : ℕ → Session → Option Session
redraw old_len s = do
  shown ← Line.as_str s.shell.line
  console ← Console.replace_input s.console s.shell.anchor shown s.shell.line.cursor old_len
  some (record s { console = console })

-- The names of the commands that start with a prefix.
abbrev pub matching : List ℕ → List (List ℕ × List ℕ) → List (List ℕ)
matching prefix [] = []
matching prefix (c ∷ table) =
    if starts_with prefix c.0 then c.0 ∷ matching prefix table else matching prefix table

abbrev pub zip : List ℕ → List ℕ → List (ℕ × ℕ)
zip [] ys = []
zip (x ∷ xs) [] = []
zip (x ∷ xs) (y ∷ ys) = (x, y) ∷ zip xs ys

abbrev pub take_while : (ℕ × ℕ → Bool) → List (ℕ × ℕ) → List (ℕ × ℕ)
take_while p [] = []
take_while p (x ∷ xs) = if p x then x ∷ take_while p xs else []

-- `first.bytes().zip(name.bytes()).take(common_len).take_while(|(a, b)| a == b).count()`
unfoldable pub common_with : List ℕ → List ℕ → ℕ → ℕ
common_with first name common_len =
    length (take_while (λ p. p.0 == p.1) (take common_len (zip first name)))

-- The loop over the other matches.
unfoldable pub common_len : List ℕ → ℕ → List (List ℕ) → ℕ
common_len first len [] = len
common_len first len (name ∷ names) = common_len first (common_with first name len) names

-- The loop that inserts bytes; whether they went in is not looked at.
unfoldable pub insert_all : Line → List ℕ → Option Line
insert_all l [] = some l
insert_all l (byte ∷ bytes) = Line.insert l byte >>= λ r. insert_all r.0 bytes

-- The names of the matches with two spaces behind each, and the end of the line.
abbrev pub print_names : List (List ℕ) → List Action
print_names [] = text (10 ∷ []) ∷ []
print_names (name ∷ names) = text (name ++ b' ' ∷ b' ' ∷ []) ∷ print_names names

-- The list of the matches below the input, and a fresh prompt.
unfoldable pub list_matches : ℕ → List (List ℕ) → Session → Option Session
list_matches old_len names s = do
  s1 ← redraw old_len (with_line s (line_at_end s.shell.line))
  s2 ← put_out (text (10 ∷ []) ∷ print_names names) s1
  prompt s2

-- What follows the insertion: a space behind the only match, or the list of several that have nothing
-- more in common.
abbrev pub complete_end : Line → ℕ → List ℕ → List (List ℕ) → Session → Option Session
complete_end prefix common first [] s =
    Line.insert s.shell.line b' ' >>= λ r. some (with_line s r.0)
complete_end prefix common first (other ∷ rest) s =
    if common == prefix.len then list_matches prefix.len (first ∷ other ∷ rest) s else some s

-- A match, and the others.
unfoldable pub complete_with : Line → List ℕ → List (List ℕ) → Session → Option Session
complete_with prefix first others s = do
  let common = common_len first (length first) others
  line ← insert_all s.shell.line (drop prefix.len (take common first))
  s1 ← complete_end prefix common first others (with_line s line)
  redraw prefix.len s1

abbrev pub complete_matches : Line → List (List ℕ) → Session → Option Session
complete_matches prefix [] s = some s
complete_matches prefix (first ∷ others) s = complete_with prefix first others s

unfoldable pub complete : Session → Option Session
complete s =
    let prefix = s.shell.line in
    if not (prefix.cursor == prefix.len)
    then some s
    else Line.as_str prefix >>= λ typed.
        if any (λ byte. byte == b' ') typed
        then some s
        else complete_matches prefix (matching typed commands) s
