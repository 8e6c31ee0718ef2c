-- ===== src/Shell/Loop.antt =====
-- `Shell::new`, `reset_for_resize`, `handle_key` and `input_lost` of src/shell.rs. `none` is a panic.
pub mod Edits
pub mod Keys
pub mod Recall
pub mod Table
pub mod Handle
pub mod Start
use crab_os.Prelude.{
  ℕ, zero, suc, ◌+◌, ◌-◌, min, Bool, true, false, not, ◌&&◌, ◌||◌, Option, none, some, List, [],
  ◌∷◌, ◌++◌, ltb, ◌==◌, if◌then◌else◌, copy_within, is_ascii, codes, ◌>>=◌,
}
use crab_os.Vga.Console.{Writer, origin}
use crab_os.Vga.Console
use crab_os.System.{fastfetch}
use crab_os.Shell.Line.{Line}
use crab_os.Shell.Line
use crab_os.Shell.History.{History}
use crab_os.Shell.History
use crab_os.Shell.Output.{Action, text, print, println}
use crab_os.Shell.Commands.{Machine, execute}
use crab_os.Shell.Session.{
  Shell, Session, with_line, with_history, idle, line_at_end, put_out, prompt, redraw, complete,
}

-- The raw keys that `handle_key` tells apart; `other_key` is any other.
pub data KeyCode : Type 0 where
  home_key end_key arrow_left arrow_right arrow_up arrow_down : KeyCode
  delete_key page_up page_down other_key : KeyCode

pub data DecodedKey : Type 0 where
  unicode : ℕ → DecodedKey
  raw_key : KeyCode → DecodedKey

-- `Shell::new`, on the console that it clears.
unfoldable pub new : Machine → Writer → Option Session
new m console =
    put_out
      (Action.clear
        ∷ (fastfetch m.readings m.info
            ++ println "Welcome to CrabOS. Type 'help' to get started."
              ∷ println "Tab completes commands. Up/Down recalls history. PgUp/PgDn scrolls.\n"
              ∷ []))
      (record {
        shell = record { line = Line.new; history = History.new; anchor = origin };
        console = console;
      })
    >>= prompt

-- `Shell::reset_for_resize`
unfoldable pub reset_for_resize : Session → Option Session
reset_for_resize s = put_out (Action.clear ∷ []) s >>= λ s'. prompt (with_line s' Line.new)

-- A line that is too long is not run.
abbrev pub discard : Session → Option Session
discard s = put_out (println "crabsh: input exceeds 256 bytes; command discarded." ∷ []) s >>= λ s'.
    some (idle s')

-- `self.history.record(line); self.execute(line.as_str())`
abbrev pub run_line : Machine → Session → Option Session
run_line m s = do
  history ← History.record_line s.shell.history s.shell.line
  input ← Line.as_str s.shell.line
  actions ← execute m history input
  put_out actions (with_history s history)

-- Enter.
unfoldable pub submit : Machine → Session → Option Session
submit m s = do
  s1 ← redraw s.shell.line.len (with_line s (line_at_end s.shell.line))
  s2 ← put_out (text (10 ∷ []) ∷ []) s1
  s3 ← (if s2.shell.line.overflow then discard s2 else run_line m s2)
  prompt (with_line s3 Line.new)

-- Ctrl+C, where it reaches the shell.
unfoldable pub cancel : Session → Option Session
cancel s = do
  s1 ← redraw s.shell.line.len (with_line s (line_at_end s.shell.line))
  s2 ← put_out (println "^C" ∷ []) s1
  prompt (idle (with_line s2 Line.new))

-- Ctrl+L.
unfoldable pub clear_screen : Session → Option Session
clear_screen s = do s1 ← put_out (Action.clear ∷ []) s; s2 ← prompt s1; redraw 0 s2

-- Home, End, Left and Right.
abbrev pub to_start : Line → Line
to_start l = record l { cursor = 0 }

abbrev pub to_left : Line → Line
to_left l = record l { cursor = l.cursor - 1 }

abbrev pub to_right : Line → Line
to_right l = record l { cursor = min (l.cursor + 1) l.len }

-- `if self.line.len < old_len { self.line.overflow = false; }`
abbrev pub if_shorter : ℕ → Line → Line
if_shorter old_len l = if ltb l.len old_len then record l { overflow = false } else l

-- Ctrl+U. The subtraction is that of a range which `copy_within` has checked.
unfoldable pub erase_to_start : Line → Option Line
erase_to_start l = do
  bytes ← copy_within l.bytes l.cursor l.len 0
  some (if_shorter l.len (record l { bytes = bytes; len = l.len - l.cursor; cursor = 0 }))

-- Ctrl+K.
unfoldable pub erase_to_end : Line → Line
erase_to_end l = if_shorter l.len (record l { len = l.cursor })

-- A key that edits the line, or takes another one from the history.
abbrev pub edit : (Line → Option Line) → Session → Option Session
edit change s = change s.shell.line >>= λ line. redraw s.shell.line.len (with_line s line)

abbrev pub browse : (History → Line → Option (History × Line)) → Session → Option Session
browse step s = step s.shell.history s.shell.line >>= λ r.
    redraw s.shell.line.len (with_history (with_line s r.1) r.0)

abbrev pub scroll : (Writer → Writer) → Session → Option Session
scroll move s = some (record s { console = move s.console })

-- The arms for a character.
unfoldable pub handle_character : Machine → ℕ → Session → Option Session
handle_character m c s =
    if c == 10 || c == 13
    then submit m s
    else if c == 3
    then cancel s
    else if c == 12
    then clear_screen s
    else if c == 9
    then complete s
    else if c == 8
    then edit Line.backspace s
    else if c == 0x7f || c == 4
    then edit Line.delete s
    else if c == 1
    then edit (λ l. some (to_start l)) s
    else if c == 5
    then edit (λ l. some (line_at_end l)) s
    else if c == 2
    then edit (λ l. some (to_left l)) s
    else if c == 6
    then edit (λ l. some (to_right l)) s
    else if c == 0x10
    then browse History.previous s
    else if c == 0x0e
    then browse History.next s
    else if c == 0x15
    then edit erase_to_start s
    else if c == 0x0b
    then edit (λ l. some (erase_to_end l)) s
    else if c == 0x17
    then edit Line.delete_word s
    else if is_ascii c
    then edit (λ l. Line.insert l c >>= λ r. some r.0) s
    else some s

-- The arms for a raw key.
unfoldable pub handle_raw : KeyCode → Session → Option Session
handle_raw home_key s = edit (λ l. some (to_start l)) s
handle_raw end_key s = edit (λ l. some (line_at_end l)) s
handle_raw arrow_left s = edit (λ l. some (to_left l)) s
handle_raw arrow_right s = edit (λ l. some (to_right l)) s
handle_raw arrow_up s = browse History.previous s
handle_raw arrow_down s = browse History.next s
handle_raw delete_key s = edit Line.delete s
handle_raw page_up s = scroll Console.scroll_up s
handle_raw page_down s = scroll Console.scroll_down s
handle_raw other_key s = some s

unfoldable pub handle_key : Machine → DecodedKey → Session → Option Session
handle_key m (unicode c) s = handle_character m c s
handle_key m (raw_key k) s = handle_raw k s

unfoldable pub input_lost : Session → Option Session
input_lost s = do
  s1 ← redraw s.shell.line.len (with_line s (line_at_end s.shell.line))
  s2 ←
      put_out
        (println "^C"
          ∷ println "crabsh: keyboard input overflow; line discarded."
          ∷ println "Release modifier keys before typing again."
          ∷ [])
        s1
  prompt (idle (with_line s2 Line.new))
