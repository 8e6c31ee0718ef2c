-- ===== src/Shell/Tests/Recall.antt =====
-- A history of the two lines "a" and "b".
use crab_os.Prelude.{
  ℕ, zero, suc, ◌≡◌, refl, true, false, some, [], ◌∷◌, replicate, arith, ◌>>=◌, from_utf8,
  get_elem?,
}
use crab_os.Shell.Line
use crab_os.Shell.Line.{Line}
use crab_os.Shell.Line.Text
use crab_os.Shell.Line.Refine.{Shows}
use crab_os.Shell.History.{History, new, get, record_line}
use crab_os.Shell.History.Ring.{IsLine, Holds}
use crab_os.Shell.History.Record.{Records, record_entry, record_line_refines}
use crab_os.Shell.History.Browse.{
  up, down, times, browsing_at, cursor_at_end, times-up, times-down-up,
}

abbrev letter : ℕ → Line
letter byte = record { bytes = byte ∷ replicate 255 0; len = 1; cursor = 1; overflow = false }

abbrev a : Line
a = letter b'a'

abbrev b : Line
b = letter b'b'

abbrev c : Line
c = letter b'c'

module _ (byte : ℕ) where
  letter-Shows :
      Line.is_printable byte ≡ true → Shows (letter byte) (Text.of_lists (byte ∷ []) [] false)
  letter-Shows e = record {
    rest = replicate 255 0;
    bytes = refl;
    cursor = refl;
    len = refl;
    room = refl;
    overflow = refl;
    left = rw e;
    right = refl;
  }

  letter-IsLine : Line.is_printable byte ≡ true → IsLine (letter byte)
  letter-IsLine e = record { text = Text.of_lists (byte ∷ []) [] false; shows = letter-Shows e }

abbrev two : History
two = record new { lines = a ∷ b ∷ replicate 14 Line.new; len = 2 }

two-entry : (i : ℕ) (l : Line) → get_elem? (a ∷ b ∷ []) i ≡ some l → get two i ≡ some l
unfolding get
two-entry zero l e = e
two-entry (suc zero) l e = e
two-entry (suc (suc i)) l e = cc

two-Holds : Holds two (a ∷ b ∷ [])
two-Holds = record {
  size = refl;
  start = omega arith;
  len = refl;
  bound = omega arith;
  entry = two-entry;
  lines = (letter-IsLine b'a' refl, (letter-IsLine b'b' refl, tt));
}

-- A blank line and a repeated line are not recorded.
keep_two : record_line two b ≡ some two
unfolding record_line Line.as_str from_utf8
keep_two = refl

record_line_refines_example : Records two c (record_entry (a ∷ b ∷ []) c)
record_line_refines_example = record_line_refines two c (letter-IsLine b'c' refl) two-Holds

times-up_example :
    times 2 up (two, c) ≡ some (browsing_at (record two { draft = c }) 0, cursor_at_end a)
times-up_example = times-up 1 two 0 c a two-Holds refl refl refl

times-down-up_example : (times 2 up (two, c) >>= times 2 down) ≡ some (record two { draft = c }, c)
times-down-up_example = times-down-up 1 two c two-Holds refl (omega arith)
