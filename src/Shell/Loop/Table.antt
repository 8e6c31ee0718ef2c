-- ===== src/Shell/Loop/Table.antt =====
-- What each key of `handle_key` promises, as a table.
use crab_os.Prelude.{
  ℕ, ◌≡◌, refl, Bool, true, false, ◌||◌, Option, some, List, ◌==◌, if◌then◌else◌, is_ascii,
}
use crab_os.Shell.Line.{Line, is_printable, max_input}
use crab_os.Shell.Line.Text
use crab_os.Shell.Line.Text.{Text}
use crab_os.Shell.Session.{Session}
use crab_os.Shell.Session.Cursor.{end_of}
use crab_os.Shell.Session.Ready.{IsReady, Leaves}
use crab_os.Shell.Session.Completion.{complete_text}
use crab_os.Shell.Loop.{
  DecodedKey, KeyCode, unicode, raw_key, home_key, end_key, arrow_left, arrow_right, arrow_up,
  arrow_down, delete_key, page_up, page_down, other_key,
}
use crab_os.Shell.Loop.Edits.{start_of, left_of, right_of, without_left, without_right}

-- What a key promises: the text and the entries after it, or, for a step through the history, that
-- some line is shown and the entries are the same.
pub data Expected : Type 0 where
  becomes : Text → List Line → Expected
  recalls : Expected

abbrev pub Meets : Expected → List Line → Text → List Line → Type 0
Meets (becomes t entries) before t' entries' = (t' ≡ t) × (entries' ≡ entries)
Meets recalls before t' entries' = entries' ≡ before

-- The shell is ready after the code, as promised.
pub record Handles (result : Option Session) (before : List Line) (expected : Expected)
    : Type 0 where
  pub after : Session
  pub text : Text
  pub entries : List Line
  pub returns : result ≡ some after
  pub ready : IsReady after text entries
  pub meets : Meets expected before text entries

pub Leaves-Handles :
    {result : Option Session} {t : Text} {entries before : List Line}
    → Leaves result t entries
    → Handles result before (becomes t entries)
Leaves-Handles {t = t} {entries = entries} q = record {
  after = q.after;
  text = t;
  entries = entries;
  returns = q.returns;
  ready = q.ready;
  meets = (refl, refl);
}

-- The table of the characters: what each does to the text.
abbrev pub expected_of : ℕ → Text → List Line → List Line → Expected
expected_of c t entries submitted =
    if c == 10 || c == 13
    then becomes Text.empty submitted
    else if c == 3
    then becomes Text.empty entries
    else if c == 12
    then becomes t entries
    else if c == 9
    then becomes (complete_text t) entries
    else if c == 8
    then becomes (Text.backspace t) entries
    else if c == 0x7f || c == 4
    then becomes (Text.delete t) entries
    else if c == 1
    then becomes (start_of t) entries
    else if c == 5
    then becomes (end_of t) entries
    else if c == 2
    then becomes (left_of t) entries
    else if c == 6
    then becomes (right_of t) entries
    else if c == 0x10
    then recalls
    else if c == 0x0e
    then recalls
    else if c == 0x15
    then becomes (without_left t) entries
    else if c == 0x0b
    then becomes (without_right t) entries
    else if c == 0x17
    then becomes (Text.delete_word t) entries
    else if is_ascii c
    then becomes (Text.insert is_printable max_input t c).0 entries
    else becomes t entries

-- The same for the raw keys.
abbrev pub expected_raw : KeyCode → Text → List Line → Expected
expected_raw home_key t entries = becomes (start_of t) entries
expected_raw end_key t entries = becomes (end_of t) entries
expected_raw arrow_left t entries = becomes (left_of t) entries
expected_raw arrow_right t entries = becomes (right_of t) entries
expected_raw arrow_up t entries = recalls
expected_raw arrow_down t entries = recalls
expected_raw delete_key t entries = becomes (Text.delete t) entries
expected_raw page_up t entries = becomes t entries
expected_raw page_down t entries = becomes t entries
expected_raw other_key t entries = becomes t entries

abbrev pub expected_key : DecodedKey → Text → List Line → List Line → Expected
expected_key (unicode c) t entries submitted = expected_of c t entries submitted
expected_key (raw_key k) t entries submitted = expected_raw k t entries

-- Code and promise that branch on the same test.
pub both :
    {before : List Line} (b : Bool) (x x' : Option Session) (y y' : Expected)
    → Handles x before y
    → Handles x' before y'
    → Handles (if b then x else x') before (if b then y else y')
both true x x' y y' h k = h
both false x x' y y' h k = k
