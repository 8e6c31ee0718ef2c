-- ===== src/Shell/Loop/Handle.antt =====
-- `handle_key` as a whole.
use crab_os.Prelude.{
  ℕ, ◌≤◌, refl, ◌||◌, Option, some, List, arith, ◌==◌, if◌then◌else◌, is_ascii, ◌>>=◌,
}
use crab_os.Vga.Console.{scroll_up, scroll_down}
use crab_os.Vga.Console.Bounds.{IsValid}
use crab_os.Vga.Console.Redraw.{scroll_up-IsValid, scroll_down-IsValid}
use crab_os.Shell.Line.{Line, is_printable, max_input}
use crab_os.Shell.Line
use crab_os.Shell.Line.Text
use crab_os.Shell.Line.Text.{Text}
use crab_os.Shell.Line.Refine.{Shows, Runs, insert_refines, delete_refines, backspace_refines}
use crab_os.Shell.Line.Word.{delete_word_refines}
use crab_os.Shell.History.{History}
use crab_os.Shell.History
use crab_os.Shell.History.Ring.{IsLine}
use crab_os.Shell.Commands.{Machine}
use crab_os.Shell.Session.{Session, line_at_end}
use crab_os.Shell.Session.Cursor.{end_of, to_end-Shows}
use crab_os.Shell.Session.Ready.{Prepared, IsReady, redraw-Leaves}
use crab_os.Shell.Session.Completion.{complete-Leaves}
use crab_os.Shell.Loop.{
  DecodedKey, KeyCode, unicode, raw_key, home_key, end_key, arrow_left, arrow_right, arrow_up,
  arrow_down, delete_key, page_up, page_down, other_key, to_start, to_left, to_right,
  erase_to_start, erase_to_end, edit, browse, handle_character, handle_raw, handle_key,
}
use crab_os.Shell.Loop.Edits.{
  start_of, left_of, right_of, without_left, without_right, to_start-Shows, to_left-Shows,
  to_right-Shows, erase_to_end-Shows, erase_to_start-Runs,
}
use crab_os.Shell.Loop.Keys.{
  edit-Leaves, cancel-Leaves, clear_screen-Leaves, submit-Leaves, entries_after,
}
use crab_os.Shell.Loop.Recall.{Browses, previous-Browses, next-Browses}
use crab_os.Shell.Loop.Table.{
  becomes, recalls, Handles, Leaves-Handles, expected_of, expected_raw, expected_key, both,
}

module _ (m : Machine) (s : Session) {t : Text} {entries : List Line}
    (ready : IsReady s t entries) where
  open ready use {prepared}

  edit-Handles :
      (change : Line → Option Line) (t' : Text)
      → Runs (change s.shell.line) t'
      → Handles (edit change s) entries (becomes t' entries)
  edit-Handles change t' r = Leaves-Handles (edit-Leaves s ready change t' r)

  moved-Handles :
      (change : Line → Line) (t' : Text)
      → Shows (change s.shell.line) t'
      → Handles (edit (λ l. some (change l)) s) entries (becomes t' entries)
  moved-Handles change t' shown =
      edit-Handles (λ l. some (change l)) t'
        (record { line = change s.shell.line; returns = refl; shows = shown })

  browse-Handles :
      (step : History → Line → Option (History × Line))
      → Browses (step s.shell.history s.shell.line) entries
      → Handles (browse step s) entries recalls
  browse-Handles step b =
      let s' : Session = record s {
        shell = record (s.shell) { line = b.line; history = b.history };
      } in
      let p : Prepared s' b.is_line.text entries = record {
        shows = b.is_line.shows;
        kept = b.kept;
        usable = prepared.usable;
        anchored = prepared.anchored;
      } in
      let short : s.shell.line.len ≤ max_input =
        let e = prepared.shows.len in let r = prepared.shows.room in omega arith in
      let q = redraw-Leaves s.shell.line.len s' short p in
      record {
        after = q.after;
        text = b.is_line.text;
        entries = entries;
        returns = rw b.returns q.returns;
        ready = q.ready;
        meets = refl;
      }

  insert-Handles :
      (c : ℕ)
      → Handles
          (edit (λ l. Line.insert l c >>= λ r. some r.0) s)
          entries
          (becomes (Text.insert is_printable max_input t c).0 entries)
  insert-Handles c =
      let r = insert_refines c prepared.shows in
      edit-Handles (λ l. Line.insert l c >>= λ x. some x.0)
        (Text.insert is_printable max_input t c).0
        (record { line = r.line; returns = rw r.returns refl; shows = r.shows })

  current : IsLine s.shell.line
  current = record { text = t; shows = prepared.shows }

  -- A key that the shell does not know.
  unchanged-Handles : Handles (some s) entries (becomes t entries)
  unchanged-Handles = record {
    after = s;
    text = t;
    entries = entries;
    returns = refl;
    ready = ready;
    meets = (refl, refl);
  }

  -- A page up or down changes what is seen, and neither the cursor nor the ring.
  scroll-Handles :
      (view : ℕ)
      → IsValid (record (s.console) { view_top = view })
      → Handles
          (some (record s { console = record (s.console) { view_top = view } }))
          entries
          (becomes t entries)
  scroll-Handles view valid = record {
    after = record s { console = record (s.console) { view_top = view } };
    text = t;
    entries = entries;
    returns = refl;
    ready = record {
      prepared = record {
        shows = prepared.shows;
        kept = prepared.kept;
        usable = record { valid = valid; wide = prepared.usable.wide };
        anchored = record {
          above = prepared.anchored.above;
          below = prepared.anchored.below;
          column = prepared.anchored.column;
        };
      };
      cursor = ready.cursor;
    };
    meets = (refl, refl);
  }

  raw-Handles : (k : KeyCode) → Handles (handle_raw k s) entries (expected_raw k t entries)
  unfolding handle_raw scroll_up scroll_down
  raw-Handles home_key = moved-Handles to_start (start_of t) (to_start-Shows prepared.shows)
  raw-Handles end_key = moved-Handles line_at_end (end_of t) (to_end-Shows prepared.shows)
  raw-Handles arrow_left = moved-Handles to_left (left_of t) (to_left-Shows prepared.shows)
  raw-Handles arrow_right = moved-Handles to_right (right_of t) (to_right-Shows prepared.shows)
  raw-Handles arrow_up =
      browse-Handles History.previous (previous-Browses prepared.kept s.shell.line current)
  raw-Handles arrow_down =
      browse-Handles History.next (next-Browses prepared.kept s.shell.line current)
  raw-Handles delete_key = edit-Handles Line.delete (Text.delete t) (delete_refines prepared.shows)
  raw-Handles page_up = scroll-Handles _ (scroll_up-IsValid s.console prepared.usable.valid)
  raw-Handles page_down = scroll-Handles _ (scroll_down-IsValid s.console prepared.usable.valid)
  raw-Handles other_key = unchanged-Handles

  -- The last arms: the keys that erase, and a character that is put in.
  erase-Handles :
      (c : ℕ)
      → Handles
          (if c == 0x15
            then edit erase_to_start s
            else if c == 0x0b
            then edit (λ l. some (erase_to_end l)) s
            else if c == 0x17
            then edit Line.delete_word s
            else if is_ascii c
            then edit (λ l. Line.insert l c >>= λ r. some r.0) s
            else some s)
          entries
          (if c == 0x15
            then becomes (without_left t) entries
            else if c == 0x0b
            then becomes (without_right t) entries
            else if c == 0x17
            then becomes (Text.delete_word t) entries
            else if is_ascii c
            then becomes (Text.insert is_printable max_input t c).0 entries
            else becomes t entries)
  erase-Handles c =
      let shown = prepared.shows in
      both (c == 0x15) _ _ _ _
        (edit-Handles erase_to_start (without_left t) (erase_to_start-Runs shown))
        (both (c == 0x0b) _ _ _ _
          (moved-Handles erase_to_end (without_right t) (erase_to_end-Shows shown))
          (both (c == 0x17) _ _ _ _
            (edit-Handles Line.delete_word (Text.delete_word t) (delete_word_refines shown))
            (both (is_ascii c) _ _ _ _ (insert-Handles c) unchanged-Handles)))

  character-Handles :
      (c : ℕ)
      → Handles (handle_character m c s) entries (expected_of c t entries (entries_after s ready))
  unfolding handle_character
  character-Handles c =
      let shown = prepared.shows in
      both (c == 10 || c == 13) _ _ _ _ (Leaves-Handles (submit-Leaves s ready m)) (
        both (c == 3) _ _ _ _ (Leaves-Handles (cancel-Leaves s ready)) (
          both (c == 12) _ _ _ _ (Leaves-Handles (clear_screen-Leaves s ready)) (
            both (c == 9) _ _ _ _ (Leaves-Handles (complete-Leaves ready)) (
              both (c == 8) _ _ _ _
                (edit-Handles Line.backspace (Text.backspace t) (backspace_refines shown))
                (both (c == 0x7f || c == 4) _ _ _ _
                  (edit-Handles Line.delete (Text.delete t) (delete_refines shown))
                  (both (c == 1) _ _ _ _
                    (moved-Handles to_start (start_of t) (to_start-Shows shown))
                    (both (c == 5) _ _ _ _
                      (moved-Handles line_at_end (end_of t) (to_end-Shows shown))
                      (both (c == 2) _ _ _ _
                        (moved-Handles to_left (left_of t) (to_left-Shows shown))
                        (both (c == 6) _ _ _ _
                          (moved-Handles to_right (right_of t) (to_right-Shows shown))
                          (both (c == 0x10) _ _ _ _
                            (browse-Handles History.previous
                              (previous-Browses prepared.kept s.shell.line current))
                            (both (c == 0x0e) _ _ _ _
                              (browse-Handles History.next
                                (next-Browses prepared.kept s.shell.line current))
                              (erase-Handles c))))))))))))

  -- A key on a shell that is ready panics nowhere and leaves it ready. The text that the line shows
  -- becomes what the table of the keys says; Enter and Ctrl+C empty it. Enter records the line unless
  -- it was too long, no other key changes the entries, and Up and Down show some line.
  pub handle_key-Handles :
      (key : DecodedKey)
      → Handles (handle_key m key s) entries (expected_key key t entries (entries_after s ready))
  unfolding handle_key
  handle_key-Handles (unicode c) = character-Handles c
  handle_key-Handles (raw_key k) = raw-Handles k
