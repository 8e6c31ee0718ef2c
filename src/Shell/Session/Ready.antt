-- ===== src/Shell/Session/Ready.antt =====
-- The shell between two keys: its line shows a text, its history holds entries, its anchor is in the
-- console's ring, and the cursor stands where the text has it.
use crab_os.Prelude.{
  ℕ, ◌≤◌, ◌<◌, ◌≡◌, refl, sym, ap, ◌∙◌, Option, some, none, List, arith, length, length-append,
  length-reverse, reverse,
}
use crab_os.Vga.Console.{Position, Writer, offset, replace_input}
use crab_os.Vga.Console.Bounds.{IsValid}
use crab_os.Vga.Console.Offset.{line-offset, offset-zero}
use crab_os.Vga.Console.Redraw.{Redraws, replace_input-Redraws, min_columns}
use crab_os.Shell.Line.{Line, as_str, max_input}
use crab_os.Shell.Line
use crab_os.Shell.Line.Text
use crab_os.Shell.Line.Text.{Text}
use crab_os.Shell.Line.Refine.{Shows, new-Shows}
use crab_os.Shell.Line.Str.{as_str-eq-to_list, to_list-printable}
use crab_os.Shell.History.{History}
use crab_os.Shell.History.Ring.{Holds, IsLine}
use crab_os.Shell.Output.{Action, prompt_actions}
use crab_os.Shell.Output.Kept.{emit-Stays}
use crab_os.Shell.Session.{Session, put_out, prompt, redraw}

-- The entry that is shown is one of so many.
abbrev pub Within : Option ℕ → ℕ → Type 0
Within none n = Unit
Within (some i) n = i < n

-- The history: its entries, the draft, and the entry that is shown.
pub record Kept (h : History) (entries : List Line) : Type 0 where
  pub holds : Holds h entries
  pub draft : IsLine h.draft
  pub browsing : Within h.browsing (length entries)

-- A console that the shell can write to.
pub record Usable (w : Writer) : Type 0 where
  pub valid : IsValid w
  pub wide : min_columns ≤ w.columns

-- The anchor is a place in the ring.
pub record Anchored (w : Writer) (anchor : Position) : Type 0 where
  pub above : w.first_line ≤ anchor.line
  pub below : anchor.line ≤ w.last_line
  pub column : anchor.column ≤ w.columns

-- All but the cursor, as it is before a redraw.
pub record Prepared (s : Session) (t : Text) (entries : List Line) : Type 0 where
  pub shows : Shows s.shell.line t
  pub kept : Kept s.shell.history entries
  pub usable : Usable s.console
  pub anchored : Anchored s.console s.shell.anchor

pub record IsReady (s : Session) (t : Text) (entries : List Line) : Type 0 where
  pub prepared : Prepared s t entries
  pub cursor : s.console.cursor ≡ offset s.shell.anchor s.shell.line.cursor s.console.columns

-- Code that leaves the shell ready, with this text in the line and these entries in the history.
pub record Leaves (result : Option Session) (t : Text) (entries : List Line) : Type 0 where
  pub after : Session
  pub returns : result ≡ some after
  pub ready : IsReady after t entries

-- Output keeps the console usable, and changes nothing else.
pub record Prints (result : Option Session) (s : Session) : Type 0 where
  pub console : Writer
  pub returns : result ≡ some (record s { console = console })
  pub usable : Usable console

pub put_out-Prints :
    (actions : List Action) (s : Session) → Usable s.console → Prints (put_out actions s) s
unfolding put_out
put_out-Prints actions s u =
    let r = emit-Stays actions s.console u.valid in
    record {
      console = r.writer;
      returns = rw r.returns refl;
      usable = record {
        valid = r.valid;
        wide = let e = r.columns in let k = u.wide in omega arith;
      };
    }

-- The cursor of a console is a place for an anchor.
cursor-Anchored : (w : Writer) → IsValid w → Anchored w w.cursor
cursor-Anchored w v = record { above = v.above; below = v.below; column = v.column }

-- What the prompt leaves: the anchor at the cursor.
pub record Prompts (result : Option Session) (s : Session) : Type 0 where
  pub console : Writer
  pub returns :
      result
      ≡ some (record { shell = record (s.shell) { anchor = console.cursor }; console = console })
  pub usable : Usable console

pub prompt-Prompts : (s : Session) → Usable s.console → Prompts (prompt s) s
unfolding prompt
prompt-Prompts s u =
    let r = put_out-Prints prompt_actions s u in
    record { console = r.console; returns = rw r.returns refl; usable = r.usable }

-- After a prompt, a line that shows a text can be drawn.
pub prompted-Prepared :
    (s : Session) (console : Writer) (t : Text) {entries : List Line}
    → Shows s.shell.line t
    → Kept s.shell.history entries
    → Usable console
    → Prepared
        (record { shell = record (s.shell) { anchor = console.cursor }; console = console })
        t
        entries
prompted-Prepared s console t shown keeps fit = record {
  shows = shown;
  kept = keeps;
  usable = fit;
  anchored = cursor-Anchored console fit.valid;
}

-- A prompt with an empty line leaves the shell ready.
pub prompt-Leaves :
    (s : Session) {entries : List Line}
    → Kept s.shell.history entries
    → Usable s.console
    → s.shell.line ≡ Line.new
    → Leaves (prompt s) Text.empty entries
prompt-Leaves s kept usable e =
    let r = prompt-Prompts s usable in
    let v = r.usable.valid in
    record {
      after = record {
        shell = record (s.shell) { anchor = r.console.cursor };
        console = r.console;
      };
      returns = r.returns;
      ready = record {
        prepared = prompted-Prepared s r.console Text.empty (rw e new-Shows) kept r.usable;
        cursor = sym (
            ap (λ (l : Line). offset r.console.cursor l.cursor r.console.columns) e
            ∙ offset-zero r.console.columns v.columns.0 r.console.cursor v.column);
      };
    }

-- The length of the text is that of the line.
size_lem : {l : Line} {t : Text} → Shows l t → length (Text.to_list t) ≡ l.len
size_lem {l} {t} s = omega (arith, length-append (reverse t.left) t.right, length-reverse t.left)

-- A redraw: only the console changes, and the shell is ready.
pub record Draws (result : Option Session) (s : Session) (t : Text) (entries : List Line)
    : Type 0 where
  pub console : Writer
  pub returns : result ≡ some (record s { console = console })
  pub ready : IsReady (record s { console = console }) t entries

-- A redraw of a line that shows a text, over an older line, leaves the shell ready, and changes only the
-- console.
pub redraw-Draws :
    (old_len : ℕ) (s : Session) {t : Text} {entries : List Line}
    → old_len ≤ max_input
    → Prepared s t entries
    → Draws (redraw old_len s) s t entries
unfolding redraw
redraw-Draws old_len s {t} old p =
    let shown = Text.to_list t in
    let a = p.anchored in
    let v = p.usable.valid in
    let size = size_lem p.shows in
    let room = p.shows.room in
    let r : Redraws (replace_input s.console s.shell.anchor shown s.shell.line.cursor old_len)
        s.console s.shell.anchor s.shell.line.cursor =
      replace_input-Redraws s.console s.shell.anchor shown s.shell.line.cursor old_len v a.above
        a.below a.column p.usable.wide (to_list-printable p.shows)
        (let c = p.shows.cursor in let l = p.shows.len in omega arith)
        (let l = p.shows.len in omega arith) old in
    let same = r.columns in
    record {
      console = r.writer;
      returns = rw (as_str-eq-to_list p.shows) (rw r.returns refl);
      ready = record {
        prepared = record {
          shows = p.shows;
          kept = p.kept;
          usable = record { valid = r.valid; wide = let k = p.usable.wide in omega arith };
          anchored = record {
            above = r.anchor;
            below =
                let at : r.writer.cursor.line
                    ≡ (offset s.shell.anchor s.shell.line.cursor s.console.columns).line =
                  ap (λ (q : Position). q.line) r.cursor in
                let down = r.valid.below in
                omega (
                  arith,
                  line-offset s.console.columns v.columns.0 s.shell.anchor s.shell.line.cursor
                      a.column,
                );
            column = let k = a.column in omega arith;
          };
        };
        cursor = r.cursor ∙ ap (offset s.shell.anchor s.shell.line.cursor) (sym same);
      };
    }

pub redraw-Leaves :
    (old_len : ℕ) (s : Session) {t : Text} {entries : List Line}
    → old_len ≤ max_input
    → Prepared s t entries
    → Leaves (redraw old_len s) t entries
redraw-Leaves old_len s old p =
    let d = redraw-Draws old_len s old p in
    record { after = record s { console = d.console }; returns = d.returns; ready = d.ready }
