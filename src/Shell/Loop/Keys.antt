-- ===== src/Shell/Loop/Keys.antt =====
-- What the keys do to a shell that is ready: `handle_key` never panics, keeps the shell ready, and
-- edits the text as the table of keys says.
use crab_os.Prelude.{
  ℕ, ◌≤◌, ◌≡◌, refl, sym, ap, ◌∙◌, subst, Bool, Option, some, none, List, [], ◌∷◌, arith,
  if◌then◌else◌, length, Bool-cases, inl, inr, ◌>>=◌,
}
use crab_os.Vga.Console.{Writer}
use crab_os.Shell.Line.{Line, is_printable, max_input}
use crab_os.Shell.Line
use crab_os.Shell.Line.Text
use crab_os.Shell.Line.Text.{Text}
use crab_os.Shell.Line.Refine.{Shows, Runs}
use crab_os.Shell.Line.Str.{as_str-eq-to_list}
use crab_os.Shell.History.{History}
use crab_os.Shell.History
use crab_os.Shell.History.Ring.{IsLine}
use crab_os.Shell.History.Record.{record_entry, record_line_refines}
use crab_os.Shell.Output.{Action, text, println}
use crab_os.Shell.Commands.{Machine}
use crab_os.Shell.Commands.Safe.{execute-Returns}
use crab_os.Shell.Session.{
  Session, with_line, with_history, idle, line_at_end, put_out, prompt, redraw,
}
use crab_os.Shell.Session.Cursor.{end_of, to_end-Shows}
use crab_os.Shell.Session.Ready.{
  Within, Kept, Usable, Prepared, IsReady, Leaves, put_out-Prints, prompt-Prompts,
  prompted-Prepared, prompt-Leaves, redraw-Draws, redraw-Leaves,
}
use crab_os.Shell.Loop.{submit, cancel, clear_screen, discard, run_line, edit, input_lost}

idle-Kept :
    {h : History} {entries : List Line}
    → Kept h entries
    → Kept (record h { browsing = none }) entries
unfolding History.get
idle-Kept k = record {
  holds = record {
    size = k.holds.size;
    start = k.holds.start;
    len = k.holds.len;
    bound = k.holds.bound;
    entry = k.holds.entry;
    lines = k.holds.lines;
  };
  draft = k.draft;
  browsing = tt;
}

module _ (s : Session) {t : Text} {entries : List Line} (ready : IsReady s t entries) where
  old_len_le : s.shell.line.len ≤ max_input
  old_len_le = let e = ready.prepared.shows.len in let r = ready.prepared.shows.room in omega arith

  -- Another line, at the same anchor.
  line-Prepared : {line : Line} {t' : Text} → Shows line t' → Prepared (with_line s line) t' entries
  line-Prepared shown = record {
    shows = shown;
    kept = ready.prepared.kept;
    usable = ready.prepared.usable;
    anchored = ready.prepared.anchored;
  }

  -- A change of the line that gives a text, and the redraw.
  pub edit-Leaves :
      (change : Line → Option Line) (t' : Text)
      → Runs (change s.shell.line) t'
      → Leaves (edit change s) t' entries
  edit-Leaves change t' r =
      let q =
        redraw-Leaves s.shell.line.len (with_line s r.line) old_len_le (line-Prepared r.shows) in
      record { after = q.after; returns = rw r.returns q.returns; ready = q.ready }

  -- The cursor moves to the line's end and is drawn there, and some output follows.
  abbrev ended : Writer → Session
  ended console = record {
    shell = record (s.shell) { line = line_at_end s.shell.line };
    console = console;
  }

  record Ends (actions : List Action) : Type 0 where
    drawn : Writer
    draws : redraw s.shell.line.len (with_line s (line_at_end s.shell.line)) ≡ some (ended drawn)
    console : Writer
    prints : put_out actions (ended drawn) ≡ some (ended console)
    usable : Usable console

  output-Ends : (actions : List Action) → Ends actions
  output-Ends actions =
      let d =
        redraw-Draws s.shell.line.len (with_line s (line_at_end s.shell.line)) old_len_le
          (line-Prepared (to_end-Shows ready.prepared.shows)) in
      let p = put_out-Prints actions (ended d.console) d.ready.prepared.usable in
      record {
        drawn = d.console;
        draws = d.returns;
        console = p.console;
        prints = p.returns;
        usable = p.usable;
      }

  pub cancel-Leaves : Leaves (cancel s) Text.empty entries
  unfolding cancel
  cancel-Leaves =
      let r = output-Ends (println "^C" ∷ []) in
      let q =
        prompt-Leaves (idle (with_line (ended r.console) Line.new)) (idle-Kept ready.prepared.kept)
          r.usable refl in
      record { after = q.after; returns = rw r.draws (rw r.prints q.returns); ready = q.ready }

  pub input_lost-Leaves : Leaves (input_lost s) Text.empty entries
  unfolding input_lost
  input_lost-Leaves =
      let r = output-Ends (
        println "^C"
        ∷ println "crabsh: keyboard input overflow; line discarded."
        ∷ println "Release modifier keys before typing again."
        ∷ []) in
      let q =
        prompt-Leaves (idle (with_line (ended r.console) Line.new)) (idle-Kept ready.prepared.kept)
          r.usable refl in
      record { after = q.after; returns = rw r.draws (rw r.prints q.returns); ready = q.ready }

  pub clear_screen-Leaves : Leaves (clear_screen s) t entries
  unfolding clear_screen
  clear_screen-Leaves =
      let p = put_out-Prints (Action.clear ∷ []) s ready.prepared.usable in
      let s1 = record s { console = p.console } in
      let r = prompt-Prompts s1 p.usable in
      let s2 : Session = record {
        shell = record (s.shell) { anchor = r.console.cursor };
        console = r.console;
      } in
      let q =
        redraw-Leaves 0 s2 (omega arith)
          (prompted-Prepared s1 r.console t ready.prepared.shows ready.prepared.kept r.usable) in
      record { after = q.after; returns = rw p.returns (rw r.returns q.returns); ready = q.ready }

  -- The entries after Enter: those of `record`, or the same where the line is discarded.
  abbrev pub entries_after : List Line
  entries_after = if t.overflow then entries else record_entry entries (line_at_end s.shell.line)

  discard-Leaves :
      (console : Writer)
      → Usable console
      → Leaves (discard (ended console) >>= λ s3. prompt (with_line s3 Line.new)) Text.empty entries
  discard-Leaves console usable =
      let p =
        put_out-Prints (println "crabsh: input exceeds 256 bytes; command discarded." ∷ [])
          (ended console) usable in
      let q =
        prompt-Leaves (idle (with_line (ended p.console) Line.new)) (idle-Kept ready.prepared.kept)
          p.usable refl in
      record { after = q.after; returns = rw p.returns q.returns; ready = q.ready }

  run_line-Leaves :
      (m : Machine) (console : Writer)
      → Usable console
      → Leaves
          (run_line m (ended console) >>= λ s3. prompt (with_line s3 Line.new))
          Text.empty
          (record_entry entries (line_at_end s.shell.line))
  run_line-Leaves m console usable =
      let line = line_at_end s.shell.line in
      let shown = to_end-Shows ready.prepared.shows in
      let kept = ready.prepared.kept in
      let r =
        record_line_refines s.shell.history line (record { text = end_of t; shows = shown })
          kept.holds in
      let (actions, executed) = execute-Returns m r.history r.holds (Text.to_list (end_of t)) in
      let s2 = with_history (ended console) r.history in
      let p = put_out-Prints actions s2 usable in
      let now : Kept r.history (record_entry entries line) = record {
        holds = r.holds;
        draft = subst IsLine (sym r.draft) kept.draft;
        browsing =
            subst (λ (b : Option ℕ). Within b (length (record_entry entries line))) (sym r.browsing)
              tt;
      } in
      let q =
        prompt-Leaves (with_line (record s2 { console = p.console }) Line.new) now p.usable refl in
      record {
        after = q.after;
        returns =
            rw r.returns (rw (as_str-eq-to_list shown) (rw executed (rw p.returns q.returns)));
        ready = q.ready;
      }

  -- The code tests the mark of the line, which is that of the text.
  goes :
      (m : Machine) (console : Writer) {b : Bool}
      → t.overflow ≡ b
      → ((if s.shell.line.overflow then discard (ended console) else run_line m (ended console))
          >>= λ s3. prompt (with_line s3 Line.new))
        ≡ ((if b then discard (ended console) else run_line m (ended console)) >>= λ s3.
            prompt (with_line s3 Line.new))
  goes m console e =
      ap
        (λ (mark : Bool).
          (if mark then discard (ended console) else run_line m (ended console)) >>= λ s3.
          prompt (with_line s3 Line.new))
        (ready.prepared.shows.overflow ∙ e)

  pub submit-Leaves : (m : Machine) → Leaves (submit m s) Text.empty entries_after
  unfolding submit
  submit-Leaves m =
      let r = output-Ends (text (10 ∷ []) ∷ []) in
      elim (Bool-cases t.overflow) [
        | inl e ↦
            let q = discard-Leaves r.console r.usable in
            rw e (record {
              after = q.after;
              returns = rw r.draws (rw r.prints (goes m r.console e ∙ q.returns));
              ready = q.ready;
            })
        | inr e ↦
            let q = run_line-Leaves m r.console r.usable in
            rw e (record {
              after = q.after;
              returns = rw r.draws (rw r.prints (goes m r.console e ∙ q.returns));
              ready = q.ready;
            })
      ]
