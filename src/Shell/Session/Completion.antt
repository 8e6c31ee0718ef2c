-- ===== src/Shell/Session/Completion.antt =====
-- Tab completion: what `Shell::complete` leaves in the line.
use mathlib.Core.List.{append-nil, reverse-append, reverse-reverse}
use crab_os.Prelude.{
  ℕ, ◌+◌, ◌≤◌, ◌≡◌, refl, sym, ap, ap₂, ◌∙◌, subst, Bool, true, false, some, List, [], ◌∷◌, ◌++◌,
  reverse, arith, ◌==◌, ==-eq_true, ==-eq_false, if◌then◌else◌, length, take, drop, all, any, All,
  Bool-cases, inl, inr, length-append, length-reverse, length-take,
}
use crab_os.Shell.Line.{Line, is_printable, max_input}
use crab_os.Shell.Line.Text
use crab_os.Shell.Line.Text.{Text, of_lists}
use crab_os.Shell.Line.Refine.{Shows, Runs}
use crab_os.Shell.Line.Str.{as_str-eq-to_list}
use crab_os.Shell.Output.{text}
use crab_os.Shell.Commands.{commands}
use crab_os.Shell.Session.Cursor.{to_end-Shows}
use crab_os.Net.Web.Bytes.{starts_with}
use crab_os.Shell.Session.{
  Session, with_line, line_at_end, matching, common_len, insert_all, print_names, list_matches,
  complete_with, complete_matches, complete,
}
use crab_os.Shell.Session.Ready.{
  IsReady, Prepared, Leaves, redraw-Leaves, put_out-Prints, prompt-Prompts, prompted-Prepared,
}
use crab_os.Shell.Session.Prefix.{
  shared, take-common_len_all, starts_with-shared, append-drop, all-matching, All-matching,
}
use crab_os.Shell.Session.Typing.{
  Name, commands-Name, typed, insert_one, insert_all-Runs, all-take, all-drop,
}

-- What the completion of a text with these matches leaves. One match is put in whole, with a space;
-- several give what they have in common.
abbrev pub completed : List (List ℕ) → Text → Text
completed [] t = t
completed (first ∷ []) t = typed (first ++ b' ' ∷ []) t.overflow
completed (first ∷ other ∷ others) t = typed (shared first (other ∷ others)) t.overflow

abbrev pub complete_at : List ℕ → Text → Text
complete_at [] t =
    if any (λ byte. byte == b' ') (Text.to_list t)
    then t
    else completed (matching (Text.to_list t) commands) t
complete_at (byte ∷ right) t = t

-- Only a text without a space, with the cursor at its end, is completed.
abbrev pub complete_text : Text → Text
complete_text t = complete_at t.right t

module _ (s : Session) (left : List ℕ) (o : Bool) {entries : List Line}
    (ready : IsReady s (of_lists left [] o) entries) (first : List ℕ) (others : List (List ℕ))
    (name : Name first) (starts : starts_with (reverse left) (shared first others) ≡ true) where
  -- The loop that inserts leaves what the matches have in common.
  extended :
      Runs
        (insert_all s.shell.line
          (drop s.shell.line.len (take (common_len first (length first) others) first)))
        (typed (shared first others) o)
  extended =
      let common = shared first others in
      let p = reverse left in
      let cut : take (common_len first (length first) others) first ≡ common =
        take-common_len_all first others in
      let size : s.shell.line.len ≡ length p =
        let e = ready.prepared.shows.len in omega (arith, length-reverse left) in
      let whole : p ++ drop (length p) common ≡ common = append-drop p common starts in
      let short : length common ≤ 9 =
        let e = ap length cut in
        let n = name.short in
        omega (arith, length-take (common_len first (length first) others) first) in
      let fits : length left + length (drop (length p) common) ≤ max_input =
        let e = ap length whole in
        omega (arith, length-append p (drop (length p) common), length-reverse left) in
      let printable : all is_printable common ≡ true =
        rw cut at (all-take (common_len first (length first) others) first name.printable) in
      let r =
        insert_all-Runs (drop (length p) common) s.shell.line left o ready.prepared.shows
          (all-drop (length p) common printable) fits in
      let same : drop s.shell.line.len (take (common_len first (length first) others) first)
          ≡ drop (length p) common =
        ap₂ drop size cut in
      let shown : reverse (drop (length p) common) ++ left ≡ reverse common =
        ap (reverse (drop (length p) common) ++◌) (sym (reverse-reverse left))
        ∙ (sym (reverse-append p (drop (length p) common)) ∙ ap reverse whole) in
      record {
        line = r.line;
        returns = ap (insert_all s.shell.line) same ∙ r.returns;
        shows = subst (λ (x : List ℕ). Shows r.line (of_lists x [] o)) shown r.shows;
      }

  -- The line with a text in it, before the last redraw.
  at_line : {line : Line} {t : Text} → Shows line t → Prepared (with_line s line) t entries
  at_line shown = record {
    shows = shown;
    kept = ready.prepared.kept;
    usable = ready.prepared.usable;
    anchored = ready.prepared.anchored;
  }

  len_le : s.shell.line.len ≤ max_input
  len_le = let e = ready.prepared.shows.len in let r = ready.prepared.shows.room in omega arith

-- A list of the matches, below the input, keeps the line.
list_matches-Prepared :
    (old_len : ℕ) (names : List (List ℕ)) (s : Session) (left : List ℕ) (o : Bool)
    {entries : List Line}
    → old_len ≤ max_input
    → Prepared s (of_lists left [] o) entries
    → (after : Session) × (list_matches old_len names s ≡ some after)
      × Prepared after (of_lists left [] o) entries
unfolding list_matches
list_matches-Prepared old_len names s left o old p =
    let ended = with_line s (line_at_end s.shell.line) in
    let q : Prepared ended (of_lists left [] o) _ = record {
      shows = to_end-Shows p.shows;
      kept = p.kept;
      usable = p.usable;
      anchored = p.anchored;
    } in
    let r1 = redraw-Leaves old_len ended old q in
    let r2 =
      put_out-Prints (text (10 ∷ []) ∷ print_names names) r1.after r1.ready.prepared.usable in
    let s2 = record (r1.after) { console = r2.console } in
    let r3 = prompt-Prompts s2 r2.usable in
    (
      record { shell = record (s2.shell) { anchor = r3.console.cursor }; console = r3.console },
      rw r1.returns (rw r2.returns r3.returns),
      prompted-Prepared s2 r3.console (of_lists left [] o) r1.ready.prepared.shows
          r1.ready.prepared.kept r3.usable,
    )

complete_with-Leaves :
    (s : Session) (left : List ℕ) (o : Bool) {entries : List Line} (first : List ℕ)
    (others : List (List ℕ))
    → IsReady s (of_lists left [] o) entries
    → Name first
    → starts_with (reverse left) (shared first others) ≡ true
    → Leaves
        (complete_with s.shell.line first others s)
        (completed (first ∷ others) (of_lists left [] o))
        entries
unfolding complete_with
complete_with-Leaves s left o first [] ready name starts =
    let r = extended s left o ready first [] name starts in
    let (line, inserted, shown) =
      insert_one b' ' r.line (reverse first) o r.shows refl
        (let n = name.short in omega (arith, length-reverse first)) in
    let same : b' ' ∷ reverse first ≡ reverse (first ++ b' ' ∷ []) =
      sym (reverse-append first (b' ' ∷ [])) in
    let shown' : Shows line (typed (first ++ b' ' ∷ []) o) =
      subst (λ (x : List ℕ). Shows line (of_lists x [] o)) same shown in
    let q =
      redraw-Leaves s.shell.line.len (with_line s line) (len_le s left o ready first [] name starts)
        (at_line s left o ready first [] name starts shown') in
    record { after = q.after; returns = rw r.returns (rw inserted q.returns); ready = q.ready }
complete_with-Leaves s left o first (other ∷ rest) ready name starts =
    let others = other ∷ rest in
    let common = common_len first (length first) others in
    let r = extended s left o ready first others name starts in
    let short = len_le s left o ready first others name starts in
    let p = at_line s left o ready first others name starts r.shows in
    elim (Bool-cases (common == s.shell.line.len)) [
      | inl e ↦
          let (after, listed, p') =
            list_matches-Prepared s.shell.line.len (first ∷ others) (with_line s r.line)
              (reverse (shared first others)) o short p in
          let q = redraw-Leaves s.shell.line.len after short p' in
          record {
            after = q.after;
            returns = rw r.returns (rw e (rw listed q.returns));
            ready = q.ready;
          }
      | inr e ↦
          let q = redraw-Leaves s.shell.line.len (with_line s r.line) short p in
          record { after = q.after; returns = rw r.returns (rw e q.returns); ready = q.ready }
    ]

complete_matches-Leaves :
    (s : Session) (left : List ℕ) (o : Bool) {entries : List Line} (names : List (List ℕ))
    → IsReady s (of_lists left [] o) entries
    → All Name names
    → all (starts_with (reverse left)) names ≡ true
    → Leaves (complete_matches s.shell.line names s) (completed names (of_lists left [] o)) entries
complete_matches-Leaves s left o [] ready name starts = record {
  after = s;
  returns = refl;
  ready = ready;
}
complete_matches-Leaves s left o (first ∷ others) ready name starts =
    complete_with-Leaves s left o first others ready name.0
      (starts_with-shared (reverse left) first others ∙ starts)

complete_of :
    (s : Session) (left right : List ℕ) (o : Bool) {entries : List Line}
    → IsReady s (of_lists left right o) entries
    → Leaves (complete s) (complete_text (of_lists left right o)) entries
unfolding complete
complete_of s left (byte ∷ right) o ready =
    let inside : (s.shell.line.cursor == s.shell.line.len) ≡ false =
      ==-eq_false _ _
        (let a = ready.prepared.shows.cursor in let b = ready.prepared.shows.len in omega arith) in
    record { after = s; returns = rw inside refl; ready = ready }
complete_of s left [] o ready =
    let shows = ready.prepared.shows in
    let at_end : (s.shell.line.cursor == s.shell.line.len) ≡ true =
      ==-eq_true _ _ (let a = shows.cursor in let b = shows.len in omega arith) in
    let read = as_str-eq-to_list shows in
    elim (Bool-cases (any (λ byte. byte == b' ') (reverse left ++ []))) [
      | inl e ↦
          rw e (record { after = s; returns = rw at_end (rw read (rw e refl)); ready = ready })
      | inr e ↦
          let names = matching (reverse left ++ []) commands in
          let starts : all (starts_with (reverse left)) names ≡ true =
            subst (λ (p : List ℕ). all (starts_with p) names ≡ true) (append-nil (reverse left))
              (all-matching (reverse left ++ []) commands) in
          let q =
            complete_matches-Leaves s left o names ready
              (All-matching Name (reverse left ++ []) commands commands-Name) starts in
          rw e (record {
            after = q.after;
            returns = rw at_end (rw read (rw e q.returns));
            ready = q.ready;
          })
    ]

-- Tab on a shell that is ready panics nowhere and leaves it ready. Only a text without a space, with
-- the cursor at its end, changes: where one command starts with it, it becomes the command's name and
-- a space; where several do, the longest prefix that their names share.
pub complete-Leaves :
    {s : Session} {t : Text} {entries : List Line}
    → IsReady s t entries
    → Leaves (complete s) (complete_text t) entries
complete-Leaves {s} {t} ready = complete_of s t.left t.right t.overflow ready
