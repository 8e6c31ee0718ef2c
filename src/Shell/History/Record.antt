-- ===== src/Shell/History/Record.antt =====
-- `History::record` keeps the last sixteen lines that are not blank and do not repeat the line
-- before them.
use crab_os.Prelude.{
  ℕ, ◌-◌, ◌≡◌, ◌↔◌, refl, Bool, true, false, ◌||◌, none, some, List, [], ◌∷◌, arith, ltb, lt→ltb,
  if◌then◌else◌, length, get_elem?, All, Bool-cases, inl, inr,
}
use crab_os.Shell.Line.{Line}
use crab_os.Shell.Line.Str.{line_text, as_str-eq-line_text}
use crab_os.Shell.History.{History, get, is_blank, same_text, repeats, record_line}
use crab_os.Shell.History.Ring.{IsLine, Holds, push_entry, push-Pushes}

pub same_text_iff : (xs ys : List ℕ) → (same_text xs ys ≡ true) ↔ (xs ≡ ys)
same_text_iff [] [] = (λ h. refl, λ h. refl)
same_text_iff [] (y ∷ ys) = (λ h. cc, λ h. cc)
same_text_iff (x ∷ xs) [] = (λ h. cc, λ h. cc)
same_text_iff (x ∷ xs) (y ∷ ys) = ground (arith, same_text_iff xs ys)

abbrev newest : Line → List Line → Line
newest x [] = x
newest x (y ∷ ys) = newest y ys

-- The newest entry has this text.
abbrev pub ends_with : List Line → List ℕ → Bool
ends_with [] text = false
ends_with (x ∷ xs) text = same_text (line_text (newest x xs)) text

abbrev pub record_entry : List Line → Line → List Line
record_entry entries line =
    if is_blank (line_text line) || ends_with entries (line_text line)
    then entries
    else push_entry entries line

newest-get : (x : Line) (xs : List Line) → get_elem? (x ∷ xs) (length xs) ≡ some (newest x xs)
newest-get x [] = refl
newest-get x (y ∷ ys) = newest-get y ys

newest-IsLine : (x : Line) (xs : List Line) → All IsLine (x ∷ xs) → IsLine (newest x xs)
newest-IsLine x [] h = h.0
newest-IsLine x (y ∷ ys) h = newest-IsLine y ys h.1

repeats-eq-ends_with :
    (h : History) (entries : List Line) (text : List ℕ)
    → Holds h entries
    → repeats h text ≡ some (ends_with entries text)
unfolding repeats
repeats-eq-ends_with h [] text v = let e = v.len in rw e
repeats-eq-ends_with h (x ∷ xs) text v =
    let some_entry : ltb 0 h.len ≡ true = lt→ltb 0 h.len (let e = v.len in omega arith) in
    let last : h.len - 1 ≡ length xs = let e = v.len in omega arith in
    let found : get h (h.len - 1) ≡ some (newest x xs) =
      rw last (v.entry (length xs) (newest x xs) (newest-get x xs)) in
    let line = newest-IsLine x xs v.lines in
    rw some_entry (rw found (rw (as_str-eq-line_text line.shows)))

-- What `record` does to a history that holds some entries.
pub record Records (h : History) (line : Line) (entries : List Line) : Type 0 where
  pub history : History
  pub returns : record_line h line ≡ some history
  pub holds : Holds history entries
  pub browsing : history.browsing ≡ none
  pub draft : history.draft ≡ h.draft

reset-Holds :
    (h : History) (entries : List Line)
    → Holds h entries
    → Holds (record h { browsing = none }) entries
unfolding get
reset-Holds h entries v = record {
  size = v.size;
  start = v.start;
  len = v.len;
  bound = v.bound;
  entry = v.entry;
  lines = v.lines;
}

-- Recording a line never panics, ends the browsing and leaves the draft. The entries stay as they
-- are if the line is blank or repeats the newest one; otherwise the line becomes the newest, and
-- the oldest of sixteen goes.
pub record_line_refines :
    (h : History) (line : Line) {entries : List Line}
    → IsLine line
    → Holds h entries
    → Records h line (record_entry entries line)
unfolding record_line
record_line_refines h line {entries} ok v =
    let h' = record h { browsing = none } in
    let v' = reset-Holds h entries v in
    let text = line_text line in
    let read = as_str-eq-line_text ok.shows in
    let again = repeats-eq-ends_with h' entries text v' in
    elim (Bool-cases (is_blank text)) [
      | inl blank ↦ rw blank (record {
        history = h';
        returns = rw read (rw blank);
        holds = v';
        browsing = refl;
        draft = refl;
      })
      | inr full ↦ rw full (elim (Bool-cases (ends_with entries text)) [
        | inl e ↦ rw e (record {
          history = h';
          returns = rw read (rw full (rw again (rw e)));
          holds = v';
          browsing = refl;
          draft = refl;
        })
        | inr e ↦
            let p = push-Pushes h' line ok entries v' in
            rw e (record {
              history = p.history;
              returns = rw read (rw full (rw again (rw e p.returns)));
              holds = p.holds;
              browsing = p.browsing;
              draft = p.draft;
            })
      ])
    ]
