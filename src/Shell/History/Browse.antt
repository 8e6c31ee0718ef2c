-- ===== src/Shell/History/Browse.antt =====
-- Browsing: `History::previous` walks from the newest entry to the oldest, and `History::next` back
-- to the line that was being typed.
use crab_os.Prelude.{
  ℕ, zero, suc, ◌+◌, ◌-◌, ◌≤◌, ◌<◌, ◌≡◌, sym, ap, subst, ◌∙◌, Option, none, some, List, arith,
  lt→ltb, ltb-eq_false, ==-eq_false, length, get_elem?, get_elem?_of_lt, lt-length_of_get_elem?,
  ◌>>=◌,
}
use crab_os.Shell.Line.{Line}
use crab_os.Shell.History.{History, get, previous, next}
use crab_os.Shell.History.Ring.{Holds}

-- The Up and the Down key on the history and the line that is shown.
abbrev pub up : History × Line → Option (History × Line)
up s = previous s.0 s.1

abbrev pub down : History × Line → Option (History × Line)
down s = next s.0 s.1

-- A key pressed a number of times.
abbrev pub times :
    ℕ → (History × Line → Option (History × Line)) → History × Line → Option (History × Line)
times zero key s = some s
times (suc n) key s = key s >>= times n key

abbrev pub cursor_at_end : Line → Line
cursor_at_end l = record l { cursor = l.len }

abbrev pub browsing_at : History → ℕ → History
browsing_at h i = record h { browsing = some i }

-- Not browsing.
abbrev pub idle : History → History
idle h = record h { browsing = none }

-- A history that is not browsing is its own idle history.
eq-idle : (h : History) → h.browsing ≡ none → idle h ≡ h
eq-idle h e = λ i. record h { browsing = sym e i }

module _ {entries : List Line} where
  up-browsing :
      (h : History) (i : ℕ) (current l : Line)
      → Holds h entries
      → i < length entries
      → get_elem? entries (i - 1) ≡ some l
      → up (browsing_at h i, current) ≡ some (browsing_at h (i - 1), cursor_at_end l)
  unfolding previous
  up-browsing h i current l v b e =
      rw (==-eq_false h.len 0 (let k = v.len in omega arith)) (rw (v.entry (i - 1) l e))

  -- The first key saves the line that is typed.
  up-idle :
      (h : History) (current l : Line)
      → Holds h entries
      → get_elem? entries (h.len - 1) ≡ some l
      → up (idle h, current)
        ≡ some (browsing_at (record h { draft = current }) (h.len - 1), cursor_at_end l)
  unfolding previous
  up-idle h current l v e =
      let inside = lt-length_of_get_elem? entries (h.len - 1) e in
      rw (==-eq_false h.len 0 (let k = v.len in omega arith)) (rw (v.entry (h.len - 1) l e))

  down-inside :
      (h : History) (i : ℕ) (current l : Line)
      → Holds h entries
      → get_elem? entries (i + 1) ≡ some l
      → down (browsing_at h i, current) ≡ some (browsing_at h (i + 1), cursor_at_end l)
  unfolding next
  down-inside h i current l v e =
      let inside = lt-length_of_get_elem? entries (i + 1) e in
      rw (lt→ltb (i + 1) h.len (let k = v.len in omega arith)) (rw (v.entry (i + 1) l e))

  down-last :
      (h : History) (i : ℕ) (current : Line)
      → Holds h entries
      → i + 1 ≡ length entries
      → down (browsing_at h i, current) ≡ some (idle h, h.draft)
  unfolding next
  down-last h i current v e = rw (ltb-eq_false (i + 1) h.len (let k = v.len in omega arith))

  -- From entry `i`, one press more than `n` shows entry `j`.
  up-times :
      (n : ℕ) (h : History) (i j : ℕ) (current l : Line)
      → Holds h entries
      → i < length entries
      → j + suc n ≡ i
      → get_elem? entries j ≡ some l
      → times (suc n) up (browsing_at h i, current) ≡ some (browsing_at h j, cursor_at_end l)
  up-times zero h i j current l v b e at =
      let e' : j ≡ i - 1 = omega arith in rw (e', up-browsing h i current l v b (rw e' at at))
  up-times (suc n) h i j current l v b e at =
      let (l', at') = get_elem?_of_lt entries (i - 1) (omega arith) in
      rw (up-browsing h i current l' v b at')
        (up-times n h (i - 1) j (cursor_at_end l') l v (omega arith) (omega arith) at)

  down-times :
      (n : ℕ) (h : History) (i : ℕ) (current : Line)
      → Holds h entries
      → i + suc n ≡ length entries
      → times (suc n) down (browsing_at h i, current) ≡ some (idle h, h.draft)
  down-times zero h i current v e = rw (down-last h i current v (omega arith))
  down-times (suc n) h i current v e =
      let (l, at) = get_elem?_of_lt entries (i + 1) (omega arith) in
      rw (down-inside h i current l v at) (down-times n h (i + 1) (cursor_at_end l) v (omega arith))

  draft-Holds :
      (h : History) (line : Line) → Holds h entries → Holds (record h { draft = line }) entries
  unfolding get
  draft-Holds h line v = record {
    size = v.size;
    start = v.start;
    len = v.len;
    bound = v.bound;
    entry = v.entry;
    lines = v.lines;
  }

  idle-up-times :
      (n : ℕ) (h : History) (j : ℕ) (current l : Line)
      → Holds h entries
      → j + suc n ≡ length entries
      → get_elem? entries j ≡ some l
      → times (suc n) up (idle h, current)
        ≡ some (browsing_at (record h { draft = current }) j, cursor_at_end l)
  idle-up-times zero h j current l v e at =
      let last : j ≡ h.len - 1 = let k = v.len in omega arith in
      rw last (rw (up-idle h current l v (rw last at at)))
  idle-up-times (suc n) h j current l v e at =
      let (l', at') = get_elem?_of_lt entries (h.len - 1) (let k = v.len in omega arith) in
      rw (up-idle h current l' v at') (
        up-times n (record h { draft = current }) (h.len - 1) j (cursor_at_end l') l
          (draft-Holds h current v) (let k = v.len in omega arith) (let k = v.len in omega arith)
          at)

  -- Up pressed once or more, but not more often than there are entries, shows the entry that many
  -- places before the end, with the cursor at its end, and saves the line that was being typed.
  pub times-up :
      (n : ℕ) (h : History) (j : ℕ) (current l : Line)
      → Holds h entries
      → h.browsing ≡ none
      → j + suc n ≡ length entries
      → get_elem? entries j ≡ some l
      → times (suc n) up (h, current)
        ≡ some (browsing_at (record h { draft = current }) j, cursor_at_end l)
  times-up n h j current l v b e at =
      subst
        (λ (g : History).
          times (suc n) up (g, current)
          ≡ some (browsing_at (record h { draft = current }) j, cursor_at_end l))
        (eq-idle h b) (idle-up-times n h j current l v e at)

  -- As many presses of Down as there were of Up, at most one for each entry, bring back the line
  -- that was being typed and end the browsing; the entries are unchanged.
  pub times-down-up :
      (n : ℕ) (h : History) (current : Line)
      → Holds h entries
      → h.browsing ≡ none
      → suc n ≤ length entries
      → (times (suc n) up (h, current) >>= times (suc n) down)
        ≡ some (record h { draft = current }, current)
  times-down-up n h current v b fits =
      let j = length entries - suc n in
      let (l, at) = get_elem?_of_lt entries j (omega arith) in
      rw (times-up n h j current l v b (omega arith) at) (
        down-times n (record h { draft = current }) j (cursor_at_end l) (draft-Holds h current v)
          (omega arith)
        ∙ ap (λ (g : History). some (record g { draft = current }, current)) (eq-idle h b))
