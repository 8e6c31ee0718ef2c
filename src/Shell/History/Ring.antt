-- ===== src/Shell/History/Ring.antt =====
-- The ring of lines holds a list of entries, oldest first.
use crab_os.Prelude.{
  ℕ, zero, suc, ◌+◌, ◌%◌, ◌≤◌, ◌<◌, ◌≡◌, ◌⊎◌, refl, ◌∙◌, ap, true, false, Option, some, List, [],
  ◌∷◌, ◌++◌, arith, ◌==◌, ==-eq_true, ==-eq_false, if◌then◌else◌, length, get_elem?, set, All,
  store-eq_some, get_elem?-set_self, get_elem?-set_ne, length-set, length-append, Bool-cases, inl,
  inr,
}
use crab_os.Shell.Line.{Line}
use crab_os.Shell.Line.Text.{Text}
use crab_os.Shell.Line.Refine.{Shows}
use crab_os.Shell.History.{History, history_size, get, push}

-- A line of the editor: one that shows some text.
pub record IsLine (l : Line) : Type 0 where
  pub text : Text
  pub shows : Shows l text

-- The lines of `h`, from the oldest, are `entries`.
pub record Holds (h : History) (entries : List Line) : Type 0 where
  pub size : length h.lines ≡ history_size
  pub start : h.start < history_size
  pub len : h.len ≡ length entries
  pub bound : length entries ≤ history_size
  pub entry : (i : ℕ) (l : Line) → get_elem? entries i ≡ some l → get h i ≡ some l
  pub lines : All IsLine entries

-- What the history promises of a new entry: it keeps the last sixteen.
abbrev pub drop_oldest : List Line → List Line
drop_oldest [] = []
drop_oldest (x ∷ xs) = if length (x ∷ xs) == history_size then xs else x ∷ xs

abbrev pub push_entry : List Line → Line → List Line
push_entry entries line = drop_oldest entries ++ line ∷ []

-- The elements of a list with one more at its end.
get_elem?-snoc :
    (xs : List Line) (y z : Line) (i : ℕ)
    → get_elem? (xs ++ y ∷ []) i ≡ some z
    → ((i < length xs) × (get_elem? xs i ≡ some z)) ⊎ ((i ≡ length xs) × (y ≡ z))
get_elem?-snoc [] y z zero h = inr (refl, cc)
get_elem?-snoc [] y z (suc i) h = cc
get_elem?-snoc (x ∷ xs) y z zero h = inl (omega arith, h)
get_elem?-snoc (x ∷ xs) y z (suc i) h = elim (get_elem?-snoc xs y z i h) [
  | inl (p, e) ↦ inl (omega arith, e)
  | inr (p, e) ↦ inr (omega arith, e)
]

All-snoc : (xs : List Line) (y : Line) → All IsLine xs → IsLine y → All IsLine (xs ++ y ∷ [])
All-snoc [] y h k = (k, tt)
All-snoc (x ∷ xs) y h k = (h.0, All-snoc xs y h.1 k)

-- What `push` does to a history and the entries that it holds.
pub record Pushes (result : Option History) (h : History) (entries : List Line) : Type 0 where
  pub history : History
  pub returns : result ≡ some history
  pub holds : Holds history entries
  pub browsing : history.browsing ≡ h.browsing
  pub draft : history.draft ≡ h.draft

module _ (h : History) (line : Line) (is_line : IsLine line) where
  push_room :
      (entries : List Line)
      → Holds h entries
      → length entries < history_size
      → Pushes (push h line) h (entries ++ line ∷ [])
  unfolding push get
  push_room entries v room =
      let at = (h.start + h.len) % history_size in
      let free : (h.len == history_size) ≡ false = ==-eq_false _ _ (let e = v.len in omega arith) in
      record {
        history = record h { lines = set h.lines at line; len = h.len + 1 };
        returns = rw free (rw (store-eq_some h.lines at line (let e = v.size in omega arith)));
        holds = record {
          size = length-set h.lines at line ∙ v.size;
          start = v.start;
          len = let e = v.len in omega (arith, length-append entries (line ∷ []));
          bound = omega (arith, length-append entries (line ∷ []));
          entry = λ i l e. elim (get_elem?-snoc entries line l i e) [
            | inl (p, e') ↦
                get_elem?-set_ne h.lines at ((h.start + i) % history_size) line
                  (let k = v.len in let k' = v.start in omega arith)
                ∙ v.entry i l e'
            | inr (p, e') ↦
                let last : (h.start + i) % history_size ≡ at = let k = v.len in omega arith in
                rw last
                  (get_elem?-set_self h.lines at line (let k = v.size in omega arith) ∙ ap some e')
          ];
          lines = All-snoc entries line v.lines is_line;
        };
        browsing = refl;
        draft = refl;
      }

  push_full :
      (oldest : Line) (entries : List Line)
      → Holds h (oldest ∷ entries)
      → length (oldest ∷ entries) ≡ history_size
      → Pushes (push h line) h (entries ++ line ∷ [])
  unfolding push get
  push_full oldest entries v full =
      let start' = (h.start + 1) % history_size in
      let at_end : (h.len == history_size) ≡ true = ==-eq_true _ _ (v.len ∙ full) in
      record {
        history = record h { lines = set h.lines h.start line; start = start' };
        returns = rw at_end (
            rw (
              store-eq_some h.lines h.start line
                (let e = v.size in let k = v.start in omega arith)));
        holds = record {
          size = length-set h.lines h.start line ∙ v.size;
          start = omega arith;
          len = let e = v.len in omega (arith, length-append entries (line ∷ []));
          bound = omega (arith, length-append entries (line ∷ []));
          entry = λ i l e. elim (get_elem?-snoc entries line l i e) [
            | inl (p, e') ↦
                let shift : (start' + i) % history_size ≡ (h.start + suc i) % history_size =
                  omega arith in
                rw shift (
                  get_elem?-set_ne h.lines h.start ((h.start + suc i) % history_size) line
                    (let k = v.start in omega arith)
                  ∙ v.entry (suc i) l e')
            | inr (p, e') ↦
                let last : (start' + i) % history_size ≡ h.start = let k = v.start in omega arith in
                rw last (
                  get_elem?-set_self h.lines h.start line
                    (let k = v.size in let k' = v.start in omega arith)
                  ∙ ap some e')
          ];
          lines = All-snoc entries line v.lines.1 is_line;
        };
        browsing = refl;
        draft = refl;
      }

  -- A pushed line becomes the newest entry, and takes the place of the oldest of sixteen.
  pub push-Pushes :
      (entries : List Line) → Holds h entries → Pushes (push h line) h (push_entry entries line)
  push-Pushes [] v = push_room [] v (omega arith)
  push-Pushes (x ∷ entries) v = elim (Bool-cases (length (x ∷ entries) == history_size)) [
    | inl full ↦ rw full (push_full x entries v (ground arith))
    | inr room ↦ rw room (push_room (x ∷ entries) v (let b = v.bound in ground arith))
  ]
