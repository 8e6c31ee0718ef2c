-- ===== src/Shell/Loop/Recall.antt =====
-- Up and Down in a shell that is ready: the line comes from the history, and the entries stay.
use crab_os.Prelude.{
  ℕ, ◌+◌, ◌-◌, ◌<◌, ◌≡◌, refl, Option, some, none, List, arith, ◌==◌, length, Bool-cases, inl, inr,
  get_elem?_of_lt, All-get_elem?, ltb, ◌>>=◌,
}
use crab_os.Shell.Line.{Line}
use crab_os.Shell.History.{History, get, step_back, recall, previous, next_at, next}
use crab_os.Shell.History.Ring.{IsLine}
use crab_os.Shell.Session.{line_at_end}
use crab_os.Shell.Session.Cursor.{end_of, to_end-Shows}
use crab_os.Shell.Session.Ready.{Within, Kept}

-- A step through the history returns a line that shows a text, and keeps the entries.
pub record Browses (result : Option (History × Line)) (entries : List Line) : Type 0 where
  pub history : History
  pub line : Line
  pub returns : result ≡ some (history, line)
  pub kept : Kept history entries
  pub is_line : IsLine line

module _ {h : History} {entries : List Line} (k : Kept h entries) where
  -- An entry, with the cursor at its end, and the draft that is kept with it.
  recalled :
      (index : ℕ) (draft : Line)
      → index < length entries
      → IsLine draft
      → (l : Line) × (get h index ≡ some l)
        × IsLine (line_at_end l)
        × Kept (record h { draft = draft; browsing = some index }) entries
  unfolding get
  recalled index draft inside ok =
      let (l, at) = get_elem?_of_lt entries index inside in
      let line = All-get_elem? IsLine entries index l k.holds.lines at in
      (
        l,
        k.holds.entry index l at,
        record { text = end_of line.text; shows = to_end-Shows line.shows },
        record {
          holds = record {
            size = k.holds.size;
            start = k.holds.start;
            len = k.holds.len;
            bound = k.holds.bound;
            entry = k.holds.entry;
            lines = k.holds.lines;
          };
          draft = ok;
          browsing = inside;
        },
      )

  abbrev back : Line → Option ℕ → Option (History × Line)
  back current b = recall (step_back h current b).1 (step_back h current b).0 >>= λ line.
      some (record ((step_back h current b).1) { browsing = some (step_back h current b).0 }, line)

  back-Browses :
      (current : Line) (b : Option ℕ)
      → IsLine current
      → 0 < length entries
      → Within b (length entries)
      → Browses (back current b) entries
  unfolding recall get
  back-Browses current none ok some_entries inside =
      let (l, at, line, kept) =
        recalled (h.len - 1) current (let e = k.holds.len in omega arith) ok in
      record {
        history = record h { draft = current; browsing = some (h.len - 1) };
        line = line_at_end l;
        returns = rw at refl;
        kept = kept;
        is_line = line;
      }
  back-Browses current (some i) ok some_entries inside =
      let (l, at, line, kept) = recalled (i - 1) h.draft (omega arith) k.draft in
      record {
        history = record h { browsing = some (i - 1) };
        line = line_at_end l;
        returns = rw at refl;
        kept = kept;
        is_line = line;
      }

  pub previous-Browses : (current : Line) → IsLine current → Browses (previous h current) entries
  unfolding previous
  previous-Browses current ok = elim (Bool-cases (h.len == 0)) [
    | inl e ↦ record { history = h; line = current; returns = rw e refl; kept = k; is_line = ok }
    | inr e ↦
        let r =
          back-Browses current h.browsing ok (let n = k.holds.len in ground arith) k.browsing in
        record {
          history = r.history;
          line = r.line;
          returns = rw e r.returns;
          kept = r.kept;
          is_line = r.is_line;
        }
  ]

  forward-Browses :
      (current : Line) (b : Option ℕ) → IsLine current → Browses (next_at h current b) entries
  unfolding next_at recall get
  forward-Browses current none ok = record {
    history = h;
    line = current;
    returns = refl;
    kept = k;
    is_line = ok;
  }
  forward-Browses current (some i) ok = elim (Bool-cases (ltb (i + 1) h.len)) [
    | inl e ↦
        let (l, at, line, kept) =
          recalled (i + 1) h.draft (let n = k.holds.len in ground arith) k.draft in
        record {
          history = record h { browsing = some (i + 1) };
          line = line_at_end l;
          returns = rw e (rw at refl);
          kept = kept;
          is_line = line;
        }
    | inr e ↦ record {
      history = record h { browsing = none };
      line = h.draft;
      returns = rw e refl;
      kept = record {
        holds = record {
          size = k.holds.size;
          start = k.holds.start;
          len = k.holds.len;
          bound = k.holds.bound;
          entry = k.holds.entry;
          lines = k.holds.lines;
        };
        draft = k.draft;
        browsing = tt;
      };
      is_line = k.draft;
    }
  ]

  pub next-Browses : (current : Line) → IsLine current → Browses (next h current) entries
  unfolding next
  next-Browses current ok = forward-Browses current h.browsing ok
