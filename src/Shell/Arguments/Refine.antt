-- ===== src/Shell/Arguments/Refine.antt =====
-- The buffer, the spans and the counters of the parser against the words that they stand for.
use mathlib.Core.List.{append_assoc}
use crab_os.Prelude.{
  cons_of_pos, ℕ, ◌+◌, ◌<◌, ◌≡◌, refl, sym, ◌∙◌, ap, true, Option, none, some, List, [], ◌∷◌, ◌++◌,
  arith, length, set, all, All, length-append, set-append, all-append, is_ascii,
}
use crab_os.Shell.Arguments.{Arguments, get_or_insert, max_input, max_args}
use crab_os.Shell.Arguments.Words.{begun}

abbrev pub concat : List (List ℕ) → List ℕ
concat [] = []
concat (w ∷ ws) = w ++ concat ws

-- The spans of words that lie one behind the other from an offset on.
abbrev pub spans_from : ℕ → List (List ℕ) → List (ℕ × ℕ)
spans_from offset [] = []
spans_from offset (w ∷ ws) = (offset, offset + length w) ∷ spans_from (offset + length w) ws

-- Where the word that is being read starts.
abbrev pub start_of : ℕ → Option (List ℕ) → Option ℕ
start_of offset none = none
start_of offset (some _) = some offset

-- The buffer holds the words and their spans, and nothing else that is read.
pub record Holds (r : Arguments) (position : ℕ) (from : Option ℕ) (done : List (List ℕ))
    (current : Option (List ℕ)) : Type 0 where
  pub free : List ℕ
  pub spare : List (ℕ × ℕ)
  pub bytes : r.bytes ≡ concat done ++ (begun current ++ free)
  pub spans : r.spans ≡ spans_from 0 done ++ spare
  pub len : r.len ≡ length done
  pub used : position ≡ length (concat done) + length (begun current)
  pub room : position + length free ≡ max_input
  pub slots : length done + length spare ≡ max_args
  pub begin : from ≡ start_of (length (concat done)) current
  pub ascii : All (λ w. all is_ascii w ≡ true) done
  pub ascii_current : all is_ascii (begun current) ≡ true

module _ {r : Arguments} {u : ℕ} {from : Option ℕ} {done : List (List ℕ)} where
  pub length-bytes :
      (current : Option (List ℕ)) → Holds r u from done current → length r.bytes ≡ max_input
  length-bytes current h = rw h.bytes (
      omega (
        arith,
        h.used,
        h.room,
        length-append (concat done) (begun current ++ h.free),
        length-append (begun current) h.free,
      ))

  -- A byte goes behind the word that is being read.
  pub store-Holds :
      (word : List ℕ) (byte : ℕ)
      → Holds r u from done (some word)
      → u < max_input
      → is_ascii byte ≡ true
      → Holds (record r { bytes = set r.bytes u byte }) (u + 1) from done (some (word ++ byte ∷ []))
  store-Holds word byte h inside ascii =
      let (f, free, e) = cons_of_pos h.free (let k = h.room in omega arith) in
      let front = concat done ++ word in
      let cut : r.bytes ≡ front ++ f ∷ free =
        h.bytes ∙ rw e (sym (append_assoc (concat done) word (f ∷ free))) in
      let at : u ≡ length front = h.used ∙ sym (length-append (concat done) word) in
      let size = ap length e in
      record {
        free = free;
        spare = h.spare;
        bytes = rw (cut, set-append front free f byte u at) (simp append_assoc);
        spans = h.spans;
        len = h.len;
        used = let k = h.used in omega (arith, length-append word (byte ∷ []));
        room = let k = h.room in omega arith;
        slots = h.slots;
        begin = h.begin;
        ascii = h.ascii;
        ascii_current = all-append is_ascii word (byte ∷ []) h.ascii_current (rw ascii);
      }

  -- A word begins, if none has.
  pub begin-Holds :
      (current : Option (List ℕ))
      → Holds r u from done current
      → Holds r u (get_or_insert from u) done (some (begun current))
  begin-Holds none h = record {
    free = h.free;
    spare = h.spare;
    bytes = h.bytes;
    spans = h.spans;
    len = h.len;
    used = h.used;
    room = h.room;
    slots = h.slots;
    begin = rw h.begin (ap some (let k = h.used in omega arith));
    ascii = h.ascii;
    ascii_current = refl;
  }
  begin-Holds (some word) h = record {
    free = h.free;
    spare = h.spare;
    bytes = h.bytes;
    spans = h.spans;
    len = h.len;
    used = h.used;
    room = h.room;
    slots = h.slots;
    begin = rw h.begin;
    ascii = h.ascii;
    ascii_current = h.ascii_current;
  }
