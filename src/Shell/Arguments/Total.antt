-- ===== src/Shell/Arguments/Total.antt =====
-- `parse` and `get` together: the arguments are the words of the line.
use mathlib.Core.List.{append-nil, append_assoc}
use crab_os.Prelude.{
  ℕ, zero, suc, ◌+◌, ◌-◌, ◌≤◌, ◌≡◌, refl, subst, ◌∙◌, ap, Bool, true, false, not, ◌||◌, Option,
  none, some, List, [], ◌∷◌, ◌++◌, arith, ltb, lt→ltb, length, get_elem?, all, All,
  lt-length_of_get_elem?, Bool-cases, inl, inr, is_ascii, replicate, take, drop, slice,
  slice-eq_some, length-append, take-append, drop-append, from_utf8-ascii,
}
use crab_os.Shell.Arguments.{
  Arguments, ok, State, max_input, max_args, initial, scan, finish, parse, end_word, get,
}
use crab_os.Shell.Arguments.Words
use crab_os.Shell.Arguments.Words.{Words, words, begun}
use crab_os.Shell.Arguments.Refine.{concat, spans_from, Holds}
use crab_os.Shell.Arguments.Parse.{
  Agree, Agree-bind, Shows, StepTo, state, eq-state, end_word-Agree, scan-Agree,
}

-- The arguments are these words: that many, at most 32, and `get` returns each.
pub record Gives (r : Arguments) (ws : List (List ℕ)) : Type 0 where
  pub len : r.len ≡ length ws
  pub few : length ws ≤ max_args
  pub word : (i : ℕ) (w : List ℕ) → get_elem? ws i ≡ some w → get r i ≡ some w

-- The span of a word, and the word at it in the buffer.
record Found (bytes : List ℕ) (spans : List (ℕ × ℕ)) (i : ℕ) (w : List ℕ) : Type 0 where
  span : ℕ × ℕ
  at : get_elem? spans i ≡ some span
  word : slice bytes span.0 span.1 ≡ some w

find_word :
    (ws : List (List ℕ)) (front free : List ℕ) (offset : ℕ) (spare : List (ℕ × ℕ)) (i : ℕ)
    (w : List ℕ)
    → offset ≡ length front
    → get_elem? ws i ≡ some w
    → Found (front ++ (concat ws ++ free)) (spans_from offset ws ++ spare) i w
find_word [] front free offset spare i w e h = cc
find_word (v ∷ ws) front free offset spare zero w e h =
    let rest = concat ws ++ free in
    let back = w ++ rest in
    let size : length (front ++ back) ≡ offset + length w + length rest =
      omega (arith, length-append front back, length-append w rest) in
    let same : v ≡ w = cc in
    let cut : take (offset + length w - offset) (drop offset (front ++ back)) ≡ w =
      rw (drop-append front back offset 0 (omega arith))
        (take-append w rest (offset + length w - offset) 0 (omega arith) ∙ append-nil w) in
    rw (same, append_assoc w (concat ws) free)
      (record {
        span = (offset, offset + length w);
        at = refl;
        word =
            rw
              (slice-eq_some (front ++ back) offset (offset + length w) (omega arith) (omega arith))
              (ap some cut);
      })
find_word (v ∷ ws) front free offset spare (suc i) w e h =
    let found =
      find_word ws (front ++ v) free (offset + length v) spare i w
        (omega (arith, length-append front v)) h in
    record {
      span = found.span;
      at = found.at;
      word =
          rw (append_assoc v (concat ws) free, ← append_assoc front v (concat ws ++ free))
            found.word;
    }

ascii_word :
    (ws : List (List ℕ)) (i : ℕ) (w : List ℕ)
    → All (λ v. all is_ascii v ≡ true) ws
    → get_elem? ws i ≡ some w
    → all is_ascii w ≡ true
ascii_word [] i w h e = cc
ascii_word (v ∷ ws) zero w h e = let same : v ≡ w = cc in rw (← same) h.0
ascii_word (v ∷ ws) (suc i) w h e = ascii_word ws i w h.1 e

Holds-Gives :
    (r : Arguments) (u : ℕ) (from : Option ℕ) (ws : List (List ℕ)) (current : Option (List ℕ))
    → Holds r u from ws current
    → Gives r ws
unfolding get
Holds-Gives r u from ws current h = record {
  len = h.len;
  few = let k = h.slots in omega arith;
  word = λ i w e.
      let found = find_word ws [] (begun current ++ h.free) 0 h.spare i w refl e in
      let inside = lt-length_of_get_elem? ws i e in
      rw (lt→ltb i r.len (let k = h.len in omega arith), h.spans, found.at)
        (rw (h.bytes, found.word) (from_utf8-ascii w (ascii_word ws i w h.ascii e)));
}

finish-Agree_at :
    (r : Arguments) (u : ℕ) (from quote : Option ℕ) (done : List (List ℕ)) (escaped : Bool)
    (current : Option (List ℕ))
    → Holds r u from done current
    → Agree Gives
        (finish (state r u from quote escaped))
        (Words.finish (words done current quote escaped))
unfolding finish
finish-Agree_at r u from quote done true current h = refl
finish-Agree_at r u from (some q) done false current h = refl
finish-Agree_at r u from none done false current h =
    Agree-bind (StepTo u) Gives (end_word (state r u from none false) from)
      (Words.end_word (words done current none false) current) (λ s. ok s.result) (λ w. ok w.done)
      (end_word-Agree r u from none done current h)
      (λ s w k. let v = k.shows.holds in Holds-Gives s.result s.used s.start w.done w.current v)

finish-Agree : (s : State) (w : Words) → Shows s w → Agree Gives (finish s) (Words.finish w)
finish-Agree s w h =
    subst (λ (t : State). Agree Gives (finish t) (Words.finish w)) (eq-state h)
      (finish-Agree_at s.result s.used s.start w.quote w.done w.escaped w.current h.holds)

initial-Shows : Shows initial Words.start
initial-Shows = record {
  holds = record {
    free = replicate max_input 0;
    spare = replicate max_args (0, 0);
    bytes = refl;
    spans = refl;
    len = refl;
    used = refl;
    room = refl;
    slots = refl;
    begin = refl;
    ascii = tt;
    ascii_current = refl;
  };
  quote = refl;
  escaped = refl;
  started = λ e. cc;
}

-- For every input: `parse` and the splitting of the line on plain lists give the same words, which
-- `get` then returns in order, or the same error. `parse` never panics.
pub parse_refines : (input : List ℕ) → Agree Gives (parse input) (Words.split input)
unfolding parse Words.split
parse_refines input = elim (Bool-cases (ltb max_input (length input) || not (all is_ascii input))) [
  | inl bad ↦ rw bad refl
  | inr fine ↦ rw fine (
      Agree-bind Shows Gives (scan initial input) (Words.scan Words.start input) finish Words.finish
        (scan-Agree input initial Words.start initial-Shows (ground arith) (ground arith))
        finish-Agree)
]
