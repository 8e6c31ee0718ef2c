-- ===== src/Shell/Arguments/Spans.antt =====
-- The end of a word: `Arguments::push` appends its span.
use mathlib.Core.List.{append-nil, append_assoc}
use crab_os.Prelude.{
  cons_of_pos, ℕ, suc, ◌+◌, ◌<◌, ◌≡◌, refl, sym, ◌∙◌, ap, true, Option, none, some, List, [], ◌∷◌,
  ◌++◌, arith, ltb, lt→ltb, ==-eq_true, ==-eq_false, length, set, all, All, length-append,
  set-append, is_ascii,
}
use crab_os.Shell.Arguments.{Arguments, too_many, ok, err, push, max_args}
use crab_os.Shell.Arguments.Refine.{concat, spans_from, Holds}

concat-snoc : (ws : List (List ℕ)) (w : List ℕ) → concat (ws ++ w ∷ []) ≡ concat ws ++ w
concat-snoc [] w = append-nil w
concat-snoc (x ∷ ws) w = rw (concat-snoc ws w) (sym (append_assoc x (concat ws) w))

spans_from-snoc :
    (offset begin : ℕ) (ws : List (List ℕ)) (w : List ℕ)
    → begin ≡ offset + length (concat ws)
    → spans_from offset (ws ++ w ∷ []) ≡ spans_from offset ws ++ (begin, begin + length w) ∷ []
spans_from-snoc offset begin [] w e = let e' : begin ≡ offset = omega arith in rw e'
spans_from-snoc offset begin (x ∷ ws) w e =
    ap ((offset, offset + length x) ∷◌)
      (spans_from-snoc (offset + length x) begin ws w (omega (arith, length-append x (concat ws))))

length-spans_from : (offset : ℕ) (ws : List (List ℕ)) → length (spans_from offset ws) ≡ length ws
length-spans_from offset [] = refl
length-spans_from offset (w ∷ ws) = ap suc (length-spans_from (offset + length w) ws)

All-snoc :
    (ws : List (List ℕ)) (w : List ℕ)
    → All (λ v. all is_ascii v ≡ true) ws
    → all is_ascii w ≡ true
    → All (λ v. all is_ascii v ≡ true) (ws ++ w ∷ [])
All-snoc [] w h k = (k, tt)
All-snoc (x ∷ ws) w h k = (h.0, All-snoc ws w h.1 k)

length-snoc : (ws : List (List ℕ)) (w : List ℕ) → length (ws ++ w ∷ []) ≡ length ws + 1
length-snoc ws w = length-append ws (w ∷ [])

-- The arguments with one more span.
abbrev pub pushed : Arguments → ℕ → ℕ → Arguments
pushed r start end = record r { spans = set r.spans r.len (start, end); len = r.len + 1 }

module _ {r : Arguments} {u : ℕ} {from : Option ℕ} {done : List (List ℕ)} (word : List ℕ) where
  pub pushed-Holds :
      Holds r u from done (some word)
      → length done < max_args
      → Holds (pushed r (length (concat done)) u) u none (done ++ word ∷ []) none
  pushed-Holds h few =
      let begin = length (concat done) in
      let (s, spare, e) = cons_of_pos h.spare (let k = h.slots in omega arith) in
      let front = spans_from 0 done in
      let end : u ≡ begin + length word = h.used in
      let at : r.len ≡ length front = h.len ∙ sym (length-spans_from 0 done) in
      let size = ap length e in
      record {
        free = h.free;
        spare = spare;
        bytes = rw (h.bytes, concat-snoc) (sym (append_assoc (concat done) word h.free));
        spans =
            rw (h.spans, e, set-append front spare s (begin, u) r.len at)
              (rw (spans_from-snoc 0 begin done word (omega arith), ← end)
                (sym (append_assoc front ((begin, u) ∷ []) spare)));
        len = let k = h.len in omega (arith, length-snoc done word);
        used = rw concat-snoc (omega (arith, length-append (concat done) word));
        room = h.room;
        slots = let k = h.slots in omega (arith, length-snoc done word);
        begin = refl;
        ascii = All-snoc done word h.ascii h.ascii_current;
        ascii_current = refl;
      }

  pub push-eq_ok :
      Holds r u from done (some word)
      → length done < max_args
      → push r (length (concat done)) u ≡ ok (pushed r (length (concat done)) u)
  unfolding push
  push-eq_ok h few =
      let front = spans_from 0 done in
      let room : ltb r.len (length r.spans) ≡ true = rw h.spans (
        lt→ltb _ _ (
          let k = h.len in
          let k' = h.slots in
          omega (arith, length-append front h.spare, length-spans_from 0 done))) in
      rw (==-eq_false r.len max_args (let k = h.len in omega arith)) (rw room)

  pub push-eq_err :
      Holds r u from done (some word)
      → length done ≡ max_args
      → push r (length (concat done)) u ≡ err too_many
  unfolding push
  push-eq_err h full = rw (==-eq_true r.len max_args (h.len ∙ full))
