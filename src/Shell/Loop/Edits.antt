-- ===== src/Shell/Loop/Edits.antt =====
-- The keys that move the cursor or erase to an end of the line, against the text that the line shows.
use mathlib.Core.List.{append-nil, append_assoc}
use crab_os.Prelude.{
  ℕ, ◌+◌, ◌-◌, ◌≡◌, refl, sym, ap, ap₂, ◌∙◌, Bool, false, some, List, [], ◌∷◌, ◌++◌, reverse, arith,
  ltb, lt→ltb, ltb-eq_false, length, take, drop, take-append, drop-append, copy_within-eq_some,
  length-append, length-reverse, Bool-cases, inl, inr, copy_within, length-drop,
}
use crab_os.Shell.Line.{Line, max_input}
use crab_os.Shell.Line.Text
use crab_os.Shell.Line.Text.{Text, of_lists}
use crab_os.Shell.Line.Refine.{Shows, Runs, reverse_cons_append}
use crab_os.Shell.Line.Str.{to_list-printable}
use crab_os.Shell.Loop.{to_start, to_left, to_right, if_shorter, erase_to_start, erase_to_end}

-- The cursor at the start of the text.
abbrev pub start_of : Text → Text
start_of t = of_lists [] (Text.to_list t) t.overflow

abbrev pub left_at : List ℕ → Text → Text
left_at [] t = t
left_at (byte ∷ left) t = of_lists left (byte ∷ t.right) t.overflow

-- The cursor one byte to the left, and to the right, if there is one.
abbrev pub left_of : Text → Text
left_of t = left_at t.left t

abbrev pub right_at : List ℕ → Text → Text
right_at [] t = t
right_at (byte ∷ right) t = of_lists (byte ∷ t.left) right t.overflow

abbrev pub right_of : Text → Text
right_of t = right_at t.right t

-- The mark of an overflow goes when something is erased.
abbrev pub mark_after : List ℕ → Bool → Bool
mark_after [] overflow = overflow
mark_after (byte ∷ erased) overflow = false

abbrev pub without_left : Text → Text
without_left t = of_lists [] t.right (mark_after t.left t.overflow)

abbrev pub without_right : Text → Text
without_right t = of_lists t.left [] (mark_after t.right t.overflow)

module _ {l : Line} {t : Text} (s : Shows l t) where
  pub to_start-Shows : Shows (to_start l) (start_of t)
  to_start-Shows = record {
    rest = s.rest;
    bytes = s.bytes ∙ sym (append_assoc (reverse t.left) t.right s.rest);
    cursor = refl;
    len =
        let e = s.len in
        omega (arith, length-append (reverse t.left) t.right, length-reverse t.left);
    room =
        let e = s.room in
        omega (arith, length-append (reverse t.left) t.right, length-reverse t.left);
    overflow = s.overflow;
    left = refl;
    right = to_list-printable s;
  }

to_left_at :
    (l : Line) (left right : List ℕ) (o : Bool)
    → Shows l (of_lists left right o)
    → Shows (to_left l) (left_of (of_lists left right o))
to_left_at l [] right o s = record {
  rest = s.rest;
  bytes = s.bytes;
  cursor = let e = s.cursor in omega arith;
  len = s.len;
  room = s.room;
  overflow = s.overflow;
  left = s.left;
  right = s.right;
}
to_left_at l (byte ∷ left) right o s = record {
  rest = s.rest;
  bytes = s.bytes ∙ reverse_cons_append byte left (right ++ s.rest);
  cursor = let e = s.cursor in omega arith;
  len = let e = s.len in omega arith;
  room = let e = s.room in omega arith;
  overflow = s.overflow;
  left = let k = s.left in ground arith;
  right = let k = s.left in let k' = s.right in ground arith;
}

to_right_at :
    (l : Line) (left right : List ℕ) (o : Bool)
    → Shows l (of_lists left right o)
    → Shows (to_right l) (right_of (of_lists left right o))
to_right_at l left [] o s = record {
  rest = s.rest;
  bytes = s.bytes;
  cursor = let e = s.cursor in let k = s.len in omega arith;
  len = s.len;
  room = s.room;
  overflow = s.overflow;
  left = s.left;
  right = s.right;
}
to_right_at l left (byte ∷ right) o s = record {
  rest = s.rest;
  bytes = s.bytes ∙ sym (reverse_cons_append byte left (right ++ s.rest));
  cursor = let e = s.cursor in let k = s.len in omega arith;
  len = let e = s.len in omega arith;
  room = let e = s.room in omega arith;
  overflow = s.overflow;
  left = let k = s.left in let k' = s.right in ground arith;
  right = let k' = s.right in ground arith;
}

-- The mark after the code's test of the length is the mark that the text has.
overflow-if_shorter :
    (l : Line) (n : ℕ) (erased : List ℕ) (o : Bool)
    → l.overflow ≡ o
    → l.len + length erased ≡ n
    → (if_shorter n l).overflow ≡ mark_after erased o
overflow-if_shorter l n [] o e h = rw (ltb-eq_false l.len n (omega arith)) e
overflow-if_shorter l n (byte ∷ erased) o e h = rw (lt→ltb l.len n (omega arith)) refl

-- Only the mark changes.
if_shorter-Shows :
    (l : Line) (n : ℕ) (t : Text) (o : Bool)
    → Shows l t
    → (if_shorter n l).overflow ≡ o
    → Shows (if_shorter n l) (record t { overflow = o })
if_shorter-Shows l n t o s h = elim (Bool-cases (ltb l.len n)) [
  | inl e ↦ rw e (record {
    rest = s.rest;
    bytes = s.bytes;
    cursor = s.cursor;
    len = s.len;
    room = s.room;
    overflow = rw e at h;
    left = s.left;
    right = s.right;
  })
  | inr e ↦ rw e (record {
    rest = s.rest;
    bytes = s.bytes;
    cursor = s.cursor;
    len = s.len;
    room = s.room;
    overflow = rw e at h;
    left = s.left;
    right = s.right;
  })
]

module _ {l : Line} {t : Text} (s : Shows l t) where
  pub to_left-Shows : Shows (to_left l) (left_of t)
  to_left-Shows = to_left_at l t.left t.right t.overflow s

  pub to_right-Shows : Shows (to_right l) (right_of t)
  to_right-Shows = to_right_at l t.left t.right t.overflow s

  pub erase_to_end-Shows : Shows (erase_to_end l) (without_right t)
  unfolding erase_to_end
  erase_to_end-Shows =
      let cut = record l { len = l.cursor } in
      let shown : Shows cut (of_lists t.left [] t.overflow) = record {
        rest = t.right ++ s.rest;
        bytes = s.bytes;
        cursor = s.cursor;
        len = let e = s.cursor in omega arith;
        room = let e = s.room in omega (arith, length-append t.right s.rest);
        overflow = s.overflow;
        left = s.left;
        right = refl;
      } in
      if_shorter-Shows cut l.len (of_lists t.left [] t.overflow) (mark_after t.right t.overflow)
        shown
        (overflow-if_shorter cut l.len t.right t.overflow s.overflow
          (let e = s.cursor in let k = s.len in omega arith))

  pub erase_to_start-Runs : Runs (erase_to_start l) (without_left t)
  unfolding erase_to_start
  erase_to_start-Runs =
      let n = length t.left in
      let front = reverse t.left in
      let spare = drop (l.len - l.cursor) l.bytes in
      let size : length l.bytes ≡ max_input =
        ap length s.bytes
        ∙ (let e = s.room in
            omega (
              arith,
              length-append front (t.right ++ s.rest),
              length-append t.right s.rest,
              length-reverse t.left,
            )) in
      let kept : take (l.len - l.cursor) (drop l.cursor l.bytes) ≡ t.right = rw s.bytes (
        rw
          (drop-append front (t.right ++ s.rest) l.cursor 0
            (let e = s.cursor in omega (arith, length-reverse t.left)))
          (take-append t.right s.rest (l.len - l.cursor) 0
              (let e = s.cursor in let k = s.len in omega arith)
            ∙ append-nil t.right)) in
      let bytes = t.right ++ spare in
      let move : copy_within l.bytes l.cursor l.len 0 ≡ some bytes =
        copy_within-eq_some l.bytes l.cursor l.len 0
          (let e = s.cursor in let k = s.len in omega arith)
          (let e = s.room in let k = s.len in omega arith)
          (let e = s.room in let k = s.len in omega arith)
        ∙ ap₂ (λ (a b : List ℕ). some (a ++ b)) kept
            (ap (λ (k : ℕ). drop k l.bytes)
              (let e : 0 + (l.len - l.cursor) ≡ l.len - l.cursor = omega arith in e)) in
      let cut = record l { bytes = bytes; len = l.len - l.cursor; cursor = 0 } in
      let shown : Shows cut (of_lists [] t.right t.overflow) = record {
        rest = spare;
        bytes = refl;
        cursor = refl;
        len = let e = s.cursor in let k = s.len in omega arith;
        room =
            let e = s.cursor in
            let k = s.len in
            let r = s.room in omega (arith, length-drop (l.len - l.cursor) l.bytes);
        overflow = s.overflow;
        left = refl;
        right = s.right;
      } in
      record {
        line = if_shorter l.len cut;
        returns = rw move refl;
        shows =
            if_shorter-Shows cut l.len (of_lists [] t.right t.overflow)
              (mark_after t.left t.overflow) shown
              (overflow-if_shorter cut l.len t.left t.overflow s.overflow
                (let e = s.cursor in let k = s.len in omega arith));
      }
