-- ===== src/Shell/Line/Refine.antt =====
-- The editor's methods implement the operations on plain text: the array, the two counters and the
-- mark of a `Line` against the `Text` that it shows.
use mathlib.Core.List.{append_assoc, reverse-cons}
use crab_os.Prelude.{
  cons_of_pos, ℕ, ◌+◌, ◌-◌, ◌≡◌, refl, sym, ◌∙◌, ap, Bool, true, false, Option, some, List, [], ◌∷◌,
  ◌++◌, reverse, arith, ltb, lt→ltb, ltb-eq_false, ◌==◌, ==-eq_false, inl, inr, length, get_elem?,
  all, Bool-cases, length-reverse, get_elem?-append,
}
use crab_os.Shell.Line.{Line, new, is_printable, max_input, insert, delete, backspace}
use crab_os.Shell.Line.Text
use crab_os.Shell.Line.Text.{Text}
use crab_os.Shell.Line.Bytes.{insert_shift, delete_shift}

-- The line's array holds the text and then bytes that are not read; its counters are the cursor and
-- the length of the text, of which every byte is printable.
pub record Shows (l : Line) (t : Text) : Type 0 where
  pub rest : List ℕ
  pub bytes : l.bytes ≡ reverse t.left ++ (t.right ++ rest)
  pub cursor : l.cursor ≡ length t.left
  pub len : l.len ≡ Text.size t
  pub room : Text.size t + length rest ≡ max_input
  pub overflow : l.overflow ≡ t.overflow
  pub left : all is_printable t.left ≡ true
  pub right : all is_printable t.right ≡ true

pub new-Shows : Shows new Text.empty
new-Shows = record {
  rest = new.bytes;
  bytes = refl;
  cursor = refl;
  len = refl;
  room = refl;
  overflow = refl;
  left = refl;
  right = refl;
}

pub reverse_cons_append : (x : ℕ) (xs ys : List ℕ) → reverse (x ∷ xs) ++ ys ≡ reverse xs ++ x ∷ ys
reverse_cons_append x xs ys = simp (reverse-cons, append_assoc)

-- What an operation that returns a line does to the text that the line shows.
pub record Runs (result : Option Line) (t : Text) : Type 0 where
  pub line : Line
  pub returns : result ≡ some line
  pub shows : Shows line t

-- The same for `insert`, which also says whether the byte went in.
pub record Inserts (l : Line) (byte : ℕ) (expected : Text × Bool) : Type 0 where
  pub line : Line
  pub returns : insert l byte ≡ some (line, expected.1)
  pub shows : Shows line expected.0

insert_room :
    (l : Line) (t : Text) (byte spare : ℕ) (rest : List ℕ)
    → (s : Shows l t) → s.rest ≡ spare ∷ rest
    → is_printable byte ≡ true
    → Inserts l byte (record t { left = byte ∷ t.left }, true)
unfolding insert
insert_room l t byte spare rest s e ok =
    let before = reverse t.left in
    let at : l.cursor ≡ length before = s.cursor ∙ sym (length-reverse t.left) in
    let full : (l.len == max_input) ≡ false =
      ==-eq_false _ _ (let k = ap length e in omega arith) in
    let (shifted, move, put) =
      insert_shift before l.cursor l.len at t.right spare rest byte (rw e at s.bytes)
        (omega (arith, length-reverse t.left)) in
    record {
      line = record l {
        bytes = before ++ byte ∷ (t.right ++ rest);
        cursor = l.cursor + 1;
        len = l.len + 1;
      };
      returns = rw ok (rw full (rw move (rw put)));
      shows = record {
        rest = rest;
        bytes = sym (reverse_cons_append byte t.left (t.right ++ rest));
        cursor = omega arith;
        len = omega arith;
        room = let k = ap length e in omega arith;
        overflow = s.overflow;
        left = ground arith;
        right = s.right;
      };
    }

insert_full :
    (l : Line) (t : Text) (byte : ℕ)
    → Shows l t
    → (l.len == max_input) ≡ true
    → is_printable byte ≡ true
    → Inserts l byte (record t { overflow = true }, false)
unfolding insert
insert_full l t byte s full ok = record {
  line = record l { overflow = true };
  returns = rw ok (rw full);
  shows = record {
    rest = s.rest;
    bytes = s.bytes;
    cursor = s.cursor;
    len = s.len;
    room = s.room;
    overflow = refl;
    left = s.left;
    right = s.right;
  };
}

insert_bad :
    (l : Line) (t : Text) (byte : ℕ)
    → Shows l t
    → is_printable byte ≡ false
    → Inserts l byte (t, false)
unfolding insert
insert_bad l t byte s bad = record { line = l; returns = rw bad; shows = s }

-- Inserting a byte in a line that shows a text never panics, and the new line shows the text with
-- the byte put before the cursor if the byte is printable and the text is shorter than 256 bytes;
-- at 256 bytes only the overflow mark is set, and a byte that is not printable changes nothing. The
-- result says whether the byte went in.
pub insert_refines :
    (byte : ℕ) {l : Line} {t : Text}
    → Shows l t
    → Inserts l byte (Text.insert is_printable max_input t byte)
insert_refines byte {l} {t} s = elim (Bool-cases (is_printable byte)) [
  | inr bad ↦ rw bad (insert_bad l t byte s bad)
  | inl ok ↦ elim (Bool-cases (l.len == max_input)) [
    | inl full ↦
        let size : (Text.size t == max_input) ≡ true = rw s.len at full in
        rw ok (rw size (insert_full l t byte s full ok))
    | inr free ↦
        let size : (Text.size t == max_input) ≡ false = rw s.len at free in
        let (spare, rest, e) = cons_of_pos s.rest (ground arith) in
        rw ok (rw size (insert_room l t byte spare rest s e ok))
  ]
]

delete_inside :
    (l : Line) (left right : List ℕ) (byte : ℕ) (o : Bool)
    → Shows l (Text.of_lists left (byte ∷ right) o)
    → Runs (delete l) (Text.of_lists left right false)
unfolding delete
delete_inside l left right byte o s =
    let before = reverse left in
    let at : l.cursor ≡ length before = s.cursor ∙ sym (length-reverse left) in
    let inside : ltb l.cursor l.len ≡ true = lt→ltb _ _ (omega arith) in
    let (spare, move, size) =
      delete_shift before l.cursor l.len at byte right s.rest s.bytes
        (omega (arith, length-reverse left)) in
    record {
      line = record l { bytes = before ++ (right ++ spare); len = l.len - 1; overflow = false };
      returns = rw inside (rw move);
      shows = record {
        rest = spare;
        bytes = refl;
        cursor = s.cursor;
        len = omega arith;
        room = omega arith;
        overflow = refl;
        left = s.left;
        right = ground arith;
      };
    }

delete_refines_at :
    (l : Line) (left right : List ℕ) (o : Bool)
    → Shows l (Text.of_lists left right o)
    → Runs (delete l) (Text.delete (Text.of_lists left right o))
unfolding delete
delete_refines_at l left [] o s = record {
  line = l;
  returns = rw (ltb-eq_false l.cursor l.len (omega arith));
  shows = s;
}
delete_refines_at l left (byte ∷ right) o s = delete_inside l left right byte o s

-- `delete` never panics on a line that shows a text, and takes away the byte behind the cursor.
pub delete_refines : {l : Line} {t : Text} → Shows l t → Runs (delete l) (Text.delete t)
delete_refines {l} {t} s = delete_refines_at l t.left t.right t.overflow s

backspace_refines_at :
    (l : Line) (left right : List ℕ) (o : Bool)
    → Shows l (Text.of_lists left right o)
    → Runs (backspace l) (Text.backspace (Text.of_lists left right o))
unfolding backspace
backspace_refines_at l [] right o s = record {
  line = l;
  returns = rw (ltb-eq_false 0 l.cursor (omega arith));
  shows = s;
}
backspace_refines_at l (byte ∷ left) right o s =
    let moved : Shows (record l { cursor = l.cursor - 1 }) (Text.of_lists left (byte ∷ right) o) =
      record {
        rest = s.rest;
        bytes = s.bytes ∙ reverse_cons_append byte left (right ++ s.rest);
        cursor = omega arith;
        len = omega arith;
        room = omega arith;
        overflow = s.overflow;
        left = ground arith;
        right = ground arith;
      } in
    let r = delete_inside (record l { cursor = l.cursor - 1 }) left right byte o moved in
    record {
      line = r.line;
      returns = rw (lt→ltb 0 l.cursor (omega arith)) r.returns;
      shows = r.shows;
    }

-- `backspace` never panics on a line that shows a text, and takes away the byte before the cursor.
pub backspace_refines : {l : Line} {t : Text} → Shows l t → Runs (backspace l) (Text.backspace t)
backspace_refines {l} {t} s = backspace_refines_at l t.left t.right t.overflow s

-- The byte that the loops of `delete_word` look at.
pub byte_before :
    {l : Line} {byte : ℕ} {left right : List ℕ} {o : Bool}
    → Shows l (Text.of_lists (byte ∷ left) right o)
    → get_elem? l.bytes (l.cursor - 1) ≡ some byte
byte_before {l} {byte} {left} {right} s =
    rw (s.bytes, reverse_cons_append byte left (right ++ s.rest))
      (get_elem?-append (reverse left) (right ++ s.rest) byte (l.cursor - 1)
        (omega (arith, length-reverse left)))
