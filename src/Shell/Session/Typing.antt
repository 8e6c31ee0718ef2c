-- ===== src/Shell/Session/Typing.antt =====
-- The loop of `Shell::complete` that types the rest of a command's name.
use crab_os.Prelude.{
  ℕ, zero, suc, ◌+◌, ◌≤◌, ◌<◌, leb, ◌&&◌, ◌≡◌, refl, Bool, true, false, some, List, [], ◌∷◌, ◌++◌,
  reverse, arith, ◌==◌, ==-eq_false, length, take, drop, all, All,
}
use crab_os.Shell.Line.{Line, as_str, is_printable, max_input}
use crab_os.Shell.Line
use crab_os.Shell.Line.Text
use crab_os.Shell.Line.Text.{Text, of_lists}
use crab_os.Shell.Line.Refine.{Shows, Runs, Inserts, insert_refines, reverse_cons_append}
use crab_os.Shell.Commands.{commands}
use crab_os.Shell.Session.{insert_all}

-- A name of a command: printable, and of nine bytes at most.
pub record Name (n : List ℕ) : Type 0 where
  pub printable : all is_printable n ≡ true
  pub short : length n ≤ 9

is_name : List ℕ × List ℕ → Bool
is_name c = all is_printable c.0 && leb (length c.0) 9

All-Name :
    (table : List (List ℕ × List ℕ))
    → all is_name table ≡ true
    → All (λ (c : List ℕ × List ℕ). Name c.0) table
unfolding is_name
All-Name [] h = tt
All-Name (c ∷ table) h =
    (record { printable = ground arith; short = ground arith }, All-Name table (ground arith))

pub commands-Name : All (λ (c : List ℕ × List ℕ). Name c.0) commands
unfolding is_name
commands-Name = All-Name commands refl

-- The text with bytes typed behind it.
abbrev pub typed : List ℕ → Bool → Text
typed t o = of_lists (reverse t) [] o

pub insert_one :
    (byte : ℕ) (l : Line) (left : List ℕ) (o : Bool)
    → Shows l (of_lists left [] o)
    → is_printable byte ≡ true
    → length left < max_input
    → (l' : Line) × (Line.insert l byte ≡ some (l', true)) × Shows l' (of_lists (byte ∷ left) [] o)
insert_one byte l left o s ok h =
    let r = insert_refines byte s in
    let room : (length left + 0 == max_input) ≡ false = ==-eq_false _ _ (omega arith) in
    let e : Text.insert is_printable max_input (of_lists left [] o) byte
        ≡ (of_lists (byte ∷ left) [] o, true) =
      rw ok (rw room refl) in
    let r' : Inserts l byte (of_lists (byte ∷ left) [] o, true) = rw e at r in
    (r'.line, r'.returns, r'.shows)

pub insert_all-Runs :
    (bytes : List ℕ) (l : Line) (left : List ℕ) (o : Bool)
    → Shows l (of_lists left [] o)
    → all is_printable bytes ≡ true
    → length left + length bytes ≤ max_input
    → Runs (insert_all l bytes) (of_lists (reverse bytes ++ left) [] o)
unfolding insert_all
insert_all-Runs [] l left o s ok h = record { line = l; returns = refl; shows = s }
insert_all-Runs (byte ∷ bytes) l left o s ok h =
    let (l', e, s') = insert_one byte l left o s (ground arith) (omega arith) in
    let r = insert_all-Runs bytes l' (byte ∷ left) o s' (ground arith) (omega arith) in
    record {
      line = r.line;
      returns = rw e r.returns;
      shows = rw (reverse_cons_append byte bytes left) r.shows;
    }

pub all-take :
    (n : ℕ) (xs : List ℕ) → all is_printable xs ≡ true → all is_printable (take n xs) ≡ true
all-take zero xs h = refl
all-take (suc n) [] h = refl
all-take (suc n) (x ∷ xs) h = ground (arith, all-take n xs)

pub all-drop :
    (n : ℕ) (xs : List ℕ) → all is_printable xs ≡ true → all is_printable (drop n xs) ≡ true
all-drop zero xs h = h
all-drop (suc n) [] h = refl
all-drop (suc n) (x ∷ xs) h = ground (arith, all-drop n xs)
