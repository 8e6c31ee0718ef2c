-- ===== src/Shell/Line/Word.antt =====
-- `Line::delete_word` erases the spaces before the cursor and then the word, and its loops end.
use crab_os.Prelude.{
  ℕ, zero, suc, ◌+◌, ◌≤◌, ◌<◌, ◌≡◌, refl, Bool, true, false, not, List, [], ◌∷◌, arith,
  ltb-eq_false, lt→ltb, ◌==◌, ==-eq_true, ==-eq_false, some, length, drop_while, Bool-cases, inl,
  inr,
}
use crab_os.Shell.Line.{Line, before_cursor, backspace_while, delete_word}
use crab_os.Shell.Line.Text
use crab_os.Shell.Line.Text.{Text}
use crab_os.Shell.Line.Refine.{Shows, Runs, backspace_refines, byte_before}

length-drop_while : (test : ℕ → Bool) (xs : List ℕ) → length (drop_while test xs) ≤ length xs
length-drop_while test [] = omega arith
length-drop_while test (x ∷ xs) = elim (Bool-cases (test x)) [
  | inl e ↦ rw e (omega (arith, length-drop_while test xs))
  | inr e ↦ rw e (omega arith)
]

-- One round of the loop: the mark is gone from then on.
erase_run-cons :
    (test : ℕ → Bool) (x : ℕ) (left right : List ℕ) (o : Bool)
    → test x ≡ true
    → Text.erase_run test (Text.of_lists (x ∷ left) right o)
      ≡ Text.erase_run test (Text.of_lists left right false)
erase_run-cons test x left right o e =
    let kept = drop_while test left in
    let shorter : (length kept == suc (length left)) ≡ false =
      ==-eq_false _ _ (let h = length-drop_while test left in omega arith) in
    rw e (
      rw shorter (elim (Bool-cases (length kept == length left)) [
        | inl same ↦ rw same
        | inr less ↦ rw less
      ]))

erase_run-keep :
    (test : ℕ → Bool) (x : ℕ) (left right : List ℕ) (o : Bool)
    → test x ≡ false
    → Text.erase_run test (Text.of_lists (x ∷ left) right o) ≡ Text.of_lists (x ∷ left) right o
erase_run-keep test x left right o e =
    rw e (rw (==-eq_true (suc (length left)) (suc (length left)) refl))

module _ (test : ℕ → Bool) where
  backspace_while_refines :
      (fuel : ℕ) (l : Line) (left right : List ℕ) (o : Bool)
      → length left < fuel
      → Shows l (Text.of_lists left right o)
      → Runs (backspace_while fuel test l) (Text.erase_run test (Text.of_lists left right o))
  unfolding backspace_while
  backspace_while_refines zero l left right o h s = elim h [ ]
  backspace_while_refines (suc fuel) l [] right o h s = record {
    line = l;
    returns = rw (ltb-eq_false 0 l.cursor (omega arith));
    shows = s;
  }
  backspace_while_refines (suc fuel) l (x ∷ left) right o h s =
      let seen : before_cursor test l ≡ some (test x) =
        rw (lt→ltb 0 l.cursor (omega arith)) (rw (byte_before s)) in
      elim (Bool-cases (test x)) [
        | inl e ↦
            let r = backspace_refines s in
            let r' = backspace_while_refines fuel r.line left right false (omega arith) r.shows in
            rw (erase_run-cons test x left right o e) (record {
              line = r'.line;
              returns = rw seen (rw e (rw r.returns r'.returns));
              shows = r'.shows;
            })
        | inr e ↦
            rw (erase_run-keep test x left right o e)
              (record { line = l; returns = rw seen (rw e); shows = s })
      ]

-- On a line that shows a text `delete_word` returns, without a panic, the line that shows the text
-- with the spaces before the cursor erased and then the bytes before them back to the next space
-- or to the start. The overflow mark goes if anything was erased.
pub delete_word_refines :
    {l : Line} {t : Text} → Shows l t → Runs (delete_word l) (Text.delete_word t)
unfolding delete_word
delete_word_refines {l} {t} s =
    let spaces = λ (byte : ℕ). byte == b' ' in
    let word = λ (byte : ℕ). not (byte == b' ') in
    let erased = Text.erase_run spaces t in
    let r =
      backspace_while_refines spaces (l.cursor + 1) l t.left t.right t.overflow (omega arith) s in
    let r' =
      backspace_while_refines word (r.line.cursor + 1) r.line erased.left erased.right
        erased.overflow (let c = r.shows.cursor in omega arith) r.shows in
    record { line = r'.line; returns = rw r.returns r'.returns; shows = r'.shows }
