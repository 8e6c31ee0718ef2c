-- ===== src/Shell/Arguments/Quoted.antt =====
-- Words in single quotes come back as they were.
use mathlib.Core.List.{append-nil, append_assoc}
use crab_os.Prelude.{
  ℕ, ◌+◌, ◌≤◌, ◌≡◌, refl, ◌∙◌, ap, Bool, true, false, not, ◌&&◌, none, some, List, [], ◌∷◌, ◌++◌,
  arith, ltb-eq_false, ◌==◌, ==-eq_false, length, All, all, length-append, all-append, is_ascii,
}
use crab_os.Shell.Arguments.{Arguments, Outcome, ok, err, panic, max_input, max_args, parse}
use crab_os.Shell.Arguments.Words
use crab_os.Shell.Arguments.Words.{Words, words}
use crab_os.Shell.Arguments.Parse.{Agree}
use crab_os.Shell.Arguments.Total.{Gives, parse_refines}

-- A byte that can stand between single quotes.
abbrev pub is_plain : ℕ → Bool
is_plain byte = is_ascii byte && not (byte == b'\'')

-- The words in single quotes, with a space behind each.
abbrev pub quoted : List (List ℕ) → List ℕ
quoted [] = []
quoted (w ∷ ws) = b'\'' ∷ (w ++ b'\'' ∷ b' ' ∷ quoted ws)

scan-quoted_word :
    (done : List (List ℕ)) (word w rest : List ℕ)
    → all is_plain w ≡ true
    → Words.scan (words done (some word) (some b'\'') false) (w ++ b'\'' ∷ rest)
      ≡ Words.scan (words done (some (word ++ w)) none false) rest
scan-quoted_word done word [] rest h = rw append-nil
scan-quoted_word done word (x ∷ w) rest h =
    let plain : (b'\'' == x) ≡ false = ground arith in
    let escape : (x == b'\\' && false) ≡ false = ground arith in
    rw (escape, plain)
      (scan-quoted_word done (word ++ x ∷ []) w rest (ground arith)
        ∙ ap (λ v. Words.scan (words done (some v) none false) rest) (append_assoc word (x ∷ []) w))

scan-quoted :
    (ws done : List (List ℕ))
    → All (λ w. all is_plain w ≡ true) ws
    → length done + length ws ≤ max_args
    → Words.scan (words done none none false) (quoted ws) ≡ ok (words (done ++ ws) none none false)
scan-quoted [] done h few = rw append-nil
scan-quoted (w ∷ ws) done h few =
    let room : (length done == max_args) ≡ false = ==-eq_false _ _ (omega arith) in
    scan-quoted_word done [] w (b' ' ∷ quoted ws) h.0
    ∙ rw room (
        scan-quoted ws (done ++ w ∷ []) h.1 (omega (arith, length-append done (w ∷ [])))
        ∙ ap (λ v. ok (words v none none false)) (append_assoc done (w ∷ []) ws))

plain-ascii : (w : List ℕ) → all is_plain w ≡ true → all is_ascii w ≡ true
plain-ascii [] h = refl
plain-ascii (x ∷ w) h = ground (arith, plain-ascii w)

quoted-ascii :
    (ws : List (List ℕ)) → All (λ w. all is_plain w ≡ true) ws → all is_ascii (quoted ws) ≡ true
quoted-ascii [] h = refl
quoted-ascii (w ∷ ws) h =
    all-append is_ascii w (b'\'' ∷ b' ' ∷ quoted ws) (plain-ascii w h.0) (quoted-ascii ws h.1)

split-quoted :
    (ws : List (List ℕ))
    → All (λ w. all is_plain w ≡ true) ws
    → length ws ≤ max_args
    → length (quoted ws) ≤ max_input
    → Words.split (quoted ws) ≡ ok ws
unfolding Words.split
split-quoted ws plain few short =
    rw (ltb-eq_false max_input (length (quoted ws)) short, quoted-ascii ws plain)
      (rw (scan-quoted ws [] plain (omega arith)))

ok_of_Agree :
    {A B : Type 0} (R : A → B → Type 0) (m : Outcome A) (b : B)
    → Agree R m (ok b)
    → (a : A) × (m ≡ ok a) × R a b
ok_of_Agree R (ok a) b h = (a, refl, h)
ok_of_Agree R (err e) b h = absurd h
ok_of_Agree R panic b h = absurd h

-- Up to 32 words of ASCII bytes without a single quote, each written between single quotes with a
-- space behind it, 256 bytes in all at most: `parse` accepts the line, and its arguments are these
-- words, whatever operators, spaces or backslashes stand in them.
pub parse-quoted :
    (ws : List (List ℕ))
    → All (λ w. all is_plain w ≡ true) ws
    → length ws ≤ max_args
    → length (quoted ws) ≤ max_input
    → (r : Arguments) × (parse (quoted ws) ≡ ok r) × Gives r ws
parse-quoted ws plain few short =
    ok_of_Agree Gives (parse (quoted ws)) ws
      (rw (split-quoted ws plain few short) at (parse_refines (quoted ws)))
