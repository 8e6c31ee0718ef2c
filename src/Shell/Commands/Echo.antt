-- ===== src/Shell/Commands/Echo.antt =====
-- `echo`: quoted words go through the parser and the command unchanged to the console.
use mathlib.Core.Path.{fun_ext}
use mathlib.Core.List.{append_assoc}
use crab_os.Prelude.{
  ℕ, suc, ◌+◌, ◌-◌, ◌≤◌, ◌<◌, ◌≡◌, ◌≢◌, refl, ap, true, false, some, List, [], ◌∷◌, ◌++◌, map,
  arith, ltb, if◌then◌else◌, length, get_elem?, all, All, is_ascii, lt→ltb, ==-eq_true, ==-eq_false,
  codes, concat, join, ◌>>=◌, Option-cases, inl, inr, Bool-cases,
}
use crab_os.Vga.Console.{Writer, write_byte, write_string}
use crab_os.Shell.History.{History}
use crab_os.Shell.History.Record.{same_text_iff}
use crab_os.Shell.Arguments.{Arguments, ok, parse, max_args, max_input}
use crab_os.Shell.Arguments
use crab_os.Shell.Arguments.Total.{Gives}
use crab_os.Shell.Arguments.Quoted.{is_plain, quoted, parse-quoted}
use crab_os.Shell.Output.{Action, text, print, emit}
use crab_os.Shell.Commands.{Machine, is, echo_from, echo, execute_match, execute_args, execute}

-- Writing a text in two parts.
write_string-append :
    (a b : List ℕ) (w : Writer)
    → write_string w (a ++ b) ≡ (write_string w a >>= λ w'. write_string w' b)
unfolding write_string
write_string-append [] b w = refl
write_string-append (c ∷ a) b w =
    let c' = if is_ascii c then c else 0xfe in
    elim (Option-cases (write_byte w c')) [
      | inl e ↦ rw e refl
      | inr (w', e) ↦ rw e (write_string-append a b w')
    ]

-- What `echo_from` prints for these words.
abbrev pieces : ℕ → List (List ℕ) → List Action
pieces index [] = []
pieces index (w ∷ ws) =
    (if ltb 1 index then print " " ∷ [] else []) ++ text w ∷ pieces (index + 1) ws

echo_from-eq :
    (r : Arguments) (ws : List (List ℕ)) (index : ℕ)
    → ((i : ℕ) (w : List ℕ) → get_elem? ws i ≡ some w → Arguments.get r (index + i) ≡ some w)
    → echo_from r index (length ws) ≡ some (pieces index ws)
unfolding echo_from
echo_from-eq r [] index h = refl
echo_from-eq r (w ∷ ws) index h =
    let here : Arguments.get r index ≡ some w =
      rw (let e : index + 0 ≡ index = omega arith in e) at (h 0 w refl) in
    let later = echo_from-eq r ws (index + 1) (λ i v e.
      rw (let e' : index + suc i ≡ index + 1 + i = omega arith in e') at (h (suc i) v e)) in
    rw here (rw later refl)

-- The words behind the first, each with a space before it.
abbrev spaced : List (List ℕ) → List ℕ
spaced ws = concat (map (codes " " ++◌) ws)

-- The actions write this text and do nothing else.
abbrev Prints : List Action → List ℕ → Type 0
Prints actions t = (w : Writer) → emit actions w ≡ write_string w t

text-Prints : (t : List ℕ) → Prints (text t ∷ []) t
unfolding emit
text-Prints t w = elim (Option-cases (write_string w t)) [
  | inl e ↦ rw e refl
  | inr (w', e) ↦ rw e refl
]

cons-Prints :
    (a t : List ℕ) (actions : List Action) → Prints actions t → Prints (text a ∷ actions) (a ++ t)
unfolding emit
cons-Prints a t actions h w =
    rw (write_string-append a t w) (ap (λ k. write_string w a >>= k) (fun_ext h))

pieces-Prints :
    (ws : List (List ℕ)) (index : ℕ) (rest : List ℕ)
    → 1 < index
    → Prints (pieces index ws ++ text rest ∷ []) (spaced ws ++ rest)
pieces-Prints [] index rest h = text-Prints rest
pieces-Prints (v ∷ ws) index rest h = rw (lt→ltb 1 index h) (
    rw (append_assoc v (spaced ws) rest) (
      cons-Prints (codes " ") (v ++ (spaced ws ++ rest))
        (text v ∷ (pieces (index + 1) ws ++ text rest ∷ []))
        (cons-Prints v (spaced ws ++ rest) (pieces (index + 1) ws ++ text rest ∷ [])
          (pieces-Prints ws (index + 1) rest (omega arith)))))

echo-Prints :
    (ws : List (List ℕ)) (rest : List ℕ)
    → Prints (pieces 1 ws ++ text rest ∷ []) (join (codes " ") ws ++ rest)
echo-Prints [] rest = text-Prints rest
echo-Prints (v ∷ ws) rest = rw (append_assoc v (spaced ws) rest) (
    cons-Prints v (spaced ws ++ rest) (pieces 2 ws ++ text rest ∷ [])
      (pieces-Prints ws 2 rest (omega arith)))

module _ (m : Machine) (h : History) where
  echo_args :
      (r : Arguments) (ws : List (List ℕ))
      → Gives r (codes "echo" ∷ ws)
      → echo r ≡ some (pieces 1 ws ++ text (10 ∷ []) ∷ [])
  unfolding echo
  echo_args r ws g =
      let count : r.len - 1 ≡ length ws = let e = g.len in omega arith in
      let words : echo_from r 1 (length ws) ≡ some (pieces 1 ws) =
        echo_from-eq r ws 1
          (λ i w e. rw (let e' : 1 + i ≡ suc i = omega arith in e') (g.word (suc i) w e)) in
      rw count (rw words refl)

  -- The line `echo` with words other than a single `--help`.
  echo_runs :
      (r : Arguments) (ws : List (List ℕ))
      → Gives r (codes "echo" ∷ ws)
      → ws ≢ codes "--help" ∷ []
      → execute_args m h r ≡ echo r
  unfolding execute_match
  echo_runs r [] g other = rw (==-eq_false r.len 0 (let e = g.len in omega arith)) (
      rw (g.word 0 (codes "echo") refl)
        (rw (==-eq_false r.len 2 (let e = g.len in omega arith)) refl))
  echo_runs r (w ∷ []) g other =
      let no_help : is w "--help" ≡ false = elim (Bool-cases (is w "--help")) [
        | inl e ↦ absurd (other (ap (λ v. v ∷ []) ((same_text_iff w (codes "--help")).0 e)))
        | inr e ↦ e
      ] in
      rw (==-eq_false r.len 0 (let e = g.len in omega arith)) (
        rw (g.word 0 (codes "echo") refl) (
          rw (==-eq_true r.len 2 (let e = g.len in omega arith))
            (rw (g.word 1 w refl) (rw no_help refl))))
  echo_runs r (v ∷ w ∷ ws) g other = rw (==-eq_false r.len 0 (let e = g.len in omega arith)) (
      rw (g.word 0 (codes "echo") refl)
        (rw (==-eq_false r.len 2 (let e = g.len in omega arith)) refl))

  -- The command line `echo` with up to 31 words of ASCII bytes without a single quote, each between
  -- single quotes, 256 bytes in all at most, and not the single word `--help`: the command writes to
  -- any console the words as they are, with single spaces between them, and a line feed.
  pub execute-echo :
      (ws : List (List ℕ)) (w : Writer)
      → All (λ v. all is_plain v ≡ true) ws
      → length ws < max_args
      → length (quoted (codes "echo" ∷ ws)) ≤ max_input
      → ws ≢ codes "--help" ∷ []
      → (execute m h (quoted (codes "echo" ∷ ws)) >>= λ actions. emit actions w)
        ≡ write_string w (join (codes " ") ws ++ 10 ∷ [])
  unfolding execute
  execute-echo ws w plain few short other =
      let (r, parsed, g) = parse-quoted (codes "echo" ∷ ws) (refl, plain) (omega arith) short in
      rw parsed (rw (echo_runs r ws g other) (rw (echo_args r ws g) (echo-Prints ws (10 ∷ []) w)))
