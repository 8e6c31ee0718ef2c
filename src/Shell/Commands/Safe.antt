-- ===== src/Shell/Commands/Safe.antt =====
-- `Shell::execute` panics nowhere: the arguments and history entries that it asks for are there, and
-- `unreachable!` is not reached.
use Prim.Native.String.{String}
use crab_os.Prelude.{
  ℕ, zero, suc, ◌+◌, ◌-◌, ◌≤◌, ◌<◌, ◌≡◌, refl, Bool, true, false, not, Option, some, none, List, [],
  ◌∷◌, arith, ltb, ◌==◌, if◌then◌else◌, length, get_elem?_of_lt, Bool-cases, inl, inr, codes,
  All-get_elem?, Returns, bind-Returns, at-Returns, if-Returns, not-eq_false, ◌||◌, ◌∙◌, sym,
}
use crab_os.Shell.Line.{Line}
use crab_os.Shell.Line.Str.{line_text, as_str-eq-line_text}
use crab_os.Shell.History.{History, same_text}
use crab_os.Shell.History.Ring.{Holds, IsLine}
use crab_os.Shell.Arguments.{Arguments, Outcome, parse}
use crab_os.Shell.Arguments
use crab_os.Shell.Arguments.Words
use crab_os.Shell.Arguments.Parse.{Agree}
use crab_os.Shell.Arguments.Total.{Gives, parse_refines}
use crab_os.Shell.Commands.{
  Machine, commands, is, is_command, second_is, echo_from, echo, uname, browse, history_from,
  execute_plain, execute_rest, execute_match, help_or, find_command, execute_args, execute_parsed,
  execute,
}

module _ (r : Arguments) {ws : List (List ℕ)} (g : Gives r ws) where
  get-Returns : (index : ℕ) → index < r.len → Returns (Arguments.get r index)
  get-Returns index inside =
      let (w, at) = get_elem?_of_lt ws index (let e = g.len in omega arith) in
      (w, g.word index w at)

  echo_from-Returns : (index count : ℕ) → index + count ≤ r.len → Returns (echo_from r index count)
  unfolding echo_from
  echo_from-Returns index zero h = ([], refl)
  echo_from-Returns index (suc count) h =
      bind-Returns _ _ (get-Returns index (omega arith))
        λ w. bind-Returns _ _ (echo_from-Returns (index + 1) count (omega arith)) λ rest. (_, refl)

  second_is-Returns : (literal : String) → Returns (second_is r literal)
  second_is-Returns literal =
      if-Returns (r.len == 2) _ _
        (λ two. bind-Returns _ _ (get-Returns 1 (ground arith)) (λ w. (_, refl)))
        (λ other. (false, refl))

  echo_none : Returns (echo_from r 1 0)
  unfolding echo_from
  echo_none = ([], refl)

  echo-Returns : Returns (echo r)
  unfolding echo
  echo-Returns = elim (Bool-cases (r.len == 0)) [
    | inl empty ↦
        bind-Returns _ _ (rw (let e : r.len - 1 ≡ 0 = ground arith in e) echo_none)
          (λ actions. (_, refl))
    | inr more ↦
        bind-Returns _ _ (echo_from-Returns 1 (r.len - 1) (ground arith)) (λ actions. (_, refl))
  ]

  uname-Returns : (m : Machine) → Returns (uname m r)
  unfolding uname
  uname-Returns m =
      if-Returns (r.len == 1) _ _ (λ alone. (_, refl))
        (λ more. bind-Returns _ _ (second_is-Returns "-a") (λ all_facts. (_, refl)))

  browse-Returns : (m : Machine) → Returns (browse m r)
  unfolding browse
  browse-Returns m =
      if-Returns (not (r.len == 2)) _ _ (λ usage. (_, refl))
        (λ two. bind-Returns _ _ (get-Returns 1 (ground arith)) (λ input. (_, refl)))

same_text_comm : (xs ys : List ℕ) → same_text xs ys ≡ same_text ys xs
same_text_comm [] [] = refl
same_text_comm [] (y ∷ ys) = refl
same_text_comm (x ∷ xs) [] = refl
same_text_comm (x ∷ xs) (y ∷ ys) = ground (arith, same_text_comm xs ys)

or-eq_false : {a b : Bool} → a ≡ false → b ≡ false → (a || b) ≡ false
or-eq_false h k = rw h k

-- A name that is none of the thirteen is no command.
not_listed :
    (name : List ℕ)
    → is name "help" ≡ false
    → is name "fastfetch" ≡ false
    → is name "clear" ≡ false
    → is name "echo" ≡ false
    → is name "uname" ≡ false
    → is name "uptime" ≡ false
    → is name "mem" ≡ false
    → is name "history" ≡ false
    → is name "whoami" ≡ false
    → is name "hostname" ≡ false
    → is name "lspci" ≡ false
    → is name "net" ≡ false
    → is name "browse" ≡ false
    → is_command name ≡ false
not_listed name h1 h2 h3 h4 h5 h6 h7 h8 h9 h10 h11 h12 h13 =
    or-eq_false (same_text_comm (codes "help") name ∙ h1) (
      or-eq_false (same_text_comm (codes "fastfetch") name ∙ h2) (
        or-eq_false (same_text_comm (codes "clear") name ∙ h3) (
          or-eq_false (same_text_comm (codes "echo") name ∙ h4) (
            or-eq_false (same_text_comm (codes "uname") name ∙ h5) (
              or-eq_false (same_text_comm (codes "uptime") name ∙ h6) (
                or-eq_false (same_text_comm (codes "mem") name ∙ h7) (
                  or-eq_false (same_text_comm (codes "history") name ∙ h8) (
                    or-eq_false (same_text_comm (codes "whoami") name ∙ h9) (
                      or-eq_false (same_text_comm (codes "hostname") name ∙ h10) (
                        or-eq_false (same_text_comm (codes "lspci") name ∙ h11) (
                          or-eq_false (same_text_comm (codes "net") name ∙ h12) (
                            or-eq_false (same_text_comm (codes "browse") name ∙ h13)
                              refl))))))))))))

module _ (m : Machine) (h : History) {entries : List Line} (v : Holds h entries) where
  history_from-Returns :
      (index count : ℕ) → index + count ≤ length entries → Returns (history_from h index count)
  unfolding history_from
  history_from-Returns index zero b = ([], refl)
  history_from-Returns index (suc count) b =
      let (l, at) = get_elem?_of_lt entries index (omega arith) in
      let line = All-get_elem? IsLine entries index l v.lines at in
      at-Returns _ _ l (v.entry index l at) (
        bind-Returns _ _ (line_text l, as_str-eq-line_text line.shows)
          λ text.
            bind-Returns _ _ (history_from-Returns (index + 1) count (omega arith))
              (λ rest. (_, refl)))

  execute_plain-Returns :
      (name : List ℕ)
      → is_command name ≡ true
      → is name "echo" ≡ false
      → is name "uname" ≡ false
      → is name "browse" ≡ false
      → Returns (execute_plain m h name)
  unfolding execute_plain
  execute_plain-Returns name listed no_echo no_uname no_browse =
      if-Returns _ _ _ (λ yes_help. (_, refl))
        λ h1.
          if-Returns _ _ _ (λ e. (_, refl))
            λ h2.
              if-Returns _ _ _ (λ e. (_, refl))
                λ h3.
                  if-Returns _ _ _ (λ e. (_, refl))
                    λ h4.
                      if-Returns _ _ _ (λ e. (_, refl))
                        λ h5.
                          if-Returns _ _ _
                            (λ e. history_from-Returns 0 h.len (let k = v.len in omega arith))
                            λ h6.
                              if-Returns _ _ _ (λ e. (_, refl))
                                λ h7.
                                  if-Returns _ _ _ (λ e. (_, refl))
                                    λ h8.
                                      if-Returns _ _ _ (λ e. (_, refl))
                                        λ h9.
                                          if-Returns _ _ _ (λ e. (_, refl))
                                            λ h10.
                                              let missing : is_command name ≡ false =
                                                not_listed name h1 h2 h3 no_echo no_uname h4 h5 h6
                                                  h7 h8 h9 h10 no_browse in
                                              absurd
                                                (let q : true ≡ false = sym listed ∙ missing in cc)

  module _ (r : Arguments) {ws : List (List ℕ)} (g : Gives r ws) where
    execute_rest-Returns :
        (name : List ℕ)
        → is name "echo" ≡ false
        → is name "uname" ≡ false
        → Returns (execute_rest m h r name)
    unfolding execute_rest
    execute_rest-Returns name no_echo no_uname =
        if-Returns (is name "browse") _ _ (λ e. browse-Returns r g m)
          λ no_browse.
            if-Returns (not (is_command name)) _ _ (λ e. (_, refl))
              λ listed.
                if-Returns (ltb 1 r.len) _ _ (λ e. (_, refl))
                  λ few. execute_plain-Returns name (not-eq_false listed) no_echo no_uname no_browse

    execute_match-Returns : (name : List ℕ) → Returns (execute_match m h r name)
    unfolding execute_match
    execute_match-Returns name =
        if-Returns (is name "echo") _ _ (λ e. echo-Returns r g)
          λ no_echo.
            if-Returns (is name "uname") _ _ (λ e. uname-Returns r g m)
              λ no_uname.
                bind-Returns _ _
                  (if-Returns (is name "fastfetch") _ _ (λ e. second_is-Returns r g "--version")
                    (λ e. (false, refl)))
                  λ version.
                    if-Returns version _ _ (λ e. (_, refl))
                      (λ e. execute_rest-Returns name no_echo no_uname)

    help_or-Returns :
        (name : List ℕ) (found : Option (List ℕ × List ℕ)) → Returns (help_or m h r name found)
    help_or-Returns name none = execute_match-Returns name
    help_or-Returns name (some (c, description)) = (_, refl)

    execute_args-Returns : Returns (execute_args m h r)
    execute_args-Returns =
        if-Returns (r.len == 0) _ _ (λ empty. ([], refl))
          λ more. bind-Returns _ _ (get-Returns r g 0 (ground arith)) λ name.
            bind-Returns _ _ (second_is-Returns r g "--help") λ wants_help.
              help_or-Returns name (if wants_help then find_command name commands else none)

  execute_parsed-Returns :
      (parsed words : Outcome _) → Agree Gives parsed words → Returns (execute_parsed m h parsed)
  execute_parsed-Returns (Outcome.ok r) (Outcome.ok ws) g = execute_args-Returns r g
  execute_parsed-Returns (Outcome.ok r) (Outcome.err e) g = absurd g
  execute_parsed-Returns (Outcome.ok r) Outcome.panic g = absurd g
  execute_parsed-Returns (Outcome.err e) words g = (_, refl)
  execute_parsed-Returns Outcome.panic (Outcome.ok ws) g = absurd g
  execute_parsed-Returns Outcome.panic (Outcome.err e) g = absurd g
  execute_parsed-Returns Outcome.panic Outcome.panic g = absurd g

  -- For every input, and a history whose lines show texts, `execute` returns: no index of an argument
  -- or an entry is out of range, no `expect` fails, and `unreachable!` is not reached.
  pub execute-Returns : (input : List ℕ) → Returns (execute m h input)
  unfolding execute
  execute-Returns input =
      execute_parsed-Returns (parse input) (Words.split input) (parse_refines input)
