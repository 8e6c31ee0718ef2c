-- ===== src/Shell/Arguments/Parse.antt =====
-- `Arguments::parse` splits its input as `Words.split` says, and never panics.
use crab_os.Prelude.{
  ℕ, ◌+◌, ◌≤◌, ◌<◌, ◌≡◌, refl, sym, subst, Bool, true, false, not, ◌&&◌, ◌||◌, Option, none, some,
  List, [], ◌∷◌, ◌++◌, arith, lt→ltb, ◌==◌, length, set, all, Bool-cases, inl, inr, is_ascii,
  is_ascii_whitespace,
}
use crab_os.Shell.Arguments.{
  Arguments, Outcome, ok, err, panic, ◌>>=◌, State, end_word, store_byte, get_or_insert, max_input,
  max_args, is_quote, is_none, is_operator, step, scan,
}
use crab_os.Shell.Arguments.Words
use crab_os.Shell.Arguments.Words.{Words, words, begun}
use crab_os.Shell.Arguments.Refine.{concat, Holds, length-bytes, store-Holds, begin-Holds}
use crab_os.Shell.Arguments.Spans.{pushed-Holds, push-eq_ok, push-eq_err}

-- Both succeed, with related results, or both fail, with the same message.
abbrev pub Agree : {A B : Type 0} → (A → B → Type 0) → Outcome A → Outcome B → Type 0
Agree R (ok a) (ok b) = R a b
Agree R (err e) (err f) = e ≡ f
Agree R _ _ = ⊥

pub Agree-bind :
    {A B C D : Type 0} (R : A → B → Type 0) (S : C → D → Type 0) (m : Outcome A) (n : Outcome B)
    (f : A → Outcome C) (g : B → Outcome D)
    → Agree R m n
    → ((a : A) (b : B) → R a b → Agree S (f a) (g b))
    → Agree S (m >>= f) (n >>= g)
Agree-bind R S (ok a) (ok b) f g h k = k a b h
Agree-bind R S (err e) (err e') f g h k = h
Agree-bind R S (ok a) (err e') f g h k = absurd h
Agree-bind R S (ok a) panic f g h k = absurd h
Agree-bind R S (err e) (ok b) f g h k = absurd h
Agree-bind R S (err e) panic f g h k = absurd h
Agree-bind R S panic (ok b) f g h k = absurd h
Agree-bind R S panic (err e) f g h k = absurd h
Agree-bind R S panic panic f g h k = absurd h

pub record Shows (s : State) (w : Words) : Type 0 where
  pub holds : Holds s.result s.used s.start w.done w.current
  pub quote : s.quote ≡ w.quote
  pub escaped : s.escaped ≡ w.escaped
  pub started : w.escaped ≡ true → is_none w.current ≡ false

-- A round stores one byte at most.
pub record StepTo (used : ℕ) (s : State) (w : Words) : Type 0 where
  pub shows : Shows s w
  pub stored : s.used ≤ used + 1

abbrev pub state : Arguments → ℕ → Option ℕ → Option ℕ → Bool → State
state result used start quote escaped = record {
  result = result;
  used = used;
  start = start;
  quote = quote;
  escaped = escaped;
}

-- The buffer with one more byte.
abbrev stored : Arguments → ℕ → ℕ → Arguments
stored r u byte = record r { bytes = set r.bytes u byte }

module _ (r : Arguments) (u : ℕ) (from quote : Option ℕ) (done : List (List ℕ)) where
  store_byte-eq_ok :
      (word : List ℕ) (byte : ℕ) (escaped : Bool)
      → Holds r u from done (some word)
      → u < max_input
      → store_byte (state r u from quote escaped) byte
        ≡ ok (state (stored r u byte) (u + 1) from quote escaped)
  store_byte-eq_ok word byte escaped h inside =
      rw (length-bytes (some word) h, lt→ltb u max_input inside)

  stored-StepTo :
      (word : List ℕ) (byte : ℕ)
      → Holds r u from done (some word)
      → u < max_input
      → is_ascii byte ≡ true
      → StepTo u
          (state (stored r u byte) (u + 1) from quote false)
          (words done (some (word ++ byte ∷ [])) quote false)
  stored-StepTo word byte h inside ascii = record {
    shows = record {
      holds = store-Holds word byte h inside ascii;
      quote = refl;
      escaped = refl;
      started = λ e. cc;
    };
    stored = omega arith;
  }

  -- A round that begins a word, if none has, and reads no byte into it.
  begun-StepTo :
      (current : Option (List ℕ)) (quote' : Option ℕ) (escaped : Bool)
      → Holds r u from done current
      → StepTo u
          (state r u (get_or_insert from u) quote' escaped)
          (words done (some (begun current)) quote' escaped)
  begun-StepTo current quote' escaped h = record {
    shows = record {
      holds = begin-Holds current h;
      quote = refl;
      escaped = refl;
      started = λ _. refl;
    };
    stored = omega arith;
  }

  pub end_word-Agree :
      (current : Option (List ℕ))
      → Holds r u from done current
      → Agree
          (StepTo u)
          (end_word (state r u from quote false) from)
          (Words.end_word (words done current quote false) current)
  end_word-Agree none h = rw h.begin (record {
    shows = record { holds = rw h.begin at h; quote = refl; escaped = refl; started = λ e. cc };
    stored = omega arith;
  })
  end_word-Agree (some word) h =
      let begin = length (concat done) in
      rw h.begin (elim (Bool-cases (length done == max_args)) [
        | inl full ↦ rw (full, push-eq_err word h (ground arith)) refl
        | inr room ↦
            let few : length done < max_args = let k = h.slots in ground arith in
            rw (room, push-eq_ok word h few)
              (record {
                shows = record {
                  holds = pushed-Holds word h few;
                  quote = refl;
                  escaped = refl;
                  started = λ e. cc;
                };
                stored = omega arith;
              })
      ])

-- One round on both sides: the tests are the same.
module _ (r : Arguments) (u : ℕ) (from quote : Option ℕ) (done : List (List ℕ)) where
  step-Agree_at :
      (escaped : Bool) (current : Option (List ℕ)) (byte : ℕ)
      → Holds r u from done current
      → (escaped ≡ true → is_none current ≡ false)
      → u < max_input
      → is_ascii byte ≡ true
      → Agree
          (StepTo u)
          (step (state r u from quote escaped) byte)
          (Words.step (words done current quote escaped) byte)
  unfolding step
  step-Agree_at true none byte h started inside ascii = absurd (cc (started refl))
  step-Agree_at true (some word) byte h started inside ascii =
      rw (store_byte-eq_ok r u from quote done word byte true h inside)
        (stored-StepTo r u from quote done word byte h inside ascii)
  step-Agree_at false current byte h started inside ascii =
      elim (Bool-cases (byte == b'\\' && not (is_quote quote b'\''))) [
        | inl e ↦ rw e (begun-StepTo r u from quote done current quote true h)
        | inr e ↦ rw e (elim (Bool-cases (is_quote quote byte)) [
          | inl e ↦ rw e (record {
            shows = record { holds = h; quote = refl; escaped = refl; started = λ e. cc };
            stored = omega arith;
          })
          | inr e ↦ rw e (elim (Bool-cases (is_none quote && (byte == b'\'' || byte == b'"'))) [
            | inl e ↦ rw e (begun-StepTo r u from quote done current (some byte) false h)
            | inr e ↦ rw e (elim (Bool-cases (is_none quote && is_ascii_whitespace byte)) [
              | inl e ↦ rw e (end_word-Agree r u from quote done current h)
              | inr e ↦ rw e (elim (Bool-cases (is_none quote && is_operator byte)) [
                | inl e ↦ rw e refl
                | inr e ↦
                    let h' = begin-Holds current h in
                    rw
                      (
                        e,
                        store_byte-eq_ok r u (get_or_insert from u) quote done (begun current) byte
                            false h' inside,
                      )
                      (stored-StepTo r u (get_or_insert from u) quote done (begun current) byte h'
                        inside ascii)
              ])
            ])
          ])
        ])
      ]

-- The state with the modes that the words name.
pub eq-state :
    {s : State} {w : Words} → Shows s w → state s.result s.used s.start w.quote w.escaped ≡ s
eq-state {s} {w} h = λ i. state s.result s.used s.start (sym h.quote i) (sym h.escaped i)

step-Agree :
    (s : State) (w : Words) (byte : ℕ)
    → Shows s w
    → s.used < max_input
    → is_ascii byte ≡ true
    → Agree (StepTo s.used) (step s byte) (Words.step w byte)
step-Agree s w byte h inside ascii =
    subst (λ (t : State). Agree (StepTo s.used) (step t byte) (Words.step w byte)) (eq-state h)
      (step-Agree_at s.result s.used s.start w.quote w.done w.escaped w.current byte h.holds
        h.started inside ascii)

pub scan-Agree :
    (input : List ℕ) (s : State) (w : Words)
    → Shows s w
    → s.used + length input ≤ max_input
    → all is_ascii input ≡ true
    → Agree Shows (scan s input) (Words.scan w input)
unfolding scan
scan-Agree [] s w h fits ascii = h
scan-Agree (byte ∷ rest) s w h fits ascii =
    Agree-bind (StepTo s.used) Shows (step s byte) (Words.step w byte) (λ t. scan t rest)
      (λ v. Words.scan v rest) (step-Agree s w byte h (omega arith) (ground arith))
      (λ t v k. scan-Agree rest t v k.shows (let l = k.stored in omega arith) (ground arith))
