-- ===== src/Pci/Find.antt =====
-- `find` finds a device wherever there is one.
use crab_os.Prelude.{
  ℕ, zero, suc, ◌+◌, ◌*◌, ◌/◌, ◌%◌, ◌^◌, ◌≤◌, ◌<◌, ◌≡◌, ◌≢◌, refl, sym, ◌∙◌, subst, ◌⊎◌, inl, inr,
  false, Bool-cases, Option, Option-cases, none, some, ◌==◌, ==_iff, ==-eq_true, arith,
}
use crab_os.Pci.{
  Address, first_some, functions, first_of, try_function, try_device, try_bus, find, selector,
}

none≢some {ℓ} : {A : Type ℓ} (a : A) → none ≢ some a
none≢some a h = cc

-- Nothing in a range, or something at a place of it.
first_some-cases {ℓ} :
    {A : Type ℓ} (f : ℕ → Option A) (from count : ℕ)
    → ((first_some f from count ≡ none) × ((i : ℕ) → from ≤ i → i < from + count → f i ≡ none))
      ⊎ ((i : ℕ) × (a : A) × (first_some f from count ≡ some a)
          × (from ≤ i)
          × (i < from + count)
          × (f i ≡ some a))
unfolding first_some
first_some-cases f from zero = inl (refl, λ i h k. absurd (omega arith))
first_some-cases f from (suc count) = elim (Option-cases (f from)) [
  | inr (a, e) ↦ inr (from, a, rw e refl, omega arith, omega arith, e)
  | inl e ↦ elim (first_some-cases f (suc from) count) [
    | inl (n, g) ↦ inl (
      rw e n,
      λ i h k. elim (Bool-cases (i == from)) [
        | inl s ↦ rw ((==_iff i from).0 s) e
        | inr s ↦ g i (ground arith) (omega arith)
      ],
    )
    | inr (i, a, n, h, k, x) ↦ inr (i, a, rw e n, omega arith, omega arith, x)
  ]
]

first_some-none {ℓ} :
    {A : Type ℓ} (f : ℕ → Option A) (count i : ℕ)
    → first_some f 0 count ≡ none
    → i < count
    → f i ≡ none
first_some-none f count i h k = elim (first_some-cases f 0 count) [
  | inl (n, g) ↦ g i (omega arith) (omega arith)
  | inr (j, a, n, _, _, _) ↦ absurd (none≢some a (sym h ∙ n))
]

first_some-some {ℓ} :
    {A : Type ℓ} (f : ℕ → Option A) (count : ℕ) (a : A)
    → first_some f 0 count ≡ some a
    → (i : ℕ) × (i < count) × (f i ≡ some a)
first_some-some f count a h = elim (first_some-cases f 0 count) [
  | inl (n, g) ↦ absurd (none≢some a (sym n ∙ h))
  | inr (j, b, n, _, k, e) ↦ (j, omega arith, e ∙ sym n ∙ h)
]

-- For devices below 32, functions below 8 and registers below 256: the selector's number tells which
-- bus, device, function and word of the configuration space is meant.
selector-eq :
    (a b : Address) (r s : ℕ)
    → a.device < 32
    → b.device < 32
    → a.function < 8
    → b.function < 8
    → r < 256
    → s < 256
    → selector a r ≡ selector b s
    → (a.bus ≡ b.bus) × (a.device ≡ b.device) × (a.function ≡ b.function) × (r / 4 ≡ s / 4)
unfolding selector
selector-eq a b r s da db fa fb ra rb e = (omega arith, omega arith, omega arith, omega arith)

module _ (read : Address → ℕ → ℕ) (vendor : ℕ) (device_id : ℕ) where
  -- A function that is there: its device answers, and has as many functions.
  pub record Present (a : Address) : Type 0 where
    pub bus : a.bus < 256
    pub device : a.device < 32
    pub function : a.function < functions read (first_of read a.bus a.device)
    pub answers : (read (first_of read a.bus a.device) 0 % 2 ^ 16 == 0xffff) ≡ false

  pub record Matches (a : Address) : Type 0 where
    pub present : Present a
    pub id : read a 0 ≡ device_id * 2 ^ 16 + vendor

  no_match :
      (a : Address)
      → Present a
      → find read vendor device_id ≡ none
      → read a 0 ≢ device_id * 2 ^ 16 + vendor
  unfolding find try_bus try_device
  no_match a p n e =
      let on_bus = first_some-none (try_bus read vendor device_id) 256 a.bus n p.bus in
      let on_device =
        first_some-none (try_device read vendor device_id a.bus) 32 a.device on_bus p.device in
      let silent =
        first_some-none (try_function read vendor device_id a.bus a.device)
          (functions read (first_of read a.bus a.device)) a.function
          (sym (rw p.answers refl) ∙ on_device) p.function in
      none≢some a (sym silent ∙ rw (==-eq_true (read a 0) (device_id * 2 ^ 16 + vendor) e) refl)

  match_function :
      (bus device function : ℕ) (a : Address)
      → bus < 256
      → device < 32
      → function < functions read (first_of read bus device)
      → (read (first_of read bus device) 0 % 2 ^ 16 == 0xffff) ≡ false
      → try_function read vendor device_id bus device function ≡ some a
      → Matches a
  match_function bus device function a hb hd hf answers e =
      let address : Address = record { bus = bus; device = device; function = function } in
      elim (Bool-cases (read address 0 == device_id * 2 ^ 16 + vendor)) [
        | inr f ↦ absurd (none≢some a (sym (rw f refl) ∙ e))
        | inl t ↦
            let q : some address ≡ some a = sym (rw t refl) ∙ e in
            let same : address ≡ a = cc in
            subst Matches same record {
              present = record { bus = hb; device = hd; function = hf; answers = answers };
              id = (==_iff (read address 0) (device_id * 2 ^ 16 + vendor)).0 t;
            }
      ]

  match_device :
      (bus device : ℕ) (a : Address)
      → bus < 256
      → device < 32
      → try_device read vendor device_id bus device ≡ some a
      → Matches a
  unfolding try_device
  match_device bus device a hb hd e =
      elim (Bool-cases (read (first_of read bus device) 0 % 2 ^ 16 == 0xffff)) [
        | inl t ↦ absurd (none≢some a (sym (rw t refl) ∙ e))
        | inr f ↦
            let (function, hf, g) =
              first_some-some (try_function read vendor device_id bus device)
                (functions read (first_of read bus device)) a (sym (rw f refl) ∙ e) in
            match_function bus device function a hb hd hf f g
      ]

  -- For any configuration space: `find` gives a function that is there and has the vendor and the
  -- device id, or there is none among the 256 buses.
  pub find-cases :
      ((find read vendor device_id ≡ none)
        × ((a : Address) → Present a → read a 0 ≢ device_id * 2 ^ 16 + vendor))
      ⊎ ((a : Address) × (find read vendor device_id ≡ some a) × Matches a)
  unfolding find try_bus
  find-cases = elim (Option-cases (find read vendor device_id)) [
    | inl n ↦ inl (n, λ a p. no_match a p n)
    | inr (a, n) ↦
        let (bus, hb, e) = first_some-some (try_bus read vendor device_id) 256 a n in
        let (device, hd, g) = first_some-some (try_device read vendor device_id bus) 32 a e in
        inr (a, n, match_device bus device a hb hd g)
  ]
