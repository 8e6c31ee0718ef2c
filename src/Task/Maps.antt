-- ===== src/Task/Maps.antt =====
-- Maps from ids as association lists, and sets of ids.
use crab_os.Prelude.{
  ℕ, ◌≡◌, ◌≢◌, refl, sym, ◌∙◌, Bool, true, false, ◌||◌, Bool-cases, inl, inr, Option, none, some,
  List, [], ◌∷◌, ◌==◌, ==-eq_true, ==-eq_false, if◌then◌else◌, arith,
}

module _ {A : Type 0} where
  abbrev pub lookup : ℕ → List (ℕ × A) → Option A
  lookup id [] = none
  lookup id (e ∷ map) = if e.0 == id then some e.1 else lookup id map

  abbrev pub put : ℕ → A → List (ℕ × A) → List (ℕ × A)
  put id a [] = (id, a) ∷ []
  put id a (e ∷ map) = if e.0 == id then (id, a) ∷ map else e ∷ put id a map

  abbrev pub remove : ℕ → List (ℕ × A) → List (ℕ × A)
  remove id [] = []
  remove id (e ∷ map) = let rest = remove id map in if e.0 == id then rest else e ∷ rest

  pub lookup-put_self : (id : ℕ) (a : A) (map : List (ℕ × A)) → lookup id (put id a map) ≡ some a
  lookup-put_self id a [] = rw (==-eq_true id id refl) refl
  lookup-put_self id a (e ∷ map) = elim (Bool-cases (e.0 == id)) [
    | inl t ↦ rw t (rw (==-eq_true id id refl) refl)
    | inr f ↦ rw f (rw f (lookup-put_self id a map))
  ]

  pub lookup-put_ne :
      (id j : ℕ) (a : A) (map : List (ℕ × A)) → j ≢ id → lookup j (put id a map) ≡ lookup j map
  lookup-put_ne id j a [] h = rw (==-eq_false id j (λ e. h (sym e))) refl
  lookup-put_ne id j a (e ∷ map) h = elim (Bool-cases (e.0 == id)) [
    | inl t ↦
        let other : (e.0 == j) ≡ false = ground arith in
        rw t (rw (==-eq_false id j (λ q. h (sym q)), other) refl)
    | inr f ↦ rw f (elim (Bool-cases (e.0 == j)) [
      | inl t ↦ rw t refl
      | inr g ↦ rw g (lookup-put_ne id j a map h)
    ])
  ]

  pub lookup-remove_self : (id : ℕ) (map : List (ℕ × A)) → lookup id (remove id map) ≡ none
  lookup-remove_self id [] = refl
  lookup-remove_self id (e ∷ map) = elim (Bool-cases (e.0 == id)) [
    | inl t ↦ rw t (lookup-remove_self id map)
    | inr f ↦ rw f (rw f (lookup-remove_self id map))
  ]

  pub lookup-remove_ne :
      (id j : ℕ) (map : List (ℕ × A)) → j ≢ id → lookup j (remove id map) ≡ lookup j map
  lookup-remove_ne id j [] h = refl
  lookup-remove_ne id j (e ∷ map) h = elim (Bool-cases (e.0 == id)) [
    | inl t ↦
        let other : (e.0 == j) ≡ false = ground arith in rw (t, other) (lookup-remove_ne id j map h)
    | inr f ↦ rw f (elim (Bool-cases (e.0 == j)) [
      | inl t ↦ rw t refl
      | inr g ↦ rw g (lookup-remove_ne id j map h)
    ])
  ]

abbrev pub member : ℕ → List ℕ → Bool
member id [] = false
member id (j ∷ ids) = j == id || member id ids

abbrev pub remove_id : ℕ → List ℕ → List ℕ
remove_id id [] = []
remove_id id (j ∷ ids) = let rest = remove_id id ids in if j == id then rest else j ∷ rest

-- `entry(id).or_insert`
abbrev pub add_id : ℕ → List ℕ → List ℕ
add_id id ids = if member id ids then ids else id ∷ ids

-- What is left is in the set, and is not the id.
pub member-remove_id :
    (id j : ℕ) (ids : List ℕ)
    → member j (remove_id id ids) ≡ true
    → (member j ids ≡ true) × (j ≢ id)
member-remove_id id j [] h = absurd cc
member-remove_id id j (k ∷ ids) h = elim (Bool-cases (k == id)) [
  | inl t ↦
      let (m, n) = member-remove_id id j ids (sym (rw t refl) ∙ h) in
      (elim (Bool-cases (k == j)) [ inl a ↦ rw a refl | inr a ↦ rw a m ], n)
  | inr f ↦ elim (Bool-cases (k == j)) [
    | inl a ↦ (rw a refl, λ q. absurd (ground arith))
    | inr a ↦
        let rest : member j (remove_id id ids) ≡ true = sym (rw (f) (rw a refl)) ∙ h in
        let (m, n) = member-remove_id id j ids rest in (rw a m, n)
  ]
]

-- What is added is the id or was there.
pub member-add_id :
    (id j : ℕ) (ids : List ℕ) → member j (add_id id ids) ≡ true → j ≢ id → member j ids ≡ true
member-add_id id j ids h n = elim (Bool-cases (member id ids)) [
  | inl t ↦ sym (rw t refl) ∙ h
  | inr f ↦
      let other : (id == j) ≡ false = ==-eq_false id j (λ q. n (sym q)) in
      sym (rw f (rw other refl)) ∙ h
]
