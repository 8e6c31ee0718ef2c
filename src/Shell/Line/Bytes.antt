-- ===== src/Shell/Line/Bytes.antt =====
-- The two shifts of the array of bytes, on an array that is cut at the cursor and at the length.
use mathlib.Core.List.{append_assoc, append-nil}
use crab_os.Prelude.{
  ℕ, suc, ◌+◌, ◌-◌, ◌≡◌, refl, some, List, [], ◌∷◌, ◌++◌, arith, length, take, drop, store,
  copy_within, moved, length-append, length-drop, take-append, drop-append, set-append,
  copy_within-eq_some, store-eq_some,
}

take_one : (xs : List ℕ) (y : ℕ) (ys : List ℕ) → (x : ℕ) × (take 1 (xs ++ y ∷ ys) ≡ x ∷ [])
take_one [] y ys = (y, refl)
take_one (x ∷ xs) y ys = (x, refl)

module _ (before : List ℕ) (c n : ℕ) (at_cursor : c ≡ length before) where
  -- Make room at the cursor and write there: the byte that lay behind the text is given up.
  pub insert_shift :
      (after : List ℕ) (spare : ℕ) (rest : List ℕ) (byte : ℕ) {bytes : List ℕ}
      → bytes ≡ before ++ (after ++ spare ∷ rest)
      → n ≡ length before + length after
      → (shifted : List ℕ) × (copy_within bytes c n (c + 1) ≡ some shifted)
        × (store shifted c byte ≡ some (before ++ byte ∷ (after ++ rest)))
  insert_shift after spare rest byte {bytes} e at_end =
      let xs = before ++ (after ++ spare ∷ rest) in
      let (x, first) = take_one after spare rest in
      let shifted : moved xs c n (c + 1) ≡ before ++ x ∷ (after ++ rest) =
        rw
          (
            take-append before (after ++ spare ∷ rest) (c + 1) 1 (omega arith),
            first,
            drop-append before (after ++ spare ∷ rest) c 0 (omega arith),
            take-append after (spare ∷ rest) (n - c) 0 (omega arith),
            drop-append before (after ++ spare ∷ rest) (c + 1 + (n - c)) (length after + 1)
                (omega arith),
            drop-append after (spare ∷ rest) (length after + 1) 1 (omega arith),
            append-nil,
          )
          (append_assoc before (x ∷ []) (after ++ rest)) in
      let fits : length xs ≡ n + suc (length rest) =
        omega (
          arith,
          length-append before (after ++ spare ∷ rest),
          length-append after (spare ∷ rest),
        ) in
      (
        before ++ x ∷ (after ++ rest),
        rw (
          e,
          copy_within-eq_some xs c n (c + 1) (omega arith) (omega arith) (omega arith),
          shifted,
        ),
        rw
            (store-eq_some (before ++ x ∷ (after ++ rest)) c byte
              (omega (arith, length-append before (x ∷ (after ++ rest)))))
            (rw (set-append before (after ++ rest) x byte c at_cursor)),
      )

  -- Close the gap over the byte at the cursor.
  pub delete_shift :
      (byte : ℕ) (after rest : List ℕ) {bytes : List ℕ}
      → bytes ≡ before ++ byte ∷ (after ++ rest)
      → n ≡ length before + suc (length after)
      → (spare : List ℕ) × (copy_within bytes (c + 1) n c ≡ some (before ++ (after ++ spare)))
        × (length spare ≡ suc (length rest))
  delete_shift byte after rest e at_end =
      let tail = byte ∷ (after ++ rest) in
      let spare = drop (c + (n - (c + 1))) (before ++ tail) in
      let room : c + 1 + length after ≡ n = omega arith in
      let fits : length (before ++ tail) ≡ n + length rest =
        omega (arith, length-append before tail, length-append after rest) in
      let shifted : moved (before ++ tail) (c + 1) n c ≡ before ++ (after ++ spare) = rw (
        take-append before tail c 0 (omega arith),
        drop-append before tail (c + 1) 1 (omega arith),
        take-append after rest (n - (c + 1)) 0 (omega arith),
        append-nil before,
        append-nil after,
      ) in
      (
        spare,
        rw (
          e,
          copy_within-eq_some (before ++ tail) (c + 1) n c (omega arith) (omega arith)
              (omega arith),
          shifted,
        ),
        omega (arith, length-drop (c + (n - (c + 1))) (before ++ tail)),
      )
