-- ===== src/Desktop/Mouse/Stream.antt =====
-- `mouse_byte` on the bytes of a whole packet.
use crab_os.Prelude.{ℕ, ◌≡◌, refl, true, false, some, List, [], ◌∷◌, arith, length, has_bit, ◌>>=◌}
use crab_os.Desktop.{Screen}
use crab_os.Desktop.Layout.{IsValid}
use crab_os.Desktop.Mouse.{packet_read, mouse_byte}

three_of : (xs : List ℕ) → length xs ≡ 3 → (a : ℕ) × (b : ℕ) × (c : ℕ) × (xs ≡ a ∷ b ∷ c ∷ [])
three_of [] h = absurd (omega arith)
three_of (a ∷ []) h = absurd (omega arith)
three_of (a ∷ b ∷ []) h = absurd (omega arith)
three_of (a ∷ b ∷ c ∷ []) h = (a, b, c, refl)
three_of (a ∷ b ∷ c ∷ d ∷ xs) h = absurd (omega arith)

-- Between packets of a valid desktop a byte without bit 3 is dropped, and three bytes in a row, the
-- first of which has bit 3, are read as one packet.
mouse_byte-packet_read :
    (s : Screen) (flags x y : ℕ)
    → IsValid s.desktop
    → s.desktop.packet_len ≡ 0
    → (has_bit 3 flags ≡ false → mouse_byte s flags ≡ some s)
      × (has_bit 3 flags ≡ true
          → (mouse_byte s flags >>= λ s1. mouse_byte s1 x >>= λ s2. mouse_byte s2 y)
            ≡ packet_read s (record (s.desktop) { packet = flags ∷ x ∷ y ∷ []; packet_len = 3 }))
unfolding mouse_byte packet_read
mouse_byte-packet_read s flags x y v start =
    let (a, b, c, p) = three_of s.desktop.packet v.sound.size in
    (λ e. rw (start, e) refl, λ e. rw (start, e, p) refl)
