-- ===== src/Prelude/Utf8.antt =====
-- `core::str::from_utf8`: which bytes are a string. A state is what the next byte must be.
use crab_os.Prelude.Tests.{leb, ◌==◌, if◌then◌else◌, Bool-cases}
use crab_os.Prelude.Lists.{all}
use crab_os.Prelude.Words.{is_ascii}
use Prim.Native.Nat.{ℕ, zero, suc, ◌+◌, ◌*◌, ◌%◌}
use mathlib.Core.Path.{◌≡◌, refl}
use mathlib.Core.Logic.{inl, inr}
use mathlib.Core.Bool.{Bool, true, false, ◌&&◌}
use mathlib.Core.Option.{Option, none, some}
use mathlib.Core.List.{List, [], ◌∷◌, ◌++◌}

pub data State : Type 0 where
  start one two three after_e0 after_ed after_f0 after_f4 bad : State

abbrev between : ℕ → ℕ → ℕ → Bool
between lo hi b = leb lo b && leb b hi

-- The lead bytes and the lengths that they announce.
lead : ℕ → State
lead b =
    if is_ascii b
    then start
    else if between 0xc2 0xdf b
    then one
    else if b == 0xe0
    then after_e0
    else if b == 0xed
    then after_ed
    else if between 0xe1 0xef b
    then two
    else if b == 0xf0
    then after_f0
    else if between 0xf1 0xf3 b
    then three
    else if b == 0xf4
    then after_f4
    else bad

step : State → ℕ → State
step start b = lead b
step one b = if between 0x80 0xbf b then start else bad
step two b = if between 0x80 0xbf b then one else bad
step three b = if between 0x80 0xbf b then two else bad
step after_e0 b = if between 0xa0 0xbf b then one else bad
step after_ed b = if between 0x80 0x9f b then one else bad
step after_f0 b = if between 0x90 0xbf b then two else bad
step after_f4 b = if between 0x80 0x8f b then two else bad
step bad b = bad

abbrev is_start : State → Bool
is_start start = true
is_start _ = false

scan : State → List ℕ → Bool
scan s [] = is_start s
scan s (b ∷ bs) = scan (step s b) bs

unfoldable pub from_utf8 : List ℕ → Option (List ℕ)
unfolding lead step scan
from_utf8 bs = if scan start bs then some bs else none

scan-ascii : (bs : List ℕ) → all is_ascii bs ≡ true → scan start bs ≡ true
unfolding lead step scan
scan-ascii [] h = refl
scan-ascii (b ∷ bs) h = elim (Bool-cases (is_ascii b)) [
  | inl e ↦ rw e (scan-ascii bs (rw e at h))
  | inr e ↦ cc
]

-- Bytes of ASCII are a string.
pub from_utf8-ascii : (bs : List ℕ) → all is_ascii bs ≡ true → from_utf8 bs ≡ some bs
unfolding from_utf8
from_utf8-ascii bs h = rw (scan-ascii bs h)

-- The bits of a character that a lead byte carries, and how many bytes follow it.
abbrev lead_bits : ℕ → ℕ
lead_bits b = if leb b 0xdf then b % 32 else if leb b 0xef then b % 16 else b % 8

abbrev lead_count : ℕ → ℕ
lead_count b = if leb b 0xdf then 1 else if leb b 0xef then 2 else 3

-- The bytes still to come of a character, the bits so far, and the characters that a byte ends.
pub record Part : Type 0 where
  pub left : ℕ
  pub bits : ℕ
  pub done : List ℕ

abbrev part_step : ℕ → ℕ → ℕ → Part
part_step zero bits b =
    if is_ascii b
    then record { left = 0; bits = 0; done = b ∷ [] }
    else record { left = lead_count b; bits = lead_bits b; done = [] }
part_step (suc zero) bits b = record { left = 0; bits = 0; done = (bits * 64 + b % 64) ∷ [] }
part_step (suc (suc left)) bits b = record { left = suc left; bits = bits * 64 + b % 64; done = [] }

abbrev decode_from : ℕ → ℕ → List ℕ → List ℕ
decode_from left bits [] = []
decode_from left bits (b ∷ bs) =
    let p = part_step left bits b in p.done ++ decode_from p.left p.bits bs

-- The characters of bytes that are a string.
abbrev pub decode : List ℕ → List ℕ
decode bs = decode_from 0 0 bs
