-- ===== src/Prelude/Words.antt =====
-- Bytes and machine words as native numbers.
use Prim.Native.Nat.{ℕ, ◌/◌, ◌%◌, ◌^◌}
use mathlib.Core.Bool.{Bool, ◌&&◌, ◌||◌}
use crab_os.Prelude.Tests.{leb, ◌==◌}

-- `x & (1 << k) != 0`
abbrev pub has_bit : ℕ → ℕ → Bool
has_bit k x = (x / 2 ^ k) % 2 == 1

-- `u8::is_ascii`
abbrev pub is_ascii : ℕ → Bool
is_ascii b = leb b 127

-- `u8::is_ascii_graphic`
abbrev pub is_ascii_graphic : ℕ → Bool
is_ascii_graphic b = leb 33 b && leb b 126

-- `u8::is_ascii_whitespace`: space, tab, line feed, form feed and carriage return.
abbrev pub is_ascii_whitespace : ℕ → Bool
is_ascii_whitespace b = b == 32 || b == 9 || b == 10 || b == 12 || b == 13
