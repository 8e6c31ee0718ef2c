-- ===== src/Prelude/Texts.antt =====
-- Texts as lists of code points, and numbers as `core::fmt` writes them.
use Prim.Native.Nat.{ℕ, zero, suc, ◌+◌, ◌-◌, ◌/◌, ◌%◌}
use Prim.Native.Char.{code}
use Prim.Native.String.{String}
use mathlib.Core.List.{List, [], ◌∷◌, ◌++◌, map}
use crab_os.Prelude.Tests.{ltb, if◌then◌else◌}
use crab_os.Prelude.Lists.{length, replicate}

-- The code points of a text literal.
abbrev pub codes : String → List ℕ
codes String.[] = []
codes (String.◌∷◌ c s) = code c ∷ codes s

-- The digits of a number, on fuel.
abbrev pub decimal_digits : ℕ → ℕ → List ℕ
decimal_digits zero n = []
decimal_digits (suc fuel) n =
    let more = decimal_digits fuel (n / 10) in
    if ltb n 10 then (b'0' + n) ∷ [] else more ++ (b'0' + n % 10) ∷ []

-- `{}` of a `u64`, which has twenty digits at most.
unfoldable pub decimal : ℕ → List ℕ
decimal n = decimal_digits 20 n

abbrev pub hex_digit : ℕ → ℕ
hex_digit n = if ltb n 10 then b'0' + n else b'a' + (n - 10)

-- `{:02x}` of a byte.
unfoldable pub hex_byte : ℕ → List ℕ
hex_byte n = hex_digit (n / 16 % 16) ∷ hex_digit (n % 16) ∷ []

-- `{:<width}` and `{:>width}` of a text.
abbrev pub pad_right : ℕ → List ℕ → List ℕ
pad_right width text = text ++ replicate (width - length text) b' '

abbrev pub pad_left : ℕ → List ℕ → List ℕ
pad_left width text = replicate (width - length text) b' ' ++ text

-- The texts one behind the other.
abbrev pub concat : List (List ℕ) → List ℕ
concat [] = []
concat (text ∷ texts) = text ++ concat texts

-- The texts with a separator between them.
abbrev pub join : List ℕ → List (List ℕ) → List ℕ
join separator [] = []
join separator (text ∷ texts) = text ++ concat (map (separator ++◌) texts)
