-- ===== src/Shell/Tests/Editor.antt =====
-- The line "ab c" with the cursor behind the b, and the editor's methods.
use crab_os.Prelude.{◌≡◌, refl, true, false, some, ◌∷◌, replicate}
use crab_os.Shell.Line.{Line, insert, delete_word}

abbrev line : Line
line = record {
  bytes = b'a' ∷ b'b' ∷ b' ' ∷ b'c' ∷ replicate 252 0;
  len = 4;
  cursor = 2;
  overflow = false;
}

type_x :
    insert line b'x'
    ≡ some (
      record {
        bytes = b'a' ∷ b'b' ∷ b'x' ∷ b' ' ∷ b'c' ∷ replicate 251 0;
        len = 5;
        cursor = 3;
        overflow = false;
      },
      true,
    )
unfolding insert
type_x = refl

erase_word :
    delete_word line
    ≡ some (record {
      bytes = b' ' ∷ b'c' ∷ b'c' ∷ b'c' ∷ replicate 252 0;
      len = 2;
      cursor = 0;
      overflow = false;
    })
unfolding delete_word
erase_word = refl
