-- ===== src/Shell/Line/Str.antt =====
-- A line that shows a text is a string: `as_str` returns the text and never panics.
use mathlib.Core.List.{append-nil, append_assoc}
use crab_os.Prelude.{
  ℕ, ◌-◌, ◌≡◌, refl, ap, ◌∙◌, sym, true, some, List, [], ◌∷◌, ◌++◌, reverse, arith, length, all,
  take, slice-eq_some, length-append, length-reverse, take-append, all-append, all-reverse,
  is_ascii, from_utf8-ascii,
}
use crab_os.Shell.Line.{Line, as_str, is_printable}
use crab_os.Shell.Line.Text
use crab_os.Shell.Line.Text.{Text}
use crab_os.Shell.Line.Refine.{Shows}

printable-ascii : (xs : List ℕ) → all is_printable xs ≡ true → all is_ascii xs ≡ true
printable-ascii [] h = refl
printable-ascii (x ∷ xs) h = ground (arith, printable-ascii xs)

-- The bytes of the text are printable.
pub to_list-printable : {l : Line} {t : Text} → Shows l t → all is_printable (Text.to_list t) ≡ true
to_list-printable {l} {t} s =
    all-append is_printable (reverse t.left) t.right (all-reverse is_printable t.left s.left)
      s.right

pub as_str-eq-to_list : {l : Line} {t : Text} → Shows l t → as_str l ≡ some (Text.to_list t)
unfolding as_str
as_str-eq-to_list {l} {t} s =
    let text = Text.to_list t in
    let whole : l.bytes ≡ text ++ s.rest =
      s.bytes ∙ sym (append_assoc (reverse t.left) t.right s.rest) in
    let size : l.len ≡ length text =
      omega (arith, length-append (reverse t.left) t.right, length-reverse t.left) in
    let cut : take (l.len - 0) l.bytes ≡ text =
      rw whole (take-append text s.rest (l.len - 0) 0 (omega arith) ∙ append-nil text) in
    rw
      (slice-eq_some l.bytes 0 l.len (omega arith)
        (rw whole (omega (arith, length-append text s.rest))))
      (rw cut (from_utf8-ascii text (printable-ascii text (to_list-printable s))))

-- The bytes that `as_str` reads.
abbrev pub line_text : Line → List ℕ
line_text l = take l.len l.bytes

line_text-eq-to_list : {l : Line} {t : Text} → Shows l t → line_text l ≡ Text.to_list t
line_text-eq-to_list {l} {t} s =
    let whole : l.bytes ≡ Text.to_list t ++ s.rest =
      s.bytes ∙ sym (append_assoc (reverse t.left) t.right s.rest) in
    rw whole (
      take-append (Text.to_list t) s.rest l.len 0
        (omega (arith, length-append (reverse t.left) t.right, length-reverse t.left))
      ∙ append-nil (Text.to_list t))

pub as_str-eq-line_text : {l : Line} {t : Text} → Shows l t → as_str l ≡ some (line_text l)
as_str-eq-line_text s = as_str-eq-to_list s ∙ ap some (sym (line_text-eq-to_list s))
