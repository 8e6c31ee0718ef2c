-- ===== src/Shell/Session/Cursor.antt =====
-- The cursor at the end of the line.
use mathlib.Core.List.{append_assoc, reverse-append, reverse-reverse}
use crab_os.Prelude.{
  refl, sym, ap, ◌∙◌, [], ◌++◌, reverse, arith, length-append, length-reverse, all-append,
  all-reverse,
}
use crab_os.Shell.Line.{Line, is_printable}
use crab_os.Shell.Line.Text.{Text, of_lists}
use crab_os.Shell.Line.Refine.{Shows}
use crab_os.Shell.Session.{line_at_end}

abbrev pub end_of : Text → Text
end_of t = of_lists (reverse t.right ++ t.left) [] t.overflow

module _ {l : Line} {t : Text} (s : Shows l t) where
  pub to_end-Shows : Shows (line_at_end l) (end_of t)
  to_end-Shows = record {
    rest = s.rest;
    bytes =
        s.bytes
        ∙ (sym (append_assoc (reverse t.left) t.right s.rest)
            ∙ ap (◌++ s.rest) (
                sym (
                  reverse-append (reverse t.right) t.left
                  ∙ ap (reverse t.left ++◌) (reverse-reverse t.right))));
    cursor =
        let e = s.len in
        omega (arith, length-append (reverse t.right) t.left, length-reverse t.right);
    len =
        let e = s.len in
        omega (arith, length-append (reverse t.right) t.left, length-reverse t.right);
    room =
        let e = s.room in
        omega (arith, length-append (reverse t.right) t.left, length-reverse t.right);
    overflow = s.overflow;
    left =
        all-append is_printable (reverse t.right) t.left (all-reverse is_printable t.right s.right)
          s.left;
    right = refl;
  }
