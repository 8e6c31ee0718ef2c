-- ===== src/Net/Web/Script.antt =====
-- What `render_html` shows: nothing of a script, and the characters that escaped text stands for.
use mathlib.Core.List.{append_assoc, reverse-cons}
use crab_os.Prelude.{
  ℕ, ◌≡◌, refl, sym, subst, ◌∙◌, ap, Bool, true, false, not, ◌&&◌, ◌||◌, Bool-cases, inl, inr, List,
  [], ◌∷◌, ◌++◌, reverse, all, ◌==◌, ==_iff, if◌then◌else◌, is_ascii_graphic, is_ascii_whitespace,
  arith,
}
use crab_os.Net.Web.{ends_with, page_step, tag_step, text_step, push_byte, render_html, page_loop}
use crab_os.Net.Web.Render.{run, run_round}

-- `<script>` and `</script>`
abbrev pub open_tag : List ℕ
open_tag = b'<' ∷ b's' ∷ b'c' ∷ b'r' ∷ b'i' ∷ b'p' ∷ b't' ∷ b'>' ∷ []

abbrev pub close_tag : List ℕ
close_tag = b'<' ∷ b'/' ∷ b's' ∷ b'c' ∷ b'r' ∷ b'i' ∷ b'p' ∷ b't' ∷ b'>' ∷ []

abbrev pub is_inner : ℕ → Bool
is_inner c = not (c == b'<')

skip_hidden :
    (text more output : List ℕ)
    → all is_inner text ≡ true
    → run (record { body = text ++ more; hidden = true; output = output })
      ≡ run (record { body = more; hidden = true; output = output })
unfolding page_step text_step
skip_hidden [] more output h = refl
skip_hidden (c ∷ text) more output h =
    let e : (c == b'<') ≡ false = ground arith in
    run_round c (text ++ more) true output
    ∙ ap run (rw e refl)
    ∙ skip_hidden text more output (ground arith)

-- A script without `<` at the start of a body shows nothing, and rendering goes on behind its end.
render_html-script :
    (text more output : List ℕ)
    → all is_inner text ≡ true
    → render_html (open_tag ++ (text ++ (close_tag ++ more))) output ≡ render_html more output
unfolding render_html run page_step tag_step
render_html-script text more output h =
    run_round b'<' _ false output
    ∙ skip_hidden text (close_tag ++ more) output h
    ∙ run_round b'<' _ true output

-- Text as it is written in HTML.
abbrev pub escape_byte : ℕ → List ℕ
escape_byte c =
    if c == b'&'
    then b'&' ∷ b'a' ∷ b'm' ∷ b'p' ∷ b';' ∷ []
    else if c == b'<'
    then b'&' ∷ b'l' ∷ b't' ∷ b';' ∷ []
    else c ∷ []

abbrev pub escape : List ℕ → List ℕ
escape [] = []
escape (c ∷ text) = escape_byte c ++ escape text

show_byte :
    (c : ℕ) (rest output : List ℕ)
    → is_ascii_graphic c ≡ true
    → run (record { body = escape_byte c ++ rest; hidden = false; output = output })
      ≡ run (record { body = rest; hidden = false; output = c ∷ output })
unfolding page_step text_step push_byte
show_byte c rest output g = elim (Bool-cases (c == b'&')) [
  | inl a ↦ rw ((==_iff c b'&').0 a) (run_round b'&' _ false output)
  | inr a ↦ elim (Bool-cases (c == b'<')) [
    | inl l ↦ rw ((==_iff c b'<').0 l) (run_round b'&' _ false output)
    | inr l ↦
        let back : (b'&' == c) ≡ false = ground arith in
        let solid : is_ascii_whitespace c ≡ false = ground arith in
        rw (a, l) (run_round c rest false output ∙ ap run (rw (l, back, solid, g) refl))
  ]
]

-- Text of graphic ASCII bytes and single spaces. The first argument tells whether a space or a line feed
-- stands before the text.
abbrev pub single_spaced : Bool → List ℕ → Bool
single_spaced blank [] = true
single_spaced blank (c ∷ text) =
    if c == b' '
    then not blank && single_spaced true text
    else is_ascii_graphic c && single_spaced false text

-- The output ends with a space or a line feed.
abbrev pub ends_blank : List ℕ → Bool
ends_blank output = ends_with output b' ' || ends_with output 10

show_space :
    (rest output : List ℕ)
    → ends_blank output ≡ false
    → run (record { body = b' ' ∷ rest; hidden = false; output = output })
      ≡ run (record { body = rest; hidden = false; output = b' ' ∷ output })
unfolding page_step text_step push_byte
show_space rest output h =
    let a : ends_with output b' ' ≡ false = ground arith in
    let b : ends_with output 10 ≡ false = ground arith in
    run_round b' ' rest false output ∙ ap run (rw (a, b) refl)

show_text :
    (text output : List ℕ)
    → single_spaced (ends_blank output) text ≡ true
    → run (record { body = escape text; hidden = false; output = output }) ≡ reverse text ++ output
unfolding run page_loop
show_text [] output h = refl
show_text (c ∷ text) output h =
    let end : reverse text ++ c ∷ output ≡ reverse (c ∷ text) ++ output =
      simp (reverse-cons c text, append_assoc) in
    elim (Bool-cases (c == b' ')) [
      | inl e ↦
          let space : c ≡ b' ' = (==_iff c b' ').0 e in
          let after : single_spaced true text ≡ true = ground arith in
          let before : ends_blank output ≡ false = ground arith in
          let step : run
                (record { body = escape_byte c ++ escape text; hidden = false; output = output })
              ≡ run (record { body = escape text; hidden = false; output = c ∷ output }) =
            subst
              (λ (b : ℕ).
                run
                  (record { body = escape_byte b ++ escape text; hidden = false; output = output })
                ≡ run (record { body = escape text; hidden = false; output = b ∷ output }))
              (sym space) (show_space (escape text) output before) in
          let same : ends_blank (c ∷ output) ≡ true = rw e refl in
          step ∙ show_text text (c ∷ output) (rw same after) ∙ end
      | inr e ↦
          let graphic : is_ascii_graphic c ≡ true = ground arith in
          let after : single_spaced false text ≡ true = ground arith in
          let same : ends_blank (c ∷ output) ≡ false = ground arith in
          show_byte c (escape text) output graphic
          ∙ show_text text (c ∷ output) (rw same after)
          ∙ end
    ]

-- Graphic ASCII bytes and single spaces, written with `&amp;` and `&lt;` where HTML needs them, are shown
-- as they were behind any output, if a space at the start does not follow a space or a line feed.
pub render_html-escape :
    (text output : List ℕ)
    → single_spaced (ends_blank output) text ≡ true
    → render_html (escape text) output ≡ reverse text ++ output
unfolding render_html run
render_html-escape text output h = show_text text output h
