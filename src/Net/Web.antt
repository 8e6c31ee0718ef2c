-- ===== src/Net/Web.antt =====
-- The web client of src/net/web.rs: what it shows of a response. Text and bytes are lists of bytes.
pub mod Bytes
pub mod Render
pub mod Script
pub mod Response
use crab_os.Prelude.{
  ℕ, zero, suc, ◌+◌, ◌-◌, Bool, true, false, not, ◌&&◌, ◌||◌, Option, none, some, List, [], ◌∷◌,
  ◌++◌, map, reverse, length, take, drop, any, leb, ◌==◌, if◌then◌else◌, is_ascii, is_ascii_graphic,
  is_ascii_whitespace,
}
use crab_os.Net.Web.Bytes.{
  starts_with, find, find_byte, split, to_ascii_lowercase, eq_ignore_ascii_case, is_ascii_control,
}

pub data WebError : Type 0 where
  invalid_response invalid_status : WebError

-- A name of the list in `matches_block`.
abbrev pub block_names : List (List ℕ)
block_names =
    (b'b' ∷ b'r' ∷ [])
    ∷ (b'p' ∷ [])
    ∷ (b'/' ∷ b'p' ∷ [])
    ∷ (b'd' ∷ b'i' ∷ b'v' ∷ [])
    ∷ (b'/' ∷ b'd' ∷ b'i' ∷ b'v' ∷ [])
    ∷ (b'l' ∷ b'i' ∷ [])
    ∷ (b'/' ∷ b'l' ∷ b'i' ∷ [])
    ∷ (b'h' ∷ b'1' ∷ [])
    ∷ (b'/' ∷ b'h' ∷ b'1' ∷ [])
    ∷ (b'h' ∷ b'2' ∷ [])
    ∷ (b'/' ∷ b'h' ∷ b'2' ∷ [])
    ∷ (b't' ∷ b'i' ∷ b't' ∷ b'l' ∷ b'e' ∷ [])
    ∷ (b'/' ∷ b't' ∷ b'i' ∷ b't' ∷ b'l' ∷ b'e' ∷ [])
    ∷ []

unfoldable pub matches_block : List ℕ → Bool
matches_block name = any (eq_ignore_ascii_case name) block_names

-- The entities and the characters that they stand for.
abbrev pub entities : List (List ℕ × ℕ)
entities =
    (b'&' ∷ b'a' ∷ b'm' ∷ b'p' ∷ b';' ∷ [], b'&')
    ∷ (b'&' ∷ b'l' ∷ b't' ∷ b';' ∷ [], b'<')
    ∷ (b'&' ∷ b'g' ∷ b't' ∷ b';' ∷ [], b'>')
    ∷ (b'&' ∷ b'q' ∷ b'u' ∷ b'o' ∷ b't' ∷ b';' ∷ [], b'"')
    ∷ (b'&' ∷ b'n' ∷ b'b' ∷ b's' ∷ b'p' ∷ b';' ∷ [], b' ')
    ∷ []

abbrev pub entity_at : List (List ℕ × ℕ) → List ℕ → Option (List ℕ × ℕ)
entity_at [] body = none
entity_at (e ∷ table) body =
    let later = entity_at table body in if starts_with e.0 body then some e else later

-- The output so far has its last character first, so that `push` puts one in front.
abbrev pub ends_with : List ℕ → ℕ → Bool
ends_with [] c = false
ends_with (d ∷ output) c = d == c

-- The variables of the loop: the body from `index` on, `hidden`, and the output.
pub record PageState : Type 0 where
  pub body : List ℕ
  pub hidden : Bool
  pub output : List ℕ

abbrev pub script : List ℕ
script = b's' ∷ b'c' ∷ b'r' ∷ b'i' ∷ b'p' ∷ b't' ∷ []

abbrev pub style : List ℕ
style = b's' ∷ b't' ∷ b'y' ∷ b'l' ∷ b'e' ∷ []

-- `xs.iter().position(p).unwrap_or(xs.len())`
abbrev pub position_or_length : (ℕ → Bool) → List ℕ → ℕ
position_or_length p [] = 0
position_or_length p (x ∷ xs) = let rest = position_or_length p xs in if p x then 0 else suc rest

abbrev pub name_of : List ℕ → List ℕ
name_of tag = take (position_or_length is_ascii_whitespace tag) tag

-- A tag: it hides, shows, or starts a line.
unfoldable pub tag_step : List ℕ → List ℕ → Bool → List ℕ → PageState
tag_step name rest hidden output =
    if eq_ignore_ascii_case name script || eq_ignore_ascii_case name style
    then record { body = rest; hidden = true; output = output }
    else if eq_ignore_ascii_case name (b'/' ∷ script) || eq_ignore_ascii_case name (b'/' ∷ style)
    then record { body = rest; hidden = false; output = output }
    else if not hidden && matches_block name && not (ends_with output 10)
    then record { body = rest; hidden = hidden; output = 10 ∷ output }
    else record { body = rest; hidden = hidden; output = output }

-- A byte that is shown as it is.
unfoldable pub push_byte : ℕ → List ℕ → List ℕ
push_byte byte output =
    if is_ascii_whitespace byte
    then (if not (ends_with output b' ') && not (ends_with output 10)
        then b' ' ∷ output
        else output)
    else if is_ascii_graphic byte
    then byte ∷ output
    else output

abbrev pub shown_step : ℕ → List ℕ → List ℕ → Option (List ℕ × ℕ) → PageState
shown_step byte rest output none = record {
  body = rest;
  hidden = false;
  output = push_byte byte output;
}
shown_step byte rest output (some (entity, character)) = record {
  body = drop (length entity) (byte ∷ rest);
  hidden = false;
  output = character ∷ output;
}

-- The part of a round behind the tags.
unfoldable pub text_step : ℕ → List ℕ → Bool → List ℕ → PageState
text_step byte rest true output = record { body = rest; hidden = true; output = output }
text_step byte rest false output = shown_step byte rest output (entity_at entities (byte ∷ rest))

abbrev pub round : ℕ → List ℕ → Bool → List ℕ → Option ℕ → PageState
round byte rest hidden output none = text_step byte rest hidden output
round byte rest hidden output (some end) =
    tag_step (name_of (take (end - 1) rest)) (drop end rest) hidden output

-- One round of the loop, at a byte of the body.
unfoldable pub page_step : ℕ → List ℕ → Bool → List ℕ → PageState
page_step byte rest hidden output =
    round byte rest hidden output (if byte == b'<' then find_byte b'>' (byte ∷ rest) else none)

-- The loop, on fuel: a round takes a byte at least.
unfoldable pub page_loop : ℕ → PageState → List ℕ
page_loop zero p = p.output
page_loop (suc fuel) p = elim p.body [
  | [] ↦ p.output
  | byte ∷ rest ↦ page_loop fuel (page_step byte rest p.hidden p.output)
]

unfoldable pub render_html : List ℕ → List ℕ → List ℕ
render_html body output =
    page_loop (length body) (record { body = body; hidden = false; output = output })

-- What is shown of a body that is no HTML.
abbrev pub is_shown : ℕ → Bool
is_shown byte = byte == 10 || byte == 9 || (is_ascii byte && not (is_ascii_control byte))

abbrev pub push_all : (ℕ → Bool) → List ℕ → List ℕ → List ℕ
push_all p [] output = output
push_all p (byte ∷ bytes) output = push_all p bytes (if p byte then byte ∷ output else output)

abbrev pub header_mark : List ℕ
header_mark = 13 ∷ 10 ∷ 13 ∷ 10 ∷ []

-- `b"content-type: text/html"`
abbrev pub html_type : List ℕ
html_type =
    b'c' ∷ b'o' ∷ b'n' ∷ b't' ∷ b'e' ∷ b'n' ∷ b't' ∷ b'-' ∷ b't' ∷ b'y' ∷ b'p' ∷ b'e' ∷ b':' ∷ b' '
    ∷ b't' ∷ b'e' ∷ b'x' ∷ b't' ∷ b'/' ∷ b'h' ∷ b't' ∷ b'm' ∷ b'l' ∷ []

abbrev pub is_html : List ℕ → Bool
is_html header = any (λ line. starts_with html_type (to_ascii_lowercase line)) (split 10 header)

-- The status line ends at the first line end, or with the header.
abbrev pub status_of : List ℕ → Option ℕ → List ℕ
status_of header none = header
status_of header (some status_end) = take status_end header

abbrev pub graphic_or_space : ℕ → Bool
graphic_or_space byte = is_ascii_graphic byte || byte == b' '

-- The status line, and then the body.
unfoldable pub render_parts : List ℕ → List ℕ → List ℕ → Option (List ℕ)
render_parts header body status =
    if not (starts_with (b'H' ∷ b'T' ∷ b'T' ∷ b'P' ∷ b'/' ∷ []) status)
    then none
    else (let output = 10 ∷ push_all graphic_or_space status [] in
        some (
          reverse
            (if is_html header then render_html body output else push_all is_shown body output)))

-- The two errors of `render`.
pub data Rendered : Type 0 where
  ok : List ℕ → Rendered
  err : WebError → Rendered

abbrev pub ok_or : WebError → Option (List ℕ) → Rendered
ok_or e none = err e
ok_or e (some output) = ok output

abbrev pub render_at : List ℕ → Option ℕ → Rendered
render_at response none = err invalid_response
render_at response (some header_end) =
    let header = take header_end response in
    ok_or invalid_status (
      render_parts header (drop (header_end + 4) response)
        (status_of header (find (13 ∷ 10 ∷ []) header)))

unfoldable pub render : List ℕ → Rendered
render response = render_at response (find header_mark response)
