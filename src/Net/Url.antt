-- ===== src/Net/Url.antt =====
-- `Url::parse` of src/net/web.rs, on the bytes of the text.
pub mod Search
pub mod Parse
pub mod Numeral
pub mod Accept
use crab_os.Prelude.{
  ℕ, zero, suc, ◌+◌, ◌-◌, ◌*◌, Bool, true, false, not, ◌&&◌, ◌||◌, Option, none, some, List, [],
  ◌∷◌, length, take, drop, all, leb, ◌==◌, if◌then◌else◌, is_ascii_graphic,
}
use crab_os.Net.Web.Bytes.{starts_with, find_byte}

pub record Url : Type 0 where
  pub host : List ℕ
  pub port : ℕ
  pub path : List ℕ

pub data UrlError : Type 0 where
  use_http invalid_port invalid_url : UrlError

pub data Parsed : Type 0 where
  ok : Url → Parsed
  err : UrlError → Parsed

-- `"http://"`
abbrev pub scheme : List ℕ
scheme = b'h' ∷ b't' ∷ b't' ∷ b'p' ∷ b':' ∷ b'/' ∷ b'/' ∷ []

-- The place of the last such byte.
abbrev pub rfind_or : Bool → Option ℕ → Option ℕ
rfind_or here none = if here then some 0 else none
rfind_or here (some i) = some (suc i)

abbrev pub rfind_byte : ℕ → List ℕ → Option ℕ
rfind_byte b [] = none
rfind_byte b (x ∷ xs) = rfind_or (x == b) (rfind_byte b xs)

abbrev pub is_digit : ℕ → Bool
is_digit c = leb b'0' c && leb c b'9'

-- `str::parse::<u16>`: a sign `+` may stand before the digits.
abbrev pub digits_from : ℕ → List ℕ → Option ℕ
digits_from n [] = some n
digits_from n (c ∷ digits) =
    let value = n * 10 + (c - b'0') in
    let rest = digits_from value digits in if is_digit c && leb value 0xffff then rest else none

abbrev pub parse_digits : List ℕ → Option ℕ
parse_digits [] = none
parse_digits (c ∷ digits) = digits_from 0 (c ∷ digits)

abbrev pub parse_u16 : List ℕ → Option ℕ
parse_u16 [] = none
parse_u16 (c ∷ digits) =
    let plain = digits_from 0 (c ∷ digits) in if c == b'+' then parse_digits digits else plain

abbrev pub is_alphanumeric : ℕ → Bool
is_alphanumeric c = is_digit c || (leb b'A' c && leb c b'Z') || (leb b'a' c && leb c b'z')

abbrev pub is_host : ℕ → Bool
is_host c = is_alphanumeric c || (c == b'.' || c == b'-')

abbrev pub is_path : ℕ → Bool
is_path c = is_ascii_graphic c && not (c == b'#')

abbrev pub is_empty : List ℕ → Bool
is_empty [] = true
is_empty (x ∷ xs) = false

-- `rest.find('/')`, and the two parts.
abbrev pub split_path : List ℕ → Option ℕ → List ℕ × List ℕ
split_path rest none = (rest, b'/' ∷ [])
split_path rest (some index) = (take index rest, drop index rest)

-- The host, and the port where it is a number. Without one it is 80.
abbrev pub split_port : List ℕ → Option ℕ → List ℕ × Option ℕ
split_port authority none = (authority, some 80)
split_port authority (some index) = (take index authority, parse_u16 (drop (index + 1) authority))

-- The last test.
unfoldable pub check : List ℕ → List ℕ → Option ℕ → Parsed
check host path none = err invalid_port
check host path (some port) =
    if is_empty host || (not (all is_host host) || (port == 0 || not (all is_path path)))
    then err invalid_url
    else ok (record { host = host; port = port; path = path })

abbrev pub parse_rest : List ℕ → List ℕ × List ℕ → Parsed
parse_rest rest (authority, path) =
    let r = split_port authority (rfind_byte b':' authority) in check r.0 path r.1

unfoldable pub parse : List ℕ → Parsed
parse input =
    if not (starts_with scheme input)
    then err use_http
    else parse_rest (drop 7 input) (split_path (drop 7 input) (find_byte b'/' (drop 7 input)))
