-- ===== src/Net/Tests.antt =====
-- Runs of the web client of src/net/web.rs.
use crab_os.Prelude.{ℕ, ◌≡◌, refl, List, [], ◌∷◌, ◌++◌, reverse, arith}
use crab_os.Net.Web.{
  render_html, page_loop, page_step, tag_step, text_step, push_byte, matches_block,
}
use crab_os.Net.Web.Script.{open_tag, close_tag, escape, render_html-escape}
use crab_os.Net.Url.{parse, ok, scheme, is_host, is_path}
use crab_os.Net.Url.Accept.{Reads, parse-Reads}
use crab_os.Net.Url.Parse.{
  IsUrl, all-All, is_host-HostByte, is_path-PathByte, parse-host_path, parse-host_port_path,
}

-- `a <b &c`
abbrev sample : List ℕ
sample = b'a' ∷ b' ' ∷ b'<' ∷ b'b' ∷ b' ' ∷ b'&' ∷ b'c' ∷ []

render_html-escape_example : render_html (escape sample) [] ≡ reverse sample ++ []
render_html-escape_example = render_html-escape sample [] refl

abbrev host : List ℕ
host = b'e' ∷ b'.' ∷ b'c' ∷ []

abbrev tail : List ℕ
tail = b'a' ∷ b'?' ∷ []

at_80-IsUrl : IsUrl (record { host = host; port = 80; path = b'/' ∷ tail })
at_80-IsUrl = record {
  some_host = omega arith;
  host = all-All is_host host is_host-HostByte refl;
  port = omega arith;
  path = all-All is_path (b'/' ∷ tail) is_path-PathByte refl;
}

at_8080-IsUrl : IsUrl (record { host = host; port = 8080; path = b'/' ∷ tail })
at_8080-IsUrl = record {
  some_host = omega arith;
  host = all-All is_host host is_host-HostByte refl;
  port = omega arith;
  path = all-All is_path (b'/' ∷ tail) is_path-PathByte refl;
}

at_80_read :
    parse (scheme ++ (host ++ b'/' ∷ tail))
    ≡ ok (record { host = host; port = 80; path = b'/' ∷ tail })
at_80_read = parse-host_path host tail at_80-IsUrl

parse-host_port_path_example :
    parse (scheme ++ ((host ++ b':' ∷ (b'8' ∷ b'0' ∷ b'8' ∷ b'0' ∷ [])) ++ b'/' ∷ tail))
    ≡ ok (record { host = host; port = 8080; path = b'/' ∷ tail })
parse-host_port_path_example =
    parse-host_port_path host (b'8' ∷ b'0' ∷ b'8' ∷ b'0' ∷ []) 8080 tail at_8080-IsUrl refl

parse-Reads_example :
    Reads (scheme ++ (host ++ b'/' ∷ tail)) (record { host = host; port = 80; path = b'/' ∷ tail })
parse-Reads_example =
    parse-Reads (scheme ++ (host ++ b'/' ∷ tail))
      (record { host = host; port = 80; path = b'/' ∷ tail }) at_80_read

-- A `<` in a script takes the end of the script for its own tag, and the text behind is not shown.
text_behind_lost :
    render_html (open_tag ++ (b'a' ∷ b'<' ∷ b'b' ∷ [] ++ (close_tag ++ b'H' ∷ b'i' ∷ []))) [] ≡ []
unfolding render_html page_loop page_step tag_step text_step push_byte matches_block
text_behind_lost = refl
