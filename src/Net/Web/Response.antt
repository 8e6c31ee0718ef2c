-- ===== src/Net/Web/Response.antt =====
-- `render`: its errors, and that the terminal gets printable characters only.
use crab_os.Prelude.{ℕ, ◌≡◌, ◌⊎◌, false, none, some, List, [], ◌∷◌, take, All}
use crab_os.Net.Web.Bytes.{find, starts_with}
use crab_os.Net.Web.{ok, err, invalid_response, invalid_status, status_of, header_mark, render}
use crab_os.Net.Web.Render.{Visible}

abbrev http : List ℕ
http = b'H' ∷ b'T' ∷ b'T' ∷ b'P' ∷ b'/' ∷ []

-- A response without an empty line, one whose first line is no status, or what is shown.
pub record Outcome (response : List ℕ) : Type 0 where
  pub result :
      ((render response ≡ err invalid_response) × (find header_mark response ≡ none))
      ⊎ ((end : ℕ) × (find header_mark response ≡ some end)
          × (((render response ≡ err invalid_status)
                × (starts_with http
                      (status_of (take end response) (find (13 ∷ 10 ∷ []) (take end response)))
                    ≡ false))
              ⊎ ((output : List ℕ) × (render response ≡ ok output) × All Visible output)))
