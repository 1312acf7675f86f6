-- ===== src/Reader/Response/Method.antt =====
-- `response::set_method` (response.ipp).
use boost_http.Base.{
  ℕ, ◌/◌, ◌&&◌, ◌||◌, Option, some, [], ◌∷◌, ◌==◌, same, if◌then◌else◌, ◌>>=◌, Bytes,
}
use boost_http.Reader.Response.State.{
  connection_delimited, force_no_body, force_no_body_and_stop, Response,
}
use boost_http.Reader.Response.Value.{value_status_code}

abbrev pub head : Bytes
head = b'H' ∷ b'E' ∷ b'A' ∷ b'D' ∷ []

abbrev pub connect : Bytes
connect = b'C' ∷ b'O' ∷ b'N' ∷ b'N' ∷ b'E' ∷ b'C' ∷ b'T' ∷ []

-- What follows the value of the status code.
unfoldable pub frame : ℕ → Bytes → Response → Response
frame status_code method r =
    if status_code / 100 == 1 || status_code == 204 || status_code == 304 || same method head
    then record r { body_type = force_no_body; body_size = 0 }
    else if status_code / 100 == 2 && same method connect
    then record r { body_type = force_no_body_and_stop; body_size = 0 }
    else record r { body_type = connection_delimited }

-- The `assert` on the code is that of `value<token::status_code>()` too.
unfoldable pub set_method : Bytes → Response → Option Response
set_method method r = do status_code ← value_status_code r; some (frame status_code method r)
