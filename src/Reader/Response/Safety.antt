-- ===== src/Reader/Response/Safety.antt =====
-- The invariant of the response reader.
pub mod Shared
pub mod Own
pub mod Total
pub mod Fault
use boost_http.Base.{ℕ, ◌<◌, Bool, true, false, Option, none, some, length, ◌≡◌, ◌⊎◌}
use boost_http.Token.{Code}
use boost_http.Reader.Request
use boost_http.Reader.Request.Outcome.{is_failure}
use boost_http.Reader.Response.State.{State, BodyType, Response}
use boost_http.Reader.Response.StatusLine.{static_str, is_unknown}
use boost_http.Reader.Response.Mirror.{mirror}

-- The states of the second switch.
abbrev pub is_plain : State → Bool
is_plain State.errored = false
is_plain State.expect_end_of_body = false
is_plain State.expect_end_of_message = false
is_plain State.expect_end_of_connection_error = false
is_plain _ = true

abbrev pub is_errored : State → Bool
is_errored State.errored = true
is_errored _ = false

-- From the reason phrase to the end of the headers: the method is known.
abbrev pub in_headers : State → Bool
in_headers State.expect_reason_phrase = true
in_headers State.expect_crlf_after_reason_phrase = true
in_headers State.expect_field_name = true
in_headers State.expect_colon = true
in_headers State.expect_ows_after_colon = true
in_headers State.expect_field_value = true
in_headers State.expect_crlf_after_field_value = true
in_headers State.expect_crlf_after_headers = true
in_headers _ = false

-- The state that the headers lead to (RFC 7230, 3.3.3).
abbrev pub Framing : BodyType → ℕ → State → Type 0
Framing BodyType.force_no_body n s = s ≡ State.expect_end_of_body
Framing BodyType.force_no_body_and_stop n s =
    (s ≡ State.expect_end_of_body) ⊎ (s ≡ State.expect_unsafe_body)
Framing BodyType.chunked_encoding_read n s = s ≡ State.expect_chunk_size
Framing BodyType.content_length_read n s =
    (n ≡ 0 → s ≡ State.expect_end_of_body) × (0 < n → s ≡ State.expect_body)
Framing _ n s = ⊥

-- The codes that the reference of `response::code` says are never returned.
abbrev pub is_unused : Code → Bool
is_unused Code.error_no_host = true
is_unused Code.method = true
is_unused Code.request_target = true
is_unused _ = false

-- What holds of the members of the response reader alone.
pub record IsSound (r : Response) : Type 0 where
  pub known : in_headers r.state ≡ true → is_unknown r.body_type ≡ false
  pub partial_static :
      r.code ≡ Code.error_insufficient_data
      → r.state ≡ State.expect_version_static_str
      → r.token_size < length static_str
  pub status :
      r.code ≡ Code.status_code → (r.state ≡ State.expect_sp_after_status_code) × (r.token_size ≡ 3)
  pub failed : is_failure r.code ≡ is_errored r.state
  pub used : is_unused r.code ≡ false
  pub framed : r.code ≡ Code.end_of_headers → Framing r.body_type r.body_size r.state

-- With what the request reader's invariant says of its mirror: the token lies in the buffer, and
-- the body type is a READING one only between the name and the value of a field.
pub record Inv (r : Response) : Type 0 where
  pub mirrors : Request.Safety.Inv (mirror r)
  pub sound : IsSound r

-- The handler returns, and what it returns satisfies `P`.
abbrev pub Returns : (Response → Type 0) → Option Response → Type 0
Returns P none = ⊥
Returns P (some r) = P r

abbrev pub Gives : Option Response → Type 0
Gives none = Unit {0}
Gives (some r) = IsSound r
