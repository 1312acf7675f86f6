-- ===== src/Reader/Request/Safety.antt =====
-- The invariant of the request reader.
pub mod Scans
pub mod Cases
pub mod Calls
pub mod Plain
pub mod Dispatch
pub mod Total
pub mod Fault
pub mod Fuel
pub mod Entry
use boost_http.Base.{ℕ, ◌+◌, ◌≤◌, ◌<◌, Bool, true, false, Option, none, some, length, ◌≡◌}
use boost_http.Token.{Code}
use boost_http.Reader.Request.State.{
  State, errored, expect_static_str_after_target, expect_colon, expect_ows_after_colon,
  expect_field_value, BodyType, reading_content_length, reading_encoding, Request,
}
use boost_http.Reader.Request.StartLine.{static_str}

-- A field whose value decides the body was named, and its value is still to come.
abbrev pub is_reading : BodyType → Bool
is_reading reading_content_length = true
is_reading reading_encoding = true
is_reading _ = false

-- The states between a field's name and its value.
abbrev pub awaits_value : State → Bool
awaits_value errored = true
awaits_value expect_colon = true
awaits_value expect_ows_after_colon = true
awaits_value expect_field_value = true
awaits_value _ = false

pub record Inv (r : Request) : Type 0 where
  pub in_bounds : r.idx + r.token_size ≤ length r.ibuffer
  pub reading : is_reading r.body_type ≡ true → awaits_value r.state ≡ true
  pub partial_static :
      r.code ≡ Code.error_insufficient_data
      → r.state ≡ expect_static_str_after_target
      → r.token_size < length static_str

-- The handler returns, and what it returns satisfies `P`.
abbrev pub Returns : (Request → Type 0) → Option Request → Type 0
Returns P none = ⊥
Returns P (some r) = P r

-- What every case of the second switch starts from.
pub record Ready (r : Request) : Type 0 where
  pub inv : Inv r
  pub unread : r.code ≡ Code.error_insufficient_data
  pub has_byte : r.idx < length r.ibuffer
