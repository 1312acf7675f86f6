-- ===== src/Reader/Response/State.antt =====
-- The members of `class response` (response.hpp), its constructor, `reset`, `puteof`, the
-- inspectors and `expected_token`.
use boost_http.Base.{ℕ, Bool, true, false, [], Bytes}
use boost_http.Token.{Code, Symbol, Category, to_symbol, category_of_code}

pub data State : Type 0 where
  errored expect_version_static_str expect_version expect_sp_after_version : State
  expect_status_code expect_sp_after_status_code expect_reason_phrase : State
  expect_crlf_after_reason_phrase expect_field_name expect_colon : State
  expect_ows_after_colon expect_field_value expect_crlf_after_field_value : State
  expect_crlf_after_headers expect_body expect_unsafe_body expect_end_of_body : State
  expect_end_of_message expect_end_of_connection_error expect_chunk_size : State
  expect_chunk_ext expext_crlf_after_chunk_ext expect_chunk_data : State
  expect_crlf_after_chunk_data expect_trailer_name expect_trailer_colon : State
  expect_ows_after_trailer_colon expect_trailer_value : State
  expect_crlf_after_trailer_value expect_crlf_after_trailers : State

pub data BodyType : Type 0 where
  unknown_body connection_delimited force_no_body force_no_body_and_stop : BodyType
  content_length_read chunked_encoding_read random_encoding_read : BodyType
  reading_content_length reading_encoding : BodyType

-- The first two fields are the bits EOF_RECEIVED and HTTP_1_0 of `connection_flags`, which has no
-- others.
pub record Response : Type 0 where
  pub eof_received : Bool
  pub http_1_0 : Bool
  pub body_type : BodyType
  pub body_size : ℕ  -- uint_least64_t
  pub state : State
  pub code : Code
  pub idx : ℕ
  pub token_size : ℕ
  pub ibuffer : Bytes

-- `response::response()`. It leaves `body_size` as it is in memory.
unfoldable pub construct : ℕ → Response
construct body_size = record {
  eof_received = false;
  http_1_0 = false;
  body_type = BodyType.unknown_body;
  body_size = body_size;
  state = State.expect_version_static_str;
  code = Code.error_insufficient_data;
  idx = 0;
  token_size = 0;
  ibuffer = [];
}

-- `response::reset()`.
unfoldable pub reset : Response → Response
reset r = record r {
  eof_received = false;
  http_1_0 = false;
  body_type = BodyType.unknown_body;
  state = State.expect_version_static_str;
  code = Code.error_insufficient_data;
  idx = 0;
  token_size = 0;
  ibuffer = [];
}

-- `response::puteof()`.
unfoldable pub puteof : Response → Response
puteof r = record r { eof_received = true }

-- `response::symbol()` and `response::category()`.
unfoldable pub symbol : Response → Symbol
unfolding to_symbol
symbol r = to_symbol r.code

unfoldable pub category : Response → Category
unfolding category_of_code
category r = category_of_code r.code

-- `response::parsed_count()`.
unfoldable pub parsed_count : Response → ℕ
parsed_count r = r.idx

-- The switch of `response::expected_token()`.
unfoldable pub expected_in : State → Response → Code
expected_in State.errored r = r.code
expected_in State.expect_version r = Code.version
expected_in State.expect_status_code r = Code.status_code
expected_in State.expect_reason_phrase r = Code.reason_phrase
expected_in State.expect_field_name r = Code.field_name
expected_in State.expect_field_value r = Code.field_value
expected_in State.expect_chunk_ext r = Code.chunk_ext
expected_in State.expect_body r = Code.body_chunk
expected_in State.expect_unsafe_body r = Code.body_chunk
expected_in State.expect_chunk_data r = Code.body_chunk
expected_in State.expect_trailer_name r = Code.trailer_name
expected_in State.expect_trailer_value r = Code.trailer_value
expected_in State.expect_end_of_body r = Code.end_of_body
expected_in State.expect_end_of_message r = Code.end_of_message
expected_in State.expect_end_of_connection_error r = Code.error_use_another_connection
expected_in State.expect_version_static_str r = Code.skip
expected_in State.expect_sp_after_version r = Code.skip
expected_in State.expect_sp_after_status_code r = Code.skip
expected_in State.expect_crlf_after_reason_phrase r = Code.skip
expected_in State.expect_colon r = Code.skip
expected_in State.expect_crlf_after_headers r = Code.skip
expected_in State.expect_ows_after_colon r = Code.skip
expected_in State.expect_crlf_after_field_value r = Code.skip
expected_in State.expect_chunk_size r = Code.skip
expected_in State.expext_crlf_after_chunk_ext r = Code.skip
expected_in State.expect_crlf_after_chunk_data r = Code.skip
expected_in State.expect_trailer_colon r = Code.skip
expected_in State.expect_ows_after_trailer_colon r = Code.skip
expected_in State.expect_crlf_after_trailer_value r = Code.skip
expected_in State.expect_crlf_after_trailers r = Code.skip

unfoldable pub expected_token : Response → Code
unfolding expected_in
expected_token r = expected_in r.state r

-- Two ways that a handler ends: an error, and a token of `n` bytes.
abbrev pub fail : Code → Response → Response
fail c r = record r { state = State.errored; code = c }

abbrev pub emit : State → Code → ℕ → Response → Response
emit s c n r = record r { state = s; code = c; token_size = n }
