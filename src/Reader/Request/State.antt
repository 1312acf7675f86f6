-- ===== src/Reader/Request/State.antt =====
-- The members of `class request` (request.hpp), its constructor, `reset`, the inspectors and
-- `expected_token`.
use boost_http.Base.{ℕ, [], Bytes}
use boost_http.Token.{Code, Symbol, Category, to_symbol, category_of_code}

pub data State : Type 0 where
  errored expect_method expect_sp_after_method expect_request_target : State
  expect_static_str_after_target expect_version expect_crlf_after_version : State
  expect_field_name expect_colon expect_ows_after_colon expect_field_value : State
  expect_crlf_after_field_value expect_crlf_after_headers expect_body : State
  expect_end_of_body expect_end_of_message expect_chunk_size expect_chunk_ext : State
  expext_crlf_after_chunk_ext expect_chunk_data expect_crlf_after_chunk_data : State
  expect_trailer_name expect_trailer_colon expect_ows_after_trailer_colon : State
  expect_trailer_value expect_crlf_after_trailer_value expect_crlf_after_trailers : State

pub data Version : Type 0 where
  http_1_0 not_http_1_0_and_host_not_read not_http_1_0_and_host_read : Version

pub data BodyType : Type 0 where
  no_body content_length_read chunked_encoding_read random_encoding_read : BodyType
  reading_content_length reading_encoding : BodyType

pub record Request : Type 0 where
  pub version : Version
  pub body_type : BodyType
  pub body_size : ℕ  -- uint_least64_t
  pub state : State
  pub code : Code
  pub idx : ℕ
  pub token_size : ℕ
  pub ibuffer : Bytes

-- `request::request()`. It leaves `version` and `body_size` as they are in memory.
unfoldable pub construct : Version → ℕ → Request
construct version body_size = record {
  version = version;
  body_type = no_body;
  body_size = body_size;
  state = expect_method;
  code = Code.error_insufficient_data;
  idx = 0;
  token_size = 0;
  ibuffer = [];
}

-- `request::reset()`.
unfoldable pub reset : Request → Request
reset r = record r {
  body_type = no_body;
  state = expect_method;
  code = Code.error_insufficient_data;
  idx = 0;
  token_size = 0;
  ibuffer = [];
}

-- `request::symbol()` and `request::category()`.
unfoldable pub symbol : Request → Symbol
unfolding to_symbol
symbol r = to_symbol r.code

unfoldable pub category : Request → Category
unfolding category_of_code
category r = category_of_code r.code

-- `request::parsed_count()`.
unfoldable pub parsed_count : Request → ℕ
parsed_count r = r.idx

-- The switch of `request::expected_token()`.
unfoldable pub expected_in : State → Request → Code
expected_in errored r = r.code
expected_in expect_method r = Code.method
expected_in expect_sp_after_method r = Code.skip
expected_in expect_static_str_after_target r = Code.skip
expected_in expect_crlf_after_version r = Code.skip
expected_in expect_colon r = Code.skip
expected_in expect_crlf_after_headers r = Code.skip
expected_in expect_ows_after_colon r = Code.skip
expected_in expect_crlf_after_field_value r = Code.skip
expected_in expect_chunk_size r = Code.skip
expected_in expext_crlf_after_chunk_ext r = Code.skip
expected_in expect_crlf_after_chunk_data r = Code.skip
expected_in expect_trailer_colon r = Code.skip
expected_in expect_ows_after_trailer_colon r = Code.skip
expected_in expect_crlf_after_trailer_value r = Code.skip
expected_in expect_crlf_after_trailers r = Code.skip
expected_in expect_request_target r = Code.request_target
expected_in expect_version r = Code.version
expected_in expect_field_name r = Code.field_name
expected_in expect_field_value r = Code.field_value
expected_in expect_chunk_ext r = Code.chunk_ext
expected_in expect_body r = Code.body_chunk
expected_in expect_chunk_data r = Code.body_chunk
expected_in expect_trailer_name r = Code.trailer_name
expected_in expect_trailer_value r = Code.trailer_value
expected_in expect_end_of_body r = Code.end_of_body
expected_in expect_end_of_message r = Code.end_of_message

unfoldable pub expected_token : Request → Code
unfolding expected_in
expected_token r = expected_in r.state r

-- Two ways that a handler ends: an error, and a token of `n` bytes.
abbrev pub fail : Code → Request → Request
fail c r = record r { state = errored; code = c }

abbrev pub emit : State → Code → ℕ → Request → Request
emit s c n r = record r { state = s; code = c; token_size = n }
