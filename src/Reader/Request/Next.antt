-- ===== src/Reader/Request/Next.antt =====
-- `request::next` and `request::set_buffer` (request.ipp).
use boost_http.Base.{
  ℕ, zero, suc, ◌+◌, Bool, true, false, Option, none, some, ◌==◌, length, if◌then◌else◌, Bytes,
}
use boost_http.Token.{Code}
use boost_http.Header.{Boost}
use boost_http.Reader.Request.State.{
  State, errored, expect_method, expect_sp_after_method, expect_request_target,
  expect_static_str_after_target, expect_version, expect_crlf_after_version, expect_field_name,
  expect_colon, expect_ows_after_colon, expect_field_value, expect_crlf_after_field_value,
  expect_crlf_after_headers, expect_body, expect_end_of_body, expect_end_of_message,
  expect_chunk_size, expect_chunk_ext, expext_crlf_after_chunk_ext, expect_chunk_data,
  expect_crlf_after_chunk_data, expect_trailer_name, expect_trailer_colon,
  expect_ows_after_trailer_colon, expect_trailer_value, expect_crlf_after_trailer_value,
  expect_crlf_after_trailers, no_body, Request,
}
use boost_http.Reader.Request.StartLine.{
  on_method, on_sp_after_method, on_request_target, on_static_str_after_target, on_version,
  on_crlf_after_version,
}
use boost_http.Reader.Request.Fields.{
  on_field_name, on_colon, on_ows_after_colon, on_field_value, on_crlf_after_field_value,
}
use boost_http.Reader.Request.Body.{
  on_crlf_after_headers, on_body, on_chunk_size, on_chunk_ext, on_crlf_after_chunk_ext,
  on_chunk_data, on_crlf_after_chunk_data,
}
use boost_http.Reader.Request.Trailers.{
  on_trailer_name, on_trailer_colon, on_ows_after_trailer_colon, on_trailer_value,
  on_crlf_after_trailer_value, on_crlf_after_trailers,
}

-- The second switch, on a request with `idx < ibuffer.size()`. The last three states are
-- BOOST_HTTP_DETAIL_UNREACHABLE there.
unfoldable pub dispatch : Boost → (Request → Option Request) → State → Request → Option Request
dispatch b next expect_method r = on_method r
dispatch b next expect_sp_after_method r = on_sp_after_method r
dispatch b next expect_request_target r = on_request_target r
dispatch b next expect_static_str_after_target r = on_static_str_after_target r
dispatch b next expect_version r = on_version r
dispatch b next expect_crlf_after_version r = on_crlf_after_version r
dispatch b next expect_field_name r = on_field_name b next r
dispatch b next expect_colon r = on_colon r
dispatch b next expect_ows_after_colon r = on_ows_after_colon next r
dispatch b next expect_field_value r = on_field_value b r
dispatch b next expect_crlf_after_field_value r = on_crlf_after_field_value r
dispatch b next expect_crlf_after_headers r = on_crlf_after_headers r
dispatch b next expect_body r = on_body r
dispatch b next expect_chunk_size r = on_chunk_size r
dispatch b next expect_chunk_ext r = on_chunk_ext next r
dispatch b next expext_crlf_after_chunk_ext r = on_crlf_after_chunk_ext r
dispatch b next expect_chunk_data r = on_chunk_data r
dispatch b next expect_crlf_after_chunk_data r = on_crlf_after_chunk_data r
dispatch b next expect_trailer_name r = on_trailer_name next r
dispatch b next expect_trailer_colon r = on_trailer_colon r
dispatch b next expect_ows_after_trailer_colon r = on_ows_after_trailer_colon next r
dispatch b next expect_trailer_value r = on_trailer_value r
dispatch b next expect_crlf_after_trailer_value r = on_crlf_after_trailer_value r
dispatch b next expect_crlf_after_trailers r = on_crlf_after_trailers r
dispatch b next expect_end_of_body r = none
dispatch b next expect_end_of_message r = none
dispatch b next errored r = none

abbrev pub is_insufficient : Code → Bool
is_insufficient Code.error_insufficient_data = true
is_insufficient _ = false

-- Drops the token that was read, unless it is still being read.
unfoldable pub consume : Request → Request
consume r = if is_insufficient r.code then r else record r {
  idx = r.idx + r.token_size;
  token_size = 0;
  code = Code.error_insufficient_data;
}

-- The test `idx == ibuffer.size()` and what follows it.
unfoldable pub read_token : Boost → (Request → Option Request) → State → Request → Option Request
read_token b next s r = if r.idx == length r.ibuffer then some r else dispatch b next s r

-- The body of `next`, the states of the first switch first.
unfoldable pub next_in : Boost → (Request → Option Request) → State → Request → Option Request
next_in b next errored r = some r
next_in b next expect_end_of_body r = some (record r {
  state = expect_end_of_message;
  code = Code.end_of_body;
  idx = r.idx + r.token_size;
  token_size = 0;
})
next_in b next expect_end_of_message r = some (record r {
  body_type = no_body;
  state = expect_method;
  code = Code.end_of_message;
  idx = r.idx + r.token_size;
  token_size = 0;
})
next_in b next s r = read_token b next s (consume r)

-- `next` on fuel, for its calls of itself.
unfoldable pub next_fuel : Boost → ℕ → Request → Option Request
next_fuel b zero r = none
next_fuel b (suc fuel) r = next_in b (next_fuel b fuel) r.state r

-- A call of itself changes to a state that makes none.
unfoldable pub next : Boost → Request → Option Request
next b r = next_fuel b 2 r

-- `request::set_buffer`.
unfoldable pub set_buffer : Boost → Bytes → Request → Option Request
set_buffer b ibuffer r =
    let r' = record r { ibuffer = ibuffer; idx = 0 } in
    if is_insufficient r.code then next b r' else some r'
