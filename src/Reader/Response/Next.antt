-- ===== src/Reader/Response/Next.antt =====
-- `response::next` and `response::set_buffer` (response.ipp).
use boost_http.Base.{
  ℕ, zero, suc, ◌+◌, Bool, true, false, not, ◌||◌, Option, none, some, ◌==◌, length, if◌then◌else◌,
  Bytes,
}
use boost_http.Token.{Code}
use boost_http.Header.{Boost}
use boost_http.Reader.Request.Next.{is_insufficient}
use boost_http.Reader.Response.State.{
  State, errored, expect_version_static_str, expect_version, expect_sp_after_version,
  expect_status_code, expect_sp_after_status_code, expect_reason_phrase,
  expect_crlf_after_reason_phrase, expect_field_name, expect_colon, expect_ows_after_colon,
  expect_field_value, expect_crlf_after_field_value, expect_crlf_after_headers, expect_body,
  expect_unsafe_body, expect_end_of_body, expect_end_of_message, expect_end_of_connection_error,
  expect_chunk_size, expect_chunk_ext, expext_crlf_after_chunk_ext, expect_chunk_data,
  expect_crlf_after_chunk_data, expect_trailer_name, expect_trailer_colon,
  expect_ows_after_trailer_colon, expect_trailer_value, expect_crlf_after_trailer_value,
  expect_crlf_after_trailers, BodyType, unknown_body, force_no_body_and_stop, content_length_read,
  Response, fail,
}
use boost_http.Reader.Response.StatusLine.{
  on_version_static_str, on_version, on_sp_after_version, on_status_code, on_sp_after_status_code,
  on_reason_phrase, on_crlf_after_reason_phrase,
}
use boost_http.Reader.Response.Fields.{
  on_field_name, on_colon, on_ows_after_colon, on_field_value, on_crlf_after_field_value,
}
use boost_http.Reader.Response.Body.{
  on_crlf_after_headers, on_body, on_unsafe_body, on_chunk_size, on_chunk_ext,
  on_crlf_after_chunk_ext, on_chunk_data, on_crlf_after_chunk_data,
}
use boost_http.Reader.Response.Trailers.{
  on_trailer_name, on_trailer_colon, on_ows_after_trailer_colon, on_trailer_value,
  on_crlf_after_trailer_value, on_crlf_after_trailers,
}

-- The second switch, on a response with `idx < ibuffer.size()`. The last four states are
-- BOOST_HTTP_DETAIL_UNREACHABLE there.
unfoldable pub dispatch : Boost → (Response → Option Response) → State → Response → Option Response
dispatch b next expect_version_static_str r = on_version_static_str r
dispatch b next expect_version r = on_version r
dispatch b next expect_sp_after_version r = on_sp_after_version r
dispatch b next expect_status_code r = on_status_code r
dispatch b next expect_sp_after_status_code r = on_sp_after_status_code r
dispatch b next expect_reason_phrase r = on_reason_phrase r
dispatch b next expect_crlf_after_reason_phrase r = on_crlf_after_reason_phrase r
dispatch b next expect_field_name r = on_field_name b next r
dispatch b next expect_colon r = on_colon r
dispatch b next expect_ows_after_colon r = on_ows_after_colon next r
dispatch b next expect_field_value r = on_field_value b r
dispatch b next expect_crlf_after_field_value r = on_crlf_after_field_value r
dispatch b next expect_crlf_after_headers r = on_crlf_after_headers r
dispatch b next expect_body r = on_body r
dispatch b next expect_unsafe_body r = on_unsafe_body r
dispatch b next expect_chunk_size r = on_chunk_size r
dispatch b next expect_chunk_ext r = on_chunk_ext next r
dispatch b next expext_crlf_after_chunk_ext r = on_crlf_after_chunk_ext r
dispatch b next expect_chunk_data r = on_chunk_data r
dispatch b next expect_crlf_after_chunk_data r = on_crlf_after_chunk_data r
dispatch b next expect_trailer_name r = on_trailer_name next r
dispatch b next expect_trailer_colon r = on_trailer_colon r
dispatch b next expect_ows_after_trailer_colon r = on_ows_after_trailer_colon next r
dispatch b next expect_trailer_value r = on_trailer_value r
dispatch b next expect_crlf_after_trailer_value r = on_crlf_after_trailer_value r
dispatch b next expect_crlf_after_trailers r = on_crlf_after_trailers r
dispatch b next expect_end_of_body r = none
dispatch b next expect_end_of_message r = none
dispatch b next expect_end_of_connection_error r = none
dispatch b next errored r = none

-- Drops the token that was read, unless it is still being read.
unfoldable pub consume : Response → Response
consume r = if is_insufficient r.code then r else record r {
  idx = r.idx + r.token_size;
  token_size = 0;
  code = Code.error_insufficient_data;
}

-- The connection has ended where the buffer does.
unfoldable pub end_connection : State → Response → Response
end_connection expect_unsafe_body r = record r {
  state = expect_end_of_message;
  code = Code.end_of_body;
  token_size = 0;
}
end_connection _ r = fail Code.error_use_another_connection r

-- A body of known length of which bytes are missing.
abbrev pub is_short : BodyType → ℕ → Bool
is_short content_length_read body_size = not (body_size == 0)
is_short _ body_size = false

-- What follows the test `idx == ibuffer.size()`.
unfoldable pub on_end_of_buffer : State → Response → Response
on_end_of_buffer s r =
    if not r.eof_received || is_short r.body_type r.body_size then r else end_connection s r

unfoldable pub read_token :
    Boost → (Response → Option Response) → State → Response → Option Response
read_token b next s r =
    if r.idx == length r.ibuffer then some (on_end_of_buffer s r) else dispatch b next s r

-- Whether the connection ends behind the message.
unfoldable pub stops : BodyType → Response → Bool
stops force_no_body_and_stop r = true
stops _ r = r.http_1_0

-- The body of `next`, the states of the first switch first.
unfoldable pub next_in : Boost → (Response → Option Response) → State → Response → Option Response
next_in b next errored r = some r
next_in b next expect_end_of_body r = some (record r {
  state = expect_end_of_message;
  code = Code.end_of_body;
  idx = r.idx + r.token_size;
  token_size = 0;
})
next_in b next expect_end_of_message r = some (record r {
  body_type = unknown_body;
  state = if stops r.body_type r then expect_end_of_connection_error else expect_version_static_str;
  code = Code.end_of_message;
  idx = r.idx + r.token_size;
  token_size = 0;
})
next_in b next expect_end_of_connection_error r = some (fail Code.error_use_another_connection r)
next_in b next s r = read_token b next s (consume r)

-- `next` on fuel, for its calls of itself.
unfoldable pub next_fuel : Boost → ℕ → Response → Option Response
next_fuel b zero r = none
next_fuel b (suc fuel) r = next_in b (next_fuel b fuel) r.state r

-- A call of itself changes to a state that makes none.
unfoldable pub next : Boost → Response → Option Response
next b r = next_fuel b 2 r

-- `response::set_buffer`.
unfoldable pub set_buffer : Boost → Bytes → Response → Option Response
set_buffer b ibuffer r =
    let r' = record r { ibuffer = ibuffer; idx = 0 } in
    if is_insufficient r.code then next b r' else some r'
