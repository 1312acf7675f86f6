-- ===== src/Reader/Response/Body.antt =====
-- The cases of `response::next` for the end of the headers, the body and the chunks (response.ipp).
use boost_http.Base.{
  ℕ, ◌+◌, ◌-◌, not, Option, none, some, ltb, ◌==◌, min, length, get_elem?, take, drop, scan,
  if◌then◌else◌, ◌>>=◌,
}
use boost_http.Token.{Code}
use boost_http.Abnf.{is_chunk_ext_char}
use boost_http.Syntax.Crlf.{
  Result, crlf, lf, insufficient_data, invalid_data, match_liberal, match_strict,
}
use boost_http.Syntax.Digits
use boost_http.Syntax.Digits.{invalid, ok, overflow, decode_chunk_size}
use boost_http.Syntax.Match.{match_chunk_size}
use boost_http.Reader.Response.State.{
  State, expect_body, expect_end_of_body, expect_chunk_size, expect_chunk_ext,
  expext_crlf_after_chunk_ext, expect_chunk_data, expect_crlf_after_chunk_data, expect_trailer_name,
  expect_unsafe_body, BodyType, connection_delimited, force_no_body, force_no_body_and_stop,
  content_length_read, chunked_encoding_read, random_encoding_read, Response, fail, emit,
}
use boost_http.Reader.Request.Fields.{body_size_max}

-- A body that ends with the connection.
unfoldable pub until_eof : Response → Response
until_eof r = record r {
  body_type = force_no_body_and_stop;
  state = expect_unsafe_body;
  code = Code.end_of_headers;
}

-- The switch on `body_type` at the end of the headers. `none` is BOOST_HTTP_DETAIL_UNREACHABLE.
unfoldable pub choose_body : BodyType → Response → Option Response
choose_body random_encoding_read r = some (until_eof r)
choose_body connection_delimited r = some (until_eof r)
choose_body force_no_body r =
    some (record r { state = expect_end_of_body; code = Code.end_of_headers })
choose_body force_no_body_and_stop r =
    some (record r { state = expect_end_of_body; code = Code.end_of_headers })
choose_body chunked_encoding_read r =
    some (record r { state = expect_chunk_size; code = Code.end_of_headers })
choose_body content_length_read r = some (record r {
  state = if r.body_size == 0 then expect_end_of_body else expect_body;
  code = Code.end_of_headers;
})
choose_body _ r = none

unfoldable pub end_headers : Result → Response → Option Response
end_headers crlf r = choose_body r.body_type (record r { token_size = 2 })
end_headers lf r = choose_body r.body_type (record r { token_size = 1 })
end_headers insufficient_data r = some r
end_headers invalid_data r = some (fail Code.error_invalid_data r)

unfoldable pub on_crlf_after_headers : Response → Option Response
on_crlf_after_headers r = end_headers (match_liberal (drop r.idx r.ibuffer)) r

-- The bytes at hand, up to what is left of the body or of the chunk.
unfoldable pub take_body : State → Response → Response
take_body after r =
    let size = min (length (drop r.idx r.ibuffer)) r.body_size in
    let left = r.body_size - size in
    record r {
      code = Code.body_chunk;
      token_size = size;
      body_size = left;
      state = if left == 0 then after else r.state;
    }

-- All that is at hand, up to the end of the connection.
unfoldable pub on_unsafe_body : Response → Option Response
on_unsafe_body r =
    some (record r { code = Code.body_chunk; token_size = length (drop r.idx r.ibuffer) })

unfoldable pub on_body : Response → Option Response
on_body r = some (take_body expect_end_of_body r)

-- The switch on the result of `chunk_size::decode`, which has set `body_size`.
unfoldable pub read_chunk_size : Digits.Result × ℕ → ℕ → Response → Response
read_chunk_size (invalid, n) size r = fail Code.error_invalid_data (record r { body_size = n })
read_chunk_size (overflow, n) size r =
    fail Code.error_chunk_size_overflow (record r { body_size = n })
read_chunk_size (ok, n) size r = emit expect_chunk_ext Code.skip size (record r { body_size = n })

unfoldable pub on_chunk_size : Response → Option Response
on_chunk_size r =
    let rest_view = drop r.idx r.ibuffer in
    let nmatched = match_chunk_size rest_view in
    some (
      if nmatched == 0
      then fail Code.error_invalid_data r
      else if nmatched == length rest_view
      then r
      else read_chunk_size (decode_chunk_size body_size_max (take nmatched rest_view) r.body_size)
          nmatched r)

-- `if (token_size_ == 0) return next();` behind the change of state.
unfoldable pub end_chunk_ext : (Response → Option Response) → Response → Option Response
end_chunk_ext next r =
    if r.token_size == 0 then next r else some (record r { code = Code.chunk_ext })

-- The byte at which the extension stops.
unfoldable pub stop_chunk_ext : (Response → Option Response) → ℕ → ℕ → Response → Option Response
stop_chunk_ext next c i r =
    if not (c == b'\r')
    then some (fail Code.error_invalid_data r)
    else end_chunk_ext next
        (record r { state = expext_crlf_after_chunk_ext; token_size = i - r.idx })

unfoldable pub on_chunk_ext : (Response → Option Response) → Response → Option Response
on_chunk_ext next r = scan is_chunk_ext_char r.ibuffer (r.idx + r.token_size) >>= λ i.
    if i == length r.ibuffer
    then some (record r { token_size = i - r.idx })
    else (get_elem? r.ibuffer i >>= λ c. stop_chunk_ext next c i r)

-- A strict line end: nothing before two bytes are there, and then `after`, or an error.
unfoldable pub expect_strict_crlf : (ℕ → Response → Response) → Response → Option Response
expect_strict_crlf after r =
    let rest_view = drop r.idx r.ibuffer in
    let nmatched = match_strict rest_view in
    some (
      if ltb (length rest_view) 2
      then r
      else if nmatched == 0
      then fail Code.error_invalid_data r
      else after nmatched r)

unfoldable pub end_chunk_line : ℕ → Response → Response
end_chunk_line nmatched r =
    if not (r.body_size == 0)
    then emit expect_chunk_data Code.skip nmatched r
    else emit expect_trailer_name Code.end_of_body nmatched r

unfoldable pub on_crlf_after_chunk_ext : Response → Option Response
on_crlf_after_chunk_ext = expect_strict_crlf end_chunk_line

unfoldable pub on_chunk_data : Response → Option Response
on_chunk_data r = some (take_body expect_crlf_after_chunk_data r)

unfoldable pub on_crlf_after_chunk_data : Response → Option Response
on_crlf_after_chunk_data = expect_strict_crlf (emit expect_chunk_size Code.skip)
