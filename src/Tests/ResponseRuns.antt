-- ===== src/Tests/ResponseRuns.antt =====
-- Whole responses through the model. Each result is the list of the tokens' codes and sizes.
use Prim.Native.String.{String}
use boost_http.Base.{
  ℕ, zero, suc, Bool, true, false, Option, some, List, [], ◌∷◌, ◌≡◌, refl, Bytes, ◌>>=◌, scan, span,
  same,
}
use boost_http.Token.{Code}
use boost_http.Abnf
use boost_http.Syntax.Chars
use boost_http.Syntax.Match.{
  match_chunk_size, match_field_name, match_field_value, match_ows, match_reason_phrase,
}
use boost_http.Syntax.StatusCode.{match_status_code, decode_status_code}
use boost_http.Syntax.Crlf.{match_strict, match_liberal}
use boost_http.Syntax.Digits.{decode_content_length, decode_chunk_size}
use boost_http.FieldValue.{decode_field_value}
use boost_http.Header.TransferEncoding.{decode_transfer_encoding}
use boost_http.Reader.Request.StartLine.{compare_static}
use boost_http.Reader.Request.Next.{is_insufficient}
use boost_http.Reader.Request.Outcome.{is_failure}
use boost_http.Reader.Response.State.{Response, construct, puteof}
use boost_http.Reader.Response.Value.{
  value_version, value_field_name, value_field_value, value_status_code,
}
use boost_http.Reader.Response.Method.{frame, set_method}
use boost_http.Reader.Response.StatusLine.{
  on_version_static_str, on_version, expect_space, on_sp_after_version, on_status_code,
  on_sp_after_status_code, on_reason_phrase, end_line, on_crlf_after_reason_phrase,
}
use boost_http.Reader.Response.Fields.{
  see_transfer_encoding, see_content_length, see_field_name, on_field_name, expect_separator,
  on_colon, on_ows_after_colon, read_content_length, read_encoding, see_field_value, on_field_value,
  on_crlf_after_field_value,
}
use boost_http.Reader.Response.Body.{
  until_eof, choose_body, end_headers, on_crlf_after_headers, take_body, on_body, on_unsafe_body,
  read_chunk_size, on_chunk_size, end_chunk_ext, stop_chunk_ext, on_chunk_ext, expect_strict_crlf,
  end_chunk_line, on_crlf_after_chunk_ext, on_chunk_data, on_crlf_after_chunk_data,
}
use boost_http.Reader.Response.Trailers.{
  on_trailer_name, on_trailer_colon, on_ows_after_trailer_colon, on_trailer_value,
  on_crlf_after_trailer_value, end_trailers, on_crlf_after_trailers,
}
use boost_http.Reader.Response.Next.{
  dispatch, consume, end_connection, on_end_of_buffer, read_token, stops, next_in, next_fuel, next,
  set_buffer,
}
use boost_http.Tests.Ascii.{ascii}
use boost_http.Tests.Runs.{bytes_of}

-- Unfolds the reader whole.
unfoldable pub response_ready : Bytes → Response → Option Response
unfolding construct puteof ascii set_buffer next next_fuel next_in read_token consume dispatch
    on_end_of_buffer end_connection stops same set_method frame value_status_code decode_status_code
    on_version_static_str compare_static expect_space on_sp_after_version match_status_code
    Chars.is_digit on_status_code on_sp_after_status_code on_reason_phrase match_reason_phrase
    Chars.is_reason_phrase_char end_line on_crlf_after_reason_phrase scan span Abnf.is_sp
    Abnf.is_ows Abnf.is_chunk_ext_char on_version value_version match_liberal match_strict
    match_chunk_size match_field_name match_field_value match_ows Chars.is_tchar Chars.is_hexdigit
    Chars.is_field_value_char Chars.is_ows see_transfer_encoding see_content_length see_field_name
    value_field_name value_field_value decode_field_value decode_content_length decode_chunk_size
    decode_transfer_encoding on_field_name expect_separator on_colon on_ows_after_colon
    read_content_length read_encoding see_field_value on_field_value on_crlf_after_field_value
    choose_body until_eof end_headers on_crlf_after_headers take_body on_body on_unsafe_body
    read_chunk_size on_chunk_size end_chunk_ext stop_chunk_ext on_chunk_ext expect_strict_crlf
    end_chunk_line on_crlf_after_chunk_ext on_chunk_data on_crlf_after_chunk_data on_trailer_name
    on_trailer_colon on_ows_after_trailer_colon on_trailer_value on_crlf_after_trailer_value
    end_trailers on_crlf_after_trailers
response_ready buffer r = set_buffer ascii buffer r

abbrev is_status : Code → Bool
is_status Code.status_code = true
is_status _ = false

tell : Bool → Bytes → Response → Option Response
unfolding response_ready
tell true method r = set_method method r
tell false method r = some r

-- The tokens up to the first that is an error, insufficient data included. The client sets the
-- method at the status code.
collect : Bytes → ℕ → Response → Option (List (Code × ℕ))
unfolding response_ready tell
collect method zero r = some []
collect method (suc fuel) r = elim (is_insufficient r.code) [
  | true ↦ some ((r.code, r.token_size) ∷ [])
  | false ↦ elim (is_failure r.code) [
    | true ↦ some ((r.code, r.token_size) ∷ [])
    | false ↦ tell (is_status r.code) method r >>= λ q. next ascii q >>= λ r'.
        collect method fuel r' >>= λ rest. some ((r.code, r.token_size) ∷ rest)
  ]
]

-- The input is all that the connection carries.
tokens_of : String → String → Option (List (Code × ℕ))
unfolding collect
tokens_of method text =
    response_ready (bytes_of text) (puteof (construct 77)) >>= collect (bytes_of method) 60

abbrev status_line : List (Code × ℕ) → List (Code × ℕ)
status_line rest =
    (Code.skip, 7)
    ∷ (Code.version, 1)
    ∷ (Code.skip, 1)
    ∷ (Code.status_code, 3)
    ∷ (Code.skip, 1)
    ∷ (Code.reason_phrase, 2)
    ∷ (Code.skip, 2)
    ∷ rest

-- A body up to the end of the connection.
delimited_run :
    tokens_of "GET" "HTTP/1.1 200 OK\r\n\r\nabc"
    ≡ some (
        status_line (
          (Code.end_of_headers, 2)
          ∷ (Code.body_chunk, 3)
          ∷ (Code.end_of_body, 0)
          ∷ (Code.end_of_message, 0)
          ∷ (Code.error_use_another_connection, 0)
          ∷ []))
unfolding tokens_of
delimited_run = refl

-- No body behind HEAD, whatever the fields say.
head_run :
    tokens_of "HEAD" "HTTP/1.1 200 OK\r\nContent-Length: 3\r\n\r\n"
    ≡ some (
        status_line (
          (Code.field_name, 14)
          ∷ (Code.skip, 2)
          ∷ (Code.field_value, 1)
          ∷ (Code.skip, 2)
          ∷ (Code.end_of_headers, 2)
          ∷ (Code.end_of_body, 0)
          ∷ (Code.end_of_message, 0)
          ∷ (Code.error_use_another_connection, 0)
          ∷ []))
unfolding tokens_of
head_run = refl

-- A body that is shorter than its length says: more data is asked for, though there is none.
short_run :
    tokens_of "GET" "HTTP/1.1 200 OK\r\nContent-Length: 3\r\n\r\nab"
    ≡ some (
        status_line (
          (Code.field_name, 14)
          ∷ (Code.skip, 2)
          ∷ (Code.field_value, 1)
          ∷ (Code.skip, 2)
          ∷ (Code.end_of_headers, 2)
          ∷ (Code.body_chunk, 2)
          ∷ (Code.error_insufficient_data, 0)
          ∷ []))
unfolding tokens_of
short_run = refl
