-- ===== src/Tests/Runs.antt =====
-- Whole requests through the model. Each result is the list of the tokens' codes and sizes.
use Prim.Native.Char.{code}
use Prim.Native.String.{String}
use boost_http.Base.{
  ℕ, zero, suc, true, false, Option, some, none, List, [], ◌∷◌, ◌≡◌, refl, Bytes, ◌>>=◌, scan, span,
}
use boost_http.Token.{Code}
use boost_http.Abnf
use boost_http.Syntax.Chars
use boost_http.Syntax.Match.{match_chunk_size, match_field_name, match_field_value, match_ows}
use boost_http.Syntax.Crlf.{match_strict, match_liberal}
use boost_http.Syntax.Digits.{decode_content_length, decode_chunk_size}
use boost_http.FieldValue.{decode_field_value}
use boost_http.Header.TransferEncoding.{decode_transfer_encoding}
use boost_http.Reader.Request.State.{Request, Version, construct}
use boost_http.Reader.Request.Value.{value_version, value_field_name, value_field_value}
use boost_http.Reader.Request.StartLine.{
  expect_word, on_method, on_sp_after_method, on_request_target, compare_static,
  on_static_str_after_target, read_version, on_version, end_line, on_crlf_after_version,
}
use boost_http.Reader.Request.Fields.{
  see_host, see_transfer_encoding, see_content_length, see_field_name, on_field_name,
  expect_separator, on_colon, on_ows_after_colon, read_content_length, read_encoding,
  see_field_value, on_field_value, on_crlf_after_field_value,
}
use boost_http.Reader.Request.Body.{
  choose_body, check_host, end_headers, on_crlf_after_headers, take_body, on_body, read_chunk_size,
  on_chunk_size, end_chunk_ext, stop_chunk_ext, on_chunk_ext, expect_strict_crlf, end_chunk_line,
  on_crlf_after_chunk_ext, on_chunk_data, on_crlf_after_chunk_data,
}
use boost_http.Reader.Request.Trailers.{
  on_trailer_name, on_trailer_colon, on_ows_after_trailer_colon, on_trailer_value,
  on_crlf_after_trailer_value, end_trailers, on_crlf_after_trailers,
}
use boost_http.Reader.Request.Next.{
  dispatch, is_insufficient, consume, read_token, next_in, next_fuel, next, set_buffer,
}
use boost_http.Reader.Request.Outcome.{is_failure}
use boost_http.Tests.Ascii.{ascii}

abbrev pub bytes_of : String → Bytes
bytes_of String.[] = []
bytes_of (String.◌∷◌ c s) = code c ∷ bytes_of s

abbrev pub fresh : Request
unfolding construct
fresh = construct Version.http_1_0 77

-- Unfolds the reader whole.
unfoldable pub ready : Bytes → Request → Option Request
unfolding construct ascii set_buffer next next_fuel next_in read_token consume dispatch on_method
    on_request_target expect_word scan span Abnf.is_tchar Abnf.is_sp Abnf.is_ows
    Abnf.is_chunk_ext_char Abnf.is_request_target_char on_sp_after_method on_static_str_after_target
    compare_static on_version read_version value_version on_crlf_after_version end_line
    match_liberal match_strict match_chunk_size match_field_name match_field_value match_ows
    Chars.is_tchar Chars.is_hexdigit Chars.is_field_value_char Chars.is_ows see_host
    see_transfer_encoding see_content_length see_field_name value_field_name value_field_value
    decode_field_value decode_content_length decode_chunk_size decode_transfer_encoding
    on_field_name expect_separator on_colon on_ows_after_colon read_content_length read_encoding
    see_field_value on_field_value on_crlf_after_field_value choose_body check_host end_headers
    on_crlf_after_headers take_body on_body read_chunk_size on_chunk_size end_chunk_ext
    stop_chunk_ext on_chunk_ext expect_strict_crlf end_chunk_line on_crlf_after_chunk_ext
    on_chunk_data on_crlf_after_chunk_data on_trailer_name on_trailer_colon
    on_ows_after_trailer_colon on_trailer_value on_crlf_after_trailer_value end_trailers
    on_crlf_after_trailers
ready buffer r = set_buffer ascii buffer r

-- The tokens up to the first that is an error, insufficient data included.
collect : ℕ → Request → Option (List (Code × ℕ))
unfolding ready
collect zero r = some []
collect (suc fuel) r = elim (is_insufficient r.code) [
  | true ↦ some ((r.code, r.token_size) ∷ [])
  | false ↦ elim (is_failure r.code) [
    | true ↦ some ((r.code, r.token_size) ∷ [])
    | false ↦
        next ascii r >>= λ r'. collect fuel r' >>= λ rest. some ((r.code, r.token_size) ∷ rest)
  ]
]

tokens_of : String → Option (List (Code × ℕ))
unfolding collect
tokens_of text = ready (bytes_of text) fresh >>= collect 60

simple :
    tokens_of "GET / HTTP/1.1\r\nHost: x\r\nContent-Length: 3\r\n\r\nabc"
    ≡ some (
        (Code.method, 3)
        ∷ (Code.skip, 1)
        ∷ (Code.request_target, 1)
        ∷ (Code.skip, 8)
        ∷ (Code.version, 1)
        ∷ (Code.skip, 2)
        ∷ (Code.field_name, 4)
        ∷ (Code.skip, 2)
        ∷ (Code.field_value, 1)
        ∷ (Code.skip, 2)
        ∷ (Code.field_name, 14)
        ∷ (Code.skip, 2)
        ∷ (Code.field_value, 1)
        ∷ (Code.skip, 2)
        ∷ (Code.end_of_headers, 2)
        ∷ (Code.body_chunk, 3)
        ∷ (Code.end_of_body, 0)
        ∷ (Code.end_of_message, 0)
        ∷ (Code.error_insufficient_data, 0)
        ∷ [])
unfolding tokens_of
simple = refl

chunked_run :
    tokens_of
      "PUT /a HTTP/1.1\r\nHost: x\r\nTransfer-Encoding: chunked\r\n\r\n5;e=1\r\nhello\r\n0\r\nT: v\r\n\r\n"
    ≡ some (
        (Code.method, 3)
        ∷ (Code.skip, 1)
        ∷ (Code.request_target, 2)
        ∷ (Code.skip, 8)
        ∷ (Code.version, 1)
        ∷ (Code.skip, 2)
        ∷ (Code.field_name, 4)
        ∷ (Code.skip, 2)
        ∷ (Code.field_value, 1)
        ∷ (Code.skip, 2)
        ∷ (Code.field_name, 17)
        ∷ (Code.skip, 2)
        ∷ (Code.field_value, 7)
        ∷ (Code.skip, 2)
        ∷ (Code.end_of_headers, 2)
        ∷ (Code.skip, 1)
        ∷ (Code.chunk_ext, 4)
        ∷ (Code.skip, 2)
        ∷ (Code.body_chunk, 5)
        ∷ (Code.skip, 2)
        ∷ (Code.skip, 1)
        ∷ (Code.end_of_body, 2)
        ∷ (Code.trailer_name, 1)
        ∷ (Code.skip, 2)
        ∷ (Code.trailer_value, 1)
        ∷ (Code.skip, 2)
        ∷ (Code.end_of_message, 2)
        ∷ (Code.error_insufficient_data, 0)
        ∷ [])
unfolding tokens_of
chunked_run = refl

-- An HTTP/1.1 request with no Host field is refused at the end of its headers.
no_host :
    tokens_of "GET / HTTP/1.1\r\n\r\n"
    ≡ some (
        (Code.method, 3)
        ∷ (Code.skip, 1)
        ∷ (Code.request_target, 1)
        ∷ (Code.skip, 8)
        ∷ (Code.version, 1)
        ∷ (Code.skip, 2)
        ∷ (Code.error_no_host, 2)
        ∷ [])
unfolding tokens_of
no_host = refl

-- A field with an empty value: the reader is undefined.
empty_value : tokens_of "GET / HTTP/1.1\r\nA:\r\n\r\n" ≡ none
unfolding tokens_of
empty_value = refl
