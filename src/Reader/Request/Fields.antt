-- ===== src/Reader/Request/Fields.antt =====
-- The cases of `request::next` for the header fields (request.ipp).
use boost_http.Base.{
  ℕ, ◌+◌, ◌-◌, ◌^◌, not, Option, none, some, [], ◌∷◌, ◌==◌, length, get_elem?, drop, scan,
  if◌then◌else◌, ◌>>=◌, Bytes,
}
use boost_http.Token.{Code}
use boost_http.Abnf.{is_ows}
use boost_http.Syntax.Match.{match_field_name, match_field_value, match_ows}
use boost_http.Syntax.Digits.{Result, invalid, ok, overflow, decode_content_length}
use boost_http.Header.{Boost}
use boost_http.Header.TransferEncoding.{
  DecodeTransferEncodingResult, chunked_not_found, chunked_at_end, chunked_invalid,
  decode_transfer_encoding,
}
use boost_http.Reader.Request.State.{
  State, expect_colon, expect_ows_after_colon, expect_field_value, expect_crlf_after_field_value,
  expect_crlf_after_headers, Version, http_1_0, not_http_1_0_and_host_not_read,
  not_http_1_0_and_host_read, BodyType, no_body, content_length_read, chunked_encoding_read,
  random_encoding_read, reading_content_length, reading_encoding, Request, fail, emit,
}
use boost_http.Reader.Request.StartLine.{on_crlf_after_version}
use boost_http.Reader.Request.Value.{value_field_name, value_field_value}

-- The largest `uint_least64_t`, where that type has 64 bits.
abbrev pub body_size_max : ℕ
body_size_max = 2 ^ 64 - 1

abbrev pub host : Bytes
host = b'H' ∷ b'o' ∷ b's' ∷ b't' ∷ []

abbrev pub transfer_encoding : Bytes
transfer_encoding =
    b'T' ∷ b'r' ∷ b'a' ∷ b'n' ∷ b's' ∷ b'f' ∷ b'e' ∷ b'r' ∷ b'-' ∷ b'E' ∷ b'n' ∷ b'c' ∷ b'o' ∷ b'd'
    ∷ b'i' ∷ b'n' ∷ b'g' ∷ []

abbrev pub content_length : Bytes
content_length =
    b'C' ∷ b'o' ∷ b'n' ∷ b't' ∷ b'e' ∷ b'n' ∷ b't' ∷ b'-' ∷ b'L' ∷ b'e' ∷ b'n' ∷ b'g' ∷ b't' ∷ b'h'
    ∷ []

-- The three switches on the name of a field. `none` is BOOST_HTTP_DETAIL_UNREACHABLE.
unfoldable pub see_host : Version → Request → Option Request
see_host http_1_0 r = some r
see_host not_http_1_0_and_host_not_read r = some (record r { version = not_http_1_0_and_host_read })
see_host not_http_1_0_and_host_read r = some (fail Code.error_no_host r)

unfoldable pub see_transfer_encoding : BodyType → Request → Option Request
see_transfer_encoding content_length_read r = some (record r { body_type = reading_encoding })
see_transfer_encoding no_body r = some (record r { body_type = reading_encoding })
see_transfer_encoding random_encoding_read r = some (record r { body_type = reading_encoding })
see_transfer_encoding chunked_encoding_read r = some (fail Code.error_invalid_transfer_encoding r)
see_transfer_encoding _ r = none

unfoldable pub see_content_length : BodyType → Request → Option Request
see_content_length no_body r = some (record r { body_type = reading_content_length })
see_content_length content_length_read r = some (fail Code.error_invalid_content_length r)
see_content_length chunked_encoding_read r = some r
see_content_length random_encoding_read r = some r
see_content_length _ r = none

unfoldable pub see_field_name : Boost → Request → Option Request
see_field_name b r = do
  field ← value_field_name r
  if b.iequals field host
      then see_host r.version r
      else if b.iequals field transfer_encoding
      then see_transfer_encoding r.body_type r
      else if b.iequals field content_length
      then see_content_length r.body_type r
      else some r

-- `next` is the recursive call.
unfoldable pub on_field_name : Boost → (Request → Option Request) → Request → Option Request
on_field_name b next r =
    let rest_view = drop r.idx r.ibuffer in
    let nmatched = match_field_name rest_view in
    if nmatched == 0
    then next (record r { state = expect_crlf_after_headers })
    else if nmatched == length rest_view
    then some r
    else see_field_name b (emit expect_colon Code.field_name nmatched r)

-- A colon and the white space behind it: `blank` is the state while the buffer ends in it, and
-- `value` the state before another byte.
unfoldable pub expect_separator : State → State → Request → Option Request
expect_separator blank value r = do
  c ← get_elem? r.ibuffer r.idx
  if not (c == b':')
      then some (fail Code.error_invalid_data r)
      else (scan is_ows r.ibuffer (r.idx + 1) >>= λ i.
          some (emit (if i == length r.ibuffer then blank else value) Code.skip (i - r.idx) r))

unfoldable pub on_colon : Request → Option Request
on_colon = expect_separator expect_ows_after_colon expect_field_value

unfoldable pub on_ows_after_colon : (Request → Option Request) → Request → Option Request
on_ows_after_colon next r =
    let nmatched = match_ows (drop r.idx r.ibuffer) in
    if nmatched == 0
    then next (record r { state = expect_field_value })
    else some (record r { code = Code.skip; token_size = nmatched })

-- `case READING_CONTENT_LENGTH`, on the decoded result and the new `body_size`.
unfoldable pub read_content_length : Result × ℕ → Request → Request
read_content_length (invalid, n) r =
    fail Code.error_invalid_content_length
      (record r { body_type = content_length_read; body_size = n })
read_content_length (overflow, n) r =
    fail Code.error_content_length_overflow
      (record r { body_type = content_length_read; body_size = n })
read_content_length (ok, n) r = record r { body_type = content_length_read; body_size = n }

-- `case READING_ENCODING`.
unfoldable pub read_encoding : DecodeTransferEncodingResult → Request → Request
read_encoding chunked_invalid r = fail Code.error_invalid_transfer_encoding r
read_encoding chunked_not_found r = record r { body_type = random_encoding_read }
read_encoding chunked_at_end r = record r { body_type = chunked_encoding_read }

unfoldable pub see_field_value : Boost → BodyType → Bytes → Request → Option Request
see_field_value b reading_content_length field r =
    some (read_content_length (decode_content_length body_size_max field r.body_size) r)
see_field_value b reading_encoding field r = do
  res ← decode_transfer_encoding b field
  some (read_encoding res r)
see_field_value b _ field r = some r

-- The value is decoded whatever the field's name is.
unfoldable pub on_field_value : Boost → Request → Option Request
on_field_value b r =
    let rest_view = drop r.idx r.ibuffer in
    let nmatched = match_field_value rest_view in
    let r' = emit expect_crlf_after_field_value Code.field_value nmatched r in
    if nmatched == length rest_view
    then some r
    else (value_field_value r' >>= λ field. see_field_value b r'.body_type field r')

unfoldable pub on_crlf_after_field_value : Request → Option Request
on_crlf_after_field_value = on_crlf_after_version
