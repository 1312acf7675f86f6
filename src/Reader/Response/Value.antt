-- ===== src/Reader/Response/Value.antt =====
-- The `value<T>()` members of response.ipp. A failed `assert` and a read out of bounds are `none`.
use boost_http.Base.{
  ℕ, Bool, true, false, Option, none, some, get_elem?, take, drop, if◌then◌else◌, ◌>>=◌, Bytes,
}
use boost_http.Base.Int.{ℤ, sub_ℕ}
use boost_http.Token.{Code}
use boost_http.FieldValue.{decode_field_value}
use boost_http.Syntax.StatusCode.{decode_status_code}
use boost_http.Reader.Request.Value.{ChunkExt}
use boost_http.Reader.Response.State.{Response}

-- `view_type(data + idx, token_size_)`.
abbrev pub token_view : Response → Bytes
token_view r = take r.token_size (drop r.idx r.ibuffer)

view_if : Bool → Response → Option Bytes
view_if b r = if b then some (token_view r) else none

is_version : Code → Bool
is_version Code.version = true
is_version _ = false

is_status_code : Code → Bool
is_status_code Code.status_code = true
is_status_code _ = false

is_reason_phrase : Code → Bool
is_reason_phrase Code.reason_phrase = true
is_reason_phrase _ = false

is_name : Code → Bool
is_name Code.field_name = true
is_name Code.trailer_name = true
is_name _ = false

is_value : Code → Bool
is_value Code.field_value = true
is_value Code.trailer_value = true
is_value _ = false

is_chunk_ext : Code → Bool
is_chunk_ext Code.chunk_ext = true
is_chunk_ext _ = false

is_body_chunk : Code → Bool
is_body_chunk Code.body_chunk = true
is_body_chunk _ = false

is_trailer_name : Code → Bool
is_trailer_name Code.trailer_name = true
is_trailer_name _ = false

is_trailer_value : Code → Bool
is_trailer_value Code.trailer_value = true
is_trailer_value _ = false

-- `status_code::decode` asserts that the view has three bytes.
unfoldable pub value_status_code : Response → Option ℕ
unfolding view_if is_status_code
value_status_code r = do view ← view_if (is_status_code r.code) r; decode_status_code view

unfoldable pub value_reason_phrase : Response → Option Bytes
unfolding view_if is_reason_phrase
value_reason_phrase r = view_if (is_reason_phrase r.code) r

-- The byte is read as a value of 0 to 255.
unfoldable pub value_version : Response → Option ℤ
unfolding is_version
value_version r =
    if is_version r.code then (do c ← get_elem? r.ibuffer r.idx; some (sub_ℕ c b'0')) else none

unfoldable pub value_field_name : Response → Option Bytes
unfolding view_if is_name
value_field_name r = view_if (is_name r.code) r

unfoldable pub value_field_value : Response → Option Bytes
unfolding view_if is_value
value_field_value r = do raw ← view_if (is_value r.code) r; decode_field_value raw

unfoldable pub value_chunk_ext : Response → Option ChunkExt
unfolding view_if is_chunk_ext
value_chunk_ext r = do
  ext ← view_if (is_chunk_ext r.code) r
  some (record { chunk_size = r.body_size; ext = ext })

unfoldable pub value_body_chunk : Response → Option Bytes
unfolding view_if is_body_chunk
value_body_chunk r = view_if (is_body_chunk r.code) r

unfoldable pub value_trailer_name : Response → Option Bytes
unfolding view_if is_trailer_name
value_trailer_name r = view_if (is_trailer_name r.code) r

unfoldable pub value_trailer_value : Response → Option Bytes
unfolding view_if is_trailer_value
value_trailer_value r = do raw ← view_if (is_trailer_value r.code) r; decode_field_value raw
