-- ===== src/Reader/Response/Mirror.antt =====
-- The cases that the two readers share: from the line end behind the reason phrase on, but for the
-- name of a field and the end of the headers, the response reader does what the request reader
-- does. The request reader's type is written with its module.
pub mod Cases
pub mod Whole
pub mod Carried
use boost_http.Base.{Bool, true, false, Option, none, some}
use boost_http.Reader.Request
use boost_http.Reader.Response.State.{State, BodyType, Response}

-- The states; the status line stands for the request line, and what the request reader lacks for
-- something near it.
abbrev pub mirror_state : State → Request.State.State
mirror_state State.errored = Request.State.errored
mirror_state State.expect_version_static_str = Request.State.expect_method
mirror_state State.expect_version = Request.State.expect_version
mirror_state State.expect_sp_after_version = Request.State.expect_sp_after_method
mirror_state State.expect_status_code = Request.State.expect_request_target
mirror_state State.expect_sp_after_status_code = Request.State.expect_sp_after_method
mirror_state State.expect_reason_phrase = Request.State.expect_trailer_value
mirror_state State.expect_crlf_after_reason_phrase = Request.State.expect_crlf_after_version
mirror_state State.expect_field_name = Request.State.expect_field_name
mirror_state State.expect_colon = Request.State.expect_colon
mirror_state State.expect_ows_after_colon = Request.State.expect_ows_after_colon
mirror_state State.expect_field_value = Request.State.expect_field_value
mirror_state State.expect_crlf_after_field_value = Request.State.expect_crlf_after_field_value
mirror_state State.expect_crlf_after_headers = Request.State.expect_crlf_after_headers
mirror_state State.expect_body = Request.State.expect_body
mirror_state State.expect_unsafe_body = Request.State.expect_body
mirror_state State.expect_end_of_body = Request.State.expect_end_of_body
mirror_state State.expect_end_of_message = Request.State.expect_end_of_message
mirror_state State.expect_end_of_connection_error = Request.State.expect_method
mirror_state State.expect_chunk_size = Request.State.expect_chunk_size
mirror_state State.expect_chunk_ext = Request.State.expect_chunk_ext
mirror_state State.expext_crlf_after_chunk_ext = Request.State.expext_crlf_after_chunk_ext
mirror_state State.expect_chunk_data = Request.State.expect_chunk_data
mirror_state State.expect_crlf_after_chunk_data = Request.State.expect_crlf_after_chunk_data
mirror_state State.expect_trailer_name = Request.State.expect_trailer_name
mirror_state State.expect_trailer_colon = Request.State.expect_trailer_colon
mirror_state State.expect_ows_after_trailer_colon = Request.State.expect_ows_after_trailer_colon
mirror_state State.expect_trailer_value = Request.State.expect_trailer_value
mirror_state State.expect_crlf_after_trailer_value = Request.State.expect_crlf_after_trailer_value
mirror_state State.expect_crlf_after_trailers = Request.State.expect_crlf_after_trailers

abbrev pub mirror_body : BodyType → Request.State.BodyType
mirror_body BodyType.content_length_read = Request.State.content_length_read
mirror_body BodyType.chunked_encoding_read = Request.State.chunked_encoding_read
mirror_body BodyType.random_encoding_read = Request.State.random_encoding_read
mirror_body BodyType.reading_content_length = Request.State.reading_content_length
mirror_body BodyType.reading_encoding = Request.State.reading_encoding
mirror_body _ = Request.State.no_body

-- The request reader with the same place in the same buffer.
abbrev pub mirror : Response → Request.State.Request
mirror r = record {
  version = Request.State.not_http_1_0_and_host_read;
  body_type = mirror_body r.body_type;
  body_size = r.body_size;
  state = mirror_state r.state;
  code = r.code;
  idx = r.idx;
  token_size = r.token_size;
  ibuffer = r.ibuffer;
}

abbrev pub mirrored : Option Response → Option Request.State.Request
mirrored none = none
mirrored (some r) = some (mirror r)

-- The cases that the readers share.
abbrev pub is_shared : State → Bool
is_shared State.expect_crlf_after_reason_phrase = true
is_shared State.expect_colon = true
is_shared State.expect_ows_after_colon = true
is_shared State.expect_field_value = true
is_shared State.expect_crlf_after_field_value = true
is_shared State.expect_body = true
is_shared State.expect_chunk_size = true
is_shared State.expect_chunk_ext = true
is_shared State.expext_crlf_after_chunk_ext = true
is_shared State.expect_chunk_data = true
is_shared State.expect_crlf_after_chunk_data = true
is_shared State.expect_trailer_name = true
is_shared State.expect_trailer_colon = true
is_shared State.expect_ows_after_trailer_colon = true
is_shared State.expect_trailer_value = true
is_shared State.expect_crlf_after_trailer_value = true
is_shared State.expect_crlf_after_trailers = true
is_shared _ = false
