-- ===== src/Reader/Request/Trailers.antt =====
-- The cases of `request::next` for the trailers (request.ipp).
use boost_http.Base.{ℕ, Option, some, ◌==◌, length, drop, if◌then◌else◌}
use boost_http.Token.{Code}
use boost_http.Syntax.Match.{match_field_name, match_field_value, match_ows}
use boost_http.Reader.Request.State.{
  expect_method, expect_trailer_name, expect_trailer_colon, expect_ows_after_trailer_colon,
  expect_trailer_value, expect_crlf_after_trailer_value, expect_crlf_after_trailers, no_body,
  Request, emit,
}
use boost_http.Reader.Request.Fields.{expect_separator}
use boost_http.Reader.Request.Body.{expect_strict_crlf}

unfoldable pub on_trailer_name : (Request → Option Request) → Request → Option Request
on_trailer_name next r =
    let rest_view = drop r.idx r.ibuffer in
    let nmatched = match_field_name rest_view in
    if nmatched == 0
    then next (record r { state = expect_crlf_after_trailers })
    else if nmatched == length rest_view
    then some r
    else some (emit expect_trailer_colon Code.trailer_name nmatched r)

unfoldable pub on_trailer_colon : Request → Option Request
on_trailer_colon = expect_separator expect_ows_after_trailer_colon expect_trailer_value

unfoldable pub on_ows_after_trailer_colon : (Request → Option Request) → Request → Option Request
on_ows_after_trailer_colon next r =
    let nmatched = match_ows (drop r.idx r.ibuffer) in
    if nmatched == 0
    then next (record r { state = expect_trailer_value })
    else some (record r { code = Code.skip; token_size = nmatched })

-- The value is not decoded here.
unfoldable pub on_trailer_value : Request → Option Request
on_trailer_value r =
    let rest_view = drop r.idx r.ibuffer in
    let nmatched = match_field_value rest_view in
    some (
      if nmatched == length rest_view
      then r
      else emit expect_crlf_after_trailer_value Code.trailer_value nmatched r)

unfoldable pub on_crlf_after_trailer_value : Request → Option Request
on_crlf_after_trailer_value = expect_strict_crlf (emit expect_trailer_name Code.skip)

unfoldable pub end_trailers : ℕ → Request → Request
end_trailers nmatched r =
    emit expect_method Code.end_of_message nmatched (record r { body_type = no_body })

unfoldable pub on_crlf_after_trailers : Request → Option Request
on_crlf_after_trailers = expect_strict_crlf end_trailers
