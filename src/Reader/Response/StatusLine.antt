-- ===== src/Reader/Response/StatusLine.antt =====
-- The cases of `response::next` for the status line (response.ipp): each is a function of the
-- response behind the switch's preamble, where `idx < ibuffer.size()`.
use boost_http.Base.{
  ◌+◌, Bool, true, false, ◌||◌, Option, none, some, [], ◌∷◌, ltb, leb, ◌==◌, min, length, get_elem?,
  drop, if◌then◌else◌, ◌>>=◌, Bytes,
}
use boost_http.Token.{Code}
use boost_http.Abnf.{is_sp}
use boost_http.Syntax.Crlf.{Result, crlf, lf, insufficient_data, invalid_data, match_liberal}
use boost_http.Syntax.Match.{match_reason_phrase}
use boost_http.Syntax.StatusCode.{match_status_code}
use boost_http.Reader.Request.StartLine.{compare_static}
use boost_http.Reader.Response.State.{
  State, expect_version, expect_sp_after_version, expect_status_code, expect_sp_after_status_code,
  expect_reason_phrase, expect_crlf_after_reason_phrase, expect_field_name, BodyType, unknown_body,
  Response, fail, emit,
}

-- "HTTP/1."
abbrev pub static_str : Bytes
static_str = b'H' ∷ b'T' ∷ b'T' ∷ b'P' ∷ b'/' ∷ b'1' ∷ b'.' ∷ []

-- The loop ends only if it starts at or below `count`.
unfoldable pub on_version_static_str : Response → Option Response
on_version_static_str r =
    if leb (r.idx + r.token_size) (min (length r.ibuffer) (r.idx + length static_str))
    then some
        (elim (compare_static r.token_size (drop r.token_size static_str)
          (drop (r.idx + r.token_size) r.ibuffer)) [
            | none ↦ fail Code.error_invalid_data r
            | some k ↦
                if k == length static_str
                then emit expect_version Code.skip k r
                else record r { token_size = k }
          ])
    else none

unfoldable pub on_version : Response → Option Response
on_version r = do
  c ← get_elem? r.ibuffer r.idx
  some (
      if ltb c b'0' || ltb b'9' c
      then fail Code.error_invalid_data r
      else emit expect_sp_after_version Code.version 1
          (if c == b'0' then record r { http_1_0 = true } else r))

-- One space.
unfoldable pub expect_space : State → Response → Option Response
expect_space after r = do
  c ← get_elem? r.ibuffer r.idx
  some (if is_sp c then emit after Code.skip 1 r else fail Code.error_invalid_data r)

unfoldable pub on_sp_after_version : Response → Option Response
on_sp_after_version = expect_space expect_status_code

unfoldable pub on_status_code : Response → Option Response
on_status_code r =
    let rest_view = drop r.idx r.ibuffer in
    let nmatched = match_status_code rest_view in
    some (
      if ltb (length rest_view) 3
      then r
      else if nmatched == 0
      then fail Code.error_invalid_data r
      else emit expect_sp_after_status_code Code.status_code nmatched r)

-- The test that the client has called `set_method`.
abbrev pub is_unknown : BodyType → Bool
is_unknown unknown_body = true
is_unknown _ = false

unfoldable pub on_sp_after_status_code : Response → Option Response
on_sp_after_status_code r =
    if is_unknown r.body_type
    then some (fail Code.error_set_method r)
    else expect_space expect_reason_phrase r

unfoldable pub on_reason_phrase : Response → Option Response
on_reason_phrase r =
    let rest_view = drop r.idx r.ibuffer in
    let nmatched = match_reason_phrase rest_view in
    some (
      if nmatched == length rest_view
      then r
      else emit expect_crlf_after_reason_phrase Code.reason_phrase nmatched r)

-- What the result of `liberal_crlf::match` does behind the reason phrase and behind a field value.
unfoldable pub end_line : Result → Response → Response
end_line crlf r = emit expect_field_name Code.skip 2 r
end_line lf r = emit expect_field_name Code.skip 1 r
end_line insufficient_data r = r
end_line invalid_data r = fail Code.error_invalid_data r

unfoldable pub on_crlf_after_reason_phrase : Response → Option Response
on_crlf_after_reason_phrase r = some (end_line (match_liberal (drop r.idx r.ibuffer)) r)
