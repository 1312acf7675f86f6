-- ===== src/Reader/Response/Safety/Own.antt =====
-- The cases of the response reader that the request reader does not have keep the invariant.
use boost_http.Base.{
  ℕ, ◌+◌, ◌-◌, ◌≤◌, ◌<◌, Option, some, length, ◌≡◌, arith, drop, length-drop, le→leb, min,
  get_elem?, get_elem?_of_lt,
}
use boost_http.Token.{Code}
use boost_http.Header.{Boost}
use boost_http.Syntax.Crlf.{crlf, lf, match_liberal}
use boost_http.Syntax.Crlf.LineEnds.{size_of-match_liberal}
use boost_http.Syntax.Match.Longest.{match_field_name-le, match_reason_phrase-le}
use boost_http.Syntax.StatusCode.Value.{match_status_code-le}
use boost_http.Reader.Request.Safety.Scans.{compare_static-IsBetween}
use boost_http.Reader.Response.State.{State, Response}
use boost_http.Reader.Response.Value.{value_field_name}
use boost_http.Reader.Response.StatusLine.{
  static_str, on_version_static_str, on_version, expect_space, on_sp_after_version, on_status_code,
  on_sp_after_status_code, on_reason_phrase,
}
use boost_http.Reader.Response.Fields.{
  see_transfer_encoding, see_content_length, see_field_name, on_field_name,
}
use boost_http.Reader.Response.Body.{
  until_eof, choose_body, end_headers, on_crlf_after_headers, on_unsafe_body,
}
use boost_http.Reader.Response.Safety.{Inv, Returns}

-- What every case of the second switch starts from.
pub record Ready (r : Response) : Type 0 where
  pub inv : Inv r
  pub unread : r.code ≡ Code.error_insufficient_data
  pub has_byte : r.idx < length r.ibuffer

module _ (r : Response) (h : Ready r) where
  rest_length : length (drop r.idx r.ibuffer) ≡ length r.ibuffer - r.idx
  rest_length = length-drop r.idx r.ibuffer

  first_byte : (c : ℕ) × (get_elem? r.ibuffer r.idx ≡ some c)
  first_byte = get_elem?_of_lt r.ibuffer r.idx h.has_byte

  pub on_version_static_str-Inv :
      r.state ≡ State.expect_version_static_str → Returns Inv (on_version_static_str r)
  unfolding on_version_static_str
  on_version_static_str-Inv s = ground (
    arith,
    le→leb (r.idx + r.token_size) (min (length r.ibuffer) (r.idx + length static_str)),
    h.inv.mirrors.in_bounds,
    h.inv.sound.partial_static h.unread s,
    length-drop (r.idx + r.token_size) r.ibuffer,
    length-drop r.token_size static_str,
    compare_static-IsBetween r.token_size (drop r.token_size static_str)
        (drop (r.idx + r.token_size) r.ibuffer),
  )

  pub on_version-Inv : r.state ≡ State.expect_version → Returns Inv (on_version r)
  unfolding on_version
  on_version-Inv s = let (c, e) = first_byte in rw e (ground arith)

  pub on_sp_after_version-Inv :
      r.state ≡ State.expect_sp_after_version → Returns Inv (on_sp_after_version r)
  unfolding on_sp_after_version expect_space
  on_sp_after_version-Inv s = let (c, e) = first_byte in rw e (ground arith)

  pub on_status_code-Inv : r.state ≡ State.expect_status_code → Returns Inv (on_status_code r)
  unfolding on_status_code
  on_status_code-Inv s = ground (arith, rest_length, match_status_code-le (drop r.idx r.ibuffer))

  pub on_sp_after_status_code-Inv :
      r.state ≡ State.expect_sp_after_status_code → Returns Inv (on_sp_after_status_code r)
  unfolding on_sp_after_status_code expect_space
  on_sp_after_status_code-Inv s = let (c, e) = first_byte in rw e (ground arith)

  pub on_reason_phrase-Inv : r.state ≡ State.expect_reason_phrase → Returns Inv (on_reason_phrase r)
  unfolding on_reason_phrase
  on_reason_phrase-Inv s =
      ground (arith, rest_length, match_reason_phrase-le (drop r.idx r.ibuffer))

  line_end :
      (match_liberal (drop r.idx r.ibuffer) ≡ crlf → 2 ≤ length r.ibuffer - r.idx)
      × (match_liberal (drop r.idx r.ibuffer) ≡ lf → 1 ≤ length r.ibuffer - r.idx)
  line_end =
      let le = size_of-match_liberal (drop r.idx r.ibuffer) in
      (λ e. omega (arith, rw e at le, rest_length), λ e. omega (arith, rw e at le, rest_length))

  pub end_headers-Inv :
      r.state ≡ State.expect_crlf_after_headers → Returns Inv (on_crlf_after_headers r)
  unfolding on_crlf_after_headers end_headers choose_body until_eof
  end_headers-Inv s = ground (arith, line_end.0, line_end.1)

  pub on_unsafe_body-Inv : r.state ≡ State.expect_unsafe_body → Returns Inv (on_unsafe_body r)
  unfolding on_unsafe_body
  on_unsafe_body-Inv s = ground (arith, rest_length)

  pub on_field_name-Inv :
      (b : Boost) (next : Response → Option Response)
      → r.state ≡ State.expect_field_name
      → Returns Inv (next (record r { state = State.expect_crlf_after_headers }))
      → Returns Inv (on_field_name b next r)
  unfolding on_field_name see_field_name see_transfer_encoding see_content_length value_field_name
  on_field_name-Inv b next s rec =
      ground (arith, rec, rest_length, match_field_name-le (drop r.idx r.ibuffer))
