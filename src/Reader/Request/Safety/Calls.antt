-- ===== src/Reader/Request/Safety/Calls.antt =====
-- The cases that may call `next`, and the case of a field value.
use boost_http.Base.{
  take, ◌+◌, ◌-◌, ◌≤◌, ◌==◌, Option, length, ◌≡◌, ◌≢◌, refl, arith, span, span-le, length-drop,
  drop, get_elem?_of_lt, inl, inr, Bool-cases,
}
use boost_http.Token.{Code}
use boost_http.Abnf.{is_chunk_ext_char}
use boost_http.Header.{Boost, IsBoost}
use boost_http.Syntax.Match.{match_field_value, match_ows}
use boost_http.Syntax.Match.Longest.{match_field_name-le, match_field_value-le, match_ows-le}
use boost_http.Reader.Request.State.{
  expect_ows_after_colon, expect_field_value, expect_field_name, expect_crlf_after_field_value,
  expect_crlf_after_headers, expect_chunk_ext, expext_crlf_after_chunk_ext, expect_trailer_name,
  expect_ows_after_trailer_colon, expect_trailer_value, expect_crlf_after_trailers, Request, emit,
}
use boost_http.FieldValue.Trimmed.{decode_field_value-IsTrimmed}
use boost_http.Reader.Request.Value.{value_field_name, value_field_value}
use boost_http.Reader.Request.Fields.{
  see_host, see_transfer_encoding, see_content_length, see_field_name, on_field_name,
  on_ows_after_colon, see_field_value, on_field_value,
}
use boost_http.Reader.Request.Body.{end_chunk_ext, stop_chunk_ext, on_chunk_ext}
use boost_http.Reader.Request.Trailers.{on_trailer_name, on_ows_after_trailer_colon}
use boost_http.Reader.Request.Safety.{Inv, Returns, Ready}
use boost_http.Reader.Request.Safety.Scans.{scan-some, take-ne-nil, see_field_value-Inv}
use boost_http.Reader.Request.Safety.Cases.{rest_length}

module _ (r : Request) (h : Ready r) where
  pub on_chunk_ext-Inv :
      (next : Request → Option Request)
      → r.state ≡ expect_chunk_ext
      → ((r' : Request) → Ready r' → r'.state ≡ expext_crlf_after_chunk_ext → Returns Inv (next r'))
      → Returns Inv (on_chunk_ext next r)
  unfolding on_chunk_ext stop_chunk_ext end_chunk_ext
  on_chunk_ext-Inv next s rec =
      let n = span is_chunk_ext_char (drop (r.idx + r.token_size) r.ibuffer) in
      let i = r.idx + r.token_size + n in
      let le : i ≤ length r.ibuffer = omega (
        arith,
        h.inv.in_bounds,
        span-le is_chunk_ext_char (drop (r.idx + r.token_size) r.ibuffer),
        length-drop (r.idx + r.token_size) r.ibuffer,
      ) in
      rw (scan-some is_chunk_ext_char r.ibuffer (r.idx + r.token_size) h.inv.in_bounds)
        (elim (Bool-cases (i == length r.ibuffer)) [
          | inl all ↦ rw all (ground arith)
          | inr more ↦
              let (c, e) = get_elem?_of_lt r.ibuffer i (ground arith) in
              rw (more, e)
                (ground (
                  arith,
                  rec (record r { state = expext_crlf_after_chunk_ext; token_size = i - r.idx }),
                ))
        ])

  pub on_ows_after_colon-Inv :
      (next : Request → Option Request)
      → r.state ≡ expect_ows_after_colon
      → (match_ows (drop r.idx r.ibuffer) ≡ 0
          → Returns Inv (next (record r { state = expect_field_value })))
      → Returns Inv (on_ows_after_colon next r)
  unfolding on_ows_after_colon
  on_ows_after_colon-Inv next s rec =
      ground (arith, rec, rest_length r h, match_ows-le (drop r.idx r.ibuffer))

  pub on_ows_after_trailer_colon-Inv :
      (next : Request → Option Request)
      → r.state ≡ expect_ows_after_trailer_colon
      → Returns Inv (next (record r { state = expect_trailer_value }))
      → Returns Inv (on_ows_after_trailer_colon next r)
  unfolding on_ows_after_trailer_colon
  on_ows_after_trailer_colon-Inv next s rec =
      ground (arith, rec, rest_length r h, match_ows-le (drop r.idx r.ibuffer))

  pub on_trailer_name-Inv :
      (next : Request → Option Request)
      → r.state ≡ expect_trailer_name
      → Returns Inv (next (record r { state = expect_crlf_after_trailers }))
      → Returns Inv (on_trailer_name next r)
  unfolding on_trailer_name
  on_trailer_name-Inv next s rec =
      ground (arith, rec, rest_length r h, match_field_name-le (drop r.idx r.ibuffer))

  pub on_field_name-Inv :
      (b : Boost) (next : Request → Option Request)
      → r.state ≡ expect_field_name
      → Returns Inv (next (record r { state = expect_crlf_after_headers }))
      → Returns Inv (on_field_name b next r)
  unfolding on_field_name see_field_name see_host see_transfer_encoding see_content_length
      value_field_name
  on_field_name-Inv b next s rec =
      ground (arith, rec, rest_length r h, match_field_name-le (drop r.idx r.ibuffer))

  pub on_field_value-Inv :
      (b : Boost)
      → IsBoost b
      → r.state ≡ expect_field_value
      → match_field_value (drop r.idx r.ibuffer) ≢ 0
      → Returns Inv (on_field_value b r)
  unfolding on_field_value see_field_value value_field_value
  on_field_value-Inv b laws s ne =
      let v = drop r.idx r.ibuffer in
      let n = match_field_value v in
      let (value, e, _) =
        (decode_field_value-IsTrimmed (take n v)).0 (take-ne-nil n v ne (match_field_value-le v)) in
      let rest =
        see_field_value-Inv b laws r.body_type value
          (emit expect_crlf_after_field_value Code.field_value n r)
          (omega (arith, rest_length r h, match_field_value-le v, h.has_byte)) refl refl refl in
      rw e (ground (arith, rest, h.inv))
