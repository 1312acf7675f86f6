-- ===== src/Reader/Request/Safety/Cases.antt =====
-- The cases that do not call `next`.
use boost_http.Base.{
  ℕ, ◌+◌, ◌-◌, ◌≤◌, true, false, ◌==◌, some, length, ◌≡◌, ◌≢◌, arith, span, span-le, length-drop,
  drop, le→leb, min, get_elem?, get_elem?_of_lt, inl, inr, Bool-cases,
}
use boost_http.Token.{Code}
use boost_http.Abnf.{is_ows}
use boost_http.Syntax.Crlf.{crlf, lf, match_liberal, match_strict}
use boost_http.Syntax.Crlf.LineEnds.{match_strict-le, size_of-match_liberal}
use boost_http.Syntax.Match.Longest.{match_chunk_size-le, match_field_value-le}
use boost_http.Reader.Request.State.{
  State, expect_sp_after_method, expect_static_str_after_target, expect_version,
  expect_crlf_after_headers, expect_chunk_size, expect_trailer_value, Request, emit,
}
use boost_http.Reader.Request.Value.{value_version}
use boost_http.Reader.Request.StartLine.{
  on_sp_after_method, on_static_str_after_target, static_str, read_version, on_version, end_line,
  on_crlf_after_version,
}
use boost_http.Reader.Request.Fields.{expect_separator}
use boost_http.Reader.Request.Body.{
  choose_body, check_host, end_headers, on_crlf_after_headers, take_body, read_chunk_size,
  on_chunk_size, expect_strict_crlf,
}
use boost_http.Reader.Request.Trailers.{on_trailer_value}
use boost_http.Reader.Request.Safety.{is_reading, awaits_value, Inv, Returns, Ready}
use boost_http.Reader.Request.Safety.Scans.{scan-some, compare_static-IsBetween}

module _ (r : Request) (h : Ready r) where
  pub rest_length : length (drop r.idx r.ibuffer) ≡ length r.ibuffer - r.idx
  rest_length = length-drop r.idx r.ibuffer

  pub first_byte : (c : ℕ) × (get_elem? r.ibuffer r.idx ≡ some c)
  first_byte = get_elem?_of_lt r.ibuffer r.idx h.has_byte

  pub emit-Inv :
      (s : State) (c : Code) (n : ℕ)
      → r.idx + n ≤ length r.ibuffer
      → (is_reading r.body_type ≡ true → awaits_value s ≡ true)
      → c ≢ Code.error_insufficient_data
      → Inv (emit s c n r)
  emit-Inv s c n fits reads ne = record {
    in_bounds = fits;
    reading = reads;
    partial_static = λ d. absurd (ne d);
  }

  pub on_sp_after_method-Inv : r.state ≡ expect_sp_after_method → Returns Inv (on_sp_after_method r)
  unfolding on_sp_after_method
  on_sp_after_method-Inv s = let (c, e) = first_byte in rw e (ground arith)

  pub expect_separator-Inv :
      (blank value : State)
      → (is_reading r.body_type ≡ true → awaits_value blank ≡ true)
      → (is_reading r.body_type ≡ true → awaits_value value ≡ true)
      → Returns Inv (expect_separator blank value r)
  unfolding expect_separator
  expect_separator-Inv blank value x y =
      let (c, e) = first_byte in
      let n = span is_ows (drop (r.idx + 1) r.ibuffer) in
      let fits : r.idx + 1 + n ≤ length r.ibuffer = omega (
        arith,
        h.has_byte,
        span-le is_ows (drop (r.idx + 1) r.ibuffer),
        length-drop (r.idx + 1) r.ibuffer,
      ) in
      rw (e, scan-some is_ows r.ibuffer (r.idx + 1) (omega arith))
        (elim (Bool-cases (c == b':')) [
          | inl colon ↦ rw colon (elim (Bool-cases (r.idx + 1 + n == length r.ibuffer)) [
            | inl all ↦
                rw all (emit-Inv blank Code.skip (r.idx + 1 + n - r.idx) (omega arith) x (λ d. cc))
            | inr more ↦
                rw more (emit-Inv value Code.skip (r.idx + 1 + n - r.idx) (omega arith) y (λ d. cc))
          ])
          | inr other ↦ rw other (ground arith)
        ])

  pub on_version-Inv : r.state ≡ expect_version → Returns Inv (on_version r)
  unfolding on_version read_version value_version
  on_version-Inv s = let (c, e) = first_byte in rw e (ground arith)

  pub line_end :
      (match_liberal (drop r.idx r.ibuffer) ≡ crlf → 2 ≤ length r.ibuffer - r.idx)
      × (match_liberal (drop r.idx r.ibuffer) ≡ lf → 1 ≤ length r.ibuffer - r.idx)
  line_end =
      let le = size_of-match_liberal (drop r.idx r.ibuffer) in
      (λ e. omega (arith, rw e at le, rest_length), λ e. omega (arith, rw e at le, rest_length))

  pub end_line-Inv :
      awaits_value r.state ≡ false
      → r.state ≢ expect_static_str_after_target
      → Returns Inv (on_crlf_after_version r)
  unfolding on_crlf_after_version end_line
  end_line-Inv s ne = ground (arith, line_end.0, line_end.1)

  pub expect_strict_crlf-Inv :
      (after : ℕ → Request → Request)
      → r.state ≢ expect_static_str_after_target
      → ((n : ℕ) → n ≤ length r.ibuffer - r.idx → Inv (after n r))
      → awaits_value r.state ≡ false
      → Returns Inv (expect_strict_crlf after r)
  unfolding expect_strict_crlf
  expect_strict_crlf-Inv after ne ok s =
      let le = match_strict-le (drop r.idx r.ibuffer) in
      ground (arith, rest_length, ok (match_strict (drop r.idx r.ibuffer)))

  pub end_headers-Inv : r.state ≡ expect_crlf_after_headers → Returns Inv (on_crlf_after_headers r)
  unfolding on_crlf_after_headers end_headers check_host choose_body
  end_headers-Inv s = ground (arith, line_end.0, line_end.1)

  pub take_body-Inv : (after : State) → awaits_value r.state ≡ false → Inv (take_body after r)
  unfolding take_body
  take_body-Inv after s = ground (arith, rest_length)

  pub on_chunk_size-Inv : r.state ≡ expect_chunk_size → Returns Inv (on_chunk_size r)
  unfolding on_chunk_size read_chunk_size
  on_chunk_size-Inv s = ground (arith, rest_length, match_chunk_size-le (drop r.idx r.ibuffer))

  pub on_trailer_value-Inv : r.state ≡ expect_trailer_value → Returns Inv (on_trailer_value r)
  unfolding on_trailer_value
  on_trailer_value-Inv s = ground (arith, rest_length, match_field_value-le (drop r.idx r.ibuffer))

  pub on_static_str_after_target-Inv :
      r.state ≡ expect_static_str_after_target → Returns Inv (on_static_str_after_target r)
  unfolding on_static_str_after_target
  on_static_str_after_target-Inv s = ground (
    arith,
    le→leb (r.idx + r.token_size) (min (length r.ibuffer) (r.idx + length static_str)),
    h.inv.in_bounds,
    h.inv.partial_static h.unread s,
    length-drop (r.idx + r.token_size) r.ibuffer,
    length-drop r.token_size static_str,
    compare_static-IsBetween r.token_size (drop r.token_size static_str)
        (drop (r.idx + r.token_size) r.ibuffer),
  )
