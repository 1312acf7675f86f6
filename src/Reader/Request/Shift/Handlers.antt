-- ===== src/Reader/Request/Shift/Handlers.antt =====
-- Every case of the second switch does the same with more bytes in front of the reader's place.
use boost_http.Base.{
  ℕ, ◌+◌, ◌-◌, ◌==◌, ◌++◌, length, length-append, drop, get_elem?, scan, Option-cases, Option, some,
  Bool, Bytes, ◌≡◌, refl, ap, ◌∙◌, sym, arith, if◌then◌else◌, ◌>>=◌, leb, min, Bool-cases, inl, inr,
}
use boost_http.Token.{Code}
use boost_http.Abnf.{is_ows, is_chunk_ext_char}
use boost_http.Header.{Boost}
use boost_http.Syntax.Match.{match_field_name, match_field_value}
use boost_http.Reader.Request.State.{State, BodyType, Request, emit}
use boost_http.Reader.Request.Value.{value_version, value_field_name, value_field_value}
use boost_http.Reader.Request.StartLine.{
  expect_word, on_method, on_sp_after_method, on_request_target, on_static_str_after_target,
  static_str, compare_static, read_version, on_version, end_line, on_crlf_after_version,
}
use boost_http.Reader.Request.Fields.{
  see_host, see_transfer_encoding, see_content_length, see_field_name, on_field_name,
  expect_separator, on_colon, on_ows_after_colon, read_content_length, read_encoding,
  see_field_value, on_field_value, on_crlf_after_field_value,
}
use boost_http.Reader.Request.Body.{
  choose_body, check_host, end_headers, on_crlf_after_headers, take_body, on_body, read_chunk_size,
  on_chunk_size, end_chunk_ext, stop_chunk_ext, on_chunk_ext, expect_strict_crlf, end_chunk_line,
  on_crlf_after_chunk_ext, on_chunk_data, on_crlf_after_chunk_data,
}
use boost_http.Reader.Request.Trailers.{
  on_trailer_name, on_trailer_colon, on_ows_after_trailer_colon, on_trailer_value,
  on_crlf_after_trailer_value, end_trailers, on_crlf_after_trailers,
}
use boost_http.Reader.Request.Next.{dispatch}
use boost_http.Reader.Request.Shift.{prefixed, each}
use boost_http.Reader.Request.Shift.Reads.{drop-prefix, get_elem?-prefix, scan-prefix}

module _ (pre : Bytes) where
  abbrev pub Shifts : (Request → Option Request) → Type 0
  Shifts f = (r : Request) → f (prefixed pre r) ≡ each (prefixed pre) (f r)

  -- The test for the end of the buffer.
  pub at_end : (i : ℕ) (xs : Bytes) → (length pre + i == length (pre ++ xs)) ≡ (i == length xs)
  at_end i xs = let l = length-append pre xs in ground arith

  expect_word-Shifts : (p : ℕ → Bool) (s : State) (c : Code) → Shifts (expect_word p s c)
  unfolding expect_word
  expect_word-Shifts p s c r =
      let assoc : length pre + r.idx + r.token_size ≡ length pre + (r.idx + r.token_size) =
        omega arith in
      rw (assoc, scan-prefix p pre r.ibuffer (r.idx + r.token_size))
        (elim (Option-cases (scan p r.ibuffer (r.idx + r.token_size))) [
          | inl out ↦ rw out refl
          | inr (i, e) ↦ rw (e, at_end i r.ibuffer) (ground arith)
        ])

  on_sp_after_method-Shifts : Shifts on_sp_after_method
  unfolding on_sp_after_method
  on_sp_after_method-Shifts r = rw (get_elem?-prefix pre r.ibuffer r.idx) (ground arith)

  on_version-Shifts : Shifts on_version
  unfolding on_version read_version value_version
  on_version-Shifts r = rw (get_elem?-prefix pre r.ibuffer r.idx) (ground arith)

  end_line-Shifts : Shifts on_crlf_after_version
  unfolding on_crlf_after_version end_line
  end_line-Shifts r = rw (drop-prefix pre r.ibuffer r.idx) (ground arith)

  end_headers-Shifts : Shifts on_crlf_after_headers
  unfolding on_crlf_after_headers end_headers check_host choose_body
  end_headers-Shifts r = rw (drop-prefix pre r.ibuffer r.idx) (ground arith)

  take_body-Shifts :
      (s : State) (r : Request) → take_body s (prefixed pre r) ≡ prefixed pre (take_body s r)
  unfolding take_body
  take_body-Shifts s r = rw (drop-prefix pre r.ibuffer r.idx) (ground arith)

  on_chunk_size-Shifts : Shifts on_chunk_size
  unfolding on_chunk_size read_chunk_size
  on_chunk_size-Shifts r = rw (drop-prefix pre r.ibuffer r.idx) (ground arith)

  on_trailer_value-Shifts : Shifts on_trailer_value
  unfolding on_trailer_value
  on_trailer_value-Shifts r = rw (drop-prefix pre r.ibuffer r.idx) (ground arith)

  expect_strict_crlf-Shifts :
      (after : ℕ → Request → Request)
      → ((n : ℕ) (r : Request) → after n (prefixed pre r) ≡ prefixed pre (after n r))
      → Shifts (expect_strict_crlf after)
  unfolding expect_strict_crlf
  expect_strict_crlf-Shifts after h r = rw (drop-prefix pre r.ibuffer r.idx, h) (ground arith)

  expect_separator-Shifts : (s t : State) → Shifts (expect_separator s t)
  unfolding expect_separator
  expect_separator-Shifts s t r =
      let assoc : length pre + r.idx + 1 ≡ length pre + (r.idx + 1) = omega arith in
      rw (get_elem?-prefix pre r.ibuffer r.idx, assoc, scan-prefix is_ows pre r.ibuffer (r.idx + 1))
        (elim (Option-cases (scan is_ows r.ibuffer (r.idx + 1))) [
          | inl out ↦ rw out (ground arith)
          | inr (i, e) ↦ rw (e, at_end i r.ibuffer) (ground arith)
        ])

  see_field_name-Shifts : (b : Boost) → Shifts (see_field_name b)
  unfolding see_field_name value_field_name see_host see_transfer_encoding see_content_length
  see_field_name-Shifts b r = rw (drop-prefix pre r.ibuffer r.idx) (ground arith)

  see_field_value-Shifts :
      (b : Boost) (t : BodyType) (field : Bytes) → Shifts (see_field_value b t field)
  unfolding see_field_value read_content_length read_encoding
  see_field_value-Shifts b t field r = ground arith

  value_field_value-prefixed :
      (r : Request) → value_field_value (prefixed pre r) ≡ value_field_value r
  unfolding value_field_value
  value_field_value-prefixed r = rw (drop-prefix pre r.ibuffer r.idx) (ground arith)

  -- The case of a field value, on what is left of the buffer.
  abbrev with_rest : Boost → Bytes → Request → Option Request
  with_rest b rest r =
      let n = match_field_value rest in
      let r' = emit State.expect_crlf_after_field_value Code.field_value n r in
      if n == length rest
      then some r
      else (value_field_value r' >>= λ field. see_field_value b r'.body_type field r')

  with_rest-Shifts : (b : Boost) (rest : Bytes) → Shifts (with_rest b rest)
  with_rest-Shifts b rest r =
      let n = match_field_value rest in
      let r' = emit State.expect_crlf_after_field_value Code.field_value n r in
      rw (value_field_value-prefixed r') (elim (Bool-cases (n == length rest)) [
        | inl all ↦ rw all refl
        | inr part ↦ rw part (elim (Option-cases (value_field_value r')) [
          | inl bad ↦ rw bad refl
          | inr (field, e) ↦ rw e (see_field_value-Shifts b r.body_type field r')
        ])
      ])

  on_field_value-rest :
      (b : Boost) (r : Request) → on_field_value b r ≡ with_rest b (drop r.idx r.ibuffer) r
  unfolding on_field_value
  on_field_value-rest b r = refl

  on_field_value-Shifts : (b : Boost) → Shifts (on_field_value b)
  on_field_value-Shifts b r =
      on_field_value-rest b (prefixed pre r)
      ∙ ap (λ v. with_rest b v (prefixed pre r)) (drop-prefix pre r.ibuffer r.idx)
      ∙ with_rest-Shifts b (drop r.idx r.ibuffer) r
      ∙ sym (ap (each (prefixed pre)) (on_field_value-rest b r))

  on_static_str-Shifts : Shifts on_static_str_after_target
  unfolding on_static_str_after_target
  on_static_str-Shifts r =
      let assoc : length pre + r.idx + r.token_size ≡ length pre + (r.idx + r.token_size) =
        omega arith in
      let total = length-append pre r.ibuffer in
      let o =
        compare_static r.token_size (drop r.token_size static_str)
          (drop (r.idx + r.token_size) r.ibuffer) in
      let same : leb (length pre + (r.idx + r.token_size))
            (min (length (pre ++ r.ibuffer)) (length pre + r.idx + length static_str))
          ≡ leb (r.idx + r.token_size) (min (length r.ibuffer) (r.idx + length static_str)) =
        ground arith in
      rw (assoc, drop-prefix pre r.ibuffer (r.idx + r.token_size), same)
        (elim (Bool-cases
          (leb (r.idx + r.token_size) (min (length r.ibuffer) (r.idx + length static_str)))) [
            | inr out ↦ rw out refl
            | inl inside ↦ rw inside (elim (Option-cases o) [
              | inl differs ↦ rw differs refl
              | inr (k, e) ↦ rw e (ground arith)
            ])
          ])

  module _ (again : Request → Option Request) (k : Shifts again) where
    stop_chunk_ext-Shifts :
        (c i : ℕ) (r : Request)
        → stop_chunk_ext again c (length pre + i) (prefixed pre r)
          ≡ each (prefixed pre) (stop_chunk_ext again c i r)
    unfolding stop_chunk_ext end_chunk_ext
    stop_chunk_ext-Shifts c i r =
        let less : length pre + i - (length pre + r.idx) ≡ i - r.idx = omega arith in
        rw less (
          ground (
            arith,
            k (record r { state = State.expext_crlf_after_chunk_ext; token_size = i - r.idx }),
          ))

    on_chunk_ext-Shifts : Shifts (on_chunk_ext again)
    unfolding on_chunk_ext
    on_chunk_ext-Shifts r =
        let assoc : length pre + r.idx + r.token_size ≡ length pre + (r.idx + r.token_size) =
          omega arith in
        rw (assoc, scan-prefix is_chunk_ext_char pre r.ibuffer (r.idx + r.token_size))
          (elim (Option-cases (scan is_chunk_ext_char r.ibuffer (r.idx + r.token_size))) [
            | inl out ↦ rw out refl
            | inr (i, e) ↦
                rw (e, at_end i r.ibuffer, get_elem?-prefix pre r.ibuffer i)
                  (elim (Bool-cases (i == length r.ibuffer)) [
                    | inl end ↦ rw end (ground arith)
                    | inr some_left ↦ rw some_left (elim (Option-cases (get_elem? r.ibuffer i)) [
                      | inl outside ↦ rw outside refl
                      | inr (c, read) ↦ rw read (stop_chunk_ext-Shifts c i r)
                    ])
                  ])
          ])

    pub dispatch-Shifts : (b : Boost) (s : State) → Shifts (dispatch b again s)
    unfolding dispatch on_method on_request_target on_field_name on_colon on_ows_after_colon
        on_crlf_after_field_value on_body on_crlf_after_chunk_ext end_chunk_line on_chunk_data
        on_crlf_after_chunk_data on_trailer_name on_trailer_colon on_ows_after_trailer_colon
        on_crlf_after_trailer_value end_trailers on_crlf_after_trailers
    dispatch-Shifts b State.expect_method r = expect_word-Shifts _ _ _ r
    dispatch-Shifts b State.expect_request_target r = expect_word-Shifts _ _ _ r
    dispatch-Shifts b State.expect_sp_after_method r = on_sp_after_method-Shifts r
    dispatch-Shifts b State.expect_static_str_after_target r = on_static_str-Shifts r
    dispatch-Shifts b State.expect_version r = on_version-Shifts r
    dispatch-Shifts b State.expect_crlf_after_version r = end_line-Shifts r
    dispatch-Shifts b State.expect_field_name r =
        let n = match_field_name (drop r.idx r.ibuffer) in
        rw (drop-prefix pre r.ibuffer r.idx) (
          ground (
            arith,
            k (record r { state = State.expect_crlf_after_headers }),
            see_field_name-Shifts b (emit State.expect_colon Code.field_name n r),
          ))
    dispatch-Shifts b State.expect_colon r = expect_separator-Shifts _ _ r
    dispatch-Shifts b State.expect_ows_after_colon r =
        rw (drop-prefix pre r.ibuffer r.idx)
          (ground (arith, k (record r { state = State.expect_field_value })))
    dispatch-Shifts b State.expect_field_value r = on_field_value-Shifts b r
    dispatch-Shifts b State.expect_crlf_after_field_value r = end_line-Shifts r
    dispatch-Shifts b State.expect_crlf_after_headers r = end_headers-Shifts r
    dispatch-Shifts b State.expect_body r = ap some (take_body-Shifts _ r)
    dispatch-Shifts b State.expect_chunk_size r = on_chunk_size-Shifts r
    dispatch-Shifts b State.expect_chunk_ext r = on_chunk_ext-Shifts r
    dispatch-Shifts b State.expext_crlf_after_chunk_ext r =
        expect_strict_crlf-Shifts end_chunk_line (λ n q. ground arith) r
    dispatch-Shifts b State.expect_chunk_data r = ap some (take_body-Shifts _ r)
    dispatch-Shifts b State.expect_crlf_after_chunk_data r =
        expect_strict_crlf-Shifts _ (λ n q. refl) r
    dispatch-Shifts b State.expect_trailer_name r =
        rw (drop-prefix pre r.ibuffer r.idx)
          (ground (arith, k (record r { state = State.expect_crlf_after_trailers })))
    dispatch-Shifts b State.expect_trailer_colon r = expect_separator-Shifts _ _ r
    dispatch-Shifts b State.expect_ows_after_trailer_colon r =
        rw (drop-prefix pre r.ibuffer r.idx)
          (ground (arith, k (record r { state = State.expect_trailer_value })))
    dispatch-Shifts b State.expect_trailer_value r = on_trailer_value-Shifts r
    dispatch-Shifts b State.expect_crlf_after_trailer_value r =
        expect_strict_crlf-Shifts _ (λ n q. refl) r
    dispatch-Shifts b State.expect_crlf_after_trailers r =
        expect_strict_crlf-Shifts end_trailers (λ n q. refl) r
    dispatch-Shifts b _ r = refl
