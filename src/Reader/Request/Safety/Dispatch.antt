-- ===== src/Reader/Request/Safety/Dispatch.antt =====
-- Every case of the second switch, with the calls of `next` in it.
use boost_http.Base.{ℕ, suc, true, ◌≡◌, ◌≢◌, refl, arith, drop}
use boost_http.Header.{Boost, IsBoost}
use boost_http.Syntax.Match.{match_field_value, match_ows}
use boost_http.Reader.Request.State.{
  State, errored, expect_method, expect_sp_after_method, expect_request_target,
  expect_static_str_after_target, expect_version, expect_crlf_after_version, expect_field_name,
  expect_colon, expect_ows_after_colon, expect_field_value, expect_crlf_after_field_value,
  expect_crlf_after_headers, expect_body, expect_end_of_body, expect_end_of_message,
  expect_chunk_size, expect_chunk_ext, expext_crlf_after_chunk_ext, expect_chunk_data,
  expect_crlf_after_chunk_data, expect_trailer_name, expect_trailer_colon,
  expect_ows_after_trailer_colon, expect_trailer_value, expect_crlf_after_trailer_value,
  expect_crlf_after_trailers, Request,
}
use boost_http.Reader.Request.StartLine.{on_method, on_request_target}
use boost_http.Reader.Request.Fields.{on_colon, on_crlf_after_field_value}
use boost_http.Reader.Request.Body.{
  on_body, on_crlf_after_chunk_ext, end_chunk_line, on_chunk_data, on_crlf_after_chunk_data,
}
use boost_http.Reader.Request.Trailers.{
  on_trailer_colon, on_crlf_after_trailer_value, end_trailers, on_crlf_after_trailers,
}
use boost_http.Reader.Request.Next.{dispatch, next_fuel}
use boost_http.Reader.Request.Safety.{Inv, Returns, Ready}
use boost_http.Reader.Request.Safety.Scans.{expect_word-Inv}
use boost_http.Reader.Request.Safety.Cases.{
  on_sp_after_method-Inv, expect_separator-Inv, on_version-Inv, end_line-Inv,
  expect_strict_crlf-Inv, end_headers-Inv, take_body-Inv, on_chunk_size-Inv, on_trailer_value-Inv,
  on_static_str_after_target-Inv,
}
use boost_http.Reader.Request.Safety.Calls.{
  on_chunk_ext-Inv, on_ows_after_colon-Inv, on_ows_after_trailer_colon-Inv, on_trailer_name-Inv,
  on_field_name-Inv, on_field_value-Inv,
}
use boost_http.Reader.Request.Safety.Plain.{is_plain, Ready-move, next_fuel-Ready}

module _ (b : Boost) (laws : IsBoost b) (f : ℕ) where
  again-Inv :
      (s : State) (r : Request)
      → is_plain s ≡ true
      → Ready r
      → r.state ≡ s
      → Returns Inv (dispatch b (next_fuel b f) s r)
      → Returns Inv (next_fuel b (suc f) r)
  again-Inv s r p h e ok = rw (next_fuel-Ready b f s r p h.unread h.has_byte e) ok

  -- The cases that `next` calls itself for, but the field value.
  on_crlf_after_chunk_ext-Inv :
      (r : Request)
      → Ready r
      → r.state ≡ expext_crlf_after_chunk_ext
      → Returns Inv (on_crlf_after_chunk_ext r)
  unfolding on_crlf_after_chunk_ext end_chunk_line
  on_crlf_after_chunk_ext-Inv r h e =
      expect_strict_crlf-Inv r h end_chunk_line (ground arith) (λ n le. ground arith) (ground arith)

  on_crlf_after_trailers-Inv :
      (r : Request)
      → Ready r
      → r.state ≡ expect_crlf_after_trailers
      → Returns Inv (on_crlf_after_trailers r)
  unfolding on_crlf_after_trailers end_trailers
  on_crlf_after_trailers-Inv r h e =
      expect_strict_crlf-Inv r h end_trailers (ground arith) (λ n le. ground arith) (ground arith)

  -- The states in which a field value may be read, and whether one is there.
  abbrev pub HasValue : State → Request → Type 0
  HasValue expect_field_value r = match_field_value (drop r.idx r.ibuffer) ≢ 0
  HasValue expect_ows_after_colon r =
      match_ows (drop r.idx r.ibuffer) ≡ 0 → match_field_value (drop r.idx r.ibuffer) ≢ 0
  HasValue _ r = Unit {0}

  pub dispatch-Inv :
      (s : State) (r : Request)
      → is_plain s ≡ true
      → Ready r
      → r.state ≡ s
      → HasValue s r
      → Returns Inv (dispatch b (next_fuel b (suc f)) s r)
  unfolding dispatch on_method on_request_target on_colon on_crlf_after_field_value on_body
      on_chunk_data on_crlf_after_chunk_data on_trailer_colon on_crlf_after_trailer_value
  dispatch-Inv errored r p h e v = cc
  dispatch-Inv expect_end_of_body r p h e v = cc
  dispatch-Inv expect_end_of_message r p h e v = cc
  dispatch-Inv expect_method r p h e v =
      expect_word-Inv _ _ _ r h (ground arith) (ground arith) (λ x. cc)
  dispatch-Inv expect_request_target r p h e v =
      expect_word-Inv _ _ _ r h (ground arith) (ground arith) (λ x. cc)
  dispatch-Inv expect_sp_after_method r p h e v = on_sp_after_method-Inv r h e
  dispatch-Inv expect_static_str_after_target r p h e v = on_static_str_after_target-Inv r h e
  dispatch-Inv expect_version r p h e v = on_version-Inv r h e
  dispatch-Inv expect_crlf_after_version r p h e v = end_line-Inv r h (ground arith) (ground arith)
  dispatch-Inv expect_crlf_after_field_value r p h e v =
      end_line-Inv r h (ground arith) (ground arith)
  dispatch-Inv expect_field_name r p h e v =
      let moved = Ready-move r expect_crlf_after_headers h (ground arith) (λ x. cc) in
      on_field_name-Inv r h b (next_fuel b (suc f)) e
        (again-Inv expect_crlf_after_headers _ refl moved refl (end_headers-Inv _ moved refl))
  dispatch-Inv expect_colon r p h e v = expect_separator-Inv r h _ _ (λ x. refl) (λ x. refl)
  dispatch-Inv expect_ows_after_colon r p h e v =
      let moved = Ready-move r expect_field_value h (ground arith) (λ x. cc) in
      on_ows_after_colon-Inv r h (next_fuel b (suc f)) e (λ none_left.
        again-Inv expect_field_value _ refl moved refl
          (on_field_value-Inv _ moved b laws refl (v none_left)))
  dispatch-Inv expect_field_value r p h e v = on_field_value-Inv r h b laws e v
  dispatch-Inv expect_crlf_after_headers r p h e v = end_headers-Inv r h e
  dispatch-Inv expect_body r p h e v = take_body-Inv r h _ (ground arith)
  dispatch-Inv expect_chunk_size r p h e v = on_chunk_size-Inv r h e
  dispatch-Inv expect_chunk_ext r p h e v =
      on_chunk_ext-Inv r h (next_fuel b (suc f)) e (λ r' h' e'.
        again-Inv expext_crlf_after_chunk_ext r' refl h' e' (on_crlf_after_chunk_ext-Inv r' h' e'))
  dispatch-Inv expext_crlf_after_chunk_ext r p h e v = on_crlf_after_chunk_ext-Inv r h e
  dispatch-Inv expect_chunk_data r p h e v = take_body-Inv r h _ (ground arith)
  dispatch-Inv expect_crlf_after_chunk_data r p h e v =
      expect_strict_crlf-Inv r h _ (ground arith) (λ n le. ground arith) (ground arith)
  dispatch-Inv expect_trailer_name r p h e v =
      let moved = Ready-move r expect_crlf_after_trailers h (ground arith) (λ x. cc) in
      on_trailer_name-Inv r h (next_fuel b (suc f)) e (
        again-Inv expect_crlf_after_trailers _ refl moved refl
          (on_crlf_after_trailers-Inv _ moved refl))
  dispatch-Inv expect_trailer_colon r p h e v =
      expect_separator-Inv r h _ _ (ground arith) (ground arith)
  dispatch-Inv expect_ows_after_trailer_colon r p h e v =
      let moved = Ready-move r expect_trailer_value h (ground arith) (λ x. cc) in
      on_ows_after_trailer_colon-Inv r h (next_fuel b (suc f)) e
        (again-Inv expect_trailer_value _ refl moved refl (on_trailer_value-Inv _ moved refl))
  dispatch-Inv expect_trailer_value r p h e v = on_trailer_value-Inv r h e
  dispatch-Inv expect_crlf_after_trailer_value r p h e v =
      expect_strict_crlf-Inv r h _ (ground arith) (λ n le. ground arith) (ground arith)
  dispatch-Inv expect_crlf_after_trailers r p h e v = on_crlf_after_trailers-Inv r h e
