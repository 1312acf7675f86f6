-- ===== src/Reader/Request/Resume/Moved.antt =====
-- The cases that may call `next` with another state: where they do with a longer buffer too.
use boost_http.Base.{
  ℕ, ◌<◌, ◌==◌, ◌++◌, Bool, length, drop, drop-append, length-drop, span, span-append, Bytes,
  Option, true, ◌≡◌, refl, arith, Bool-cases, inl, inr,
}
use boost_http.Token.{Code}
use boost_http.Header.{Boost}
use boost_http.Syntax.Chars.{is_tchar, is_ows}
use boost_http.Syntax.Match.{match_field_name, match_ows}
use boost_http.Reader.Request.State.{
  State, expect_crlf_after_headers, expect_field_value, expect_field_name, expect_ows_after_colon,
  expect_colon, expect_trailer_name, expect_ows_after_trailer_colon, expect_trailer_value,
  expect_crlf_after_trailers, Request, emit,
}
use boost_http.Reader.Request.Fields.{on_field_name, on_ows_after_colon}
use boost_http.Reader.Request.Trailers.{on_trailer_name, on_ows_after_trailer_colon}
use boost_http.Reader.Request.Next.{dispatch, next_fuel}
use boost_http.Reader.Request.Safety.Plain.{is_plain}
use boost_http.Reader.Request.Resume.{extend, Waits, ResumesTo, Waits-ResumesTo}
use boost_http.Reader.Request.Resume.Unchanged.{see_field_name-Waits}
use boost_http.Reader.Request.Resume.Leaves.{
  is_leaf, extend-has_byte, next-dispatch, leaf-ResumesTo,
}

-- No byte is passed, in the longer buffer too.
span_zero-append :
    (p : ℕ → Bool) (xs ys : Bytes) (i : ℕ)
    → i < length xs
    → span p (drop i xs) ≡ 0
    → span p (drop i (xs ++ ys)) ≡ 0
span_zero-append p xs ys i h e =
    rw (drop-append i xs ys (omega arith), span-append p (drop i xs) ys)
      (ground (arith, length-drop i xs))

module _ (b : Boost) (more : Bytes) (r : Request) (u : r.code ≡ Code.error_insufficient_data)
    (h : r.idx < length r.ibuffer) where
  pub stays :
      (s : State)
      → is_plain s ≡ true
      → r.state ≡ s
      → Waits r (dispatch b (next_fuel b 1) s r)
      → ResumesTo b more
          (dispatch b (next_fuel b 1) s (extend more r))
          (dispatch b (next_fuel b 1) s r)
  stays s p e w =
      Waits-ResumesTo b more r (dispatch b (next_fuel b 1) s (extend more r))
        (dispatch b (next_fuel b 1) s r)
        (next-dispatch b s (extend more r) p u (extend-has_byte more r h) e) w

  moves :
      (s : State) (longer call : Option Request)
      → is_leaf s ≡ true
      → longer ≡ next_fuel b 1 (extend more (record r { state = s }))
      → call ≡ next_fuel b 1 (record r { state = s })
      → ResumesTo b more longer call
  moves s longer call p el ec = rw (el, ec) (leaf-ResumesTo b more (record r { state = s }) p u h)

  pub field_name-ResumesTo :
      r.state ≡ expect_field_name
      → ResumesTo b more
          (dispatch b (next_fuel b 1) expect_field_name (extend more r))
          (dispatch b (next_fuel b 1) expect_field_name r)
  field_name-ResumesTo e =
      let n = match_field_name (drop r.idx r.ibuffer) in
      elim (Bool-cases (n == 0)) [
        | inl zero_read ↦
            let still = span_zero-append is_tchar r.ibuffer more r.idx h in
            moves expect_crlf_after_headers _ _ refl
              (unfold dispatch on_field_name match_field_name in ground (arith, still))
              (unfold dispatch on_field_name in ground arith)
        | inr some_read ↦ stays expect_field_name refl e (
            unfold dispatch on_field_name in
            ground (arith, see_field_name-Waits b (emit expect_colon Code.field_name n r) r))
      ]

  pub ows_after_colon-ResumesTo :
      r.state ≡ expect_ows_after_colon
      → ResumesTo b more
          (dispatch b (next_fuel b 1) expect_ows_after_colon (extend more r))
          (dispatch b (next_fuel b 1) expect_ows_after_colon r)
  ows_after_colon-ResumesTo e =
      let n = match_ows (drop r.idx r.ibuffer) in
      elim (Bool-cases (n == 0)) [
        | inl zero_read ↦
            let still = span_zero-append is_ows r.ibuffer more r.idx h in
            moves expect_field_value _ _ refl
              (unfold dispatch on_ows_after_colon match_ows in ground (arith, still))
              (unfold dispatch on_ows_after_colon in ground arith)
        | inr some_read ↦
            stays expect_ows_after_colon refl e (unfold dispatch on_ows_after_colon in ground arith)
      ]

  pub trailer_name-ResumesTo :
      r.state ≡ expect_trailer_name
      → ResumesTo b more
          (dispatch b (next_fuel b 1) expect_trailer_name (extend more r))
          (dispatch b (next_fuel b 1) expect_trailer_name r)
  trailer_name-ResumesTo e =
      let n = match_field_name (drop r.idx r.ibuffer) in
      elim (Bool-cases (n == 0)) [
        | inl zero_read ↦
            let still = span_zero-append is_tchar r.ibuffer more r.idx h in
            moves expect_crlf_after_trailers _ _ refl
              (unfold dispatch on_trailer_name match_field_name in ground (arith, still))
              (unfold dispatch on_trailer_name in ground arith)
        | inr some_read ↦
            stays expect_trailer_name refl e (unfold dispatch on_trailer_name in ground arith)
      ]

  pub ows_after_trailer_colon-ResumesTo :
      r.state ≡ expect_ows_after_trailer_colon
      → ResumesTo b more
          (dispatch b (next_fuel b 1) expect_ows_after_trailer_colon (extend more r))
          (dispatch b (next_fuel b 1) expect_ows_after_trailer_colon r)
  ows_after_trailer_colon-ResumesTo e =
      let n = match_ows (drop r.idx r.ibuffer) in
      elim (Bool-cases (n == 0)) [
        | inl zero_read ↦
            let still = span_zero-append is_ows r.ibuffer more r.idx h in
            moves expect_trailer_value _ _ refl
              (unfold dispatch on_ows_after_trailer_colon match_ows in ground (arith, still))
              (unfold dispatch on_ows_after_trailer_colon in ground arith)
        | inr some_read ↦
            stays expect_ows_after_trailer_colon refl e
              (unfold dispatch on_ows_after_trailer_colon in ground arith)
      ]
