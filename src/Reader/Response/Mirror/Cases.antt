-- ===== src/Reader/Response/Mirror/Cases.antt =====
-- Each shared case.
use boost_http.Base.{
  Option-cases, Bool-cases, inl, inr, scan, get_elem?, ◌==◌, drop, ◌-◌, ℕ, ◌+◌, true, false, Option,
  some, length, ◌≡◌, refl, ap, arith, Bytes,
}
use boost_http.Token.{Code}
use boost_http.Abnf.{is_chunk_ext_char}
use boost_http.Header.{Boost}
use boost_http.Syntax.Crlf.{match_strict}
use boost_http.Syntax.Match.{match_field_value}
use boost_http.Reader.Request
use boost_http.Reader.Response.State.{State, BodyType, Response, emit}
use boost_http.Reader.Response.Value.{value_field_value}
use boost_http.Reader.Response.StatusLine.{end_line, on_crlf_after_reason_phrase}
use boost_http.Reader.Response.Fields.{
  expect_separator, on_colon, on_ows_after_colon, read_content_length, read_encoding,
  see_field_value, on_field_value, on_crlf_after_field_value,
}
use boost_http.Reader.Response.Body.{
  take_body, on_body, read_chunk_size, on_chunk_size, end_chunk_ext, stop_chunk_ext, on_chunk_ext,
  expect_strict_crlf, end_chunk_line, on_crlf_after_chunk_ext, on_chunk_data,
  on_crlf_after_chunk_data,
}
use boost_http.Reader.Response.Trailers.{
  on_trailer_name, on_trailer_colon, on_ows_after_trailer_colon, on_trailer_value,
  on_crlf_after_trailer_value, end_trailers, on_crlf_after_trailers,
}
use boost_http.Reader.Response.Next.{dispatch}
use boost_http.Reader.Response.Mirror.{mirror_state, mirror, mirrored, is_shared}

-- A handler of each reader, of which the one does what the other does.
abbrev pub Mirrors :
    (Response → Option Response) → (Request.State.Request → Option Request.State.Request) → Type 0
Mirrors f g = (r : Response) → mirrored (f r) ≡ g (mirror r)

end_line-Mirrors : Mirrors on_crlf_after_reason_phrase Request.StartLine.on_crlf_after_version
unfolding on_crlf_after_reason_phrase end_line Request.StartLine.on_crlf_after_version
    Request.StartLine.end_line
end_line-Mirrors r = ground arith

expect_separator-Mirrors :
    (s t : State)
    → Mirrors
        (expect_separator s t)
        (Request.Fields.expect_separator (mirror_state s) (mirror_state t))
unfolding expect_separator Request.Fields.expect_separator
expect_separator-Mirrors s t r = ground arith

take_body-Mirrors :
    (s : State) (r : Response)
    → mirror (take_body s r) ≡ Request.Body.take_body (mirror_state s) (mirror r)
unfolding take_body Request.Body.take_body
take_body-Mirrors s r = ground arith

on_chunk_size-Mirrors : Mirrors on_chunk_size Request.Body.on_chunk_size
unfolding on_chunk_size read_chunk_size Request.Body.on_chunk_size Request.Body.read_chunk_size
on_chunk_size-Mirrors r = ground arith

on_trailer_value-Mirrors : Mirrors on_trailer_value Request.Trailers.on_trailer_value
unfolding on_trailer_value Request.Trailers.on_trailer_value
on_trailer_value-Mirrors r = ground arith

expect_strict_crlf-Mirrors :
    (after : ℕ → Response → Response) (after' : ℕ → Request.State.Request → Request.State.Request)
    → ((n : ℕ) (r : Response) → mirror (after n r) ≡ after' n (mirror r))
    → Mirrors (expect_strict_crlf after) (Request.Body.expect_strict_crlf after')
unfolding expect_strict_crlf Request.Body.expect_strict_crlf
expect_strict_crlf-Mirrors after after' h r =
    ground (arith, h (match_strict (drop r.idx r.ibuffer)) r)

see_field_value-Mirrors :
    (b : Boost) (t : BodyType) (field : Bytes) (r : Response)
    → r.body_type ≡ t
    → mirrored (see_field_value b t field r)
      ≡ Request.Fields.see_field_value b (mirror r).body_type field (mirror r)
unfolding see_field_value read_content_length read_encoding Request.Fields.see_field_value
    Request.Fields.read_content_length Request.Fields.read_encoding
see_field_value-Mirrors b t field r e = ground arith

value_field_value-mirror :
    (r : Response) → Request.Value.value_field_value (mirror r) ≡ value_field_value r
unfolding value_field_value Request.Value.value_field_value
value_field_value-mirror r = ground arith

on_field_value-Mirrors : (b : Boost) → Mirrors (on_field_value b) (Request.Fields.on_field_value b)
unfolding on_field_value Request.Fields.on_field_value
on_field_value-Mirrors b r =
    let n = match_field_value (drop r.idx r.ibuffer) in
    let r' = emit State.expect_crlf_after_field_value Code.field_value n r in
    elim (Bool-cases (n == length (drop r.idx r.ibuffer))) [
      | inl end ↦ rw end refl
      | inr more ↦
          rw (more, value_field_value-mirror r')
            (elim (Option-cases (value_field_value r')) [
              | inl bad ↦ rw bad refl
              | inr (field, e) ↦ rw e (see_field_value-Mirrors b r.body_type field r' refl)
            ])
    ]

module _ (again : Response → Option Response)
    (again' : Request.State.Request → Option Request.State.Request)
    -- A call of `next` in another state, before a byte.
    (k : (r : Response)
      → is_shared r.state ≡ true
      → (r.idx == length r.ibuffer) ≡ false
      → r.code ≡ Code.error_insufficient_data
      → mirrored (again r) ≡ again' (mirror r)) where
  -- A handler before a byte.
  abbrev MirrorsHere :
      (Response → Option Response) → (Request.State.Request → Option Request.State.Request) → Type 0
  MirrorsHere f g =
      (r : Response)
      → (r.idx == length r.ibuffer) ≡ false
      → r.code ≡ Code.error_insufficient_data
      → mirrored (f r) ≡ g (mirror r)

  stop_chunk_ext-Mirrors :
      (c i : ℕ) → MirrorsHere (stop_chunk_ext again c i) (Request.Body.stop_chunk_ext again' c i)
  unfolding stop_chunk_ext end_chunk_ext Request.Body.stop_chunk_ext Request.Body.end_chunk_ext
  stop_chunk_ext-Mirrors c i r h u =
      ground
        (arith, k (record r { state = State.expext_crlf_after_chunk_ext; token_size = i - r.idx }))

  on_chunk_ext-Mirrors : MirrorsHere (on_chunk_ext again) (Request.Body.on_chunk_ext again')
  unfolding on_chunk_ext Request.Body.on_chunk_ext
  on_chunk_ext-Mirrors r h u =
      elim (Option-cases (scan is_chunk_ext_char r.ibuffer (r.idx + r.token_size))) [
        | inl past ↦ rw past refl
        | inr (i, at) ↦ rw at (elim (Bool-cases (i == length r.ibuffer)) [
          | inl end ↦ rw end refl
          | inr more ↦ rw more (elim (Option-cases (get_elem? r.ibuffer i)) [
            | inl outside ↦ rw outside refl
            | inr (c, read) ↦ rw read (stop_chunk_ext-Mirrors c i r h u)
          ])
        ])
      ]

  -- A call of `next` in one of the shared states goes on as the other reader's does.
  pub dispatch-Mirrors :
      (b : Boost) (s : State)
      → is_shared s ≡ true
      → MirrorsHere (dispatch b again s) (Request.Next.dispatch b again' (mirror_state s))
  unfolding dispatch Request.Next.dispatch on_colon Request.Fields.on_colon on_ows_after_colon
      Request.Fields.on_ows_after_colon on_crlf_after_field_value
      Request.Fields.on_crlf_after_field_value on_body Request.Body.on_body on_crlf_after_chunk_ext
      Request.Body.on_crlf_after_chunk_ext end_chunk_line Request.Body.end_chunk_line on_chunk_data
      Request.Body.on_chunk_data on_crlf_after_chunk_data Request.Body.on_crlf_after_chunk_data
      on_trailer_name Request.Trailers.on_trailer_name on_trailer_colon
      Request.Trailers.on_trailer_colon on_ows_after_trailer_colon
      Request.Trailers.on_ows_after_trailer_colon on_crlf_after_trailer_value
      Request.Trailers.on_crlf_after_trailer_value end_trailers Request.Trailers.end_trailers
      on_crlf_after_trailers Request.Trailers.on_crlf_after_trailers
  dispatch-Mirrors b State.expect_crlf_after_reason_phrase p r h u = end_line-Mirrors r
  dispatch-Mirrors b State.expect_colon p r h u = expect_separator-Mirrors _ _ r
  dispatch-Mirrors b State.expect_ows_after_colon p r h u =
      ground (arith, k (record r { state = State.expect_field_value }))
  dispatch-Mirrors b State.expect_field_value p r h u = on_field_value-Mirrors b r
  dispatch-Mirrors b State.expect_crlf_after_field_value p r h u = end_line-Mirrors r
  dispatch-Mirrors b State.expect_body p r h u = ap some (take_body-Mirrors _ r)
  dispatch-Mirrors b State.expect_chunk_size p r h u = on_chunk_size-Mirrors r
  dispatch-Mirrors b State.expect_chunk_ext p r h u = on_chunk_ext-Mirrors r h u
  dispatch-Mirrors b State.expext_crlf_after_chunk_ext p r h u =
      expect_strict_crlf-Mirrors end_chunk_line Request.Body.end_chunk_line (λ n q. ground arith) r
  dispatch-Mirrors b State.expect_chunk_data p r h u = ap some (take_body-Mirrors _ r)
  dispatch-Mirrors b State.expect_crlf_after_chunk_data p r h u =
      expect_strict_crlf-Mirrors _ _ (λ n q. refl) r
  dispatch-Mirrors b State.expect_trailer_name p r h u =
      ground (arith, k (record r { state = State.expect_crlf_after_trailers }))
  dispatch-Mirrors b State.expect_trailer_colon p r h u = expect_separator-Mirrors _ _ r
  dispatch-Mirrors b State.expect_ows_after_trailer_colon p r h u =
      ground (arith, k (record r { state = State.expect_trailer_value }))
  dispatch-Mirrors b State.expect_trailer_value p r h u = on_trailer_value-Mirrors r
  dispatch-Mirrors b State.expect_crlf_after_trailer_value p r h u =
      expect_strict_crlf-Mirrors _ _ (λ n q. refl) r
  dispatch-Mirrors b State.expect_crlf_after_trailers p r h u =
      expect_strict_crlf-Mirrors end_trailers Request.Trailers.end_trailers (λ n q. refl) r
  dispatch-Mirrors b _ p r h u = cc
