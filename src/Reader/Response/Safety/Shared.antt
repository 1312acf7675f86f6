-- ===== src/Reader/Response/Safety/Shared.antt =====
-- The shared cases keep what holds of the response reader alone.
use boost_http.Base.{
  Option-cases, Bool-cases, inl, inr, scan, get_elem?, ◌==◌, drop, ◌-◌, ℕ, ◌+◌, true, false, Option,
  length, ◌≡◌, refl, arith, Bytes,
}
use boost_http.Token.{Code}
use boost_http.Abnf.{is_chunk_ext_char}
use boost_http.Syntax.Match.{match_field_value}
use boost_http.Header.{Boost}
use boost_http.Reader.Response.State.{State, BodyType, Response, emit}
use boost_http.Reader.Response.Value.{value_field_value}
use boost_http.Reader.Response.StatusLine.{end_line, on_crlf_after_reason_phrase, is_unknown}
use boost_http.Reader.Response.Fields.{
  expect_separator, on_colon, on_ows_after_colon, read_content_length, read_encoding,
  see_field_value, on_field_value, on_crlf_after_field_value,
}
use boost_http.Reader.Response.Body.{
  take_body, on_body, read_chunk_size, on_chunk_size, end_chunk_ext, stop_chunk_ext, on_chunk_ext,
  expect_strict_crlf, end_chunk_line, on_crlf_after_chunk_ext, on_chunk_data,
  on_crlf_after_chunk_data,
}
use boost_http.Reader.Response.Trailers.{
  on_trailer_name, on_trailer_colon, on_ows_after_trailer_colon, on_trailer_value,
  on_crlf_after_trailer_value, end_trailers, on_crlf_after_trailers,
}
use boost_http.Reader.Response.Next.{dispatch}
use boost_http.Reader.Response.Mirror.{is_shared}
use boost_http.Reader.Response.Safety.{in_headers, Gives}

see_field_value-IsSound :
    (b : Boost) (t : BodyType) (field : Bytes) (r : Response)
    → r.code ≡ Code.field_value
    → r.state ≡ State.expect_crlf_after_field_value
    → is_unknown r.body_type ≡ false
    → Gives (see_field_value b t field r)
unfolding see_field_value read_content_length read_encoding
see_field_value-IsSound b t field r u e w = ground arith

-- A reader behind the preamble, with the method known in the headers.
pub record IsFresh (s : State) (r : Response) : Type 0 where
  pub unread : r.code ≡ Code.error_insufficient_data
  pub at : r.state ≡ s
  pub known : in_headers s ≡ true → is_unknown r.body_type ≡ false

abbrev pub GivesFresh : (Response → Option Response) → Type 0
GivesFresh f = (s : State) (r : Response) → IsFresh s r → is_shared s ≡ true → Gives (f r)

module _ (again : Response → Option Response) (k : GivesFresh again) where
  stop_chunk_ext-IsSound :
      (c j : ℕ) (r : Response)
      → r.code ≡ Code.error_insufficient_data
      → Gives (stop_chunk_ext again c j r)
  unfolding stop_chunk_ext end_chunk_ext
  stop_chunk_ext-IsSound c j r u =
      let q = record r { state = State.expext_crlf_after_chunk_ext; token_size = j - r.idx } in
      let fresh : IsFresh State.expext_crlf_after_chunk_ext q = record {
        unread = u;
        at = refl;
        known = λ h. cc;
      } in
      let rest = k State.expext_crlf_after_chunk_ext q fresh refl in ground (arith, rest)

  on_chunk_ext-IsSound :
      (r : Response) → IsFresh State.expect_chunk_ext r → Gives (on_chunk_ext again r)
  unfolding on_chunk_ext
  on_chunk_ext-IsSound r h =
      elim (Option-cases (scan is_chunk_ext_char r.ibuffer (r.idx + r.token_size))) [
        | inl past ↦ rw past tt
        | inr (j, at) ↦ rw at (elim (Bool-cases (j == length r.ibuffer)) [
          | inl end ↦ rw end (let u = h.unread in let e = h.at in ground arith)
          | inr more ↦ rw more (elim (Option-cases (get_elem? r.ibuffer j)) [
            | inl outside ↦ rw outside tt
            | inr (c, read) ↦ rw read (stop_chunk_ext-IsSound c j r h.unread)
          ])
        ])
      ]

  on_field_value-IsSound :
      (b : Boost) (r : Response) → IsFresh State.expect_field_value r → Gives (on_field_value b r)
  unfolding on_field_value
  on_field_value-IsSound b r h =
      let n = match_field_value (drop r.idx r.ibuffer) in
      let r' = emit State.expect_crlf_after_field_value Code.field_value n r in
      let u = h.unread in
      let e = h.at in
      let w = h.known refl in
      elim (Bool-cases (n == length (drop r.idx r.ibuffer))) [
        | inl end ↦ rw end (ground arith)
        | inr more ↦ rw more (elim (Option-cases (value_field_value r')) [
          | inl bad ↦ rw bad tt
          | inr (field, at) ↦ rw at (see_field_value-IsSound b r.body_type field r' refl refl w)
        ])
      ]

  -- The reader in another state.
  moved :
      (t : State) (r : Response)
      → r.code ≡ Code.error_insufficient_data
      → (in_headers t ≡ true → is_unknown r.body_type ≡ false)
      → is_shared t ≡ true
      → Gives (again (record r { state = t }))
  moved t r u w p = k t (record r { state = t }) (record { unread = u; at = refl; known = w }) p

  pub shared-IsSound :
      (b : Boost) (s : State) (r : Response)
      → is_shared s ≡ true
      → IsFresh s r
      → Gives (dispatch b again s r)
  unfolding dispatch on_crlf_after_reason_phrase end_line on_colon expect_separator
      on_ows_after_colon on_crlf_after_field_value on_body take_body on_chunk_size read_chunk_size
      on_crlf_after_chunk_ext expect_strict_crlf end_chunk_line on_chunk_data
      on_crlf_after_chunk_data on_trailer_name on_trailer_colon on_ows_after_trailer_colon
      on_trailer_value on_crlf_after_trailer_value end_trailers on_crlf_after_trailers
  shared-IsSound b State.expect_ows_after_colon r p h =
      let rest = moved State.expect_field_value r h.unread (λ x. h.known refl) refl in
      let u = h.unread in let e = h.at in let w = h.known refl in ground (arith, rest)
  shared-IsSound b State.expect_trailer_name r p h =
      let rest = moved State.expect_crlf_after_trailers r h.unread (λ x. cc) refl in
      let u = h.unread in let e = h.at in ground (arith, rest)
  shared-IsSound b State.expect_ows_after_trailer_colon r p h =
      let rest = moved State.expect_trailer_value r h.unread (λ x. cc) refl in
      let u = h.unread in let e = h.at in ground (arith, rest)
  shared-IsSound b State.expect_chunk_ext r p h = on_chunk_ext-IsSound r h
  shared-IsSound b State.expect_field_value r p h = on_field_value-IsSound b r h
  shared-IsSound b _ r p h = let u = h.unread in let e = h.at in let w = h.known in ground arith
