-- ===== src/Reader/Request/Resume/Unchanged.antt =====
-- The cases of the second switch that leave the reader as it is when they want more data.
use boost_http.Base.{
  Option-cases, Bool-cases, inl, inr, ℕ, drop, length, ◌==◌, some, ◌≡◌, refl, arith, Bytes, false,
}
use boost_http.Token.{Code}
use boost_http.Header.{Boost}
use boost_http.Syntax.Match.{match_field_value}
use boost_http.Syntax.Crlf.{match_strict}
use boost_http.Reader.Request.State.{State, BodyType, Request, emit}
use boost_http.Reader.Request.Value.{value_field_value}
use boost_http.Reader.Request.StartLine.{
  on_sp_after_method, read_version, on_version, end_line, on_crlf_after_version,
}
use boost_http.Reader.Request.Fields.{
  see_host, see_transfer_encoding, see_content_length, see_field_name, expect_separator,
  read_content_length, read_encoding, see_field_value, on_field_value,
}
use boost_http.Reader.Request.Body.{
  choose_body, check_host, end_headers, on_crlf_after_headers, take_body, read_chunk_size,
  on_chunk_size, expect_strict_crlf,
}
use boost_http.Reader.Request.Trailers.{on_trailer_value}
use boost_http.Reader.Request.Next.{is_insufficient}
use boost_http.Reader.Request.Resume.{Waits}

module _ (r : Request) where
  pub on_sp_after_method-Waits : Waits r (on_sp_after_method r)
  unfolding on_sp_after_method
  on_sp_after_method-Waits = ground arith

  pub on_version-Waits : Waits r (on_version r)
  unfolding on_version read_version
  on_version-Waits = ground arith

  pub end_line-Waits : Waits r (on_crlf_after_version r)
  unfolding on_crlf_after_version end_line
  end_line-Waits = ground arith

  pub expect_separator-Waits : (s t : State) → Waits r (expect_separator s t r)
  unfolding expect_separator
  expect_separator-Waits s t = ground arith

  pub end_headers-Waits : Waits r (on_crlf_after_headers r)
  unfolding on_crlf_after_headers end_headers check_host choose_body
  end_headers-Waits = ground arith

  pub take_body-Waits : (s : State) → Waits r (some (take_body s r))
  unfolding take_body
  take_body-Waits s = ground arith

  pub on_chunk_size-Waits : Waits r (on_chunk_size r)
  unfolding on_chunk_size read_chunk_size
  on_chunk_size-Waits = ground arith

  pub on_trailer_value-Waits : Waits r (on_trailer_value r)
  unfolding on_trailer_value
  on_trailer_value-Waits = ground arith

  pub expect_strict_crlf-Waits :
      (after : ℕ → Request → Request)
      → ((n : ℕ) → is_insufficient (after n r).code ≡ false)
      → Waits r (expect_strict_crlf after r)
  unfolding expect_strict_crlf
  expect_strict_crlf-Waits after h = ground (arith, h (match_strict (drop r.idx r.ibuffer)))

-- Behind a token that was read nothing waits.
pub see_field_name-Waits :
    (b : Boost) (r r₀ : Request) → r.code ≡ Code.field_name → Waits r₀ (see_field_name b r)
unfolding see_field_name see_host see_transfer_encoding see_content_length
see_field_name-Waits b r r₀ e = ground arith

pub see_field_value-Waits :
    (b : Boost) (t : BodyType) (field : Bytes) (r r₀ : Request)
    → r.code ≡ Code.field_value
    → Waits r₀ (see_field_value b t field r)
unfolding see_field_value read_content_length read_encoding
see_field_value-Waits b t field r r₀ e = ground arith

pub on_field_value-Waits : (b : Boost) (r : Request) → Waits r (on_field_value b r)
unfolding on_field_value
on_field_value-Waits b r =
    let n = match_field_value (drop r.idx r.ibuffer) in
    let r' = emit State.expect_crlf_after_field_value Code.field_value n r in
    elim (Bool-cases (n == length (drop r.idx r.ibuffer))) [
      | inl end ↦ rw end (λ u. refl)
      | inr more ↦ rw more (elim (Option-cases (value_field_value r')) [
        | inl bad ↦ rw bad tt
        | inr (field, at) ↦ rw at (see_field_value-Waits b r.body_type field r' r refl)
      ])
    ]
