-- ===== src/Reader/Request/Resume/Leaves.antt =====
-- The cases that a call of itself of `next` moves to.
use boost_http.Base.{
  ◌<◌, length, length-append, Bytes, Bool, false, true, ◌≡◌, refl, sym, ◌∙◌, arith,
}
use mathlib.Core.Path.{subst}
use boost_http.Token.{Code}
use boost_http.Header.{Boost}
use boost_http.Reader.Request.State.{
  State, expect_crlf_after_headers, expect_field_value, expext_crlf_after_chunk_ext,
  expect_trailer_value, expect_crlf_after_trailers, Request,
}
use boost_http.Reader.Request.Body.{on_crlf_after_chunk_ext, end_chunk_line}
use boost_http.Reader.Request.Trailers.{on_crlf_after_trailers, end_trailers}
use boost_http.Reader.Request.Next.{dispatch, next_fuel, next}
use boost_http.Reader.Request.Safety.Plain.{is_plain, next_fuel-Ready}
use boost_http.Reader.Request.Resume.{extend, Waits, ResumesTo, Waits-ResumesTo}
use boost_http.Reader.Request.Resume.Unchanged.{
  end_headers-Waits, on_field_value-Waits, on_trailer_value-Waits, expect_strict_crlf-Waits,
}

-- Such a case.
abbrev pub is_leaf : State → Bool
is_leaf expect_crlf_after_headers = true
is_leaf expect_field_value = true
is_leaf expext_crlf_after_chunk_ext = true
is_leaf expect_trailer_value = true
is_leaf expect_crlf_after_trailers = true
is_leaf _ = false

pub extend-has_byte :
    (more : Bytes) (r : Request)
    → r.idx < length r.ibuffer
    → (extend more r).idx < length (extend more r).ibuffer
extend-has_byte more r h = omega (arith, h, length-append r.ibuffer more)

pub next-dispatch :
    (b : Boost) (s : State) (r : Request)
    → is_plain s ≡ true
    → r.code ≡ Code.error_insufficient_data
    → r.idx < length r.ibuffer
    → r.state ≡ s
    → next b r ≡ dispatch b (next_fuel b 1) s r
unfolding next
next-dispatch b s r p u h e = next_fuel-Ready b 1 s r p u h e

module _ (b : Boost) where
  leaf-fuel :
      (s : State) (r : Request)
      → is_leaf s ≡ true
      → dispatch b (next_fuel b 1) s r ≡ dispatch b (next_fuel b 0) s r
  unfolding dispatch
  leaf-fuel expect_crlf_after_headers r p = refl
  leaf-fuel expect_field_value r p = refl
  leaf-fuel expext_crlf_after_chunk_ext r p = refl
  leaf-fuel expect_trailer_value r p = refl
  leaf-fuel expect_crlf_after_trailers r p = refl
  leaf-fuel _ r p = cc

  leaf-Waits :
      (s : State) (r : Request) → is_leaf s ≡ true → Waits r (dispatch b (next_fuel b 0) s r)
  unfolding dispatch on_crlf_after_chunk_ext on_crlf_after_trailers end_chunk_line end_trailers
  leaf-Waits expect_crlf_after_headers r p = end_headers-Waits r
  leaf-Waits expect_field_value r p = on_field_value-Waits b r
  leaf-Waits expext_crlf_after_chunk_ext r p =
      expect_strict_crlf-Waits r end_chunk_line (λ n. ground arith)
  leaf-Waits expect_trailer_value r p = on_trailer_value-Waits r
  leaf-Waits expect_crlf_after_trailers r p = expect_strict_crlf-Waits r end_trailers (λ n. refl)
  leaf-Waits _ r p = cc

  is_leaf-is_plain : (s : State) → is_leaf s ≡ true → is_plain s ≡ true
  is_leaf-is_plain s p = ground arith

  -- A call of itself.
  pub leaf-ResumesTo :
      (more : Bytes) (r : Request)
      → is_leaf r.state ≡ true
      → r.code ≡ Code.error_insufficient_data
      → r.idx < length r.ibuffer
      → ResumesTo b more (next_fuel b 1 (extend more r)) (next_fuel b 1 r)
  leaf-ResumesTo more r p u h =
      let s = r.state in
      let plain = is_leaf-is_plain s p in
      let longer = extend-has_byte more r h in
      let here = next_fuel-Ready b 0 s r plain u h refl in
      let there = next_fuel-Ready b 0 s (extend more r) plain u longer refl in
      Waits-ResumesTo b more r (next_fuel b 1 (extend more r)) (next_fuel b 1 r)
        (next-dispatch b s (extend more r) plain u longer refl
          ∙ leaf-fuel s (extend more r) p
          ∙ sym there)
        (subst (Waits r) (sym here) (leaf-Waits s r p))
