-- ===== src/Reader/Request/Tiling.antt =====
-- Where tokens lie in the buffer: each begins where the one before it ends.
use boost_http.Base.{
  ◌||◌, ◌&&◌, false, Option-cases, Bool-cases, inl, inr, scan, get_elem?, ◌==◌, drop, ◌-◌, ℕ, suc,
  zero, ◌+◌, true, Option, none, some, length, ◌≡◌, refl, sym, ap, ◌∙◌, arith, Bytes, if◌then◌else◌,
}
use mathlib.Core.Path.{subst}
use boost_http.Reader.Request.Safety.{Inv, Returns}
use boost_http.Token.{Code}
use boost_http.Abnf.{is_chunk_ext_char}
use boost_http.Syntax.Match.{match_field_name, match_field_value}
use boost_http.Header.{Boost, IsBoost}
use boost_http.Syntax.Crlf.{Result}
use boost_http.Reader.Request.State.{State, BodyType, Request, emit}
use boost_http.Reader.Request.Value.{value_field_value}
use boost_http.Reader.Request.StartLine.{
  expect_word, on_method, on_sp_after_method, on_request_target, on_static_str_after_target,
  read_version, on_version, end_line, on_crlf_after_version,
}
use boost_http.Reader.Request.Fields.{
  see_host, see_transfer_encoding, see_content_length, see_field_name, on_field_name,
  expect_separator, on_colon, on_ows_after_colon, read_content_length, read_encoding,
  see_field_value, on_field_value, on_crlf_after_field_value,
}
use boost_http.Reader.Request.Body.{
  choose_body, check_host, end_headers, on_crlf_after_headers, take_body, on_body, read_chunk_size,
  on_chunk_size, end_chunk_ext, stop_chunk_ext, on_chunk_ext, expect_strict_crlf, end_chunk_line,
  on_crlf_after_chunk_ext, on_chunk_data, on_crlf_after_chunk_data,
}
use boost_http.Reader.Request.Trailers.{
  on_trailer_name, on_trailer_colon, on_ows_after_trailer_colon, on_trailer_value,
  on_crlf_after_trailer_value, end_trailers, on_crlf_after_trailers,
}
use boost_http.Reader.Request.Next.{
  is_insufficient, dispatch, consume, read_token, next_in, next_fuel, next,
}
use boost_http.Reader.Request.Safety.Plain.{
  consume_fresh, consume_unread, EmptyValue, is_plain, next_in_plain, consume_ibuffer,
}
use boost_http.Reader.Request.Safety.Total.{next-Inv}
use boost_http.Reader.Request.Outcome.{is_errored}

-- Whatever is returned has its token begin at `i` in the same buffer.
abbrev pub StartsAt : ℕ → Bytes → Option Request → Type 0
StartsAt i buffer none = Unit {0}
StartsAt i buffer (some r) = (r.idx ≡ i) × (r.ibuffer ≡ buffer)

module _ (i : ℕ) (buffer : Bytes) where
  -- A handler that keeps the place, given that a call of `next` does.
  abbrev Keeps : (Request → Option Request) → Type 0
  Keeps f = (r : Request) → r.idx ≡ i → r.ibuffer ≡ buffer → StartsAt i buffer (f r)

  -- The same of a call of `next` behind the preamble.
  abbrev KeepsFresh : (Request → Option Request) → Type 0
  KeepsFresh f =
      (r : Request)
      → r.code ≡ Code.error_insufficient_data
      → is_plain r.state ≡ true
      → r.idx ≡ i
      → r.ibuffer ≡ buffer
      → StartsAt i buffer (f r)

  see_field_name-Keeps : (b : Boost) → Keeps (see_field_name b)
  unfolding see_field_name see_host see_transfer_encoding see_content_length
  see_field_name-Keeps b r e d = ground arith

  see_field_value-Keeps :
      (b : Boost) (t : BodyType) (field : Bytes) → Keeps (see_field_value b t field)
  unfolding see_field_value read_content_length read_encoding
  see_field_value-Keeps b t field r e d = ground arith

  end_headers-Keeps : (res : Result) → Keeps (end_headers res)
  unfolding end_headers check_host choose_body
  end_headers-Keeps res r e d = ground arith

  module _ (again : Request → Option Request) (k : KeepsFresh again) where
    stop_chunk_ext-Keeps :
        (c j : ℕ) (r : Request)
        → r.code ≡ Code.error_insufficient_data
        → r.idx ≡ i
        → r.ibuffer ≡ buffer
        → StartsAt i buffer (stop_chunk_ext again c j r)
    unfolding stop_chunk_ext end_chunk_ext
    stop_chunk_ext-Keeps c j r u e d =
        ground (
          arith,
          k (record r { state = State.expext_crlf_after_chunk_ext; token_size = j - r.idx }),
        )

    on_chunk_ext-Keeps :
        (r : Request)
        → r.code ≡ Code.error_insufficient_data
        → r.idx ≡ i
        → r.ibuffer ≡ buffer
        → StartsAt i buffer (on_chunk_ext again r)
    unfolding on_chunk_ext
    on_chunk_ext-Keeps r u e d =
        elim (Option-cases (scan is_chunk_ext_char r.ibuffer (r.idx + r.token_size))) [
          | inl past ↦ rw past tt
          | inr (j, at) ↦ rw at (elim (Bool-cases (j == length r.ibuffer)) [
            | inl end ↦ rw end (e, d)
            | inr more ↦ rw more (elim (Option-cases (get_elem? r.ibuffer j)) [
              | inl outside ↦ rw outside tt
              | inr (c, read) ↦ rw read (stop_chunk_ext-Keeps c j r u e d)
            ])
          ])
        ]

    on_field_value-Keeps : (b : Boost) → Keeps (on_field_value b)
    unfolding on_field_value
    on_field_value-Keeps b r e d =
        let n = match_field_value (drop r.idx r.ibuffer) in
        let r' = emit State.expect_crlf_after_field_value Code.field_value n r in
        elim (Bool-cases (n == length (drop r.idx r.ibuffer))) [
          | inl end ↦ rw end (e, d)
          | inr more ↦ rw more (elim (Option-cases (value_field_value r')) [
            | inl bad ↦ rw bad tt
            | inr (field, at) ↦ rw at (see_field_value-Keeps b r.body_type field r' e d)
          ])
        ]

    dispatch-Keeps :
        (b : Boost) (s : State) (r : Request)
        → r.code ≡ Code.error_insufficient_data
        → r.idx ≡ i
        → r.ibuffer ≡ buffer
        → StartsAt i buffer (dispatch b again s r)
    unfolding dispatch on_method on_request_target expect_word on_sp_after_method
        on_static_str_after_target on_version read_version on_crlf_after_version end_line
        on_field_name on_colon expect_separator on_ows_after_colon on_crlf_after_field_value
        on_crlf_after_headers on_body take_body on_chunk_size read_chunk_size
        on_crlf_after_chunk_ext expect_strict_crlf end_chunk_line on_chunk_data
        on_crlf_after_chunk_data on_trailer_name on_trailer_colon on_ows_after_trailer_colon
        on_trailer_value on_crlf_after_trailer_value end_trailers on_crlf_after_trailers
    dispatch-Keeps b State.expect_field_name r u e d =
        let n = match_field_name (drop r.idx r.ibuffer) in
        ground (
          arith,
          k (record r { state = State.expect_crlf_after_headers }),
          see_field_name-Keeps b (emit State.expect_colon Code.field_name n r),
        )
    dispatch-Keeps b State.expect_ows_after_colon r u e d =
        ground (arith, k (record r { state = State.expect_field_value }))
    dispatch-Keeps b State.expect_trailer_name r u e d =
        ground (arith, k (record r { state = State.expect_crlf_after_trailers }))
    dispatch-Keeps b State.expect_ows_after_trailer_colon r u e d =
        ground (arith, k (record r { state = State.expect_trailer_value }))
    dispatch-Keeps b State.expect_chunk_ext r u e d = on_chunk_ext-Keeps r u e d
    dispatch-Keeps b State.expect_field_value r u e d = on_field_value-Keeps b r e d
    dispatch-Keeps b State.expect_crlf_after_headers r u e d = end_headers-Keeps _ r e d
    dispatch-Keeps b _ r u e d = ground arith

pub consume_idx :
    (r : Request)
    → (consume r).idx ≡ (if is_insufficient r.code then r.idx else r.idx + r.token_size)
unfolding consume
consume_idx r = ground arith

read_token-StartsAt :
    (i : ℕ) (buffer : Bytes) (b : Boost) (again : Request → Option Request) (s : State)
    → KeepsFresh i buffer again
    → (r : Request) → r.code ≡ Code.error_insufficient_data
    → r.idx ≡ i
    → r.ibuffer ≡ buffer
    → StartsAt i buffer (read_token b again s r)
unfolding read_token
read_token-StartsAt i buffer b again s k r u e d =
    ground (arith, dispatch-Keeps i buffer again k b s r)

next_fuel-KeepsFresh :
    (i : ℕ) (buffer : Bytes) (b : Boost) (f : ℕ) → KeepsFresh i buffer (next_fuel b f)
unfolding next_fuel
next_fuel-KeepsFresh i buffer b zero r u p e d = tt
next_fuel-KeepsFresh i buffer b (suc f) r u p e d =
    let here =
      read_token-StartsAt i buffer b (next_fuel b f) r.state (next_fuel-KeepsFresh i buffer b f) r u
        e d in
    subst (StartsAt i buffer)
      (sym (
        next_in_plain b (next_fuel b f) r.state r p
        ∙ ap (read_token b (next_fuel b f) r.state) (consume_fresh r u)))
      here

pub next-StartsAt :
    (b : Boost) (r : Request)
    → is_plain r.state ≡ true
    → StartsAt (consume r).idx (consume r).ibuffer (next b r)
unfolding next next_fuel
next-StartsAt b r p = rw (next_in_plain b (next_fuel b 1) r.state r p) (
    read_token-StartsAt (consume r).idx (consume r).ibuffer b (next_fuel b 1) r.state
      (next_fuel-KeepsFresh (consume r).idx (consume r).ibuffer b 1) (consume r) (consume_unread r)
      refl refl)

-- Where the next token begins: behind the token, unless that is still being read, or is an error.
abbrev pub next_place : Request → ℕ
next_place r =
    if is_errored r.state || (is_plain r.state && is_insufficient r.code)
    then r.idx
    else r.idx + r.token_size

special-StartsAt :
    (b : Boost) (again : Request → Option Request) (s : State) (r : Request)
    → r.state ≡ s
    → is_plain s ≡ false
    → StartsAt (next_place r) r.ibuffer (next_in b again s r)
unfolding next_in
special-StartsAt b again State.errored r e p = ground arith
special-StartsAt b again State.expect_end_of_body r e p = ground arith
special-StartsAt b again State.expect_end_of_message r e p = ground arith
special-StartsAt b again _ r e p = cc

plain_place : (r : Request) → is_plain r.state ≡ true → (consume r).idx ≡ next_place r
plain_place r p =
    let not_errored : is_errored r.state ≡ false = ground arith in
    consume_idx r ∙ rw (p, not_errored) refl

place-StartsAt : (b : Boost) (r : Request) → StartsAt (next_place r) r.ibuffer (next b r)
unfolding next next_fuel
place-StartsAt b r = elim (Bool-cases (is_plain r.state)) [
  | inl p ↦
      subst (λ i. StartsAt i r.ibuffer (next b r)) (plain_place r p)
        (subst (λ (t : Bytes). StartsAt (consume r).idx t (next b r)) (consume_ibuffer r)
          (next-StartsAt b r p))
  | inr p ↦ special-StartsAt b (next_fuel b 1) r.state r refl p
]

-- From every request that satisfies the invariant, with no empty field value at its place, `next`
-- returns, and the token that it gives, whole or partial, is in the same buffer and begins where the
-- one before it ends, or where the partial one begins; an error, which is given again, stays where
-- it is.
pub next_tiles :
    (b : Boost) (r : Request)
    → IsBoost b
    → Inv r
    → ¬ EmptyValue r
    → (r' : Request) × (next b r ≡ some r') × (r'.idx ≡ next_place r) × (r'.ibuffer ≡ r.ibuffer)
next_tiles b r laws h ne = go (next b r) refl (next-Inv b r laws h ne) (place-StartsAt b r)
  where
    go :
        (o : Option Request)
        → next b r ≡ o
        → Returns Inv o
        → StartsAt (next_place r) r.ibuffer o
        → (r' : Request) × (next b r ≡ some r') × (r'.idx ≡ next_place r) × (r'.ibuffer ≡ r.ibuffer)
    go none e inv at = absurd inv
    go (some r') e inv at = (r', e, at.0, at.1)
