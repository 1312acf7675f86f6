-- ===== src/Reader/Request/Order.antt =====
-- The tokens of a request come in the order of the grammar.
pub mod Transcript
use boost_http.Base.{
  Option-cases, Bool-cases, inl, inr, scan, get_elem?, ◌==◌, drop, ◌-◌, ℕ, suc, zero, ◌+◌, Bool,
  true, false, Option, none, some, length, ◌≡◌, ◌≢◌, ◌<◌, refl, sym, ap, ◌∙◌, arith, Bytes,
}
use mathlib.Core.Path.{subst}
use boost_http.Token.{Code}
use boost_http.Abnf.{is_chunk_ext_char}
use boost_http.Syntax.Match.{match_field_name, match_field_value}
use boost_http.Header.{Boost}
use boost_http.Syntax.Crlf.{Result}
use boost_http.Reader.Request.State.{
  State, errored, expect_end_of_body, expect_end_of_message, Version, BodyType, Request, emit,
}
use boost_http.Reader.Request.Value.{value_field_value}
use boost_http.Reader.Request.StartLine.{
  expect_word, on_method, on_sp_after_method, on_request_target, on_static_str_after_target,
  read_version, on_version, end_line, on_crlf_after_version,
}
use boost_http.Reader.Request.Fields.{
  see_host, see_transfer_encoding, see_content_length, see_field_name, on_field_name,
  expect_separator, on_colon, on_ows_after_colon, read_content_length, read_encoding,
  see_field_value, on_field_value, on_crlf_after_field_value,
}
use boost_http.Reader.Request.Body.{
  choose_body, check_host, end_headers, on_crlf_after_headers, take_body, on_body, read_chunk_size,
  on_chunk_size, end_chunk_ext, stop_chunk_ext, on_chunk_ext, expect_strict_crlf, end_chunk_line,
  on_crlf_after_chunk_ext, on_chunk_data, on_crlf_after_chunk_data,
}
use boost_http.Reader.Request.Trailers.{
  on_trailer_name, on_trailer_colon, on_ows_after_trailer_colon, on_trailer_value,
  on_crlf_after_trailer_value, end_trailers, on_crlf_after_trailers,
}
use boost_http.Reader.Request.Next.{dispatch, consume, read_token, next_in, next_fuel, next}
use boost_http.Reader.Request.Safety.Plain.{
  consume_fresh, consume_unread, is_plain, next_in_plain, consume_state,
}
use boost_http.Reader.Grammar.{
  Phase, Follows, failed_again, Ordered, Told, tell, pass, tell-Ordered,
}

abbrev pub request_phase : State → Phase
request_phase errored = Phase.failed
request_phase State.expect_method = Phase.request_start
request_phase State.expect_sp_after_method = Phase.method_read
request_phase State.expect_request_target = Phase.method_read
request_phase State.expect_static_str_after_target = Phase.target_read
request_phase State.expect_version = Phase.target_read
request_phase State.expect_crlf_after_version = Phase.fields
request_phase State.expect_field_name = Phase.fields
request_phase State.expect_crlf_after_field_value = Phase.fields
request_phase State.expect_crlf_after_headers = Phase.fields
request_phase State.expect_colon = Phase.name_read
request_phase State.expect_ows_after_colon = Phase.name_read
request_phase State.expect_field_value = Phase.name_read
request_phase State.expect_body = Phase.sized_body
request_phase State.expect_end_of_body = Phase.no_more_body
request_phase State.expect_end_of_message = Phase.body_over
request_phase State.expect_chunk_size = Phase.chunked_body
request_phase State.expect_chunk_ext = Phase.chunked_body
request_phase State.expext_crlf_after_chunk_ext = Phase.chunked_body
request_phase State.expect_chunk_data = Phase.chunked_body
request_phase State.expect_crlf_after_chunk_data = Phase.chunked_body
request_phase State.expect_trailer_name = Phase.trailers
request_phase State.expect_crlf_after_trailer_value = Phase.trailers
request_phase State.expect_crlf_after_trailers = Phase.trailers
request_phase State.expect_trailer_colon = Phase.trailer_name_read
request_phase State.expect_ows_after_trailer_colon = Phase.trailer_name_read
request_phase State.expect_trailer_value = Phase.trailer_name_read

-- The result's token may stand behind the phase.
abbrev pub Gives : Phase → Option Request → Type 0
Gives p none = Unit {0}
Gives p (some r) = Follows r.code p (request_phase r.state)

abbrev GivesFresh : (Request → Option Request) → Type 0
GivesFresh f =
    (r : Request)
    → r.code ≡ Code.error_insufficient_data
    → is_plain r.state ≡ true
    → Gives (request_phase r.state) (f r)

see_field_name-Follows :
    (b : Boost) (r : Request)
    → r.code ≡ Code.field_name
    → r.state ≡ State.expect_colon
    → Gives Phase.fields (see_field_name b r)
unfolding see_field_name see_host see_transfer_encoding see_content_length
see_field_name-Follows b r u e = ground arith

see_field_value-Follows :
    (b : Boost) (t : BodyType) (field : Bytes) (r : Request)
    → r.code ≡ Code.field_value
    → r.state ≡ State.expect_crlf_after_field_value
    → Gives Phase.name_read (see_field_value b t field r)
unfolding see_field_value read_content_length read_encoding
see_field_value-Follows b t field r u e = ground arith

end_headers-Follows :
    (res : Result) (r : Request)
    → r.code ≡ Code.error_insufficient_data
    → r.state ≡ State.expect_crlf_after_headers
    → Gives Phase.fields (end_headers res r)
unfolding end_headers check_host choose_body
end_headers-Follows res r u e = ground arith

module _ (again : Request → Option Request) (k : GivesFresh again) where
  stop_chunk_ext-Follows :
      (c j : ℕ) (r : Request)
      → r.code ≡ Code.error_insufficient_data
      → Gives Phase.chunked_body (stop_chunk_ext again c j r)
  unfolding stop_chunk_ext end_chunk_ext
  stop_chunk_ext-Follows c j r u =
      ground
        (arith, k (record r { state = State.expext_crlf_after_chunk_ext; token_size = j - r.idx }))

  on_chunk_ext-Follows :
      (r : Request)
      → r.code ≡ Code.error_insufficient_data
      → r.state ≡ State.expect_chunk_ext
      → Gives Phase.chunked_body (on_chunk_ext again r)
  unfolding on_chunk_ext
  on_chunk_ext-Follows r u e =
      elim (Option-cases (scan is_chunk_ext_char r.ibuffer (r.idx + r.token_size))) [
        | inl past ↦ rw past tt
        | inr (j, at) ↦ rw at (elim (Bool-cases (j == length r.ibuffer)) [
          | inl end ↦ rw end (ground arith)
          | inr more ↦ rw more (elim (Option-cases (get_elem? r.ibuffer j)) [
            | inl outside ↦ rw outside tt
            | inr (c, read) ↦ rw read (stop_chunk_ext-Follows c j r u)
          ])
        ])
      ]

  on_field_value-Follows :
      (b : Boost) (r : Request)
      → r.code ≡ Code.error_insufficient_data
      → r.state ≡ State.expect_field_value
      → Gives Phase.name_read (on_field_value b r)
  unfolding on_field_value
  on_field_value-Follows b r u e =
      let n = match_field_value (drop r.idx r.ibuffer) in
      let r' = emit State.expect_crlf_after_field_value Code.field_value n r in
      elim (Bool-cases (n == length (drop r.idx r.ibuffer))) [
        | inl end ↦ rw end (ground arith)
        | inr more ↦ rw more (elim (Option-cases (value_field_value r')) [
          | inl bad ↦ rw bad tt
          | inr (field, at) ↦ rw at (see_field_value-Follows b r.body_type field r' refl refl)
        ])
      ]

  dispatch-Follows :
      (b : Boost) (s : State) (r : Request)
      → r.code ≡ Code.error_insufficient_data
      → r.state ≡ s
      → Gives (request_phase s) (dispatch b again s r)
  unfolding dispatch on_method on_request_target expect_word on_sp_after_method
      on_static_str_after_target on_version read_version on_crlf_after_version end_line
      on_field_name on_colon expect_separator on_ows_after_colon on_crlf_after_field_value
      on_crlf_after_headers on_body take_body on_chunk_size read_chunk_size on_crlf_after_chunk_ext
      expect_strict_crlf end_chunk_line on_chunk_data on_crlf_after_chunk_data on_trailer_name
      on_trailer_colon on_ows_after_trailer_colon on_trailer_value on_crlf_after_trailer_value
      end_trailers on_crlf_after_trailers
  dispatch-Follows b State.expect_field_name r u e =
      let n = match_field_name (drop r.idx r.ibuffer) in
      ground (
        arith,
        k (record r { state = State.expect_crlf_after_headers }),
        see_field_name-Follows b (emit State.expect_colon Code.field_name n r),
      )
  dispatch-Follows b State.expect_ows_after_colon r u e =
      ground (arith, k (record r { state = State.expect_field_value }))
  dispatch-Follows b State.expect_trailer_name r u e =
      ground (arith, k (record r { state = State.expect_crlf_after_trailers }))
  dispatch-Follows b State.expect_ows_after_trailer_colon r u e =
      ground (arith, k (record r { state = State.expect_trailer_value }))
  dispatch-Follows b State.expect_chunk_ext r u e = on_chunk_ext-Follows r u e
  dispatch-Follows b State.expect_field_value r u e = on_field_value-Follows b r u e
  dispatch-Follows b State.expect_crlf_after_headers r u e = end_headers-Follows _ r u e
  dispatch-Follows b _ r u e = ground arith

read_token-Follows :
    (b : Boost) (again : Request → Option Request) (s : State)
    → GivesFresh again
    → (r : Request) → r.code ≡ Code.error_insufficient_data
    → is_plain s ≡ true
    → r.state ≡ s
    → Gives (request_phase s) (read_token b again s r)
unfolding read_token
read_token-Follows b again s k r u p e = elim (Bool-cases (r.idx == length r.ibuffer)) [
  | inl end ↦ rw end (ground arith)
  | inr more ↦ rw more (dispatch-Follows again k b s r u e)
]

next_fuel-GivesFresh : (b : Boost) (f : ℕ) → GivesFresh (next_fuel b f)
unfolding next_fuel
next_fuel-GivesFresh b zero r u p = tt
next_fuel-GivesFresh b (suc f) r u p =
    let here = read_token-Follows b (next_fuel b f) r.state (next_fuel-GivesFresh b f) r u p refl in
    subst (Gives (request_phase r.state))
      (sym (
        next_in_plain b (next_fuel b f) r.state r p
        ∙ ap (read_token b (next_fuel b f) r.state) (consume_fresh r u)))
      here

-- A failed reader holds an error.
abbrev pub Failing : Request → Type 0
Failing r = request_phase r.state ≡ Phase.failed → Follows r.code Phase.failed Phase.failed

pub next-Gives : (b : Boost) (r : Request) → Failing r → Gives (request_phase r.state) (next b r)
unfolding next next_fuel
next-Gives b r h = go r.state refl
  where
    plain :
        (s : State)
        → is_plain s ≡ true
        → r.state ≡ s
        → Gives (request_phase s) (next_in b (next_fuel b 1) s r)
    plain s p e = rw (next_in_plain b (next_fuel b 1) s r p) (
        read_token-Follows b (next_fuel b 1) s (next_fuel-GivesFresh b 1) (consume r)
          (consume_unread r) p (consume_state r ∙ e))

    go : (s : State) → r.state ≡ s → Gives (request_phase s) (next_in b (next_fuel b 1) s r)
    go errored e = unfold next_in in ground (arith, h)
    go expect_end_of_body e = unfold next_in in ground arith
    go expect_end_of_message e = unfold next_in in ground arith
    go s e = plain _ refl e
