-- ===== src/Reader/Response/Order.antt =====
-- The tokens of a response come in the order of the grammar.
pub mod Transcript
use boost_http.Base.{
  Option-cases, Bool-cases, inl, inr, scan, get_elem?, ◌==◌, drop, ◌-◌, ℕ, suc, zero, ◌+◌, Bool,
  true, false, Option, none, some, length, ◌≡◌, refl, sym, ap, ◌∙◌, arith, Bytes,
}
use mathlib.Core.Path.{subst}
use boost_http.Token.{Code}
use boost_http.Abnf.{is_chunk_ext_char}
use boost_http.Syntax.Match.{match_field_name, match_field_value}
use boost_http.Header.{Boost}
use boost_http.Syntax.Crlf.{Result}
use boost_http.Reader.Grammar.{Phase, Follows}
use boost_http.Reader.Response.State.{State, BodyType, Response, emit}
use boost_http.Reader.Response.Value.{value_field_value}
use boost_http.Reader.Response.StatusLine.{
  on_version_static_str, on_version, on_sp_after_version, expect_space, on_status_code,
  on_sp_after_status_code, on_reason_phrase, on_crlf_after_reason_phrase, end_line,
}
use boost_http.Reader.Response.Fields.{
  see_transfer_encoding, see_content_length, see_field_name, on_field_name, expect_separator,
  on_colon, on_ows_after_colon, read_content_length, read_encoding, see_field_value, on_field_value,
  on_crlf_after_field_value,
}
use boost_http.Reader.Response.Body.{
  until_eof, choose_body, end_headers, on_crlf_after_headers, take_body, on_body, on_unsafe_body,
  read_chunk_size, on_chunk_size, end_chunk_ext, stop_chunk_ext, on_chunk_ext, expect_strict_crlf,
  end_chunk_line, on_crlf_after_chunk_ext, on_chunk_data, on_crlf_after_chunk_data,
}
use boost_http.Reader.Response.Trailers.{
  on_trailer_name, on_trailer_colon, on_ows_after_trailer_colon, on_trailer_value,
  on_crlf_after_trailer_value, end_trailers, on_crlf_after_trailers,
}
use boost_http.Reader.Response.Next.{
  dispatch, consume, end_connection, on_end_of_buffer, read_token, stops, next_in, next_fuel, next,
}
use boost_http.Reader.Response.Safety.{is_plain}
use boost_http.Reader.Response.Mirror.Whole.{consume_fresh, consume_unread}
use boost_http.Reader.Response.Safety.Total.{consume_state, next_in_plain}

abbrev pub response_phase : State → Phase
response_phase State.errored = Phase.failed
response_phase State.expect_version_static_str = Phase.response_start
response_phase State.expect_version = Phase.response_start
response_phase State.expect_sp_after_version = Phase.version_read
response_phase State.expect_status_code = Phase.version_read
response_phase State.expect_sp_after_status_code = Phase.status_read
response_phase State.expect_reason_phrase = Phase.status_read
response_phase State.expect_crlf_after_reason_phrase = Phase.fields
response_phase State.expect_field_name = Phase.fields
response_phase State.expect_crlf_after_field_value = Phase.fields
response_phase State.expect_crlf_after_headers = Phase.fields
response_phase State.expect_colon = Phase.name_read
response_phase State.expect_ows_after_colon = Phase.name_read
response_phase State.expect_field_value = Phase.name_read
response_phase State.expect_body = Phase.sized_body
response_phase State.expect_unsafe_body = Phase.unsized_body
response_phase State.expect_end_of_body = Phase.no_more_body
response_phase State.expect_end_of_message = Phase.body_over
response_phase State.expect_end_of_connection_error = Phase.stopped
response_phase State.expect_chunk_size = Phase.chunked_body
response_phase State.expect_chunk_ext = Phase.chunked_body
response_phase State.expext_crlf_after_chunk_ext = Phase.chunked_body
response_phase State.expect_chunk_data = Phase.chunked_body
response_phase State.expect_crlf_after_chunk_data = Phase.chunked_body
response_phase State.expect_trailer_name = Phase.trailers
response_phase State.expect_crlf_after_trailer_value = Phase.trailers
response_phase State.expect_crlf_after_trailers = Phase.trailers
response_phase State.expect_trailer_colon = Phase.trailer_name_read
response_phase State.expect_ows_after_trailer_colon = Phase.trailer_name_read
response_phase State.expect_trailer_value = Phase.trailer_name_read

-- The result's token may stand behind the phase.
abbrev pub Gives : Phase → Option Response → Type 0
Gives p none = Unit {0}
Gives p (some r) = Follows r.code p (response_phase r.state)

abbrev GivesFresh : (Response → Option Response) → Type 0
GivesFresh f =
    (r : Response)
    → r.code ≡ Code.error_insufficient_data
    → is_plain r.state ≡ true
    → Gives (response_phase r.state) (f r)

see_field_name-Follows :
    (b : Boost) (r : Response)
    → r.code ≡ Code.field_name
    → r.state ≡ State.expect_colon
    → Gives Phase.fields (see_field_name b r)
unfolding see_field_name see_transfer_encoding see_content_length
see_field_name-Follows b r u e = ground arith

see_field_value-Follows :
    (b : Boost) (t : BodyType) (field : Bytes) (r : Response)
    → r.code ≡ Code.field_value
    → r.state ≡ State.expect_crlf_after_field_value
    → Gives Phase.name_read (see_field_value b t field r)
unfolding see_field_value read_content_length read_encoding
see_field_value-Follows b t field r u e = ground arith

end_headers-Follows :
    (res : Result) (r : Response)
    → r.code ≡ Code.error_insufficient_data
    → r.state ≡ State.expect_crlf_after_headers
    → Gives Phase.fields (end_headers res r)
unfolding end_headers choose_body until_eof
end_headers-Follows res r u e = ground arith

module _ (again : Response → Option Response) (k : GivesFresh again) where
  stop_chunk_ext-Follows :
      (c j : ℕ) (r : Response)
      → r.code ≡ Code.error_insufficient_data
      → Gives Phase.chunked_body (stop_chunk_ext again c j r)
  unfolding stop_chunk_ext end_chunk_ext
  stop_chunk_ext-Follows c j r u =
      ground
        (arith, k (record r { state = State.expext_crlf_after_chunk_ext; token_size = j - r.idx }))

  on_chunk_ext-Follows :
      (r : Response)
      → r.code ≡ Code.error_insufficient_data
      → r.state ≡ State.expect_chunk_ext
      → Gives Phase.chunked_body (on_chunk_ext again r)
  unfolding on_chunk_ext
  on_chunk_ext-Follows r u e =
      elim (Option-cases (scan is_chunk_ext_char r.ibuffer (r.idx + r.token_size))) [
        | inl past ↦ rw past tt
        | inr (j, at) ↦ rw at (elim (Bool-cases (j == length r.ibuffer)) [
          | inl end ↦ rw end (ground arith)
          | inr more ↦ rw more (elim (Option-cases (get_elem? r.ibuffer j)) [
            | inl outside ↦ rw outside tt
            | inr (c, read) ↦ rw read (stop_chunk_ext-Follows c j r u)
          ])
        ])
      ]

  on_field_value-Follows :
      (b : Boost) (r : Response)
      → r.code ≡ Code.error_insufficient_data
      → r.state ≡ State.expect_field_value
      → Gives Phase.name_read (on_field_value b r)
  unfolding on_field_value
  on_field_value-Follows b r u e =
      let n = match_field_value (drop r.idx r.ibuffer) in
      let r' = emit State.expect_crlf_after_field_value Code.field_value n r in
      elim (Bool-cases (n == length (drop r.idx r.ibuffer))) [
        | inl end ↦ rw end (ground arith)
        | inr more ↦ rw more (elim (Option-cases (value_field_value r')) [
          | inl bad ↦ rw bad tt
          | inr (field, at) ↦ rw at (see_field_value-Follows b r.body_type field r' refl refl)
        ])
      ]

  dispatch-Follows :
      (b : Boost) (s : State) (r : Response)
      → r.code ≡ Code.error_insufficient_data
      → r.state ≡ s
      → Gives (response_phase s) (dispatch b again s r)
  unfolding dispatch on_version_static_str on_version on_sp_after_version expect_space
      on_status_code on_sp_after_status_code on_reason_phrase on_crlf_after_reason_phrase end_line
      on_field_name on_colon expect_separator on_ows_after_colon on_crlf_after_field_value
      on_crlf_after_headers on_body take_body on_unsafe_body on_chunk_size read_chunk_size
      on_crlf_after_chunk_ext expect_strict_crlf end_chunk_line on_chunk_data
      on_crlf_after_chunk_data on_trailer_name on_trailer_colon on_ows_after_trailer_colon
      on_trailer_value on_crlf_after_trailer_value end_trailers on_crlf_after_trailers
  dispatch-Follows b State.expect_field_name r u e =
      let n = match_field_name (drop r.idx r.ibuffer) in
      ground (
        arith,
        k (record r { state = State.expect_crlf_after_headers }),
        see_field_name-Follows b (emit State.expect_colon Code.field_name n r),
      )
  dispatch-Follows b State.expect_ows_after_colon r u e =
      ground (arith, k (record r { state = State.expect_field_value }))
  dispatch-Follows b State.expect_trailer_name r u e =
      ground (arith, k (record r { state = State.expect_crlf_after_trailers }))
  dispatch-Follows b State.expect_ows_after_trailer_colon r u e =
      ground (arith, k (record r { state = State.expect_trailer_value }))
  dispatch-Follows b State.expect_chunk_ext r u e = on_chunk_ext-Follows r u e
  dispatch-Follows b State.expect_field_value r u e = on_field_value-Follows b r u e
  dispatch-Follows b State.expect_crlf_after_headers r u e = end_headers-Follows _ r u e
  dispatch-Follows b _ r u e = ground arith

read_token-Follows :
    (b : Boost) (again : Response → Option Response) (s : State)
    → GivesFresh again
    → (r : Response) → r.code ≡ Code.error_insufficient_data
    → is_plain s ≡ true
    → r.state ≡ s
    → Gives (response_phase s) (read_token b again s r)
unfolding read_token on_end_of_buffer end_connection
read_token-Follows b again s k r u p e = elim (Bool-cases (r.idx == length r.ibuffer)) [
  | inl end ↦ rw end (ground arith)
  | inr more ↦ rw more (dispatch-Follows again k b s r u e)
]

next_fuel-GivesFresh : (b : Boost) (f : ℕ) → GivesFresh (next_fuel b f)
unfolding next_fuel
next_fuel-GivesFresh b zero r u p = tt
next_fuel-GivesFresh b (suc f) r u p =
    let here = read_token-Follows b (next_fuel b f) r.state (next_fuel-GivesFresh b f) r u p refl in
    subst (Gives (response_phase r.state))
      (sym (
        next_in_plain b (next_fuel b f) r.state r p
        ∙ ap (read_token b (next_fuel b f) r.state) (consume_fresh r u)))
      here

-- A failed reader holds an error.
abbrev pub Failing : Response → Type 0
Failing r = response_phase r.state ≡ Phase.failed → Follows r.code Phase.failed Phase.failed

pub next-Gives : (b : Boost) (r : Response) → Failing r → Gives (response_phase r.state) (next b r)
unfolding next next_fuel
next-Gives b r h = go r.state refl
  where
    plain :
        (s : State)
        → is_plain s ≡ true
        → r.state ≡ s
        → Gives (response_phase s) (next_in b (next_fuel b 1) s r)
    plain s p e = rw (next_in_plain b (next_fuel b 1) s r p) (
        read_token-Follows b (next_fuel b 1) s (next_fuel-GivesFresh b 1) (consume r)
          (consume_unread r) p (consume_state r ∙ e))

    go : (s : State) → r.state ≡ s → Gives (response_phase s) (next_in b (next_fuel b 1) s r)
    go State.errored e = unfold next_in in ground (arith, h)
    go State.expect_end_of_body e = unfold next_in in ground arith
    go State.expect_end_of_message e = unfold next_in in unfold stops in ground arith
    go State.expect_end_of_connection_error e = unfold next_in in ground arith
    go s e = plain _ refl e
