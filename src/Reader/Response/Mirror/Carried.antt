-- ===== src/Reader/Response/Mirror/Carried.antt =====
-- A call of `next` in a shared state gives the whole of what the request reader gives.
use boost_http.Base.{
  not, ◌||◌, if◌then◌else◌, Option-cases, Bool-cases, inl, inr, scan, get_elem?, ◌==◌, drop, ◌-◌, ℕ,
  zero, suc, ◌+◌, Bool, true, false, Option, none, some, length, ◌≡◌, refl, sym, ap, ◌∙◌, arith,
  Bytes,
}
use mathlib.Core.Path.{subst}
use boost_http.Token.{Code}
use boost_http.Abnf.{is_chunk_ext_char}
use boost_http.Syntax.Match.{match_field_value}
use boost_http.Header.{Boost}
use boost_http.Reader.Request
use boost_http.Reader.Response.State.{State, BodyType, Response, emit}
use boost_http.Reader.Response.Value.{value_field_value}
use boost_http.Reader.Response.StatusLine.{end_line, on_crlf_after_reason_phrase}
use boost_http.Reader.Response.Fields.{
  expect_separator, on_colon, on_ows_after_colon, read_content_length, read_encoding,
  see_field_value, on_field_value, on_crlf_after_field_value,
}
use boost_http.Reader.Response.Body.{
  take_body, on_body, read_chunk_size, on_chunk_size, end_chunk_ext, stop_chunk_ext, on_chunk_ext,
  expect_strict_crlf, end_chunk_line, on_crlf_after_chunk_ext, on_chunk_data,
  on_crlf_after_chunk_data,
}
use boost_http.Reader.Response.Trailers.{
  on_trailer_name, on_trailer_colon, on_ows_after_trailer_colon, on_trailer_value,
  on_crlf_after_trailer_value, end_trailers, on_crlf_after_trailers,
}
use boost_http.Reader.Response.Next.{
  dispatch, consume, is_short, end_connection, on_end_of_buffer, read_token, next_in, next_fuel,
  next,
}
use boost_http.Reader.Response.Mirror.{mirror_state, mirror, mirrored, is_shared}
use boost_http.Reader.Response.Mirror.Whole.{
  InPlay, consume_fresh, consume_unread, shared-next_in, next-mirror,
}

-- The state of the response reader for one of the request reader; behind a message it expects
-- another one.
abbrev pub response_state : Request.State.State → State
response_state Request.State.errored = State.errored
response_state Request.State.expect_method = State.expect_version_static_str
response_state Request.State.expect_crlf_after_version = State.expect_crlf_after_reason_phrase
response_state Request.State.expect_field_name = State.expect_field_name
response_state Request.State.expect_colon = State.expect_colon
response_state Request.State.expect_ows_after_colon = State.expect_ows_after_colon
response_state Request.State.expect_field_value = State.expect_field_value
response_state Request.State.expect_crlf_after_field_value = State.expect_crlf_after_field_value
response_state Request.State.expect_crlf_after_headers = State.expect_crlf_after_headers
response_state Request.State.expect_body = State.expect_body
response_state Request.State.expect_end_of_body = State.expect_end_of_body
response_state Request.State.expect_end_of_message = State.expect_end_of_message
response_state Request.State.expect_chunk_size = State.expect_chunk_size
response_state Request.State.expect_chunk_ext = State.expect_chunk_ext
response_state Request.State.expext_crlf_after_chunk_ext = State.expext_crlf_after_chunk_ext
response_state Request.State.expect_chunk_data = State.expect_chunk_data
response_state Request.State.expect_crlf_after_chunk_data = State.expect_crlf_after_chunk_data
response_state Request.State.expect_trailer_name = State.expect_trailer_name
response_state Request.State.expect_trailer_colon = State.expect_trailer_colon
response_state Request.State.expect_ows_after_trailer_colon = State.expect_ows_after_trailer_colon
response_state Request.State.expect_trailer_value = State.expect_trailer_value
response_state Request.State.expect_crlf_after_trailer_value = State.expect_crlf_after_trailer_value
response_state Request.State.expect_crlf_after_trailers = State.expect_crlf_after_trailers
response_state _ = State.expect_version_static_str

-- The body type, where the response reader had `old`: behind a message it is not known, and where
-- the request reader has none, it is the old one.
abbrev pub response_body : BodyType → Code → Request.State.BodyType → BodyType
response_body old Code.end_of_message t = BodyType.unknown_body
response_body old c Request.State.no_body = old
response_body old c Request.State.content_length_read = BodyType.content_length_read
response_body old c Request.State.chunked_encoding_read = BodyType.chunked_encoding_read
response_body old c Request.State.random_encoding_read = BodyType.random_encoding_read
response_body old c Request.State.reading_content_length = BodyType.reading_content_length
response_body old c Request.State.reading_encoding = BodyType.reading_encoding

-- The members of the request reader, carried over to the response reader `r`.
abbrev pub carry : Response → Request.State.Request → Response
carry r q = record {
  eof_received = r.eof_received;
  http_1_0 = r.http_1_0;
  body_type = response_body r.body_type q.code q.body_type;
  body_size = q.body_size;
  state = response_state q.state;
  code = q.code;
  idx = q.idx;
  token_size = q.token_size;
  ibuffer = q.ibuffer;
}

abbrev pub carried : Response → Option Request.State.Request → Option Response
carried r none = none
carried r (some q) = some (carry r q)

-- What the mirror leaves out is what it was in `r`.
abbrev Kept : Response → Option Response → Type 0
Kept r none = Unit {0}
Kept r (some r') =
    (r'.eof_received ≡ r.eof_received)
    × (r'.http_1_0 ≡ r.http_1_0)
    × (r'.body_type ≡ response_body r.body_type r'.code (mirror r').body_type)
    × (r'.state ≡ response_state (mirror_state r'.state))

Kept-carried : (r : Response) (o : Option Response) → Kept r o → o ≡ carried r (mirrored o)
Kept-carried r none h = refl
Kept-carried r (some r') (e, h, t, s) = rw (← e, ← h) (rw (← t, ← s) refl)

open_end_of_buffer : (s : State) (r : Response) → r.eof_received ≡ false → on_end_of_buffer s r ≡ r
unfolding on_end_of_buffer
open_end_of_buffer s r e =
    ap (λ (t : Bool). if not t || is_short r.body_type r.body_size then r else end_connection s r) e

consumed_state : (r : Response) → (consume r).state ≡ r.state
unfolding consume
consumed_state r = ground arith

consumed :
    (r : Response)
    → ((consume r).eof_received ≡ r.eof_received)
      × ((consume r).http_1_0 ≡ r.http_1_0)
      × ((consume r).body_type ≡ r.body_type)
unfolding consume
consumed r = ground arith

module _ (r0 : Response) where
  -- A reader behind the preamble that has the members of `r0`.
  record IsFresh (r : Response) : Type 0 where
    unread : r.code ≡ Code.error_insufficient_data
    same_eof : r.eof_received ≡ r0.eof_received
    same_http : r.http_1_0 ≡ r0.http_1_0
    same_body : r.body_type ≡ r0.body_type
    play : InPlay r

  abbrev KeptFresh : (Response → Option Response) → Type 0
  KeptFresh f = (r : Response) → IsFresh r → is_shared r.state ≡ true → Kept r0 (f r)

  still-Kept :
      (r : Response)
      → IsFresh r
      → r.state ≡ response_state (mirror_state r.state)
      → Kept r0 (some r)
  still-Kept r h s =
      let u = h.unread in
      let e = h.same_eof in let d = h.same_http in let t = h.same_body in ground arith

  see_field_value-Kept :
      (b : Boost) (t : BodyType) (field : Bytes) (n : ℕ) (r : Response)
      → IsFresh r
      → Kept r0 (
          see_field_value b t field (emit State.expect_crlf_after_field_value Code.field_value n r))
  unfolding see_field_value read_content_length read_encoding
  see_field_value-Kept b t field n r h =
      let u = h.unread in
      let e = h.same_eof in let d = h.same_http in let same = h.same_body in ground arith

  module _ (again : Response → Option Response) (k : KeptFresh again) where
    -- The call of `next` inside, in another state.
    moved :
        (s : State) (n : ℕ) (r : Response)
        → IsFresh r
        → is_shared s ≡ true
        → Kept r0 (again (record r { state = s; token_size = n }))
    moved s n r h p =
        k (record r { state = s; token_size = n })
          (record {
            unread = h.unread;
            same_eof = h.same_eof;
            same_http = h.same_http;
            same_body = h.same_body;
            play = h.play;
          })
          p

    stop_chunk_ext-Kept :
        (c j : ℕ) (r : Response) → IsFresh r → Kept r0 (stop_chunk_ext again c j r)
    unfolding stop_chunk_ext end_chunk_ext
    stop_chunk_ext-Kept c j r h =
        let rest = moved State.expext_crlf_after_chunk_ext (j - r.idx) r h refl in
        let u = h.unread in
        let e = h.same_eof in let d = h.same_http in let same = h.same_body in ground (arith, rest)

    on_chunk_ext-Kept :
        (r : Response)
        → IsFresh r
        → r.state ≡ State.expect_chunk_ext
        → Kept r0 (on_chunk_ext again r)
    unfolding on_chunk_ext
    on_chunk_ext-Kept r h s =
        let u = h.unread in
        let e = h.same_eof in
        let d = h.same_http in
        let same = h.same_body in
        elim (Option-cases (scan is_chunk_ext_char r.ibuffer (r.idx + r.token_size))) [
          | inl past ↦ rw past tt
          | inr (j, at) ↦ rw at (elim (Bool-cases (j == length r.ibuffer)) [
            | inl end ↦ rw end (ground arith)
            | inr more ↦ rw more (elim (Option-cases (get_elem? r.ibuffer j)) [
              | inl outside ↦ rw outside tt
              | inr (c, read) ↦ rw read (stop_chunk_ext-Kept c j r h)
            ])
          ])
        ]

    on_field_value-Kept :
        (b : Boost) (r : Response)
        → IsFresh r
        → r.state ≡ State.expect_field_value
        → Kept r0 (on_field_value b r)
    unfolding on_field_value
    on_field_value-Kept b r h s =
        let n = match_field_value (drop r.idx r.ibuffer) in
        let r' = emit State.expect_crlf_after_field_value Code.field_value n r in
        let u = h.unread in
        let e = h.same_eof in
        let d = h.same_http in
        let same = h.same_body in
        elim (Bool-cases (n == length (drop r.idx r.ibuffer))) [
          | inl end ↦ rw end (ground arith)
          | inr more ↦ rw more (elim (Option-cases (value_field_value r')) [
            | inl bad ↦ rw bad tt
            | inr (field, at) ↦ rw at (see_field_value-Kept b r.body_type field n r h)
          ])
        ]

    dispatch-Kept :
        (b : Boost) (s : State) (r : Response)
        → is_shared s ≡ true
        → IsFresh r
        → r.state ≡ s
        → Kept r0 (dispatch b again s r)
    unfolding dispatch on_crlf_after_reason_phrase end_line on_colon expect_separator
        on_ows_after_colon on_crlf_after_field_value on_body take_body on_chunk_size read_chunk_size
        on_crlf_after_chunk_ext expect_strict_crlf end_chunk_line on_chunk_data
        on_crlf_after_chunk_data on_trailer_name on_trailer_colon on_ows_after_trailer_colon
        on_trailer_value on_crlf_after_trailer_value end_trailers on_crlf_after_trailers
    dispatch-Kept b State.expect_ows_after_colon r p h s =
        let rest = moved State.expect_field_value r.token_size r h refl in
        let u = h.unread in
        let e = h.same_eof in let d = h.same_http in let same = h.same_body in ground (arith, rest)
    dispatch-Kept b State.expect_trailer_name r p h s =
        let rest = moved State.expect_crlf_after_trailers r.token_size r h refl in
        let u = h.unread in
        let e = h.same_eof in let d = h.same_http in let same = h.same_body in ground (arith, rest)
    dispatch-Kept b State.expect_ows_after_trailer_colon r p h s =
        let rest = moved State.expect_trailer_value r.token_size r h refl in
        let u = h.unread in
        let e = h.same_eof in let d = h.same_http in let same = h.same_body in ground (arith, rest)
    dispatch-Kept b State.expect_chunk_ext r p h s = on_chunk_ext-Kept r h s
    dispatch-Kept b State.expect_field_value r p h s = on_field_value-Kept b r h s
    dispatch-Kept b _ r p h s =
        let u = h.unread in
        let e = h.same_eof in let d = h.same_http in let same = h.same_body in ground arith

  read_token-Kept :
      (b : Boost) (again : Response → Option Response) (r : Response)
      → KeptFresh again
      → is_shared r.state ≡ true
      → IsFresh r
      → Kept r0 (read_token b again r.state r)
  unfolding read_token
  read_token-Kept b again r k p h = elim (Bool-cases (r.idx == length r.ibuffer)) [
    | inr byte ↦ rw byte (dispatch-Kept again k b r.state r p h refl)
    | inl end ↦
        let open_end : r.eof_received ≡ false = ground (arith, h.play) in
        rw end (
          subst (λ q. Kept r0 (some q)) (sym (open_end_of_buffer r.state r open_end))
            (still-Kept r h (ground arith)))
  ]

  next_in-Kept :
      (b : Boost) (again : Response → Option Response) (r : Response)
      → KeptFresh again
      → is_shared r.state ≡ true
      → IsFresh (consume r)
      → Kept r0 (next_in b again r.state r)
  next_in-Kept b again r k p h =
      let same = consumed_state r in
      subst (Kept r0)
        (ap (λ s. read_token b again s (consume r)) same ∙ sym (shared-next_in b again r.state r p))
        (read_token-Kept b again (consume r) k (ap is_shared same ∙ p) h)

  fuel-Kept : (b : Boost) (f : ℕ) → KeptFresh (next_fuel b f)
  unfolding next_fuel
  fuel-Kept b zero r h p = tt
  fuel-Kept b (suc f) r h p =
      next_in-Kept b (next_fuel b f) r (fuel-Kept b f) p
        (subst IsFresh (sym (consume_fresh r h.unread)) h)

-- In a state that the readers share, with a byte to read or the end of the connection not known,
-- `next` of the response reader gives exactly what `next` of the request reader gives at the same
-- place of the same buffer, in the state of the same name: the flags of the connection are what they
-- were, the body type is unknown behind a message and the old one where the request reader has no
-- body, and where the request reader expects another request the response reader expects another
-- response.
pub next-carried :
    (b : Boost) (r : Response)
    → is_shared r.state ≡ true
    → InPlay (consume r)
    → next b r ≡ carried r (Request.Next.next b (mirror r))
unfolding next next_fuel
next-carried b r p play =
    Kept-carried r (next b r) (
      next_in-Kept r b (next_fuel b 1) r (fuel-Kept r b 1) p (record {
        unread = consume_unread r;
        same_eof = (consumed r).0;
        same_http = (consumed r).1;
        same_body = (consumed r).2;
        play = play;
      }))
    ∙ ap (carried r) (next-mirror b r p play)
