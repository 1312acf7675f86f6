-- ===== src/Reader/Response/Headers.antt =====
-- The state that the end of the headers leads to, from the body type before it (response.ipp).
use boost_http.Base.{
  ◌≢◌, ◌⊎◌, Option-cases, Bool-cases, inl, inr, ◌==◌, drop, ℕ, ◌<◌, true, Option, none, some,
  length, ◌≡◌, refl, sym, ◌∙◌, arith,
}
use mathlib.Core.Path.{subst}
use boost_http.Token.{Code}
use boost_http.Header.{Boost}
use boost_http.Syntax.Crlf.{Result}
use boost_http.Syntax.Match.{match_field_name}
use boost_http.Reader.Grammar.{Phase, Follows}
use boost_http.Reader.Request.Outcome.{is_failure}
use boost_http.Reader.Response.State.{State, BodyType, Response, emit}
use boost_http.Reader.Response.Value.{value_field_name}
use boost_http.Reader.Response.StatusLine.{end_line, on_crlf_after_reason_phrase}
use boost_http.Reader.Response.Fields.{
  see_transfer_encoding, see_content_length, see_field_name, on_field_name,
  on_crlf_after_field_value,
}
use boost_http.Reader.Response.Body.{until_eof, choose_body, end_headers, on_crlf_after_headers}
use boost_http.Reader.Response.Next.{
  dispatch, consume, end_connection, on_end_of_buffer, read_token, next_fuel, next,
}
use boost_http.Reader.Response.Mirror.Whole.{consume_unread}
use boost_http.Reader.Response.Safety.{is_plain, is_errored, Inv}
use boost_http.Reader.Response.Progress.{consume-fits}
use boost_http.Reader.Response.Safety.Total.{consume_state, next_in_plain, next_fuel-Ready}
use boost_http.Reader.Response.Order.{response_phase, Gives, next-Gives}

-- RFC 7230, 3.3.3, for the body type and size that the headers gave: no body, one that ends with
-- the connection, one in chunks, or one of a known size.
abbrev pub IsFramedBy : BodyType → ℕ → BodyType → State → Type 0
IsFramedBy BodyType.force_no_body n t s =
    (t ≡ BodyType.force_no_body) × (s ≡ State.expect_end_of_body)
IsFramedBy BodyType.force_no_body_and_stop n t s =
    (t ≡ BodyType.force_no_body_and_stop) × (s ≡ State.expect_end_of_body)
IsFramedBy BodyType.connection_delimited n t s =
    (t ≡ BodyType.force_no_body_and_stop) × (s ≡ State.expect_unsafe_body)
IsFramedBy BodyType.random_encoding_read n t s =
    (t ≡ BodyType.force_no_body_and_stop) × (s ≡ State.expect_unsafe_body)
IsFramedBy BodyType.chunked_encoding_read n t s =
    (t ≡ BodyType.chunked_encoding_read) × (s ≡ State.expect_chunk_size)
IsFramedBy BodyType.content_length_read n t s =
    (t ≡ BodyType.content_length_read)
    × (n ≡ 0 → s ≡ State.expect_end_of_body)
    × (0 < n → s ≡ State.expect_body)
IsFramedBy _ n t s = ⊥

-- If the token is the end of the headers, the body is framed by what they gave.
abbrev pub FramesBody : BodyType → ℕ → Option Response → Type 0
FramesBody t n none = Unit {0}
FramesBody t n (some r') = r'.code ≡ Code.end_of_headers → IsFramedBy t n r'.body_type r'.state

end_headers-FramesBody :
    (res : Result) (r : Response)
    → r.code ≡ Code.error_insufficient_data
    → FramesBody r.body_type r.body_size (end_headers res r)
unfolding end_headers choose_body until_eof
end_headers-FramesBody res r u = ground arith

see_field_name-FramesBody :
    (b : Boost) (t : BodyType) (n : ℕ) (r : Response)
    → r.code ≡ Code.field_name
    → FramesBody t n (see_field_name b r)
unfolding see_field_name see_transfer_encoding see_content_length
see_field_name-FramesBody b t n r u = ground (arith, Option-cases (value_field_name r))

-- The cases that stand among the fields, at a byte.
dispatch-FramesBody :
    (b : Boost) (s : State) (r : Response)
    → response_phase s ≡ Phase.fields
    → r.code ≡ Code.error_insufficient_data
    → r.state ≡ s
    → r.idx < length r.ibuffer
    → FramesBody r.body_type r.body_size (dispatch b (next_fuel b 1) s r)
unfolding dispatch on_crlf_after_reason_phrase on_crlf_after_field_value end_line
    on_crlf_after_headers on_field_name
dispatch-FramesBody b State.expect_crlf_after_reason_phrase r p u e h = ground arith
dispatch-FramesBody b State.expect_crlf_after_field_value r p u e h = ground arith
dispatch-FramesBody b State.expect_crlf_after_headers r p u e h = end_headers-FramesBody _ r u
dispatch-FramesBody b State.expect_field_name r p u e h =
    let n = match_field_name (drop r.idx r.ibuffer) in
    let moved = record r { state = State.expect_crlf_after_headers } in
    elim (Bool-cases (n == 0)) [
      | inl none_read ↦ rw none_read (
          subst (FramesBody r.body_type r.body_size)
            (sym (next_fuel-Ready b 0 State.expect_crlf_after_headers moved refl u h refl))
            (end_headers-FramesBody _ moved u))
      | inr some_read ↦ elim (Bool-cases (n == length (drop r.idx r.ibuffer))) [
        | inl end ↦ rw (some_read, end) (λ c. cc)
        | inr more ↦
            rw (some_read, more)
              (see_field_name-FramesBody b r.body_type r.body_size
                (emit State.expect_colon Code.field_name n r) refl)
      ]
    ]
dispatch-FramesBody b _ r p u e h = cc

end-FramesBody :
    (s : State) (r : Response)
    → r.code ≡ Code.error_insufficient_data
    → FramesBody r.body_type r.body_size (some (on_end_of_buffer s r))
unfolding on_end_of_buffer end_connection
end-FramesBody s r u = ground arith

consumed :
    (r : Response) → ((consume r).body_type ≡ r.body_type) × ((consume r).body_size ≡ r.body_size)
unfolding consume
consumed r = ground arith

-- A call of `next` among the fields.
fields-FramesBody :
    (b : Boost) (r : Response)
    → Inv r
    → response_phase r.state ≡ Phase.fields
    → FramesBody r.body_type r.body_size (next b r)
unfolding next next_fuel
fields-FramesBody b r h p =
    let plain : is_plain r.state ≡ true = ground arith in
    let q = consume r in
    let kept = consumed r in
    let fits = consume-fits r h in
    subst (FramesBody r.body_type r.body_size)
      (sym (next_in_plain b (next_fuel b 1) r.state r plain))
      (subst (λ t. FramesBody t r.body_size (read_token b (next_fuel b 1) r.state q)) kept.0
        (subst (λ n. FramesBody q.body_type n (read_token b (next_fuel b 1) r.state q)) kept.1
          (unfold read_token in
            elim (Bool-cases (q.idx == length q.ibuffer)) [
              | inl end ↦ rw end (end-FramesBody r.state q (consume_unread r))
              | inr byte ↦ rw byte (
                  dispatch-FramesBody b r.state q p (consume_unread r) (consume_state r)
                    (ground arith))
            ])))

-- Elsewhere the grammar has no end of the headers.
other-FramesBody :
    (t : BodyType) (n : ℕ) (p : Phase) (o : Option Response)
    → p ≢ Phase.fields
    → Gives p o
    → FramesBody t n o
other-FramesBody t n p none ne h = tt
other-FramesBody t n p (some r') ne h = λ e.
    let follows : Follows Code.end_of_headers p (response_phase r'.state) =
      subst (λ c. Follows c p (response_phase r'.state)) e h in
    absurd (ne follows.0)

failure-Follows : (c : Code) → is_failure c ≡ true → Follows c Phase.failed Phase.failed
failure-Follows c h = ground arith

is_fields : (p : Phase) → (p ≡ Phase.fields) ⊎ (p ≢ Phase.fields)
is_fields Phase.fields = inl refl
is_fields p = inr (λ e. cc)

pub next-FramesBody :
    (b : Boost) (r : Response) → Inv r → FramesBody r.body_type r.body_size (next b r)
next-FramesBody b r h = elim (is_fields (response_phase r.state)) [
  | inl among ↦ fields-FramesBody b r h among
  | inr ne ↦ other-FramesBody r.body_type r.body_size (response_phase r.state) (next b r) ne (
      next-Gives b r (λ f.
        failure-Follows r.code
          (h.sound.failed ∙ (let e : is_errored r.state ≡ true = ground arith in e))))
]
