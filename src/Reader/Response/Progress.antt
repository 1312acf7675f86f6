-- ===== src/Reader/Response/Progress.antt =====
-- Where the tokens of a response lie, and that calls of `next` go on: what the request reader's
-- theorems say of the mirror, and the same for the cases of the response reader alone.
pub mod Drained
use boost_http.Base.{
  ◌||◌, ◌&&◌, ◌==◌, ◌-◌, ℕ, suc, ◌+◌, ◌<◌, ◌≤◌, Bool, true, false, Option, none, some, length,
  length-drop, drop, ◌≡◌, ◌⊎◌, refl, sym, ap, ◌∙◌, arith, if◌then◌else◌, Bytes, Bool-cases, inl,
  inr,
}
use mathlib.Core.Path.{subst}
use boost_http.Token.{Code}
use boost_http.Header.{Boost, IsBoost}
use boost_http.Syntax.Crlf.{Result}
use boost_http.Syntax.Match.{match_field_name}
use boost_http.Reader.Request
use boost_http.Reader.Request.Tiling.{StartsAt, next-StartsAt}
use boost_http.Reader.Request.Next.{is_insufficient}
use boost_http.Reader.Request.Progress.{is_over, rank, Moves}
use boost_http.Reader.Request.Progress.Loop.{measure, token-measure, plain-Moves}
use boost_http.Reader.Response.State.{State, Response, emit}
use boost_http.Reader.Response.Value.{value_field_name}
use boost_http.Reader.Response.StatusLine.{
  on_version_static_str, on_version, expect_space, on_sp_after_version, on_status_code,
  on_sp_after_status_code, on_reason_phrase,
}
use boost_http.Reader.Response.Fields.{
  see_transfer_encoding, see_content_length, see_field_name, on_field_name,
}
use boost_http.Reader.Response.Body.{
  until_eof, choose_body, end_headers, on_crlf_after_headers, on_unsafe_body,
}
use boost_http.Reader.Response.Next.{
  dispatch, consume, end_connection, on_end_of_buffer, read_token, next_in, next_fuel, next,
}
use boost_http.Reader.Response.Mirror.{mirror_state, mirror, mirrored, is_shared}
use boost_http.Reader.Response.Mirror.Whole.{consume_unread, InPlay, next-mirror, consume-mirror}
use boost_http.Reader.Response.Safety.{is_plain, Inv, Returns}
use boost_http.Reader.Response.Safety.Fault.{EmptyValue, next-Inv}
use boost_http.Reader.Response.Safety.Total.{
  consume_state, next_in_plain, next_fuel-Ready, is_shared-is_plain,
}

-- A token that begins at `i` in the same buffer, and takes a byte or brings the state closer to one
-- that does.
abbrev pub Advances : ℕ → Bytes → ℕ → Option Response → Type 0
Advances i buffer k o = StartsAt i buffer (mirrored o) × Moves k (mirrored o)

end_headers-Advances :
    (res : Result) (r : Response)
    → r.code ≡ Code.error_insufficient_data
    → Advances r.idx r.ibuffer 0 (end_headers res r)
unfolding end_headers choose_body until_eof
end_headers-Advances res r u = ground arith

see_field_name-Advances :
    (b : Boost) (r : Response) → 0 < r.token_size → Advances r.idx r.ibuffer 0 (see_field_name b r)
unfolding see_field_name see_transfer_encoding see_content_length
see_field_name-Advances b r h = ground arith

end_headers-moved :
    (b : Boost) (r : Response)
    → r.code ≡ Code.error_insufficient_data
    → Advances r.idx r.ibuffer 0 (dispatch b (next_fuel b 0) State.expect_crlf_after_headers r)
unfolding dispatch on_crlf_after_headers
end_headers-moved b r u = end_headers-Advances _ r u

field_name-Advances :
    (b : Boost) (again : Response → Option Response) (r : Response)
    → r.code ≡ Code.error_insufficient_data
    → r.state ≡ State.expect_field_name
    → Advances r.idx r.ibuffer 0 (again (record r { state = State.expect_crlf_after_headers }))
    → Advances r.idx r.ibuffer 0 (on_field_name b again r)
unfolding on_field_name
field_name-Advances b again r u e rest =
    let n = match_field_name (drop r.idx r.ibuffer) in
    let q = emit State.expect_colon Code.field_name n r in
    elim (Bool-cases (n == 0)) [
      | inl none_read ↦ rw none_read rest
      | inr some_read ↦ elim (Bool-cases (n == length (drop r.idx r.ibuffer))) [
        | inl end ↦ rw (some_read, end) (ground arith)
        | inr more ↦ rw (some_read, more) (see_field_name-Advances b q (ground arith))
      ]
    ]

-- The cases that are not shared.
own-Advances :
    (b : Boost) (s : State) (r : Response)
    → is_plain s ≡ true
    → is_shared s ≡ false
    → r.code ≡ Code.error_insufficient_data
    → r.state ≡ s
    → r.idx < length r.ibuffer
    → Advances r.idx r.ibuffer (rank (mirror_state s)) (dispatch b (next_fuel b 1) s r)
unfolding dispatch on_version_static_str on_version on_sp_after_version expect_space on_status_code
    on_sp_after_status_code on_reason_phrase on_unsafe_body on_crlf_after_headers
own-Advances b State.expect_version_static_str r p q u e h = ground arith
own-Advances b State.expect_version r p q u e h = ground arith
own-Advances b State.expect_sp_after_version r p q u e h = ground arith
own-Advances b State.expect_status_code r p q u e h = ground arith
own-Advances b State.expect_sp_after_status_code r p q u e h = ground arith
own-Advances b State.expect_reason_phrase r p q u e h = ground arith
own-Advances b State.expect_crlf_after_headers r p q u e h = end_headers-Advances _ r u
own-Advances b State.expect_unsafe_body r p q u e h = ground (arith, length-drop r.idx r.ibuffer)
own-Advances b State.expect_field_name r p q u e h =
    let n = match_field_name (drop r.idx r.ibuffer) in
    let moved = record r { state = State.expect_crlf_after_headers } in
    let again : Advances r.idx r.ibuffer 0 (next_fuel b 1 moved) =
      subst (Advances r.idx r.ibuffer 0)
        (sym (next_fuel-Ready b 0 State.expect_crlf_after_headers moved refl u h refl))
        (end_headers-moved b moved u) in
    field_name-Advances b (next_fuel b 1) r u e again
own-Advances b _ r p q u e h = cc

end-Advances :
    (s : State) (r : Response)
    → r.code ≡ Code.error_insufficient_data
    → is_plain s ≡ true
    → Advances r.idx r.ibuffer (rank (mirror_state s)) (some (on_end_of_buffer s r))
unfolding on_end_of_buffer end_connection
end-Advances s r u p = ground arith

pub consume-fits : (r : Response) → Inv r → (consume r).idx ≤ length (consume r).ibuffer
unfolding consume
consume-fits r h = ground (arith, h.mirrors.in_bounds)

-- What the request reader does at a byte in a shared state.
shared-Advances :
    (b : Boost) (r : Response)
    → Inv r
    → is_shared r.state ≡ true
    → ((consume r).idx == length (consume r).ibuffer) ≡ false
    → Advances (consume r).idx (consume r).ibuffer (rank (mirror_state r.state)) (next b r)
shared-Advances b r h p byte =
    let k = rank (mirror_state r.state) in
    let plain : Request.Safety.Plain.is_plain (mirror_state r.state) ≡ true = ground arith in
    let place = sym (consume-mirror b r) in
    let same = sym (next-mirror b r p (inl byte)) in
    let at : StartsAt (consume r).idx (consume r).ibuffer (Request.Next.next b (mirror r)) =
      subst (λ q. StartsAt q.idx q.ibuffer (Request.Next.next b (mirror r))) place
        (next-StartsAt b (mirror r) plain) in
    (
      subst (StartsAt (consume r).idx (consume r).ibuffer) same at,
      subst (Moves k) same (plain-Moves b (mirror r) h.mirrors plain),
    )

-- A call of `next` in a state of the second switch.
plain-Advances :
    (b : Boost) (r : Response)
    → Inv r
    → is_plain r.state ≡ true
    → Advances (consume r).idx (consume r).ibuffer (rank (mirror_state r.state)) (next b r)
plain-Advances b r h p =
    let k = rank (mirror_state r.state) in
    let fits = consume-fits r h in
    let next_is : next b r ≡ read_token b (next_fuel b 1) r.state (consume r) =
      unfold next next_fuel in next_in_plain b (next_fuel b 1) r.state r p in
    elim (Bool-cases ((consume r).idx == length (consume r).ibuffer)) [
      | inl end ↦
          subst (Advances (consume r).idx (consume r).ibuffer k) (sym next_is)
            (unfold read_token in rw end (end-Advances r.state (consume r) (consume_unread r) p))
      | inr byte ↦ elim (Bool-cases (is_shared r.state)) [
        | inl shared ↦ shared-Advances b r h shared byte
        | inr own ↦ subst (Advances (consume r).idx (consume r).ibuffer k) (sym next_is) (
            unfold read_token in
            rw byte (
              own-Advances b r.state (consume r) p own (consume_unread r) (consume_state r)
                (ground arith)))
      ]
    ]

consume_place :
    (r : Response)
    → ((consume r).idx ≡ (if is_insufficient r.code then r.idx else r.idx + r.token_size))
      × ((consume r).ibuffer ≡ r.ibuffer)
unfolding consume
consume_place r = (ground arith, ground arith)

-- An error, or the refusal to read another message, takes no place of its own.
abbrev stays : State → Bool
stays State.errored = true
stays State.expect_end_of_connection_error = true
stays _ = false

-- Where the next token begins: behind the token, unless that is still being read.
abbrev pub response_next_place : Response → ℕ
response_next_place r =
    if stays r.state || (is_plain r.state && is_insufficient r.code)
    then r.idx
    else r.idx + r.token_size

special-StartsAt :
    (b : Boost) (again : Response → Option Response) (s : State) (r : Response)
    → r.state ≡ s
    → is_plain s ≡ false
    → StartsAt (response_next_place r) r.ibuffer (mirrored (next_in b again s r))
unfolding next_in
special-StartsAt b again State.errored r e p = ground arith
special-StartsAt b again State.expect_end_of_body r e p = ground arith
special-StartsAt b again State.expect_end_of_message r e p = ground arith
special-StartsAt b again State.expect_end_of_connection_error r e p = ground arith
special-StartsAt b again _ r e p = cc

plain_place : (r : Response) → is_plain r.state ≡ true → (consume r).idx ≡ response_next_place r
plain_place r p =
    let goes : stays r.state ≡ false = ground arith in (consume_place r).0 ∙ rw (p, goes) refl

place-StartsAt :
    (b : Boost) (r : Response)
    → Inv r
    → StartsAt (response_next_place r) r.ibuffer (mirrored (next b r))
unfolding next next_fuel
place-StartsAt b r h = elim (Bool-cases (is_plain r.state)) [
  | inl p ↦
      subst (λ i. StartsAt i r.ibuffer (mirrored (next b r))) (plain_place r p)
        (subst (λ (t : Bytes). StartsAt (consume r).idx t (mirrored (next b r))) (consume_place r).1
          (plain-Advances b r h p).0)
  | inr p ↦ special-StartsAt b (next_fuel b 1) r.state r refl p
]

some-StartsAt :
    (i : ℕ) (buffer : Bytes) (o : Option Response)
    → Returns Inv o
    → StartsAt i buffer (mirrored o)
    → (r' : Response) × (o ≡ some r') × (r'.idx ≡ i) × (r'.ibuffer ≡ buffer)
some-StartsAt i buffer none inv h = absurd inv
some-StartsAt i buffer (some r') inv h = (r', refl, h.0, h.1)

-- From every response reader that satisfies the invariant, with no empty field value at its place,
-- `next` returns, and the token that it gives, whole or partial, is in the same buffer and begins
-- where the one before it ends, or where the partial one begins; an error that is given again, and
-- the refusal to read behind the last message of a connection, stay where the token is.
pub response_next_tiles :
    (b : Boost) (r : Response)
    → IsBoost b
    → Inv r
    → ¬ EmptyValue r
    → (r' : Response) × (next b r ≡ some r')
      × (r'.idx ≡ response_next_place r)
      × (r'.ibuffer ≡ r.ibuffer)
response_next_tiles b r laws h ne =
    some-StartsAt (response_next_place r) r.ibuffer (next b r) (next-Inv b r laws h ne)
      (place-StartsAt b r h)

plain-measure :
    (b : Boost) (r r' : Response)
    → Inv r
    → Inv r'
    → next b r ≡ some r'
    → is_over (mirror r') ≡ false
    → is_plain r.state ≡ true
    → measure (mirror r') < measure (mirror r)
plain-measure b r r' h h' e on p =
    let k = rank (mirror_state r.state) in
    let here : Advances (consume r).idx (consume r).ibuffer k (some r') =
      subst (Advances (consume r).idx (consume r).ibuffer k) e (plain-Advances b r h p) in
    let at : StartsAt (Request.Next.consume (mirror r)).idx
        (Request.Next.consume (mirror r)).ibuffer (some (mirror r')) =
      subst (λ q. StartsAt q.idx q.ibuffer (some (mirror r'))) (consume-mirror b r) here.0 in
    token-measure (mirror r) (mirror r') h'.mirrors here.1 at on

-- The states of the first switch.
special-measure :
    (b : Boost) (s : State) (r r' : Response)
    → r.state ≡ s
    → is_plain s ≡ false
    → next_in b (next_fuel b 1) s r ≡ some r'
    → is_over (mirror r') ≡ false
    → measure (mirror r') < measure (mirror r)
unfolding next_in
special-measure b State.errored r r' s p e on = ground arith
special-measure b State.expect_end_of_body r r' s p e on = ground arith
special-measure b State.expect_end_of_message r r' s p e on = ground arith
special-measure b State.expect_end_of_connection_error r r' s p e on = ground arith
special-measure b _ r r' s p e on = cc

pub next-measure :
    (b : Boost) (r r' : Response)
    → Inv r
    → Inv r'
    → next b r ≡ some r'
    → is_over (mirror r') ≡ false
    → measure (mirror r') < measure (mirror r)
unfolding next next_fuel
next-measure b r r' h h' e on = elim (Bool-cases (is_plain r.state)) [
  | inl p ↦ plain-measure b r r' h h' e on p
  | inr p ↦ special-measure b r.state r r' refl p e on
]
