-- ===== src/Reader/Response/Mirror/Whole.antt =====
-- A call of `next` in a shared state.
use boost_http.Base.{
  ◌==◌, ℕ, zero, suc, true, false, Option, length, ◌≡◌, ◌⊎◌, refl, sym, ap, ◌∙◌, arith, Bool-cases,
  inl, inr,
}
use boost_http.Token.{Code}
use boost_http.Header.{Boost}
use boost_http.Reader.Request
use boost_http.Reader.Response.State.{State, Response}
use boost_http.Reader.Response.Next.{
  consume, read_token, on_end_of_buffer, next_in, next_fuel, next,
}
use boost_http.Reader.Response.Mirror.{mirror_state, mirror, mirrored, is_shared}
use boost_http.Reader.Response.Mirror.Cases.{dispatch-Mirrors}

-- There is a byte to read, or none and the end of the connection is not known.
abbrev pub InPlay : Response → Type 0
InPlay r = ((r.idx == length r.ibuffer) ≡ false) ⊎ (r.eof_received ≡ false)

pub consume_unread : (r : Response) → (consume r).code ≡ Code.error_insufficient_data
unfolding consume
consume_unread r = ground arith

pub consume_fresh : (r : Response) → r.code ≡ Code.error_insufficient_data → consume r ≡ r
unfolding consume
consume_fresh r u = ground arith

module _ (b : Boost) where
  -- The catch-all of the first switch.
  pub shared-next_in :
      (again : Response → Option Response) (s : State) (r : Response)
      → is_shared s ≡ true
      → next_in b again s r ≡ read_token b again s (consume r)
  unfolding next_in
  shared-next_in again State.errored r p = cc
  shared-next_in again State.expect_end_of_body r p = cc
  shared-next_in again State.expect_end_of_message r p = cc
  shared-next_in again State.expect_end_of_connection_error r p = cc
  shared-next_in again _ r p = refl

  shared-plain :
      (again : Request.State.Request → Option Request.State.Request) (s : State)
      (q : Request.State.Request)
      → is_shared s ≡ true
      → Request.Next.next_in b again (mirror_state s) q
        ≡ Request.Next.read_token b again (mirror_state s) (Request.Next.consume q)
  shared-plain again s q p =
      Request.Safety.Plain.next_in_plain b again (mirror_state s) q (ground arith)

  pub consume-mirror : (r : Response) → mirror (consume r) ≡ Request.Next.consume (mirror r)
  unfolding consume Request.Next.consume
  consume-mirror r = ground arith

  module _ (f : ℕ)
      (k : (r : Response)
        → is_shared r.state ≡ true
        → (r.idx == length r.ibuffer) ≡ false
        → r.code ≡ Code.error_insufficient_data
        → mirrored (next_fuel b f r) ≡ Request.Next.next_fuel b f (mirror r)) where
    read_token-mirror :
        (s : State) (r : Response)
        → is_shared s ≡ true
        → InPlay r
        → r.code ≡ Code.error_insufficient_data
        → mirrored (read_token b (next_fuel b f) s r)
          ≡ Request.Next.read_token b (Request.Next.next_fuel b f) (mirror_state s) (mirror r)
    unfolding read_token Request.Next.read_token on_end_of_buffer
    read_token-mirror s r p (inl byte) u =
        rw byte (dispatch-Mirrors (next_fuel b f) (Request.Next.next_fuel b f) k b s p r byte u)
    read_token-mirror s r p (inr open_end) u = elim (Bool-cases (r.idx == length r.ibuffer)) [
      | inl end ↦ rw (end, open_end) refl
      | inr byte ↦
          rw byte (dispatch-Mirrors (next_fuel b f) (Request.Next.next_fuel b f) k b s p r byte u)
    ]

    round :
        (r : Response)
        → is_shared r.state ≡ true
        → InPlay (consume r)
        → mirrored (next_in b (next_fuel b f) r.state r)
          ≡ Request.Next.next_in b (Request.Next.next_fuel b f) (mirror_state r.state) (mirror r)
    round r p h =
        ap mirrored (shared-next_in (next_fuel b f) r.state r p)
        ∙ read_token-mirror r.state (consume r) p h (consume_unread r)
        ∙ ap (Request.Next.read_token b (Request.Next.next_fuel b f) (mirror_state r.state))
            (consume-mirror r)
        ∙ sym (shared-plain (Request.Next.next_fuel b f) r.state (mirror r) p)

  fuel-mirror :
      (f : ℕ) (r : Response)
      → is_shared r.state ≡ true
      → (r.idx == length r.ibuffer) ≡ false
      → r.code ≡ Code.error_insufficient_data
      → mirrored (next_fuel b f r) ≡ Request.Next.next_fuel b f (mirror r)
  unfolding next_fuel Request.Next.next_fuel
  fuel-mirror zero r p byte u = refl
  fuel-mirror (suc f) r p byte u =
      let same = consume_fresh r u in
      round f (fuel-mirror f) r p
        (inl (ap (λ (q : Response). q.idx == length q.ibuffer) same ∙ byte))

  -- In a shared state, with a byte to read or the end of the connection not known, `next` of the
  -- response reader does what `next` of the request reader does at the same place of the same
  -- buffer.
  pub next-mirror :
      (r : Response)
      → is_shared r.state ≡ true
      → InPlay (consume r)
      → mirrored (next b r) ≡ Request.Next.next b (mirror r)
  unfolding next next_fuel Request.Next.next Request.Next.next_fuel
  next-mirror r p h = round 1 (fuel-mirror 1) r p h
