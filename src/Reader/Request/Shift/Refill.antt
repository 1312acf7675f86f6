-- ===== src/Reader/Request/Shift/Refill.antt =====
-- A new buffer that begins with the bytes that were not read: `set_buffer` as its comment asks
-- for it to be called.
use boost_http.Base.{
  ℕ, zero, suc, ◌+◌, ◌≤◌, ◌==◌, ◌++◌, length, length-take, take, drop, take-append-drop, Option,
  some, Bytes, true, ◌≡◌, refl, ap, ◌∙◌, sym, arith, Bool-cases, inl, inr,
}
use mathlib.Core.List.{append_assoc}
use mathlib.Core.Path.{subst}
use boost_http.Header.{Boost, IsBoost}
use boost_http.Reader.Request.State.{State, Request}
use boost_http.Reader.Request.Next.{
  is_insufficient, consume, read_token, next_in, next_fuel, next, set_buffer,
}
use boost_http.Reader.Request.Safety.{Inv, Returns}
use boost_http.Reader.Request.Safety.Total.{next-Inv}
use boost_http.Reader.Request.Safety.Plain.{is_plain, next_in_plain}
use boost_http.Reader.Request.Safety.Fault.{next_safe}
use boost_http.Reader.Request.Safety.Entry.{rebuffered}
use boost_http.Reader.Request.Resume.{extend, settled}
use boost_http.Reader.Request.Resume.Whole.{next_resumes}
use boost_http.Reader.Request.Shift.{prefixed, each}
use boost_http.Reader.Request.Shift.Handlers.{Shifts, at_end, dispatch-Shifts}

module _ (pre : Bytes) (b : Boost) where
  consume-prefixed : (r : Request) → consume (prefixed pre r) ≡ prefixed pre (consume r)
  unfolding consume
  consume-prefixed r =
      let assoc : length pre + r.idx + r.token_size ≡ length pre + (r.idx + r.token_size) =
        omega arith in
      rw assoc (ground arith)

  read_token-Shifts :
      (again : Request → Option Request) (s : State)
      → Shifts pre again
      → Shifts pre (read_token b again s)
  unfolding read_token
  read_token-Shifts again s k r =
      rw (at_end pre r.idx r.ibuffer) (elim (Bool-cases (r.idx == length r.ibuffer)) [
        | inl end ↦ rw end refl
        | inr some_left ↦ rw some_left (dispatch-Shifts pre again k b s r)
      ])

  plain-Shifts :
      (again : Request → Option Request) (s : State) (r : Request)
      → Shifts pre again
      → is_plain s ≡ true
      → next_in b again s (prefixed pre r) ≡ each (prefixed pre) (next_in b again s r)
  plain-Shifts again s r k p =
      next_in_plain b again s (prefixed pre r) p
      ∙ ap (read_token b again s) (consume-prefixed r)
      ∙ read_token-Shifts again s k (consume r)
      ∙ sym (ap (each (prefixed pre)) (next_in_plain b again s r p))

  next_in-Shifts :
      (again : Request → Option Request) (s : State)
      → Shifts pre again
      → Shifts pre (next_in b again s)
  next_in-Shifts again State.errored k r = unfold next_in in refl
  next_in-Shifts again State.expect_end_of_body k r =
      unfold next_in in
      let assoc : length pre + r.idx + r.token_size ≡ length pre + (r.idx + r.token_size) =
        omega arith in
      rw assoc refl
  next_in-Shifts again State.expect_end_of_message k r =
      unfold next_in in
      let assoc : length pre + r.idx + r.token_size ≡ length pre + (r.idx + r.token_size) =
        omega arith in
      rw assoc refl
  next_in-Shifts again s k r = plain-Shifts again _ r k refl

  next_fuel-Shifts : (f : ℕ) → Shifts pre (next_fuel b f)
  unfolding next_fuel
  next_fuel-Shifts zero r = refl
  next_fuel-Shifts (suc f) r = next_in-Shifts (next_fuel b f) r.state (next_fuel-Shifts f) r

  next-Shifts : Shifts pre (next b)
  unfolding next
  next-Shifts r = next_fuel-Shifts 2 r

-- The bytes in front of the place, put back.
put_back :
    (more : Bytes) (r : Request)
    → r.idx ≤ length r.ibuffer
    → prefixed (take r.idx r.ibuffer) (rebuffered (drop r.idx r.ibuffer ++ more) r) ≡ extend more r
put_back more r h =
    let place : length (take r.idx r.ibuffer) + 0 ≡ r.idx =
      omega (arith, length-take r.idx r.ibuffer) in
    let bytes : take r.idx r.ibuffer ++ (drop r.idx r.ibuffer ++ more) ≡ r.ibuffer ++ more =
      sym (append_assoc (take r.idx r.ibuffer) (drop r.idx r.ibuffer) more)
      ∙ ap (λ xs. xs ++ more) (take-append-drop r.idx r.ibuffer) in
    ap (λ n. record r { idx = n; ibuffer = take r.idx r.ibuffer ++ (drop r.idx r.ibuffer ++ more) })
      place
    ∙ ap (λ xs. record r { ibuffer = xs }) bytes

-- What a call left when it wanted more data is in bounds.
returned-fits :
    (b : Boost) (r r' : Request)
    → IsBoost b
    → Inv r
    → next b r ≡ some r'
    → r'.idx ≤ length r'.ibuffer
returned-fits b r r' laws h e =
    let inv : Inv r' =
      subst (Returns Inv) e
        (next-Inv b r laws h (λ empty. let fault = (next_safe b r laws h).0 empty in cc)) in
    omega (arith, inv.in_bounds)

-- From a reader that satisfies the invariant, when `next` has returned for want of more data:
-- `set_buffer` with a buffer of the bytes that were not read and more bytes behind them gives, with
-- the bytes that were dropped put back, what `next` would have given at once on the old buffer with
-- the same bytes behind it, up to the size of a token that is an error.
pub set_buffer_resumes :
    (b : Boost) (more : Bytes) (r r' : Request)
    → IsBoost b
    → Inv r
    → next b r ≡ some r'
    → is_insufficient r'.code ≡ true
    → settled (
        each (prefixed (take r'.idx r'.ibuffer)) (set_buffer b (drop r'.idx r'.ibuffer ++ more) r'))
      ≡ settled (next b (extend more r))
set_buffer_resumes b more r r' laws h e wait =
    let pre = take r'.idx r'.ibuffer in
    let fresh = rebuffered (drop r'.idx r'.ibuffer ++ more) r' in
    let called : set_buffer b (drop r'.idx r'.ibuffer ++ more) r' ≡ next b fresh =
      unfold set_buffer in rw wait refl in
    ap (λ o. settled (each (prefixed pre) o)) called
    ∙ ap settled (sym (next-Shifts pre b fresh))
    ∙ ap (λ q. settled (next b q)) (put_back more r' (returned-fits b r r' laws h e))
    ∙ next_resumes b more r r' h e wait
