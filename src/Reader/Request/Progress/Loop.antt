-- ===== src/Reader/Request/Progress/Loop.antt =====
-- The loop of a client: `next` again and again on one buffer, until it wants more data.
use boost_http.Base.{
  Bool-cases, inl, inr, ◌-◌, ◌*◌, ℕ, suc, zero, ◌+◌, ◌<◌, ◌≤◌, true, false, some, length, ◌≡◌, refl,
  sym, ap, ◌∙◌, arith, if◌then◌else◌,
}
use mathlib.Core.Path.{subst}
use boost_http.Header.{Boost}
use boost_http.Reader.Request.State.{State, Request}
use boost_http.Reader.Request.Next.{is_insufficient, consume, read_token, next_in, next_fuel, next}
use boost_http.Reader.Request.Safety.{Inv}
use boost_http.Reader.Request.Safety.Plain.{
  consume_fresh, consume_unread, is_plain, next_in_plain, consume_ibuffer, consume_state,
}
use boost_http.Reader.Request.Tiling.{consume_idx, StartsAt, consume_idx, next-StartsAt}
use boost_http.Reader.Request.Progress.{is_over, rank, Moves, MovesFresh, read_token-Moves}

next_fuel-MovesFresh : (b : Boost) (f : ℕ) → MovesFresh (next_fuel b f)
unfolding next_fuel
next_fuel-MovesFresh b zero r u p h = tt
next_fuel-MovesFresh b (suc f) r u p h =
    let here = read_token-Moves (next_fuel b f) (next_fuel-MovesFresh b f) b r u h in
    subst (Moves (rank r.state))
      (sym (
        next_in_plain b (next_fuel b f) r.state r p
        ∙ ap (read_token b (next_fuel b f) r.state) (consume_fresh r u)))
      here

consume-fits : (r : Request) → Inv r → (consume r).idx ≤ length (consume r).ibuffer
unfolding consume
consume-fits r h = ground (arith, h.in_bounds)

pub plain-Moves :
    (b : Boost) (r : Request) → Inv r → is_plain r.state ≡ true → Moves (rank r.state) (next b r)
unfolding next next_fuel
plain-Moves b r h p =
    let here =
      read_token-Moves (next_fuel b 1) (next_fuel-MovesFresh b 1) b (consume r) (consume_unread r)
        (consume-fits r h) in
    let at : Moves (rank r.state) (read_token b (next_fuel b 1) r.state (consume r)) =
      subst (λ s. Moves (rank s) (read_token b (next_fuel b 1) s (consume r))) (consume_state r)
        here in
    subst (Moves (rank r.state)) (sym (next_in_plain b (next_fuel b 1) r.state r p)) at

-- What is left to do: four times the bytes behind the token, and the rank of the state.
abbrev pub unread : Request → ℕ
unread r = length r.ibuffer - (if is_insufficient r.code then r.idx else r.idx + r.token_size)

abbrev pub measure : Request → ℕ
measure r = 4 * unread r + rank r.state

pub rank-le : (s : State) → rank s ≤ 3
rank-le s = ground arith

-- A token that begins where the one before it ends, and takes a byte or brings the state closer to
-- one that does.
pub token-measure :
    (r r' : Request)
    → Inv r'
    → Moves (rank r.state) (some r')
    → StartsAt (consume r).idx (consume r).ibuffer (some r')
    → is_over r' ≡ false
    → measure r' < measure r
token-measure r r' h' moves at on =
    let here : r'.idx ≡ (if is_insufficient r.code then r.idx else r.idx + r.token_size) =
      at.0 ∙ consume_idx r in
    let same : length r'.ibuffer ≡ length r.ibuffer = ap length (at.1 ∙ consume_ibuffer r) in
    let fits = h'.in_bounds in ground (arith, moves on, rank-le r'.state)

plain-measure :
    (b : Boost) (r r' : Request)
    → Inv r
    → Inv r'
    → next b r ≡ some r'
    → is_over r' ≡ false
    → is_plain r.state ≡ true
    → measure r' < measure r
plain-measure b r r' h h' e on p =
    token-measure r r' h' (subst (Moves (rank r.state)) e (plain-Moves b r h p))
      (subst (StartsAt (consume r).idx (consume r).ibuffer) e (next-StartsAt b r p)) on

-- The states of the first switch.
special-measure :
    (b : Boost) (s : State) (r r' : Request)
    → r.state ≡ s
    → is_plain s ≡ false
    → next_in b (next_fuel b 1) s r ≡ some r'
    → is_over r' ≡ false
    → measure r' < measure r
unfolding next_in
special-measure b State.errored r r' s p e on = ground arith
special-measure b State.expect_end_of_body r r' s p e on = ground arith
special-measure b State.expect_end_of_message r r' s p e on = ground arith
special-measure b _ r r' s p e on = cc

pub next-measure :
    (b : Boost) (r r' : Request)
    → Inv r
    → Inv r'
    → next b r ≡ some r'
    → is_over r' ≡ false
    → measure r' < measure r
unfolding next next_fuel
next-measure b r r' h h' e on = elim (Bool-cases (is_plain r.state)) [
  | inl p ↦ plain-measure b r r' h h' e on p
  | inr p ↦ special-measure b r.state r r' refl p e on
]
