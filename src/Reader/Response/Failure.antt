-- ===== src/Reader/Response/Failure.antt =====
-- An error of the response reader is final.
use boost_http.Base.{Option, some, none, List, [], ◌∷◌, Bytes, ◌≡◌, refl, arith, true, ◌>>=◌, ap}
use boost_http.Token.{Code}
use boost_http.Header.{Boost, IsBoost}
use boost_http.Reader.Request.Outcome.{is_failure}
use boost_http.Reader.Response.State.{State, Response, puteof, expected_token, expected_in}
use boost_http.Reader.Response.Next.{next_in, next_fuel, next, set_buffer}
use boost_http.Reader.Response.Safety.{IsSound}
use boost_http.Reader.Response.Reach.{Reach, Reach-Inv}

-- The calls, other than `reset`, that a client may make on any token.
pub data Call : Type 0 where
  call_next : Call
  give : Bytes → Call
  end_input : Call

pub perform : Boost → List Call → Response → Option Response
perform b [] r = some r
perform b (call_next ∷ cs) r = next b r >>= perform b cs
perform b (give buffer ∷ cs) r = set_buffer b buffer r >>= perform b cs
perform b (end_input ∷ cs) r = perform b cs (puteof r)

abbrev pub StaysFailed : Code → Option Response → Type 0
StaysFailed c none = ⊥
StaysFailed c (some r) = (r.code ≡ c) × (r.state ≡ State.errored) × (expected_token r ≡ c)

next-errored : (b : Boost) (r : Response) → r.state ≡ State.errored → next b r ≡ some r
unfolding next next_fuel next_in
next-errored b r e = ground arith

set_buffer-failed :
    (b : Boost) (buffer : Bytes) (r : Response)
    → is_failure r.code ≡ true
    → set_buffer b buffer r ≡ some (record r { ibuffer = buffer; idx = 0 })
unfolding set_buffer
set_buffer-failed b buffer r e = ground arith

perform-StaysFailed :
    (b : Boost) (cs : List Call) (r : Response)
    → is_failure r.code ≡ true
    → r.state ≡ State.errored
    → StaysFailed r.code (perform b cs r)
unfolding perform expected_token puteof
perform-StaysFailed b [] r f e = (refl, e, ap (λ s. expected_in s r) e)
perform-StaysFailed b (call_next ∷ cs) r f e =
    rw (next-errored b r e) (perform-StaysFailed b cs r f e)
perform-StaysFailed b (give buffer ∷ cs) r f e =
    rw (set_buffer-failed b buffer r f)
      (perform-StaysFailed b cs (record r { ibuffer = buffer; idx = 0 }) f e)
perform-StaysFailed b (end_input ∷ cs) r f e =
    perform-StaysFailed b cs (record r { eof_received = true }) f e

errored_of_failure : (r : Response) → IsSound r → is_failure r.code ≡ true → r.state ≡ State.errored
errored_of_failure r s f = ground (arith, s)

-- Once a response reader that calls make from a new one, where each new buffer begins with all
-- the unread bytes of the old one, holds an error other than insufficient data, every later
-- sequence of calls of `next`, `set_buffer` and `puteof` returns, with any buffers, and leaves
-- that same error as its token and as the expected one, in the errored state.
pub response_failure_final :
    (b : Boost) {r : Response} (cs : List Call)
    → IsBoost b
    → Reach b r
    → is_failure r.code ≡ true
    → StaysFailed r.code (perform b cs r)
response_failure_final b {r} cs laws w f =
    perform-StaysFailed b cs r f (errored_of_failure r (Reach-Inv b laws w).sound f)
