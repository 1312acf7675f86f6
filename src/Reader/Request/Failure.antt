-- ===== src/Reader/Request/Failure.antt =====
-- An error is final.
use boost_http.Base.{Option, some, none, List, [], ◌∷◌, Bytes, ◌≡◌, refl, arith, true, ◌>>=◌, ap}
use boost_http.Token.{Code}
use boost_http.Header.{Boost, IsBoost}
use boost_http.Reader.Request.State.{errored, Request, expected_token, expected_in}
use boost_http.Reader.Request.Next.{next_in, next_fuel, next, set_buffer}
use boost_http.Reader.Request.Outcome.{IsSound, is_failure}
use boost_http.Reader.Request.Reach.{Reach, Reach-safe}

-- The calls, other than `reset`, by which a client moves a reader.
pub data Call : Type 0 where
  call_next : Call
  give : Bytes → Call

pub perform : Boost → List Call → Request → Option Request
perform b [] r = some r
perform b (call_next ∷ cs) r = next b r >>= perform b cs
perform b (give buffer ∷ cs) r = set_buffer b buffer r >>= perform b cs

abbrev pub StaysFailed : Code → Option Request → Type 0
StaysFailed c none = ⊥
StaysFailed c (some r) = (r.code ≡ c) × (r.state ≡ errored) × (expected_token r ≡ c)

next-errored : (b : Boost) (r : Request) → r.state ≡ errored → next b r ≡ some r
unfolding next next_fuel next_in
next-errored b r e = ground arith

set_buffer-failed :
    (b : Boost) (buffer : Bytes) (r : Request)
    → is_failure r.code ≡ true
    → set_buffer b buffer r ≡ some (record r { ibuffer = buffer; idx = 0 })
unfolding set_buffer
set_buffer-failed b buffer r e = ground arith

perform-StaysFailed :
    (b : Boost) (cs : List Call) (r : Request)
    → is_failure r.code ≡ true
    → r.state ≡ errored
    → StaysFailed r.code (perform b cs r)
unfolding perform expected_token
perform-StaysFailed b [] r f e = (refl, e, ap (λ s. expected_in s r) e)
perform-StaysFailed b (call_next ∷ cs) r f e =
    rw (next-errored b r e) (perform-StaysFailed b cs r f e)
perform-StaysFailed b (give buffer ∷ cs) r f e =
    rw (set_buffer-failed b buffer r f)
      (perform-StaysFailed b cs (record r { ibuffer = buffer; idx = 0 }) f e)

errored_of_failure : (r : Request) → IsSound r → is_failure r.code ≡ true → r.state ≡ errored
errored_of_failure r s f = ground (arith, s)

-- Once a reader that calls make from a new one, where each new buffer begins with all the unread
-- bytes of the old one, holds an error other than insufficient data, every later sequence of
-- calls of `next` and `set_buffer` returns, with any buffers, and leaves that same error as its
-- token and as the expected one, in the errored state.
pub failure_final :
    (b : Boost) {r : Request} (cs : List Call)
    → IsBoost b
    → Reach b r
    → is_failure r.code ≡ true
    → StaysFailed r.code (perform b cs r)
failure_final b {r} cs laws w f =
    perform-StaysFailed b cs r f (errored_of_failure r (Reach-safe b laws w).1 f)
