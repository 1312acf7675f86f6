-- ===== src/Reader/Request/Order/Transcript.antt =====
-- What a client of the request reader is told by any calls.
use boost_http.Base.{
  ℕ, Bool-cases, inl, inr, true, false, Option, none, some, List, [], ◌∷◌, Bytes, ◌≡◌, refl, sym,
}
use mathlib.Core.Path.{subst}
use boost_http.Token.{Code}
use boost_http.Header.{Boost}
use boost_http.Reader.Grammar.{
  Phase, failed_again, nothing, Ordered, Told, tell, pass, tell-Ordered,
}
use boost_http.Reader.Request.State.{Version, Request, construct}
use boost_http.Reader.Request.Next.{is_insufficient, next, set_buffer}
use boost_http.Reader.Request.Order.{request_phase, Failing, Gives, next-Gives}

pub data Call : Type 0 where
  call_next : Call
  give : Bytes → Call

-- The codes of the tokens that the calls read, in order. `set_buffer` reads one where the token
-- was insufficient data. After a call that is undefined there are no more.
pub read_codes : Boost → List Call → Request → List Code × Option Request
read_codes b [] r = ([], some r)
read_codes b (call_next ∷ cs) r = tell (λ q. q.code) (next b r) (read_codes b cs)
read_codes b (give buffer ∷ cs) r = elim (is_insufficient r.code) [
  | true ↦ tell (λ q. q.code) (set_buffer b buffer r) (read_codes b cs)
  | false ↦ pass (set_buffer b buffer r) (read_codes b cs)
]

-- A new buffer under a token, and under none.
give-full :
    (b : Boost) (buffer : Bytes) (cs : List Call) (r : Request)
    → is_insufficient r.code ≡ false
    → read_codes b (give buffer ∷ cs) r ≡ read_codes b cs (record r { ibuffer = buffer; idx = 0 })
unfolding read_codes set_buffer
give-full b buffer cs r e = rw (e, read_codes) (rw (e, set_buffer) refl)

give-empty :
    (b : Boost) (buffer : Bytes) (cs : List Call) (r : Request)
    → is_insufficient r.code ≡ true
    → read_codes b (give buffer ∷ cs) r
      ≡ tell (λ q. q.code) (next b (record r { ibuffer = buffer; idx = 0 })) (read_codes b cs)
unfolding read_codes set_buffer
give-empty b buffer cs r e = rw (e, read_codes) (rw (e, set_buffer) refl)

abbrev phase : Request → Phase
phase r = request_phase r.state

-- After a token, the rest of the calls.
told-Ordered :
    (p : Phase) (o : Option Request) (more : Request → List Code × Option Request)
    → Gives p o
    → ((r : Request) → Failing r → Ordered phase (phase r) (more r))
    → Ordered phase p (tell (λ r. r.code) o more)
told-Ordered p o more h k =
    tell-Ordered (λ (r : Request). r.code) phase p o more (gives o h) (λ r e. k r (failing o h r e))
  where
    gives : (o : Option Request) → Gives p o → Told (λ (r : Request). r.code) phase p o
    gives none h = tt
    gives (some r) h = h

    failing : (o : Option Request) → Gives p o → (r : Request) → o ≡ some r → Failing r
    failing none h r e = cc
    failing (some q) h r e =
        subst (λ (o : Option Request). elim o [ none ↦ Unit {0} | some x ↦ Failing x ]) e
          (λ f. failed_again q.code p (phase q) h f)

calls-Ordered :
    (b : Boost) (cs : List Call) (r : Request)
    → Failing r
    → Ordered phase (phase r) (read_codes b cs r)
unfolding read_codes
calls-Ordered b [] r h = nothing
calls-Ordered b (call_next ∷ cs) r h =
    told-Ordered (phase r) (next b r) (read_codes b cs) (next-Gives b r h) (calls-Ordered b cs)
calls-Ordered b (give buffer ∷ cs) r h = elim (Bool-cases (is_insufficient r.code)) [
  | inl wait ↦
      let q = record r { ibuffer = buffer; idx = 0 } in
      subst (Ordered phase (phase r)) (sym (give-empty b buffer cs r wait)) (
        told-Ordered (phase r) (next b q) (read_codes b cs) (next-Gives b q h) (calls-Ordered b cs))
  | inr full ↦
      subst (Ordered phase (phase r)) (sym (give-full b buffer cs r full))
        (calls-Ordered b cs (record r { ibuffer = buffer; idx = 0 }) h)
]

-- Whatever buffers a client gives to a new request reader, and however it calls `next`, the tokens
-- that it reads, up to the first call that is undefined, stand in an order that the grammar of
-- requests has from the start of a request, and the grammar's phase is that of the reader's state.
pub read_codes-Ordered :
    (b : Boost) (cs : List Call) (v : Version) (n : ℕ)
    → Ordered phase Phase.request_start (read_codes b cs (construct v n))
unfolding construct
read_codes-Ordered b cs v n = calls-Ordered b cs (construct v n) (λ f. cc)
