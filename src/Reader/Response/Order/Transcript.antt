-- ===== src/Reader/Response/Order/Transcript.antt =====
-- What a client of the response reader is told by any calls.
use boost_http.Base.{
  ℕ, Bool-cases, Option-cases, inl, inr, true, false, Option, none, some, List, [], ◌∷◌, Bytes, ◌≡◌,
  refl, sym, ap, ◌∙◌, arith,
}
use mathlib.Core.Path.{subst}
use boost_http.Token.{Code}
use boost_http.Header.{Boost}
use boost_http.Reader.Grammar.{
  Phase, Follows, failed_again, nothing, Ordered, Told, tell, pass, tell-Ordered,
}
use boost_http.Reader.Response.State.{Response, construct, puteof}
use boost_http.Reader.Request.Next.{is_insufficient}
use boost_http.Reader.Response.Method.{frame, set_method}
use boost_http.Reader.Response.Value.{value_status_code}
use boost_http.Reader.Response.Next.{next, set_buffer}
use boost_http.Reader.Response.Order.{response_phase, Failing, Gives, next-Gives}

pub data Call : Type 0 where
  call_next : Call
  give : Bytes → Call
  end_input : Call
  tell_method : Bytes → Call

-- The codes of the tokens that the calls read, in order. `set_buffer` reads one where the token
-- was insufficient data. After a call that is undefined there are no more.
pub response_codes : Boost → List Call → Response → List Code × Option Response
response_codes b [] r = ([], some r)
response_codes b (call_next ∷ cs) r = tell (λ q. q.code) (next b r) (response_codes b cs)
response_codes b (end_input ∷ cs) r = response_codes b cs (puteof r)
response_codes b (tell_method m ∷ cs) r = pass (set_method m r) (response_codes b cs)
response_codes b (give buffer ∷ cs) r = elim (is_insufficient r.code) [
  | true ↦ tell (λ q. q.code) (set_buffer b buffer r) (response_codes b cs)
  | false ↦ pass (set_buffer b buffer r) (response_codes b cs)
]

-- A new buffer under a token, and under none.
give-full :
    (b : Boost) (buffer : Bytes) (cs : List Call) (r : Response)
    → is_insufficient r.code ≡ false
    → response_codes b (give buffer ∷ cs) r
      ≡ response_codes b cs (record r { ibuffer = buffer; idx = 0 })
unfolding response_codes set_buffer
give-full b buffer cs r e = rw (e, response_codes) (rw (e, set_buffer) refl)

give-empty :
    (b : Boost) (buffer : Bytes) (cs : List Call) (r : Response)
    → is_insufficient r.code ≡ true
    → response_codes b (give buffer ∷ cs) r
      ≡ tell (λ q. q.code) (next b (record r { ibuffer = buffer; idx = 0 })) (response_codes b cs)
unfolding response_codes set_buffer
give-empty b buffer cs r e = rw (e, response_codes) (rw (e, set_buffer) refl)

abbrev phase : Response → Phase
phase r = response_phase r.state

-- After a token, the rest of the calls.
told-Ordered :
    (p : Phase) (o : Option Response) (more : Response → List Code × Option Response)
    → Gives p o
    → ((r : Response) → Failing r → Ordered phase (phase r) (more r))
    → Ordered phase p (tell (λ r. r.code) o more)
told-Ordered p o more h k =
    tell-Ordered (λ (r : Response). r.code) phase p o more (gives o h)
      (λ r e. k r (failing o h r e))
  where
    gives : (o : Option Response) → Gives p o → Told (λ (r : Response). r.code) phase p o
    gives none h = tt
    gives (some r) h = h

    failing : (o : Option Response) → Gives p o → (r : Response) → o ≡ some r → Failing r
    failing none h r e = cc
    failing (some q) h r e =
        subst (λ (o : Option Response). elim o [ none ↦ Unit {0} | some x ↦ Failing x ]) e
          (λ f. failed_again q.code p (phase q) h f)

pass-Ordered :
    (p : Phase) (o : Option Response) (more : Response → List Code × Option Response)
    → ((r : Response) → o ≡ some r → Ordered phase p (more r))
    → Ordered phase p (pass o more)
pass-Ordered p none more k = (p, nothing)
pass-Ordered p (some r) more k = k r refl

set_method_keeps :
    (m : Bytes) (r q : Response) → set_method m r ≡ some q → (q.code ≡ r.code) × (q.state ≡ r.state)
unfolding set_method frame
set_method_keeps m r q e = ground (arith, Option-cases (value_status_code r))

Failing-kept : (r q : Response) → q.code ≡ r.code → q.state ≡ r.state → Failing r → Failing q
Failing-kept r q c s h = λ f.
    subst (λ (x : Code). Follows x Phase.failed Phase.failed) (sym c)
      (h (sym (ap response_phase s) ∙ f))

calls-Ordered :
    (b : Boost) (cs : List Call) (r : Response)
    → Failing r
    → Ordered phase (phase r) (response_codes b cs r)
unfolding response_codes puteof
calls-Ordered b [] r h = nothing
calls-Ordered b (call_next ∷ cs) r h =
    told-Ordered (phase r) (next b r) (response_codes b cs) (next-Gives b r h) (calls-Ordered b cs)
calls-Ordered b (end_input ∷ cs) r h = calls-Ordered b cs (puteof r) h
calls-Ordered b (tell_method m ∷ cs) r h =
    pass-Ordered (phase r) (set_method m r) (response_codes b cs) (λ q e.
      let same = set_method_keeps m r q e in
      subst (λ p. Ordered phase p (response_codes b cs q)) (ap response_phase same.1)
        (calls-Ordered b cs q (Failing-kept r q same.0 same.1 h)))
calls-Ordered b (give buffer ∷ cs) r h = elim (Bool-cases (is_insufficient r.code)) [
  | inl wait ↦
      let q = record r { ibuffer = buffer; idx = 0 } in
      subst (Ordered phase (phase r)) (sym (give-empty b buffer cs r wait)) (
        told-Ordered (phase r) (next b q) (response_codes b cs) (next-Gives b q h)
          (calls-Ordered b cs))
  | inr full ↦
      subst (Ordered phase (phase r)) (sym (give-full b buffer cs r full))
        (calls-Ordered b cs (record r { ibuffer = buffer; idx = 0 }) h)
]

-- Whatever buffers a client gives to a new response reader, and however it calls `next`,
-- `set_method` and `puteof`, the tokens that it reads, up to the first call that is undefined, stand
-- in an order that the grammar of responses has from the start of a response, and the grammar's
-- phase is that of the reader's state.
pub response_codes-Ordered :
    (b : Boost) (cs : List Call) (n : ℕ)
    → Ordered phase Phase.response_start (response_codes b cs (construct n))
unfolding construct
response_codes-Ordered b cs n = calls-Ordered b cs (construct n) (λ f. cc)
