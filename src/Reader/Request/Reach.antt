-- ===== src/Reader/Request/Reach.antt =====
-- Every request reader that a client can have.
use boost_http.Base.{
  ℕ, some, ◌++◌, drop, Bytes, ◌≡◌, arith, Bool-cases, inl, inr, length-append, length-drop,
}
use mathlib.Core.Path.{subst}
use boost_http.Header.{Boost, IsBoost}
use boost_http.Reader.Request.State.{Version, Request, construct, reset}
use boost_http.Reader.Request.Next.{is_insufficient, next, set_buffer}
use boost_http.Reader.Request.Safety.{Inv, Returns}
use boost_http.Reader.Request.Safety.Fault.{next_safe}
use boost_http.Reader.Request.Safety.Entry.{entry-Inv}
use boost_http.Reader.Request.Outcome.{IsSound, Gives, next-Gives}

-- The readers that calls of the members make from a new one. A new buffer begins with the unread
-- bytes of the old one, as `set_buffer` demands.
pub data Reach (b : Boost) : Request → Type 0 where
  made : (v : Version) (n : ℕ) → Reach b (construct v n)
  cleared : {r : Request} → Reach b r → Reach b (reset r)
  stepped : {r r' : Request} → Reach b r → next b r ≡ some r' → Reach b r'
  fed :
      {r r' : Request} (more : Bytes)
      → Reach b r
      → set_buffer b (drop r.idx r.ibuffer ++ more) r ≡ some r'
      → Reach b r'

entry-IsSound : (v : Version) (n : ℕ) (r : Request) → IsSound (construct v n) × IsSound (reset r)
unfolding construct reset
entry-IsSound v n r = (ground arith, ground arith)

next_returned :
    (b : Boost) (r r' : Request)
    → IsBoost b
    → Inv r
    → IsSound r
    → next b r ≡ some r'
    → Inv r' × IsSound r'
next_returned b r r' laws h s e =
    let safe = next_safe b r laws h in
    let ok = safe.1 (λ empty. cc (safe.0 empty)) in
    (subst (Returns Inv) e ok, subst Gives e (next-Gives b r s))

-- The reader at the beginning of a new buffer keeps both.
refill :
    (r : Request) (more : Bytes)
    → Inv r
    → IsSound r
    → let r' = record r { ibuffer = drop r.idx r.ibuffer ++ more; idx = 0 } in Inv r' × IsSound r'
refill r more h s = (
  record {
    in_bounds = omega (
      arith,
      h.in_bounds,
      length-append (drop r.idx r.ibuffer) more,
      length-drop r.idx r.ibuffer,
    );
    reading = h.reading;
    partial_static = h.partial_static;
  },
  record { failed = s.failed; used = s.used; host_read = s.host_read; framed = s.framed },
)

fed_returned :
    (b : Boost) (r r' : Request) (more : Bytes)
    → IsBoost b
    → Inv r
    → IsSound r
    → set_buffer b (drop r.idx r.ibuffer ++ more) r ≡ some r'
    → Inv r' × IsSound r'
unfolding set_buffer
fed_returned b r r' more laws h s e =
    let q = record r { ibuffer = drop r.idx r.ibuffer ++ more; idx = 0 } in
    let both = refill r more h s in
    elim (Bool-cases (is_insufficient r.code)) [
      | inl wait ↦ next_returned b q r' laws both.0 both.1 (rw wait at e)
      | inr done ↦
          let same : some q ≡ some r' = rw done at e in
          subst (λ o. Returns Inv o × Gives o) same both
    ]

-- Every reader that calls of `next`, `set_buffer` and `reset` make from a new one, where each new
-- buffer begins with all the unread bytes of the old one, keeps its token inside the buffer; is
-- errored or between the name and the value of a field while its body type is a READING one; has
-- matched less than the whole of the fixed string while it waits for it; is errored exactly when
-- its token is an error other than insufficient data; never holds a code that the reference
-- excludes; and, when its token is the end of the headers, has read a Host field unless the
-- version is 1.0, and is in the state that the framing of the body fixes.
pub Reach-safe : (b : Boost) {r : Request} → IsBoost b → Reach b r → Inv r × IsSound r
Reach-safe b laws (made v n) =
    (let (new, _) = entry-Inv v n (construct v n) in new, (entry-IsSound v n (construct v n)).0)
Reach-safe b laws (cleared {r} w) =
    ((entry-Inv Version.http_1_0 0 r).1, (entry-IsSound Version.http_1_0 0 r).1)
Reach-safe b laws (stepped {r} {r'} w e) =
    let (inv, sound) = Reach-safe b laws w in next_returned b r r' laws inv sound e
Reach-safe b laws (fed {r} {r'} more w e) =
    let (inv, sound) = Reach-safe b laws w in fed_returned b r r' more laws inv sound e
