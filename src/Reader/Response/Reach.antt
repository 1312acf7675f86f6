-- ===== src/Reader/Response/Reach.antt =====
-- Every response reader that a client can have.
use boost_http.Base.{
  ℕ, some, ◌++◌, drop, Bytes, ◌≡◌, ◌≢◌, ◌⊎◌, refl, sym, ◌∙◌, arith, Bool-cases, inl, inr,
  length-append, length-drop,
}
use mathlib.Core.Path.{subst}
use boost_http.Token.{Code}
use boost_http.Header.{Boost, IsBoost}
use boost_http.Reader.Request.Next.{is_insufficient}
use boost_http.Reader.Response.State.{Response, construct, reset, puteof}
use boost_http.Reader.Response.Method.{set_method}
use boost_http.Reader.Response.Next.{next, set_buffer}
use boost_http.Reader.Response.Safety.{Inv, Returns}
use boost_http.Reader.Response.Safety.Fault.{response_next_safe}
use boost_http.Reader.Response.Headers.{FramesBody, next-FramesBody}
use boost_http.Reader.Response.Framing.{set_method-IsFramed}

-- The readers that calls of the members make from a new one. A new buffer begins with the unread
-- bytes of the old one, as `set_buffer` demands.
pub data Reach (b : Boost) : Response → Type 0 where
  made : (n : ℕ) → Reach b (construct n)
  cleared : {r : Response} → Reach b r → Reach b (reset r)
  ended : {r : Response} → Reach b r → Reach b (puteof r)
  told : {r r' : Response} (method : Bytes) → Reach b r → set_method method r ≡ some r' → Reach b r'
  stepped : {r r' : Response} → Reach b r → next b r ≡ some r' → Reach b r'
  fed :
      {r r' : Response} (more : Bytes)
      → Reach b r
      → set_buffer b (drop r.idx r.ibuffer ++ more) r ≡ some r'
      → Reach b r'

construct-Inv : (n : ℕ) → Inv (construct n)
unfolding construct
construct-Inv n = ground arith

reset-Inv : (r : Response) → Inv (reset r)
unfolding reset
reset-Inv r = ground arith

puteof-Inv : (r : Response) → Inv r → Inv (puteof r)
unfolding puteof
puteof-Inv r h = ground (arith, h)

next_returned : (b : Boost) (r r' : Response) → IsBoost b → Inv r → next b r ≡ some r' → Inv r'
next_returned b r r' laws h e =
    let safe = response_next_safe b r laws h in
    let ok = safe.1 (λ empty. cc (safe.0 empty)) in subst (Returns Inv) e ok

told_returned : (method : Bytes) (r r' : Response) → Inv r → set_method method r ≡ some r' → Inv r'
told_returned method r r' h e =
    let both = set_method-IsFramed method r h in
    elim (is_status_code r.code) [
      | inl status ↦
          let (n, q, read, set, framed, inv) = both.0 status in
          subst (Returns Inv) (sym set ∙ e) inv
      | inr other ↦ let never = both.1 other in cc
    ]
  where
    is_status_code : (c : Code) → (c ≡ Code.status_code) ⊎ (c ≢ Code.status_code)
    is_status_code Code.status_code = inl refl
    is_status_code c = inr (λ e. cc)

refill-Inv :
    (r : Response) (more : Bytes)
    → Inv r
    → Inv (record r { ibuffer = drop r.idx r.ibuffer ++ more; idx = 0 })
refill-Inv r more h =
    let fits = h.mirrors.in_bounds in
    let total = length-append (drop r.idx r.ibuffer) more in
    let left = length-drop r.idx r.ibuffer in
    record {
      mirrors = record {
        in_bounds = omega arith;
        reading = h.mirrors.reading;
        partial_static = h.mirrors.partial_static;
      };
      sound = record {
        known = h.sound.known;
        partial_static = h.sound.partial_static;
        status = h.sound.status;
        failed = h.sound.failed;
        used = h.sound.used;
        framed = h.sound.framed;
      };
    }

fed_returned :
    (b : Boost) (r r' : Response) (more : Bytes)
    → IsBoost b
    → Inv r
    → set_buffer b (drop r.idx r.ibuffer ++ more) r ≡ some r'
    → Inv r'
unfolding set_buffer
fed_returned b r r' more laws h e =
    let q = record r { ibuffer = drop r.idx r.ibuffer ++ more; idx = 0 } in
    let kept = refill-Inv r more h in
    elim (Bool-cases (is_insufficient r.code)) [
      | inl wait ↦ next_returned b q r' laws kept (rw wait at e)
      | inr done ↦ let same : some q ≡ some r' = rw done at e in subst (Returns Inv) same kept
    ]

pub Reach-Inv : (b : Boost) {r : Response} → IsBoost b → Reach b r → Inv r
Reach-Inv b laws (made n) = construct-Inv n
Reach-Inv b laws (cleared {r} w) = reset-Inv r
Reach-Inv b laws (ended {r} w) = puteof-Inv r (Reach-Inv b laws w)
Reach-Inv b laws (told {r} {r'} method w e) = told_returned method r r' (Reach-Inv b laws w) e
Reach-Inv b laws (stepped {r} {r'} w e) = next_returned b r r' laws (Reach-Inv b laws w) e
Reach-Inv b laws (fed {r} {r'} more w e) = fed_returned b r r' more laws (Reach-Inv b laws w) e

-- Every response reader that calls of `next`, `set_buffer`, `set_method`, `puteof` and `reset` make
-- from a new one, where each new buffer begins with all the unread bytes of the old one, keeps its
-- token inside the buffer; knows the method from the reason phrase to the end of the headers; is
-- errored or between the name and the value of a field while its body type is a READING one; is
-- errored exactly when its token is an error other than insufficient data; never holds a code that
-- the reference excludes; and holds a status code of three bytes only before the space behind it.
-- Where its next call of `next` gives the end of the headers, the state behind it is that of the end
-- of the body, of a body that ends with the connection, of a chunk size or of a body of known size,
-- as the body type and the size that the headers gave say.
pub response_Reach-Inv :
    (b : Boost) {r : Response}
    → IsBoost b
    → Reach b r
    → Inv r × FramesBody r.body_type r.body_size (next b r)
response_Reach-Inv b {r} laws w = let inv = Reach-Inv b laws w in (inv, next-FramesBody b r inv)
