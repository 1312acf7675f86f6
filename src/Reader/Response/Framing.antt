-- ===== src/Reader/Response/Framing.antt =====
-- What `set_method` decides about the body (RFC 7230, 3.3.3, the first two rules).
use boost_http.Base.{
  ℕ, ◌≤◌, ◌<◌, none, some, [], ◌∷◌, length, length-take, length-drop, take, drop, ◌≡◌, ◌≢◌, ◌⊎◌,
  refl, arith, same_lem, Bytes,
}
use boost_http.Token.{Code}
use boost_http.Syntax.StatusCode.{decode_status_code}
use boost_http.Reader.Response.State.{
  connection_delimited, force_no_body, force_no_body_and_stop, Response,
}
use boost_http.Reader.Response.Value.{value_status_code}
use boost_http.Reader.Response.Method.{head, connect, frame, set_method}
use boost_http.Reader.Response.Safety.{Inv}

three_bytes : (v : Bytes) → length v ≡ 3 → (n : ℕ) × (decode_status_code v ≡ some n)
unfolding decode_status_code
three_bytes [] e = cc
three_bytes (a ∷ []) e = absurd (omega arith)
three_bytes (a ∷ b ∷ []) e = absurd (omega arith)
three_bytes (a ∷ b ∷ c ∷ []) e = (_, refl)
three_bytes (a ∷ b ∷ c ∷ d ∷ v) e = absurd (omega arith)

-- A status code can be read where one is the token.
pub value_status_code-some :
    (r : Response) → Inv r → r.code ≡ Code.status_code → (n : ℕ) × (value_status_code r ≡ some n)
unfolding value_status_code
value_status_code-some r h e =
    let size = (h.sound.status e).1 in
    let fits = h.mirrors.in_bounds in
    let three : length (take r.token_size (drop r.idx r.ibuffer)) ≡ 3 =
      omega (arith, length-take r.token_size (drop r.idx r.ibuffer), length-drop r.idx r.ibuffer) in
    let (n, read) = three_bytes (take r.token_size (drop r.idx r.ibuffer)) three in
    (n, ground (arith, read))

value_status_code-none : (r : Response) → r.code ≢ Code.status_code → value_status_code r ≡ none
unfolding value_status_code
value_status_code-none r ne = ground arith

-- No response of the class, with the status or to the method has a body.
abbrev pub HasNoBody : ℕ → Bytes → Type 0
HasNoBody n method = ((100 ≤ n) × (n < 200)) ⊎ (n ≡ 204) ⊎ (n ≡ 304) ⊎ (method ≡ head)

-- Nor has one that turns the connection into a tunnel.
abbrev pub OpensTunnel : ℕ → Bytes → Type 0
OpensTunnel n method = (200 ≤ n) × (n < 300) × (method ≡ connect)

pub record IsFramed (n : ℕ) (method : Bytes) (r r' : Response) : Type 0 where
  pub no_body : HasNoBody n method → (r'.body_type ≡ force_no_body) × (r'.body_size ≡ 0)
  pub tunnel :
      ¬ HasNoBody n method
      → OpensTunnel n method
      → (r'.body_type ≡ force_no_body_and_stop) × (r'.body_size ≡ 0)
  pub other :
      ¬ HasNoBody n method
      → ¬ OpensTunnel n method
      → (r'.body_type ≡ connection_delimited) × (r'.body_size ≡ r.body_size)
  -- Nothing else changes.
  pub rest : record r' { body_type = r.body_type; body_size = r.body_size } ≡ r

frame-IsFramed : (n : ℕ) (method : Bytes) (r : Response) → IsFramed n method r (frame n method r)
unfolding frame
frame-IsFramed n method r =
    let to_head = same_lem method head in
    let to_connect = same_lem method connect in
    record {
      no_body = ground arith;
      tunnel = ground arith;
      other = ground arith;
      rest = ground arith;
    }

frame-Inv :
    (n : ℕ) (method : Bytes) (r : Response)
    → Inv r
    → r.code ≡ Code.status_code
    → Inv (frame n method r)
unfolding frame
frame-Inv n method r h e = ground (arith, h)

-- From a response reader that satisfies the invariant: `set_method` returns where the token is a
-- status code, keeps the invariant and changes nothing but the body type and size, which it sets as
-- RFC 7230 says for the status code and the method; where another token is, an assertion fails.
pub set_method-IsFramed :
    (method : Bytes) (r : Response)
    → Inv r
    → (r.code ≡ Code.status_code
        → (n : ℕ) × (r' : Response) × (value_status_code r ≡ some n)
          × (set_method method r ≡ some r')
          × IsFramed n method r r'
          × Inv r')
      × (r.code ≢ Code.status_code → set_method method r ≡ none)
unfolding set_method
set_method-IsFramed method r h = (
  λ e.
      let (n, read) = value_status_code-some r h e in
      (
        n,
        frame n method r,
        read,
        rw read refl,
        frame-IsFramed n method r,
        frame-Inv n method r h e,
      ),
  λ ne. rw (value_status_code-none r ne) refl,
)
