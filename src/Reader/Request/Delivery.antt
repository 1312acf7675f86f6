-- ===== src/Reader/Request/Delivery.antt =====
-- The delivery of a body of known length, over buffers of any sizes.
use native.Mathlib.Nat.{le_refl}
use boost_http.Base.{
  ℕ, ◌+◌, ◌-◌, ◌≤◌, ◌<◌, Option, none, some, List, [], ◌∷◌, ◌++◌, length, take, ◌≡◌, refl, ap,
  arith, Bytes, ◌==◌, if◌then◌else◌, ◌>>=◌, length-append,
}
use boost_http.Token.{Code}
use boost_http.Header.{Boost}
use boost_http.Reader.Request.State.{
  expect_body, expect_end_of_body, expect_end_of_message, Request,
}
use boost_http.Reader.Request.Value.{value_body_chunk}
use boost_http.Reader.Request.Body.{take_body, on_body}
use boost_http.Reader.Request.Next.{
  dispatch, consume, read_token, next_in, next_fuel, next, set_buffer,
}

-- A client that reads a body: for each buffer it calls `set_buffer`, takes the value of the token,
-- and calls `next`. The result is all the bytes that it was given, and the reader.
pub read_body : Boost → List Bytes → Request → Option (Bytes × Request)
read_body b [] r = some ([], r)
read_body b (f ∷ fs) r = set_buffer b f r >>= λ r1. value_body_chunk r1 >>= λ chunk.
    next b r1 >>= λ r2. read_body b fs r2 >>= λ (rest, r3). some (chunk ++ rest, r3)

abbrev pub flatten : List Bytes → Bytes
flatten [] = []
flatten (f ∷ fs) = f ++ flatten fs

-- The reader asks for the body, of which `body_size` bytes are left.
pub record AwaitsBody (n : ℕ) (r : Request) : Type 0 where
  pub in_body : r.state ≡ expect_body
  pub unread : r.code ≡ Code.error_insufficient_data
  pub left : r.body_size ≡ n

pub take-length : (xs : Bytes) → take (length xs) xs ≡ xs
take-length [] = refl
take-length (x ∷ xs) = ap (◌∷◌ x) (take-length xs)

-- What `set_buffer` makes of a buffer that the body covers.
abbrev chunk_of : Bytes → ℕ → Request → Request
chunk_of f n r = record r {
  ibuffer = f;
  idx = 0;
  code = Code.body_chunk;
  token_size = length f;
  body_size = n - length f;
  state = if n - length f == 0 then expect_end_of_body else expect_body;
}

set_buffer-body :
    (b : Boost) (f : Bytes) (n : ℕ) (r : Request)
    → AwaitsBody n r
    → 0 < length f
    → length f ≤ n
    → set_buffer b f r ≡ some (chunk_of f n r)
unfolding set_buffer next next_fuel next_in consume read_token dispatch on_body take_body
set_buffer-body b f n r h pos le = ground arith

-- The call of `next` behind the last buffer, and behind another.
next-last :
    (b : Boost) (f : Bytes) (r : Request)
    → next b (chunk_of f (length f) r)
      ≡ some (record (chunk_of f (length f) r) {
        state = expect_end_of_message;
        code = Code.end_of_body;
        idx = length f;
        token_size = 0;
      })
unfolding next next_fuel next_in
next-last b f r = ground arith

next-more :
    (b : Boost) (f : Bytes) (n : ℕ) (r : Request)
    → length f < n
    → next b (chunk_of f n r)
      ≡ some (record (chunk_of f n r) {
        code = Code.error_insufficient_data;
        idx = length f;
        token_size = 0;
      })
unfolding next next_fuel next_in consume read_token
next-more b f n r lt = ground arith

abbrev pub AllFilled : List Bytes → Type 0
AllFilled [] = Unit {0}
AllFilled (f ∷ fs) = (0 < length f) × AllFilled fs

-- The client was given the bytes of the buffers, and the reader has ended the body.
abbrev pub EndsBody : List Bytes → Option (Bytes × Request) → Type 0
EndsBody fs none = ⊥
EndsBody fs (some (bytes, r)) =
    (bytes ≡ flatten fs)
    × (r.state ≡ expect_end_of_message)
    × (r.code ≡ Code.end_of_body)
    × (r.body_size ≡ 0)
    × (r.idx ≡ length r.ibuffer)

EndsBody-cons :
    (f : Bytes) (fs : List Bytes) (o : Option (Bytes × Request))
    → EndsBody fs o
    → EndsBody (f ∷ fs) (o >>= λ (rest, r). some (take (length f) f ++ rest, r))
EndsBody-cons f fs none h = h
EndsBody-cons f fs (some (bytes, r)) (e, state, code, size, place) =
    (rw (take-length f, e), state, code, size, place)

-- A body of `body_size` bytes that comes in nonempty buffers, however it is cut: `set_buffer`,
-- `value` and `next` return at each, the client is given exactly these bytes, in order, and then
-- the end of the body, with nothing left of the body or to read.
pub read_body-EndsBody :
    (b : Boost) (f : Bytes) (fs : List Bytes) (r : Request)
    → AwaitsBody (length (flatten (f ∷ fs))) r
    → AllFilled (f ∷ fs)
    → EndsBody (f ∷ fs) (read_body b (f ∷ fs) r)
unfolding read_body value_body_chunk
read_body-EndsBody b f [] r h filled =
    let all : AwaitsBody (length f) r = record {
      in_body = h.in_body;
      unread = h.unread;
      left = omega (arith, h.left, length-append f []);
    } in
    rw (set_buffer-body b f (length f) r all filled.0 (le_refl (length f)))
      (rw (next-last b f r) (ap (λ x. x ++ []) (take-length f), refl, refl, omega arith, refl))
read_body-EndsBody b f (g ∷ gs) r h filled =
    let n = length (flatten (f ∷ g ∷ gs)) in
    let size : n ≡ length f + length (flatten (g ∷ gs)) = length-append f (flatten (g ∷ gs)) in
    let behind : 0 < length (flatten (g ∷ gs)) =
      omega (arith, filled.1.0, length-append g (flatten gs)) in
    let r2 = record (chunk_of f n r) {
      code = Code.error_insufficient_data;
      idx = length f;
      token_size = 0;
    } in
    let left : AwaitsBody (length (flatten (g ∷ gs))) r2 = record {
      in_body = ground arith;
      unread = refl;
      left = omega arith;
    } in
    rw (set_buffer-body b f n r h filled.0 (omega arith)) (
      rw (next-more b f n r (omega arith)) (
        EndsBody-cons f (g ∷ gs) (read_body b (g ∷ gs) r2)
          (read_body-EndsBody b g gs r2 left filled.1)))
