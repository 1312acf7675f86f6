-- ===== src/Reader/Response/Delivery.antt =====
-- The delivery of a body that the end of the connection ends, over buffers of any sizes.
use boost_http.Base.{
  ◌<◌, true, false, Option, none, some, List, [], ◌∷◌, ◌++◌, length, take, ◌≡◌, refl, arith, Bytes,
  ◌>>=◌,
}
use boost_http.Token.{Code}
use boost_http.Header.{Boost}
use boost_http.Reader.Request.Delivery.{flatten, AllFilled, take-length}
use boost_http.Reader.Response.State.{State, BodyType, Response, puteof}
use boost_http.Reader.Response.Value.{value_body_chunk}
use boost_http.Reader.Response.Body.{on_unsafe_body}
use boost_http.Reader.Response.Next.{
  dispatch, consume, end_connection, on_end_of_buffer, read_token, stops, next_in, next_fuel, next,
  set_buffer,
}

-- A client that reads a body: for each buffer it calls `set_buffer`, takes the value of the token,
-- and calls `next`; behind the last it calls `puteof` and `next`. The result is all the bytes that
-- it was given, and the reader.
pub read_to_end : Boost → List Bytes → Response → Option (Bytes × Response)
read_to_end b [] r = next b (puteof r) >>= λ r1. some ([], r1)
read_to_end b (f ∷ fs) r = set_buffer b f r >>= λ r1. value_body_chunk r1 >>= λ chunk.
    next b r1 >>= λ r2. read_to_end b fs r2 >>= λ (rest, r3). some (chunk ++ rest, r3)

-- The reader asks for the body, and knows of no end.
pub record AwaitsEnd (r : Response) : Type 0 where
  pub in_body : r.state ≡ State.expect_unsafe_body
  pub last : r.body_type ≡ BodyType.force_no_body_and_stop
  pub unread : r.code ≡ Code.error_insufficient_data
  pub open_end : r.eof_received ≡ false
  pub all_read : r.idx ≡ length r.ibuffer

-- What `set_buffer` makes of a buffer.
abbrev chunk_of : Bytes → Response → Response
chunk_of f r = record r { ibuffer = f; idx = 0; code = Code.body_chunk; token_size = length f }

set_buffer-body :
    (b : Boost) (f : Bytes) (r : Response)
    → AwaitsEnd r
    → 0 < length f
    → set_buffer b f r ≡ some (chunk_of f r)
unfolding set_buffer next next_fuel next_in consume read_token dispatch on_unsafe_body
set_buffer-body b f r h pos = ground (arith, h)

-- The call of `next` behind a buffer.
abbrev behind : Bytes → Response → Response
behind f r = record r {
  ibuffer = f;
  code = Code.error_insufficient_data;
  idx = length f;
  token_size = 0;
}

next-more :
    (b : Boost) (f : Bytes) (r : Response) → AwaitsEnd r → next b (chunk_of f r) ≡ some (behind f r)
unfolding next next_fuel next_in consume read_token on_end_of_buffer
next-more b f r h = ground (arith, h)

-- The message ends, and then the use of the connection.
pub record IsLast (b : Boost) (r : Response) : Type 0 where
  pub ended : r.code ≡ Code.end_of_body
  pub message : Response
  pub message_ended : (next b r ≡ some message) × (message.code ≡ Code.end_of_message)
  pub refusal : Response
  pub refused :
      (next b message ≡ some refusal)
      × (refusal.code ≡ Code.error_use_another_connection)
      × (refusal.state ≡ State.errored)

-- The client was given the bytes of the buffers, and the message is the connection's last.
abbrev pub EndsConnection : Boost → List Bytes → Option (Bytes × Response) → Type 0
EndsConnection b fs none = ⊥
EndsConnection b fs (some (bytes, r)) = (bytes ≡ flatten fs) × IsLast b r

-- The end of the connection, told behind the last byte.
abbrev closed : Response → Response
closed r = record r {
  eof_received = true;
  state = State.expect_end_of_message;
  code = Code.end_of_body;
  token_size = 0;
}

next-closed : (b : Boost) (r : Response) → AwaitsEnd r → next b (puteof r) ≡ some (closed r)
unfolding puteof next next_fuel next_in consume read_token on_end_of_buffer end_connection
next-closed b r h = ground (arith, h)

abbrev ended_message : Response → Response
ended_message r = record r {
  body_type = BodyType.unknown_body;
  eof_received = true;
  state = State.expect_end_of_connection_error;
  code = Code.end_of_message;
  token_size = 0;
}

next-ended : (b : Boost) (r : Response) → AwaitsEnd r → next b (closed r) ≡ some (ended_message r)
unfolding next next_fuel next_in stops
next-ended b r h = ground (arith, h)

abbrev refused_next : Response → Response
refused_next r = record (ended_message r) {
  state = State.errored;
  code = Code.error_use_another_connection;
}

next-refused : (b : Boost) (r : Response) → next b (ended_message r) ≡ some (refused_next r)
unfolding next next_fuel next_in
next-refused b r = refl

closed-IsLast : (b : Boost) (r : Response) → AwaitsEnd r → IsLast b (closed r)
closed-IsLast b r h = record {
  ended = refl;
  message = ended_message r;
  message_ended = (next-ended b r h, refl);
  refusal = refused_next r;
  refused = (next-refused b r, refl, refl);
}

EndsConnection-cons :
    (b : Boost) (f : Bytes) (fs : List Bytes) (o : Option (Bytes × Response))
    → EndsConnection b fs o
    → EndsConnection b (f ∷ fs) (o >>= λ (rest, r). some (take (length f) f ++ rest, r))
EndsConnection-cons b f fs none h = h
EndsConnection-cons b f fs (some (bytes, r)) (e, last) = (rw (take-length f, e), last)

-- A body without a length, in nonempty buffers, however it is cut: `set_buffer`, `value` and `next`
-- return at each, the client is given exactly these bytes, in order; behind `puteof` come the end
-- of the body, then the end of the message, then the demand for another connection.
pub read_to_end-EndsConnection :
    (b : Boost) (fs : List Bytes) (r : Response)
    → AwaitsEnd r
    → AllFilled fs
    → EndsConnection b fs (read_to_end b fs r)
unfolding read_to_end value_body_chunk
read_to_end-EndsConnection b [] r h filled = rw (next-closed b r h) (refl, closed-IsLast b r h)
read_to_end-EndsConnection b (f ∷ fs) r h filled =
    let left : AwaitsEnd (behind f r) = record {
      in_body = h.in_body;
      last = h.last;
      unread = refl;
      open_end = h.open_end;
      all_read = refl;
    } in
    rw (set_buffer-body b f r h filled.0) (
      rw (next-more b f r h) (
        EndsConnection-cons b f fs (read_to_end b fs (behind f r))
          (read_to_end-EndsConnection b fs (behind f r) left filled.1)))
