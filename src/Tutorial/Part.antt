-- ===== src/Tutorial/Part.antt =====
-- A method that comes in two buffers, and on_socket_callback (doc/parsing_tutorial1h.cpp).
use boost_http.Base.{
  ℕ, zero, suc, ◌+◌, ◌-◌, ◌*◌, ◌<◌, ◌==◌, leb, true, false, some, [], ◌∷◌, ◌++◌, ◌≡◌, refl, ap, ◌∙◌,
  ◌⊎◌, inl, inr, arith, length, drop, scan, span, All, Bytes,
}
use boost_http.Token.{Code}
use boost_http.Abnf.{is_tchar}
use boost_http.Header.{Boost}
use boost_http.Reader.Request.State.{State, Request}
use boost_http.Reader.Request.StartLine.{expect_word, on_method}
use boost_http.Reader.Request.Next.{
  consume, read_token, dispatch, next_in, next_fuel, next, set_buffer,
}
use boost_http.Reader.Request.RoundTrip.Pipeline.{AwaitsRequest}
use boost_http.Tutorial.{
  Consumer, returned, Callback, is_end, read_loop, after_loop, end_callback, on_socket_callback,
}

span_whole : (word : Bytes) → All is_tchar word → span is_tchar word ≡ length word
unfolding span
span_whole [] h = refl
span_whole (c ∷ cs) (h, hs) = rw h (ap suc (span_whole cs hs))

drop_whole : (word : Bytes) → drop (length word) word ≡ []
drop_whole [] = refl
drop_whole (c ∷ cs) = drop_whole cs

-- At a part of a method, the whole of which is read, or none of it yet.
next_part :
    (b : Boost) (word : Bytes) (r : Request)
    → 0 < length word
    → r.state ≡ State.expect_method
    → r.code ≡ Code.error_insufficient_data
    → r.idx ≡ 0
    → r.ibuffer ≡ word
    → scan is_tchar word r.token_size ≡ some (length word)
    → next b r ≡ some (record r { token_size = length word })
unfolding next next_fuel next_in consume read_token dispatch on_method expect_word
next_part b word r filled state code idx buffer run =
    let more : (0 == length word) ≡ false = ground arith in
    let here : 0 + r.token_size ≡ r.token_size = omega arith in
    let same : (length word == length word) ≡ true = ground arith in
    let size : length word - 0 ≡ length word = omega arith in
    ap (λ s. next_in b (next_fuel b 1) s r) state
    ∙ rw code (rw (idx, buffer) (rw more (rw here (rw run (rw (same, size) refl)))))

scan_whole :
    (word : Bytes) (m : ℕ)
    → All is_tchar word
    → (m ≡ 0) ⊎ (m ≡ length word)
    → scan is_tchar word m ≡ some (length word)
unfolding scan
scan_whole word m all (inl e) =
    let within : leb 0 (length word) ≡ true = ground arith in
    let zero_on : 0 + length word ≡ length word = omega arith in
    rw e (rw (within, span_whole word all) (rw zero_on refl))
scan_whole word m all (inr e) =
    let within : leb (length word) (length word) ≡ true = ground arith in
    let size : length word + 0 ≡ length word = omega arith in
    rw e (rw (within, drop_whole word) (rw (span, size) refl))

pub set_buffer_waits :
    (b : Boost) (buffer : Bytes) (r : Request)
    → r.code ≡ Code.error_insufficient_data
    → set_buffer b buffer r ≡ next b (record r { ibuffer = buffer; idx = 0 })
unfolding set_buffer
set_buffer_waits b buffer r e = rw e refl

read_loop_over :
    (b : Boost) (fuel : ℕ) (c : Consumer) (k : ℕ)
    → 0 < fuel
    → is_end c.request_reader.code ≡ true
    → read_loop b fuel c k ≡ returned (c, k)
unfolding read_loop
read_loop_over b zero c k pos e = absurd (omega arith)
read_loop_over b (suc fuel) c k pos e = rw (e, read_loop) refl

-- What follows the loop where `next` wants more data.
end_callback_waits :
    (b : Boost) (again : Consumer → Callback) (c : Consumer) (r : Request) (k : ℕ)
    → next b c.request_reader ≡ some r
    → r.code ≡ Code.error_insufficient_data
    → end_callback b again (c, k)
      ≡ returned (
        record c { request_reader = r; buffer = drop (k + c.request_reader.token_size) c.buffer },
        [],
      )
unfolding end_callback after_loop
end_callback_waits b again c r k e waits = rw e (rw waits refl)

-- A consumer whose reader awaits a request, and that keeps no bytes, is given a nonempty part of a
-- method. It returns without a call of `ready` and keeps no bytes, but its reader counts all that
-- it was given to a token that is still being read: the error for insufficient data has a size,
-- which is erased from the buffer.
pub on_socket_callback-part :
    (b : Boost) (fuel : ℕ) (word : Bytes) (c : Consumer)
    → 0 < length word
    → All is_tchar word
    → AwaitsRequest c.request_reader
    → c.buffer ≡ []
    → (c' : Consumer) × (on_socket_callback b (suc fuel) word c ≡ returned (c', []))
      × (c'.buffer ≡ [])
      × (c'.request_reader.code ≡ Code.error_insufficient_data)
      × (c'.request_reader.token_size ≡ length word)
unfolding on_socket_callback
on_socket_callback-part b fuel word c filled all w empty =
    let r0 = record c.request_reader { ibuffer = word; idx = 0 } in
    let r1 = record r0 { token_size = length word } in
    let first =
      next_part b word r0 filled w.at_method w.wants_data refl refl
        (scan_whole word r0.token_size all (inl w.no_token)) in
    let second =
      next_part b word r1 filled w.at_method w.wants_data refl refl
        (scan_whole word (length word) all (inr refl)) in
    let given : set_buffer b (c.buffer ++ word) c.request_reader ≡ some r1 =
      ap (λ t. set_buffer b (t ++ word) c.request_reader) empty
      ∙ set_buffer_waits b word c.request_reader w.wants_data
      ∙ first in
    let c1 = record c { buffer = c.buffer ++ word; request_reader = r1 } in
    let over =
      read_loop_over b (4 * length (c.buffer ++ word) + 5) c1 0 (omega arith)
        (ap is_end w.wants_data) in
    let erased : drop (0 + length word) (c.buffer ++ word) ≡ [] =
      (let zero_on : 0 + length word ≡ length word = omega arith in
        rw empty (rw zero_on (drop_whole word))) in
    (
      record c { buffer = []; request_reader = r1 },
      rw (given, on_socket_callback)
          (rw over (
            end_callback_waits b (on_socket_callback b fuel []) c1 r1 0 second w.wants_data
            ∙ ap (λ (t : Bytes). returned (record c { request_reader = r1; buffer = t }, []))
                erased)),
      refl,
      w.wants_data,
      refl,
    )
