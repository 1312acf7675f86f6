-- ===== src/Tutorial.antt =====
-- The class my_socket_consumer of the documentation (doc/parsing_tutorial1.cpp), with the
-- on_socket_callback of doc/parsing_tutorial1h.cpp, where the comment "..." stands for the errors
-- of doc/parsing_tutorial1e.cpp.
pub mod Ends
pub mod Part
pub mod Items
pub mod Gather
pub mod Members
pub mod Printed
use boost_http.Base.{
  ℕ, zero, suc, ◌+◌, ◌*◌, ◌==◌, Bool, true, false, Option, none, some, List, [], ◌∷◌, ◌++◌, length,
  drop, if◌then◌else◌, Bytes,
}
use boost_http.Base.Int.{ℤ}
use boost_http.Base.Multimap.{Multimap, insert}
use boost_http.Token.{Code}
use boost_http.Header.{Boost}
use boost_http.Reader.Request.State.{Request}
use boost_http.Reader.Request.Value.{
  value_method, value_request_target, value_version, value_field_name, value_field_value,
}
use boost_http.Reader.Request.Next.{is_insufficient, next, set_buffer}

-- `use_trailers` and `trailers` are the members that doc/parsing_tutorial1g.cpp says to declare too.
pub record Consumer : Type 0 where
  pub request_reader : Request
  pub buffer : Bytes
  pub last_header : Bytes
  pub use_trailers : Bool
  pub method : Bytes
  pub request_target : Bytes
  pub version : ℤ
  pub headers : Multimap
  pub trailers : Multimap

-- A run is still running where its fuel is used up.
pub data Run {ℓ} (A : Type ℓ) : Type ℓ where
  returned : A → Run A
  thrown undefined running : Run A

abbrev with_value {ℓ κ} : {A : Type ℓ} {B : Type κ} → Option A → (A → B) → Run B
with_value none f = undefined
with_value (some v) f = returned (f v)

-- `(use_trailers ? trailers : headers).emplace(last_header, value)`.
abbrev pub emplace : Consumer → Bytes → Consumer
emplace c value =
    if c.use_trailers
    then record c { trailers = insert (c.last_header, value) c.trailers }
    else record c { headers = insert (c.last_header, value) c.headers }

-- The switch on `request_reader.code()`.
unfoldable pub see_token : Code → Consumer → Run Consumer
see_token Code.error_set_method c = undefined
see_token Code.error_use_another_connection c = undefined
see_token Code.error_invalid_data c = thrown
see_token Code.error_no_host c = thrown
see_token Code.error_invalid_content_length c = thrown
see_token Code.error_content_length_overflow c = thrown
see_token Code.error_invalid_transfer_encoding c = thrown
see_token Code.error_chunk_size_overflow c = thrown
see_token Code.method c =
    with_value (value_method c.request_reader)
      (λ v. record c { use_trailers = false; headers = []; trailers = []; method = v })
see_token Code.request_target c =
    with_value (value_request_target c.request_reader) (λ v. record c { request_target = v })
see_token Code.version c =
    with_value (value_version c.request_reader) (λ v. record c { version = v })
see_token Code.field_name c =
    with_value (value_field_name c.request_reader) (λ v. record c { last_header = v })
see_token Code.trailer_name c =
    with_value (value_field_name c.request_reader) (λ v. record c { last_header = v })
see_token Code.field_value c = with_value (value_field_value c.request_reader) (emplace c)
see_token Code.trailer_value c = with_value (value_field_value c.request_reader) (emplace c)
see_token Code.end_of_headers c = returned (record c { use_trailers = true })
see_token _ c = returned c

-- What ends the `while` loop.
abbrev pub is_end : Code → Bool
is_end Code.error_insufficient_data = true
is_end Code.end_of_message = true
is_end _ = false

-- `request_reader.next()`.
abbrev pub advance : Boost → Consumer → Run Consumer
advance b c = with_value (next b c.request_reader) (λ r. record c { request_reader = r })

abbrev pub and_then {ℓ κ} : {A : Type ℓ} {B : Type κ} → Run A → (A → Run B) → Run B
and_then (returned a) f = f a
and_then thrown f = thrown
and_then undefined f = undefined
and_then running f = running

-- A round of the loop.
unfoldable pub read_round : Boost → Consumer → Run Consumer
unfolding see_token
read_round b c = and_then (see_token c.request_reader.code c) (advance b)

-- The `while` loop, with the value of `nparsed`.
unfoldable pub read_loop : Boost → ℕ → Consumer → ℕ → Run (Consumer × ℕ)
unfolding read_round
read_loop b zero c nparsed = running
read_loop b (suc fuel) c nparsed = elim (is_end c.request_reader.code) [
  | true ↦ returned (c, nparsed)
  | false ↦
      and_then (read_round b c) (λ c'. read_loop b fuel c' (nparsed + c.request_reader.token_size))
]

-- The call of `ready`, which is the client's, takes the consumer as it stands: the consumers that
-- it has been called with are the second part of the result.
abbrev pub Callback : Type 0
Callback = Run (Consumer × List Consumer)

abbrev tell_ready : Consumer → Consumer × List Consumer → Consumer × List Consumer
tell_ready c (c', more) = (c', c ∷ more)

abbrev pub map_run {ℓ κ} : {A : Type ℓ} {B : Type κ} → (A → B) → Run A → Run B
map_run f run = and_then run (λ a. returned (f a))

-- What follows `request_reader.next()` behind the loop.
unfoldable pub after_loop : (Consumer → Callback) → Consumer → Callback
after_loop again c =
    if is_insufficient c.request_reader.code
    then returned (c, [])
    else map_run (tell_ready c) (if length c.buffer == 0 then returned (c, []) else again c)

-- `buffer.erase(0, nparsed)`, behind the loop.
unfoldable pub end_callback : Boost → (Consumer → Callback) → Consumer × ℕ → Callback
unfolding after_loop
end_callback b again (c, nparsed) =
    let n = nparsed + c.request_reader.token_size in
    and_then (advance b c) (λ c'. after_loop again (record c' { buffer = drop n c'.buffer }))

-- `on_socket_callback` on fuel for its calls of itself, which give it no more data. The loop has
-- four units for each byte, and five more.
unfoldable pub on_socket_callback : Boost → ℕ → Bytes → Consumer → Callback
unfolding read_loop end_callback
on_socket_callback b zero data_given c = running
on_socket_callback b (suc fuel) data_given c =
    let buffer = c.buffer ++ data_given in
    let again = on_socket_callback b fuel [] in
    elim (set_buffer b buffer c.request_reader) [
      | none ↦ undefined
      | some r ↦
          and_then
            (read_loop b (4 * length buffer + 5) (record c { buffer = buffer; request_reader = r })
              0)
            (end_callback b again)
    ]
