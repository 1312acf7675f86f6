-- ===== src/Reader/Response/Fuel.antt =====
-- The calls of `next` of the response reader by itself.
use boost_http.Base.{Option, ◌≡◌, refl}
use boost_http.Header.{Boost}
use boost_http.Reader.Response.State.{State, errored, Response}
use boost_http.Reader.Response.Fields.{on_field_name, on_ows_after_colon}
use boost_http.Reader.Response.Body.{on_chunk_ext, stop_chunk_ext, end_chunk_ext}
use boost_http.Reader.Response.Trailers.{on_trailer_name, on_ows_after_trailer_colon}
use boost_http.Reader.Response.Next.{dispatch, read_token, next_in, next_fuel, next}

-- `next` with one call of itself, and `third` in place of a call that this one makes.
abbrev pub response_next_twice : Boost → (Response → Option Response) → Response → Option Response
response_next_twice b third r = next_in b (λ q. next_in b third q.state q) r.state r

third_unused :
    (b : Boost) (third : Response → Option Response) (s : State) (r : Response)
    → next_in b (λ q. next_in b third q.state q) s r ≡ next_in b (next_fuel b 1) s r
unfolding next_fuel next_in read_token dispatch on_field_name on_ows_after_colon on_chunk_ext
    stop_chunk_ext end_chunk_ext on_trailer_name on_ows_after_trailer_colon
third_unused b third errored r = refl
third_unused b third _ r = refl

-- For every response reader, `next` calls itself at most once: whatever a third call, from inside
-- the second, would give, a response reader or undefined behaviour, the result of the first is the
-- same, and it is that of `next`, which has two units of fuel.
pub response_next_twice-next :
    (b : Boost) (third : Response → Option Response) (r : Response)
    → response_next_twice b third r ≡ next b r
unfolding next next_fuel
response_next_twice-next b third r = third_unused b third r.state r
