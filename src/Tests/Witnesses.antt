-- ===== src/Tests/Witnesses.antt =====
-- An instance of each theorem at an input that meets its hypotheses.
use boost_http.Base.{
  List, ◌≤◌, ◌+◌, ◌*◌, some, none, [], ◌∷◌, ◌++◌, ◌≡◌, refl, arith, length, take, drop,
}
use boost_http.Token.{Code}
use boost_http.Reader.Request.State.{State, Version, BodyType, Request, construct}
use boost_http.Reader.Request.Next.{next, set_buffer}
use boost_http.Reader.Request.Safety.{Inv, Returns}
use boost_http.Reader.Request.Safety.Plain.{EmptyValue}
use boost_http.Reader.Request.Safety.Fault.{next_safe}
use boost_http.Reader.Request.Safety.Fuel.{next_twice, next_twice-next}
use boost_http.Reader.Request.Safety.Entry.{set_buffer-Inv, rebuffered}
use boost_http.Reader.Request.Tiling.{next_place, next_tiles}
use boost_http.Reader.Request.Progress.Loop.{unread}
use boost_http.Reader.Request.Progress.Drained.{request_reads, next-Ends}
use boost_http.Reader.Loop.{Ends}
use boost_http.Reader.Request.Resume.{extend, settled}
use boost_http.Reader.Request.Resume.Whole.{next_resumes}
use boost_http.Reader.Request.Shift.{prefixed, each}
use boost_http.Reader.Request.Shift.Refill.{set_buffer_resumes}
use boost_http.Reader.Request.Delivery.{
  AwaitsBody, EndsBody, read_body, read_body-EndsBody, flatten,
}
use boost_http.Reader.Request.Outcome.{IsSound}
use boost_http.Reader.Request.Reach.{Reach, made, fed, Reach-safe}
use boost_http.Reader.Request.Fields.{body_size_max}
use boost_http.Reader.Request.Width.{Reach-body_size}
use boost_http.Reader.Request.Failure.{call_next, give, perform, StaysFailed, failure_final}
use boost_http.Reader.Grammar.{Phase, Ordered}
use boost_http.Reader.Request.Order.{request_phase}
use boost_http.Reader.Request.Order.Transcript
use boost_http.Reader.Request.Order.Transcript.{read_codes, read_codes-Ordered}
use boost_http.Tests.Ascii.{ascii, ascii-IsBoost}
use boost_http.Tests.Runs.{bytes_of, ready}

-- A reader that has read the name of a field, with its value and a line end before it.
abbrev at_name : Request
at_name = record {
  version = Version.not_http_1_0_and_host_not_read;
  body_type = BodyType.reading_content_length;
  body_size = 9;
  state = State.expect_colon;
  code = Code.field_name;
  idx = 0;
  token_size = 14;
  ibuffer = bytes_of "Content-Length: 3\r\n";
}

at_name-Inv : Inv at_name
at_name-Inv = record { in_bounds = omega arith; reading = λ e. refl; partial_static = λ e. cc }

at_name_filled : ¬ EmptyValue at_name
at_name_filled h = ground (arith, h.at_value)

next_safe_example :
    (EmptyValue at_name → next ascii at_name ≡ none)
    × (¬ EmptyValue at_name → Returns Inv (next ascii at_name))
next_safe_example = next_safe ascii at_name ascii-IsBoost at_name-Inv

next_tiles_example :
    (r' : Request) × (next ascii at_name ≡ some r')
    × (r'.idx ≡ next_place at_name)
    × (r'.ibuffer ≡ at_name.ibuffer)
next_tiles_example = next_tiles ascii at_name ascii-IsBoost at_name-Inv at_name_filled

next_twice-next_example : next_twice ascii some at_name ≡ next ascii at_name
next_twice-next_example = next_twice-next ascii some at_name

next-Ends_example : Ends (request_reads ascii ascii-IsBoost) (4 * unread at_name + 4) at_name
next-Ends_example = next-Ends ascii at_name ascii-IsBoost at_name-Inv

-- A new reader that was given a part of a method, and the same reader behind it.
abbrev at_method : Request
at_method = record (construct Version.http_1_0 77) { ibuffer = bytes_of "DELE" }

abbrev in_method : Request
in_method = record at_method { token_size = 4 }

at_method-Inv : Inv at_method
unfolding construct
at_method-Inv = record { in_bounds = omega arith; reading = λ e. cc; partial_static = λ d e. cc }

at_method-next : next ascii at_method ≡ some in_method
unfolding ready
at_method-next = refl

next_resumes_example :
    settled (next ascii (extend (bytes_of "TE /") in_method))
    ≡ settled (next ascii (extend (bytes_of "TE /") at_method))
unfolding construct
next_resumes_example =
    next_resumes ascii (bytes_of "TE /") at_method in_method at_method-Inv at_method-next refl

-- A reader in the middle of its buffer that was given a part of the request target.
abbrev at_target : Request
at_target = record (construct Version.http_1_0 77) {
  state = State.expect_request_target;
  idx = 4;
  ibuffer = bytes_of "GET /a";
}

abbrev in_target : Request
in_target = record at_target { token_size = 2 }

at_target-Inv : Inv at_target
unfolding construct
at_target-Inv = record { in_bounds = omega arith; reading = λ e. cc; partial_static = λ d e. cc }

at_target-next : next ascii at_target ≡ some in_target
unfolding ready
at_target-next = refl

set_buffer_resumes_example :
    settled (
      each
        (prefixed (take in_target.idx in_target.ibuffer))
        (set_buffer ascii (drop in_target.idx in_target.ibuffer ++ bytes_of "b HTTP") in_target))
    ≡ settled (next ascii (extend (bytes_of "b HTTP") at_target))
unfolding construct
set_buffer_resumes_example =
    set_buffer_resumes ascii (bytes_of "b HTTP") at_target in_target ascii-IsBoost at_target-Inv
      at_target-next refl

-- The reader at a name, given a second field behind the first.
at_name_refilled : ¬ EmptyValue (rebuffered (bytes_of "Content-Length: 3\r\nA: b") at_name)
at_name_refilled h = ground (arith, h.at_value)

set_buffer-Inv_example :
    Returns Inv (set_buffer ascii (drop at_name.idx at_name.ibuffer ++ bytes_of "A: b") at_name)
set_buffer-Inv_example =
    set_buffer-Inv ascii at_name (bytes_of "A: b") ascii-IsBoost at_name-Inv at_name_refilled

-- A reader that was given a request with a bad method.
abbrev refused : Request
refused = record (construct Version.http_1_0 77) {
  state = State.errored;
  code = Code.error_invalid_data;
  ibuffer = bytes_of "{";
}

refused_reached : Reach ascii refused
unfolding ready
refused_reached = fed (bytes_of "{") (made Version.http_1_0 77) refl

Reach-safe_example : Inv refused × IsSound refused
Reach-safe_example = Reach-safe ascii ascii-IsBoost refused_reached

Reach-body_size_example : refused.body_size ≤ body_size_max
unfolding ready
Reach-body_size_example =
    Reach-body_size ascii {r = refused} (fed (bytes_of "{") (made Version.http_1_0 77) refl)
      (omega arith)

failure_final_example :
    StaysFailed refused.code
      (perform ascii (call_next ∷ give (bytes_of "GET") ∷ call_next ∷ []) refused)
failure_final_example =
    failure_final ascii (call_next ∷ give (bytes_of "GET") ∷ call_next ∷ []) ascii-IsBoost
      refused_reached refl

-- A reader before a body of eight bytes, which comes in three buffers.
abbrev before_body : Request
before_body = record {
  version = Version.not_http_1_0_and_host_read;
  body_type = BodyType.content_length_read;
  body_size = 8;
  state = State.expect_body;
  code = Code.error_insufficient_data;
  idx = 0;
  token_size = 0;
  ibuffer = [];
}

before_body-AwaitsBody :
    AwaitsBody (length (flatten (bytes_of "ab" ∷ bytes_of "cdefg" ∷ bytes_of "h" ∷ []))) before_body
before_body-AwaitsBody = record { in_body = refl; unread = refl; left = refl }

read_body-EndsBody_example :
    EndsBody
      (bytes_of "ab" ∷ bytes_of "cdefg" ∷ bytes_of "h" ∷ [])
      (read_body ascii (bytes_of "ab" ∷ bytes_of "cdefg" ∷ bytes_of "h" ∷ []) before_body)
read_body-EndsBody_example =
    read_body-EndsBody ascii (bytes_of "ab") (bytes_of "cdefg" ∷ bytes_of "h" ∷ []) before_body
      before_body-AwaitsBody (omega arith)

-- A request in two buffers, and a call of `next` more than there are tokens.
abbrev request_calls : List Transcript.Call
request_calls =
    Transcript.give (bytes_of "GET / HT")
    ∷ Transcript.call_next
    ∷ Transcript.call_next
    ∷ Transcript.call_next
    ∷ Transcript.give (bytes_of "HTTP/1.0\r\n\r\n")
    ∷ Transcript.call_next
    ∷ Transcript.call_next
    ∷ Transcript.call_next
    ∷ Transcript.call_next
    ∷ Transcript.call_next
    ∷ Transcript.call_next
    ∷ []

read_codes-Ordered_example :
    Ordered
      (λ r. request_phase r.state)
      Phase.request_start
      (read_codes ascii request_calls (construct Version.http_1_0 77))
read_codes-Ordered_example = read_codes-Ordered ascii request_calls Version.http_1_0 77
