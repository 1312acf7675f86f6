-- ===== src/Tests/ResponseWitnesses.antt =====
-- An instance of each theorem on the response reader at an input that meets its hypotheses.
use boost_http.Base.{
  ◌≤◌, ◌+◌, ◌*◌, true, false, ℕ, some, none, true, false, List, [], ◌∷◌, ◌≡◌, ◌≢◌, refl, arith, inl,
}
use boost_http.Token.{Code}
use boost_http.Reader.Request
use boost_http.Reader.Response.State.{State, BodyType, Response, construct}
use boost_http.Reader.Response.Value.{value_status_code}
use boost_http.Reader.Response.Method.{frame, set_method}
use boost_http.Reader.Response.Next.{consume, next}
use boost_http.Reader.Response.Mirror.{mirror}
use boost_http.Reader.Response.Mirror.Carried.{carried, next-carried}
use boost_http.Reader.Response.Safety.{Inv, Returns}
use boost_http.Reader.Response.Safety.Fault.{EmptyValue, response_next_safe}
use boost_http.Reader.Response.Framing.{IsFramed, set_method-IsFramed}
use boost_http.Reader.Response.Fuel.{response_next_twice, response_next_twice-next}
use boost_http.Reader.Response.Reach.{Reach, made, fed, stepped, told, response_Reach-Inv}
use boost_http.Reader.Response.Headers.{FramesBody}
use boost_http.Reader.Request.Fields.{body_size_max}
use boost_http.Reader.Response.Width.{response_Reach-body_size}
use boost_http.Reader.Response.Failure.{
  call_next, give, end_input, perform, StaysFailed, response_failure_final,
}
use boost_http.Reader.Loop.{Ends}
use boost_http.Reader.Request.Next.{is_insufficient}
use boost_http.Reader.Request.Progress.Loop.{unread}
use boost_http.Reader.Response.Progress.{response_next_place, response_next_tiles}
use boost_http.Reader.Response.Progress.Drained.{response_reads, response_next-Ends}
use boost_http.Reader.Response.Delivery.{
  AwaitsEnd, EndsConnection, read_to_end, read_to_end-EndsConnection,
}
use boost_http.Reader.Grammar.{Phase, Ordered}
use boost_http.Reader.Response.Order.{response_phase}
use boost_http.Reader.Response.Order.Transcript
use boost_http.Reader.Response.Order.Transcript.{response_codes, response_codes-Ordered}
use boost_http.Tests.Ascii.{ascii, ascii-IsBoost}
use boost_http.Tests.Runs.{bytes_of}
use boost_http.Tests.ResponseRuns.{response_ready}

-- A reader that has read the name of a field, with its value and a line end before it.
abbrev at_name : Response
at_name = record {
  eof_received = true;
  http_1_0 = false;
  body_type = BodyType.reading_content_length;
  body_size = 9;
  state = State.expect_colon;
  code = Code.field_name;
  idx = 0;
  token_size = 14;
  ibuffer = bytes_of "Content-Length: 3\r\n";
}

at_name-Inv : Inv at_name
at_name-Inv = ground arith

response_next_safe_example :
    (EmptyValue at_name → next ascii at_name ≡ none)
    × (¬ EmptyValue at_name → Returns Inv (next ascii at_name))
response_next_safe_example = response_next_safe ascii at_name ascii-IsBoost at_name-Inv

next-carried_example :
    next ascii at_name ≡ carried at_name (Request.Next.next ascii (mirror at_name))
unfolding consume
next-carried_example = next-carried ascii at_name refl (inl refl)

-- A reader whose token is a status code.
abbrev at_status : Response
at_status = record (construct 77) {
  state = State.expect_sp_after_status_code;
  code = Code.status_code;
  idx = 9;
  token_size = 3;
  ibuffer = bytes_of "HTTP/1.1 204 No Content\r\n";
}

at_status-Inv : Inv at_status
unfolding construct
at_status-Inv = ground arith

set_method-IsFramed_example :
    (at_status.code ≡ Code.status_code
      → (n : ℕ) × (r' : Response) × (value_status_code at_status ≡ some n)
        × (set_method (bytes_of "GET") at_status ≡ some r')
        × IsFramed n (bytes_of "GET") at_status r'
        × Inv r')
    × (at_status.code ≢ Code.status_code → set_method (bytes_of "GET") at_status ≡ none)
set_method-IsFramed_example = set_method-IsFramed (bytes_of "GET") at_status at_status-Inv

-- A reader that was given a response with a bad version.
abbrev refused : Response
refused = record (construct 77) {
  state = State.errored;
  code = Code.error_invalid_data;
  ibuffer = bytes_of "ICY";
}

refused_reached : Reach ascii refused
unfolding response_ready
refused_reached = fed (bytes_of "ICY") (made 77) refl

-- The readers of a status line, and the last of them, which is before the end of the headers.
abbrev reading : BodyType → State → Code → ℕ → ℕ → Response
reading t s c i size = record (construct 77) {
  body_type = t;
  state = s;
  code = c;
  idx = i;
  token_size = size;
  ibuffer = bytes_of "HTTP/1.1 200 OK\r\n\r\n";
}

abbrev at_code : Response
at_code = reading BodyType.unknown_body State.expect_sp_after_status_code Code.status_code 9 3

abbrev at_headers : Response
at_headers = reading BodyType.connection_delimited State.expect_field_name Code.skip 15 2

at_code_reached : Reach ascii at_code
unfolding response_ready
at_code_reached =
    let start : Reach ascii (reading BodyType.unknown_body State.expect_version Code.skip 0 7) =
      fed (bytes_of "HTTP/1.1 200 OK\r\n\r\n") (made 77) refl in
    let version : Reach ascii
        (reading BodyType.unknown_body State.expect_sp_after_version Code.version 7 1) =
      stepped start refl in
    let space : Reach ascii (reading BodyType.unknown_body State.expect_status_code Code.skip 8 1) =
      stepped version refl in
    stepped space refl

at_headers_reached : Reach ascii at_headers
unfolding response_ready set_method frame value_status_code
at_headers_reached =
    let framed : Reach ascii (
        reading BodyType.connection_delimited State.expect_sp_after_status_code Code.status_code 9
          3) =
      told (bytes_of "GET") at_code_reached refl in
    let space : Reach ascii
        (reading BodyType.connection_delimited State.expect_reason_phrase Code.skip 12 1) =
      stepped framed refl in
    let reason : Reach ascii (
        reading BodyType.connection_delimited State.expect_crlf_after_reason_phrase
          Code.reason_phrase 13 2) =
      stepped space refl in
    stepped reason refl

response_Reach-Inv_example :
    Inv at_headers × FramesBody at_headers.body_type at_headers.body_size (next ascii at_headers)
response_Reach-Inv_example = response_Reach-Inv ascii ascii-IsBoost at_headers_reached

response_Reach-body_size_example : refused.body_size ≤ body_size_max
unfolding response_ready
response_Reach-body_size_example =
    response_Reach-body_size ascii {r = refused} (fed (bytes_of "ICY") (made 77) refl) (omega arith)

response_failure_final_example :
    StaysFailed refused.code
      (perform ascii (call_next ∷ end_input ∷ give (bytes_of "HTTP") ∷ call_next ∷ []) refused)
response_failure_final_example =
    response_failure_final ascii (call_next ∷ end_input ∷ give (bytes_of "HTTP") ∷ call_next ∷ [])
      ascii-IsBoost refused_reached refl

at_name_filled : ¬ EmptyValue at_name
at_name_filled h = ground (arith, h.at_value)

response_next_tiles_example :
    (r' : Response) × (next ascii at_name ≡ some r')
    × (r'.idx ≡ response_next_place at_name)
    × (r'.ibuffer ≡ at_name.ibuffer)
response_next_tiles_example =
    response_next_tiles ascii at_name ascii-IsBoost at_name-Inv at_name_filled

response_next-Ends_example :
    Ends (response_reads ascii ascii-IsBoost) (4 * unread (mirror at_name) + 4) at_name
response_next-Ends_example = response_next-Ends ascii at_name ascii-IsBoost at_name-Inv

-- A reader before a body without a length, which comes in two buffers.
abbrev before_body : Response
before_body = record {
  eof_received = false;
  http_1_0 = false;
  body_type = BodyType.force_no_body_and_stop;
  body_size = 77;
  state = State.expect_unsafe_body;
  code = Code.error_insufficient_data;
  idx = 0;
  token_size = 0;
  ibuffer = [];
}

before_body-AwaitsEnd : AwaitsEnd before_body
before_body-AwaitsEnd = record {
  in_body = refl;
  last = refl;
  unread = refl;
  open_end = refl;
  all_read = refl;
}

read_to_end-EndsConnection_example :
    EndsConnection ascii
      (bytes_of "ab" ∷ bytes_of "cde" ∷ [])
      (read_to_end ascii (bytes_of "ab" ∷ bytes_of "cde" ∷ []) before_body)
read_to_end-EndsConnection_example =
    read_to_end-EndsConnection ascii (bytes_of "ab" ∷ bytes_of "cde" ∷ []) before_body
      before_body-AwaitsEnd (omega arith, (omega arith, tt))

-- The status line of a response to GET, and the end of the connection behind its headers.
abbrev response_calls : List Transcript.Call
response_calls =
    Transcript.give (bytes_of "HTTP/1.1 200 OK\r\n\r\n")
    ∷ Transcript.call_next
    ∷ Transcript.call_next
    ∷ Transcript.tell_method (bytes_of "GET")
    ∷ Transcript.call_next
    ∷ Transcript.call_next
    ∷ Transcript.call_next
    ∷ Transcript.end_input
    ∷ Transcript.call_next
    ∷ Transcript.call_next
    ∷ []

response_codes-Ordered_example :
    Ordered
      (λ r. response_phase r.state)
      Phase.response_start
      (response_codes ascii response_calls (construct 77))
response_codes-Ordered_example = response_codes-Ordered ascii response_calls 77

response_next_twice-next_example : response_next_twice ascii some at_name ≡ next ascii at_name
response_next_twice-next_example = response_next_twice-next ascii some at_name
