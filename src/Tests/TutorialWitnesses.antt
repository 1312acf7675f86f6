-- ===== src/Tests/TutorialWitnesses.antt =====
-- Runs of the documentation's consumer, and an instance of each theorem on it.
use boost_http.Base.{ℕ, ◌+◌, ◌*◌, Option, none, some, [], ◌≡◌, refl, arith, Bytes, false, length}
use boost_http.Base.Int.{pos}
use boost_http.Token.{Code}
use boost_http.Abnf.{is_tchar}
use boost_http.Reader.Request.State.{State, Version, Request, construct}
use boost_http.Reader.Request.Value.{value_method, value_request_target}
use boost_http.Reader.Request.Reach.{Reach, made, fed}
use boost_http.Reader.Request.Progress.Loop.{unread}
use boost_http.Tutorial.{Consumer, Callback, returned, read_loop, on_socket_callback}
use boost_http.Tutorial.Ends.{Ended, read_loop-Ended}
use boost_http.Tutorial.Part.{on_socket_callback-part}
use boost_http.Tests.Ascii.{ascii, ascii-IsBoost}
use boost_http.Tests.RoundTripWitnesses.{third_head, third_head-IsPlainHead, new-AwaitsRequest}
use boost_http.Reader.Request.Next.{set_buffer}
use boost_http.Reader.Request.RoundTrip.{print_head}
use boost_http.Tutorial.Printed.{HasRequest, read_loop-print_head}
use boost_http.Tests.Runs.{bytes_of, ready}

abbrev new_reader : Request
new_reader = construct Version.http_1_0 77

abbrev new_consumer : Consumer
new_consumer = record {
  request_reader = new_reader;
  buffer = [];
  last_header = [];
  use_trailers = false;
  method = [];
  request_target = [];
  version = pos 0;
  headers = [];
  trailers = [];
}

-- The consumer behind the method of a request.
abbrev at_method : Request
at_method = record new_reader {
  state = State.expect_sp_after_method;
  code = Code.method;
  idx = 0;
  token_size = 3;
  ibuffer = bytes_of "GET / HT";
}

at_method_reached : Reach ascii at_method
unfolding ready
at_method_reached = fed (bytes_of "GET / HT") (made Version.http_1_0 77) refl

abbrev at_method_consumer : Consumer
at_method_consumer = record new_consumer { request_reader = at_method }

read_loop-Ended_example : Ended (read_loop ascii (4 * unread at_method + 5) at_method_consumer 0)
read_loop-Ended_example = read_loop-Ended ascii ascii-IsBoost at_method_consumer 0 at_method_reached

-- How often `ready` is called, and the bytes that are kept.
abbrev calls_of_ready : Callback → Option (ℕ × Bytes)
calls_of_ready (returned (c, calls)) = some (length calls, c.buffer)
calls_of_ready _ = none

-- Not for a request that uses the buffer up.
one_request :
    calls_of_ready (on_socket_callback ascii 2 (bytes_of "GET / HTTP/1.0\r\n\r\n") new_consumer)
    ≡ some (0, [])
unfolding ready on_socket_callback value_method value_request_target
one_request = refl

-- The first request is told with the next one behind it, all of which is erased, the part
-- of its target too.
two_requests :
    calls_of_ready
      (on_socket_callback ascii 2 (bytes_of "GET / HTTP/1.0\r\n\r\nPUT *") new_consumer)
    ≡ some (1, [])
unfolding ready on_socket_callback value_method value_request_target
two_requests = refl

on_socket_callback-part_example :
    (c' : Consumer) × (on_socket_callback ascii 1 (bytes_of "GE") new_consumer ≡ returned (c', []))
    × (c'.buffer ≡ [])
    × (c'.request_reader.code ≡ Code.error_insufficient_data)
    × (c'.request_reader.token_size ≡ length (bytes_of "GE"))
unfolding is_tchar
on_socket_callback-part_example =
    on_socket_callback-part ascii 0 (bytes_of "GE") new_consumer (omega arith) (refl, (refl, tt))
      new-AwaitsRequest refl

read_loop-print_head_example :
    (r : Request) × (n : ℕ) × (c' : Consumer) × (set_buffer ascii
        (print_head third_head (bytes_of "GE"))
        new_reader
      ≡ some r)
    × (read_loop ascii 40
          (record new_consumer {
            buffer = print_head third_head (bytes_of "GE");
            request_reader = r;
          })
          0
        ≡ returned (c', n))
    × HasRequest third_head c'
read_loop-print_head_example =
    read_loop-print_head ascii third_head (bytes_of "GE") new_consumer 40 ascii-IsBoost
      third_head-IsPlainHead new-AwaitsRequest (omega arith)
