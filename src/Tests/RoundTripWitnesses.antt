-- ===== src/Tests/RoundTripWitnesses.antt =====
-- An instance of the round trip of printed requests.
use boost_http.Base.{some, [], ◌∷◌, ◌≡◌, refl, drop, ◌+◌, inl, inr, arith}
use boost_http.Abnf.{is_tchar, is_request_target_char, is_ows}
use boost_http.Syntax.Chars
use boost_http.Reader.Request.State.{State, Version, Request, construct}
use boost_http.Reader.Request.RoundTrip.{
  Field, Chunk, no_content, sized, chunked, Head, print_heads, read_buffer, head_items, head_calls,
}
use boost_http.Reader.Request.RoundTrip.Fields.{IsField, IsPlainField}
use boost_http.Reader.Request.RoundTrip.Framing.{IsDecimal}
use boost_http.Reader.Request.RoundTrip.Chunks.{IsChunk}
use boost_http.Reader.Request.RoundTrip.Pipeline.{
  IsPlainHead, AllPlainHeads, AwaitsRequest, read_buffer-print_heads,
}
use boost_http.Tests.Ascii.{ascii, ascii-IsBoost}
use boost_http.Tests.Runs.{bytes_of}

-- GET /a HTTP/1.1, with two fields; PUT * HTTP/1.0, with 12 bytes; and POST /b HTTP/1.0, with two
-- chunks and a trailer.
abbrev host_field : Field
host_field = record { name = bytes_of "hOST"; value = bytes_of "x y" }

abbrev accept_field : Field
accept_field = record { name = bytes_of "Accept"; value = bytes_of "*" }

abbrev first_head : Head
first_head = record {
  method = bytes_of "GET";
  target = bytes_of "/a";
  minor = 1;
  fields = host_field ∷ accept_field ∷ [];
  body = no_content;
}

abbrev second_head : Head
second_head = record {
  method = bytes_of "PUT";
  target = bytes_of "*";
  minor = 0;
  fields = [];
  body = sized (bytes_of "012") (bytes_of "hello, world");
}

abbrev long_chunk : Chunk
long_chunk = record { size = bytes_of "0a"; content = bytes_of "0123456789" }

abbrev short_chunk : Chunk
short_chunk = record { size = bytes_of "1"; content = bytes_of "x" }

abbrev pub third_head : Head
third_head = record {
  method = bytes_of "POST";
  target = bytes_of "/b";
  minor = 0;
  fields = [];
  body = chunked (long_chunk ∷ short_chunk ∷ []) (accept_field ∷ []);
}

host_field-IsField : IsField host_field
unfolding is_ows Chars.is_tchar Chars.is_field_value_char
host_field-IsField = record {
  named = omega arith;
  name_chars = (refl, (refl, (refl, (refl, tt))));
  first = b'x';
  others = bytes_of " y";
  value_splits = refl;
  starts_off = refl;
  ends_off = record { before = bytes_of "x "; last = b'y'; splits = refl; off = refl };
  value_chars = (refl, (refl, (refl, tt)));
}

host_field-IsPlainField : IsPlainField ascii host_field
unfolding ascii
host_field-IsPlainField = record {
  is_field = host_field-IsField;
  not_transfer_encoding = refl;
  not_content_length = refl;
}

accept_field-IsField : IsField accept_field
unfolding is_ows Chars.is_tchar Chars.is_field_value_char
accept_field-IsField = record {
  named = omega arith;
  name_chars = (refl, (refl, (refl, (refl, (refl, (refl, tt))))));
  first = b'*';
  others = [];
  value_splits = refl;
  starts_off = refl;
  ends_off = record { before = []; last = b'*'; splits = refl; off = refl };
  value_chars = (refl, tt);
}

accept_field-IsPlainField : IsPlainField ascii accept_field
unfolding ascii
accept_field-IsPlainField = record {
  is_field = accept_field-IsField;
  not_transfer_encoding = refl;
  not_content_length = refl;
}

twelve-IsDecimal : IsDecimal (bytes_of "012") 12
unfolding Chars.is_digit
twelve-IsDecimal = record {
  first = b'0';
  others = bytes_of "12";
  splits = refl;
  all = (refl, (refl, (refl, tt)));
  denotes = refl;
  fits = omega arith;
}

long_chunk-IsChunk : IsChunk long_chunk
unfolding Chars.is_hexdigit
long_chunk-IsChunk = record {
  filled = omega arith;
  counted = record {
    first = b'0';
    others = bytes_of "a";
    splits = refl;
    all = (refl, (refl, tt));
    denotes = refl;
    fits = omega arith;
  };
}

short_chunk-IsChunk : IsChunk short_chunk
unfolding Chars.is_hexdigit
short_chunk-IsChunk = record {
  filled = omega arith;
  counted = record {
    first = b'1';
    others = [];
    splits = refl;
    all = (refl, tt);
    denotes = refl;
    fits = omega arith;
  };
}

pub third_head-IsPlainHead : IsPlainHead ascii third_head
unfolding is_tchar is_request_target_char
third_head-IsPlainHead = record {
  method_filled = omega arith;
  method_chars = (refl, (refl, (refl, (refl, tt))));
  target_filled = omega arith;
  target_chars = (refl, (refl, tt));
  one_digit = omega arith;
  plain_fields = tt;
  fine_body = ((long_chunk-IsChunk, (short_chunk-IsChunk, tt)), (accept_field-IsField, tt));
  one_host = inl refl;
}

heads-AllPlainHeads : AllPlainHeads ascii (first_head ∷ second_head ∷ third_head ∷ [])
unfolding ascii is_tchar is_request_target_char
heads-AllPlainHeads = (
  record {
    method_filled = omega arith;
    method_chars = (refl, (refl, (refl, tt)));
    target_filled = omega arith;
    target_chars = (refl, (refl, tt));
    one_digit = omega arith;
    plain_fields = (host_field-IsPlainField, (accept_field-IsPlainField, tt));
    fine_body = tt;
    one_host = inr refl;
  },
  (
    record {
      method_filled = omega arith;
      method_chars = (refl, (refl, (refl, tt)));
      target_filled = omega arith;
      target_chars = (refl, tt);
      one_digit = omega arith;
      plain_fields = tt;
      fine_body = twelve-IsDecimal;
      one_host = inl refl;
    },
    (third_head-IsPlainHead, tt),
  ),
)

pub new-AwaitsRequest : AwaitsRequest (construct Version.http_1_0 77)
unfolding construct
new-AwaitsRequest = record { at_method = refl; no_body = refl; no_token = refl; wants_data = refl }

read_buffer-print_heads_example :
    (last : Request) × (read_buffer ascii
        (head_calls (first_head ∷ second_head ∷ third_head ∷ []))
        (print_heads (first_head ∷ second_head ∷ third_head ∷ []) (bytes_of "GE"))
        (construct Version.http_1_0 77)
      ≡ some (head_items (first_head ∷ second_head ∷ third_head ∷ []), last))
    × (last.state ≡ State.expect_method)
    × (drop (last.idx + last.token_size) last.ibuffer ≡ bytes_of "GE")
read_buffer-print_heads_example =
    read_buffer-print_heads ascii first_head (second_head ∷ third_head ∷ []) (bytes_of "GE")
      (construct Version.http_1_0 77) ascii-IsBoost heads-AllPlainHeads new-AwaitsRequest
