-- ===== src/Syntax/Match/Longest.antt =====
-- What the `match` functions return.
use boost_http.Base.{◌≤◌, length, Bytes, span-le}
use boost_http.Syntax.Chars.{
  is_hexdigit, is_tchar, is_field_value_char, is_ows, is_reason_phrase_char,
}
use boost_http.Syntax.Match.{
  match_chunk_size, match_field_name, match_field_value, match_ows, match_reason_phrase,
}

pub match_chunk_size-le : (v : Bytes) → match_chunk_size v ≤ length v
unfolding match_chunk_size
match_chunk_size-le v = span-le is_hexdigit v

pub match_field_name-le : (v : Bytes) → match_field_name v ≤ length v
unfolding match_field_name
match_field_name-le v = span-le is_tchar v

pub match_field_value-le : (v : Bytes) → match_field_value v ≤ length v
unfolding match_field_value
match_field_value-le v = span-le is_field_value_char v

pub match_ows-le : (v : Bytes) → match_ows v ≤ length v
unfolding match_ows
match_ows-le v = span-le is_ows v

pub match_reason_phrase-le : (v : Bytes) → match_reason_phrase v ≤ length v
unfolding match_reason_phrase
match_reason_phrase-le v = span-le is_reason_phrase_char v
