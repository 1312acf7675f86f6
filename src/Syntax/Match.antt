-- ===== src/Syntax/Match.antt =====
-- The `match` functions that count the leading bytes of a class: chunk_size.ipp, field_name.ipp,
-- field_value.ipp, ows.ipp and reason_phrase.ipp.
pub mod Longest
use boost_http.Base.{ℕ, Bytes, span}
use boost_http.Syntax.Chars.{
  is_hexdigit, is_tchar, is_field_value_char, is_ows, is_reason_phrase_char,
}

unfoldable pub match_chunk_size : Bytes → ℕ
match_chunk_size view = span is_hexdigit view

unfoldable pub match_field_name : Bytes → ℕ
match_field_name view = span is_tchar view

unfoldable pub match_field_value : Bytes → ℕ
match_field_value view = span is_field_value_char view

unfoldable pub match_ows : Bytes → ℕ
match_ows view = span is_ows view

unfoldable pub match_reason_phrase : Bytes → ℕ
match_reason_phrase view = span is_reason_phrase_char view
