-- ===== src/Syntax/Chars.antt =====
-- The character classes of include/boost/http/syntax, at `unsigned char`. `isalnum` is that of
-- the C library in the "C" locale.
use boost_http.Base.{ℕ, Bool, true, ◌&&◌, ◌||◌, leb, ◌==◌, if◌then◌else◌}

abbrev in_range : ℕ → ℕ → ℕ → Bool
in_range first last byte = leb first byte && leb byte last

unfoldable pub is_digit : ℕ → Bool
is_digit c = leb 0x30 c && leb c 0x39

pub is_obs_text : ℕ → Bool
is_obs_text c = leb 0x80 c && leb c 0xFF

unfoldable pub is_ows : ℕ → Bool
is_ows c = c == 0x20 || c == 0x09

pub is_vchar : ℕ → Bool
is_vchar c = leb 0x21 c && leb c 0x7E

-- The C library's.
isalnum : ℕ → Bool
isalnum c = in_range b'0' b'9' c || in_range b'A' b'Z' c || in_range b'a' b'z' c

unfoldable pub is_tchar : ℕ → Bool
unfolding isalnum
is_tchar c =
    if c == b'!'
      || c == b'#'
      || c == b'$'
      || c == b'%'
      || c == b'&'
      || c == b'\''
      || c == b'*'
      || c == b'+'
      || c == b'-'
      || c == b'.'
      || c == b'^'
      || c == b'_'
      || c == b'`'
      || c == b'|'
      || c == b'~'
    then true
    else isalnum c

unfoldable pub is_hexdigit : ℕ → Bool
is_hexdigit c = in_range b'0' b'9' c || in_range b'A' b'F' c || in_range b'a' b'f' c

pub is_nonnull_field_value_char : ℕ → Bool
unfolding is_vchar is_obs_text
is_nonnull_field_value_char c = is_vchar c || is_obs_text c

unfoldable pub is_field_value_char : ℕ → Bool
unfolding is_nonnull_field_value_char is_ows
is_field_value_char c = is_nonnull_field_value_char c || is_ows c

unfoldable pub is_reason_phrase_char : ℕ → Bool
unfolding is_ows is_vchar is_obs_text
is_reason_phrase_char c = is_ows c || is_vchar c || is_obs_text c
