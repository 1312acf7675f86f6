-- ===== src/Abnf.antt =====
-- include/boost/http/reader/detail/abnf.hpp, and `is_request_target_char` of
-- include/boost/http/reader/detail/common.hpp: the character classes that the readers use
-- byte by byte. A byte is an `unsigned char`.
use boost_http.Base.{ℕ, Bool, true, ◌&&◌, ◌||◌, leb, ◌==◌, if◌then◌else◌}

abbrev in_range : ℕ → ℕ → ℕ → Bool
in_range first last byte = leb first byte && leb byte last

pub isalpha : ℕ → Bool
isalpha c = in_range 0x41 0x5A c || in_range 0x61 0x7A c

pub isdigit : ℕ → Bool
isdigit c = in_range 0x30 0x39 c

pub isalnum : ℕ → Bool
unfolding isalpha isdigit
isalnum c = isalpha c || isdigit c

unfoldable pub is_tchar : ℕ → Bool
unfolding isalnum
is_tchar c =
    if c == b'!'
      || c == b'#'
      || c == b'$'
      || c == b'%'
      || c == b'&'
      || c == b'\''
      || c == b'*'
      || c == b'+'
      || c == b'-'
      || c == b'.'
      || c == b'^'
      || c == b'_'
      || c == b'`'
      || c == b'|'
      || c == b'~'
    then true
    else isalnum c

unfoldable pub is_sp : ℕ → Bool
is_sp c = c == 0x20

pub is_vchar : ℕ → Bool
is_vchar c = leb 0x21 c && leb c 0x7E

pub is_obs_text : ℕ → Bool
is_obs_text c = leb 0x80 c

unfoldable pub is_ows : ℕ → Bool
is_ows c = c == 0x20 || c == 0x09

unfoldable pub is_chunk_ext_char : ℕ → Bool
unfolding is_tchar is_vchar is_obs_text
is_chunk_ext_char c =
    if c == b';' || c == b'=' || c == b'"' || c == 0x09 || c == b' ' || c == b'!' || c == b'\\'
    then true
    else is_tchar c || in_range 0x23 0x5B c || in_range 0x5D 0x7E c || is_obs_text c || is_vchar c

unfoldable pub is_request_target_char : ℕ → Bool
unfolding isalnum
is_request_target_char c =
    if c == b'?'
      || c == b'/'
      || c == b'-'
      || c == b'.'
      || c == b'_'
      || c == b'~'
      || c == b'%'
      || c == b'!'
      || c == b'$'
      || c == b'&'
      || c == b'\''
      || c == b'('
      || c == b')'
      || c == b'*'
      || c == b'+'
      || c == b','
      || c == b';'
      || c == b'='
      || c == b':'
      || c == b'@'
    then true
    else isalnum c
