-- ===== src/Syntax/StatusCode.antt =====
-- include/boost/http/syntax/status_code.ipp.
pub mod Value
use boost_http.Base.{
  ℕ, ◌+◌, ◌-◌, ◌*◌, ◌%◌, ◌^◌, ◌&&◌, [], ◌∷◌, Option, none, some, if◌then◌else◌, Bytes,
}
use boost_http.Syntax.Chars.{is_digit}

unfoldable pub match_status_code : Bytes → ℕ
match_status_code (a ∷ b ∷ c ∷ _) = if is_digit a && is_digit b && is_digit c then 3 else 0
match_status_code _ = 0

-- The sum is an `int`, and wraps around when it is made a `uint_least16_t` of 16 bits. The three
-- zeros are subtracted at the end, from a number that is above them.
unfoldable pub decode_status_code : Bytes → Option ℕ
decode_status_code (a ∷ b ∷ c ∷ []) =
    some ((2 ^ 16 + a * 100 + b * 10 + c - (b'0' * 100 + b'0' * 10 + b'0')) % 2 ^ 16)
decode_status_code _ = none
