-- ===== src/Syntax/Crlf/LineEnds.antt =====
-- What the line-end matchers accept.
use boost_http.Base.{ℕ, ◌≤◌, [], ◌∷◌, length, Bytes, arith}
use boost_http.Syntax.Crlf.{
  Result, crlf, lf, insufficient_data, invalid_data, match_strict, match_liberal,
}

-- The bytes that the match covers are there.
pub match_strict-le : (v : Bytes) → match_strict v ≤ length v
unfolding match_strict
match_strict-le [] = omega arith
match_strict-le (a ∷ []) = omega arith
match_strict-le (a ∷ b ∷ v) = ground arith

abbrev pub size_of : Result → ℕ
size_of crlf = 2
size_of lf = 1
size_of insufficient_data = 0
size_of invalid_data = 0

pub size_of-match_liberal : (v : Bytes) → size_of (match_liberal v) ≤ length v
unfolding match_liberal
size_of-match_liberal [] = omega arith
size_of-match_liberal (a ∷ []) = ground arith
size_of-match_liberal (a ∷ b ∷ v) = ground arith
