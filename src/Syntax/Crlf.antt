-- ===== src/Syntax/Crlf.antt =====
-- include/boost/http/syntax/crlf.ipp.
pub mod LineEnds
use boost_http.Base.{ℕ, not, ◌||◌, [], ◌∷◌, ◌==◌, if◌then◌else◌, Bytes}

-- `strict_crlf::match`.
unfoldable pub match_strict : Bytes → ℕ
match_strict [] = 0
match_strict (a ∷ []) = 0
match_strict (a ∷ b ∷ _) = if not (a == 0x0D) || not (b == 0x0A) then 0 else 2

pub data Result : Type 0 where
  crlf lf insufficient_data invalid_data : Result

-- The second byte, behind a CR.
after_cr : Bytes → Result
after_cr [] = insufficient_data
after_cr (b ∷ _) = if b == 0x0A then crlf else invalid_data

-- `liberal_crlf::match`.
unfoldable pub match_liberal : Bytes → Result
unfolding after_cr
match_liberal [] = insufficient_data
match_liberal (a ∷ rest) =
    if a == 0x0A then lf else if a == 0x0D then after_cr rest else invalid_data
