-- ===== src/Syntax/StatusCode/Value.antt =====
-- What a status code that was matched means.
use boost_http.Base.{
  length, ◌⊎◌, ℕ, ◌<◌, ◌+◌, ◌-◌, ◌*◌, ◌≤◌, [], ◌∷◌, some, take, Bytes, ◌≡◌, arith,
}
use boost_http.Syntax.Chars.{is_digit}
use boost_http.Syntax.Digits.Numeral.{number}
use boost_http.Syntax.Digits.ContentLength.{decimal_digit}
use boost_http.Syntax.StatusCode.{match_status_code, decode_status_code}

-- Three bytes that are digits.
digits :
    (a b c : ℕ)
    → (48 ≤ a) × (a ≤ 57)
    → (48 ≤ b) × (b ≤ 57)
    → (48 ≤ c) × (c ≤ 57)
    → (n : ℕ) × (decode_status_code (a ∷ b ∷ c ∷ []) ≡ some n)
      × (number decimal_digit 10 (a ∷ b ∷ c ∷ []) ≡ some n)
      × (n < 1000)
unfolding decode_status_code
digits a b c ha hb hc =
    ((a - 48) * 100 + (b - 48) * 10 + (c - 48), ground arith, ground arith, omega arith)

-- A view at whose beginning a status code is matched: its first three bytes decode to the value
-- of the decimal numeral that they are, which is below 1000.
pub decode_status_code-match_status_code :
    (view : Bytes)
    → match_status_code view ≡ 3
    → (n : ℕ) × (decode_status_code (take 3 view) ≡ some n)
      × (number decimal_digit 10 (take 3 view) ≡ some n)
      × (n < 1000)
unfolding match_status_code is_digit
decode_status_code-match_status_code [] h = absurd (omega arith)
decode_status_code-match_status_code (a ∷ []) h = absurd (omega arith)
decode_status_code-match_status_code (a ∷ b ∷ []) h = absurd (omega arith)
decode_status_code-match_status_code (a ∷ b ∷ c ∷ view) h =
    digits a b c (ground arith) (ground arith) (ground arith)

-- A match covers three bytes that are there, or none.
pub match_status_code-le :
    (view : Bytes)
    → (match_status_code view ≡ 0) ⊎ ((match_status_code view ≡ 3) × (3 ≤ length view))
unfolding match_status_code
match_status_code-le [] = ground arith
match_status_code-le (a ∷ []) = ground arith
match_status_code-le (a ∷ b ∷ []) = ground arith
match_status_code-le (a ∷ b ∷ c ∷ view) = ground arith
