-- ===== src/Syntax/Digits/ContentLength.antt =====
-- `content_length::decode` of include/boost/http/syntax/content_length.ipp.
use boost_http.Base.{
  ℕ, ◌-◌, Option, none, some, [], ◌≡◌, ◌≢◌, refl, ◌∷◌, ◌&&◌, leb, if◌then◌else◌, Bytes, arith,
}
use boost_http.Syntax.Digits.{invalid, decode_content_length}
use boost_http.Syntax.Digits.Numeral.{number, IsDigitTable}
use boost_http.Syntax.Digits.Decode.{Decodes, decode_nonempty-Decodes}

-- DIGIT of RFC 5234.
abbrev pub decimal_digit : ℕ → Option ℕ
decimal_digit c = if leb 48 c && leb c 57 then some (c - 48) else none

decimal_digit-IsDigitTable : IsDigitTable decimal_digit
decimal_digit-IsDigitTable = record { zero_digit = refl; pos_digit = λ c v e ne. ground arith }

-- For every largest value `max` of the target: a nonempty view decodes to (ok, n) when it is
-- a decimal numeral of value n ≤ max, with overflow when its value is above max, and never
-- with ok when it holds another byte; the empty view is invalid and leaves the target alone.
pub decode_content_length-Decodes :
    (max : ℕ) (input : Bytes) (out : ℕ)
    → (input ≢ []
        → Decodes max (number decimal_digit 10 input) (decode_content_length max input out))
      × (decode_content_length max [] out ≡ (invalid, out))
unfolding decode_content_length
decode_content_length-Decodes max input out = (go input, refl)
  where
    go :
        (xs : Bytes)
        → xs ≢ []
        → Decodes max (number decimal_digit 10 xs) (decode_content_length max xs out)
    go [] ne = absurd (ne refl)
    go (c ∷ cs) ne =
        decode_nonempty-Decodes decimal_digit 10 max (omega arith) decimal_digit-IsDigitTable
          (c ∷ cs)
