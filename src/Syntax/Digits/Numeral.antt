-- ===== src/Syntax/Digits/Numeral.antt =====
-- What a numeral means: its value read from the first digit to the last, and, as the decoders
-- read it, from the last to the first.
use mathlib.Core.List.{reverse, reverse-cons}
use boost_http.Base.{
  ℕ, ◌+◌, ◌*◌, ◌<◌, Option, some, [], ◌∷◌, ◌++◌, ◌≡◌, ◌≢◌, refl, ◌>>=◌, Option-cases, Bytes, ==_iff,
  arith, ◌==◌, Bool-cases, inl, inr,
}
use boost_http.Syntax.Digits.{remove_zeros}

-- The value of the digits, the first the most significant; none where a byte is no digit.
abbrev pub number_from : (ℕ → Option ℕ) → ℕ → ℕ → Bytes → Option ℕ
number_from digit_value base acc [] = some acc
number_from digit_value base acc (c ∷ cs) =
    digit_value c >>= λ v. number_from digit_value base (acc * base + v) cs

abbrev pub number : (ℕ → Option ℕ) → ℕ → Bytes → Option ℕ
number digit_value base = number_from digit_value base 0

-- The value of the digits, the first the least significant, below the digits of `high`.
abbrev pub low_first : (ℕ → Option ℕ) → ℕ → ℕ → Bytes → Option ℕ
low_first digit_value base high [] = some high
low_first digit_value base high (c ∷ cs) = do
  m ← low_first digit_value base high cs
  v ← digit_value c
  some (v + base * m)

-- What a table of digits must say for the numerals' leading zeros to mean nothing.
pub record IsDigitTable (digit_value : ℕ → Option ℕ) : Type 0 where
  pub zero_digit : digit_value b'0' ≡ some 0
  pub pos_digit : (c v : ℕ) → digit_value c ≡ some v → c ≢ b'0' → 0 < v

module _ (digit_value : ℕ → Option ℕ) (base : ℕ) where
  low_first-concat :
      (xs : Bytes) (c high : ℕ)
      → low_first digit_value base high (xs ++ c ∷ [])
        ≡ (digit_value c >>= λ v. low_first digit_value base (v + base * high) xs)
  low_first-concat [] c high = refl
  low_first-concat (x ∷ xs) c high = elim (Option-cases (digit_value c)) [
    | inl e ↦ rw (low_first-concat xs c high) (rw e)
    | inr (v, e) ↦ rw (low_first-concat xs c high) (rw e)
  ]

  pub low_first-reverse :
      (xs : Bytes) (high : ℕ)
      → low_first digit_value base high (reverse xs) ≡ number_from digit_value base high xs
  low_first-reverse [] high = refl
  low_first-reverse (c ∷ cs) high = rw reverse-cons (
      rw (low_first-concat (reverse cs) c high) (elim (Option-cases (digit_value c)) [
        | inl e ↦ rw e
        | inr (v, e) ↦
            let shift : v + base * high ≡ high * base + v = omega arith in
            rw e (rw shift (low_first-reverse cs (high * base + v)))
      ]))

  -- Leading zeros do not change the value.
  pub number-remove_zeros :
      IsDigitTable digit_value
      → (xs : Bytes) → number digit_value base (remove_zeros xs) ≡ number digit_value base xs
  unfolding remove_zeros
  number-remove_zeros t [] = refl
  number-remove_zeros t (c ∷ cs) = elim (Bool-cases (c == b'0')) [
    | inl e ↦ rw e (
        rw ((==_iff c b'0').0 e) (
          rw t.zero_digit (
            let none_yet : 0 * base + 0 ≡ 0 = omega arith in
            rw none_yet (number-remove_zeros t cs))))
    | inr e ↦ rw e
  ]
