-- ===== src/Syntax/Digits/Loop.antt =====
-- The loop of the decoders against the value of the digits.
use native.Mathlib.Nat.{div-lt_iff_lt-mul, le-mul_of_pos_right}
use boost_http.Base.{
  ℕ, ◌+◌, ◌*◌, ◌/◌, ◌≤◌, ◌<◌, Option, none, some, [], ◌∷◌, ◌≡◌, ◌≢◌, refl, >>=-eq-some,
  Option-cases, Bytes, arith, inl, inr,
}
use boost_http.Syntax.Digits.{ok, overflow, accumulate, loop}
use boost_http.Syntax.Digits.Numeral.{low_first}

accumulate_fits :
    (max d v out : ℕ) → 0 < d → out + v * d ≤ max → accumulate max d v out ≡ some (out + v * d)
unfolding accumulate
accumulate_fits max d v out pos h = ground (arith, (div-lt_iff_lt-mul {x = max} {y = v} pos).0)

accumulate_overflows : (max d v out : ℕ) → 0 < d → max < out + v * d → accumulate max d v out ≡ none
unfolding accumulate
accumulate_overflows max d v out pos h = ground (arith, (div-lt_iff_lt-mul {x = max} {y = v} pos).1)

-- Another digit is worth more than `max`.
scale_overflows : (max base d : ℕ) → 0 < base → max / base < d → max < d * base
scale_overflows max base d pos h = (div-lt_iff_lt-mul pos).0 h

scale : (base d v m out : ℕ) → out + d * (v + base * m) ≡ out + v * d + d * base * m
scale base d v m out = grind arith

module _ (digit_value : ℕ → Option ℕ) (base max : ℕ) (base_pos : 0 < base) where
  -- Every tail of the list has a positive value.
  abbrev pub IsPositive : Bytes → Type 0
  IsPositive [] = Unit {0}
  IsPositive (c ∷ cs) =
      ((n : ℕ) → low_first digit_value base 0 (c ∷ cs) ≡ some n → 0 < n) × IsPositive cs

  pub loop_ok :
      (cs : Bytes) (d out n : ℕ)
      → 0 < d
      → IsPositive cs
      → low_first digit_value base 0 cs ≡ some n
      → out + d * n ≤ max
      → loop digit_value base max cs d out ≡ (ok, out + d * n)
  unfolding loop
  loop_ok [] d out n pos top e fits = ground arith
  loop_ok (c ∷ []) d out n pos top e fits =
      let (v, ev, e') = >>=-eq-some (digit_value c) _ e in
      let sum : out + d * n ≡ out + v * d = grind (arith, scale base d v 0 out) in
      ground (arith, accumulate_fits max d v out pos (omega arith))
  loop_ok (c ∷ (b ∷ cs)) d out n pos top e fits =
      let (m, em, e') = >>=-eq-some (low_first digit_value base 0 (b ∷ cs)) _ e in
      let (v, ev, e'') = >>=-eq-some (digit_value c) _ e' in
      let sum : out + d * n ≡ out + v * d + d * base * m = grind (arith, scale base d v m out) in
      let larger : d * base ≤ d * base * m = le-mul_of_pos_right (d * base) (top.1.0 m em) in
      let more : 0 < d * base = grind arith in
      let rest = loop_ok (b ∷ cs) (d * base) (out + v * d) m more top.1 em (omega arith) in
      ground (
        arith,
        accumulate_fits max d v out pos (omega arith),
        scale_overflows max base d base_pos,
        rest,
      )

  pub loop_overflow :
      (cs : Bytes) (d out n : ℕ)
      → 0 < d
      → IsPositive cs
      → cs ≢ []
      → low_first digit_value base 0 cs ≡ some n
      → max < out + d * n
      → (loop digit_value base max cs d out).0 ≡ overflow
  unfolding loop
  loop_overflow [] d out n pos top ne e over = absurd (ne refl)
  loop_overflow (c ∷ []) d out n pos top ne e over =
      let (v, ev, e') = >>=-eq-some (digit_value c) _ e in
      let sum : out + d * n ≡ out + v * d = grind (arith, scale base d v 0 out) in
      ground (arith, accumulate_overflows max d v out pos (omega arith))
  loop_overflow (c ∷ (b ∷ cs)) d out n pos top ne e over =
      let (m, em, e') = >>=-eq-some (low_first digit_value base 0 (b ∷ cs)) _ e in
      let (v, ev, e'') = >>=-eq-some (digit_value c) _ e' in
      let sum : out + d * n ≡ out + v * d + d * base * m = grind (arith, scale base d v m out) in
      let more : 0 < d * base = grind arith in
      let rest =
        loop_overflow (b ∷ cs) (d * base) (out + v * d) m more top.1 (λ x. cc) em (omega arith) in
      ground (
        arith,
        accumulate max d v out,
        Option-cases (accumulate max d v out),
        accumulate_fits max d v out pos,
        accumulate_overflows max d v out pos,
        rest,
      )

  -- A byte that is no digit is never passed over.
  pub loop_invalid :
      (cs : Bytes) (d out : ℕ)
      → low_first digit_value base 0 cs ≡ none
      → (loop digit_value base max cs d out).0 ≢ ok
  unfolding loop
  loop_invalid [] d out e h = cc
  loop_invalid (c ∷ []) d out e h = ground arith
  loop_invalid (c ∷ (b ∷ cs)) d out e h = elim (Option-cases (digit_value c)) [
    | inl bad ↦ ground arith
    | inr (v, ev) ↦ elim (Option-cases (accumulate max d v out)) [
      | inl over ↦ ground arith
      | inr (out', fits) ↦ ground (arith, loop_invalid (b ∷ cs) (d * base) out')
    ]
  ]
