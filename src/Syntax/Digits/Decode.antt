-- ===== src/Syntax/Digits/Decode.antt =====
-- `content_length::decode` and `chunk_size::decode` against the value of a numeral.
use mathlib.Core.List.{reverse, reverse-cons}
use boost_http.Base.{
  ℕ, ◌+◌, ◌*◌, ◌≤◌, ◌<◌, Option, none, some, [], ◌∷◌, ◌++◌, ◌≡◌, ◌≢◌, refl, ◌∙◌, >>=-eq-some, Bytes,
  arith, inl, inr, ◌==◌, Bool-cases,
}
use boost_http.Syntax.Digits.{Result, ok, overflow, remove_zeros, loop, decode_nonempty}
use boost_http.Syntax.Digits.Numeral.{
  low_first, number, low_first-reverse, number-remove_zeros, IsDigitTable,
}
use boost_http.Syntax.Digits.Loop.{IsPositive, loop_ok, loop_overflow, loop_invalid}

-- What decoding a numeral of the given value, or no numeral, has to give.
abbrev pub Decodes : ℕ → Option ℕ → Result × ℕ → Type 0
Decodes max none r = r.0 ≢ ok
Decodes max (some n) r = (n ≤ max → r ≡ (ok, n)) × (max < n → r.0 ≡ overflow)

remove_zeros_head : (xs : Bytes) (c : ℕ) (cs : Bytes) → remove_zeros xs ≡ c ∷ cs → c ≢ b'0'
unfolding remove_zeros
remove_zeros_head [] c cs e = cc
remove_zeros_head (x ∷ xs) c cs e = elim (Bool-cases (x == b'0')) [
  | inl z ↦ remove_zeros_head xs c cs (rw z at e)
  | inr z ↦ ground arith
]

concat-ne-nil : (xs : Bytes) (c : ℕ) → xs ++ c ∷ [] ≢ []
concat-ne-nil [] c e = cc
concat-ne-nil (x ∷ xs) c e = cc

module _ (digit_value : ℕ → Option ℕ) (base max : ℕ) (base_pos : 0 < base) where
  positive_cons :
      (x : ℕ) (t : Bytes)
      → ((m : ℕ) → low_first digit_value base 0 t ≡ some m → 0 < m)
      → (n : ℕ) → low_first digit_value base 0 (x ∷ t) ≡ some n
      → 0 < n
  positive_cons x t pos n e =
      let (m, em, e') = >>=-eq-some (low_first digit_value base 0 t) _ e in
      let (v, ev, e'') = >>=-eq-some (digit_value x) _ e' in
      let rest : 0 < m = pos m em in
      let scaled : 0 < base * m = grind arith in let sum : v + base * m ≡ n = cc in omega arith

  IsPositive-concat :
      (xs : Bytes) (c : ℕ)
      → ((v : ℕ) → digit_value c ≡ some v → 0 < v)
      → IsPositive digit_value base max base_pos (xs ++ c ∷ [])
  IsPositive-concat [] c pos =
      (λ n e. let (v, ev, e') = >>=-eq-some (digit_value c) _ e in ground (arith, pos v ev), tt)
  IsPositive-concat (x ∷ []) c pos =
      let rest = IsPositive-concat [] c pos in (positive_cons x (c ∷ []) rest.0, rest)
  IsPositive-concat (x ∷ y ∷ xs) c pos =
      let rest = IsPositive-concat (y ∷ xs) c pos in
      (positive_cons x (y ∷ (xs ++ c ∷ [])) rest.0, rest)

  stripped_Decodes :
      (c : ℕ) (cs : Bytes) (o : Option ℕ)
      → ((v : ℕ) → digit_value c ≡ some v → 0 < v)
      → number digit_value base (c ∷ cs) ≡ o
      → Decodes max o (loop digit_value base max (reverse (c ∷ cs)) 1 0)
  stripped_Decodes c cs none pos e =
      loop_invalid digit_value base max base_pos (reverse (c ∷ cs)) 1 0
        (low_first-reverse digit_value base (c ∷ cs) 0 ∙ e)
  stripped_Decodes c cs (some n) pos e =
      let low = low_first-reverse digit_value base (c ∷ cs) 0 ∙ e in
      let one : 0 + 1 * n ≡ n = omega arith in
      let top : IsPositive digit_value base max base_pos (reverse (c ∷ cs)) =
        rw reverse-cons (IsPositive-concat (reverse cs) c pos) in
      let filled : reverse (c ∷ cs) ≢ [] = rw reverse-cons (concat-ne-nil (reverse cs) c) in
      (
        λ fits.
            loop_ok digit_value base max base_pos (reverse (c ∷ cs)) 1 0 n (omega arith) top low
              (omega arith)
            ∙ rw one,
        λ over.
            loop_overflow digit_value base max base_pos (reverse (c ∷ cs)) 1 0 n (omega arith) top
              filled low (omega arith),
      )

  pub decode_nonempty-Decodes :
      IsDigitTable digit_value
      → (xs : Bytes)
      → Decodes max (number digit_value base xs) (decode_nonempty digit_value base max xs)
  unfolding decode_nonempty
  decode_nonempty-Decodes t xs =
      rw (← number-remove_zeros digit_value base t xs) (go (remove_zeros xs) refl)
    where
      go :
          (ys : Bytes)
          → remove_zeros xs ≡ ys
          → Decodes max (number digit_value base ys) (loop digit_value base max (reverse ys) 1 0)
      go [] e = (λ fits. refl, λ over. absurd (omega arith))
      go (c ∷ cs) e =
          stripped_Decodes c cs (number digit_value base (c ∷ cs))
            (λ v ev. t.pos_digit c v ev (remove_zeros_head xs c cs e)) refl
