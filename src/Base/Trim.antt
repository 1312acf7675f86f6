-- ===== src/Base/Trim.antt =====
-- Trailing bytes of a class, counted from the end or taken off by recursion.
use Prim.Native.Nat.{ℕ, zero, suc, ◌-◌, ◌≤◌, ◌<◌}
use mathlib.Core.Path.{◌≡◌, refl, sym, ap, ◌∙◌}
use mathlib.Core.Logic.{◌⊎◌, inl, inr}
use mathlib.Core.Bool.{Bool, false}
use mathlib.Core.List.{[], ◌∷◌, ◌++◌, reverse, reverse-cons}
use native.Mathlib.Omega.{arith}
use boost_http.Base.Tests.{◌==◌, if◌then◌else◌, Bool-cases}
use boost_http.Base.Lists.{length, take, length-append, length-take}
use boost_http.Base.Spans.{Bytes, span, All, span-le, span-append}

abbrev keep : (ℕ → Bool) → ℕ → Bytes → Bytes
keep p c [] = if p c then [] else c ∷ []
keep p c (d ∷ ds) = c ∷ d ∷ ds

-- The bytes less the trailing ones of the class.
unfoldable pub trim_right : (ℕ → Bool) → Bytes → Bytes
trim_right p [] = []
trim_right p (c ∷ cs) = keep p c (trim_right p cs)

pub length-reverse : (xs : Bytes) → length (reverse xs) ≡ length xs
length-reverse [] = refl
length-reverse (c ∷ cs) =
    rw reverse-cons (omega (arith, length-append (reverse cs) (c ∷ []), length-reverse cs))

keep_nonempty : (p : ℕ → Bool) (c : ℕ) (xs : Bytes) → 0 < length xs → keep p c xs ≡ c ∷ xs
keep_nonempty p c [] h = elim h [ ]
keep_nonempty p c (x ∷ xs) h = refl

take-zero : (k : ℕ) (xs : Bytes) → k ≡ 0 → take k xs ≡ []
take-zero zero xs h = refl
take-zero (suc k) xs h = absurd (omega arith)

take-suc : (k m c : ℕ) (cs : Bytes) → k ≡ suc m → take k (c ∷ cs) ≡ c ∷ take m cs
take-suc zero m c cs h = absurd (omega arith)
take-suc (suc k) m c cs h = ap (λ (j : ℕ). c ∷ take j cs) (omega arith)

span_one : (p : ℕ → Bool) (c : ℕ) → span p (c ∷ []) ≡ (if p c then 1 else 0)
unfolding span
span_one p c = refl

pub take-trim_right :
    (p : ℕ → Bool) (xs : Bytes) → take (length xs - span p (reverse xs)) xs ≡ trim_right p xs
unfolding trim_right
take-trim_right p [] = take-zero _ [] (omega arith)
take-trim_right p (c ∷ cs) =
    rw (reverse-cons, span-append p (reverse cs) (c ∷ []), length-reverse cs)
      (elim (Bool-cases (span p (reverse cs) == length cs)) [
        | inl all ↦
            let empty : trim_right p cs ≡ [] =
              sym (take-trim_right p cs) ∙ take-zero _ cs (ground arith) in
            rw (all, empty, span_one p c)
              (elim (Bool-cases (p c)) [
                | inl e ↦ rw e (take-zero _ (c ∷ cs) (omega arith))
                | inr e ↦ rw e (take-suc _ 0 c cs (omega arith))
              ])
        | inr some_left ↦
            let le : span p (reverse cs) ≤ length cs =
              omega (arith, span-le p (reverse cs), length-reverse cs) in
            let left : 0 < length cs - span p (reverse cs) = ground arith in
            let shorter : length (trim_right p cs) ≡ length cs - span p (reverse cs) =
              rw (← take-trim_right p cs)
                (omega (arith, length-take (length cs - span p (reverse cs)) cs)) in
            rw some_left (
              take-suc _ (length cs - span p (reverse cs)) c cs (omega arith)
              ∙ ap (◌∷◌ c) (take-trim_right p cs)
              ∙ sym (keep_nonempty p c (trim_right p cs) (omega arith)))
      ])

-- `last` is the last byte, and is not of the class.
pub record EndsOff (p : ℕ → Bool) (xs : Bytes) : Type 0 where
  pub before : Bytes
  pub last : ℕ
  pub splits : xs ≡ before ++ last ∷ []
  pub off : p last ≡ false

pub EndsOff-cons : (p : ℕ → Bool) (c : ℕ) {xs : Bytes} → EndsOff p xs → EndsOff p (c ∷ xs)
EndsOff-cons p c e = record {
  before = c ∷ e.before;
  last = e.last;
  splits = ap (◌∷◌ c) e.splits;
  off = e.off;
}

-- What is taken off is of the class, and what is left does not end in it.
pub trim_right_splits :
    (p : ℕ → Bool) (xs : Bytes)
    → (rest : Bytes) × (xs ≡ trim_right p xs ++ rest)
      × All p rest
      × ((trim_right p xs ≡ []) ⊎ EndsOff p (trim_right p xs))
unfolding trim_right
trim_right_splits p [] = ([], refl, tt, inl refl)
trim_right_splits p (c ∷ cs) =
    let (rest, e, blank, ends) = trim_right_splits p cs in go rest (trim_right p cs) e blank ends
  where
    go :
        (rest t : Bytes)
        → cs ≡ t ++ rest
        → All p rest
        → (t ≡ []) ⊎ EndsOff p t
        → (r : Bytes) × (c ∷ cs ≡ keep p c t ++ r)
          × All p r
          × ((keep p c t ≡ []) ⊎ EndsOff p (keep p c t))
    go rest [] e blank ends = elim (Bool-cases (p c)) [
      | inl off ↦ rw off (c ∷ rest, ap (◌∷◌ c) e, (off, blank), inl refl)
      | inr on ↦ rw on (
        rest,
        ap (◌∷◌ c) e,
        blank,
        inr (record { before = []; last = c; splits = refl; off = on }),
      )
    ]
    go rest (d ∷ ds) e blank (inl no_byte) = cc
    go rest (d ∷ ds) e blank (inr ends) = (rest, ap (◌∷◌ c) e, blank, inr (EndsOff-cons p c ends))
