-- ===== src/Syntax/Digits/Width.antt =====
-- The decoders at the width of their target: every sum and product is reduced modulo `max + 1`.
use native.Mathlib.Nat.{div-lt_iff_lt-mul}
use mathlib.Core.Path.{subst}
use mathlib.Core.List.{reverse}
use boost_http.Base.{
  ℕ, ◌+◌, ◌-◌, ◌*◌, ◌/◌, ◌%◌, ◌≤◌, ◌<◌, true, false, Option, none, some, [], ◌∷◌, ltb, ◌≡◌, refl,
  ap, sym, arith, Bytes, if◌then◌else◌, Bool-cases, Option-cases, inl, inr,
}
use boost_http.Syntax.Digits.{
  Result, invalid, ok, overflow, remove_zeros, accumulate, loop, decode_nonempty, decimal_value,
  hex_value, decode_content_length, decode_chunk_size,
}

module _ (max : ℕ) where
  abbrev wrap : ℕ → ℕ
  wrap n = n % (max + 1)

  abbrev accumulate_wrapped : ℕ → ℕ → ℕ → Option ℕ
  accumulate_wrapped digit value out =
      if ltb (max / digit) value
      then none
      else if ltb (max - wrap (value * digit)) out
      then none
      else some (wrap (out + wrap (value * digit)))

  abbrev loop_wrapped : (ℕ → Option ℕ) → ℕ → Bytes → ℕ → ℕ → Result × ℕ
  loop_wrapped digit_value base [] digit out = (ok, out)
  loop_wrapped digit_value base (c ∷ cs) digit out = elim (digit_value c) [
    | none ↦ (invalid, out)
    | some value ↦ elim (accumulate_wrapped digit value out) [
      | none ↦ (overflow, out)
      | some out' ↦ elim cs [
        | [] ↦ (ok, out')
        | _ ∷ _ ↦ elim (ltb (max / base) digit) [
          | true ↦ (overflow, out')
          | false ↦ loop_wrapped digit_value base cs (wrap (digit * base)) out'
        ]
      ]
    ]
  ]

  abbrev pub decode_wrapped : (ℕ → Option ℕ) → ℕ → Bytes → ℕ → Result × ℕ
  decode_wrapped digit_value base [] out = (invalid, out)
  decode_wrapped digit_value base (c ∷ cs) out =
      loop_wrapped digit_value base (reverse (remove_zeros (c ∷ cs))) (wrap 1) 0

  wrap-le : (n : ℕ) → n ≤ max → wrap n ≡ n
  wrap-le n h = grind arith

  product_pos : (d base : ℕ) → 0 < d → 0 < base → 0 < d * base
  product_pos d base hd hb = grind arith

  product-le : (v d : ℕ) → 0 < d → v ≤ max / d → v * d ≤ max
  product-le v d pos h = grind (arith, (div-lt_iff_lt-mul {x = max} {y = v} pos).1)

  -- The sum is reduced nowhere, and fits again.
  accumulate_wrapped-accumulate :
      (d v out : ℕ) → 0 < d → out ≤ max → accumulate_wrapped d v out ≡ accumulate max d v out
  unfolding accumulate
  accumulate_wrapped-accumulate d v out pos h = elim (Bool-cases (ltb (max / d) v)) [
    | inl large ↦ rw large refl
    | inr small ↦
        let fits = product-le v d pos (ground arith) in
        let same = wrap-le (v * d) fits in
        rw (small, same)
          (elim (Bool-cases (ltb (max - v * d) out)) [
            | inl over ↦ rw over refl
            | inr under ↦ rw under (ap some (wrap-le (out + v * d) (ground arith)))
          ])
  ]

  accumulate-le : (d v out n : ℕ) → 0 < d → out ≤ max → accumulate max d v out ≡ some n → n ≤ max
  unfolding accumulate
  accumulate-le d v out n pos h e = ground (arith, product-le v d pos)

  abbrev Bounded : Result × ℕ → Result × ℕ → Type 0
  Bounded narrow wide = (narrow ≡ wide) × (wide.1 ≤ max)

  module _ (digit_value : ℕ → Option ℕ) (base : ℕ) (base_pos : 0 < base) where
    -- No digit's weight and no sum leaves the range.
    loop_wrapped-loop :
        (cs : Bytes) (d out : ℕ)
        → 0 < d
        → d ≤ max
        → out ≤ max
        → Bounded (loop_wrapped digit_value base cs d out) (loop digit_value base max cs d out)
    unfolding loop
    loop_wrapped-loop [] d out pos hd ho = (refl, ho)
    loop_wrapped-loop (c ∷ []) d out pos hd ho = elim (Option-cases (digit_value c)) [
      | inl bad ↦ rw (bad, loop_wrapped, loop) (refl, ho)
      | inr (v, read) ↦
          rw (read, accumulate_wrapped-accumulate d v out pos ho, loop_wrapped, loop)
            (elim (Option-cases (accumulate max d v out)) [
              | inl over ↦ rw over (refl, ho)
              | inr (n, sum) ↦ rw sum (refl, accumulate-le d v out n pos ho sum)
            ])
    ]
    loop_wrapped-loop (c ∷ (b ∷ cs)) d out pos hd ho = elim (Option-cases (digit_value c)) [
      | inl bad ↦ rw (bad, loop_wrapped, loop) (refl, ho)
      | inr (v, read) ↦
          rw (read, accumulate_wrapped-accumulate d v out pos ho, loop_wrapped, loop)
            (elim (Option-cases (accumulate max d v out)) [
              | inl over ↦ rw over (refl, ho)
              | inr (n, sum) ↦ rw sum (elim (Bool-cases (ltb (max / base) d)) [
                | inl heavy ↦ rw heavy (refl, accumulate-le d v out n pos ho sum)
                | inr light ↦
                    let fits = product-le d base base_pos (ground arith) in
                    let hn = accumulate-le d v out n pos ho sum in
                    rw light (
                      subst
                        (λ w.
                          Bounded (loop_wrapped digit_value base (b ∷ cs) w n)
                            (loop digit_value base max (b ∷ cs) (d * base) n))
                        (sym (wrap-le (d * base) fits))
                        (loop_wrapped-loop (b ∷ cs) (d * base) n (product_pos d base pos base_pos)
                          fits hn))
              ])
            ])
    ]

    decode_wrapped-decode :
        (c : ℕ) (cs : Bytes)
        → 0 < max
        → Bounded
            (decode_wrapped digit_value base (c ∷ cs) 0)
            (decode_nonempty digit_value base max (c ∷ cs))
    unfolding decode_nonempty
    decode_wrapped-decode c cs h = rw (wrap-le 1 (omega arith)) (
        loop_wrapped-loop (reverse (remove_zeros (c ∷ cs))) 1 0 (omega arith) (omega arith)
          (omega arith))

-- For every positive largest value `max` of the target: the decoders, with each sum and product
-- reduced modulo `max + 1`, give the same result, so that no operation of theirs wraps around; and
-- they leave a value of at most `max`, whatever the result is, when the old one was so.
pub decode-fits :
    (max : ℕ) (input : Bytes) (out : ℕ)
    → 0 < max
    → out ≤ max
    → (decode_wrapped max decimal_value 10 input out ≡ decode_content_length max input out)
      × ((decode_content_length max input out).1 ≤ max)
      × (decode_wrapped max hex_value 16 input out ≡ decode_chunk_size max input out)
      × ((decode_chunk_size max input out).1 ≤ max)
unfolding decode_content_length decode_chunk_size
decode-fits max [] out pos h = (refl, h, refl, h)
decode-fits max (c ∷ cs) out pos h =
    let dec = decode_wrapped-decode max decimal_value 10 (omega arith) c cs pos in
    let hex = decode_wrapped-decode max hex_value 16 (omega arith) c cs pos in
    (dec.0, dec.1, hex.0, hex.1)
