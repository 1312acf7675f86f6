-- ===== src/FieldValue/Trimmed.antt =====
-- What `decode_field_value` takes off.
use mathlib.Core.List.{reverse}
use boost_http.Base.{
  ℕ, suc, ◌-◌, none, some, [], ◌∷◌, ◌++◌, ◌≡◌, ◌≢◌, ◌⊎◌, inl, inr, refl, ap, ◌∙◌, length, take,
  span, Bytes, All, EndsOff, EndsOff-cons, trim_right, take-trim_right, trim_right_splits, arith,
  span-le, length-reverse,
}
use boost_http.Abnf.{is_ows}
use boost_http.FieldValue.{decode_field_value}

-- `value` is `raw` less trailing white space, all of it but for a first byte of `raw`.
pub record IsTrimmed (raw value : Bytes) : Type 0 where
  pub rest : Bytes
  pub splits : raw ≡ value ++ rest
  pub blank : All is_ows rest
  pub tight : (length value ≡ 1) ⊎ EndsOff is_ows value

take_longer : (k n c : ℕ) (cs : Bytes) → n ≡ suc k → take n (c ∷ cs) ≡ c ∷ take k cs
take_longer k n c cs e = rw e

decode_field_value-trim_right :
    (c : ℕ) (cs : Bytes) → decode_field_value (c ∷ cs) ≡ some (c ∷ trim_right is_ows cs)
unfolding decode_field_value
decode_field_value-trim_right c cs =
    let behind = span is_ows (reverse cs) in
    let size : length (c ∷ cs) - behind ≡ suc (length cs - behind) =
      omega (arith, span-le is_ows (reverse cs), length-reverse cs) in
    ap some (take_longer (length cs - behind) _ c cs size ∙ ap (◌∷◌ c) (take-trim_right is_ows cs))

-- On every nonempty view the function returns the view less its trailing white space, and keeps
-- the first byte whatever it is; on the empty view it reads out of bounds.
pub decode_field_value-IsTrimmed :
    (raw : Bytes)
    → (raw ≢ [] → (value : Bytes) × (decode_field_value raw ≡ some value) × IsTrimmed raw value)
      × (decode_field_value [] ≡ none)
unfolding decode_field_value
decode_field_value-IsTrimmed raw = (go raw, refl)
  where
    go :
        (xs : Bytes)
        → xs ≢ []
        → (value : Bytes) × (decode_field_value xs ≡ some value) × IsTrimmed xs value
    go [] ne = absurd (ne refl)
    go (c ∷ cs) ne =
        let (rest, e, blank, ends) = trim_right_splits is_ows cs in
        let first : (trim_right is_ows cs ≡ []) ⊎ EndsOff is_ows (trim_right is_ows cs)
            → (length (c ∷ trim_right is_ows cs) ≡ 1) ⊎ EndsOff is_ows (c ∷ trim_right is_ows cs) =
          elim [
            | inl none_left ↦ inl (ap (λ (t : Bytes). suc (length t)) none_left)
            | inr off ↦ inr (EndsOff-cons is_ows c off)
          ] in
        (
          c ∷ trim_right is_ows cs,
          decode_field_value-trim_right c cs,
          record { rest = rest; splits = ap (◌∷◌ c) e; blank = blank; tight = first ends },
        )
