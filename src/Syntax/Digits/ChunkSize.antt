-- ===== src/Syntax/Digits/ChunkSize.antt =====
-- `chunk_size::decode` of include/boost/http/syntax/chunk_size.ipp.
use Prim.Native.Nat.{bit_or}
use mathlib.Core.Path.{fun_ext, subst}
use boost_http.Base.{
  ℕ, zero, suc, ◌+◌, ◌-◌, ◌<◌, Option, none, some, [], ◌≡◌, ◌≢◌, refl, sym, ◌∷◌, ◌&&◌, leb,
  if◌then◌else◌, Bytes, arith,
}
use boost_http.Syntax.Digits.{invalid, decode_nonempty, decode_chunk_size, hex_value}
use boost_http.Syntax.Digits.Numeral.{number, IsDigitTable}
use boost_http.Syntax.Digits.Decode.{Decodes, decode_nonempty-Decodes}

-- HEXDIG of RFC 5234, in either case.
abbrev pub hex_digit : ℕ → Option ℕ
hex_digit c =
    if leb 48 c && leb c 57
    then some (c - 48)
    else if leb 65 c && leb c 70
    then some (c - 55)
    else if leb 97 c && leb c 102
    then some (c - 87)
    else none

hex_digit-IsDigitTable : IsDigitTable hex_digit
hex_digit-IsDigitTable = record { zero_digit = refl; pos_digit = λ c v e ne. ground arith }

-- The "lower case bit" takes both cases of a letter to the lower one.
bit_or_lower : (k : ℕ) → k < 6 → (bit_or (65 + k) 0x20 ≡ 97 + k) × (bit_or (97 + k) 0x20 ≡ 97 + k)
bit_or_lower zero h = (refl, refl)
bit_or_lower (suc zero) h = (refl, refl)
bit_or_lower (suc (suc zero)) h = (refl, refl)
bit_or_lower (suc (suc (suc zero))) h = (refl, refl)
bit_or_lower (suc (suc (suc (suc zero)))) h = (refl, refl)
bit_or_lower (suc (suc (suc (suc (suc zero))))) h = (refl, refl)
bit_or_lower (suc (suc (suc (suc (suc (suc k)))))) h = absurd (omega arith)

hex_value-hex_digit : (c : ℕ) → hex_value c ≡ hex_digit c
unfolding hex_value
hex_value-hex_digit c = ground (arith, bit_or_lower (c - 65), bit_or_lower (c - 97))

-- For every largest value `max` of the target: a nonempty view decodes to (ok, n) when it is
-- a hexadecimal numeral, in either case, of value n ≤ max, with overflow when its value is above
-- max, and never with ok when it holds another byte; the empty view is invalid and leaves the
-- target alone.
pub decode_chunk_size-Decodes :
    (max : ℕ) (input : Bytes) (out : ℕ)
    → (input ≢ [] → Decodes max (number hex_digit 16 input) (decode_chunk_size max input out))
      × (decode_chunk_size max [] out ≡ (invalid, out))
unfolding decode_chunk_size
decode_chunk_size-Decodes max input out = (go input, refl)
  where
    go :
        (xs : Bytes) → xs ≢ [] → Decodes max (number hex_digit 16 xs) (decode_chunk_size max xs out)
    go [] ne = absurd (ne refl)
    go (c ∷ cs) ne =
        subst
          (λ table.
            Decodes max (number hex_digit 16 (c ∷ cs)) (decode_nonempty table 16 max (c ∷ cs)))
          (sym (fun_ext hex_value-hex_digit))
          (decode_nonempty-Decodes hex_digit 16 max (omega arith) hex_digit-IsDigitTable (c ∷ cs))
