-- ===== src/Syntax/Digits.antt =====
-- `content_length::decode` (content_length.ipp) and `chunk_size::decode` (chunk_size.ipp). The
-- two differ in the base and in the value of a byte, and share the loop.
pub mod Numeral
mod Loop
pub mod Decode
pub mod Width
pub mod ContentLength
pub mod ChunkSize
use Prim.Native.Nat.{bit_or}
use mathlib.Core.List.{reverse}
use boost_http.Base.{
  true, false, ℕ, ◌+◌, ◌-◌, ◌*◌, ◌/◌, ◌||◌, Option, none, some, [], ◌∷◌, leb, ltb, ◌==◌,
  if◌then◌else◌, ◌&&◌, Bytes,
}

pub data Result : Type 0 where
  invalid ok overflow : Result

-- `while (in.size() && in[0] == '0') in.remove_prefix(1)`.
unfoldable pub remove_zeros : Bytes → Bytes
remove_zeros [] = []
remove_zeros (c ∷ cs) = let rest = remove_zeros cs in if c == b'0' then rest else c ∷ cs

-- The two tests before `out += value`, which keep every value at most `max`, that is
-- `std::numeric_limits<Target>::max()`. None is an overflow.
unfoldable pub accumulate : ℕ → ℕ → ℕ → ℕ → Option ℕ
accumulate max digit value out =
    if ltb (max / digit) value
    then none
    else if ltb (max - value * digit) out
    then none
    else some (out + value * digit)

-- The `for` loop with no test, from the last byte to the first: the list is the bytes from `in[i]`
-- down to `in[0]`.
unfoldable pub loop : (ℕ → Option ℕ) → ℕ → ℕ → Bytes → ℕ → ℕ → Result × ℕ
loop digit_value base max [] digit out = (ok, out)
loop digit_value base max (c ∷ cs) digit out = elim (digit_value c) [
  | none ↦ (invalid, out)
  | some value ↦ elim (accumulate max digit value out) [
    | none ↦ (overflow, out)
    | some out' ↦ elim cs [
      | [] ↦ (ok, out')
      | _ ∷ _ ↦ elim (ltb (max / base) digit) [
        | true ↦ (overflow, out')
        | false ↦ loop digit_value base max cs (digit * base) out'
      ]
    ]
  ]
]

-- The body behind the test for an empty view, where `out` has been set to 0.
unfoldable pub decode_nonempty : (ℕ → Option ℕ) → ℕ → ℕ → Bytes → Result × ℕ
unfolding remove_zeros loop accumulate
decode_nonempty digit_value base max input =
    loop digit_value base max (reverse (remove_zeros input)) 1 0

decode : (ℕ → Option ℕ) → ℕ → ℕ → Bytes → ℕ → Result × ℕ
unfolding decode_nonempty
decode digit_value base max [] out = (invalid, out)
decode digit_value base max (c ∷ cs) out = decode_nonempty digit_value base max (c ∷ cs)

unfoldable pub decimal_value : ℕ → Option ℕ
decimal_value c = if leb b'0' c && leb c b'9' then some (c - b'0') else none

unfoldable pub hex_value : ℕ → Option ℕ
hex_value c =
    if leb b'0' c && leb c b'9'
    then some (c - b'0')
    else if (leb b'a' c && leb c b'f') || (leb b'A' c && leb c b'F')
    then some (10 + bit_or c 0x20 - b'a')
    else none

-- `content_length::decode`: the result, and the new value of `out`.
unfoldable pub decode_content_length : ℕ → Bytes → ℕ → Result × ℕ
unfolding decode decimal_value
decode_content_length max = decode decimal_value 10 max

-- `chunk_size::decode`.
unfoldable pub decode_chunk_size : ℕ → Bytes → ℕ → Result × ℕ
unfolding decode hex_value
decode_chunk_size max = decode hex_value 16 max
