-- ===== src/Header/AnyOf.antt =====
-- `header_value_any_of`. An iterator is the list of the bytes from it to the end of the view; the
-- predicate may keep a state, as `decode_transfer_encoding_p` does through its references.
use mathlib.Core.List.{reverse}
use boost_http.Base.{
  ℕ, zero, suc, ◌-◌, Bool, true, false, not, ◌||◌, Option, none, some, [], ◌∷◌, ◌==◌, length, take,
  drop, span, if◌then◌else◌, Bytes,
}
use boost_http.Header.{Boost}

unfoldable pub isspace : ℕ → Bool
isspace c = c == b' ' || c == 0x09

-- The body of the `if (value_begin != next_comma)` and its test: what the predicate makes of the
-- bytes between two commas, if it is called.
unfoldable pub visit {ℓ} : {S : Type ℓ} → Boost → (S → Bytes → S × Bool) → S → Bytes → S × Bool
unfolding isspace
visit b p s segment =
    let value_begin = b.find_if_not isspace segment in
    let behind = b.find_if_not isspace (reverse (drop value_begin segment)) in
    let value_end = length segment - behind in
    if value_begin == length segment
    then (s, false)
    else if value_begin == value_end
    then (s, false)
    else p s (take (value_end - value_begin) (drop value_begin segment))

-- `++comma` unless it is the end.
unfoldable pub skip_comma : Bytes → Bytes
skip_comma [] = []
skip_comma (c ∷ cs) = cs

-- The end of a round: `return true`, the test `comma != header_value.end()`, or the next round.
unfoldable pub turn {ℓ} :
    {S : Type ℓ} → (S → Bytes → Option (S × Bool)) → S × Bool → Bytes → Option (S × Bool)
turn again (s, true) comma = some (s, true)
turn again (s, false) [] = some (s, false)
turn again (s, false) (c ∷ cs) = again s (c ∷ cs)

-- The `do … while (comma != header_value.end())` loop, on fuel.
unfoldable pub any_of_loop {ℓ} :
    {S : Type ℓ} → Boost → (S → Bytes → S × Bool) → ℕ → S → Bytes → Option (S × Bool)
any_of_loop b p zero s comma = none
any_of_loop b p (suc fuel) s comma =
    let found = span (λ c. not (c == b',')) comma in
    turn (any_of_loop b p fuel) (visit b p s (take found comma)) (skip_comma (drop found comma))

unfoldable pub header_value_any_of {ℓ} :
    {S : Type ℓ} → Boost → (S → Bytes → S × Bool) → S → Bytes → Option (S × Bool)
unfolding any_of_loop visit skip_comma turn span
header_value_any_of b p s header_value = any_of_loop b p (suc (length header_value)) s header_value
