-- ===== src/FieldValue.antt =====
-- `decode_field_value` of include/boost/http/reader/detail/common.hpp.
pub mod Trimmed
use mathlib.Core.List.{reverse}
use boost_http.Base.{◌-◌, Option, none, some, [], ◌∷◌, length, take, span, Bytes}
use boost_http.Abnf.{is_ows}

-- The loop looks at the bytes from the last down to the second. On an empty view `in.size() - 1`
-- is the largest `size_t`, and the first round reads out of bounds.
unfoldable pub decode_field_value : Bytes → Option Bytes
unfolding is_ows span
decode_field_value [] = none
decode_field_value (c ∷ cs) =
    let ending_ows = span is_ows (reverse cs) in some (take (length (c ∷ cs) - ending_ows) (c ∷ cs))
