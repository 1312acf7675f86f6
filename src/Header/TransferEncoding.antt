-- ===== src/Header/TransferEncoding.antt =====
-- include/boost/http/reader/detail/transfer_encoding.hpp.
use boost_http.Base.{
  ℕ, ◌+◌, Bool, true, false, not, Option, some, [], ◌∷◌, ◌==◌, if◌then◌else◌, ◌>>=◌, Bytes,
}
use boost_http.Header.{Boost}
use boost_http.Header.AnyOf.{header_value_any_of}

pub data DecodeTransferEncodingResult : Type 0 where
  chunked_not_found chunked_at_end chunked_invalid : DecodeTransferEncodingResult

-- `decode_transfer_encoding_p::state`, which the predicate changes through references.
pub record CodingState : Type 0 where
  pub count : ℕ
  pub res : DecodeTransferEncodingResult

abbrev pub initial : CodingState
initial = record { count = 0; res = chunked_not_found }

abbrev pub chunked : Bytes
chunked = b'c' ∷ b'h' ∷ b'u' ∷ b'n' ∷ b'k' ∷ b'e' ∷ b'd' ∷ []

-- `decode_transfer_encoding_p::operator()`; true is STOP_ITER.
unfoldable pub see_coding : Boost → CodingState → Bytes → CodingState × Bool
see_coding b s v =
    let seen = s.count + 1 in
    if not (b.iequals v chunked)
    then (if s.count == 1 then (record s { res = chunked_invalid }, true) else (s, false))
    else if seen == 2
    then (record s { count = seen; res = chunked_invalid }, true)
    else (record s { count = seen; res = chunked_at_end }, false)

unfoldable pub decode_transfer_encoding : Boost → Bytes → Option DecodeTransferEncodingResult
unfolding header_value_any_of see_coding
decode_transfer_encoding b field = do
  (s, _) ← header_value_any_of b (see_coding b) initial field
  some s.res
