-- ===== src/Header.antt =====
-- include/boost/http/algorithm/header/header_value_any_of.hpp and
-- include/boost/http/reader/detail/transfer_encoding.hpp, and what they use of the Boost
-- libraries, which is a parameter.
pub mod AnyOf
pub mod TransferEncoding
pub mod Elements
pub mod Codings
use boost_http.Base.{
  ℕ, suc, Bool, true, false, [], ◌∷◌, ◌≡◌, ◌↔◌, map, ◌+◌, ◌&&◌, leb, if◌then◌else◌, Bytes,
}

-- What the readers call of Boost: `boost::algorithm::iequals`, and `find_if_not` as the offset
-- of the iterator that it returns.
pub record Boost : Type 0 where
  pub iequals : Bytes → Bytes → Bool
  pub find_if_not : (ℕ → Bool) → Bytes → ℕ

-- The lower case of a byte in the "C" locale.
abbrev pub to_lower : ℕ → ℕ
to_lower c = if leb b'A' c && leb c b'Z' then c + 32 else c

-- What their documentation promises: `find_if_not` returns the first element that fails the
-- test, or the end, and `iequals` compares without regard to case.
pub record IsBoost (b : Boost) : Type 0 where
  pub find_end : (p : ℕ → Bool) → b.find_if_not p [] ≡ 0
  pub find_here : (p : ℕ → Bool) (c : ℕ) (cs : Bytes) → p c ≡ false → b.find_if_not p (c ∷ cs) ≡ 0
  pub find_next :
      (p : ℕ → Bool) (c : ℕ) (cs : Bytes)
      → p c ≡ true
      → b.find_if_not p (c ∷ cs) ≡ suc (b.find_if_not p cs)
  pub iequals_iff : (v w : Bytes) → (b.iequals v w ≡ true) ↔ (map to_lower v ≡ map to_lower w)
