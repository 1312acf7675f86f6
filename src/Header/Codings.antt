-- ===== src/Header/Codings.antt =====
-- What `decode_transfer_encoding` decides about a list of transfer codings.
use boost_http.Base.{
  ℕ, ◌+◌, ◌&&◌, Bool, false, List, [], ◌∷◌, ◌==◌, if◌then◌else◌, Bytes, ◌≡◌, refl, arith, some,
  Bool-cases, inl, inr, ◌∙◌,
}
use boost_http.Header.{Boost, IsBoost}
use boost_http.Header.Elements.{elements, any_fold, header_value_any_of-any_fold}
use boost_http.Header.TransferEncoding.{
  DecodeTransferEncodingResult, chunked_not_found, chunked_at_end, chunked_invalid, CodingState,
  initial, chunked, see_coding, decode_transfer_encoding,
}

module _ (b : Boost) where
  abbrev pub count_chunked : List Bytes → ℕ
  count_chunked [] = 0
  count_chunked (x ∷ xs) = (if b.iequals x chunked then 1 else 0) + count_chunked xs

  abbrev pub last_chunked : List Bytes → Bool
  last_chunked [] = false
  last_chunked (x ∷ []) = b.iequals x chunked
  last_chunked (x ∷ y ∷ ys) = last_chunked (y ∷ ys)

  -- RFC 7230, 3.3.1: `chunked` is applied once, and last.
  abbrev pub verdict : List Bytes → DecodeTransferEncodingResult
  verdict xs =
      if count_chunked xs == 0
      then chunked_not_found
      else if count_chunked xs == 1 && last_chunked xs
      then chunked_at_end
      else chunked_invalid

  abbrev once : CodingState
  once = record { count = 1; res = chunked_at_end }

  any_fold-once :
      (x : Bytes) (xs : List Bytes)
      → (any_fold (see_coding b) once (x ∷ xs)).0.res ≡ chunked_invalid
  unfolding any_fold see_coding
  any_fold-once x xs = ground arith

  last_chunked_none :
      (x : Bytes) (xs : List Bytes) → count_chunked (x ∷ xs) ≡ 0 → last_chunked (x ∷ xs) ≡ false
  last_chunked_none x [] h = ground arith
  last_chunked_none x (y ∷ ys) h = last_chunked_none y ys (omega arith)

  any_fold-other :
      (x : Bytes) (xs : List Bytes)
      → b.iequals x chunked ≡ false
      → any_fold (see_coding b) initial (x ∷ xs) ≡ any_fold (see_coding b) initial xs
  unfolding any_fold see_coding
  any_fold-other x xs e = ground arith

  any_fold-verdict : (xs : List Bytes) → (any_fold (see_coding b) initial xs).0.res ≡ verdict xs
  unfolding any_fold see_coding
  any_fold-verdict [] = refl
  any_fold-verdict (x ∷ []) = ground arith
  any_fold-verdict (x ∷ y ∷ ys) = elim (Bool-cases (b.iequals x chunked)) [
    | inl e ↦ rw e (ground (arith, any_fold-once y ys, last_chunked_none y ys))
    | inr e ↦ rw (any_fold-other x (y ∷ ys) e) (
        any_fold-verdict (y ∷ ys)
        ∙ let same : count_chunked (x ∷ y ∷ ys) ≡ count_chunked (y ∷ ys) = ground arith in rw same)
  ]

  -- For every field value, the verdict is chunked_not_found when no element of the list of
  -- codings is `chunked`, chunked_at_end when exactly one is and it is the last, and
  -- chunked_invalid otherwise.
  pub decode_transfer_encoding-verdict :
      IsBoost b
      → (field : Bytes) → decode_transfer_encoding b field ≡ some (verdict (elements field))
  unfolding decode_transfer_encoding
  decode_transfer_encoding-verdict laws field =
      rw (header_value_any_of-any_fold b laws (see_coding b) initial field)
        (rw (any_fold-verdict (elements field)))
