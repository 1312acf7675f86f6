-- ===== src/Reader/Request/Safety/Scans.antt =====
-- The loops of the cases, and the cases of a word and of the value of a field.
use boost_http.Base.{
  take, ℕ, zero, suc, ◌+◌, ◌≤◌, Bool, false, Option, none, some, [], ◌∷◌, length, ◌≡◌, ◌≢◌, refl,
  arith, scan, span, span-le, length-drop, drop, Bytes, le→leb,
}
use boost_http.Token.{Code}
use boost_http.Header.{Boost, IsBoost}
use boost_http.Header.Codings.{decode_transfer_encoding-verdict}
use boost_http.Reader.Request.State.{
  State, expect_static_str_after_target, expect_crlf_after_field_value, BodyType, reading_encoding,
  Request,
}
use boost_http.Reader.Request.StartLine.{expect_word, compare_static}
use boost_http.Reader.Request.Fields.{read_content_length, read_encoding, see_field_value}
use boost_http.Reader.Request.Safety.{awaits_value, Inv, Returns, Ready}

pub scan-some :
    (p : ℕ → Bool) (b : Bytes) (i : ℕ) → i ≤ length b → scan p b i ≡ some (i + span p (drop i b))
unfolding scan
scan-some p b i h = rw (le→leb i (length b) h)

abbrev pub IsBetween : ℕ → ℕ → ℕ → Option ℕ → Type 0
IsBetween lo m n none = Unit {0}
IsBetween lo m n (some j) = (lo ≤ j) × (j ≤ m) × (j ≤ n)

pub compare_static-IsBetween :
    (k : ℕ) (ss cs : Bytes) → IsBetween k (k + length ss) (k + length cs) (compare_static k ss cs)
unfolding compare_static
compare_static-IsBetween k [] cs = ground arith
compare_static-IsBetween k (s ∷ ss) [] = ground arith
compare_static-IsBetween k (s ∷ ss) (c ∷ cs) =
    ground (arith, compare_static-IsBetween (suc k) ss cs)

pub take-ne-nil : (n : ℕ) (xs : Bytes) → n ≢ 0 → n ≤ length xs → take n xs ≢ []
take-ne-nil zero xs ne h = absurd (ne refl)
take-ne-nil (suc n) [] ne h = absurd (omega arith)
take-ne-nil (suc n) (x ∷ xs) ne h = λ e. cc

pub see_field_value-Inv :
    (b : Boost)
    → IsBoost b
    → (t : BodyType) (field : Bytes) (r : Request) → r.idx + r.token_size ≤ length r.ibuffer
    → t ≡ r.body_type
    → r.state ≡ expect_crlf_after_field_value
    → r.code ≡ Code.field_value
    → Returns Inv (see_field_value b t field r)
unfolding see_field_value read_content_length read_encoding
see_field_value-Inv b laws reading_encoding field r fits e s c =
    rw (decode_transfer_encoding-verdict b laws field) (ground arith)
see_field_value-Inv b laws _ field r fits e s c = ground arith

pub expect_word-Inv :
    (p : ℕ → Bool) (s : State) (c : Code) (r : Request)
    → Ready r
    → awaits_value r.state ≡ false
    → (r.state ≡ expect_static_str_after_target → ⊥)
    → (c ≡ Code.error_insufficient_data → ⊥)
    → Returns Inv (expect_word p s c r)
unfolding expect_word
expect_word-Inv p s c r h q n d =
    rw (scan-some p r.ibuffer (r.idx + r.token_size) h.inv.in_bounds) (
      ground (
        arith,
        span-le p (drop (r.idx + r.token_size) r.ibuffer),
        length-drop (r.idx + r.token_size) r.ibuffer,
      ))
