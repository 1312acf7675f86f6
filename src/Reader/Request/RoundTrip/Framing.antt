-- ===== src/Reader/Request/RoundTrip/Framing.antt =====
-- The fields that frame a body.
use boost_http.Base.{
  ℕ, ◌≤◌, Bool, true, false, Option, some, [], ◌∷◌, ◌≡◌, ◌≢◌, refl, ap, ◌∙◌, map, length, All,
  EndsOff, EndsOff-cons, Bytes, arith, Bool-cases, inl, inr,
}
use boost_http.Token.{Code}
use boost_http.Abnf.{is_ows}
use boost_http.Syntax.Chars
use boost_http.Syntax.Digits.{ok, decode_content_length}
use boost_http.Syntax.Digits.Numeral.{number}
use boost_http.Syntax.Digits.ContentLength.{decimal_digit, decode_content_length-Decodes}
use boost_http.Header.{Boost, IsBoost, to_lower}
use boost_http.Header.TransferEncoding.{chunked_at_end}
use boost_http.Header.Elements.{elements}
use boost_http.Header.Codings.{verdict, decode_transfer_encoding-verdict}
use boost_http.Reader.Request.State.{State, BodyType, emit}
use boost_http.Reader.Request.Value.{value_field_name}
use boost_http.Reader.Request.Fields.{
  body_size_max, host, transfer_encoding, content_length, see_transfer_encoding, see_content_length,
  see_field_name, see_field_value, read_content_length, read_encoding,
}
use boost_http.Reader.Request.RoundTrip.{length_field, chunked_field}
use boost_http.Reader.Request.RoundTrip.Cursor.{Frame, ahead_view}
use boost_http.Reader.Request.RoundTrip.Fields.{IsField}
use boost_http.Reader.Request.RoundTrip.Chain.{SeesName, SeesValue}

-- Digits of a class, and the number they denote.
pub record IsNumeral (p : ℕ → Bool) (digit : ℕ → Option ℕ) (base : ℕ) (digits : Bytes) (n : ℕ)
    : Type 0 where
  pub first : ℕ
  pub others : Bytes
  pub splits : digits ≡ first ∷ others
  pub all : All p digits
  pub denotes : number digit base digits ≡ some n
  pub fits : n ≤ body_size_max

abbrev pub IsDecimal : Bytes → ℕ → Type 0
IsDecimal = IsNumeral Chars.is_digit decimal_digit 10

pub numeral_filled :
    (p : ℕ → Bool) (digit : ℕ → Option ℕ) (base : ℕ) (digits : Bytes) (n : ℕ)
    → IsNumeral p digit base digits n
    → digits ≢ []
numeral_filled p digit base digits n d e = let s = d.splits in cc

All-mono :
    (p q : ℕ → Bool) → ((c : ℕ) → p c ≡ true → q c ≡ true) → (cs : Bytes) → All p cs → All q cs
All-mono p q imp [] h = tt
All-mono p q imp (c ∷ cs) (h, hs) = (imp c h, All-mono p q imp cs hs)

All-EndsOff :
    (p q : ℕ → Bool)
    → ((c : ℕ) → p c ≡ true → q c ≡ false)
    → (c : ℕ) (cs : Bytes) → All p (c ∷ cs)
    → EndsOff q (c ∷ cs)
All-EndsOff p q off c [] (h, _) = record { before = []; last = c; splits = refl; off = off c h }
All-EndsOff p q off c (d ∷ ds) (_, hs) = EndsOff-cons q c (All-EndsOff p q off d ds hs)

digit_off : (c : ℕ) → Chars.is_digit c ≡ true → is_ows c ≡ false
unfolding Chars.is_digit is_ows
digit_off c h = ground arith

digit_char : (c : ℕ) → Chars.is_digit c ≡ true → Chars.is_field_value_char c ≡ true
unfolding Chars.is_digit Chars.is_field_value_char
digit_char c h = ground arith

pub length_field-IsField :
    (digits : Bytes) (n : ℕ) → IsDecimal digits n → IsField (length_field digits)
unfolding Chars.is_tchar
length_field-IsField digits n d =
    let all : All Chars.is_digit (d.first ∷ d.others) = rw d.splits at d.all in
    record {
      named = omega arith;
      name_chars = (
        refl,
        (
          refl,
          (
            refl,
            (
              refl,
              (refl, (refl, (refl, (refl, (refl, (refl, (refl, (refl, (refl, (refl, tt)))))))))),
            ),
          ),
        ),
      );
      first = d.first;
      others = d.others;
      value_splits = d.splits;
      starts_off = digit_off d.first all.0;
      ends_off = rw d.splits (All-EndsOff Chars.is_digit is_ows digit_off d.first d.others all);
      value_chars = All-mono Chars.is_digit Chars.is_field_value_char digit_char digits d.all;
    }

pub chunked_field-IsField : IsField chunked_field
unfolding Chars.is_tchar Chars.is_field_value_char is_ows
chunked_field-IsField = record {
  named = omega arith;
  name_chars = (
    refl,
    (
      refl,
      (
        refl,
        (
          refl,
          (
            refl,
            (
              refl,
              (
                refl,
                (refl, (refl, (refl, (refl, (refl, (refl, (refl, (refl, (refl, (refl, tt)))))))))),
              ),
            ),
          ),
        ),
      ),
    ),
  );
  first = b'c';
  others = b'h' ∷ b'u' ∷ b'n' ∷ b'k' ∷ b'e' ∷ b'd' ∷ [];
  value_splits = refl;
  starts_off = refl;
  ends_off = record {
    before = b'c' ∷ b'h' ∷ b'u' ∷ b'n' ∷ b'k' ∷ b'e' ∷ [];
    last = b'd';
    splits = refl;
    off = refl;
  };
  value_chars = (refl, (refl, (refl, (refl, (refl, (refl, (refl, tt)))))));
}

module _ (b : Boost) (laws : IsBoost b) where
  iequals_same : (v : Bytes) → b.iequals v v ≡ true
  iequals_same v = (laws.iequals_iff v v).1 refl

  iequals_other : (v w : Bytes) → map to_lower v ≢ map to_lower w → b.iequals v w ≡ false
  iequals_other v w ne = elim (Bool-cases (b.iequals v w)) [
    | inl e ↦ absurd (ne ((laws.iequals_iff v w).0 e))
    | inr e ↦ e
  ]

  length_not_host : b.iequals content_length host ≡ false
  length_not_host = iequals_other content_length host (λ e. let s = ap length e in omega arith)

  length_not_encoding : b.iequals content_length transfer_encoding ≡ false
  length_not_encoding =
      iequals_other content_length transfer_encoding (λ e. let s = ap length e in omega arith)

  encoding_not_host : b.iequals transfer_encoding host ≡ false
  encoding_not_host = iequals_other transfer_encoding host (λ e. let s = ap length e in omega arith)

  pub length_SeesName :
      (digits : Bytes) (v : Frame)
      → v.body_type ≡ BodyType.no_body
      → SeesName b
          (length_field digits)
          v
          (record v { body_type = BodyType.reading_content_length })
  unfolding see_field_name see_content_length value_field_name
  length_SeesName digits v bodiless rest r h = rw (ahead_view content_length rest r h) (
      rw (length_not_host, length_not_encoding, iequals_same content_length)
        (ap (λ t. see_content_length t (emit State.expect_colon Code.field_name 14 r))
            (h.at_type ∙ bodiless)
          ∙ rw (← h.at_version, ← h.at_size) refl))

  pub chunked_SeesName :
      (v : Frame)
      → v.body_type ≡ BodyType.no_body
      → SeesName b chunked_field v (record v { body_type = BodyType.reading_encoding })
  unfolding see_field_name see_transfer_encoding value_field_name
  chunked_SeesName v bodiless rest r h = rw (ahead_view transfer_encoding rest r h) (
      rw (encoding_not_host, iequals_same transfer_encoding)
        (ap (λ t. see_transfer_encoding t (emit State.expect_colon Code.field_name 17 r))
            (h.at_type ∙ bodiless)
          ∙ rw (← h.at_version, ← h.at_size) refl))

  chunked_verdict : verdict b (elements chunked_field.value) ≡ chunked_at_end
  unfolding elements
  chunked_verdict = rw (iequals_same chunked_field.value) refl

  pub chunked_SeesValue :
      (v : Frame)
      → v.body_type ≡ BodyType.reading_encoding
      → SeesValue b chunked_field v (record v { body_type = BodyType.chunked_encoding_read })
  unfolding see_field_value read_encoding
  chunked_SeesValue v reading rest r h =
      let value =
        decode_transfer_encoding-verdict b laws chunked_field.value ∙ ap some chunked_verdict in
      ap
        (λ t.
          see_field_value b t chunked_field.value
            (emit State.expect_crlf_after_field_value Code.field_value 7 r))
        (h.at_type ∙ reading)
      ∙ rw value (rw (← h.at_version, ← h.at_size) refl)

-- What the digits decode to.
decodes_decimal :
    (digits : Bytes) (n out : ℕ)
    → IsDecimal digits n
    → decode_content_length body_size_max digits out ≡ (ok, n)
decodes_decimal digits n out d =
    let decoded =
      (decode_content_length-Decodes body_size_max digits out).0
        (numeral_filled Chars.is_digit decimal_digit 10 digits n d) in
    (rw d.denotes at decoded).0 d.fits

pub length_SeesValue :
    (b : Boost) (digits : Bytes) (n : ℕ) (v : Frame)
    → IsDecimal digits n
    → v.body_type ≡ BodyType.reading_content_length
    → SeesValue b
        (length_field digits)
        v
        (record v { body_type = BodyType.content_length_read; body_size = n })
unfolding see_field_value read_content_length
length_SeesValue b digits n v d reading rest r h =
    ap
      (λ t.
        see_field_value b t digits
          (emit State.expect_crlf_after_field_value Code.field_value (length digits) r))
      (h.at_type ∙ reading)
    ∙ rw (decodes_decimal digits n r.body_size d) (rw (← h.at_version) refl)
