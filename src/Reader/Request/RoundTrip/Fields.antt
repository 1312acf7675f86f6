-- ===== src/Reader/Request/RoundTrip/Fields.antt =====
-- The tokens of a printed header field.
use mathlib.Core.List.{reverse, reverse-append}
use boost_http.Base.{
  ℕ, suc, ◌+◌, ◌-◌, ◌<◌, leb, Bool, true, false, Option, some, List, [], ◌∷◌, ◌++◌, ◌≡◌, refl, ap,
  sym, ◌∙◌, length, take, drop, scan, span, span_run, All, EndsOff, Bytes, arith, length-append,
  ◌==◌, if◌then◌else◌, Bool-cases, inl, inr,
}
use boost_http.Token.{Code}
use boost_http.Abnf.{is_ows}
use boost_http.Syntax.Chars
use boost_http.Syntax.Match.{match_field_name, match_field_value}
use boost_http.Syntax.Crlf.{match_liberal}
use boost_http.FieldValue.{decode_field_value}
use boost_http.Header.{Boost}
use boost_http.Reader.Request.State.{State, Version, Request, emit}
use boost_http.Reader.Request.Value.{value_field_name, value_field_value}
use boost_http.Reader.Request.StartLine.{end_line, on_crlf_after_version}
use boost_http.Reader.Request.Fields.{
  host, transfer_encoding, content_length, see_host, see_field_name, on_field_name,
  expect_separator, on_colon, see_field_value, on_field_value, on_crlf_after_field_value,
}
use boost_http.Reader.Request.Next.{consume, dispatch, next_fuel}
use boost_http.Reader.Request.Delivery
use boost_http.Reader.Request.Resume.Pieces.{drop-drop}
use boost_http.Reader.Request.RoundTrip.{Field, Item, print_line_end, count_hosts}
use boost_http.Reader.Request.RoundTrip.Cursor.{
  Frame, stamp, Stands, Reads, At, ahead_head, ahead_length, ahead_view, take-length, token_Reads,
}

-- A field that can be printed.
pub record IsField (f : Field) : Type 0 where
  pub named : 0 < length f.name
  pub name_chars : All Chars.is_tchar f.name
  pub first : ℕ
  pub others : Bytes
  pub value_splits : f.value ≡ first ∷ others
  pub starts_off : is_ows first ≡ false
  pub ends_off : EndsOff is_ows f.value
  pub value_chars : All Chars.is_field_value_char f.value

-- It does not frame the body.
pub record IsPlainField (b : Boost) (f : Field) : Type 0 where
  pub is_field : IsField f
  pub not_transfer_encoding : b.iequals f.name transfer_encoding ≡ false
  pub not_content_length : b.iequals f.name content_length ≡ false

-- How many Host fields a version still wants.
abbrev pub WantsHosts : Version → ℕ → Type 0
WantsHosts Version.http_1_0 n = Unit {0}
WantsHosts Version.not_http_1_0_and_host_not_read n = n ≡ 1
WantsHosts Version.not_http_1_0_and_host_read n = n ≡ 0

abbrev with_host : Version → Version
with_host Version.http_1_0 = Version.http_1_0
with_host _ = Version.not_http_1_0_and_host_read

abbrev after_name : Bool → Version → Version
after_name is_host v = if is_host then with_host v else v

-- The frame behind a field's name.
abbrev pub named_frame : Bool → Frame → Frame
named_frame is_host v = record v { version = after_name is_host v.version }

pub WantsHosts-cons :
    (b : Boost) (f : Field) (fs : List Field) (v : Version)
    → WantsHosts v (count_hosts b (f ∷ fs))
    → WantsHosts (after_name (b.iequals f.name host) v) (count_hosts b fs)
WantsHosts-cons b f fs Version.http_1_0 h = ground arith
WantsHosts-cons b f fs Version.not_http_1_0_and_host_not_read h = ground arith
WantsHosts-cons b f fs Version.not_http_1_0_and_host_read h = ground arith

see_host_run :
    (v : Version) (n : ℕ) (r : Request)
    → r.version ≡ v
    → WantsHosts v (suc n)
    → see_host v r ≡ some (record r { version = with_host v })
unfolding see_host
see_host_run Version.http_1_0 n r e wants = rw (← e) refl
see_host_run Version.not_http_1_0_and_host_not_read n r e wants = refl
see_host_run Version.not_http_1_0_and_host_read n r e wants = absurd (omega arith)

ends_off_stops :
    (c : ℕ) (cs before : Bytes) (last : ℕ)
    → c ∷ cs ≡ before ++ last ∷ []
    → is_ows last ≡ false
    → span is_ows (reverse cs) ≡ 0
unfolding span
ends_off_stops c cs [] last e off = let empty : cs ≡ [] = cc in rw empty refl
ends_off_stops c cs (x ∷ before) last e off =
    let tail : cs ≡ before ++ last ∷ [] = cc in rw tail (rw reverse-append (rw off refl))

pub decode_tight :
    (xs : Bytes) → 0 < length xs → EndsOff is_ows xs → decode_field_value xs ≡ some xs
unfolding decode_field_value
decode_tight [] filled h = absurd (omega arith)
decode_tight (c ∷ cs) filled h =
    let size : length (c ∷ cs) - 0 ≡ length (c ∷ cs) = omega arith in
    rw (ends_off_stops c cs h.before h.last h.splits h.off)
      (rw size (ap some (Delivery.take-length (c ∷ cs))))

pub see_name_run :
    (b : Boost) (f : Field) (fs : List Field) (v : Version) (r : Request)
    → IsPlainField b f
    → WantsHosts v (count_hosts b (f ∷ fs))
    → r.version ≡ v
    → value_field_name r ≡ some f.name
    → see_field_name b r ≡ some (record r { version = after_name (b.iequals f.name host) v })
unfolding see_field_name
see_name_run b f fs v r plain wants e name = rw name (elim (Bool-cases (b.iequals f.name host)) [
  | inl hosted ↦
      let wanted : WantsHosts v (suc (count_hosts b fs)) = rw hosted at wants in
      rw hosted (ap (λ w. see_host w r) e ∙ see_host_run v (count_hosts b fs) r e wanted)
  | inr other ↦ rw (other, plain.not_transfer_encoding, plain.not_content_length, ← e) refl
])

-- The name of a field, whatever is done about it.
name_run :
    (b : Boost) (f : Field) (v v' : Frame) (rest : Bytes) (next : Request → Option Request)
    (r : Request)
    → IsField f
    → Stands v (f.name ++ b':' ∷ rest) r
    → (see_field_name b (emit State.expect_colon Code.field_name (length f.name) r)
        ≡ some (stamp State.expect_colon Code.field_name v' (length f.name) r))
    → on_field_name b next r ≡ some (stamp State.expect_colon Code.field_name v' (length f.name) r)
unfolding on_field_name match_field_name Chars.is_tchar
name_run b f v v' rest next r field h seen =
    let run = span_run Chars.is_tchar f.name b':' rest field.name_chars refl in
    let filled = field.named in
    let some_byte : (length f.name == 0) ≡ false = ground arith in
    let more = length-append f.name (b':' ∷ rest) in
    let inside : (length f.name == length (f.name ++ b':' ∷ rest)) ≡ false = ground arith in
    rw h.ahead (rw run (rw (some_byte, inside) seen))

pub separator_run :
    (blank value : State) (v : Frame) (c : ℕ) (rest : Bytes) (r : Request)
    → is_ows c ≡ false
    → Stands v (b':' ∷ 0x20 ∷ c ∷ rest) r
    → expect_separator blank value r ≡ some (stamp value Code.skip v 2 r)
unfolding expect_separator scan span is_ows
separator_run blank value v c rest r off h =
    let colon = ahead_head r.ibuffer r.idx b':' (0x20 ∷ c ∷ rest) h.ahead in
    let fits = ahead_length r.ibuffer r.idx (b':' ∷ 0x20 ∷ c ∷ rest) h.ahead (omega arith) in
    let behind : drop (r.idx + 1) r.ibuffer ≡ 0x20 ∷ c ∷ rest =
      sym (drop-drop 1 r.idx r.ibuffer) ∙ ap (drop 1) h.ahead in
    let run : span is_ows (0x20 ∷ c ∷ rest) ≡ 1 = rw off refl in
    let within : leb (r.idx + 1) (length r.ibuffer) ≡ true = ground arith in
    let inside : (r.idx + 1 + 1 == length r.ibuffer) ≡ false = ground arith in
    let size : r.idx + 1 + 1 - r.idx ≡ 2 = omega arith in
    rw colon (
      rw (within, behind)
        (rw run (rw (inside, size, ← h.at_version, ← h.at_type, ← h.at_size) refl)))

-- The value of a field, whatever is done about it.
value_run :
    (b : Boost) (f : Field) (v v' : Frame) (rest : Bytes) (r : Request)
    → IsField f
    → Stands v (f.value ++ 0x0D ∷ rest) r
    → (see_field_value b r.body_type f.value
          (emit State.expect_crlf_after_field_value Code.field_value (length f.value) r)
        ≡ some (stamp State.expect_crlf_after_field_value Code.field_value v' (length f.value) r))
    → on_field_value b r
      ≡ some (stamp State.expect_crlf_after_field_value Code.field_value v' (length f.value) r)
unfolding on_field_value match_field_value value_field_value Chars.is_field_value_char
value_run b f v v' rest r field h seen =
    let run = span_run Chars.is_field_value_char f.value 0x0D rest field.value_chars refl in
    let more = length-append f.value (0x0D ∷ rest) in
    let inside : (length f.value == length (f.value ++ 0x0D ∷ rest)) ≡ false = ground arith in
    let filled : 0 < length f.value = rw field.value_splits (omega arith) in
    let value : decode_field_value (take (length f.value) (f.value ++ 0x0D ∷ rest)) ≡ some f.value =
      rw (take-length f.value (0x0D ∷ rest)) (decode_tight f.value filled field.ends_off) in
    rw h.ahead (rw run (rw (inside, value) seen))

module _ (b : Boost) (v : Frame) (f : Field) (rest : Bytes) (r : Request) (field : IsField f) where
  pub name_Reads :
      (v' : Frame)
      → At State.expect_field_name v (f.name ++ b':' ∷ rest) r
      → (see_field_name b (emit State.expect_colon Code.field_name (length f.name) (consume r))
          ≡ some (stamp State.expect_colon Code.field_name v' (length f.name) (consume r)))
      → Reads b r (Item.field_name f.name ∷ []) State.expect_colon v' (b':' ∷ rest)
  unfolding dispatch value_field_name
  name_Reads v' h seen =
      token_Reads b State.expect_field_name State.expect_colon Code.field_name v v' f.name
        (b':' ∷ rest) r (Item.field_name f.name ∷ []) refl refl h field.named
        (name_run b f v v' rest (next_fuel b 1) (consume r) field h.stands seen)
        (ap (λ w. some (Item.field_name w ∷ []))
          (ahead_view f.name (b':' ∷ rest) (consume r) h.stands))

  pub colon_Reads :
      At State.expect_colon v (b':' ∷ 0x20 ∷ (f.value ++ rest)) r
      → Reads b r [] State.expect_field_value v (f.value ++ rest)
  unfolding dispatch on_colon
  colon_Reads h =
      let split : f.value ++ rest ≡ field.first ∷ (field.others ++ rest) =
        ap (λ (t : Bytes). t ++ rest) field.value_splits in
      let stands : Stands v (b':' ∷ 0x20 ∷ field.first ∷ (field.others ++ rest)) (consume r) =
        rw split at h.stands in
      token_Reads b State.expect_colon State.expect_field_value Code.skip v v (b':' ∷ 0x20 ∷ [])
        (f.value ++ rest) r [] refl refl h (omega arith)
        (separator_run State.expect_ows_after_colon State.expect_field_value v field.first
          (field.others ++ rest) (consume r) field.starts_off stands)
        refl

  pub value_Reads :
      (v' : Frame)
      → At State.expect_field_value v (f.value ++ 0x0D ∷ rest) r
      → (see_field_value b
            (consume r).body_type
            f.value
            (emit State.expect_crlf_after_field_value Code.field_value (length f.value) (consume r))
          ≡ some (
              stamp State.expect_crlf_after_field_value Code.field_value v'
                (length f.value)
                (consume r)))
      → Reads b r
          (Item.field_value f.value ∷ [])
          State.expect_crlf_after_field_value
          v'
          (0x0D ∷ rest)
  unfolding dispatch value_field_value
  value_Reads v' h seen =
      let filled : 0 < length f.value = rw field.value_splits (omega arith) in
      token_Reads b State.expect_field_value State.expect_crlf_after_field_value Code.field_value v
        v' f.value (0x0D ∷ rest) r (Item.field_value f.value ∷ []) refl refl h filled
        (value_run b f v v' rest (consume r) field h.stands seen)
        (rw
          (
            ahead_view f.value (0x0D ∷ rest) (consume r) h.stands,
            decode_tight f.value filled field.ends_off,
          )
          refl)

pub field_end_Reads :
    (b : Boost) (v : Frame) (rest : Bytes) (r : Request)
    → At State.expect_crlf_after_field_value v (print_line_end rest) r
    → Reads b r [] State.expect_field_name v rest
unfolding dispatch on_crlf_after_field_value on_crlf_after_version end_line match_liberal
field_end_Reads b v rest r h =
    token_Reads b State.expect_crlf_after_field_value State.expect_field_name Code.skip v v
      (0x0D ∷ 0x0A ∷ []) rest r [] refl refl h (omega arith)
      (rw (h.stands.ahead, ← h.stands.at_version, ← h.stands.at_type, ← h.stands.at_size) refl) refl
