-- ===== src/Reader/Request/RoundTrip/Trailers.antt =====
-- The tokens of printed trailers.
use boost_http.Base.{
  ℕ, suc, ◌<◌, ◌==◌, false, Option, some, List, [], ◌∷◌, ◌++◌, ◌≡◌, refl, ap, ◌∙◌, length, span,
  span_run, Bytes, arith, length-append,
}
use boost_http.Token.{Code}
use boost_http.Syntax.Chars
use boost_http.Syntax.Match.{match_field_name, match_field_value}
use boost_http.Header.{Boost}
use boost_http.Reader.Request.State.{State, BodyType, Request, emit}
use boost_http.Reader.Request.Value.{value_trailer_name, value_trailer_value}
use boost_http.Reader.Request.Trailers.{
  on_trailer_name, on_trailer_colon, on_trailer_value, on_crlf_after_trailer_value, end_trailers,
  on_crlf_after_trailers,
}
use boost_http.Reader.Request.Next.{consume, read_token, dispatch, next_in, next_fuel}
use boost_http.Reader.Request.RoundTrip.{
  Field, Item, print_line_end, print_fields, trailer_items, field_calls,
}
use boost_http.Reader.Request.RoundTrip.Cursor.{
  Frame, stamp, Stands, Reads, At, ahead_length, ahead_view, token_Reads,
}
use boost_http.Reader.Request.RoundTrip.Fields.{IsField, separator_run, decode_tight}
use boost_http.Reader.Request.RoundTrip.Chunks.{strict_run}
use boost_http.Reader.Request.RoundTrip.Chain.{ReadsAll, reads_then, Continues}

trailer_name_run :
    (f : Field) (v : Frame) (rest : Bytes) (next : Request → Option Request) (r : Request)
    → IsField f
    → Stands v (f.name ++ b':' ∷ rest) r
    → on_trailer_name next r
      ≡ some (stamp State.expect_trailer_colon Code.trailer_name v (length f.name) r)
unfolding on_trailer_name match_field_name Chars.is_tchar
trailer_name_run f v rest next r field h =
    let run = span_run Chars.is_tchar f.name b':' rest field.name_chars refl in
    let filled = field.named in
    let some_byte : (length f.name == 0) ≡ false = ground arith in
    let more = length-append f.name (b':' ∷ rest) in
    let inside : (length f.name == length (f.name ++ b':' ∷ rest)) ≡ false = ground arith in
    rw h.ahead
      (rw run (rw (some_byte, inside) (rw (← h.at_version, ← h.at_type, ← h.at_size) refl)))

trailer_value_run :
    (f : Field) (v : Frame) (rest : Bytes) (r : Request)
    → IsField f
    → Stands v (f.value ++ 0x0D ∷ rest) r
    → on_trailer_value r
      ≡ some (stamp State.expect_crlf_after_trailer_value Code.trailer_value v (length f.value) r)
unfolding on_trailer_value match_field_value Chars.is_field_value_char
trailer_value_run f v rest r field h =
    let run = span_run Chars.is_field_value_char f.value 0x0D rest field.value_chars refl in
    let more = length-append f.value (0x0D ∷ rest) in
    let inside : (length f.value == length (f.value ++ 0x0D ∷ rest)) ≡ false = ground arith in
    rw h.ahead (rw run (rw inside (rw (← h.at_version, ← h.at_type, ← h.at_size) refl)))

-- The call of `next` inside is at the same bytes.
trailers_end_run :
    (b : Boost) (v : Frame) (rest : Bytes) (r : Request)
    → Stands v (print_line_end rest) r
    → on_trailer_name (next_fuel b 1) r
      ≡ some (
          stamp State.expect_method Code.end_of_message
            (record v { body_type = BodyType.no_body })
            2
            r)
unfolding on_trailer_name match_field_name span Chars.is_tchar next_fuel next_in consume read_token
    dispatch on_crlf_after_trailers end_trailers
trailers_end_run b v rest r h =
    let fits = ahead_length r.ibuffer r.idx (print_line_end rest) h.ahead (omega arith) in
    let more : (r.idx == length r.ibuffer) ≡ false = ground arith in
    let stands : Stands v (print_line_end rest) (record r {
      state = State.expect_crlf_after_trailers;
      code = Code.error_insufficient_data;
    }) =
      record {
        at_version = h.at_version;
        at_type = h.at_type;
        at_size = h.at_size;
        whole = h.whole;
        between = refl;
        ahead = h.ahead;
      } in
    rw h.ahead (
      rw h.between
        (rw more (strict_run end_trailers v rest _ stands ∙ rw (← h.at_version, ← h.at_size) refl)))

module _ (b : Boost) (v : Frame) (f : Field) (rest : Bytes) (r : Request) (field : IsField f) where
  trailer_name_Reads :
      At State.expect_trailer_name v (f.name ++ b':' ∷ rest) r
      → Reads b r (Item.trailer_name f.name ∷ []) State.expect_trailer_colon v (b':' ∷ rest)
  unfolding dispatch value_trailer_name
  trailer_name_Reads h =
      token_Reads b State.expect_trailer_name State.expect_trailer_colon Code.trailer_name v v
        f.name (b':' ∷ rest) r (Item.trailer_name f.name ∷ []) refl refl h field.named
        (trailer_name_run f v rest (next_fuel b 1) (consume r) field h.stands)
        (ap (λ w. some (Item.trailer_name w ∷ []))
          (ahead_view f.name (b':' ∷ rest) (consume r) h.stands))

  trailer_colon_Reads :
      At State.expect_trailer_colon v (b':' ∷ 0x20 ∷ (f.value ++ rest)) r
      → Reads b r [] State.expect_trailer_value v (f.value ++ rest)
  unfolding dispatch on_trailer_colon
  trailer_colon_Reads h =
      let split : f.value ++ rest ≡ field.first ∷ (field.others ++ rest) =
        ap (λ (t : Bytes). t ++ rest) field.value_splits in
      let stands : Stands v (b':' ∷ 0x20 ∷ field.first ∷ (field.others ++ rest)) (consume r) =
        rw split at h.stands in
      token_Reads b State.expect_trailer_colon State.expect_trailer_value Code.skip v v
        (b':' ∷ 0x20 ∷ []) (f.value ++ rest) r [] refl refl h (omega arith)
        (separator_run State.expect_ows_after_trailer_colon State.expect_trailer_value v field.first
          (field.others ++ rest) (consume r) field.starts_off stands)
        refl

  trailer_value_Reads :
      At State.expect_trailer_value v (f.value ++ 0x0D ∷ rest) r
      → Reads b r
          (Item.trailer_value f.value ∷ [])
          State.expect_crlf_after_trailer_value
          v
          (0x0D ∷ rest)
  unfolding dispatch value_trailer_value
  trailer_value_Reads h =
      let filled : 0 < length f.value = rw field.value_splits (omega arith) in
      token_Reads b State.expect_trailer_value State.expect_crlf_after_trailer_value
        Code.trailer_value v v f.value (0x0D ∷ rest) r (Item.trailer_value f.value ∷ []) refl refl h
        filled (trailer_value_run f v rest (consume r) field h.stands)
        (rw
          (
            ahead_view f.value (0x0D ∷ rest) (consume r) h.stands,
            decode_tight f.value filled field.ends_off,
          )
          refl)

module _ (b : Boost) (v : Frame) (rest : Bytes) (r : Request) where
  trailer_end_Reads :
      At State.expect_crlf_after_trailer_value v (print_line_end rest) r
      → Reads b r [] State.expect_trailer_name v rest
  unfolding dispatch on_crlf_after_trailer_value
  trailer_end_Reads h =
      token_Reads b State.expect_crlf_after_trailer_value State.expect_trailer_name Code.skip v v
        (0x0D ∷ 0x0A ∷ []) rest r [] refl refl h (omega arith)
        (strict_run (emit State.expect_trailer_name Code.skip) v rest (consume r) h.stands
          ∙ rw (← h.stands.at_version, ← h.stands.at_type, ← h.stands.at_size) refl)
        refl

  trailers_end_Reads :
      At State.expect_trailer_name v (print_line_end rest) r
      → Reads b r
          (Item.end_of_message ∷ [])
          State.expect_method
          (record v { body_type = BodyType.no_body })
          rest
  unfolding dispatch
  trailers_end_Reads h =
      token_Reads b State.expect_trailer_name State.expect_method Code.end_of_message v
        (record v { body_type = BodyType.no_body }) (0x0D ∷ 0x0A ∷ []) rest r
        (Item.end_of_message ∷ []) refl refl h (omega arith)
        (trailers_end_run b v rest (consume r) h.stands) refl

abbrev pub AllFields : List Field → Type 0
AllFields [] = Unit {0}
AllFields (f ∷ fs) = IsField f × AllFields fs

pub trailers_then :
    (b : Boost) (fs : List Field) (v : Frame) (n : ℕ) (items : List Item) (ahead rest : Bytes)
    (r : Request)
    → AllFields fs
    → At State.expect_trailer_name v (print_fields fs (print_line_end ahead)) r
    → Continues b State.expect_method (record v { body_type = BodyType.no_body }) ahead n items rest
    → ReadsAll b (field_calls fs (suc n)) r (trailer_items fs (Item.end_of_message ∷ items)) rest
trailers_then b [] v n items ahead rest r fields h k =
    let end = trailers_end_Reads b v ahead r h in reads_then end (k end.after end.at)
trailers_then b (f ∷ fs) v n items ahead rest r (field, fields) h k =
    let more = print_fields fs (print_line_end ahead) in
    let line = f.value ++ print_line_end more in
    let name = trailer_name_Reads b v f (0x20 ∷ line) r field h in
    let colon = trailer_colon_Reads b v f (print_line_end more) name.after field name.at in
    let value = trailer_value_Reads b v f (0x0A ∷ more) colon.after field colon.at in
    let end = trailer_end_Reads b v more value.after value.at in
    reads_then name (
      reads_then colon (
        reads_then value
          (reads_then end (trailers_then b fs v n items ahead rest end.after fields end.at k))))
