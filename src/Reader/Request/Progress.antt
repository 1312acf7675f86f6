-- ===== src/Reader/Request/Progress.antt =====
-- Calls of `next` go on: every token takes a byte of the buffer, or the state closer to one that
-- does.
pub mod Loop
pub mod Drained
use boost_http.Base.{
  Option-cases, Bool-cases, inl, inr, scan, get_elem?, ◌==◌, drop, length-drop, ◌-◌, ℕ, suc, zero,
  ◌+◌, ◌<◌, ◌≤◌, Bool, true, false, ◌||◌, Option, none, some, length, ◌≡◌, refl, sym, ap, ◌∙◌,
  arith, if◌then◌else◌,
}
use mathlib.Core.Path.{subst}
use boost_http.Token.{Code}
use boost_http.Abnf.{is_chunk_ext_char}
use boost_http.Syntax.Match.{match_field_name, match_field_value}
use boost_http.Header.{Boost}
use boost_http.Syntax.Crlf.{Result}
use boost_http.Reader.Request.State.{State, BodyType, Request, emit}
use boost_http.Reader.Request.Value.{value_field_value}
use boost_http.Reader.Request.StartLine.{
  expect_word, on_method, on_sp_after_method, on_request_target, static_str,
  on_static_str_after_target, read_version, on_version, end_line, on_crlf_after_version,
}
use boost_http.Reader.Request.Fields.{
  see_host, see_transfer_encoding, see_content_length, see_field_name, on_field_name,
  expect_separator, on_colon, on_ows_after_colon, read_content_length, read_encoding,
  see_field_value, on_field_value, on_crlf_after_field_value,
}
use boost_http.Reader.Request.Body.{
  choose_body, check_host, end_headers, on_crlf_after_headers, take_body, on_body, read_chunk_size,
  on_chunk_size, end_chunk_ext, stop_chunk_ext, on_chunk_ext, expect_strict_crlf, end_chunk_line,
  on_crlf_after_chunk_ext, on_chunk_data, on_crlf_after_chunk_data,
}
use boost_http.Reader.Request.Trailers.{
  on_trailer_name, on_trailer_colon, on_ows_after_trailer_colon, on_trailer_value,
  on_crlf_after_trailer_value, end_trailers, on_crlf_after_trailers,
}
use boost_http.Reader.Request.Next.{is_insufficient, dispatch, consume, read_token, next_fuel, next}
use boost_http.Reader.Request.Safety.Plain.{is_plain, next_in_plain}

-- The reader has stopped: it wants more data, or holds an error.
abbrev pub is_errored : State → Bool
is_errored State.errored = true
is_errored _ = false

abbrev pub is_over : Request → Bool
is_over r = is_insufficient r.code || is_errored r.state

-- How many tokens without a byte may come from a state.
abbrev pub rank : State → ℕ
rank State.expect_body = 3
rank State.expect_end_of_body = 2
rank State.expect_end_of_message = 1
rank State.expect_chunk_data = 1
rank State.expect_ows_after_colon = 1
rank State.expect_field_value = 1
rank State.expect_ows_after_trailer_colon = 1
rank State.expect_trailer_value = 1
rank _ = 0

abbrev pub Moves : ℕ → Option Request → Type 0
Moves k none = Unit {0}
Moves k (some r) = is_over r ≡ false → r.token_size ≡ 0 → rank r.state < k

module _ (n : ℕ) (k : ℕ) where
  see_field_name-Moves :
      (b : Boost) (r : Request) → r.token_size ≡ n → 0 < n → Moves k (see_field_name b r)
  unfolding see_field_name see_host see_transfer_encoding see_content_length
  see_field_name-Moves b r e d = ground arith

  see_field_value-Moves :
      (b : Boost) (t : BodyType) (field : _) (r : Request)
      → r.state ≡ State.expect_crlf_after_field_value
      → Moves 1 (see_field_value b t field r)
  unfolding see_field_value read_content_length read_encoding
  see_field_value-Moves b t field r e = ground arith

end_headers-Moves :
    (res : Result) (r : Request)
    → r.code ≡ Code.error_insufficient_data
    → Moves 0 (end_headers res r)
unfolding end_headers check_host choose_body
end_headers-Moves res r u = ground arith

take_body-Moves :
    (after : State) (r : Request)
    → r.idx < length r.ibuffer
    → rank after < rank r.state
    → Moves (rank r.state) (some (take_body after r))
unfolding take_body
take_body-Moves after r h e = ground (arith, length-drop r.idx r.ibuffer)

expect_word-Moves :
    (p : ℕ → Bool) (s : State) (c : Code) (r : Request)
    → r.code ≡ Code.error_insufficient_data
    → Moves 0 (expect_word p s c r)
unfolding expect_word scan
expect_word-Moves p s c r u = ground arith

expect_separator-Moves : (s t : State) (r : Request) → Moves 0 (expect_separator s t r)
unfolding expect_separator scan
expect_separator-Moves s t r = ground arith

-- A call of `next` behind the preamble, from a place inside the buffer.
abbrev MovesFresh : (Request → Option Request) → Type 0
MovesFresh f =
    (r : Request)
    → r.code ≡ Code.error_insufficient_data
    → is_plain r.state ≡ true
    → r.idx ≤ length r.ibuffer
    → Moves (rank r.state) (f r)

module _ (again : Request → Option Request) (k : MovesFresh again) where
  on_chunk_ext-Moves :
      (r : Request)
      → r.code ≡ Code.error_insufficient_data
      → r.idx ≤ length r.ibuffer
      → Moves 0 (on_chunk_ext again r)
  unfolding on_chunk_ext stop_chunk_ext end_chunk_ext
  on_chunk_ext-Moves r u h =
      elim (Option-cases (scan is_chunk_ext_char r.ibuffer (r.idx + r.token_size))) [
        | inl past ↦ rw past tt
        | inr (j, at) ↦ rw at (elim (Bool-cases (j == length r.ibuffer)) [
          | inl end ↦ rw end (ground arith)
          | inr more ↦ rw more (elim (Option-cases (get_elem? r.ibuffer j)) [
            | inl outside ↦ rw outside tt
            | inr (c, read) ↦ rw read (
                ground (
                  arith,
                  k (record r {
                    state = State.expext_crlf_after_chunk_ext;
                    token_size = j - r.idx;
                  }),
                ))
          ])
        ])
      ]

  on_field_value-Moves :
      (b : Boost) (r : Request)
      → r.code ≡ Code.error_insufficient_data
      → Moves 1 (on_field_value b r)
  unfolding on_field_value
  on_field_value-Moves b r u =
      let n = match_field_value (drop r.idx r.ibuffer) in
      let r' = emit State.expect_crlf_after_field_value Code.field_value n r in
      elim (Bool-cases (n == length (drop r.idx r.ibuffer))) [
        | inl end ↦ rw end (ground arith)
        | inr more ↦ rw more (elim (Option-cases (value_field_value r')) [
          | inl bad ↦ rw bad tt
          | inr (field, at) ↦ rw at (see_field_value-Moves 0 0 b r.body_type field r' refl)
        ])
      ]

  dispatch-Moves :
      (b : Boost) (s : State) (r : Request)
      → r.code ≡ Code.error_insufficient_data
      → r.state ≡ s
      → r.idx < length r.ibuffer
      → Moves (rank s) (dispatch b again s r)
  unfolding dispatch on_method on_request_target on_sp_after_method on_static_str_after_target
      on_version read_version on_crlf_after_version end_line on_field_name on_colon
      on_ows_after_colon on_crlf_after_field_value on_crlf_after_headers on_body on_chunk_size
      read_chunk_size on_crlf_after_chunk_ext expect_strict_crlf end_chunk_line on_chunk_data
      on_crlf_after_chunk_data on_trailer_name on_trailer_colon on_ows_after_trailer_colon
      on_trailer_value on_crlf_after_trailer_value end_trailers on_crlf_after_trailers
  dispatch-Moves b State.expect_method r u e h = expect_word-Moves _ _ _ r u
  dispatch-Moves b State.expect_request_target r u e h = expect_word-Moves _ _ _ r u
  dispatch-Moves b State.expect_colon r u e h = expect_separator-Moves _ _ r
  dispatch-Moves b State.expect_trailer_colon r u e h = expect_separator-Moves _ _ r
  dispatch-Moves b State.expect_field_name r u e h =
      let n = match_field_name (drop r.idx r.ibuffer) in
      ground (
        arith,
        k (record r { state = State.expect_crlf_after_headers }),
        see_field_name-Moves n 0 b (emit State.expect_colon Code.field_name n r),
      )
  dispatch-Moves b State.expect_ows_after_colon r u e h =
      ground (arith, k (record r { state = State.expect_field_value }))
  dispatch-Moves b State.expect_trailer_name r u e h =
      ground (arith, k (record r { state = State.expect_crlf_after_trailers }))
  dispatch-Moves b State.expect_ows_after_trailer_colon r u e h =
      ground (arith, k (record r { state = State.expect_trailer_value }))
  dispatch-Moves b State.expect_chunk_ext r u e h = on_chunk_ext-Moves r u (omega arith)
  dispatch-Moves b State.expect_field_value r u e h = on_field_value-Moves b r u
  dispatch-Moves b State.expect_crlf_after_headers r u e h = end_headers-Moves _ r u
  dispatch-Moves b State.expect_body r u e h =
      ground (arith, take_body-Moves State.expect_end_of_body r)
  dispatch-Moves b State.expect_chunk_data r u e h =
      ground (arith, take_body-Moves State.expect_crlf_after_chunk_data r)
  dispatch-Moves b _ r u e h = ground arith

  read_token-Moves :
      (b : Boost) (r : Request)
      → r.code ≡ Code.error_insufficient_data
      → r.idx ≤ length r.ibuffer
      → Moves (rank r.state) (read_token b again r.state r)
  unfolding read_token
  read_token-Moves b r u h = ground (arith, dispatch-Moves b r.state r)
