-- ===== src/Reader/Request/Width.antt =====
-- The width of `body_size`, which is a `uint_least64_t`.
use boost_http.Base.{
  Option-cases, Bool-cases, inl, inr, ◌==◌, drop, ◌++◌, ◌-◌, ℕ, suc, zero, ◌+◌, ◌≤◌, Option, none,
  some, length, take, scan, get_elem?, ◌≡◌, refl, arith, Bytes,
}
use mathlib.Core.Path.{subst}
use boost_http.Token.{Code}
use boost_http.Abnf.{is_chunk_ext_char}
use boost_http.Syntax.Match.{match_field_name, match_field_value, match_chunk_size}
use boost_http.Syntax.Digits.{
  Result, invalid, ok, overflow, decode_content_length, decode_chunk_size,
}
use boost_http.Syntax.Digits.Width.{decode-fits}
use boost_http.Header.{Boost}
use boost_http.Reader.Request.State.{State, Version, BodyType, Request, emit, construct, reset}
use boost_http.Reader.Request.Value.{value_field_name, value_field_value}
use boost_http.Reader.Request.StartLine.{
  expect_word, on_method, on_sp_after_method, on_request_target, on_static_str_after_target,
  read_version, on_version, end_line, on_crlf_after_version,
}
use boost_http.Reader.Request.Fields.{
  see_host, see_transfer_encoding, see_content_length, see_field_name, on_field_name,
  expect_separator, on_colon, on_ows_after_colon, read_content_length, read_encoding,
  see_field_value, on_field_value, body_size_max, on_crlf_after_field_value,
}
use boost_http.Reader.Request.Body.{
  choose_body, check_host, end_headers, on_crlf_after_headers, take_body, on_body, read_chunk_size,
  on_chunk_size, end_chunk_ext, stop_chunk_ext, on_chunk_ext, expect_strict_crlf, end_chunk_line,
  on_crlf_after_chunk_ext, on_chunk_data, on_crlf_after_chunk_data,
}
use boost_http.Reader.Request.Trailers.{
  on_trailer_name, on_trailer_colon, on_ows_after_trailer_colon, on_trailer_value,
  on_crlf_after_trailer_value, end_trailers, on_crlf_after_trailers,
}
use boost_http.Reader.Request.Next.{
  dispatch, consume, read_token, next_in, next_fuel, next, set_buffer,
}
use boost_http.Reader.Request.Reach.{Reach, made, cleared, stepped, fed}

abbrev pub Fits : Option Request → Type 0
Fits none = Unit {0}
Fits (some r) = r.body_size ≤ body_size_max

abbrev KeepsFits : (Request → Option Request) → Type 0
KeepsFits f = (r : Request) → r.body_size ≤ body_size_max → Fits (f r)

see_field_name-Fits :
    (b : Boost) (r : Request) → r.body_size ≤ body_size_max → Fits (see_field_name b r)
unfolding see_field_name see_host see_transfer_encoding see_content_length
see_field_name-Fits b r h = ground (arith, Option-cases (value_field_name r))

content_length_fits :
    (field : Bytes) (n : ℕ)
    → n ≤ body_size_max
    → (decode_content_length body_size_max field n).1 ≤ body_size_max
content_length_fits field n h =
    let (_, fits, _, _) = decode-fits body_size_max field n (omega arith) h in fits

chunk_size_fits :
    (size : Bytes) (n : ℕ)
    → n ≤ body_size_max
    → (decode_chunk_size body_size_max size n).1 ≤ body_size_max
chunk_size_fits size n h =
    let (_, _, _, fits) = decode-fits body_size_max size n (omega arith) h in fits

read_content_length-Fits :
    (x : Result × ℕ) (r : Request) → x.1 ≤ body_size_max → Fits (some (read_content_length x r))
unfolding read_content_length
read_content_length-Fits (invalid, n) r h = h
read_content_length-Fits (overflow, n) r h = h
read_content_length-Fits (ok, n) r h = h

read_chunk_size-Fits :
    (x : Result × ℕ) (size : ℕ) (r : Request)
    → x.1 ≤ body_size_max
    → Fits (some (read_chunk_size x size r))
unfolding read_chunk_size
read_chunk_size-Fits (invalid, n) size r h = h
read_chunk_size-Fits (overflow, n) size r h = h
read_chunk_size-Fits (ok, n) size r h = h

see_field_value-Fits :
    (b : Boost) (t : BodyType) (field : Bytes) (r : Request)
    → r.body_size ≤ body_size_max
    → Fits (see_field_value b t field r)
unfolding see_field_value read_encoding
see_field_value-Fits b BodyType.reading_content_length field r h =
    read_content_length-Fits _ r (content_length_fits field r.body_size h)
see_field_value-Fits b t field r h = ground (arith, h)

on_chunk_size-Fits : KeepsFits on_chunk_size
unfolding on_chunk_size
on_chunk_size-Fits r h =
    let view = drop r.idx r.ibuffer in
    let n = match_chunk_size view in
    let fits = chunk_size_fits (take n view) r.body_size h in
    elim (Bool-cases (n == 0)) [
      | inl none_read ↦ rw none_read h
      | inr digits ↦ rw digits (elim (Bool-cases (n == length view)) [
        | inl end ↦ rw end h
        | inr more ↦ rw more (
            read_chunk_size-Fits (decode_chunk_size body_size_max (take n view) r.body_size) n r
              fits)
      ])
    ]

end_headers-Fits : (res : _) → KeepsFits (end_headers res)
unfolding end_headers check_host choose_body
end_headers-Fits res r h = ground (arith, h)

module _ (again : Request → Option Request) (k : KeepsFits again) where
  stop_chunk_ext-Fits : (c j : ℕ) → KeepsFits (stop_chunk_ext again c j)
  unfolding stop_chunk_ext end_chunk_ext
  stop_chunk_ext-Fits c j r h =
      ground (
        arith,
        h,
        k (record r { state = State.expext_crlf_after_chunk_ext; token_size = j - r.idx }),
      )

  on_field_value-Fits : (b : Boost) → KeepsFits (on_field_value b)
  unfolding on_field_value
  on_field_value-Fits b r h =
      let n = match_field_value (drop r.idx r.ibuffer) in
      let r' = emit State.expect_crlf_after_field_value Code.field_value n r in
      elim (Bool-cases (n == length (drop r.idx r.ibuffer))) [
        | inl end ↦ rw end h
        | inr more ↦ rw more (elim (Option-cases (value_field_value r')) [
          | inl bad ↦ rw bad tt
          | inr (field, at) ↦ rw at (see_field_value-Fits b r.body_type field r' h)
        ])
      ]

  on_chunk_ext-Fits : KeepsFits (on_chunk_ext again)
  unfolding on_chunk_ext
  on_chunk_ext-Fits r h =
      elim (Option-cases (scan is_chunk_ext_char r.ibuffer (r.idx + r.token_size))) [
        | inl past ↦ rw past tt
        | inr (j, at) ↦ rw at (elim (Bool-cases (j == length r.ibuffer)) [
          | inl end ↦ rw end h
          | inr more ↦ rw more (elim (Option-cases (get_elem? r.ibuffer j)) [
            | inl outside ↦ rw outside tt
            | inr (c, read) ↦ rw read (stop_chunk_ext-Fits c j r h)
          ])
        ])
      ]

  dispatch-Fits : (b : Boost) (s : State) → KeepsFits (dispatch b again s)
  unfolding dispatch on_method on_request_target expect_word on_sp_after_method
      on_static_str_after_target on_version read_version on_crlf_after_version end_line
      on_field_name on_colon expect_separator on_ows_after_colon on_crlf_after_field_value
      on_crlf_after_headers on_body take_body on_crlf_after_chunk_ext expect_strict_crlf
      end_chunk_line on_chunk_data on_crlf_after_chunk_data on_trailer_name on_trailer_colon
      on_ows_after_trailer_colon on_trailer_value on_crlf_after_trailer_value end_trailers
      on_crlf_after_trailers
  dispatch-Fits b State.expect_field_name r h =
      let n = match_field_name (drop r.idx r.ibuffer) in
      ground (
        arith,
        h,
        k (record r { state = State.expect_crlf_after_headers }),
        see_field_name-Fits b (emit State.expect_colon Code.field_name n r),
      )
  dispatch-Fits b State.expect_ows_after_colon r h =
      ground (arith, h, k (record r { state = State.expect_field_value }))
  dispatch-Fits b State.expect_trailer_name r h =
      ground (arith, h, k (record r { state = State.expect_crlf_after_trailers }))
  dispatch-Fits b State.expect_ows_after_trailer_colon r h =
      ground (arith, h, k (record r { state = State.expect_trailer_value }))
  dispatch-Fits b State.expect_chunk_ext r h = on_chunk_ext-Fits r h
  dispatch-Fits b State.expect_field_value r h = on_field_value-Fits b r h
  dispatch-Fits b State.expect_crlf_after_headers r h = end_headers-Fits _ r h
  dispatch-Fits b State.expect_chunk_size r h = on_chunk_size-Fits r h
  dispatch-Fits b _ r h = ground (arith, h)

  next_in-Fits : (b : Boost) (s : State) → KeepsFits (next_in b again s)
  unfolding next_in read_token consume
  next_in-Fits b State.errored r h = h
  next_in-Fits b State.expect_end_of_body r h = h
  next_in-Fits b State.expect_end_of_message r h = h
  next_in-Fits b s r h = ground (arith, h, dispatch-Fits b s (consume r))

next_fuel-Fits : (b : Boost) (f : ℕ) → KeepsFits (next_fuel b f)
unfolding next_fuel
next_fuel-Fits b zero r h = tt
next_fuel-Fits b (suc f) r h = next_in-Fits (next_fuel b f) (next_fuel-Fits b f) b r.state r h

pub next-Fits : (b : Boost) → KeepsFits (next b)
unfolding next
next-Fits b r h = next_fuel-Fits b 2 r h

set_buffer-Fits : (b : Boost) (buffer : Bytes) → KeepsFits (set_buffer b buffer)
unfolding set_buffer
set_buffer-Fits b buffer r h =
    ground (arith, h, next-Fits b (record r { ibuffer = buffer; idx = 0 }))

new_size : (v : Version) (n : ℕ) → (construct v n).body_size ≡ n
unfolding construct
new_size v n = refl

reset_size : (r : Request) → (reset r).body_size ≡ r.body_size
unfolding reset
reset_size r = refl

-- What the constructor found in the memory of `body_size`, for the reader that the calls began with.
abbrev pub start : {b : Boost} {r : Request} → Reach b r → ℕ
start (made v n) = n
start (cleared w) = start w
start (stepped w e) = start w
start (fed more w e) = start w

-- In every reader that calls of `next`, `set_buffer` and `reset` make from a new one, where each
-- new buffer begins with all the unread bytes of the old one, the size of the body or of the
-- chunk fits a `uint_least64_t`, when the uninitialised one did.
pub Reach-body_size :
    (b : Boost) {r : Request} (w : Reach b r)
    → start w ≤ body_size_max
    → r.body_size ≤ body_size_max
Reach-body_size b (made v n) h = rw (new_size v n) h
Reach-body_size b (cleared {r} w) h = rw (reset_size r) (Reach-body_size b w h)
Reach-body_size b (stepped {r} {r'} w e) h = subst Fits e (next-Fits b r (Reach-body_size b w h))
Reach-body_size b (fed {r} {r'} more w e) h =
    subst Fits e (set_buffer-Fits b (drop r.idx r.ibuffer ++ more) r (Reach-body_size b w h))
