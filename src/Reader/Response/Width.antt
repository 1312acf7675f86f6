-- ===== src/Reader/Response/Width.antt =====
-- The width of `body_size`, in the response reader.
use boost_http.Base.{
  Option-cases, Bool-cases, inl, inr, ◌==◌, drop, ◌++◌, ℕ, ◌≤◌, true, false, Option, none, some,
  length, ◌≡◌, refl, sym, arith, Bytes,
}
use mathlib.Core.Path.{subst}
use boost_http.Header.{Boost}
use boost_http.Reader.Request
use boost_http.Reader.Request.Fields.{body_size_max}
use boost_http.Reader.Response.State.{State, Response, construct, reset, puteof}
use boost_http.Reader.Response.Value.{value_status_code}
use boost_http.Reader.Response.Method.{frame, set_method}
use boost_http.Reader.Response.StatusLine.{
  on_version_static_str, on_version, expect_space, on_sp_after_version, on_status_code,
  on_sp_after_status_code, on_reason_phrase,
}
use boost_http.Reader.Response.Fields.{
  see_transfer_encoding, see_content_length, see_field_name, on_field_name,
}
use boost_http.Reader.Response.Body.{
  until_eof, choose_body, end_headers, on_crlf_after_headers, on_unsafe_body,
}
use boost_http.Reader.Response.Next.{
  dispatch, consume, end_connection, on_end_of_buffer, read_token, next_in, next_fuel, next,
  set_buffer,
}
use boost_http.Reader.Response.Mirror.{mirror, mirrored, is_shared}
use boost_http.Reader.Response.Mirror.Whole.{next-mirror}
use boost_http.Reader.Response.Safety.Total.{next_in_plain, is_shared-is_plain}
use boost_http.Reader.Response.Reach.{Reach, made, cleared, ended, told, stepped, fed}

abbrev Fits : Option Response → Type 0
Fits none = Unit {0}
Fits (some r) = r.body_size ≤ body_size_max

abbrev KeepsFits : (Response → Option Response) → Type 0
KeepsFits f = (r : Response) → r.body_size ≤ body_size_max → Fits (f r)

Fits-mirrored : (o : Option Response) → Request.Width.Fits (mirrored o) → Fits o
Fits-mirrored none h = tt
Fits-mirrored (some r) h = h

consume_size : (r : Response) → (consume r).body_size ≡ r.body_size
unfolding consume
consume_size r = ground arith

on_end_of_buffer_size : (s : State) (r : Response) → (on_end_of_buffer s r).body_size ≡ r.body_size
unfolding on_end_of_buffer end_connection
on_end_of_buffer_size s r = ground arith

on_field_name-Fits :
    (b : Boost) (again : Response → Option Response)
    → ((r : Response)
        → r.state ≡ State.expect_crlf_after_headers
        → r.body_size ≤ body_size_max
        → Fits (again r))
    → KeepsFits (on_field_name b again)
unfolding on_field_name see_field_name see_transfer_encoding see_content_length
on_field_name-Fits b again k r h =
    ground (arith, h, k (record r { state = State.expect_crlf_after_headers }))

own_dispatch-Fits :
    (b : Boost) (again : Response → Option Response) (s : State)
    → ((r : Response)
        → r.state ≡ State.expect_crlf_after_headers
        → r.body_size ≤ body_size_max
        → Fits (again r))
    → is_shared s ≡ false
    → KeepsFits (dispatch b again s)
unfolding dispatch on_version_static_str on_version expect_space on_sp_after_version on_status_code
    on_sp_after_status_code on_reason_phrase until_eof choose_body end_headers on_crlf_after_headers
    on_unsafe_body
own_dispatch-Fits b again State.expect_field_name k own r h = on_field_name-Fits b again k r h
own_dispatch-Fits b again s k own r h = ground (arith, h)

module _ (b : Boost) where
  own-Fits :
      (again : Response → Option Response)
      → ((r : Response)
          → r.state ≡ State.expect_crlf_after_headers
          → r.body_size ≤ body_size_max
          → Fits (again r))
      → (s : State) → is_shared s ≡ false
      → KeepsFits (next_in b again s)
  unfolding next_in read_token
  own-Fits again k s own r h =
      let kept : (consume r).body_size ≤ body_size_max = rw consume_size h in
      let rest = own_dispatch-Fits b again s k own (consume r) kept in
      let end : (on_end_of_buffer s (consume r)).body_size ≤ body_size_max =
        rw on_end_of_buffer_size kept in
      ground (arith, h, rest, end)

  -- The call of itself, behind the last field.
  inner-Fits :
      (r : Response)
      → r.state ≡ State.expect_crlf_after_headers
      → r.body_size ≤ body_size_max
      → Fits (next_fuel b 1 r)
  unfolding next_fuel
  inner-Fits r e h = own-Fits (next_fuel b 0) (λ q at size. tt) r.state (rw e refl) r h

  end-Fits :
      (r : Response)
      → is_shared r.state ≡ true
      → ((consume r).idx == length (consume r).ibuffer) ≡ true
      → r.body_size ≤ body_size_max
      → Fits (next b r)
  unfolding next next_fuel read_token
  end-Fits r shared end h =
      let plain = is_shared-is_plain b r.state shared in
      let kept : (on_end_of_buffer r.state (consume r)).body_size ≤ body_size_max =
        rw (on_end_of_buffer_size, consume_size) h in
      subst Fits (sym (next_in_plain b (next_fuel b 1) r.state r plain)) (rw end kept)

  next-Fits : KeepsFits (next b)
  next-Fits r h = elim (Bool-cases (is_shared r.state)) [
    | inl shared ↦ elim (Bool-cases ((consume r).idx == length (consume r).ibuffer)) [
      | inl end ↦ end-Fits r shared end h
      | inr byte ↦ Fits-mirrored (next b r) (
          subst Request.Width.Fits (sym (next-mirror b r shared (inl byte)))
            (Request.Width.next-Fits b (mirror r) h))
    ]
    | inr own ↦ unfold next next_fuel in own-Fits (next_fuel b 1) inner-Fits r.state own r h
  ]

  set_buffer-Fits : (buffer : Bytes) → KeepsFits (set_buffer b buffer)
  unfolding set_buffer
  set_buffer-Fits buffer r h = ground (arith, h, next-Fits (record r { ibuffer = buffer; idx = 0 }))

set_method-Fits : (method : Bytes) → KeepsFits (set_method method)
unfolding set_method frame
set_method-Fits method r h = ground (arith, h, Option-cases (value_status_code r))

entry_size :
    (n : ℕ) (r : Response)
    → ((construct n).body_size ≡ n)
      × ((reset r).body_size ≡ r.body_size)
      × ((puteof r).body_size ≡ r.body_size)
unfolding construct reset puteof
entry_size n r = (refl, refl, refl)

-- What the constructor found in the memory of `body_size`, for the reader that the calls began with.
abbrev pub response_start : {b : Boost} {r : Response} → Reach b r → ℕ
response_start (made n) = n
response_start (cleared w) = response_start w
response_start (ended w) = response_start w
response_start (told method w e) = response_start w
response_start (stepped w e) = response_start w
response_start (fed more w e) = response_start w

-- In every response reader that calls of `next`, `set_buffer`, `set_method`, `puteof` and `reset`
-- make from a new one, where each new buffer begins with all the unread bytes of the old one, the
-- size of the body or of the chunk fits a `uint_least64_t`, when the uninitialised one did.
pub response_Reach-body_size :
    (b : Boost) {r : Response} (w : Reach b r)
    → response_start w ≤ body_size_max
    → r.body_size ≤ body_size_max
response_Reach-body_size b (made n) h = let (e, _, _) = entry_size n (construct n) in rw e h
response_Reach-body_size b (cleared {r} w) h =
    let (_, e, _) = entry_size 0 r in rw e (response_Reach-body_size b w h)
response_Reach-body_size b (ended {r} w) h =
    let (_, _, e) = entry_size 0 r in rw e (response_Reach-body_size b w h)
response_Reach-body_size b (told {r} {r'} method w e) h =
    subst Fits e (set_method-Fits method r (response_Reach-body_size b w h))
response_Reach-body_size b (stepped {r} {r'} w e) h =
    subst Fits e (next-Fits b r (response_Reach-body_size b w h))
response_Reach-body_size b (fed {r} {r'} more w e) h =
    subst Fits e
      (set_buffer-Fits b (drop r.idx r.ibuffer ++ more) r (response_Reach-body_size b w h))
