-- ===== src/Reader/Request/Resume/Whole.antt =====
-- `next` on a reader that wants more data, with more data.
use boost_http.Base.{
  ◌<◌, ◌==◌, length, Bytes, some, false, true, ◌≡◌, refl, sym, ◌∙◌, ap, arith, Bool-cases, inl, inr,
}
use mathlib.Core.Path.{subst}
use boost_http.Header.{Boost}
use boost_http.Reader.Request.State.{
  State, errored, expect_method, expect_sp_after_method, expect_request_target,
  expect_static_str_after_target, expect_version, expect_crlf_after_version, expect_field_name,
  expect_colon, expect_ows_after_colon, expect_field_value, expect_crlf_after_field_value,
  expect_crlf_after_headers, expect_body, expect_end_of_body, expect_end_of_message,
  expect_chunk_size, expect_chunk_ext, expext_crlf_after_chunk_ext, expect_chunk_data,
  expect_crlf_after_chunk_data, expect_trailer_name, expect_trailer_colon,
  expect_ows_after_trailer_colon, expect_trailer_value, expect_crlf_after_trailer_value,
  expect_crlf_after_trailers, Request,
}
use boost_http.Reader.Request.StartLine.{on_method, on_request_target}
use boost_http.Reader.Request.Fields.{on_colon, on_crlf_after_field_value}
use boost_http.Reader.Request.Body.{
  on_body, on_crlf_after_chunk_ext, end_chunk_line, on_chunk_data, on_crlf_after_chunk_data,
}
use boost_http.Reader.Request.Trailers.{
  on_trailer_colon, on_crlf_after_trailer_value, end_trailers, on_crlf_after_trailers,
}
use boost_http.Reader.Request.Next.{
  is_insufficient, dispatch, consume, read_token, next_in, next_fuel, next,
}
use boost_http.Reader.Request.Safety.{Inv, Ready}
use boost_http.Reader.Request.Safety.Plain.{is_plain, next_in_plain, Ready-consume, consume_state}
use boost_http.Reader.Request.Resume.{extend, settled, Waits, ResumesTo}
use boost_http.Reader.Request.Resume.Unchanged.{
  on_sp_after_method-Waits, on_version-Waits, end_line-Waits, expect_separator-Waits,
  end_headers-Waits, take_body-Waits, on_chunk_size-Waits, on_trailer_value-Waits,
  expect_strict_crlf-Waits, on_field_value-Waits,
}
use boost_http.Reader.Request.Resume.Moved.{
  stays, field_name-ResumesTo, ows_after_colon-ResumesTo, trailer_name-ResumesTo,
  ows_after_trailer_colon-ResumesTo,
}
use boost_http.Reader.Request.Resume.Leaves.{extend-has_byte}
use boost_http.Reader.Request.Resume.Pieces.{word-ResumesTo, static-ResumesTo}
use boost_http.Reader.Request.Resume.ChunkExt.{chunk_ext-ResumesTo}

module _ (b : Boost) (more : Bytes) where
  plain-Waits :
      (s : State) (r : Request)
      → Waits r (dispatch b (next_fuel b 1) s r)
      → is_plain s ≡ true
      → Ready r
      → r.state ≡ s
      → ResumesTo b more
          (dispatch b (next_fuel b 1) s (extend more r))
          (dispatch b (next_fuel b 1) s r)
  plain-Waits s r w p h e = stays b more r h.unread h.has_byte s p e w

  dispatch-ResumesTo :
      (s : State) (r : Request)
      → is_plain s ≡ true
      → Ready r
      → r.state ≡ s
      → ResumesTo b more
          (dispatch b (next_fuel b 1) s (extend more r))
          (dispatch b (next_fuel b 1) s r)
  dispatch-ResumesTo errored r p h e = cc
  dispatch-ResumesTo expect_end_of_body r p h e = cc
  dispatch-ResumesTo expect_end_of_message r p h e = cc
  dispatch-ResumesTo expect_method r p h e =
      unfold dispatch on_method in
      word-ResumesTo b more _ expect_method _ _ r h.unread h.has_byte h.inv.in_bounds refl e refl
        (λ q. refl)
  dispatch-ResumesTo expect_request_target r p h e =
      unfold dispatch on_request_target in
      word-ResumesTo b more _ expect_request_target _ _ r h.unread h.has_byte h.inv.in_bounds refl e
        refl (λ q. refl)
  dispatch-ResumesTo expect_static_str_after_target r p h e =
      unfold dispatch in
      static-ResumesTo b more r h.unread h.has_byte h.inv.in_bounds
        (h.inv.partial_static h.unread e) e
  dispatch-ResumesTo expect_chunk_ext r p h e =
      unfold dispatch in chunk_ext-ResumesTo b more r h.unread h.has_byte h.inv.in_bounds e
  dispatch-ResumesTo expect_field_name r p h e = field_name-ResumesTo b more r h.unread h.has_byte e
  dispatch-ResumesTo expect_ows_after_colon r p h e =
      ows_after_colon-ResumesTo b more r h.unread h.has_byte e
  dispatch-ResumesTo expect_trailer_name r p h e =
      trailer_name-ResumesTo b more r h.unread h.has_byte e
  dispatch-ResumesTo expect_ows_after_trailer_colon r p h e =
      ows_after_trailer_colon-ResumesTo b more r h.unread h.has_byte e
  dispatch-ResumesTo expect_sp_after_method r p h e =
      plain-Waits _ r (unfold dispatch in on_sp_after_method-Waits r) p h e
  dispatch-ResumesTo expect_version r p h e =
      plain-Waits _ r (unfold dispatch in on_version-Waits r) p h e
  dispatch-ResumesTo expect_crlf_after_version r p h e =
      plain-Waits _ r (unfold dispatch in end_line-Waits r) p h e
  dispatch-ResumesTo expect_colon r p h e =
      plain-Waits _ r (unfold dispatch on_colon in expect_separator-Waits r _ _) p h e
  dispatch-ResumesTo expect_field_value r p h e =
      plain-Waits _ r (unfold dispatch in on_field_value-Waits b r) p h e
  dispatch-ResumesTo expect_crlf_after_field_value r p h e =
      plain-Waits _ r (unfold dispatch on_crlf_after_field_value in end_line-Waits r) p h e
  dispatch-ResumesTo expect_crlf_after_headers r p h e =
      plain-Waits _ r (unfold dispatch in end_headers-Waits r) p h e
  dispatch-ResumesTo expect_body r p h e =
      plain-Waits _ r (unfold dispatch on_body in take_body-Waits r _) p h e
  dispatch-ResumesTo expect_chunk_size r p h e =
      plain-Waits _ r (unfold dispatch in on_chunk_size-Waits r) p h e
  dispatch-ResumesTo expext_crlf_after_chunk_ext r p h e =
      plain-Waits _ r
        (unfold dispatch on_crlf_after_chunk_ext in
          expect_strict_crlf-Waits r end_chunk_line (λ n. unfold end_chunk_line in ground arith))
        p h e
  dispatch-ResumesTo expect_chunk_data r p h e =
      plain-Waits _ r (unfold dispatch on_chunk_data in take_body-Waits r _) p h e
  dispatch-ResumesTo expect_crlf_after_chunk_data r p h e =
      plain-Waits _ r
        (unfold dispatch on_crlf_after_chunk_data in expect_strict_crlf-Waits r _ (λ n. refl)) p h e
  dispatch-ResumesTo expect_trailer_colon r p h e =
      plain-Waits _ r (unfold dispatch on_trailer_colon in expect_separator-Waits r _ _) p h e
  dispatch-ResumesTo expect_trailer_value r p h e =
      plain-Waits _ r (unfold dispatch in on_trailer_value-Waits r) p h e
  dispatch-ResumesTo expect_crlf_after_trailer_value r p h e =
      plain-Waits _ r
        (unfold dispatch on_crlf_after_trailer_value in expect_strict_crlf-Waits r _ (λ n. refl)) p
        h e
  dispatch-ResumesTo expect_crlf_after_trailers r p h e =
      plain-Waits _ r
        (unfold dispatch on_crlf_after_trailers in
          expect_strict_crlf-Waits r end_trailers (λ n. unfold end_trailers in refl))
        p h e

consume-extend : (more : Bytes) (r : Request) → consume (extend more r) ≡ extend more (consume r)
unfolding consume
consume-extend more r = ground arith

consume-consume :
    (more : Bytes) (r : Request) → consume (extend more (consume r)) ≡ consume (extend more r)
unfolding consume
consume-consume more r = ground arith

module _ (b : Boost) (more : Bytes) (r : Request) where
  next-plain :
      (q : Request)
      → is_plain q.state ≡ true
      → next b q ≡ read_token b (next_fuel b 1) q.state (consume q)
  unfolding next next_fuel
  next-plain q p = next_in_plain b (next_fuel b 1) q.state q p

  -- The end of the buffer: nothing but the preamble was done.
  end-ResumesTo :
      is_plain r.state ≡ true → ResumesTo b more (next b (extend more r)) (some (consume r))
  end-ResumesTo p wait =
      let same : (consume r).state ≡ r.state = consume_state r in
      let plain : is_plain (consume r).state ≡ true = ap is_plain same ∙ p in
      let left = next-plain (extend more (consume r)) plain in
      let right = next-plain (extend more r) p in
      ap settled (
        left
        ∙ ap (λ s. read_token b (next_fuel b 1) s (consume (extend more (consume r)))) same
        ∙ ap (read_token b (next_fuel b 1) r.state) (consume-consume more r)
        ∙ sym right)

  unread_dispatch :
      (s : State) (q : Request)
      → q.idx < length q.ibuffer
      → read_token b (next_fuel b 1) s q ≡ dispatch b (next_fuel b 1) s q
  unfolding read_token
  unread_dispatch s q lt = ground arith

  case-ResumesTo :
      Inv r
      → is_plain r.state ≡ true
      → ((consume r).idx == length (consume r).ibuffer) ≡ false
      → ResumesTo b more (next b (extend more r)) (dispatch b (next_fuel b 1) r.state (consume r))
  case-ResumesTo h p some_left =
      let ready = Ready-consume r h some_left in
      let longer = extend-has_byte more (consume r) ready.has_byte in
      let there : next b (extend more r)
          ≡ dispatch b (next_fuel b 1) r.state (extend more (consume r)) =
        next-plain (extend more r) p
        ∙ ap (read_token b (next_fuel b 1) r.state) (consume-extend more r)
        ∙ unread_dispatch r.state (extend more (consume r)) longer in
      subst (λ o. ResumesTo b more o (dispatch b (next_fuel b 1) r.state (consume r))) (sym there)
        (dispatch-ResumesTo b more r.state (consume r) p ready (consume_state r))

  plain-ResumesTo :
      Inv r → is_plain r.state ≡ true → ResumesTo b more (next b (extend more r)) (next b r)
  plain-ResumesTo h p =
      subst (ResumesTo b more (next b (extend more r))) (sym (next-plain r p))
        (elim (Bool-cases ((consume r).idx == length (consume r).ibuffer)) [
          | inl end ↦ unfold read_token in rw end (end-ResumesTo p)
          | inr some_left ↦ unfold read_token in rw some_left (case-ResumesTo h p some_left)
        ])

  special-ResumesTo :
      (s : State)
      → r.state ≡ s
      → is_plain s ≡ false
      → ResumesTo b more (next b (extend more r)) (next_in b (next_fuel b 1) s r)
  unfolding next_in
  special-ResumesTo errored e p = λ wait. refl
  special-ResumesTo expect_end_of_body e p = λ wait. cc
  special-ResumesTo expect_end_of_message e p = λ wait. cc
  special-ResumesTo _ e p = cc

  next-next_in : next_in b (next_fuel b 1) r.state r ≡ next b r
  unfolding next next_fuel
  next-next_in = refl

  -- `next` may as well have had the longer buffer from the beginning.
  next-ResumesTo : Inv r → ResumesTo b more (next b (extend more r)) (next b r)
  next-ResumesTo h = elim (Bool-cases (is_plain r.state)) [
    | inl p ↦ plain-ResumesTo h p
    | inr p ↦
        subst (ResumesTo b more (next b (extend more r))) next-next_in
          (special-ResumesTo r.state refl p)
  ]

-- From a reader that satisfies the invariant, when `next` has returned for want of more data:
-- `next` on what it returned, with more bytes behind the buffer, gives what it would have given at
-- once on that longer buffer, up to the size of a token that is an error.
pub next_resumes :
    (b : Boost) (more : Bytes) (r r' : Request)
    → Inv r
    → next b r ≡ some r'
    → is_insufficient r'.code ≡ true
    → settled (next b (extend more r')) ≡ settled (next b (extend more r))
next_resumes b more r r' h e =
    subst (ResumesTo b more (next b (extend more r))) e (next-ResumesTo b more r h)
