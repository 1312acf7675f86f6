-- ===== src/Reader/Response/Safety/Total.antt =====
-- `response::next` as a whole: when it returns, and what it keeps.
use boost_http.Base.{
  ℕ, zero, suc, ◌<◌, ◌==◌, true, false, Option, none, some, length, ◌≡◌, refl, sym, ap, ◌∙◌, arith,
  Bool-cases, inl, inr,
}
use mathlib.Core.Path.{subst}
use boost_http.Token.{Code}
use boost_http.Header.{Boost, IsBoost}
use boost_http.Reader.Request
use boost_http.Reader.Response.State.{State, Response}
use boost_http.Reader.Response.Next.{
  dispatch, consume, end_connection, on_end_of_buffer, read_token, next_in, next_fuel, next,
}
use boost_http.Reader.Response.Mirror.{mirror, mirrored, is_shared}
use boost_http.Reader.Response.Mirror.Whole.{consume_fresh, consume_unread, InPlay, next-mirror}
use boost_http.Reader.Response.Safety.{is_plain, IsSound, Inv, Returns, Gives}
use boost_http.Reader.Response.Safety.Shared.{IsFresh, GivesFresh, shared-IsSound}
use boost_http.Reader.Response.Safety.Own.{
  Ready, on_version_static_str-Inv, on_version-Inv, on_sp_after_version-Inv, on_status_code-Inv,
  on_sp_after_status_code-Inv, on_reason_phrase-Inv, end_headers-Inv, on_unsafe_body-Inv,
  on_field_name-Inv,
}

pub Ready-consume :
    (r : Response)
    → Inv r
    → is_plain r.state ≡ true
    → ((consume r).idx == length (consume r).ibuffer) ≡ false
    → Ready (consume r)
unfolding consume
Ready-consume r h p e = ground (arith, h)

pub consume_state : (r : Response) → (consume r).state ≡ r.state
unfolding consume
consume_state r = ground arith

pub consume-Inv : (r : Response) → Inv r → is_plain r.state ≡ true → Inv (consume r)
unfolding consume
consume-Inv r h p = ground (arith, h)

-- Where the buffer ends.
pub on_end_of_buffer-Inv :
    (r : Response)
    → Inv r
    → r.code ≡ Code.error_insufficient_data
    → r.idx ≡ length r.ibuffer
    → Inv (on_end_of_buffer r.state r)
unfolding on_end_of_buffer end_connection
on_end_of_buffer-Inv r h u e = ground (arith, h)

on_end_of_buffer-IsSound :
    (s : State) (r : Response) → is_shared s ≡ true → IsFresh s r → IsSound (on_end_of_buffer s r)
unfolding on_end_of_buffer end_connection
on_end_of_buffer-IsSound s r p h =
    let u = h.unread in let e = h.at in let w = h.known in ground arith

module _ (b : Boost) where
  pub next_in_plain :
      (again : Response → Option Response) (s : State) (r : Response)
      → is_plain s ≡ true
      → next_in b again s r ≡ read_token b again s (consume r)
  unfolding next_in
  next_in_plain again State.errored r p = cc
  next_in_plain again State.expect_end_of_body r p = cc
  next_in_plain again State.expect_end_of_message r p = cc
  next_in_plain again State.expect_end_of_connection_error r p = cc
  next_in_plain again _ r p = refl

  pub is_shared-is_plain : (s : State) → is_shared s ≡ true → is_plain s ≡ true
  is_shared-is_plain s p = ground arith

  read_token-Gives :
      (again : Response → Option Response) (s : State) (r : Response)
      → GivesFresh again
      → is_shared s ≡ true
      → IsFresh s r
      → Gives (read_token b again s r)
  unfolding read_token
  read_token-Gives again s r k p h = elim (Bool-cases (r.idx == length r.ibuffer)) [
    | inl end ↦ rw end (on_end_of_buffer-IsSound s r p h)
    | inr more ↦ rw more (shared-IsSound again k b s r p h)
  ]

  next_fuel-GivesFresh : (f : ℕ) → GivesFresh (next_fuel b f)
  unfolding next_fuel
  next_fuel-GivesFresh zero s r h p = tt
  next_fuel-GivesFresh (suc f) s r h p =
      let here = read_token-Gives (next_fuel b f) s r (next_fuel-GivesFresh f) p h in
      subst Gives
        (sym (
          ap (λ t. next_in b (next_fuel b f) t r) h.at
          ∙ next_in_plain (next_fuel b f) s r (is_shared-is_plain s p)
          ∙ ap (read_token b (next_fuel b f) s) (consume_fresh r h.unread)))
        here

  shared-Gives : (r : Response) → Inv r → is_shared r.state ≡ true → Gives (next b r)
  unfolding next next_fuel
  shared-Gives r h p =
      let kept = consume-Inv r h (is_shared-is_plain r.state p) in
      let fresh : IsFresh r.state (consume r) = record {
        unread = consume_unread r;
        at = consume_state r;
        known = λ w. kept.sound.known (rw consume_state w);
      } in
      subst Gives (sym (next_in_plain (next_fuel b 1) r.state r (is_shared-is_plain r.state p)))
        (read_token-Gives (next_fuel b 1) r.state (consume r) (next_fuel-GivesFresh 1) p fresh)

  -- What the request reader's invariant and the response reader's own part make.
  both :
      (o : Option Response)
      → Request.Safety.Returns Request.Safety.Inv (mirrored o)
      → Gives o
      → Returns Inv o
  both none q s = q
  both (some r) q s = record { mirrors = q; sound = s }

  pub shared-Inv :
      (r : Response)
      → IsBoost b
      → Inv r
      → ¬ Request.Safety.Plain.EmptyValue (mirror r)
      → is_shared r.state ≡ true
      → InPlay (consume r)
      → Returns Inv (next b r)
  shared-Inv r laws h ne p play =
      both (next b r)
        (subst (Request.Safety.Returns Request.Safety.Inv) (sym (next-mirror b r p play))
          (Request.Safety.Total.next-Inv b (mirror r) laws h.mirrors ne))
        (shared-Gives r h p)

  -- A call of itself goes straight to its case.
  pub next_fuel-Ready :
      (f : ℕ) (s : State) (r : Response)
      → is_plain s ≡ true
      → r.code ≡ Code.error_insufficient_data
      → r.idx < length r.ibuffer
      → r.state ≡ s
      → next_fuel b (suc f) r ≡ dispatch b (next_fuel b f) s r
  unfolding next_fuel
  next_fuel-Ready f s r p u h e =
      ap (λ t. next_in b (next_fuel b f) t r) e
      ∙ next_in_plain (next_fuel b f) s r p
      ∙ unfold read_token consume in ground arith

  -- The cases that are not shared.
  own-Inv :
      (s : State) (r : Response)
      → is_plain s ≡ true
      → is_shared s ≡ false
      → Ready r
      → r.state ≡ s
      → Returns Inv (dispatch b (next_fuel b 1) s r)
  unfolding dispatch
  own-Inv State.expect_version_static_str r p q h e = on_version_static_str-Inv r h e
  own-Inv State.expect_version r p q h e = on_version-Inv r h e
  own-Inv State.expect_sp_after_version r p q h e = on_sp_after_version-Inv r h e
  own-Inv State.expect_status_code r p q h e = on_status_code-Inv r h e
  own-Inv State.expect_sp_after_status_code r p q h e = on_sp_after_status_code-Inv r h e
  own-Inv State.expect_reason_phrase r p q h e = on_reason_phrase-Inv r h e
  own-Inv State.expect_crlf_after_headers r p q h e = end_headers-Inv r h e
  own-Inv State.expect_unsafe_body r p q h e = on_unsafe_body-Inv r h e
  own-Inv State.expect_field_name r p q h e =
      let moved = record r { state = State.expect_crlf_after_headers } in
      let ready : Ready moved =
        let i = h.inv in
        let u = h.unread in
        record { inv = ground (arith, i); unread = h.unread; has_byte = h.has_byte } in
      on_field_name-Inv r h b (next_fuel b 1) e (
        subst (Returns Inv)
          (sym
            (next_fuel-Ready 0 State.expect_crlf_after_headers moved refl h.unread h.has_byte refl))
          (unfold dispatch in end_headers-Inv moved ready refl))
  own-Inv _ r p q h e = cc

  pub own-next :
      (r : Response)
      → Inv r
      → is_plain r.state ≡ true
      → is_shared r.state ≡ false
      → Returns Inv (next b r)
  unfolding next next_fuel
  own-next r h p q =
      let place = (consume r).idx == length (consume r).ibuffer in
      subst (Returns Inv) (sym (next_in_plain (next_fuel b 1) r.state r p)) (
        unfold read_token in
        elim (Bool-cases place) [
          | inl end ↦ rw end (
              let kept =
                on_end_of_buffer-Inv (consume r) (consume-Inv r h p) (consume_unread r)
                  (ground arith) in
              subst (λ s. Inv (on_end_of_buffer s (consume r))) (consume_state r) kept)
          | inr more ↦
              rw more (own-Inv r.state (consume r) p q (Ready-consume r h p more) (consume_state r))
        ])
