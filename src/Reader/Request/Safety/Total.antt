-- ===== src/Reader/Request/Safety/Total.antt =====
-- `next` from any state, unless the value of a field is empty.
use boost_http.Base.{
  ℕ, suc, ◌<◌, true, false, some, ◌∷◌, length, ◌≡◌, refl, ◌∙◌, arith, ◌==◌, Bool-cases, inl, inr,
  get_elem?, get_elem?_of_lt, drop-get_elem?, drop, span, Bytes,
}
use boost_http.Header.{Boost, IsBoost}
use boost_http.Syntax.Chars.{is_field_value_char}
use boost_http.Syntax.Match.{match_field_value}
use boost_http.Reader.Request.State.{
  State, errored, expect_ows_after_colon, expect_field_value, expect_end_of_body,
  expect_end_of_message, Request,
}
use boost_http.Reader.Request.Next.{consume, read_token, next_in, next_fuel, next}
use boost_http.Reader.Request.Safety.{Inv, Returns}
use boost_http.Reader.Request.Safety.Plain.{
  is_plain, EmptyValue, Ready-consume, consume_state, consume_ibuffer, consume-Inv, next_in_plain,
}
use boost_http.Reader.Request.Safety.Dispatch.{HasValue, dispatch-Inv}

-- A value of no bytes, with a byte in its place.
no_value_byte :
    (b : Bytes) (i : ℕ)
    → i < length b
    → match_field_value (drop i b) ≡ 0
    → (c : ℕ) × (get_elem? b i ≡ some c) × (is_field_value_char c ≡ false)
unfolding match_field_value span
no_value_byte b i h e =
    let (c, at) = get_elem?_of_lt b i h in
    let none_read : span is_field_value_char (c ∷ drop (suc i) b) ≡ 0 =
      rw (drop-get_elem? b i at) at e in
    (c, at, ground (arith, none_read))

EmptyValue-HasValue :
    (b : Boost) (laws : IsBoost b) (f : ℕ) (r : Request) (s : State)
    → r.state ≡ s
    → (consume r).idx < length (consume r).ibuffer
    → (EmptyValue r → ⊥)
    → HasValue b laws f s (consume r)
EmptyValue-HasValue b laws f r expect_field_value e h ne = λ empty.
    let (c, at, bad) = no_value_byte (consume r).ibuffer (consume r).idx h empty in
    ne (record { at_value = inl e; byte = c; stands = rw consume_ibuffer at at; no_value = bad })
EmptyValue-HasValue b laws f r expect_ows_after_colon e h ne = λ none_left empty.
    let (c, at, bad) = no_value_byte (consume r).ibuffer (consume r).idx h empty in
    ne (record { at_value = inr e; byte = c; stands = rw consume_ibuffer at at; no_value = bad })
EmptyValue-HasValue b laws f r _ e h ne = tt

plain-Inv :
    (b : Boost) (r : Request) (s : State)
    → IsBoost b
    → Inv r
    → (EmptyValue r → ⊥)
    → is_plain s ≡ true
    → r.state ≡ s
    → Returns Inv (next_in b (next_fuel b 1) s r)
plain-Inv b r s laws h ne p e =
    rw (next_in_plain b (next_fuel b 1) s r p)
      (elim (Bool-cases ((consume r).idx == length (consume r).ibuffer)) [
        | inl end ↦ unfold read_token in rw end (consume-Inv r h)
        | inr more ↦
            let ready = Ready-consume r h more in
            unfold read_token in
            rw more (
              dispatch-Inv b laws 0 s (consume r) p ready (consume_state r ∙ e)
                (EmptyValue-HasValue b laws 0 r s e ready.has_byte ne))
      ])

pub next-Inv :
    (b : Boost) (r : Request) → IsBoost b → Inv r → (EmptyValue r → ⊥) → Returns Inv (next b r)
unfolding next next_fuel
next-Inv b r laws h ne = go r.state refl
  where
    go : (s : State) → r.state ≡ s → Returns Inv (next_in b (next_fuel b 1) s r)
    go errored e = unfold next_in in h
    go expect_end_of_body e = unfold next_in in ground arith
    go expect_end_of_message e = unfold next_in in ground arith
    go s e = plain-Inv b r _ laws h ne refl e
