-- ===== src/Reader/Request/Safety/Fault.antt =====
-- When `next` faults: on an empty field value, and on nothing else.
use boost_http.Base.{
  ℕ, zero, suc, ◌<◌, false, none, some, [], ◌∷◌, length, ◌≡◌, ◌≢◌, refl, ◌∙◌, ap, arith, inl, inr,
  get_elem?, drop-get_elem?, drop, span, Bytes,
}
use boost_http.Header.{Boost, IsBoost}
use boost_http.Syntax.Chars.{is_field_value_char}
use boost_http.Syntax.Match.{match_field_value, match_ows}
use boost_http.FieldValue.{decode_field_value}
use boost_http.Reader.Request.State.{State, expect_ows_after_colon, expect_field_value, Request}
use boost_http.Reader.Request.Fields.{on_ows_after_colon, on_field_value}
use boost_http.Reader.Request.Next.{dispatch, consume, read_token, next_in, next_fuel, next}
use boost_http.Reader.Request.Value.{value_field_value}
use boost_http.Reader.Request.Safety.{Inv, Returns}
use boost_http.Reader.Request.Safety.Plain.{
  consume_unread, EmptyValue, consume_ibuffer, next_in_plain, next_fuel-Ready,
}
use boost_http.Reader.Request.Safety.Total.{next-Inv}

get_elem?-lt : (xs : Bytes) (i : ℕ) {c : ℕ} → get_elem? xs i ≡ some c → i < length xs
get_elem?-lt [] i e = cc
get_elem?-lt (x ∷ xs) zero e = omega arith
get_elem?-lt (x ∷ xs) (suc i) e = omega (arith, get_elem?-lt xs i e)

-- A byte that can be no part of a value ends both runs before their first byte.
no_run :
    (b : Bytes) (i : ℕ) {c : ℕ}
    → get_elem? b i ≡ some c
    → is_field_value_char c ≡ false
    → (match_field_value (drop i b) ≡ 0) × (match_ows (drop i b) ≡ 0)
unfolding match_field_value match_ows span is_field_value_char
no_run b i e bad = rw (drop-get_elem? b i e) (ground arith, ground arith)

on_field_value-none :
    (b : Boost) (r : Request) {c : ℕ}
    → get_elem? r.ibuffer r.idx ≡ some c
    → is_field_value_char c ≡ false
    → on_field_value b r ≡ none
unfolding on_field_value value_field_value decode_field_value
on_field_value-none b r e bad =
    let runs = no_run r.ibuffer r.idx e bad in
    let left : length (drop r.idx r.ibuffer) ≢ 0 =
      rw (drop-get_elem? r.ibuffer r.idx e) (λ z. omega arith) in
    rw runs.0 (ground arith)

module _ (b : Boost) (r : Request) {c : ℕ}
    (e : get_elem? (consume r).ibuffer (consume r).idx ≡ some c)
    (bad : is_field_value_char c ≡ false) where
  read_token-dispatch :
      (s : State)
      → read_token b (next_fuel b 1) s (consume r) ≡ dispatch b (next_fuel b 1) s (consume r)
  unfolding read_token
  read_token-dispatch s = ground (arith, get_elem?-lt (consume r).ibuffer (consume r).idx e)

  at_field_value : next_in b (next_fuel b 1) expect_field_value r ≡ none
  at_field_value =
      next_in_plain b (next_fuel b 1) expect_field_value r refl
      ∙ read_token-dispatch expect_field_value
      ∙ unfold dispatch in on_field_value-none b (consume r) e bad

  at_ows_after_colon : next_in b (next_fuel b 1) expect_ows_after_colon r ≡ none
  unfolding on_ows_after_colon dispatch
  at_ows_after_colon =
      next_in_plain b (next_fuel b 1) expect_ows_after_colon r refl
      ∙ read_token-dispatch expect_ows_after_colon
      ∙ let moved = record (consume r) { state = expect_field_value } in
        rw (no_run (consume r).ibuffer (consume r).idx e bad).1 (
          next_fuel-Ready b 0 expect_field_value moved refl (consume_unread r)
            (get_elem?-lt (consume r).ibuffer (consume r).idx e) refl
          ∙ on_field_value-none b moved e bad)

EmptyValue-none : (b : Boost) (r : Request) → EmptyValue r → next b r ≡ none
unfolding next next_fuel
EmptyValue-none b r h =
    let stands : get_elem? (consume r).ibuffer (consume r).idx ≡ some h.byte =
      rw consume_ibuffer h.stands in
    elim h.at_value [
      | inl e ↦ ap (λ s. next_in b (next_fuel b 1) s r) e ∙ at_field_value b r stands h.no_value
      | inr e ↦ ap (λ s. next_in b (next_fuel b 1) s r) e ∙ at_ows_after_colon b r stands h.no_value
    ]

-- From every request that satisfies the invariant, `next` is undefined when the value of a field
-- is empty, and in every other case it returns (no read out of bounds, no failed assertion,
-- no unreachable branch, no third call of itself) a request that satisfies the invariant again.
pub next_safe :
    (b : Boost) (r : Request)
    → IsBoost b
    → Inv r
    → (EmptyValue r → next b r ≡ none) × (¬ EmptyValue r → Returns Inv (next b r))
next_safe b r laws h = (EmptyValue-none b r, next-Inv b r laws h)
