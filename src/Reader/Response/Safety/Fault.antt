-- ===== src/Reader/Response/Safety/Fault.antt =====
-- When `response::next` faults: on an empty field value, and on nothing else.
use boost_http.Base.{
  ℕ, zero, suc, ◌==◌, true, false, Option, none, some, [], ◌∷◌, length, ◌≡◌, ◌⊎◌, refl, sym, ◌∙◌,
  arith, Bool-cases, inl, inr, get_elem?, Bytes,
}
use mathlib.Core.Path.{subst}
use boost_http.Header.{Boost, IsBoost}
use boost_http.Reader.Request
use boost_http.Reader.Response.State.{State, Response}
use boost_http.Reader.Response.Next.{
  consume, on_end_of_buffer, read_token, next_in, next_fuel, next,
}
use boost_http.Reader.Response.Mirror.{mirror_state, mirror, mirrored, is_shared}
use boost_http.Reader.Response.Mirror.Whole.{consume_unread, next-mirror}
use boost_http.Reader.Response.Safety.{is_plain, Inv, Returns}
use boost_http.Reader.Response.Safety.Total.{
  consume_state, consume-Inv, on_end_of_buffer-Inv, next_in_plain, is_shared-is_plain, shared-Inv,
  own-next,
}

-- The reader stands before the value of a field, and the value is empty.
abbrev pub EmptyValue : Response → Type 0
EmptyValue r = Request.Safety.Plain.EmptyValue (mirror r)

-- The end of the buffer, when the end of the connection is known.
shared_end-Inv :
    (b : Boost) (r : Response)
    → Inv r
    → is_shared r.state ≡ true
    → ((consume r).idx == length (consume r).ibuffer) ≡ true
    → Returns Inv (next b r)
unfolding next next_fuel read_token
shared_end-Inv b r h p end =
    let plain = is_shared-is_plain b r.state p in
    let kept =
      on_end_of_buffer-Inv (consume r) (consume-Inv r h plain) (consume_unread r) (ground arith) in
    subst (Returns Inv) (sym (next_in_plain b (next_fuel b 1) r.state r plain))
      (rw end (subst (λ s. Inv (on_end_of_buffer s (consume r))) (consume_state r) kept))

special-Inv :
    (b : Boost) (s : State) (r : Response)
    → Inv r
    → r.state ≡ s
    → is_plain s ≡ false
    → Returns Inv (next_in b (next_fuel b 1) s r)
unfolding next_in
special-Inv b State.errored r h e p = h
special-Inv b State.expect_end_of_body r h e p = ground arith
special-Inv b State.expect_end_of_message r h e p = ground arith
special-Inv b State.expect_end_of_connection_error r h e p = ground (arith, h)
special-Inv b _ r h e p = cc

pub next-Inv :
    (b : Boost) (r : Response) → IsBoost b → Inv r → ¬ EmptyValue r → Returns Inv (next b r)
next-Inv b r laws h ne = elim (Bool-cases (is_shared r.state)) [
  | inl shared ↦ elim (Bool-cases ((consume r).idx == length (consume r).ibuffer)) [
    | inl end ↦ shared_end-Inv b r h shared end
    | inr byte ↦ shared-Inv b r laws h ne shared (inl byte)
  ]
  | inr own ↦ elim (Bool-cases (is_plain r.state)) [
    | inl plain ↦ own-next b r h plain own
    | inr special ↦ unfold next next_fuel in special-Inv b r.state r h refl special
  ]
]

mirrored-none : (o : Option Response) → mirrored o ≡ none → o ≡ none
mirrored-none none e = refl
mirrored-none (some r) e = cc

value_shared :
    (s : State)
    → (mirror_state s ≡ Request.State.expect_field_value)
      ⊎ (mirror_state s ≡ Request.State.expect_ows_after_colon)
    → is_shared s ≡ true
value_shared s h = ground arith

get_elem?-ne-end : (xs : Bytes) (i c : ℕ) → get_elem? xs i ≡ some c → (i == length xs) ≡ false
get_elem?-ne-end [] i c e = cc
get_elem?-ne-end (x ∷ xs) zero c e = ground arith
get_elem?-ne-end (x ∷ xs) (suc i) c e = let rest = get_elem?-ne-end xs i c e in ground arith

consume-place :
    (r : Response)
    → ((Request.Next.consume (mirror r)).idx ≡ (consume r).idx) × (r.ibuffer ≡ (consume r).ibuffer)
unfolding consume Request.Next.consume
consume-place r = (ground arith, ground arith)

EmptyValue-none : (b : Boost) (r : Response) → IsBoost b → Inv r → EmptyValue r → next b r ≡ none
EmptyValue-none b r laws h empty =
    let place = consume-place r in
    let byte : ((consume r).idx == length (consume r).ibuffer) ≡ false =
      rw (sym place.0, sym place.1)
        (get_elem?-ne-end r.ibuffer (Request.Next.consume (mirror r)).idx empty.byte
          empty.stands) in
    mirrored-none (next b r) (
      next-mirror b r (value_shared r.state empty.at_value) (inl byte)
      ∙ (Request.Safety.Fault.next_safe b (mirror r) laws h.mirrors).0 empty)

-- From every response reader that satisfies the invariant, with the end of the connection known
-- or not, `next` is undefined when the value of a field is empty, and in every other case it
-- returns a response reader that satisfies the invariant again.
pub response_next_safe :
    (b : Boost) (r : Response)
    → IsBoost b
    → Inv r
    → (EmptyValue r → next b r ≡ none) × (¬ EmptyValue r → Returns Inv (next b r))
response_next_safe b r laws h = (EmptyValue-none b r laws h, next-Inv b r laws h)
