-- ===== src/Reader/Request/Safety/Plain.antt =====
-- A call of `next` in a state of the second switch, and the reader that it starts from.
use boost_http.Base.{
  ℕ, suc, ◌<◌, Bool, true, false, Option, some, length, ◌≡◌, ◌≢◌, ◌⊎◌, refl, ◌∙◌, ap, arith, ◌==◌,
  get_elem?,
}
use boost_http.Token.{Code}
use boost_http.Header.{Boost}
use boost_http.Syntax.Chars.{is_field_value_char}
use boost_http.Reader.Request.State.{
  State, errored, expect_static_str_after_target, expect_ows_after_colon, expect_field_value,
  expect_end_of_body, expect_end_of_message, Request,
}
use boost_http.Reader.Request.Next.{dispatch, consume, read_token, next_in, next_fuel, next}
use boost_http.Reader.Request.Safety.{is_reading, awaits_value, Inv, Ready}

-- The states of the second switch.
abbrev pub is_plain : State → Bool
is_plain errored = false
is_plain expect_end_of_body = false
is_plain expect_end_of_message = false
is_plain _ = true

-- The reader stands before the value of a field, and the value is empty: the next byte cannot be
-- part of one.
pub record EmptyValue (r : Request) : Type 0 where
  pub at_value : (r.state ≡ expect_field_value) ⊎ (r.state ≡ expect_ows_after_colon)
  pub byte : ℕ
  pub stands : get_elem? r.ibuffer (consume r).idx ≡ some byte
  pub no_value : is_field_value_char byte ≡ false

pub Ready-consume :
    (r : Request)
    → Inv r
    → ((consume r).idx == length (consume r).ibuffer) ≡ false
    → Ready (consume r)
unfolding consume
Ready-consume r h e = ground (arith, h)

pub consume_unread : (r : Request) → (consume r).code ≡ Code.error_insufficient_data
unfolding consume
consume_unread r = ground arith

pub consume_fresh : (r : Request) → r.code ≡ Code.error_insufficient_data → consume r ≡ r
unfolding consume
consume_fresh r u = ground arith

pub consume_state : (r : Request) → (consume r).state ≡ r.state
unfolding consume
consume_state r = ground arith

pub consume_ibuffer : (r : Request) → (consume r).ibuffer ≡ r.ibuffer
unfolding consume
consume_ibuffer r = ground arith

pub consume-Inv : (r : Request) → Inv r → Inv (consume r)
unfolding consume
consume-Inv r h = ground (arith, h)

pub Ready-move :
    (r : Request) (s : State)
    → Ready r
    → (is_reading r.body_type ≡ true → awaits_value s ≡ true)
    → s ≢ expect_static_str_after_target
    → Ready (record r { state = s })
Ready-move r s h reads ne = ground (arith, h)

module _ (b : Boost) where
  pub next_in_plain :
      (next : Request → Option Request) (s : State) (r : Request)
      → is_plain s ≡ true
      → next_in b next s r ≡ read_token b next s (consume r)
  unfolding next_in
  next_in_plain next errored r p = cc
  next_in_plain next expect_end_of_body r p = cc
  next_in_plain next expect_end_of_message r p = cc
  next_in_plain next _ r p = refl

  -- A call of itself goes straight to its case.
  pub next_in-Ready :
      (next : Request → Option Request) (s : State) (r : Request)
      → is_plain s ≡ true
      → r.code ≡ Code.error_insufficient_data
      → r.idx < length r.ibuffer
      → next_in b next s r ≡ dispatch b next s r
  next_in-Ready next s r p c h =
      next_in_plain next s r p ∙ unfold read_token consume in ground arith

  pub next_fuel-Ready :
      (f : ℕ) (s : State) (r : Request)
      → is_plain s ≡ true
      → r.code ≡ Code.error_insufficient_data
      → r.idx < length r.ibuffer
      → r.state ≡ s
      → next_fuel b (suc f) r ≡ dispatch b (next_fuel b f) s r
  unfolding next_fuel
  next_fuel-Ready f s r p c h e =
      ap (λ t. next_in b (next_fuel b f) t r) e ∙ next_in-Ready (next_fuel b f) s r p c h
