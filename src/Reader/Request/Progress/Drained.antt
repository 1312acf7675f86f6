-- ===== src/Reader/Request/Progress/Drained.antt =====
-- How the loop of a client ends on one buffer.
use boost_http.Base.{
  Option-cases, Bool-cases, inl, inr, ◌+◌, ◌*◌, Option, none, some, ◌≡◌, ◌⊎◌, refl, arith,
  get_elem?,
}
use boost_http.Header.{Boost, IsBoost}
use boost_http.Syntax.Chars.{is_field_value_char}
use boost_http.Reader.Loop.{Reads, Ends, measure-Ends}
use boost_http.Reader.Request.State.{State, expect_field_value, expect_ows_after_colon, Request}
use boost_http.Reader.Request.Next.{consume, next}
use boost_http.Reader.Request.Safety.{Inv, Returns}
use boost_http.Reader.Request.Safety.Plain.{EmptyValue}
use boost_http.Reader.Request.Safety.Total.{next-Inv}
use boost_http.Reader.Request.Progress.{is_over}
use boost_http.Reader.Request.Progress.Loop.{unread, measure, rank-le, next-measure}

value_state :
    (s : State)
    → ((s ≡ expect_field_value) ⊎ (s ≡ expect_ows_after_colon))
      ⊎ ¬ ((s ≡ expect_field_value) ⊎ (s ≡ expect_ows_after_colon))
value_state expect_field_value = inl (inl refl)
value_state expect_ows_after_colon = inl (inr refl)
value_state s = inr (λ h. elim h [ inl e ↦ cc | inr e ↦ cc ])

pub EmptyValue-cases : (r : Request) → EmptyValue r ⊎ ¬ EmptyValue r
EmptyValue-cases r = elim (value_state r.state) [
  | inr other ↦ inr (λ h. other h.at_value)
  | inl here ↦ elim (Option-cases (get_elem? r.ibuffer (consume r).idx)) [
    | inl out ↦ inr (λ h. let at = h.stands in cc)
    | inr (c, at) ↦ elim (Bool-cases (is_field_value_char c)) [
      | inl good ↦ inr (λ h. let at' = h.stands in let bad = h.no_value in ground arith)
      | inr bad ↦ inl (record { at_value = here; byte = c; stands = at; no_value = bad })
    ]
  ]
]

pub returned : (o : Option Request) → Returns Inv o → (r : Request) × (o ≡ some r) × Inv r
returned none h = absurd h
returned (some r) h = (r, refl, h)

abbrev pub request_reads : (b : Boost) → IsBoost b → Reads Request
request_reads b laws = record {
  next = next b;
  is_over = is_over;
  Good = Inv;
  Stuck = EmptyValue;
  measure = measure;
  stuck_or_not = EmptyValue-cases;
  next_returns = λ r h ne. returned (next b r) (next-Inv b r laws h ne);
  next_less = next-measure b;
}

-- From a reader that satisfies the invariant, with `unread r` bytes of its buffer behind the
-- token, calling `next` until it holds an error, wants more data or stands before an empty field
-- value ends in at most `4 * unread r + 4` calls, with a reader that satisfies the invariant.
pub next-Ends :
    (b : Boost) (r : Request) (laws : IsBoost b)
    → Inv r
    → Ends (request_reads b laws) (4 * unread r + 4) r
next-Ends b r laws h =
    let le = rank-le r.state in
    measure-Ends (request_reads b laws) (4 * unread r + 4) r h (omega arith)
