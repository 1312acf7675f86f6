-- ===== src/Reader/Grammar.antt =====
-- The order of the tokens of a message (RFC 7230, 3), for requests and for responses.
use boost_http.Base.{List, [], ◌∷◌, Option, none, some, ◌≡◌, ◌⊎◌, refl, arith}
use boost_http.Token.{Code}

-- Where in a message a reader stands: what it has read last, or how the body ends.
pub data Phase : Type 0 where
  request_start method_read target_read : Phase
  response_start version_read status_read : Phase
  fields name_read : Phase
  sized_body chunked_body unsized_body no_more_body : Phase
  trailers trailer_name_read body_over : Phase
  stopped failed : Phase

-- The token may stand between the phases. A skipped part and the want of data change no phase.
abbrev pub Follows : Code → Phase → Phase → Type 0
Follows Code.method p q = (p ≡ Phase.request_start) × (q ≡ Phase.method_read)
Follows Code.request_target p q = (p ≡ Phase.method_read) × (q ≡ Phase.target_read)
Follows Code.version p q =
    ((p ≡ Phase.target_read) × (q ≡ Phase.fields))
    ⊎ ((p ≡ Phase.response_start) × (q ≡ Phase.version_read))
Follows Code.status_code p q = (p ≡ Phase.version_read) × (q ≡ Phase.status_read)
Follows Code.reason_phrase p q = (p ≡ Phase.status_read) × (q ≡ Phase.fields)
Follows Code.field_name p q = (p ≡ Phase.fields) × (q ≡ Phase.name_read)
Follows Code.field_value p q = (p ≡ Phase.name_read) × (q ≡ Phase.fields)
Follows Code.end_of_headers p q =
    (p ≡ Phase.fields)
    × ((q ≡ Phase.sized_body)
        ⊎ (q ≡ Phase.chunked_body)
        ⊎ (q ≡ Phase.unsized_body)
        ⊎ (q ≡ Phase.no_more_body))
Follows Code.body_chunk p q =
    ((p ≡ Phase.sized_body) × ((q ≡ Phase.sized_body) ⊎ (q ≡ Phase.no_more_body)))
    ⊎ ((p ≡ Phase.chunked_body) × (q ≡ Phase.chunked_body))
    ⊎ ((p ≡ Phase.unsized_body) × (q ≡ Phase.unsized_body))
Follows Code.chunk_ext p q = (p ≡ Phase.chunked_body) × (q ≡ Phase.chunked_body)
Follows Code.end_of_body p q =
    (((p ≡ Phase.no_more_body) ⊎ (p ≡ Phase.unsized_body)) × (q ≡ Phase.body_over))
    ⊎ ((p ≡ Phase.chunked_body) × (q ≡ Phase.trailers))
Follows Code.trailer_name p q = (p ≡ Phase.trailers) × (q ≡ Phase.trailer_name_read)
Follows Code.trailer_value p q = (p ≡ Phase.trailer_name_read) × (q ≡ Phase.trailers)
Follows Code.end_of_message p q =
    ((p ≡ Phase.body_over) ⊎ (p ≡ Phase.trailers))
    × ((q ≡ Phase.request_start) ⊎ (q ≡ Phase.response_start) ⊎ (q ≡ Phase.stopped))
Follows Code.skip p q = q ≡ p
Follows Code.error_insufficient_data p q = q ≡ p
Follows _ p q = q ≡ Phase.failed

-- The tokens may stand in this order from one phase to the other.
pub data Sentence : Phase → List Code → Phase → Type 0 where
  nothing : {p : Phase} → Sentence p [] p
  token :
      {p q s : Phase} {c : Code} {cs : List Code}
      → Follows c p q
      → Sentence q cs s
      → Sentence p (c ∷ cs) s

-- An error is the last word: what leads to the failed phase is an error, and may come again.
pub failed_again :
    (c : Code) (p q : Phase)
    → Follows c p q
    → q ≡ Phase.failed
    → Follows c Phase.failed Phase.failed
failed_again c p q h e = ground arith

-- What a client was told, and the reader in the end, unless a call was undefined.
module _ {R : Type 0} where
  abbrev pub tell : (R → Code) → Option R → (R → List Code × Option R) → List Code × Option R
  tell code none more = ([], none)
  tell code (some r) more = (code r ∷ (more r).0, (more r).1)

  abbrev pub pass : Option R → (R → List Code × Option R) → List Code × Option R
  pass none more = ([], none)
  pass (some r) more = more r

  -- The tokens may stand in this order from the phase to that of the reader in the end.
  abbrev pub Ordered : (R → Phase) → Phase → List Code × Option R → Type 0
  Ordered phase p (cs, none) = (q : Phase) × Sentence p cs q
  Ordered phase p (cs, some r) = Sentence p cs (phase r)

  abbrev pub Told : (R → Code) → (R → Phase) → Phase → Option R → Type 0
  Told code phase p none = Unit {0}
  Told code phase p (some r) = Follows (code r) p (phase r)

  token_Ordered :
      (phase : R → Phase) (c : Code) (p q : Phase) (t : List Code × Option R)
      → Follows c p q
      → Ordered phase q t
      → Ordered phase p (c ∷ t.0, t.1)
  token_Ordered phase c p q (cs, none) h (s, rest) = (s, token h rest)
  token_Ordered phase c p q (cs, some r) h rest = token h rest

  pub tell-Ordered :
      (code : R → Code) (phase : R → Phase) (p : Phase) (o : Option R)
      (more : R → List Code × Option R)
      → Told code phase p o
      → ((r : R) → o ≡ some r → Ordered phase (phase r) (more r))
      → Ordered phase p (tell code o more)
  tell-Ordered code phase p none more h k = (p, nothing)
  tell-Ordered code phase p (some r) more h k =
      token_Ordered phase (code r) p (phase r) (more r) h (k r refl)
