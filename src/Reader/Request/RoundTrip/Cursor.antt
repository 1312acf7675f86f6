-- ===== src/Reader/Request/RoundTrip/Cursor.antt =====
-- Where the reader stands in the printed bytes, and one call of `next` there.
use boost_http.Base.{
  ℕ, zero, suc, ◌+◌, ◌<◌, true, false, some, List, [], ◌∷◌, ◌++◌, ◌≡◌, refl, ap, sym, ◌∙◌, length,
  take, drop, get_elem?, Bytes, arith, length-append, length-drop, ◌==◌,
}
use boost_http.Token.{Code}
use boost_http.Header.{Boost}
use boost_http.Reader.Request.State.{State, Version, BodyType, Request}
use boost_http.Reader.Request.Next.{
  is_insufficient, consume, read_token, dispatch, next_in, next_fuel, next,
}
use boost_http.Reader.Request.Safety.Plain.{is_plain, next_in_plain}
use boost_http.Reader.Request.Resume.Pieces.{drop-drop}
use boost_http.Reader.Request.RoundTrip.{Item, item_of, read_tokens}

-- The members that frame the message.
pub record Frame : Type 0 where
  pub version : Version
  pub body_type : BodyType
  pub body_size : ℕ

abbrev pub stamp : State → Code → Frame → ℕ → Request → Request
stamp s c v n r = record r {
  version = v.version;
  body_type = v.body_type;
  body_size = v.body_size;
  state = s;
  code = c;
  token_size = n;
}

-- No token is being read, and `input` is ahead.
pub record Stands (v : Frame) (input : Bytes) (r : Request) : Type 0 where
  pub at_version : r.version ≡ v.version
  pub at_type : r.body_type ≡ v.body_type
  pub at_size : r.body_size ≡ v.body_size
  pub whole : r.token_size ≡ 0
  pub between : r.code ≡ Code.error_insufficient_data
  pub ahead : drop r.idx r.ibuffer ≡ input

-- So it is at the next call.
pub record At (s : State) (v : Frame) (input : Bytes) (r : Request) : Type 0 where
  pub in_state : r.state ≡ s
  pub stands : Stands v input (consume r)

pub drop-length : (xs ys : Bytes) → drop (length xs) (xs ++ ys) ≡ ys
drop-length [] ys = refl
drop-length (x ∷ xs) ys = drop-length xs ys

pub take-length : (xs ys : Bytes) → take (length xs) (xs ++ ys) ≡ xs
take-length [] ys = refl
take-length (x ∷ xs) ys = ap (◌∷◌ x) (take-length xs ys)

pub ahead_head : (xs : Bytes) (i x : ℕ) (ys : Bytes) → drop i xs ≡ x ∷ ys → get_elem? xs i ≡ some x
ahead_head [] zero x ys e = cc
ahead_head [] (suc i) x ys e = cc
ahead_head (c ∷ xs) zero x ys e = cc
ahead_head (c ∷ xs) (suc i) x ys e = ahead_head xs i x ys e

pub ahead_length :
    (xs : Bytes) (i : ℕ) (input : Bytes)
    → drop i xs ≡ input
    → 0 < length input
    → i + length input ≡ length xs
ahead_length xs i input e filled = omega (arith, ap length e, length-drop i xs)

pub stamp-At :
    (s : State) (c : Code) (v v' : Frame) (word rest : Bytes) (r : Request)
    → is_insufficient c ≡ false
    → Stands v (word ++ rest) r
    → At s v' rest (stamp s c v' (length word) r)
unfolding consume
stamp-At s c v v' word rest r kind h = record {
  in_state = refl;
  stands = rw kind (record {
    at_version = refl;
    at_type = refl;
    at_size = refl;
    whole = refl;
    between = refl;
    ahead =
        sym (drop-drop (length word) r.idx r.ibuffer)
        ∙ ap (drop (length word)) h.ahead
        ∙ drop-length word rest;
  });
}

-- What the views of such a token hold.
pub ahead_view :
    {v : Frame} (word rest : Bytes) (r : Request)
    → Stands v (word ++ rest) r
    → take (length word) (drop r.idx r.ibuffer) ≡ word
ahead_view word rest r h = ap (take (length word)) h.ahead ∙ take-length word rest

-- With a byte to read, the state decides.
next-dispatch :
    (b : Boost) (s : State) (v : Frame) (input : Bytes) (r : Request)
    → is_plain s ≡ true
    → 0 < length input
    → At s v input r
    → next b r ≡ dispatch b (next_fuel b 1) s (consume r)
unfolding next next_fuel read_token
next-dispatch b s v input r plain filled h =
    let fits = ahead_length (consume r).ibuffer (consume r).idx input h.stands.ahead filled in
    let more : ((consume r).idx == length (consume r).ibuffer) ≡ false = ground arith in
    ap (λ t. next_in b (next_fuel b 1) t r) h.in_state
    ∙ next_in_plain b (next_fuel b 1) s r plain
    ∙ rw more refl

-- A call of `next` gives the items, and the reader stands before `rest` then.
pub record Reads (b : Boost) (r : Request) (items : List Item) (s : State) (v : Frame)
    (rest : Bytes) : Type 0 where
  pub after : Request
  pub calls_next : next b r ≡ some after
  pub kept : item_of after.code after ≡ some items
  pub at : At s v rest after

-- So it is where the case of the state emits a token.
pub token_Reads :
    (b : Boost) (s s' : State) (c : Code) (v v' : Frame) (word rest : Bytes) (r : Request)
    (items : List Item)
    → is_plain s ≡ true
    → is_insufficient c ≡ false
    → At s v (word ++ rest) r
    → 0 < length word
    → dispatch b (next_fuel b 1) s (consume r) ≡ some (stamp s' c v' (length word) (consume r))
    → item_of c (stamp s' c v' (length word) (consume r)) ≡ some items
    → Reads b r items s' v' rest
token_Reads b s s' c v v' word rest r items plain kind h filled e kept = record {
  after = stamp s' c v' (length word) (consume r);
  calls_next =
      next-dispatch b s v (word ++ rest) r plain (omega (arith, length-append word rest)) h ∙ e;
  kept = kept;
  at = stamp-At s' c v v' word rest (consume r) kind h.stands;
}

-- One call of `next` more.
pub read_tokens_cons :
    (b : Boost) (n : ℕ) (r r1 r2 : Request) (here behind : List Item)
    → next b r ≡ some r1
    → item_of r1.code r1 ≡ some here
    → read_tokens b n r1 ≡ some (behind, r2)
    → read_tokens b (suc n) r ≡ some (here ++ behind, r2)
read_tokens_cons b n r r1 r2 here behind e i rest = rw (e, i, rest) refl
