-- ===== src/Tutorial/Items.antt =====
-- The items of a message, as on_socket_callback gathers them (doc/parsing_tutorial1h.cpp).
use boost_http.Base.{
  true, false, Option, none, some, List, [], ◌∷◌, ◌++◌, ◌>>=◌, ◌≡◌, refl, ap, ◌∙◌, arith,
}
use mathlib.Core.Path.{subst}
use boost_http.Token.{Code}
use boost_http.Reader.Request.State.{Request}
use boost_http.Reader.Request.Value.{
  value_method, value_request_target, value_version, value_field_name, value_field_value,
  value_body_chunk, value_trailer_name, value_trailer_value,
}
use boost_http.Reader.Request.RoundTrip.{Item, item_of}
use boost_http.Tutorial.{Consumer, Run, returned, emplace, see_token, is_end}

-- What an item does to the consumer.
abbrev pub add : Item → Consumer → Consumer
add (Item.method v) c = record c { use_trailers = false; headers = []; trailers = []; method = v }
add (Item.request_target v) c = record c { request_target = v }
add (Item.version v) c = record c { version = v }
add (Item.field_name v) c = record c { last_header = v }
add (Item.trailer_name v) c = record c { last_header = v }
add (Item.field_value v) c = emplace c v
add (Item.trailer_value v) c = emplace c v
add Item.end_of_headers c = record c { use_trailers = true }
add _ c = c

abbrev pub gather : List Item → Consumer → Consumer
gather [] c = c
gather (x ∷ xs) c = gather xs (add x c)

abbrev pub at_reader : Request → Consumer → Consumer
at_reader r c = record c { request_reader = r }

add-at_reader :
    (x : Item) (r : Request) (c : Consumer) → add x (at_reader r c) ≡ at_reader r (add x c)
add-at_reader x r c = ground arith

pub gather-at_reader :
    (xs : List Item) (r : Request) (c : Consumer)
    → gather xs (at_reader r c) ≡ at_reader r (gather xs c)
gather-at_reader [] r c = refl
gather-at_reader (x ∷ xs) r c =
    ap (gather xs) (add-at_reader x r c) ∙ gather-at_reader xs r (add x c)

add_keeps : (x : Item) (c : Consumer) → (add x c).request_reader ≡ c.request_reader
add_keeps x c = ground arith

pub gather_keeps : (xs : List Item) (c : Consumer) → (gather xs c).request_reader ≡ c.request_reader
gather_keeps [] c = refl
gather_keeps (x ∷ xs) c = gather_keeps xs (add x c) ∙ add_keeps x c

-- The end of a message is the last of the items, and no other.
abbrev pub IsMessage : List Item → Type 0
IsMessage [] = ⊥
IsMessage (Item.end_of_message ∷ xs) = xs ≡ []
IsMessage (x ∷ xs) = IsMessage xs

-- A value that a token holds, taken by the client and by the switch alike.
taken :
    {A : Type 0} (o : Option A) (f : A → Item) (c : Consumer) (here : List Item)
    (run : Run Consumer)
    → ((v : A) → o ≡ some v → run ≡ returned (add (f v) c))
    → (o >>= λ v. some (f v ∷ [])) ≡ some here
    → run ≡ returned (gather here c)
taken none f c here run k e = cc
taken (some v) f c here run k e =
    let same : f v ∷ [] ≡ here = cc in
    subst (λ (t : List Item). run ≡ returned (gather t c)) same (k v refl)

name_of_trailer :
    (r : Request) → r.code ≡ Code.trailer_name → value_field_name r ≡ value_trailer_name r
unfolding value_field_name value_trailer_name
name_of_trailer r e = rw e refl

value_of_trailer :
    (r : Request) → r.code ≡ Code.trailer_value → value_field_value r ≡ value_trailer_value r
unfolding value_field_value value_trailer_value
value_of_trailer r e = rw e refl

-- The switch adds the items of the token.
pub see_token-gather :
    (k : Code) (c : Consumer) (here : List Item)
    → c.request_reader.code ≡ k
    → item_of k c.request_reader ≡ some here
    → see_token k c ≡ returned (gather here c)
unfolding see_token
see_token-gather Code.method c here e i =
    taken (value_method c.request_reader) Item.method c here _ (λ v o. rw o refl) i
see_token-gather Code.request_target c here e i =
    taken (value_request_target c.request_reader) Item.request_target c here _ (λ v o. rw o refl) i
see_token-gather Code.version c here e i =
    taken (value_version c.request_reader) Item.version c here _ (λ v o. rw o refl) i
see_token-gather Code.field_name c here e i =
    taken (value_field_name c.request_reader) Item.field_name c here _ (λ v o. rw o refl) i
see_token-gather Code.field_value c here e i =
    taken (value_field_value c.request_reader) Item.field_value c here _ (λ v o. rw o refl) i
see_token-gather Code.trailer_name c here e i =
    taken (value_trailer_name c.request_reader) Item.trailer_name c here _
      (λ v o. rw (name_of_trailer c.request_reader e ∙ o) refl) i
see_token-gather Code.trailer_value c here e i =
    taken (value_trailer_value c.request_reader) Item.trailer_value c here _
      (λ v o. rw (value_of_trailer c.request_reader e ∙ o) refl) i
see_token-gather Code.body_chunk c here e i =
    taken (value_body_chunk c.request_reader) Item.body_chunk c here _ (λ v o. refl) i
see_token-gather Code.end_of_headers c here e i = ground arith
see_token-gather k c here e i = ground arith

-- A value is not the end of a message.
value_on :
    {A : Type 0} (o : Option A) (f : A → Item) (here behind : List Item)
    → ((v : A) (xs : List Item) → IsMessage (f v ∷ xs) → IsMessage xs)
    → (o >>= λ v. some (f v ∷ [])) ≡ some here
    → IsMessage (here ++ behind)
    → IsMessage behind
value_on none f here behind k e m = cc
value_on (some v) f here behind k e m =
    let same : here ≡ f v ∷ [] = cc in
    k v behind (subst (λ (t : List Item). IsMessage (t ++ behind)) same m)

-- A token that does not end the loop leaves the rest of a message.
pub item_on :
    (k : Code) (r : Request) (here behind : List Item)
    → item_of k r ≡ some here
    → is_end k ≡ false
    → IsMessage (here ++ behind)
    → IsMessage behind
item_on Code.method r here behind i e m =
    value_on (value_method r) Item.method here behind (λ v xs h. h) i m
item_on Code.request_target r here behind i e m =
    value_on (value_request_target r) Item.request_target here behind (λ v xs h. h) i m
item_on Code.version r here behind i e m =
    value_on (value_version r) Item.version here behind (λ v xs h. h) i m
item_on Code.field_name r here behind i e m =
    value_on (value_field_name r) Item.field_name here behind (λ v xs h. h) i m
item_on Code.field_value r here behind i e m =
    value_on (value_field_value r) Item.field_value here behind (λ v xs h. h) i m
item_on Code.trailer_name r here behind i e m =
    value_on (value_trailer_name r) Item.trailer_name here behind (λ v xs h. h) i m
item_on Code.trailer_value r here behind i e m =
    value_on (value_trailer_value r) Item.trailer_value here behind (λ v xs h. h) i m
item_on Code.body_chunk r here behind i e m =
    value_on (value_body_chunk r) Item.body_chunk here behind (λ v xs h. h) i m
item_on Code.end_of_headers r here behind i e m =
    value_on (some tt) (λ _. Item.end_of_headers) here behind (λ v xs h. h) i m
item_on Code.end_of_body r here behind i e m =
    value_on (some tt) (λ _. Item.end_of_body) here behind (λ v xs h. h) i m
item_on Code.skip r here behind i e m =
    let same : here ≡ [] = cc in subst (λ (t : List Item). IsMessage (t ++ behind)) same m
item_on k r here behind i e m = ground arith

-- One that does is the end of the message.
pub item_end :
    (k : Code) (r : Request) (here behind : List Item)
    → item_of k r ≡ some here
    → is_end k ≡ true
    → IsMessage (here ++ behind)
    → (k ≡ Code.end_of_message) × (here ++ behind ≡ Item.end_of_message ∷ [])
item_end Code.end_of_message r here behind i e m =
    let same : here ≡ Item.end_of_message ∷ [] = cc in
    let over : behind ≡ [] = subst (λ (t : List Item). IsMessage (t ++ behind)) same m in
    (refl, rw (same, over) refl)
item_end k r here behind i e m = ground arith
