-- ===== src/Tutorial/Printed.antt =====
-- A printed request, as on_socket_callback leaves it to the client (doc/parsing_tutorial1h.cpp).
use mathlib.Core.Path.{subst}
use boost_http.Base.{
  ℕ, suc, ◌≤◌, false, some, List, [], ◌∷◌, ◌++◌, ◌≡◌, refl, sym, ap, ◌∙◌, arith, Bytes,
}
use boost_http.Base.Int.{pos}
use boost_http.Token.{Code}
use boost_http.Header.{Boost, IsBoost}
use boost_http.Reader.Request.State.{Request}
use boost_http.Reader.Request.Next.{set_buffer}
use boost_http.Reader.Request.RoundTrip.{
  Field, Chunk, Body, no_content, sized, chunked, Head, Item, print_head, field_items,
  trailer_items, chunk_items, content_items, body_items, head_items, field_calls, body_calls,
  head_calls,
}
use boost_http.Reader.Request.RoundTrip.Pipeline.{
  IsPlainHead, AwaitsRequest, read_buffer_lem, read_buffer-print_heads,
}
use boost_http.Tutorial.{Consumer, returned, read_loop}
use boost_http.Base.Multimap.{Holds, insert_all, insert_all-Holds, insert_all-append}
use boost_http.Tutorial.Part.{set_buffer_waits}
use boost_http.Tutorial.Items.{gather, at_reader, IsMessage}
use boost_http.Tutorial.Members.{
  pairs, framing_fields, trailer_fields, gather-field_items, gather-body_items,
}
use boost_http.Tutorial.Gather.{read_tokens-FirstToken, read_loop-Gathers}

field_items-IsMessage :
    (fs : List Field) (more : List Item) → IsMessage more → IsMessage (field_items fs more)
field_items-IsMessage [] more m = m
field_items-IsMessage (f ∷ fs) more m = field_items-IsMessage fs more m

trailer_items-IsMessage :
    (fs : List Field) (more : List Item) → IsMessage more → IsMessage (trailer_items fs more)
trailer_items-IsMessage [] more m = m
trailer_items-IsMessage (f ∷ fs) more m = trailer_items-IsMessage fs more m

chunk_items-IsMessage :
    (ks : List Chunk) (more : List Item) → IsMessage more → IsMessage (chunk_items ks more)
chunk_items-IsMessage [] more m = m
chunk_items-IsMessage (k ∷ ks) more m = chunk_items-IsMessage ks more m

content_items-IsMessage :
    (content : Bytes) (more : List Item) → IsMessage more → IsMessage (content_items content more)
content_items-IsMessage [] more m = m
content_items-IsMessage (x ∷ xs) more m = m

body_items-IsMessage : (body : Body) → IsMessage (body_items body [])
body_items-IsMessage no_content = refl
body_items-IsMessage (sized digits content) =
    content_items-IsMessage content (Item.end_of_body ∷ Item.end_of_message ∷ []) refl
body_items-IsMessage (chunked ks ts) =
    chunk_items-IsMessage ks (trailer_items ts (Item.end_of_message ∷ []))
      (trailer_items-IsMessage ts (Item.end_of_message ∷ []) refl)

-- What the client finds in the consumer.
pub record HasRequest (h : Head) (c : Consumer) : Type 0 where
  pub at_end : c.request_reader.code ≡ Code.end_of_message
  pub has_method : c.method ≡ h.method
  pub has_target : c.request_target ≡ h.target
  pub has_version : c.version ≡ pos h.minor
  pub has_headers : Holds (pairs h.fields ++ pairs (framing_fields h.body)) c.headers
  pub has_trailers : Holds (pairs (trailer_fields h.body)) c.trailers

gather-HasRequest :
    (h : Head) (c : Consumer) (r : Request)
    → r.code ≡ Code.end_of_message
    → HasRequest h (at_reader r (gather (head_items (h ∷ [])) c))
gather-HasRequest h c r e =
    let c1 = record c {
      use_trailers = false;
      headers = [];
      trailers = [];
      method = h.method;
      request_target = h.target;
      version = pos h.minor;
    } in
    let (l, fields) = gather-field_items h.fields (body_items h.body []) c1 refl in
    let c2 = record c1 { headers = insert_all [] (pairs h.fields); last_header = l } in
    let (l', body) = gather-body_items h.body c2 refl in
    subst (HasRequest h) (ap (at_reader r) (sym (fields ∙ body))) (record {
      at_end = e;
      has_method = refl;
      has_target = refl;
      has_version = refl;
      has_headers =
          subst (Holds (pairs h.fields ++ pairs (framing_fields h.body)))
            (insert_all-append (pairs h.fields) (pairs (framing_fields h.body)) [])
            (insert_all-Holds (pairs h.fields ++ pairs (framing_fields h.body)));
      has_trailers = insert_all-Holds (pairs (trailer_fields h.body));
    })

-- A printed request, with or without a body, and any bytes behind it, given to a consumer whose
-- reader awaits a request: `set_buffer` returns, and then the `while` loop, in at most as many rounds
-- as the request takes calls of `next`, stands at the end of the message, and the consumer has the
-- method, the target and the version that were printed, and as headers and as trailers the multimaps
-- of the printed fields and trailers: their keys ascend, and under each key are the values that were
-- printed with that name, in order and no others. The printed request is as for the round trip: its
-- words and names are nonempty and of their classes, each value is nonempty and has no white space at
-- its ends, no field but the one that frames the body is Transfer-Encoding or Content-Length, one is
-- Host unless the version is 1.0, and the sizes say the numbers of bytes. The Boost functions are as
-- documented.
pub read_loop-print_head :
    (b : Boost) (h : Head) (rest : Bytes) (c : Consumer) (fuel : ℕ)
    → IsBoost b
    → IsPlainHead b h
    → AwaitsRequest c.request_reader
    → head_calls (h ∷ []) ≤ fuel
    → (r : Request) × (n : ℕ) × (c' : Consumer) × (set_buffer b (print_head h rest) c.request_reader
        ≡ some r)
      × (read_loop b fuel (record c { buffer = print_head h rest; request_reader = r }) 0
          ≡ returned (c', n))
      × HasRequest h c'
read_loop-print_head b h rest c fuel laws plain w enough =
    let buffer = print_head h rest in
    let calls = suc (suc (suc (suc (suc (field_calls h.fields (body_calls h.body 0)))))) in
    let (last, gives, _, _) =
      read_buffer-print_heads b h [] rest c.request_reader laws (plain, tt) w in
    let first =
      read_tokens-FirstToken b calls (record c.request_reader { ibuffer = buffer; idx = 0 })
        (head_items (h ∷ [])) last
        (sym (read_buffer_lem b calls buffer c.request_reader w) ∙ gives) in
    let given = record c { buffer = buffer; request_reader = first.after } in
    let message : IsMessage (first.here ++ first.behind) =
      subst IsMessage first.parts
        (field_items-IsMessage h.fields (body_items h.body []) (body_items-IsMessage h.body)) in
    let (r, n, run, code) =
      read_loop-Gathers b calls fuel given 0 first.here first.behind last first.kept first.others
        message (omega arith) in
    (
      first.after,
      n,
      at_reader r (gather (first.here ++ first.behind) given),
      set_buffer_waits b buffer c.request_reader w.wants_data ∙ first.calls_next,
      run,
      subst (λ (t : List Item). HasRequest h (at_reader r (gather t given))) first.parts
          (gather-HasRequest h given r code),
    )
