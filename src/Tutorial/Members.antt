-- ===== src/Tutorial/Members.antt =====
-- The fields, the body and the trailers of a printed request, as on_socket_callback gathers them
-- (doc/parsing_tutorial1h.cpp).
use boost_http.Base.{true, false, List, [], ◌∷◌, ◌≡◌, refl, ap, ◌∙◌, Bytes, map, if◌then◌else◌}
use boost_http.Base.Multimap.{insert, insert_all}
use boost_http.Reader.Request.RoundTrip.{
  Field, Chunk, Body, no_content, sized, chunked, Item, length_field, chunked_field, field_items,
  trailer_items, chunk_items, content_items, body_items,
}
use boost_http.Tutorial.{Consumer, emplace}
use boost_http.Tutorial.Items.{gather}

abbrev pub pairs : List Field → List (Bytes × Bytes)
pairs = map (λ f. (f.name, f.value))

-- The field that frames a body, and its trailers.
abbrev pub framing_fields : Body → List Field
framing_fields no_content = []
framing_fields (sized digits content) = length_field digits ∷ []
framing_fields (chunked ks ts) = chunked_field ∷ []

abbrev pub trailer_fields : Body → List Field
trailer_fields (chunked ks ts) = ts
trailer_fields _ = []

pub gather-field_items :
    (fs : List Field) (more : List Item) (c : Consumer)
    → c.use_trailers ≡ false
    → (l : Bytes) × (gather (field_items fs more) c
        ≡ gather more (record c { headers = insert_all c.headers (pairs fs); last_header = l }))
gather-field_items [] more c e = (c.last_header, refl)
gather-field_items (f ∷ fs) more c e =
    let named = record c { last_header = f.name } in
    let placed = record named { headers = insert (f.name, f.value) c.headers } in
    let put : emplace named f.value ≡ placed =
      ap
        (λ t. if t then record named { trailers = insert (f.name, f.value) c.trailers } else placed)
        e in
    let (l, rest) = gather-field_items fs more placed e in
    (l, ap (gather (field_items fs more)) put ∙ rest)

gather-trailer_items :
    (fs : List Field) (more : List Item) (c : Consumer)
    → c.use_trailers ≡ true
    → (l : Bytes) × (gather (trailer_items fs more) c
        ≡ gather more (record c { trailers = insert_all c.trailers (pairs fs); last_header = l }))
gather-trailer_items [] more c e = (c.last_header, refl)
gather-trailer_items (f ∷ fs) more c e =
    let named = record c { last_header = f.name } in
    let placed = record named { trailers = insert (f.name, f.value) c.trailers } in
    let put : emplace named f.value ≡ placed =
      ap (λ t. if t then placed else record named { headers = insert (f.name, f.value) c.headers })
        e in
    let (l, rest) = gather-trailer_items fs more placed e in
    (l, ap (gather (trailer_items fs more)) put ∙ rest)

gather-content_items :
    (content : Bytes) (more : List Item) (c : Consumer)
    → gather (content_items content more) c ≡ gather more c
gather-content_items [] more c = refl
gather-content_items (x ∷ xs) more c = refl

gather-chunk_items :
    (ks : List Chunk) (more : List Item) (c : Consumer)
    → gather (chunk_items ks more) c ≡ gather more c
gather-chunk_items [] more c = refl
gather-chunk_items (k ∷ ks) more c = gather-chunk_items ks more c

pub gather-body_items :
    (body : Body) (c : Consumer)
    → c.use_trailers ≡ false
    → (l : Bytes) × (gather (body_items body []) c ≡ record c {
      use_trailers = true;
      headers = insert_all c.headers (pairs (framing_fields body));
      trailers = insert_all c.trailers (pairs (trailer_fields body));
      last_header = l;
    })
gather-body_items no_content c e = (c.last_header, refl)
gather-body_items (sized digits content) c e =
    let more = content_items content (Item.end_of_body ∷ Item.end_of_message ∷ []) in
    let (l, first) =
      gather-field_items (length_field digits ∷ []) (Item.end_of_headers ∷ more) c e in
    (l, first ∙ gather-content_items content (Item.end_of_body ∷ Item.end_of_message ∷ []) _)
gather-body_items (chunked ks ts) c e =
    let ends = trailer_items ts (Item.end_of_message ∷ []) in
    let (l, first) =
      gather-field_items (chunked_field ∷ []) (Item.end_of_headers ∷ chunk_items ks ends) c e in
    let c1 = record c {
      use_trailers = true;
      headers = insert_all c.headers (pairs (chunked_field ∷ []));
      last_header = l;
    } in
    let (l', second) = gather-trailer_items ts (Item.end_of_message ∷ []) c1 refl in
    (l', first ∙ gather-chunk_items ks ends c1 ∙ second)
