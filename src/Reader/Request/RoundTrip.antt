-- ===== src/Reader/Request/RoundTrip.antt =====
-- Printed requests, one behind another, and the client that reads their tokens.
pub mod Cursor
pub mod Line
pub mod Fields
pub mod Ends
pub mod Chain
pub mod Framing
pub mod Content
pub mod Chunks
pub mod Trailers
pub mod Bodies
pub mod Pipeline
use boost_http.Base.{
  ℕ, zero, suc, ◌+◌, ◌<◌, true, false, Option, none, some, List, [], ◌∷◌, ◌++◌, ◌>>=◌, ◌≡◌, All,
  length, Bytes, if◌then◌else◌,
}
use boost_http.Base.Int.{ℤ, pos}
use boost_http.Token.{Code}
use boost_http.Abnf.{is_tchar, is_request_target_char, is_ows}
use boost_http.Syntax.Chars
use boost_http.Header.{Boost}
use boost_http.Reader.Request.State.{Request}
use boost_http.Reader.Request.Value.{
  value_method, value_request_target, value_version, value_field_name, value_field_value,
  value_body_chunk, value_trailer_name, value_trailer_value,
}
use boost_http.Reader.Request.StartLine.{static_str}
use boost_http.Reader.Request.Fields.{host, transfer_encoding, content_length}
use boost_http.Reader.Request.Next.{next, set_buffer}

pub record Field : Type 0 where
  pub name : Bytes
  pub value : Bytes

-- The size is in hexadecimal digits, and there is no extension.
pub record Chunk : Type 0 where
  pub size : Bytes
  pub content : Bytes

-- A sized body stands with the decimal digits of its Content-Length field, and a chunked one with
-- its trailers.
pub data Body : Type 0 where
  no_content : Body
  sized : Bytes → Bytes → Body
  chunked : List Chunk → List Field → Body

-- The request is of version 1.`minor`.
pub record Head : Type 0 where
  pub method : Bytes
  pub target : Bytes
  pub minor : ℕ
  pub fields : List Field
  pub body : Body

abbrev pub length_field : Bytes → Field
length_field digits = record { name = content_length; value = digits }

abbrev pub chunked_field : Field
chunked_field = record {
  name = transfer_encoding;
  value = b'c' ∷ b'h' ∷ b'u' ∷ b'n' ∷ b'k' ∷ b'e' ∷ b'd' ∷ [];
}

-- The last argument is what follows.
abbrev pub print_line_end : Bytes → Bytes
print_line_end rest = 0x0D ∷ 0x0A ∷ rest

abbrev pub print_field : Field → Bytes → Bytes
print_field f rest = f.name ++ b':' ∷ 0x20 ∷ (f.value ++ print_line_end rest)

abbrev pub print_fields : List Field → Bytes → Bytes
print_fields [] rest = rest
print_fields (f ∷ fs) rest = print_field f (print_fields fs rest)

abbrev pub print_chunks : List Chunk → Bytes → Bytes
print_chunks [] rest = b'0' ∷ print_line_end rest
print_chunks (k ∷ ks) rest =
    k.size ++ print_line_end (k.content ++ print_line_end (print_chunks ks rest))

-- The field that frames the body, the end of the headers, and the body.
abbrev pub print_body : Body → Bytes → Bytes
print_body no_content rest = print_line_end rest
print_body (sized digits content) rest =
    print_field (length_field digits) (print_line_end (content ++ rest))
print_body (chunked ks ts) rest =
    print_field chunked_field
      (print_line_end (print_chunks ks (print_fields ts (print_line_end rest))))

abbrev pub print_head : Head → Bytes → Bytes
print_head h rest =
    h.method
    ++ 0x20
      ∷ (h.target
          ++ (static_str
              ++ (b'0' + h.minor)
                ∷ print_line_end (print_fields h.fields (print_body h.body rest))))

abbrev pub print_heads : List Head → Bytes → Bytes
print_heads [] rest = rest
print_heads (h ∷ hs) rest = print_head h (print_heads hs rest)

-- What the client keeps of a token.
pub data Item : Type 0 where
  method request_target field_name field_value body_chunk : Bytes → Item
  trailer_name trailer_value : Bytes → Item
  version : ℤ → Item
  end_of_headers end_of_body end_of_message : Item

-- The items of a token; none for a token that the client does not expect.
abbrev pub item_of : Code → Request → Option (List Item)
item_of Code.method r = do v ← value_method r; some (Item.method v ∷ [])
item_of Code.request_target r = do v ← value_request_target r; some (Item.request_target v ∷ [])
item_of Code.version r = do v ← value_version r; some (Item.version v ∷ [])
item_of Code.field_name r = do v ← value_field_name r; some (Item.field_name v ∷ [])
item_of Code.field_value r = do v ← value_field_value r; some (Item.field_value v ∷ [])
item_of Code.body_chunk r = do v ← value_body_chunk r; some (Item.body_chunk v ∷ [])
item_of Code.trailer_name r = do v ← value_trailer_name r; some (Item.trailer_name v ∷ [])
item_of Code.trailer_value r = do v ← value_trailer_value r; some (Item.trailer_value v ∷ [])
item_of Code.end_of_headers r = some (Item.end_of_headers ∷ [])
item_of Code.end_of_body r = some (Item.end_of_body ∷ [])
item_of Code.end_of_message r = some (Item.end_of_message ∷ [])
item_of Code.skip r = some []
item_of _ r = none

-- A number of calls of `next`, with the items of their tokens.
abbrev pub read_tokens : Boost → ℕ → Request → Option (List Item × Request)
read_tokens b zero r = some ([], r)
read_tokens b (suc n) r = do
  r1 ← next b r
  here ← item_of r1.code r1
  (behind, r2) ← read_tokens b n r1
  some (here ++ behind, r2)

-- The same, where the first call of `next` is that of `set_buffer`.
abbrev pub read_buffer : Boost → ℕ → Bytes → Request → Option (List Item × Request)
read_buffer b zero buffer r = some ([], r)
read_buffer b (suc n) buffer r = do
  r1 ← set_buffer b buffer r
  here ← item_of r1.code r1
  (behind, r2) ← read_tokens b n r1
  some (here ++ behind, r2)

-- The items of printed requests, and the calls that it takes to read them.
abbrev pub field_items : List Field → List Item → List Item
field_items [] more = more
field_items (f ∷ fs) more = Item.field_name f.name ∷ Item.field_value f.value ∷ field_items fs more

abbrev pub trailer_items : List Field → List Item → List Item
trailer_items [] more = more
trailer_items (f ∷ fs) more =
    Item.trailer_name f.name ∷ Item.trailer_value f.value ∷ trailer_items fs more

abbrev pub chunk_items : List Chunk → List Item → List Item
chunk_items [] more = Item.end_of_body ∷ more
chunk_items (k ∷ ks) more = Item.body_chunk k.content ∷ chunk_items ks more

abbrev pub content_items : Bytes → List Item → List Item
content_items [] more = more
content_items (c ∷ cs) more = Item.body_chunk (c ∷ cs) ∷ more

abbrev pub body_items : Body → List Item → List Item
body_items no_content more = Item.end_of_headers ∷ Item.end_of_body ∷ Item.end_of_message ∷ more
body_items (sized digits content) more =
    field_items (length_field digits ∷ [])
      (Item.end_of_headers ∷ content_items content (Item.end_of_body ∷ Item.end_of_message ∷ more))
body_items (chunked ks ts) more =
    field_items (chunked_field ∷ [])
      (Item.end_of_headers ∷ chunk_items ks (trailer_items ts (Item.end_of_message ∷ more)))

abbrev pub head_items : List Head → List Item
head_items [] = []
head_items (h ∷ hs) =
    Item.method h.method
    ∷ Item.request_target h.target
    ∷ Item.version (pos h.minor)
    ∷ field_items h.fields (body_items h.body (head_items hs))

abbrev pub field_calls : List Field → ℕ → ℕ
field_calls [] more = more
field_calls (f ∷ fs) more = suc (suc (suc (suc (field_calls fs more))))

abbrev pub chunk_calls : List Chunk → ℕ → ℕ
chunk_calls [] more = suc (suc more)
chunk_calls (k ∷ ks) more = suc (suc (suc (suc (chunk_calls ks more))))

abbrev pub content_calls : Bytes → ℕ → ℕ
content_calls [] more = more
content_calls (c ∷ cs) more = suc more

abbrev pub body_calls : Body → ℕ → ℕ
body_calls no_content more = suc (suc (suc more))
body_calls (sized digits content) more =
    suc (suc (suc (suc (suc (content_calls content (suc (suc more)))))))
body_calls (chunked ks ts) more =
    suc (suc (suc (suc (suc (chunk_calls ks (field_calls ts (suc more)))))))

abbrev pub head_calls : List Head → ℕ
head_calls [] = 0
head_calls (h ∷ hs) =
    suc (suc (suc (suc (suc (suc (field_calls h.fields (body_calls h.body (head_calls hs))))))))

abbrev pub count_hosts : Boost → List Field → ℕ
count_hosts b [] = 0
count_hosts b (f ∷ fs) = if b.iequals f.name host then suc (count_hosts b fs) else count_hosts b fs
