-- ===== src/Reader/Request/RoundTrip/Bodies.antt =====
-- The tokens of the end of the headers, of the body and of the end of a message.
use boost_http.Base.{
  ℕ, suc, false, if◌then◌else◌, some, List, [], ◌∷◌, ◌++◌, ◌≡◌, refl, length, Bytes, arith, ◌==◌,
}
use boost_http.Header.{Boost, IsBoost}
use boost_http.Reader.Request.State.{State, BodyType, Request}
use boost_http.Reader.Request.RoundTrip.{
  Body, no_content, sized, chunked, Item, length_field, chunked_field, print_line_end, print_fields,
  print_chunks, print_body, content_items, body_items, content_calls, body_calls,
}
use boost_http.Reader.Request.RoundTrip.Cursor.{Frame, At}
use boost_http.Reader.Request.RoundTrip.Fields.{WantsHosts}
use boost_http.Reader.Request.RoundTrip.Ends.{
  body_state, headers_end_Reads, body_end_Reads, message_end_Reads,
}
use boost_http.Reader.Request.RoundTrip.Framing.{
  IsDecimal, length_field-IsField, chunked_field-IsField, length_SeesName, chunked_SeesName,
  chunked_SeesValue, length_SeesValue,
}
use boost_http.Reader.Request.RoundTrip.Content.{body_Reads}
use boost_http.Reader.Request.RoundTrip.Chunks.{AllChunks, chunks_then}
use boost_http.Reader.Request.RoundTrip.Trailers.{AllFields, trailers_then}
use boost_http.Reader.Request.RoundTrip.Chain.{ReadsAll, reads_then, Continues, field_then}

-- The digits of a size, in the field or before a chunk, denote the number of bytes, and a chunk has
-- some.
abbrev pub IsBody : Body → Type 0
IsBody no_content = Unit {0}
IsBody (sized digits content) = IsDecimal digits (length content)
IsBody (chunked ks ts) = AllChunks ks × AllFields ts

module _ (b : Boost) (laws : IsBoost b) (n : ℕ) (items : List Item) (ahead rest : Bytes)
    (k : (v : Frame)
      → v.body_type ≡ BodyType.no_body
      → Continues b State.expect_method v ahead n items rest) where
  -- The end of a body that is not chunked, and of the message.
  ends_then :
      (v : Frame) (r : Request)
      → At State.expect_end_of_body v ahead r
      → ReadsAll b (suc (suc n)) r (Item.end_of_body ∷ Item.end_of_message ∷ items) rest
  ends_then v r h =
      let body = body_end_Reads b v ahead r h in
      let message = message_end_Reads b v ahead body.after body.at in
      reads_then body (
        reads_then message
          (k (record v { body_type = BodyType.no_body }) refl message.after message.at))

  content_then :
      (content : Bytes) (v : Frame) (s : State) (r : Request)
      → v.body_size ≡ length content
      → body_state BodyType.content_length_read (length content) ≡ some s
      → At s v (content ++ ahead) r
      → ReadsAll b
          (content_calls content (suc (suc n)))
          r
          (content_items content (Item.end_of_body ∷ Item.end_of_message ∷ items))
          rest
  content_then [] v s r counted choice h =
      let at_end : s ≡ State.expect_end_of_body = cc in ends_then v r (rw at_end at h)
  content_then (c ∷ cs) v s r counted choice h =
      let filled : (suc (length cs) == 0) ≡ false = ground arith in
      let at_body : s ≡ State.expect_body = (let e = rw filled at choice in cc) in
      let bytes = body_Reads b v (c ∷ cs) ahead r (omega arith) counted (rw at_body at h) in
      reads_then bytes (ends_then (record v { body_size = 0 }) bytes.after bytes.at)

  -- The field that frames the body, the end of the headers, and the body.
  pub body_then :
      (body : Body) (v : Frame) (r : Request)
      → IsBody body
      → WantsHosts v.version 0
      → v.body_type ≡ BodyType.no_body
      → At State.expect_field_name v (print_body body ahead) r
      → ReadsAll b (body_calls body n) r (body_items body items) rest
  body_then no_content v r fine wants bodiless h =
      let headers =
        headers_end_Reads b v State.expect_end_of_body ahead r wants (rw bodiless refl) h in
      reads_then headers (ends_then v headers.after headers.at)
  body_then (sized digits content) v r fine wants bodiless h =
      let framed = record v {
        body_type = BodyType.content_length_read;
        body_size = length content;
      } in
      field_then b (length_field digits) v
        (record v { body_type = BodyType.reading_content_length }) framed _ _
        (print_line_end (content ++ ahead)) rest r
        (length_field-IsField digits (length content) fine)
        (length_SeesName b laws digits v bodiless)
        (length_SeesValue b digits (length content) _ fine refl) h
        (λ q at.
          let headers =
            headers_end_Reads b framed
              (if length content == 0 then State.expect_end_of_body else State.expect_body)
              (content ++ ahead) q wants refl at in
          reads_then headers (content_then content framed _ headers.after refl refl headers.at))
  body_then (chunked ks ts) v r (chunks, trailers) wants bodiless h =
      let framed = record v { body_type = BodyType.chunked_encoding_read } in
      let more = print_chunks ks (print_fields ts (print_line_end ahead)) in
      field_then b chunked_field v (record v { body_type = BodyType.reading_encoding }) framed _ _
        (print_line_end more) rest r chunked_field-IsField (chunked_SeesName b laws v bodiless)
        (chunked_SeesValue b laws _ refl) h
        (λ q at.
          let headers = headers_end_Reads b framed State.expect_chunk_size more q wants refl at in
          reads_then headers (
            chunks_then b ks framed _ _ (print_fields ts (print_line_end ahead)) rest headers.after
              chunks headers.at
              (λ p at'.
                trailers_then b ts _ n items ahead rest p trailers at'
                  (k (record framed { body_type = BodyType.no_body; body_size = 0 }) refl))))
