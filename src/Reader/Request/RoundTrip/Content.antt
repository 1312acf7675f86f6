-- ===== src/Reader/Request/RoundTrip/Content.antt =====
-- The bytes of a body or of a chunk.
use boost_http.Base.{
  ◌-◌, ◌<◌, some, [], ◌∷◌, ◌++◌, ◌≡◌, refl, ap, length, min, Bytes, arith, length-append,
}
use boost_http.Token.{Code}
use boost_http.Header.{Boost}
use boost_http.Reader.Request.State.{State, Request}
use boost_http.Reader.Request.Value.{value_body_chunk}
use boost_http.Reader.Request.Body.{take_body, on_body, on_chunk_data}
use boost_http.Reader.Request.Next.{consume, dispatch}
use boost_http.Reader.Request.RoundTrip.{Item}
use boost_http.Reader.Request.RoundTrip.Cursor.{
  Frame, stamp, Stands, Reads, At, ahead_view, token_Reads,
}

-- The bytes of the body, all there, are one token.
take_body_run :
    (after : State) (v : Frame) (content rest : Bytes) (r : Request)
    → v.body_size ≡ length content
    → Stands v (content ++ rest) r
    → take_body after r
      ≡ stamp after Code.body_chunk (record v { body_size = 0 }) (length content) r
unfolding take_body
take_body_run after v content rest r sized h =
    let more = length-append content rest in
    let size : min (length (content ++ rest)) (length content) ≡ length content = ground arith in
    let left : length content - length content ≡ 0 = omega arith in
    rw (h.ahead, h.at_size, sized) (rw size (rw left (rw (← h.at_version, ← h.at_type) refl)))

module _ (b : Boost) (v : Frame) (content rest : Bytes) (r : Request) (filled : 0 < length content)
    (sized : v.body_size ≡ length content) where
  pub body_Reads :
      At State.expect_body v (content ++ rest) r
      → Reads b r
          (Item.body_chunk content ∷ [])
          State.expect_end_of_body
          (record v { body_size = 0 })
          rest
  unfolding dispatch on_body value_body_chunk
  body_Reads h =
      token_Reads b State.expect_body State.expect_end_of_body Code.body_chunk v
        (record v { body_size = 0 }) content rest r (Item.body_chunk content ∷ []) refl refl h
        filled
        (ap some (take_body_run State.expect_end_of_body v content rest (consume r) sized h.stands))
        (ap (λ w. some (Item.body_chunk w ∷ [])) (ahead_view content rest (consume r) h.stands))

  pub chunk_data_Reads :
      At State.expect_chunk_data v (content ++ rest) r
      → Reads b r
          (Item.body_chunk content ∷ [])
          State.expect_crlf_after_chunk_data
          (record v { body_size = 0 })
          rest
  unfolding dispatch on_chunk_data value_body_chunk
  chunk_data_Reads h =
      token_Reads b State.expect_chunk_data State.expect_crlf_after_chunk_data Code.body_chunk v
        (record v { body_size = 0 }) content rest r (Item.body_chunk content ∷ []) refl refl h
        filled
        (ap some (
          take_body_run State.expect_crlf_after_chunk_data v content rest (consume r) sized
            h.stands))
        (ap (λ w. some (Item.body_chunk w ∷ [])) (ahead_view content rest (consume r) h.stands))
