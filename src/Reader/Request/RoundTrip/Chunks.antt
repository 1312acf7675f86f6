-- ===== src/Reader/Request/RoundTrip/Chunks.antt =====
-- The tokens of a printed chunked body, up to its trailers.
use boost_http.Base.{
  ℕ, ◌+◌, ◌-◌, ◌<◌, ◌==◌, ltb, false, some, List, [], ◌∷◌, ◌++◌, ◌≡◌, refl, ◌∙◌, length, span_run,
  Bytes, arith, length-append,
}
use boost_http.Token.{Code}
use boost_http.Abnf.{is_chunk_ext_char}
use boost_http.Syntax.Chars
use boost_http.Syntax.Crlf.{match_strict}
use boost_http.Syntax.Match.{match_chunk_size}
use boost_http.Syntax.Digits.{ok, decode_chunk_size}
use boost_http.Syntax.Digits.ChunkSize.{hex_digit, decode_chunk_size-Decodes}
use boost_http.Header.{Boost}
use boost_http.Reader.Request.State.{State, Request, emit}
use boost_http.Reader.Request.Fields.{body_size_max}
use boost_http.Reader.Request.Body.{
  read_chunk_size, on_chunk_size, end_chunk_ext, stop_chunk_ext, on_chunk_ext, expect_strict_crlf,
  end_chunk_line, on_crlf_after_chunk_ext, on_crlf_after_chunk_data,
}
use boost_http.Reader.Request.Next.{consume, read_token, dispatch, next_in, next_fuel}
use boost_http.Reader.Request.RoundTrip.{
  Chunk, Item, print_line_end, print_chunks, chunk_items, chunk_calls,
}
use boost_http.Reader.Request.RoundTrip.Cursor.{
  Frame, stamp, Stands, Reads, At, ahead_head, ahead_length, take-length, token_Reads,
}
use boost_http.Reader.Request.RoundTrip.Line.{scan_run}
use boost_http.Reader.Request.RoundTrip.Framing.{IsNumeral, numeral_filled}
use boost_http.Reader.Request.RoundTrip.Content.{chunk_data_Reads}
use boost_http.Reader.Request.RoundTrip.Chain.{ReadsAll, reads_then, Continues}

abbrev pub IsHex : Bytes → ℕ → Type 0
IsHex = IsNumeral Chars.is_hexdigit hex_digit 16

-- What the digits decode to.
decodes_hex :
    (digits : Bytes) (n out : ℕ)
    → IsHex digits n
    → decode_chunk_size body_size_max digits out ≡ (ok, n)
decodes_hex digits n out d =
    let decoded =
      (decode_chunk_size-Decodes body_size_max digits out).0
        (numeral_filled Chars.is_hexdigit hex_digit 16 digits n d) in
    (rw d.denotes at decoded).0 d.fits

chunk_size_run :
    (v : Frame) (size rest : Bytes) (n : ℕ) (r : Request)
    → IsHex size n
    → Stands v (size ++ 0x0D ∷ rest) r
    → on_chunk_size r
      ≡ some (stamp State.expect_chunk_ext Code.skip (record v { body_size = n }) (length size) r)
unfolding on_chunk_size match_chunk_size read_chunk_size Chars.is_hexdigit
chunk_size_run v size rest n r d h =
    let run = span_run Chars.is_hexdigit size 0x0D rest d.all refl in
    let more = length-append size (0x0D ∷ rest) in
    let filled : 0 < length size = rw d.splits (omega arith) in
    let some_byte : (length size == 0) ≡ false = ground arith in
    let inside : (length size == length (size ++ 0x0D ∷ rest)) ≡ false = ground arith in
    rw h.ahead (
      rw run (
        rw (some_byte, inside)
          (rw (take-length size (0x0D ∷ rest))
            (rw (decodes_hex size n r.body_size d) (rw (← h.at_version, ← h.at_type) refl)))))

pub strict_run :
    (after : ℕ → Request → Request) (v : Frame) (rest : Bytes) (r : Request)
    → Stands v (print_line_end rest) r
    → expect_strict_crlf after r ≡ some (after 2 r)
unfolding expect_strict_crlf match_strict
strict_run after v rest r h =
    let long : ltb (length (print_line_end rest)) 2 ≡ false = ground arith in
    rw h.ahead (rw long refl)

-- The extension is empty, and the call of `next` inside is at the same bytes.
chunk_ext_run :
    (b : Boost) (v : Frame) (rest : Bytes) (r : Request)
    → Stands v (print_line_end rest) r
    → on_chunk_ext (next_fuel b 1) r
      ≡ some (
          end_chunk_line 2 (record r {
            state = State.expext_crlf_after_chunk_ext;
            code = Code.error_insufficient_data;
            token_size = 0;
          }))
unfolding on_chunk_ext stop_chunk_ext end_chunk_ext next_fuel next_in consume read_token dispatch
    on_crlf_after_chunk_ext is_chunk_ext_char
chunk_ext_run b v rest r h =
    let fits = ahead_length r.ibuffer r.idx (print_line_end rest) h.ahead (omega arith) in
    let here : r.idx + 0 ≡ r.idx = omega arith in
    let more : (r.idx == length r.ibuffer) ≡ false = ground arith in
    let none_matched : r.idx - r.idx ≡ 0 = omega arith in
    let head = ahead_head r.ibuffer r.idx 0x0D (0x0A ∷ rest) h.ahead in
    let stands : Stands v (print_line_end rest) (record r {
      state = State.expext_crlf_after_chunk_ext;
      code = Code.error_insufficient_data;
      token_size = 0;
    }) =
      record {
        at_version = h.at_version;
        at_type = h.at_type;
        at_size = h.at_size;
        whole = refl;
        between = refl;
        ahead = h.ahead;
      } in
    rw (scan_run is_chunk_ext_char v [] (0x0A ∷ rest) 0x0D r tt refl h) (
      rw here (
        rw (more, head)
          (rw none_matched (rw h.between (rw more (strict_run end_chunk_line v rest _ stands))))))

chunk_line_run :
    (b : Boost) (v : Frame) (rest : Bytes) (r : Request)
    → (v.body_size == 0) ≡ false
    → Stands v (print_line_end rest) r
    → on_chunk_ext (next_fuel b 1) r ≡ some (stamp State.expect_chunk_data Code.skip v 2 r)
unfolding end_chunk_line
chunk_line_run b v rest r filled h =
    chunk_ext_run b v rest r h
    ∙ rw (h.at_size) (rw filled (rw (← h.at_version, ← h.at_type, ← h.at_size) refl))

last_line_run :
    (b : Boost) (v : Frame) (rest : Bytes) (r : Request)
    → v.body_size ≡ 0
    → Stands v (print_line_end rest) r
    → on_chunk_ext (next_fuel b 1) r ≡ some (stamp State.expect_trailer_name Code.end_of_body v 2 r)
unfolding end_chunk_line
last_line_run b v rest r last h =
    chunk_ext_run b v rest r h ∙ rw (h.at_size, last) (rw (← h.at_version, ← h.at_type) refl)

module _ (b : Boost) (v : Frame) (rest : Bytes) (r : Request) where
  chunk_size_Reads :
      (size : Bytes) (n : ℕ)
      → IsHex size n
      → At State.expect_chunk_size v (size ++ 0x0D ∷ rest) r
      → Reads b r [] State.expect_chunk_ext (record v { body_size = n }) (0x0D ∷ rest)
  unfolding dispatch
  chunk_size_Reads size n d h =
      token_Reads b State.expect_chunk_size State.expect_chunk_ext Code.skip v
        (record v { body_size = n }) size (0x0D ∷ rest) r [] refl refl h (rw d.splits (omega arith))
        (chunk_size_run v size rest n (consume r) d h.stands) refl

  chunk_line_Reads :
      (v.body_size == 0) ≡ false
      → At State.expect_chunk_ext v (print_line_end rest) r
      → Reads b r [] State.expect_chunk_data v rest
  unfolding dispatch
  chunk_line_Reads filled h =
      token_Reads b State.expect_chunk_ext State.expect_chunk_data Code.skip v v (0x0D ∷ 0x0A ∷ [])
        rest r [] refl refl h (omega arith) (chunk_line_run b v rest (consume r) filled h.stands)
        refl

  last_line_Reads :
      v.body_size ≡ 0
      → At State.expect_chunk_ext v (print_line_end rest) r
      → Reads b r (Item.end_of_body ∷ []) State.expect_trailer_name v rest
  unfolding dispatch
  last_line_Reads last h =
      token_Reads b State.expect_chunk_ext State.expect_trailer_name Code.end_of_body v v
        (0x0D ∷ 0x0A ∷ []) rest r (Item.end_of_body ∷ []) refl refl h (omega arith)
        (last_line_run b v rest (consume r) last h.stands) refl

  chunk_end_Reads :
      At State.expect_crlf_after_chunk_data v (print_line_end rest) r
      → Reads b r [] State.expect_chunk_size v rest
  unfolding dispatch on_crlf_after_chunk_data
  chunk_end_Reads h =
      token_Reads b State.expect_crlf_after_chunk_data State.expect_chunk_size Code.skip v v
        (0x0D ∷ 0x0A ∷ []) rest r [] refl refl h (omega arith)
        (strict_run (emit State.expect_chunk_size Code.skip) v rest (consume r) h.stands
          ∙ rw (← h.stands.at_version, ← h.stands.at_type, ← h.stands.at_size) refl)
        refl

-- A chunk that can be printed.
pub record IsChunk (k : Chunk) : Type 0 where
  pub filled : 0 < length k.content
  pub counted : IsHex k.size (length k.content)

abbrev pub AllChunks : List Chunk → Type 0
AllChunks [] = Unit {0}
AllChunks (k ∷ ks) = IsChunk k × AllChunks ks

last_size : IsHex (b'0' ∷ []) 0
unfolding Chars.is_hexdigit
last_size = record {
  first = b'0';
  others = [];
  splits = refl;
  all = (refl, tt);
  denotes = refl;
  fits = omega arith;
}

pub chunks_then :
    (b : Boost) (ks : List Chunk) (v : Frame) (n : ℕ) (items : List Item) (ahead rest : Bytes)
    (r : Request)
    → AllChunks ks
    → At State.expect_chunk_size v (print_chunks ks ahead) r
    → Continues b State.expect_trailer_name (record v { body_size = 0 }) ahead n items rest
    → ReadsAll b (chunk_calls ks n) r (chunk_items ks items) rest
chunks_then b [] v n items ahead rest r chunks h k =
    let last = record v { body_size = 0 } in
    let size = chunk_size_Reads b v (0x0A ∷ ahead) r (b'0' ∷ []) 0 last_size h in
    let line = last_line_Reads b last ahead size.after refl size.at in
    reads_then size (reads_then line (k line.after line.at))
chunks_then b (c ∷ cs) v n items ahead rest r (chunk, chunks) h k =
    let more = print_chunks cs ahead in
    let behind = c.content ++ print_line_end more in
    let sized = record v { body_size = length c.content } in
    let filled = chunk.filled in
    let some_byte : (length c.content == 0) ≡ false = ground arith in
    let size = chunk_size_Reads b v (0x0A ∷ behind) r c.size (length c.content) chunk.counted h in
    let line = chunk_line_Reads b sized behind size.after some_byte size.at in
    let bytes =
      chunk_data_Reads b sized c.content (print_line_end more) line.after filled refl line.at in
    let end = chunk_end_Reads b (record v { body_size = 0 }) more bytes.after bytes.at in
    reads_then size (
      reads_then line (
        reads_then bytes (
          reads_then end (
            chunks_then b cs (record v { body_size = 0 }) n items ahead rest end.after chunks end.at
              k))))
