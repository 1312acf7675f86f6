-- ===== src/Reader/Request/RoundTrip/Ends.antt =====
-- The end of the headers, of a body and of a message.
use boost_http.Base.{
  ℕ, Option, none, ◌+◌, false, some, [], ◌∷◌, ◌≡◌, refl, ap, sym, ◌∙◌, length, drop, span, Bytes,
  arith, ◌==◌, if◌then◌else◌,
}
use boost_http.Token.{Code}
use boost_http.Syntax.Chars
use boost_http.Syntax.Match.{match_field_name}
use boost_http.Syntax.Crlf.{match_liberal}
use boost_http.Header.{Boost}
use boost_http.Reader.Request.State.{State, Version, BodyType, Request}
use boost_http.Reader.Request.Fields.{on_field_name}
use boost_http.Reader.Request.Body.{choose_body, check_host, end_headers, on_crlf_after_headers}
use boost_http.Reader.Request.Next.{consume, read_token, dispatch, next_in, next_fuel, next}
use boost_http.Reader.Request.RoundTrip.{Item, print_line_end}
use boost_http.Reader.Request.RoundTrip.Cursor.{
  Frame, stamp, Stands, Reads, At, ahead_length, token_Reads,
}
use boost_http.Reader.Request.RoundTrip.Fields.{WantsHosts}

-- The state that the headers lead to.
abbrev pub body_state : BodyType → ℕ → Option State
body_state BodyType.no_body n = some State.expect_end_of_body
body_state BodyType.content_length_read n =
    some (if n == 0 then State.expect_end_of_body else State.expect_body)
body_state BodyType.chunked_encoding_read n = some State.expect_chunk_size
body_state _ n = none

check_host_run :
    (v : Version) (r : Request) (s : State)
    → WantsHosts v 0
    → body_state r.body_type r.body_size ≡ some s
    → check_host v r ≡ some (record r { state = s; code = Code.end_of_headers })
unfolding check_host choose_body
check_host_run Version.http_1_0 r s wants e = ground arith
check_host_run Version.not_http_1_0_and_host_not_read r s wants e = absurd (omega arith)
check_host_run Version.not_http_1_0_and_host_read r s wants e = ground arith

-- The call of `next` inside is at the same bytes.
end_run :
    (b : Boost) (v : Frame) (s : State) (rest : Bytes) (r : Request)
    → WantsHosts v.version 0
    → body_state v.body_type v.body_size ≡ some s
    → Stands v (print_line_end rest) r
    → on_field_name b (next_fuel b 1) r ≡ some (stamp s Code.end_of_headers v 2 r)
unfolding on_field_name match_field_name span Chars.is_tchar next_fuel next_in consume read_token
    dispatch on_crlf_after_headers end_headers match_liberal
end_run b v s rest r wants choice h =
    let fits = ahead_length r.ibuffer r.idx (print_line_end rest) h.ahead (omega arith) in
    let more : (r.idx == length r.ibuffer) ≡ false = ground arith in
    let ended = record r {
      state = State.expect_crlf_after_headers;
      code = Code.error_insufficient_data;
      token_size = 2;
    } in
    let choice' : body_state r.body_type r.body_size ≡ some s =
      ap (λ t. body_state t r.body_size) h.at_type
      ∙ ap (body_state v.body_type) h.at_size
      ∙ choice in
    rw h.ahead (
      rw h.between (
        rw (more, h.ahead)
          (ap (λ w. check_host w ended) h.at_version
            ∙ check_host_run v.version ended s wants choice'
            ∙ rw (← h.at_version, ← h.at_type, ← h.at_size) refl)))

pub headers_end_Reads :
    (b : Boost) (v : Frame) (s : State) (rest : Bytes) (r : Request)
    → WantsHosts v.version 0
    → body_state v.body_type v.body_size ≡ some s
    → At State.expect_field_name v (print_line_end rest) r
    → Reads b r (Item.end_of_headers ∷ []) s v rest
unfolding dispatch
headers_end_Reads b v s rest r wants choice h =
    token_Reads b State.expect_field_name s Code.end_of_headers v v (0x0D ∷ 0x0A ∷ []) rest r
      (Item.end_of_headers ∷ []) refl refl h (omega arith)
      (end_run b v s rest (consume r) wants choice h.stands) refl

-- The place behind the token, where the next one begins.
consume_place : (r : Request) → (consume r).token_size ≡ 0 → r.idx + r.token_size ≡ (consume r).idx
unfolding consume
consume_place r e = ground arith

consume_keeps :
    (r : Request)
    → ((consume r).version ≡ r.version)
      × ((consume r).body_type ≡ r.body_type)
      × ((consume r).body_size ≡ r.body_size)
      × ((consume r).ibuffer ≡ r.ibuffer)
unfolding consume
consume_keeps r = ground arith

pub unread_ahead :
    (s : State) (v : Frame) (rest : Bytes) (r : Request)
    → At s v rest r
    → drop (r.idx + r.token_size) r.ibuffer ≡ rest
unread_ahead s v rest r h =
    let (_, _, _, buffer) = consume_keeps r in
    ap (drop (r.idx + r.token_size)) (sym buffer)
    ∙ ap (λ i. drop i (consume r).ibuffer) (consume_place r h.stands.whole)
    ∙ h.stands.ahead

emptied_ahead :
    (s : State) (v : Frame) (rest : Bytes) (r : Request)
    → At s v rest r
    → drop (r.idx + r.token_size + 0) r.ibuffer ≡ rest
emptied_ahead s v rest r h =
    let place : r.idx + r.token_size + 0 ≡ r.idx + r.token_size = omega arith in
    ap (λ i. drop i r.ibuffer) place ∙ unread_ahead s v rest r h

pub body_end_Reads :
    (b : Boost) (v : Frame) (rest : Bytes) (r : Request)
    → At State.expect_end_of_body v rest r
    → Reads b r (Item.end_of_body ∷ []) State.expect_end_of_message v rest
unfolding next next_fuel next_in consume
body_end_Reads b v rest r h =
    let (version, body, size, _) = consume_keeps r in
    record {
      after = record r {
        state = State.expect_end_of_message;
        code = Code.end_of_body;
        idx = r.idx + r.token_size;
        token_size = 0;
      };
      calls_next = ap (λ s. next_in b (next_fuel b 1) s r) h.in_state;
      kept = refl;
      at = record {
        in_state = refl;
        stands = record {
          at_version = sym version ∙ h.stands.at_version;
          at_type = sym body ∙ h.stands.at_type;
          at_size = sym size ∙ h.stands.at_size;
          whole = refl;
          between = refl;
          ahead = emptied_ahead State.expect_end_of_body v rest r h;
        };
      };
    }

pub message_end_Reads :
    (b : Boost) (v : Frame) (rest : Bytes) (r : Request)
    → At State.expect_end_of_message v rest r
    → Reads b r
        (Item.end_of_message ∷ [])
        State.expect_method
        (record v { body_type = BodyType.no_body })
        rest
unfolding next next_fuel next_in consume
message_end_Reads b v rest r h =
    let (version, _, size, _) = consume_keeps r in
    record {
      after = record r {
        body_type = BodyType.no_body;
        state = State.expect_method;
        code = Code.end_of_message;
        idx = r.idx + r.token_size;
        token_size = 0;
      };
      calls_next = ap (λ s. next_in b (next_fuel b 1) s r) h.in_state;
      kept = refl;
      at = record {
        in_state = refl;
        stands = record {
          at_version = sym version ∙ h.stands.at_version;
          at_type = refl;
          at_size = sym size ∙ h.stands.at_size;
          whole = refl;
          between = refl;
          ahead = emptied_ahead State.expect_end_of_message v rest r h;
        };
      };
    }
