-- ===== src/Reader/Request/RoundTrip/Pipeline.antt =====
-- Printed requests, read back.
use boost_http.Base.{
  ℕ, suc, ◌+◌, ◌<◌, drop, ◌∙◌, some, List, [], ◌∷◌, ◌++◌, ◌≡◌, ◌⊎◌, inl, inr, refl, length, All,
  Bytes, arith, ◌==◌, Bool-cases,
}
use boost_http.Abnf.{is_tchar, is_request_target_char}
use boost_http.Token.{Code}
use boost_http.Header.{Boost, IsBoost}
use boost_http.Reader.Request.State.{State, BodyType, Request}
use boost_http.Reader.Request.Fields.{host}
use boost_http.Reader.Request.Next.{consume, set_buffer}
use boost_http.Reader.Request.StartLine.{static_str}
use boost_http.Reader.Request.RoundTrip.{
  Field, Body, Head, Item, print_line_end, print_fields, print_body, print_heads, read_tokens,
  read_buffer, field_items, body_items, head_items, field_calls, body_calls, head_calls,
  count_hosts,
}
use boost_http.Reader.Request.RoundTrip.Cursor.{Frame, At}
use boost_http.Reader.Request.RoundTrip.Line.{
  version_of, method_Reads, sp_Reads, target_Reads, static_Reads, version_Reads, line_end_Reads,
}
use boost_http.Reader.Request.RoundTrip.Fields.{
  IsPlainField, WantsHosts, WantsHosts-cons, named_frame,
}
use boost_http.Reader.Request.RoundTrip.Ends.{unread_ahead}
use boost_http.Reader.Request.RoundTrip.Bodies.{IsBody, body_then}
use boost_http.Reader.Request.RoundTrip.Chain.{
  ReadsAll, reads_then, Continues, field_then, plain_SeesName, plain_SeesValue,
}

abbrev pub AllPlain : Boost → List Field → Type 0
AllPlain b [] = Unit {0}
AllPlain b (f ∷ fs) = IsPlainField b f × AllPlain b fs

-- A request that can be printed, and that has the Host field its version wants.
pub record IsPlainHead (b : Boost) (h : Head) : Type 0 where
  pub method_filled : 0 < length h.method
  pub method_chars : All is_tchar h.method
  pub target_filled : 0 < length h.target
  pub target_chars : All is_request_target_char h.target
  pub one_digit : h.minor < 10
  pub plain_fields : AllPlain b h.fields
  pub fine_body : IsBody h.body
  pub one_host : (h.minor ≡ 0) ⊎ (count_hosts b h.fields ≡ 1)

abbrev pub AllPlainHeads : Boost → List Head → Type 0
AllPlainHeads b [] = Unit {0}
AllPlainHeads b (h ∷ hs) = IsPlainHead b h × AllPlainHeads b hs

module _ (b : Boost) (laws : IsBoost b) (n : ℕ) (items : List Item) (ahead rest : Bytes)
    (k : (v : Frame)
      → v.body_type ≡ BodyType.no_body
      → Continues b State.expect_method v ahead n items rest) where
  fields_then :
      (fs : List Field) (body : Body) (v : Frame) (r : Request)
      → AllPlain b fs
      → IsBody body
      → WantsHosts v.version (count_hosts b fs)
      → v.body_type ≡ BodyType.no_body
      → At State.expect_field_name v (print_fields fs (print_body body ahead)) r
      → ReadsAll b
          (field_calls fs (body_calls body n))
          r
          (field_items fs (body_items body items))
          rest
  fields_then [] body v r plain fine wants bodiless h =
      body_then b laws n items ahead rest k body v r fine wants bodiless h
  fields_then (f ∷ fs) body v r (plain, others) fine wants bodiless h =
      let named = named_frame (b.iequals f.name host) v in
      field_then b f v named named _ _ (print_fields fs (print_body body ahead)) rest r
        plain.is_field (plain_SeesName b f fs v plain wants) (plain_SeesValue b f named bodiless) h
        (λ q at.
          fields_then fs body named q others fine (WantsHosts-cons b f fs v.version wants) bodiless
            at)

WantsHosts-version_of : (minor n : ℕ) → (minor ≡ 0) ⊎ (n ≡ 1) → WantsHosts (version_of minor) n
WantsHosts-version_of minor n h = elim (Bool-cases (minor == 0)) [
  | inl zero_minor ↦ rw zero_minor tt
  | inr other ↦ ground arith
]

heads_ReadsAll :
    (b : Boost) (laws : IsBoost b) (hs : List Head) (rest : Bytes)
    → AllPlainHeads b hs
    → (v : Frame) → v.body_type ≡ BodyType.no_body
    → Continues b State.expect_method v (print_heads hs rest) (head_calls hs) (head_items hs) rest
heads_ReadsAll b laws [] rest plain v bodiless r h = record {
  last = r;
  gives = refl;
  last_frame = v;
  at_request = h;
}
heads_ReadsAll b laws (h ∷ hs) rest (plain, others) v bodiless r at =
    let ahead = print_heads hs rest in
    let fields = print_fields h.fields (print_body h.body ahead) in
    let line = static_str ++ (b'0' + h.minor) ∷ print_line_end fields in
    let method =
      method_Reads b v r h.method (h.target ++ line) plain.method_filled plain.method_chars at in
    let sp = sp_Reads b v method.after (h.target ++ line) method.at in
    let target =
      target_Reads b v sp.after h.target _ plain.target_filled plain.target_chars sp.at in
    let static = static_Reads b v target.after _ target.at in
    let version = version_Reads b v static.after h.minor _ plain.one_digit static.at in
    let end = line_end_Reads b _ version.after fields version.at in
    let wants = WantsHosts-version_of h.minor (count_hosts b h.fields) plain.one_host in
    reads_then method (
      reads_then sp (
        reads_then target (
          reads_then static (
            reads_then version (
              reads_then end (
                fields_then b laws (head_calls hs) (head_items hs) ahead rest
                  (heads_ReadsAll b laws hs rest others) h.fields h.body _ end.after
                  plain.plain_fields plain.fine_body wants bodiless end.at))))))

-- A reader before a message, with no data: a new one is, and one that has used its buffer up.
pub record AwaitsRequest (r : Request) : Type 0 where
  pub at_method : r.state ≡ State.expect_method
  pub no_body : r.body_type ≡ BodyType.no_body
  pub no_token : r.token_size ≡ 0
  pub wants_data : r.code ≡ Code.error_insufficient_data

-- The frame of a reader.
abbrev frame_of : Request → Frame
frame_of r = record { version = r.version; body_type = r.body_type; body_size = r.body_size }

awaiting_At :
    (buffer : Bytes) (r : Request)
    → AwaitsRequest r
    → At State.expect_method (frame_of r) buffer (record r { ibuffer = buffer; idx = 0 })
unfolding consume
awaiting_At buffer r w = record {
  in_state = w.at_method;
  stands = rw w.wants_data (record {
    at_version = refl;
    at_type = refl;
    at_size = refl;
    whole = w.no_token;
    between = refl;
    ahead = refl;
  });
}

pub read_buffer_lem :
    (b : Boost) (n : ℕ) (buffer : Bytes) (r : Request)
    → AwaitsRequest r
    → read_buffer b (suc n) buffer r
      ≡ read_tokens b (suc n) (record r { ibuffer = buffer; idx = 0 })
unfolding set_buffer
read_buffer_lem b n buffer r w = rw w.wants_data refl

-- Requests printed one behind another, and any bytes behind them, given to a reader that awaits a
-- request: `set_buffer` and a fixed number of calls of `next` return, their tokens have exactly the
-- methods, targets, versions, fields, bodies and trailers that were printed, in order, each request
-- ended, and the reader then expects a method at the first of the bytes behind. In each request the
-- method and the target are nonempty words of their classes; the version is 1 and a digit; the name
-- of each field and trailer is a nonempty word, and its value is nonempty, has no white space at
-- its ends and only field value bytes; no field is Transfer-Encoding or Content-Length, but for the
-- last, which frames the body if there is one; exactly one field is Host, unless the version is 1.0;
-- the body's size stands in decimal digits, or each chunk, which is not empty, has its own in
-- hexadecimal digits, and each fits `body_size`. The Boost functions are as documented.
pub read_buffer-print_heads :
    (b : Boost) (h : Head) (hs : List Head) (rest : Bytes) (r : Request)
    → IsBoost b
    → AllPlainHeads b (h ∷ hs)
    → AwaitsRequest r
    → (last : Request) × (read_buffer b (head_calls (h ∷ hs)) (print_heads (h ∷ hs) rest) r
        ≡ some (head_items (h ∷ hs), last))
      × (last.state ≡ State.expect_method)
      × (drop (last.idx + last.token_size) last.ibuffer ≡ rest)
read_buffer-print_heads b h hs rest r laws plain w =
    let buffer = print_heads (h ∷ hs) rest in
    let all =
      heads_ReadsAll b laws (h ∷ hs) rest plain (frame_of r) w.no_body
        (record r { ibuffer = buffer; idx = 0 }) (awaiting_At buffer r w) in
    (
      all.last,
      read_buffer_lem b
            (suc (suc (suc (suc (suc (field_calls h.fields (body_calls h.body (head_calls hs))))))))
            buffer r w
          ∙ all.gives,
      all.at_request.in_state,
      unread_ahead State.expect_method all.last_frame rest all.last all.at_request,
    )
