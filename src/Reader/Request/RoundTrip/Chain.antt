-- ===== src/Reader/Request/RoundTrip/Chain.antt =====
-- Calls of `next` one behind another, and the calls that read a field.
use boost_http.Base.{ℕ, suc, some, List, ◌∷◌, ◌++◌, ◌≡◌, refl, ap, ◌∙◌, length, Bytes}
use boost_http.Token.{Code}
use boost_http.Header.{Boost}
use boost_http.Reader.Request.State.{State, BodyType, Request, emit}
use boost_http.Reader.Request.Value.{value_field_name}
use boost_http.Reader.Request.Fields.{host, see_field_name, see_field_value}
use boost_http.Reader.Request.RoundTrip.{
  Field, Item, print_line_end, print_field, read_tokens, count_hosts,
}
use boost_http.Reader.Request.RoundTrip.Cursor.{
  Frame, stamp, Stands, At, Reads, ahead_view, read_tokens_cons,
}
use boost_http.Reader.Request.RoundTrip.Fields.{
  IsField, IsPlainField, WantsHosts, named_frame, see_name_run, name_Reads, colon_Reads,
  value_Reads, field_end_Reads,
}

-- `n` calls of `next` give the items, and the reader stands before another request then.
pub record ReadsAll (b : Boost) (n : ℕ) (r : Request) (items : List Item) (rest : Bytes)
    : Type 0 where
  pub last : Request
  pub gives : read_tokens b n r ≡ some (items, last)
  pub last_frame : Frame
  pub at_request : At State.expect_method last_frame rest last

pub reads_then :
    {b : Boost} {n : ℕ} {r : Request} {here behind : List Item} {s : State} {v : Frame}
    {ahead rest : Bytes} (x : Reads b r here s v ahead)
    → ReadsAll b n x.after behind rest
    → ReadsAll b (suc n) r (here ++ behind) rest
reads_then {b} {n} {r} {here} {behind} x all = record {
  last = all.last;
  gives = read_tokens_cons b n r x.after all.last here behind x.calls_next x.kept all.gives;
  last_frame = all.last_frame;
  at_request = all.at_request;
}

-- What reads on from a place.
abbrev pub Continues : Boost → State → Frame → Bytes → ℕ → List Item → Bytes → Type 0
Continues b s v ahead n items rest = (r : Request) → At s v ahead r → ReadsAll b n r items rest

-- What the case of a field's name, or of its value, does to the frame.
abbrev pub SeesName : Boost → Field → Frame → Frame → Type 0
SeesName b f v v' =
    (rest : Bytes) (r : Request)
    → Stands v (f.name ++ rest) r
    → see_field_name b (emit State.expect_colon Code.field_name (length f.name) r)
      ≡ some (stamp State.expect_colon Code.field_name v' (length f.name) r)

abbrev pub SeesValue : Boost → Field → Frame → Frame → Type 0
SeesValue b f v v' =
    (rest : Bytes) (r : Request)
    → Stands v (f.value ++ rest) r
    → see_field_value b r.body_type f.value
        (emit State.expect_crlf_after_field_value Code.field_value (length f.value) r)
      ≡ some (stamp State.expect_crlf_after_field_value Code.field_value v' (length f.value) r)

-- A field that does not frame the body.
pub plain_SeesName :
    (b : Boost) (f : Field) (fs : List Field) (v : Frame)
    → IsPlainField b f
    → WantsHosts v.version (count_hosts b (f ∷ fs))
    → SeesName b f v (named_frame (b.iequals f.name host) v)
unfolding value_field_name
plain_SeesName b f fs v plain wants rest r h =
    see_name_run b f fs v.version (emit State.expect_colon Code.field_name (length f.name) r) plain
      wants h.at_version (ap some (ahead_view f.name rest r h))
    ∙ rw (← h.at_type, ← h.at_size) refl

pub plain_SeesValue :
    (b : Boost) (f : Field) (v : Frame) → v.body_type ≡ BodyType.no_body → SeesValue b f v v
unfolding see_field_value
plain_SeesValue b f v bodiless rest r h =
    ap
      (λ t.
        see_field_value b t f.value
          (emit State.expect_crlf_after_field_value Code.field_value (length f.value) r))
      (h.at_type ∙ bodiless)
    ∙ rw (← h.at_version, ← h.at_type, ← h.at_size) refl

pub field_then :
    (b : Boost) (f : Field) (v v1 v2 : Frame) (n : ℕ) (items : List Item) (ahead rest : Bytes)
    (r : Request)
    → IsField f
    → SeesName b f v v1
    → SeesValue b f v1 v2
    → At State.expect_field_name v (print_field f ahead) r
    → Continues b State.expect_field_name v2 ahead n items rest
    → ReadsAll b
        (suc (suc (suc (suc n))))
        r
        (Item.field_name f.name ∷ Item.field_value f.value ∷ items)
        rest
field_then b f v v1 v2 n items ahead rest r field sees_name sees_value h k =
    let line = f.value ++ print_line_end ahead in
    let name =
      name_Reads b v f (0x20 ∷ line) r field v1 h (sees_name (b':' ∷ 0x20 ∷ line) _ h.stands) in
    let colon = colon_Reads b v1 f (print_line_end ahead) name.after field name.at in
    let value =
      value_Reads b v1 f (0x0A ∷ ahead) colon.after field v2 colon.at
        (sees_value (print_line_end ahead) _ colon.at.stands) in
    let end = field_end_Reads b v2 ahead value.after value.at in
    reads_then name (reads_then colon (reads_then value (reads_then end (k end.after end.at))))
