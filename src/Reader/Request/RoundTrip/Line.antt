-- ===== src/Reader/Request/RoundTrip/Line.antt =====
-- The tokens of a printed request line.
use boost_http.Base.{
  ℕ, ◌+◌, ◌-◌, ◌<◌, ltb, leb, Bool, true, false, some, [], ◌∷◌, ◌++◌, ◌≡◌, refl, ap, ◌∙◌, length,
  get_elem?, min, scan, span, span_run, All, Bytes, arith, length-append, ◌==◌, if◌then◌else◌,
}
use boost_http.Base.Int.{pos, sub_ℕ}
use boost_http.Token.{Code}
use boost_http.Abnf.{is_tchar, is_sp, is_request_target_char}
use boost_http.Syntax.Crlf.{match_liberal}
use boost_http.Header.{Boost}
use boost_http.Reader.Request.State.{State, Version, Request}
use boost_http.Reader.Request.Value.{value_method, value_request_target, value_version}
use boost_http.Reader.Request.StartLine.{
  expect_word, on_method, on_sp_after_method, on_request_target, static_str, compare_static,
  on_static_str_after_target, read_version, on_version, end_line, on_crlf_after_version,
}
use boost_http.Reader.Request.Next.{consume, dispatch}
use boost_http.Reader.Request.RoundTrip.{print_line_end, Item}
use boost_http.Reader.Request.RoundTrip.Cursor.{
  Frame, stamp, Stands, At, Reads, ahead_head, ahead_length, ahead_view, token_Reads,
}

pub scan_run :
    (p : ℕ → Bool) (v : Frame) (word rest : Bytes) (x : ℕ) (r : Request)
    → All p word
    → p x ≡ false
    → Stands v (word ++ x ∷ rest) r
    → scan p r.ibuffer (r.idx + r.token_size) ≡ some (r.idx + length word)
unfolding scan
scan_run p v word rest x r all stop h =
    let run = ap (span p) h.ahead ∙ span_run p word x rest all stop in
    let more = length-append word (x ∷ rest) in
    let fits = ahead_length r.ibuffer r.idx (word ++ x ∷ rest) h.ahead (omega arith) in
    let within : leb r.idx (length r.ibuffer) ≡ true = ground arith in
    let here : r.idx + 0 ≡ r.idx = omega arith in rw h.whole (rw here (rw (within, run) refl))

expect_word_run :
    (p : ℕ → Bool) (s : State) (c : Code) (v : Frame) (word rest : Bytes) (x : ℕ) (r : Request)
    → 0 < length word
    → All p word
    → p x ≡ false
    → Stands v (word ++ x ∷ rest) r
    → expect_word p s c r ≡ some (stamp s c v (length word) r)
unfolding expect_word
expect_word_run p s c v word rest x r filled all stop h =
    let more = length-append word (x ∷ rest) in
    let fits = ahead_length r.ibuffer r.idx (word ++ x ∷ rest) h.ahead (omega arith) in
    let inside : (r.idx + length word == length r.ibuffer) ≡ false = ground arith in
    let some_byte : (r.idx + length word == r.idx) ≡ false = ground arith in
    let size : r.idx + length word - r.idx ≡ length word = omega arith in
    rw (scan_run p v word rest x r all stop h)
      (rw (inside, some_byte, size, ← h.at_version, ← h.at_type, ← h.at_size) refl)

static_run :
    (v : Frame) (rest : Bytes) (r : Request)
    → Stands v (static_str ++ rest) r
    → on_static_str_after_target r
      ≡ some (stamp State.expect_version Code.skip v (length static_str) r)
unfolding on_static_str_after_target compare_static
static_run v rest r h =
    let fits = ahead_length r.ibuffer r.idx (static_str ++ rest) h.ahead (omega arith) in
    let here : r.idx + 0 ≡ r.idx = omega arith in
    let within : leb r.idx (min (length r.ibuffer) (r.idx + 8)) ≡ true = ground arith in
    rw h.whole (rw here (rw (within, h.ahead, ← h.at_version, ← h.at_type, ← h.at_size) refl))

sub_digit : (n : ℕ) → sub_ℕ (b'0' + n) b'0' ≡ pos n
sub_digit n = ground arith

-- The version that the reader keeps.
abbrev pub version_of : ℕ → Version
version_of minor = if minor == 0 then Version.http_1_0 else Version.not_http_1_0_and_host_not_read

version_run :
    (v : Frame) (minor : ℕ) (rest : Bytes) (r : Request)
    → minor < 10
    → get_elem? r.ibuffer r.idx ≡ some (b'0' + minor)
    → Stands v ((b'0' + minor) ∷ rest) r
    → on_version r
      ≡ some (
          stamp State.expect_crlf_after_version Code.version
            (record v { version = version_of minor })
            1
            r)
unfolding on_version read_version value_version
version_run v minor rest r fits here h =
    let low : ltb (b'0' + minor) b'0' ≡ false = ground arith in
    let high : ltb b'9' (b'0' + minor) ≡ false = ground arith in
    rw here (rw (low, high) (rw (sub_digit minor, ← h.at_type, ← h.at_size) refl))

module _ (b : Boost) (v : Frame) (r : Request) where
  pub method_Reads :
      (word rest : Bytes)
      → 0 < length word
      → All is_tchar word
      → At State.expect_method v (word ++ 0x20 ∷ rest) r
      → Reads b r (Item.method word ∷ []) State.expect_sp_after_method v (0x20 ∷ rest)
  unfolding dispatch on_method is_tchar value_method
  method_Reads word rest filled all h =
      token_Reads b State.expect_method State.expect_sp_after_method Code.method v v word
        (0x20 ∷ rest) r (Item.method word ∷ []) refl refl h filled
        (expect_word_run is_tchar _ _ v word rest 0x20 (consume r) filled all refl h.stands)
        (ap (λ w. some (Item.method w ∷ [])) (ahead_view word (0x20 ∷ rest) (consume r) h.stands))

  pub sp_Reads :
      (rest : Bytes)
      → At State.expect_sp_after_method v (0x20 ∷ rest) r
      → Reads b r [] State.expect_request_target v rest
  unfolding dispatch on_sp_after_method is_sp
  sp_Reads rest h =
      token_Reads b State.expect_sp_after_method State.expect_request_target Code.skip v v
        (0x20 ∷ []) rest r [] refl refl h (omega arith)
        (rw
          (
            ahead_head (consume r).ibuffer (consume r).idx 0x20 rest h.stands.ahead,
            ← h.stands.at_version,
            ← h.stands.at_type,
            ← h.stands.at_size,
          )
          refl)
        refl

  pub target_Reads :
      (word rest : Bytes)
      → 0 < length word
      → All is_request_target_char word
      → At State.expect_request_target v (word ++ 0x20 ∷ rest) r
      → Reads b r
          (Item.request_target word ∷ [])
          State.expect_static_str_after_target
          v
          (0x20 ∷ rest)
  unfolding dispatch on_request_target is_request_target_char value_request_target
  target_Reads word rest filled all h =
      token_Reads b State.expect_request_target State.expect_static_str_after_target
        Code.request_target v v word (0x20 ∷ rest) r (Item.request_target word ∷ []) refl refl h
        filled
        (expect_word_run is_request_target_char _ _ v word rest 0x20 (consume r) filled all refl
          h.stands)
        (ap (λ w. some (Item.request_target w ∷ []))
          (ahead_view word (0x20 ∷ rest) (consume r) h.stands))

  pub static_Reads :
      (rest : Bytes)
      → At State.expect_static_str_after_target v (static_str ++ rest) r
      → Reads b r [] State.expect_version v rest
  unfolding dispatch
  static_Reads rest h =
      token_Reads b State.expect_static_str_after_target State.expect_version Code.skip v v
        static_str rest r [] refl refl h (omega arith) (static_run v rest (consume r) h.stands) refl

  pub version_Reads :
      (minor : ℕ) (rest : Bytes)
      → minor < 10
      → At State.expect_version v ((b'0' + minor) ∷ rest) r
      → Reads b r
          (Item.version (pos minor) ∷ [])
          State.expect_crlf_after_version
          (record v { version = version_of minor })
          rest
  unfolding dispatch value_version
  version_Reads minor rest fits h =
      let here =
        ahead_head (consume r).ibuffer (consume r).idx (b'0' + minor) rest h.stands.ahead in
      token_Reads b State.expect_version State.expect_crlf_after_version Code.version v
        (record v { version = version_of minor }) ((b'0' + minor) ∷ []) rest r
        (Item.version (pos minor) ∷ []) refl refl h (omega arith)
        (version_run v minor rest (consume r) fits here h.stands) (rw (here, sub_digit minor) refl)

  pub line_end_Reads :
      (rest : Bytes)
      → At State.expect_crlf_after_version v (print_line_end rest) r
      → Reads b r [] State.expect_field_name v rest
  unfolding dispatch on_crlf_after_version end_line match_liberal
  line_end_Reads rest h =
      token_Reads b State.expect_crlf_after_version State.expect_field_name Code.skip v v
        (0x0D ∷ 0x0A ∷ []) rest r [] refl refl h (omega arith)
        (rw (h.stands.ahead, ← h.stands.at_version, ← h.stands.at_type, ← h.stands.at_size) refl)
        refl
