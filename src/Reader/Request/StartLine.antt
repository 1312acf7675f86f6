-- ===== src/Reader/Request/StartLine.antt =====
-- The cases of `request::next` for the request line (request.ipp): each is a function of the
-- request behind the switch's preamble, where `idx < ibuffer.size()`.
use boost_http.Base.{
  ℕ, suc, ◌+◌, ◌-◌, Bool, ◌||◌, Option, none, some, [], ◌∷◌, ltb, leb, ◌==◌, min, length, get_elem?,
  drop, scan, if◌then◌else◌, ◌>>=◌, Bytes,
}
use boost_http.Base.Int.{is_zero}
use boost_http.Token.{Code}
use boost_http.Abnf.{is_tchar, is_sp, is_request_target_char}
use boost_http.Syntax.Crlf.{Result, crlf, lf, insufficient_data, invalid_data, match_liberal}
use boost_http.Reader.Request.State.{
  State, expect_sp_after_method, expect_request_target, expect_static_str_after_target,
  expect_version, expect_crlf_after_version, expect_field_name, http_1_0,
  not_http_1_0_and_host_not_read, Request, fail, emit,
}
use boost_http.Reader.Request.Value.{value_version}

-- A token of bytes of one class, of which `token_size` were seen by earlier calls.
unfoldable pub expect_word : (ℕ → Bool) → State → Code → Request → Option Request
expect_word p after c r = do
  i ← scan p r.ibuffer (r.idx + r.token_size)
  some (
      if i == length r.ibuffer
      then record r { token_size = i - r.idx }
      else if i == r.idx
      then fail Code.error_invalid_data r
      else emit after c (i - r.idx) r)

unfoldable pub on_method : Request → Option Request
on_method = expect_word is_tchar expect_sp_after_method Code.method

unfoldable pub on_sp_after_method : Request → Option Request
on_sp_after_method r = do
  c ← get_elem? r.ibuffer r.idx
  some
      (if is_sp c then emit expect_request_target Code.skip 1 r else fail Code.error_invalid_data r)

unfoldable pub on_request_target : Request → Option Request
on_request_target =
    expect_word is_request_target_char expect_static_str_after_target Code.request_target

-- " HTTP/1."
abbrev pub static_str : Bytes
static_str = b' ' ∷ b'H' ∷ b'T' ∷ b'T' ∷ b'P' ∷ b'/' ∷ b'1' ∷ b'.' ∷ []

-- `for ( ; i != count ; ++i) if (c != skip[i - idx]) …` from `i - idx = k`: the lists are the rest
-- of `skip` and of the buffer. None is a byte that differs, and otherwise the final `i - idx`.
unfoldable pub compare_static : ℕ → Bytes → Bytes → Option ℕ
compare_static k [] buffer = some k
compare_static k (s ∷ ss) [] = some k
compare_static k (s ∷ ss) (c ∷ cs) = if c == s then compare_static (suc k) ss cs else none

-- The loop ends only if it starts at or below `count`.
unfoldable pub on_static_str_after_target : Request → Option Request
on_static_str_after_target r =
    if leb (r.idx + r.token_size) (min (length r.ibuffer) (r.idx + length static_str))
    then some
        (elim (compare_static r.token_size (drop r.token_size static_str)
          (drop (r.idx + r.token_size) r.ibuffer)) [
            | none ↦ fail Code.error_invalid_data r
            | some k ↦
                if k == length static_str
                then emit expect_version Code.skip k r
                else record r { token_size = k }
          ])
    else none

-- `version = (value<token::version>() == 0) ? …`, on the request that holds the token.
unfoldable pub read_version : Request → Option Request
read_version r = do
  v ← value_version r
  some (record r { version = if is_zero v then http_1_0 else not_http_1_0_and_host_not_read })

unfoldable pub on_version : Request → Option Request
on_version r = do
  c ← get_elem? r.ibuffer r.idx
  if ltb c b'0' || ltb b'9' c
      then some (fail Code.error_invalid_data r)
      else read_version (emit expect_crlf_after_version Code.version 1 r)

-- What the result of `liberal_crlf::match` does behind the version and behind a field value.
unfoldable pub end_line : Result → Request → Request
end_line crlf r = emit expect_field_name Code.skip 2 r
end_line lf r = emit expect_field_name Code.skip 1 r
end_line insufficient_data r = r
end_line invalid_data r = fail Code.error_invalid_data r

unfoldable pub on_crlf_after_version : Request → Option Request
on_crlf_after_version r = some (end_line (match_liberal (drop r.idx r.ibuffer)) r)
