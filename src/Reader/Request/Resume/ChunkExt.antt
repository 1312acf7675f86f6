-- ===== src/Reader/Request/Resume/ChunkExt.antt =====
-- The chunk extension, which leaves in `token_size` what it has seen and may call `next`.
use boost_http.Base.{
  ℕ, ◌+◌, ◌-◌, ◌<◌, ◌≤◌, ◌==◌, ◌++◌, not, length, drop, length-append, span, scan, Bytes, Option,
  none, some, ◌≡◌, refl, sym, ◌∙◌, ap, arith, Bool-cases, inl, inr, Option-cases, get_elem?,
  get_elem?_of_lt, get_elem?-append, false, if◌then◌else◌, ◌>>=◌, length-drop, span-le,
}
use mathlib.Core.Path.{subst}
use boost_http.Token.{Code}
use boost_http.Abnf.{is_chunk_ext_char}
use boost_http.Header.{Boost}
use boost_http.Reader.Request.State.{expect_chunk_ext, expext_crlf_after_chunk_ext, Request}
use boost_http.Reader.Request.Body.{on_chunk_ext, stop_chunk_ext, end_chunk_ext}
use boost_http.Reader.Request.Next.{dispatch, next_fuel, next}
use boost_http.Reader.Request.Safety.Scans.{scan-some}
use boost_http.Reader.Request.Resume.{extend, settle, settle_in, settled, ResumesTo}
use boost_http.Reader.Request.Resume.Words.{scan-append, scan_end}
use boost_http.Reader.Request.Resume.Leaves.{extend-has_byte, next-dispatch, leaf-ResumesTo}

-- The case behind its loop.
abbrev behind_ext : (Request → Option Request) → Option ℕ → Request → Option Request
behind_ext again o r = o >>= λ i.
    if i == length r.ibuffer
    then some (record r { token_size = i - r.idx })
    else (get_elem? r.ibuffer i >>= λ c. stop_chunk_ext again c i r)

on_chunk_ext_lem :
    (again : Request → Option Request) (r : Request)
    → on_chunk_ext again r
      ≡ behind_ext again (scan is_chunk_ext_char r.ibuffer (r.idx + r.token_size)) r
unfolding on_chunk_ext
on_chunk_ext_lem again r = refl

stop_chunk_ext-size :
    (again : Request → Option Request) (c i : ℕ) (r : Request) (n : ℕ)
    → settled (stop_chunk_ext again c i (record r { token_size = n }))
      ≡ settled (stop_chunk_ext again c i r)
unfolding stop_chunk_ext end_chunk_ext settle settle_in
stop_chunk_ext-size again c i r n = elim (Bool-cases (not (c == b'\r'))) [
  | inl bad ↦ rw bad refl
  | inr good ↦ rw good refl
]

-- Only the size of the token differs, and only in an error.
behind_ext-size :
    (again : Request → Option Request) (o : Option ℕ) (r : Request) (n : ℕ)
    → settled (behind_ext again o (record r { token_size = n })) ≡ settled (behind_ext again o r)
behind_ext-size again none r n = refl
behind_ext-size again (some i) r n = elim (Bool-cases (i == length r.ibuffer)) [
  | inl end ↦ rw end refl
  | inr more ↦ rw more (elim (Option-cases (get_elem? r.ibuffer i)) [
    | inl outside ↦ rw outside refl
    | inr (c, read) ↦ rw read (stop_chunk_ext-size again c i r n)
  ])
]

dispatch-chunk_ext :
    (b : Boost) (r : Request)
    → dispatch b (next_fuel b 1) expect_chunk_ext r ≡ on_chunk_ext (next_fuel b 1) r
unfolding dispatch
dispatch-chunk_ext b r = refl

module _ (b : Boost) (more : Bytes) (r : Request) (u : r.code ≡ Code.error_insufficient_data)
    (h : r.idx < length r.ibuffer) where
  -- The byte at which the extension stops.
  stop-ResumesTo :
      (c i : ℕ)
      → ResumesTo b more
          (stop_chunk_ext (next_fuel b 1) c i (extend more r))
          (stop_chunk_ext (next_fuel b 1) c i r)
  unfolding stop_chunk_ext end_chunk_ext
  stop-ResumesTo c i = elim (Bool-cases (not (c == b'\r'))) [
    | inl bad ↦ rw bad (λ wait. cc)
    | inr good ↦ rw good (elim (Bool-cases (i - r.idx == 0)) [
      | inl zero_size ↦ rw zero_size (
          leaf-ResumesTo b more
            (record r { state = expext_crlf_after_chunk_ext; token_size = i - r.idx }) refl u h)
      | inr sized ↦ rw sized (λ wait. cc)
    ])
  ]

  module _ (fits : r.idx + r.token_size ≤ length r.ibuffer) where
    -- A run to the end of the buffer.
    ext_on :
        r.idx + r.token_size + span is_chunk_ext_char (drop (r.idx + r.token_size) r.ibuffer)
          ≡ length r.ibuffer
        → settled (
            on_chunk_ext
              (next_fuel b 1)
              (extend more (record r { token_size = length r.ibuffer - r.idx })))
          ≡ settled (on_chunk_ext (next_fuel b 1) (extend more r))
    ext_on end =
        let n = length r.ibuffer - r.idx in
        let at : r.idx + n ≡ length r.ibuffer = omega arith in
        let same : scan is_chunk_ext_char (r.ibuffer ++ more) (r.idx + n)
            ≡ scan is_chunk_ext_char (r.ibuffer ++ more) (r.idx + r.token_size) =
          rw
            (
              at,
              scan_end is_chunk_ext_char r.ibuffer more,
              scan-append is_chunk_ext_char r.ibuffer more (r.idx + r.token_size) fits,
            )
            (ground arith) in
        ap settled (on_chunk_ext_lem (next_fuel b 1) (extend more (record r { token_size = n })))
        ∙ ap
            (λ o.
              settled (behind_ext (next_fuel b 1) o (extend more (record r { token_size = n }))))
            same
        ∙ behind_ext-size (next_fuel b 1)
            (scan is_chunk_ext_char (r.ibuffer ++ more) (r.idx + r.token_size)) (extend more r) n
        ∙ sym (ap settled (on_chunk_ext_lem (next_fuel b 1) (extend more r)))

    pub chunk_ext-ResumesTo :
        r.state ≡ expect_chunk_ext
        → ResumesTo b more
            (on_chunk_ext (next_fuel b 1) (extend more r))
            (on_chunk_ext (next_fuel b 1) r)
    chunk_ext-ResumesTo s =
        let i =
          r.idx + r.token_size + span is_chunk_ext_char (drop (r.idx + r.token_size) r.ibuffer) in
        let at = scan-some is_chunk_ext_char r.ibuffer (r.idx + r.token_size) fits in
        let bound : i ≤ length r.ibuffer = omega (
          arith,
          fits,
          span-le is_chunk_ext_char (drop (r.idx + r.token_size) r.ibuffer),
          length-drop (r.idx + r.token_size) r.ibuffer,
        ) in
        let goal = ResumesTo b more (on_chunk_ext (next_fuel b 1) (extend more r)) in
        elim (Bool-cases (i == length r.ibuffer)) [
          | inl end ↦
              let r' = record r { token_size = length r.ibuffer - r.idx } in
              let all : i ≡ length r.ibuffer = ground arith in
              let here : on_chunk_ext (next_fuel b 1) r ≡ some r' =
                unfold on_chunk_ext in rw at (ground arith) in
              let go_on : next b (extend more r') ≡ on_chunk_ext (next_fuel b 1) (extend more r') =
                next-dispatch b expect_chunk_ext (extend more r') refl u (extend-has_byte more r' h)
                  s
                ∙ dispatch-chunk_ext b (extend more r') in
              subst goal (sym here) (λ wait. ap settled go_on ∙ ext_on all)
          | inr stop ↦
              let (c, read) = get_elem?_of_lt r.ibuffer i (ground arith) in
              let read_on : get_elem? (r.ibuffer ++ more) i ≡ some c =
                get_elem?-append r.ibuffer more i (ground arith) ∙ read in
              let here : on_chunk_ext (next_fuel b 1) r ≡ stop_chunk_ext (next_fuel b 1) c i r =
                unfold on_chunk_ext in rw (at, stop, read) refl in
              let scanned : scan is_chunk_ext_char (r.ibuffer ++ more) (r.idx + r.token_size)
                  ≡ some i =
                rw (scan-append is_chunk_ext_char r.ibuffer more (r.idx + r.token_size) fits, stop)
                  refl in
              let inside : (i == length (r.ibuffer ++ more)) ≡ false =
                let total = length-append r.ibuffer more in ground arith in
              let there : on_chunk_ext (next_fuel b 1) (extend more r)
                  ≡ stop_chunk_ext (next_fuel b 1) c i (extend more r) =
                unfold on_chunk_ext in rw (scanned, inside, read_on) refl in
              rw (here, there) (stop-ResumesTo c i)
        ]
