-- ===== src/Tutorial/Ends.antt =====
-- The loop of on_socket_callback ends (doc/parsing_tutorial1h.cpp).
use boost_http.Base.{
  ℕ, zero, suc, ◌+◌, ◌*◌, true, some, ◌≡◌, refl, sym, ap, ◌∙◌, arith, Bool-cases, inl, inr,
  Option-cases, ◌⊎◌,
}
use mathlib.Core.Path.{subst}
use boost_http.Token.{Code}
use boost_http.Header.{Boost, IsBoost}
use boost_http.Reader.Loop.{Ends, at_stuck, at_stop, at_token}
use boost_http.Reader.Request.State.{Request}
use boost_http.Reader.Request.Value.{
  value_method, value_request_target, value_version, value_field_name, value_field_value,
}
use boost_http.Reader.Request.Next.{next}
use boost_http.Reader.Request.Outcome.{IsSound, is_failure}
use boost_http.Reader.Request.Reach.{Reach, stepped, Reach-safe}
use boost_http.Reader.Request.Safety.Fault.{next_safe}
use boost_http.Reader.Request.Progress.{is_over}
use boost_http.Reader.Request.Progress.Loop.{unread}
use boost_http.Reader.Request.Progress.Drained.{request_reads, next-Ends}
use boost_http.Tutorial.{
  Consumer, Run, returned, thrown, undefined, running, see_token, is_end, advance, and_then,
  read_round, read_loop,
}

-- The loop has ended, and where it has not thrown, at a token that ends it.
abbrev pub Ended : Run (Consumer × ℕ) → Type 0
Ended running = ⊥
Ended (returned (c, nparsed)) = is_end c.request_reader.code ≡ true
Ended _ = Unit {0}

-- What a round does to the reader.
abbrev Keeps : Consumer → Run Consumer → Type 0
Keeps c (returned c') = c'.request_reader ≡ c.request_reader
Keeps c running = ⊥
Keeps c _ = Unit {0}

abbrev Advances : Boost → Consumer → Run Consumer → Type 0
Advances b c (returned c') = next b c.request_reader ≡ some c'.request_reader
Advances b c running = ⊥
Advances b c _ = Unit {0}

see_token-Keeps : (k : Code) (c : Consumer) → Keeps c (see_token k c)
unfolding see_token
see_token-Keeps k c = ground (
  arith,
  Option-cases (value_method c.request_reader),
  Option-cases (value_request_target c.request_reader),
  Option-cases (value_version c.request_reader),
  Option-cases (value_field_name c.request_reader),
  Option-cases (value_field_value c.request_reader),
)

advance-Advances :
    (b : Boost) (c c' : Consumer)
    → c'.request_reader ≡ c.request_reader
    → Advances b c (advance b c')
advance-Advances b c c' same = elim (Option-cases (next b c'.request_reader)) [
  | inl bad ↦ rw bad tt
  | inr (r, e) ↦ rw e (ap (next b) (sym same) ∙ e)
]

read_round-Advances : (b : Boost) (c : Consumer) → Advances b c (read_round b c)
unfolding read_round
read_round-Advances b c = go (see_token c.request_reader.code c) (see_token-Keeps _ c)
  where
    go : (run : Run Consumer) → Keeps c run → Advances b c (and_then run (advance b))
    go (returned c') same = advance-Advances b c c' same
    go thrown h = tt
    go undefined h = tt
    go running h = absurd h

read_loop-suc :
    (b : Boost) (n : ℕ) (c : Consumer) (k : ℕ)
    → ((c' : Consumer) (m : ℕ)
        → next b c.request_reader ≡ some c'.request_reader
        → Ended (read_loop b n c' m))
    → Ended (read_loop b (suc n) c k)
unfolding read_loop
read_loop-suc b n c k rest = elim (Bool-cases (is_end c.request_reader.code)) [
  | inl end ↦ rw (end, read_loop) end
  | inr going ↦ rw (going, read_loop) (go (read_round b c) (read_round-Advances b c))
]
  where
    go :
        (run : Run Consumer)
        → Advances b c run
        → Ended (and_then run (λ c'. read_loop b n c' (k + c.request_reader.token_size)))
    go (returned c') e = rest c' (k + c.request_reader.token_size) e
    go thrown h = tt
    go undefined h = tt
    go running h = absurd h

failing_leaves :
    (k : Code) (c : Consumer)
    → is_failure k ≡ true
    → (see_token k c ≡ thrown) ⊎ (see_token k c ≡ undefined)
unfolding see_token
failing_leaves k c h = ground arith

over-Ended :
    (b : Boost) (n : ℕ) (c : Consumer) (k : ℕ)
    → IsSound c.request_reader
    → is_over c.request_reader ≡ true
    → Ended (read_loop b (suc n) c k)
unfolding read_loop read_round
over-Ended b n c k sound over = elim (Bool-cases (is_end c.request_reader.code)) [
  | inl end ↦ rw (end, read_loop) end
  | inr going ↦
      let failed : is_failure c.request_reader.code ≡ true = ground (arith, sound.failed) in
      elim (failing_leaves c.request_reader.code c failed) [
        | inl e ↦ rw (going, read_loop) (rw (e, read_round) tt)
        | inr e ↦ rw (going, read_loop) (rw (e, read_round) tt)
      ]
]

module _ (b : Boost) (laws : IsBoost b) where
  loop-Ended :
      (n : ℕ) (r : Request)
      → Ends (request_reads b laws) n r
      → Reach b r
      → (c : Consumer) (k : ℕ) → c.request_reader ≡ r
      → Ended (read_loop b (suc n) c k)
  loop-Ended zero r ends w c k same = elim ends [ ]
  loop-Ended (suc n) r (at_stuck stuck) w c k same = read_loop-suc b (suc n) c k (λ c' m e.
      let stop = (next_safe b r laws (Reach-safe b laws w).0).0 stuck in
      absurd (let e' = sym (ap (next b) same) ∙ e in cc))
  loop-Ended (suc n) r (at_stop r' e over good) w c k same = read_loop-suc b (suc n) c k (λ c' m e'.
      let here : r' ≡ c'.request_reader = (let e2 = sym e ∙ sym (ap (next b) same) ∙ e' in cc) in
      over-Ended b n c' m (subst IsSound here (Reach-safe b laws (stepped w e)).1)
        (ap is_over (sym here) ∙ over))
  loop-Ended (suc n) r (at_token r' e on rest) w c k same = read_loop-suc b (suc n) c k (λ c' m e'.
      let here : c'.request_reader ≡ r' = (let e2 = sym e' ∙ ap (next b) same ∙ e in cc) in
      loop-Ended n r' rest (stepped w e) c' m here)

  -- With a reader that calls of its members make from a new one, where each new buffer begins
  -- with all the unread bytes of the old one, and `n` bytes of the buffer behind its token, the
  -- `while` loop ends in fewer than `4 * n + 5` rounds: it throws, meets undefined behaviour, or
  -- stands at the want of more data or at the end of a message.
  pub read_loop-Ended :
      (c : Consumer) (nparsed : ℕ)
      → Reach b c.request_reader
      → Ended (read_loop b (4 * unread c.request_reader + 5) c nparsed)
  read_loop-Ended c nparsed w =
      let fuel : suc (4 * unread c.request_reader + 4) ≡ 4 * unread c.request_reader + 5 =
        omega arith in
      subst (λ f. Ended (read_loop b f c nparsed)) fuel
        (loop-Ended (4 * unread c.request_reader + 4) c.request_reader
          (next-Ends b c.request_reader laws (Reach-safe b laws w).0) w c nparsed refl)
