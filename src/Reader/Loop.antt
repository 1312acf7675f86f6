-- ===== src/Reader/Loop.antt =====
-- The loop of a client, `do reader.next(); while (the code is a token)`, on one buffer, for any
-- reader.
use boost_http.Base.{
  Bool-cases, inl, inr, ℕ, zero, suc, ◌<◌, Bool, true, false, Option, some, ◌≡◌, ◌⊎◌, arith,
}

-- A reader, as the loop sees it: what stops the loop, the readers that it may meet, those at which
-- `next` is undefined, and how much is left to do.
pub record Reads (R : Type 0) : Type 1 where
  pub next : R → Option R
  pub is_over : R → Bool
  pub Good : R → Type 0
  pub Stuck : R → Type 0
  pub measure : R → ℕ
  pub stuck_or_not : (r : R) → Stuck r ⊎ ¬ Stuck r
  pub next_returns : (r : R) → Good r → ¬ Stuck r → (r' : R) × (next r ≡ some r') × Good r'
  pub next_less :
      (r r' : R) → Good r → Good r' → next r ≡ some r' → is_over r' ≡ false → measure r' < measure r

-- The loop ends in at most `n` calls: where `next` is undefined, with a reader that holds an error
-- or wants more data, or some calls after a token.
pub data Ends {R : Type 0} (reads : Reads R) : ℕ → R → Type 0 where
  at_stuck : {n : ℕ} {r : R} → reads.Stuck r → Ends reads (suc n) r
  at_stop :
      {n : ℕ} {r : R} (r' : R)
      → reads.next r ≡ some r'
      → reads.is_over r' ≡ true
      → reads.Good r'
      → Ends reads (suc n) r
  at_token :
      {n : ℕ} {r : R} (r' : R)
      → reads.next r ≡ some r'
      → reads.is_over r' ≡ false
      → Ends reads n r'
      → Ends reads (suc n) r

module _ {R : Type 0} (reads : Reads R) where
  pub measure-Ends : (n : ℕ) (r : R) → reads.Good r → reads.measure r < n → Ends reads n r
  measure-Ends zero r h lt = absurd (omega arith)
  measure-Ends (suc n) r h lt = elim (reads.stuck_or_not r) [
    | inl stuck ↦ at_stuck stuck
    | inr free ↦
        let (r', e, h') = reads.next_returns r h free in
        elim (Bool-cases (reads.is_over r')) [
          | inl stop ↦ at_stop r' e stop h'
          | inr on ↦
              let less = reads.next_less r r' h h' e on in
              at_token r' e on (measure-Ends n r' h' (omega arith))
        ]
  ]
