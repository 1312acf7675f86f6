-- ===== src/Tutorial/Gather.antt =====
-- A printed request, as on_socket_callback gathers it (doc/parsing_tutorial1h.cpp).
use boost_http.Base.{
  ℕ, zero, suc, ◌+◌, ◌<◌, some, List, [], ◌∷◌, ◌++◌, ◌≡◌, refl, ap, ◌∙◌, arith, Bool-cases, inl,
  inr, Option-cases,
}
use boost_http.Token.{Code}
use boost_http.Header.{Boost}
use boost_http.Reader.Request.State.{Request}
use boost_http.Reader.Request.Next.{next}
use boost_http.Reader.Request.RoundTrip.{Item, item_of, read_tokens}
use boost_http.Tutorial.{Consumer, Run, returned, is_end, read_round, read_loop}
use boost_http.Tutorial.Items.{
  gather, at_reader, gather-at_reader, gather_keeps, IsMessage, see_token-gather, item_on, item_end,
}

gather-append : (xs ys : List Item) (c : Consumer) → gather (xs ++ ys) c ≡ gather ys (gather xs c)
gather-append [] ys c = refl
gather-append (x ∷ xs) ys c = gather-append xs ys _

-- The first of some calls of `next`, and the others.
pub record FirstToken (b : Boost) (n : ℕ) (r : Request) (items : List Item) (last : Request)
    : Type 0 where
  pub after : Request
  pub here : List Item
  pub behind : List Item
  pub calls_next : next b r ≡ some after
  pub kept : item_of after.code after ≡ some here
  pub others : read_tokens b n after ≡ some (behind, last)
  pub parts : items ≡ here ++ behind

pub read_tokens-FirstToken :
    (b : Boost) (n : ℕ) (r : Request) (items : List Item) (last : Request)
    → read_tokens b (suc n) r ≡ some (items, last)
    → FirstToken b n r items last
read_tokens-FirstToken b n r items last e = elim (Option-cases (next b r)) [
  | inl bad ↦ (let e' = rw bad at e in cc)
  | inr (r1, e1) ↦
      let e' = rw e1 at e in
      elim (Option-cases (item_of r1.code r1)) [
        | inl bad ↦ (let e2 = rw bad at e' in cc)
        | inr (here, i) ↦
            let e2 = rw i at e' in
            elim (Option-cases (read_tokens b n r1)) [
              | inl bad ↦ (let e3 = rw bad at e2 in cc)
              | inr ((behind, r2), t) ↦
                  let e3 : some (here ++ behind, r2) ≡ some (items, last) = rw t at e2 in
                  record {
                    after = r1;
                    here = here;
                    behind = behind;
                    calls_next = e1;
                    kept = i;
                    others = t ∙ cc;
                    parts = cc;
                  }
            ]
      ]
]

round-gather :
    (b : Boost) (c : Consumer) (here : List Item) (r : Request)
    → item_of c.request_reader.code c.request_reader ≡ some here
    → next b c.request_reader ≡ some r
    → read_round b c ≡ returned (at_reader r (gather here c))
unfolding read_round
round-gather b c here r i e =
    let called : next b (gather here c).request_reader ≡ some r =
      ap (next b) (gather_keeps here c) ∙ e in
    rw (see_token-gather c.request_reader.code c here refl i) (rw called refl)

-- The run stands at the end of a message, with the gathered consumer but for the reader.
abbrev pub Gathers : Run (Consumer × ℕ) → Consumer → Type 0
Gathers run c =
    (r : Request) × (n : ℕ) × (run ≡ returned (at_reader r c, n)) × (r.code ≡ Code.end_of_message)

pub read_loop-Gathers :
    (b : Boost) (n fuel : ℕ) (c : Consumer) (k : ℕ) (here behind : List Item) (last : Request)
    → item_of c.request_reader.code c.request_reader ≡ some here
    → read_tokens b n c.request_reader ≡ some (behind, last)
    → IsMessage (here ++ behind)
    → n < fuel
    → Gathers (read_loop b fuel c k) (gather (here ++ behind) c)
unfolding read_loop
read_loop-Gathers b n zero c k here behind last i t m enough = absurd (omega arith)
read_loop-Gathers b zero (suc fuel) c k here behind last i t m enough =
    elim (Bool-cases (is_end c.request_reader.code)) [
      | inl end ↦
          let (code, items) = item_end c.request_reader.code c.request_reader here behind i end m in
          (c.request_reader, k, rw (end, read_loop) (rw items refl), code)
      | inr on ↦
          let empty : behind ≡ [] = cc in
          absurd (rw empty at (item_on c.request_reader.code c.request_reader here behind i on m))
    ]
read_loop-Gathers b (suc n) (suc fuel) c k here behind last i t m enough =
    elim (Bool-cases (is_end c.request_reader.code)) [
      | inl end ↦
          let (code, items) = item_end c.request_reader.code c.request_reader here behind i end m in
          (c.request_reader, k, rw (end, read_loop) (rw items refl), code)
      | inr on ↦
          let first = read_tokens-FirstToken b n c.request_reader behind last t in
          let c1 = at_reader first.after (gather here c) in
          let rest = item_on c.request_reader.code c.request_reader here behind i on m in
          let (r, j, run, code) =
            read_loop-Gathers b n fuel c1 (k + c.request_reader.token_size) first.here first.behind
              last first.kept first.others (rw first.parts at rest) (omega arith) in
          let target : at_reader r (gather (first.here ++ first.behind) c1)
              ≡ at_reader r (gather (here ++ behind) c) =
            ap (at_reader r)
              (gather-at_reader (first.here ++ first.behind) first.after (gather here c))
            ∙ rw (gather-append here behind c, first.parts) refl in
          (
            r,
            j,
            rw (on, read_loop)
                (rw (round-gather b c here first.after i first.calls_next)
                  (run ∙ ap (λ q. returned (q, j)) target)),
            code,
          )
    ]
