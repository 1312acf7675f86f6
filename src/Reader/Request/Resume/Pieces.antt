-- ===== src/Reader/Request/Resume/Pieces.antt =====
-- The cases that leave in `token_size` what they have seen: the method, the request target and
-- the text before the version.
use boost_http.Base.{
  ℕ, suc, ◌+◌, ◌-◌, ◌<◌, ◌≤◌, ◌==◌, ◌++◌, [], ◌∷◌, min, Bool, length, drop, drop-append,
  length-append, length-drop, span, Bytes, Option, none, some, false, true, ◌≡◌, ◌≢◌, refl, sym,
  ◌∙◌, ap, arith, Bool-cases, inl, inr, Option-cases, le→leb, if◌then◌else◌, zero,
}
use mathlib.Core.Path.{subst}
use boost_http.Token.{Code}
use boost_http.Header.{Boost}
use boost_http.Reader.Request.State.{
  State, expect_static_str_after_target, expect_version, Request, fail, emit,
}
use boost_http.Reader.Request.StartLine.{
  expect_word, static_str, compare_static, on_static_str_after_target,
}
use boost_http.Reader.Request.Next.{is_insufficient, dispatch, next_fuel, next}
use boost_http.Reader.Request.Safety.Plain.{is_plain}
use boost_http.Reader.Request.Safety.Scans.{scan-some, IsBetween, compare_static-IsBetween}
use boost_http.Reader.Request.Resume.{extend, settle, settle_in, settled, ResumesTo}
use boost_http.Reader.Request.Resume.Words.{scan-append, scan_end, drop_all}
use boost_http.Reader.Request.Resume.Leaves.{extend-has_byte, next-dispatch}

-- The word goes on from the end of the old buffer as it does from its beginning.
word_on :
    (p : ℕ → Bool) (a : State) (c : Code) (more : Bytes) (r : Request)
    → r.idx < length r.ibuffer
    → r.idx + r.token_size ≤ length r.ibuffer
    → r.idx + r.token_size + span p (drop (r.idx + r.token_size) r.ibuffer) ≡ length r.ibuffer
    → expect_word p a c (extend more (record r { token_size = length r.ibuffer - r.idx }))
      ≡ expect_word p a c (extend more r)
unfolding expect_word
word_on p a c more r h fits end =
    let at : r.idx + (length r.ibuffer - r.idx) ≡ length r.ibuffer = omega arith in
    let l = length-append r.ibuffer more in
    rw (at, scan_end p r.ibuffer more, scan-append p r.ibuffer more (r.idx + r.token_size) fits)
      (ground arith)

pub word-ResumesTo :
    (b : Boost) (more : Bytes) (p : ℕ → Bool) (s a : State) (c : Code) (r : Request)
    → r.code ≡ Code.error_insufficient_data
    → r.idx < length r.ibuffer
    → r.idx + r.token_size ≤ length r.ibuffer
    → is_plain s ≡ true
    → r.state ≡ s
    → is_insufficient c ≡ false
    → ((q : Request) → dispatch b (next_fuel b 1) s q ≡ expect_word p a c q)
    → ResumesTo b more (expect_word p a c (extend more r)) (expect_word p a c r)
word-ResumesTo b more p s a c r u h fits plain e told d =
    let i = r.idx + r.token_size + span p (drop (r.idx + r.token_size) r.ibuffer) in
    let at = scan-some p r.ibuffer (r.idx + r.token_size) fits in
    elim (Bool-cases (i == length r.ibuffer)) [
      | inl end ↦
          let r' = record r { token_size = length r.ibuffer - r.idx } in
          let here : expect_word p a c r ≡ some r' = unfold expect_word in rw at (ground arith) in
          subst (ResumesTo b more (expect_word p a c (extend more r))) (sym here) (λ wait.
            ap settled (
              next-dispatch b s (extend more r') plain u (extend-has_byte more r' h) e
              ∙ d (extend more r')
              ∙ word_on p a c more r h fits (ground arith)))
      | inr stop ↦ unfold expect_word in rw (at, stop) (ground arith)
    ]

-- The comparison goes on where the buffer has ended.
compare_static-append :
    (k : ℕ) (ss xs ys : Bytes) (j : ℕ)
    → compare_static k ss xs ≡ some j
    → j ≢ k + length ss
    → (j ≡ k + length xs)
      × (compare_static k ss (xs ++ ys) ≡ compare_static j (drop (length xs) ss) ys)
unfolding compare_static
compare_static-append k [] xs ys j e ne = ground arith
compare_static-append k (s ∷ ss) [] ys j e ne = ground arith
compare_static-append k (s ∷ ss) (c ∷ cs) ys j e ne =
    ground (arith, compare_static-append (suc k) ss cs ys j)

drop-nil : (n : ℕ) → drop {A = ℕ} n [] ≡ []
drop-nil zero = refl
drop-nil (suc n) = refl

pub drop-drop : (n m : ℕ) (xs : Bytes) → drop n (drop m xs) ≡ drop (m + n) xs
drop-drop n zero xs = ap (λ k. drop k xs) (omega arith)
drop-drop n (suc m) [] = drop-nil n ∙ sym (drop-nil (suc m + n))
drop-drop n (suc m) (x ∷ xs) =
    let same : suc (m + n) ≡ suc m + n = omega arith in
    drop-drop n m xs ∙ ap (λ k. drop k (x ∷ xs)) same

-- What the case does with the result of the comparison.
abbrev settle_static : Option ℕ → Request → Request
settle_static none r = fail Code.error_invalid_data r
settle_static (some k) r =
    if k == length static_str
    then emit expect_version Code.skip k r
    else record r { token_size = k }

on_static_lem :
    (r : Request)
    → r.idx + r.token_size ≤ length r.ibuffer
    → r.token_size ≤ length static_str
    → on_static_str_after_target r
      ≡ some (
          settle_static
            (compare_static r.token_size
              (drop r.token_size static_str)
              (drop (r.idx + r.token_size) r.ibuffer))
            r)
unfolding on_static_str_after_target
on_static_lem r fits short =
    rw
      (le→leb (r.idx + r.token_size) (min (length r.ibuffer) (r.idx + length static_str))
        (omega arith))
      (elim (Option-cases (
        compare_static r.token_size (drop r.token_size static_str)
          (drop (r.idx + r.token_size) r.ibuffer))) [ inl e ↦ rw e | inr (k, e) ↦ rw e ])

-- Only the size of the token differs, and only in an error.
settle_static-size :
    (o : Option ℕ) (r : Request) (n : ℕ)
    → settle (settle_static o (record r { token_size = n })) ≡ settle (settle_static o r)
unfolding settle settle_in
settle_static-size none r n = refl
settle_static-size (some k) r n = elim (Bool-cases (k == length static_str)) [
  | inl all ↦ rw all
  | inr part ↦ rw part
]

static_on :
    (more : Bytes) (r : Request) (k : ℕ)
    → r.idx + r.token_size ≤ length r.ibuffer
    → r.token_size < length static_str
    → compare_static r.token_size
        (drop r.token_size static_str)
        (drop (r.idx + r.token_size) r.ibuffer)
      ≡ some k
    → k ≢ length static_str
    → settled (on_static_str_after_target (extend more (record r { token_size = k })))
      ≡ settled (on_static_str_after_target (extend more r))
static_on more r k fits short e part =
    let seen = r.token_size in
    let left = drop seen static_str in
    let rest = drop (r.idx + seen) r.ibuffer in
    let size_left : length left ≡ length static_str - seen = length-drop seen static_str in
    let size_rest : length rest ≡ length r.ibuffer - (r.idx + seen) =
      length-drop (r.idx + seen) r.ibuffer in
    let between : IsBetween seen (seen + length left) (seen + length rest) (some k) =
      subst (IsBetween seen (seen + length left) (seen + length rest)) e
        (compare_static-IsBetween seen left rest) in
    let bound : k ≤ length static_str = omega (arith, between.1) in
    let on = compare_static-append seen left rest more k e (λ all. part (omega arith)) in
    let stop : r.idx + k ≡ length r.ibuffer = omega (arith, on.0) in
    let total = length-append r.ibuffer more in
    let from_end : drop (r.idx + k) (r.ibuffer ++ more) ≡ more =
      ap (λ n. drop n (r.ibuffer ++ more)) stop
      ∙ drop-append (length r.ibuffer) r.ibuffer more (omega arith)
      ∙ ap (λ xs. xs ++ more) (drop_all r.ibuffer) in
    let same : compare_static k (drop k static_str) (drop (r.idx + k) (r.ibuffer ++ more))
        ≡ compare_static seen left (drop (r.idx + seen) (r.ibuffer ++ more)) =
      ap (compare_static k (drop k static_str)) from_end
      ∙ ap (λ n. compare_static k (drop n static_str) more) on.0
      ∙ ap (λ xs. compare_static k xs more) (sym (drop-drop (length rest) seen static_str))
      ∙ sym on.1
      ∙ ap (compare_static seen left) (sym (drop-append (r.idx + seen) r.ibuffer more fits)) in
    ap settled (on_static_lem (extend more (record r { token_size = k })) (omega arith) bound)
    ∙ ap some (
        ap (λ o. settle (settle_static o (extend more (record r { token_size = k })))) same
        ∙ settle_static-size (compare_static seen left (drop (r.idx + seen) (r.ibuffer ++ more)))
            (extend more r) k)
    ∙ sym (ap settled (on_static_lem (extend more r) (omega arith) (omega arith)))

dispatch-static :
    (b : Boost) (r : Request)
    → dispatch b (next_fuel b 1) expect_static_str_after_target r ≡ on_static_str_after_target r
unfolding dispatch
dispatch-static b r = refl

pub static-ResumesTo :
    (b : Boost) (more : Bytes) (r : Request)
    → r.code ≡ Code.error_insufficient_data
    → r.idx < length r.ibuffer
    → r.idx + r.token_size ≤ length r.ibuffer
    → r.token_size < length static_str
    → r.state ≡ expect_static_str_after_target
    → ResumesTo b more (on_static_str_after_target (extend more r)) (on_static_str_after_target r)
static-ResumesTo b more r u h fits short s =
    let o =
      compare_static r.token_size (drop r.token_size static_str)
        (drop (r.idx + r.token_size) r.ibuffer) in
    subst (ResumesTo b more (on_static_str_after_target (extend more r)))
      (sym (on_static_lem r fits (omega arith)))
      (elim (Option-cases o) [
        | inl e ↦ rw e (λ wait. cc)
        | inr (k, e) ↦ rw e (elim (Bool-cases (k == length static_str)) [
          | inl all ↦ rw all (λ wait. cc)
          | inr part ↦ rw part (λ wait.
              let r' = record r { token_size = k } in
              let go_on : next b (extend more r') ≡ on_static_str_after_target (extend more r') =
                next-dispatch b expect_static_str_after_target (extend more r') refl u
                  (extend-has_byte more r' h) s
                ∙ dispatch-static b (extend more r') in
              ap settled go_on ∙ static_on more r k fits short e (ground arith))
        ])
      ])
