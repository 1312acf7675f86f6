-- ===== src/Header/Elements.antt =====
-- The elements of a comma-separated header value, and `header_value_any_of` as a fold over them.
use mathlib.Core.List.{reverse}
use boost_http.Base.{
  ℕ, zero, suc, ◌-◌, ◌≤◌, ◌<◌, Bool, true, false, not, Option, some, List, [], ◌∷◌, ◌==◌, length,
  take, drop, span, if◌then◌else◌, Bytes, ◌≡◌, refl, arith, Bool-cases, ==_iff, inl, inr,
  length-reverse, trim_right, take-trim_right, span-le, length-drop, sym, ap, ◌∙◌,
}
use boost_http.Header.{Boost, IsBoost}
use boost_http.Header.AnyOf.{isspace, visit, skip_comma, turn, any_of_loop, header_value_any_of}

-- The pieces between the commas.
abbrev cons_head : ℕ → List Bytes → List Bytes
cons_head c [] = (c ∷ []) ∷ []
cons_head c (s ∷ ss) = (c ∷ s) ∷ ss

pub split : Bytes → List Bytes
split [] = [] ∷ []
split (c ∷ cs) = if c == b',' then [] ∷ split cs else cons_head c (split cs)

pub trim_left : Bytes → Bytes
unfolding isspace
trim_left [] = []
trim_left (c ∷ cs) = let rest = trim_left cs in if isspace c then rest else c ∷ cs

abbrev nonempty : Bytes → List Bytes → List Bytes
nonempty [] rest = rest
nonempty (c ∷ cs) rest = (c ∷ cs) ∷ rest

abbrev trim_all : List Bytes → List Bytes
trim_all [] = []
trim_all (s ∷ ss) = nonempty (trim_right isspace (trim_left s)) (trim_all ss)

-- The pieces with the white space round them taken off, less the empty ones.
unfoldable pub elements : Bytes → List Bytes
unfolding split trim_left trim_right
elements v = trim_all (split v)

-- The predicate on each element in turn, up to the first that it accepts.
unfoldable pub any_fold {ℓ} : {S : Type ℓ} → (S → Bytes → S × Bool) → S → List Bytes → S × Bool
any_fold p s [] = (s, false)
any_fold p s (x ∷ xs) =
    let (s', stop) = p s x in elim stop [ true ↦ (s', true) | false ↦ any_fold p s' xs ]

not_comma : ℕ → Bool
not_comma c = not (c == b',')

-- The element that a piece holds, if any.
abbrev any_piece {ℓ} : {S : Type ℓ} → (S → Bytes → S × Bool) → S → Bytes → S × Bool
any_piece p s [] = (s, false)
any_piece p s (c ∷ cs) = p s (c ∷ cs)

abbrev split_rest : Bytes → List Bytes
split_rest [] = []
split_rest (c ∷ cs) = split cs

split_first :
    (v : Bytes)
    → split v
      ≡ take (span (λ c. not (c == b',')) v) v ∷ split_rest (drop (span (λ c. not (c == b',')) v) v)
unfolding split span
split_first [] = refl
split_first (c ∷ cs) = elim (Bool-cases (c == b',')) [
  | inl e ↦ rw e
  | inr e ↦ rw e (rw (split_first cs))
]

module _ (b : Boost) (laws : IsBoost b) where
  find_if_not-span : (p : ℕ → Bool) (xs : Bytes) → b.find_if_not p xs ≡ span p xs
  unfolding span
  find_if_not-span p [] = laws.find_end p
  find_if_not-span p (c ∷ cs) = elim (Bool-cases (p c)) [
    | inl e ↦ rw (laws.find_next p c cs e, e) (ap suc (find_if_not-span p cs))
    | inr e ↦ rw (laws.find_here p c cs e, e)
  ]

drop-span : (xs : Bytes) → drop (span isspace xs) xs ≡ trim_left xs
unfolding span trim_left
drop-span [] = refl
drop-span (c ∷ cs) = elim (Bool-cases (isspace c)) [ inl e ↦ rw e (drop-span cs) | inr e ↦ rw e ]

drop-length : (xs : Bytes) → drop (length xs) xs ≡ []
drop-length [] = refl
drop-length (c ∷ cs) = drop-length cs

any_piece-take {ℓ} :
    {S : Type ℓ} (p : S → Bytes → S × Bool) (s : S) (k : ℕ) (t : Bytes)
    → 0 < length t
    → any_piece p s (take k t) ≡ (if k == 0 then (s, false) else p s (take k t))
any_piece-take p s k [] h = elim h [ ]
any_piece-take p s zero (c ∷ cs) h = refl
any_piece-take p s (suc k) (c ∷ cs) h = ground arith

same_length_test :
    (v k vb behind l t : ℕ)
    → t ≡ l - vb
    → vb < l
    → behind ≤ t
    → ((vb == l - behind) ≡ (t - behind == 0)) × (l - behind - vb ≡ t - behind)
same_length_test v k vb behind l t e h le = (ground arith, omega arith)

module _ {ℓ} {S : Type ℓ} (b : Boost) (laws : IsBoost b) (p : S → Bytes → S × Bool) where
  visit-any_piece :
      (s : S) (seg : Bytes) → visit b p s seg ≡ any_piece p s (trim_right isspace (trim_left seg))
  unfolding visit
  visit-any_piece s seg =
      rw (find_if_not-span b laws isspace seg) (elim (Bool-cases (span isspace seg == length seg)) [
        | inl all ↦
            let blank : trim_left seg ≡ [] =
              sym (drop-span seg) ∙ rw ((==_iff (span isspace seg) _).0 all) (drop-length seg) in
            rw (all, blank) (unfold trim_right in refl)
        | inr more ↦
            let t = trim_left seg in
            let behind = span isspace (reverse t) in
            let len : length t ≡ length seg - span isspace seg =
              rw (← drop-span seg) (length-drop (span isspace seg) seg) in
            let left : span isspace seg < length seg = ground (arith, span-le isspace seg) in
            let le : behind ≤ length t =
              omega (arith, span-le isspace (reverse t), length-reverse t) in
            let sizes =
              same_length_test 0 0 (span isspace seg) behind (length seg) (length t) len left le in
            rw more (
              rw drop-span (
                rw (find_if_not-span b laws isspace (reverse t)) (
                  rw (sizes.0, sizes.1)
                    (sym (any_piece-take p s (length t - behind) t (omega arith))
                      ∙ ap (any_piece p s) (take-trim_right isspace t)))))
      ])

  -- What the fold makes of the elements behind a piece that gave `r`.
  abbrev fold_on : S × Bool → List Bytes → S × Bool
  fold_on (s, true) xs = (s, true)
  fold_on (s, false) xs = any_fold p s xs

  any_fold-nonempty :
      (s : S) (x : Bytes) (rest : List Bytes)
      → any_fold p s (nonempty x rest) ≡ fold_on (any_piece p s x) rest
  unfolding any_fold
  any_fold-nonempty s [] rest = refl
  any_fold-nonempty s (c ∷ cs) rest = elim (Bool-cases (p s (c ∷ cs)).1) [
    | inl e ↦ ground arith
    | inr e ↦ ground arith
  ]

  turn-fold_on :
      (again : S → Bytes → Option (S × Bool)) (r : S × Bool) (d : Bytes)
      → ((s : S) (c : ℕ) (cs : Bytes)
          → length (c ∷ cs) < length d
          → again s (c ∷ cs) ≡ some (any_fold p s (elements (c ∷ cs))))
      → turn again r (skip_comma d) ≡ some (fold_on r (trim_all (split_rest d)))
  unfolding turn skip_comma elements any_fold
  turn-fold_on again (s, true) d ih = refl
  turn-fold_on again (s, false) [] ih = refl
  turn-fold_on again (s, false) (c ∷ []) ih = refl
  turn-fold_on again (s, false) (c ∷ x ∷ xs) ih = ih s x xs (omega arith)

  any_of_loop-any_fold :
      (fuel : ℕ) (s : S) (v : Bytes)
      → length v < fuel
      → any_of_loop b p fuel s v ≡ some (any_fold p s (elements v))
  unfolding any_of_loop
  any_of_loop-any_fold zero s v h = absurd (omega arith)
  any_of_loop-any_fold (suc fuel) s v h =
      let found = span (λ c. not (c == b',')) v in
      turn-fold_on (any_of_loop b p fuel) (visit b p s (take found v)) (drop found v)
        (λ s' c cs shorter.
          any_of_loop-any_fold fuel s' (c ∷ cs) (omega (arith, length-drop found v)))
      ∙ rw (visit-any_piece s (take found v)) (
          ap some (
            sym (
              any_fold-nonempty s (trim_right isspace (trim_left (take found v)))
                (trim_all (split_rest (drop found v)))))
          ∙ unfold elements in rw (split_first v))

-- For every view, the loop ends and gives what the predicate gives on the elements of the value
-- in turn: the pieces between commas, trimmed of white space, the empty ones left out, up to the
-- first element that it accepts.
pub header_value_any_of-any_fold {ℓ} :
    {S : Type ℓ} (b : Boost)
    → IsBoost b
    → (p : S → Bytes → S × Bool) (s : S) (v : Bytes)
    → header_value_any_of b p s v ≡ some (any_fold p s (elements v))
unfolding header_value_any_of
header_value_any_of-any_fold b laws p s v =
    any_of_loop-any_fold b laws p (suc (length v)) s v (omega arith)
