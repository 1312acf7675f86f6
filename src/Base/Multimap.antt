-- ===== src/Base/Multimap.antt =====
-- What the program uses of `std::multimap<std::string, std::string>`: the list of its elements in
-- the order in which they are iterated over, that of their keys.
use mathlib.Core.Path.{◌≡◌, refl, sym, ap, ◌∙◌}
use mathlib.Core.Bool.{Bool, true, false}
use mathlib.Core.List.{List, [], ◌∷◌, ◌++◌, append_assoc, append-nil}
use mathlib.Core.Logic.{inl, inr}
use native.Mathlib.Omega.{arith}
use boost_http.Base.Tests.{ltb, if◌then◌else◌, Bool-cases}
use boost_http.Base.Spans.{Bytes, same, same_lem}

-- `std::less<std::string>`, which compares bytes as `unsigned char`.
pub less : Bytes → Bytes → Bool
less xs [] = false
less [] (y ∷ ys) = true
less (x ∷ xs) (y ∷ ys) =
    let rest = less xs ys in if ltb x y then true else if ltb y x then false else rest

abbrev pub Multimap : Type 0
Multimap = List (Bytes × Bytes)

-- `emplace`: behind the elements with the same key.
unfoldable pub insert : Bytes × Bytes → Multimap → Multimap
unfolding less
insert p [] = p ∷ []
insert p (q ∷ qs) = let rest = insert p qs in if less p.0 q.0 then p ∷ q ∷ qs else q ∷ rest

abbrev pub insert_all : Multimap → List (Bytes × Bytes) → Multimap
insert_all m [] = m
insert_all m (p ∷ ps) = insert_all (insert p m) ps

-- The values under a key, in order.
abbrev pub values : Bytes → List (Bytes × Bytes) → List Bytes
values k [] = []
values k (p ∷ ps) = if same k p.0 then p.1 ∷ values k ps else values k ps

abbrev pub IsSorted : Multimap → Type 0
IsSorted [] = Unit {0}
IsSorted (p ∷ []) = Unit {0}
IsSorted (p ∷ q ∷ qs) = (less q.0 p.0 ≡ false) × IsSorted (q ∷ qs)

-- The multimap of the pairs: its keys ascend, and under each key it has the values of the pairs, in
-- their order.
pub record Holds (ps : List (Bytes × Bytes)) (m : Multimap) : Type 0 where
  pub sorted : IsSorted m
  pub same_values : (k : Bytes) → values k m ≡ values k ps

less_irrefl : (a : Bytes) → less a a ≡ false
unfolding less
less_irrefl [] = refl
less_irrefl (x ∷ xs) = let rest = less_irrefl xs in ground arith

less_asym : (a b : Bytes) → less a b ≡ true → less b a ≡ false
unfolding less
less_asym a [] h = cc
less_asym [] (y ∷ ys) h = refl
less_asym (x ∷ xs) (y ∷ ys) h = ground (arith, less_asym xs ys)

less_below : (a b c : Bytes) → less a b ≡ true → less c b ≡ false → less a c ≡ true
unfolding less
less_below a [] c h g = cc
less_below a (y ∷ ys) [] h g = cc
less_below [] (y ∷ ys) (z ∷ zs) h g = refl
less_below (x ∷ xs) (y ∷ ys) (z ∷ zs) h g = ground (arith, less_below xs ys zs)

less_differs : (a b : Bytes) → less a b ≡ true → same a b ≡ false
less_differs a b h = elim (Bool-cases (same a b)) [
  | inr other ↦ other
  | inl e ↦
      let equal : a ≡ b = (same_lem a b).0 e in
      let less_self : less a a ≡ true = ap (less a) equal ∙ h in let never = less_irrefl a in cc
]

-- A key below the first has no values.
values_none :
    (k : Bytes) (q : Bytes × Bytes) (qs : Multimap)
    → IsSorted (q ∷ qs)
    → less k q.0 ≡ true
    → values k (q ∷ qs) ≡ []
values_none k q [] s h = rw (less_differs k q.0 h) refl
values_none k q (p ∷ ps) (g, s) h =
    rw (less_differs k q.0 h) (values_none k p ps s (less_below k q.0 p.0 h g))

IsSorted-tail : (q : Bytes × Bytes) (qs : Multimap) → IsSorted (q ∷ qs) → IsSorted qs
IsSorted-tail q [] s = tt
IsSorted-tail q (x ∷ xs) (g, s) = s

values_cons :
    (k : Bytes) (p : Bytes × Bytes) (ps : List (Bytes × Bytes))
    → values k (p ∷ []) ++ values k ps ≡ values k (p ∷ ps)
values_cons k p ps = elim (Bool-cases (same k p.0)) [ inl e ↦ rw e refl | inr e ↦ rw e refl ]

values-insert :
    (k : Bytes) (p : Bytes × Bytes) (m : Multimap)
    → IsSorted m
    → values k (insert p m) ≡ values k m ++ values k (p ∷ [])
unfolding insert
values-insert k p [] s = refl
values-insert k p (q ∷ qs) s = elim (Bool-cases (less p.0 q.0)) [
  | inr behind ↦ rw behind (elim (Bool-cases (same k q.0)) [
    | inl e ↦ rw e (ap (◌∷◌ q.1) (values-insert k p qs (IsSorted-tail q qs s)))
    | inr e ↦ rw e (values-insert k p qs (IsSorted-tail q qs s))
  ])
  | inl before ↦ rw before (elim (Bool-cases (same k p.0)) [
    | inr e ↦ rw e (sym (append-nil (values k (q ∷ qs))))
    | inl e ↦
        let below : less k q.0 ≡ true = ap (λ t. less t q.0) ((same_lem k p.0).0 e) ∙ before in
        rw e (rw (values_none k q qs s below) refl)
  ])
]

insert-IsSorted : (p : Bytes × Bytes) (m : Multimap) → IsSorted m → IsSorted (insert p m)
unfolding insert
insert-IsSorted p [] s = tt
insert-IsSorted p (q ∷ []) s = elim (Bool-cases (less p.0 q.0)) [
  | inl before ↦ rw before (less_asym p.0 q.0 before, tt)
  | inr behind ↦ rw behind (behind, tt)
]
insert-IsSorted p (q ∷ x ∷ xs) (g, s) =
    let rest = insert-IsSorted p (x ∷ xs) s in
    elim (Bool-cases (less p.0 q.0)) [
      | inl before ↦ rw before (less_asym p.0 q.0 before, (g, s))
      | inr behind ↦ rw behind (elim (Bool-cases (less p.0 x.0)) [
        | inl here ↦ (let r = rw here at rest in rw here (behind, r))
        | inr there ↦ (let r = rw there at rest in rw there (g, r))
      ])
    ]

insert_all-values :
    (k : Bytes) (ps : List (Bytes × Bytes)) (m : Multimap)
    → IsSorted m
    → IsSorted (insert_all m ps) × (values k (insert_all m ps) ≡ values k m ++ values k ps)
insert_all-values k [] m s = (s, sym (append-nil (values k m)))
insert_all-values k (p ∷ ps) m s =
    let (sorted, rest) = insert_all-values k ps (insert p m) (insert-IsSorted p m s) in
    (
      sorted,
      rest
          ∙ ap (λ (t : List Bytes). t ++ values k ps) (values-insert k p m s)
          ∙ append_assoc (values k m) (values k (p ∷ [])) (values k ps)
          ∙ ap (λ (t : List Bytes). values k m ++ t) (values_cons k p ps),
    )

pub insert_all-Holds : (ps : List (Bytes × Bytes)) → Holds ps (insert_all [] ps)
insert_all-Holds ps = record {
  sorted = (insert_all-values [] ps [] tt).0;
  same_values = λ k. (insert_all-values k ps [] tt).1;
}

pub insert_all-append :
    (ps qs : List (Bytes × Bytes)) (m : Multimap)
    → insert_all m (ps ++ qs) ≡ insert_all (insert_all m ps) qs
insert_all-append [] qs m = refl
insert_all-append (p ∷ ps) qs m = insert_all-append ps qs (insert p m)
