-- ===== src/Base/Spans.antt =====
-- The loop `for (i = 0 ; i != size ; ++i) if (!p(v[i])) break;`, which most scanners share.
use Prim.Native.Nat.{ℕ, suc, ◌+◌, ◌≤◌, ◌<◌}
use mathlib.Core.Path.{◌≡◌, refl}
use mathlib.Core.Bool.{Bool, true, false, not, ◌||◌}
use mathlib.Core.List.{List, [], ◌∷◌, ◌++◌}
use mathlib.Core.Option.{Option, none, some}
use native.Mathlib.Omega.{arith}
use mathlib.Core.Logic.{inl, inr, ◌↔◌}
use boost_http.Base.Tests.{leb, ◌==◌, if◌then◌else◌, Bool-cases}
use boost_http.Base.Lists.{length, get_elem?, take, drop}

-- The octets of a buffer or a view, each below 256.
abbrev pub Bytes : Type 0
Bytes = List ℕ

-- The number of leading bytes that pass the test.
unfoldable pub span : (ℕ → Bool) → Bytes → ℕ
span p [] = 0
span p (c ∷ cs) = if p c then suc (span p cs) else 0

-- The final `i` of the loop started at `i`. Past the end the test `i != size` does not stop it,
-- and it reads out of bounds.
unfoldable pub scan : (ℕ → Bool) → Bytes → ℕ → Option ℕ
unfolding span
scan p b i = if leb i (length b) then some (i + span p (drop i b)) else none

-- Every byte passes the test.
abbrev pub All : (ℕ → Bool) → Bytes → Type 0
All p [] = Unit {0}
All p (c ∷ cs) = (p c ≡ true) × All p cs

pub span-le : (p : ℕ → Bool) (b : Bytes) → span p b ≤ length b
unfolding span
span-le p [] = omega arith
span-le p (c ∷ cs) = ground (arith, span-le p cs)

pub span-All : (p : ℕ → Bool) (b : Bytes) → All p (take (span p b) b)
unfolding span
span-All p [] = tt
span-All p (c ∷ cs) = ground (arith, span-All p cs)

-- A run that stops before the end stops at a byte that fails the test.
pub span_stops :
    (p : ℕ → Bool) (b : Bytes)
    → span p b < length b
    → (c : ℕ) × (get_elem? b (span p b) ≡ some c) × (p c ≡ false)
unfolding span
span_stops p [] h = absurd (omega arith)
span_stops p (c ∷ cs) h = elim (Bool-cases (p c)) [
  | inl good ↦ rw good (span_stops p cs (ground arith))
  | inr bad ↦ rw bad (c, refl, bad)
]

-- With more data behind it a run goes on only if it had reached the end.
pub span-append :
    (p : ℕ → Bool) (xs ys : Bytes)
    → span p (xs ++ ys) ≡ (if span p xs == length xs then length xs + span p ys else span p xs)
unfolding span
span-append p [] ys = ground arith
span-append p (c ∷ cs) ys = ground (arith, span-append p cs ys)

-- A run of good bytes behind which a bad one stands.
pub span_run :
    (p : ℕ → Bool) (xs : Bytes) (c : ℕ) (ys : Bytes)
    → All p xs
    → p c ≡ false
    → span p (xs ++ c ∷ ys) ≡ length xs
unfolding span
span_run p [] c ys h stop = ground arith
span_run p (x ∷ xs) c ys h stop = ground (arith, span_run p xs c ys h.1 stop)

-- `==` of two views.
unfoldable pub same : Bytes → Bytes → Bool
same (c ∷ v) (d ∷ w) = not (not (c == d) || not (same v w))
same [] [] = true
same [] (d ∷ w) = false
same (c ∷ v) [] = false

pub same_lem : (v w : Bytes) → (same v w ≡ true) ↔ (v ≡ w)
unfolding same
same_lem [] w = ground arith
same_lem v [] = ground arith
same_lem (c ∷ v) (d ∷ w) = let rest = same_lem v w in ground arith
