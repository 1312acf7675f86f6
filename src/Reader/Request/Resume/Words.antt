-- ===== src/Reader/Request/Resume/Words.antt =====
-- The scans that a longer buffer goes on with.
use boost_http.Base.{
  ℕ, ◌+◌, ◌≤◌, Bool, ◌++◌, [], length, drop, drop-append, length-append, length-drop, span,
  span-append, span-le, scan, le→leb, ◌==◌, if◌then◌else◌, some, ◌≡◌, arith, Bytes, ◌∷◌, refl,
}

pub drop_all : (xs : Bytes) → drop (length xs) xs ≡ []
drop_all [] = refl
drop_all (x ∷ xs) = drop_all xs

-- A scan that stops in the old buffer stops there in the longer one, and another goes on from
-- the end of the old one.
pub scan-append :
    (p : ℕ → Bool) (xs ys : Bytes) (i : ℕ)
    → i ≤ length xs
    → scan p (xs ++ ys) i ≡ (
        if i + span p (drop i xs) == length xs
        then some (length xs + span p ys)
        else some (i + span p (drop i xs)))
unfolding scan
scan-append p xs ys i h =
    rw
      (
        le→leb i (length (xs ++ ys)) (omega (arith, length-append xs ys)),
        drop-append i xs ys h,
        span-append p (drop i xs) ys,
      )
      (ground (arith, length-drop i xs, span-le p (drop i xs)))

pub scan_end :
    (p : ℕ → Bool) (xs ys : Bytes) → scan p (xs ++ ys) (length xs) ≡ some (length xs + span p ys)
scan_end p xs ys =
    rw (scan-append p xs ys (length xs) (omega arith), drop_all xs) (unfold span in ground arith)
