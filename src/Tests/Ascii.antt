-- ===== src/Tests/Ascii.antt =====
-- The Boost functions in the "C" locale, as values for the tests.
use boost_http.Base.{same, same_lem, ℕ, suc, Bool, [], ◌∷◌, map, refl, if◌then◌else◌, Bytes}
use boost_http.Header.{Boost, IsBoost, to_lower}

find : (ℕ → Bool) → Bytes → ℕ
find p [] = 0
find p (c ∷ cs) = if p c then suc (find p cs) else 0

unfoldable pub ascii : Boost
unfolding find same
ascii = record { iequals = λ v w. same (map to_lower v) (map to_lower w); find_if_not = find }

pub ascii-IsBoost : IsBoost ascii
unfolding ascii
ascii-IsBoost = record {
  find_end = λ p. refl;
  find_here = λ p c cs e. rw e;
  find_next = λ p c cs e. rw e;
  iequals_iff = λ v w. same_lem (map to_lower v) (map to_lower w);
}
