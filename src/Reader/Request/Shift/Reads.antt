-- ===== src/Reader/Request/Shift/Reads.antt =====
-- What the handlers read of a buffer with more bytes in front.
use boost_http.Base.{
  ℕ, suc, ◌+◌, ◌++◌, [], ◌∷◌, length, length-append, drop, get_elem?, scan, Option, none, some,
  Bool, Bytes, ◌≡◌, ap, ◌∙◌, arith,
}

pub drop-prefix : (pre xs : Bytes) (i : ℕ) → drop (length pre + i) (pre ++ xs) ≡ drop i xs
drop-prefix [] xs i = ap (λ n. drop n xs) (omega arith)
drop-prefix (c ∷ pre) xs i =
    let e : suc (length pre) + i ≡ suc (length pre + i) = omega arith in
    ap (λ n. drop n (c ∷ (pre ++ xs))) e ∙ drop-prefix pre xs i

pub get_elem?-prefix :
    (pre xs : Bytes) (i : ℕ) → get_elem? (pre ++ xs) (length pre + i) ≡ get_elem? xs i
get_elem?-prefix [] xs i = ap (get_elem? xs) (omega arith)
get_elem?-prefix (c ∷ pre) xs i =
    let e : suc (length pre) + i ≡ suc (length pre + i) = omega arith in
    ap (get_elem? (c ∷ (pre ++ xs))) e ∙ get_elem?-prefix pre xs i

abbrev pub farther : ℕ → Option ℕ → Option ℕ
farther n none = none
farther n (some i) = some (n + i)

pub scan-prefix :
    (p : ℕ → Bool) (pre xs : Bytes) (i : ℕ)
    → scan p (pre ++ xs) (length pre + i) ≡ farther (length pre) (scan p xs i)
unfolding scan
scan-prefix p pre xs i = rw (drop-prefix pre xs i) (let l = length-append pre xs in ground arith)
