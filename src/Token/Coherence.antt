-- ===== src/Token/Coherence.antt =====
-- The two ways from a code to a category agree.
use boost_http.Base.{◌≡◌, refl}
use boost_http.Token.{Code, to_symbol, category_of_code, category_of_symbol}

-- For every code, the category of the code is the category of its symbol.
pub category_of_symbol-to_symbol :
    (c : Code) → category_of_symbol (to_symbol c) ≡ category_of_code c
unfolding to_symbol category_of_code category_of_symbol
category_of_symbol-to_symbol Code.skip = refl
category_of_symbol-to_symbol _ = refl
