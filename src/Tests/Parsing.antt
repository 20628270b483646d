-- ===== src/Tests/Parsing.antt =====
-- Prices, chunks and backoffs.
use funding_spread_arbitrage.Prelude.{
  ℕ, ◌^◌, ◌≡◌, refl, true, List, [], ◌∷◌, Option, none, some, arith, all_nil, all_cons,
}
use funding_spread_arbitrage.Double.{lit, neg}
use funding_spread_arbitrage.Double.Fixed.{Fixed, fixed_double}
use funding_spread_arbitrage.ExchangeParser.{parse_price_simd}
use funding_spread_arbitrage.ExchangeParser.Decimals.{decimal, meant, parse_price_simd-decimal}
use funding_spread_arbitrage.Utils.{chunk_vec}

-- A standard parser that reads nothing.
abbrev standard : List ℕ → Option Fixed
standard s = none

abbrev ten_to : ℕ → Fixed
ten_to n = lit (10 ^ n) 0

abbrev twelve : List ℕ
twelve = 1 ∷ 2 ∷ []

abbrev quarter : List ℕ
quarter = 2 ∷ 5 ∷ []

-- -12.25
price :
    parse_price_simd standard ten_to (decimal true twelve (some quarter)) ≡ some (neg (lit 1225 2))
unfolding parse_price_simd
price = refl

-- A minus alone is zero, and so is a point.
lone_minus : parse_price_simd standard ten_to (45 ∷ []) ≡ some (neg (lit {F = Fixed} 0 0))
unfolding parse_price_simd
lone_minus = refl

lone_point : parse_price_simd standard ten_to (46 ∷ []) ≡ some (lit {F = Fixed} 0 0)
unfolding parse_price_simd
lone_point = refl

parse_price_simd-decimal_example :
    parse_price_simd standard ten_to (decimal true twelve (some quarter))
    ≡ some (meant ten_to true twelve (some quarter))
parse_price_simd-decimal_example =
    parse_price_simd-decimal standard ten_to true twelve (some quarter)
      (all_cons (omega arith) (all_cons (omega arith) all_nil))
      (all_cons (omega arith) (all_cons (omega arith) all_nil)) (omega arith) (omega arith)

abbrev numbers : List ℕ
numbers = 1 ∷ 2 ∷ 3 ∷ 4 ∷ 5 ∷ []

in_twos : chunk_vec 6 numbers 2 ≡ some ((1 ∷ 2 ∷ []) ∷ (3 ∷ 4 ∷ []) ∷ (5 ∷ []) ∷ [])
unfolding chunk_vec
in_twos = refl
