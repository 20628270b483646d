-- ===== src/ExchangeParser/Decimals.antt =====
-- `parse_price_simd` reads decimals.
use funding_spread_arbitrage.Prelude.{
  ℕ, ◌+◌, ◌-◌, ◌≤◌, ◌<◌, ◌≡◌, ap, refl, sym, append-nil, ◌∙◌, Bool, true, false, List, [], ◌∷◌,
  ◌++◌, Option, none, some, arith, ltb, ◌==◌, if◌then◌else◌, length, All, all_cons,
}
use funding_spread_arbitrage.Double.{Double, lit, of_nat, neg, ◌⊕◌, ◌⊗◌, ◌⊘◌}
use funding_spread_arbitrage.ExchangeParser.{
  is_dot, is_minus, is_ascii_digit, digits, scan, skip_sign, starts_negative, parse_price_fast,
  parse_price_simd,
}

-- The bytes of digits.
abbrev pub chars : List ℕ → List ℕ
chars [] = []
chars (n ∷ ns) = (n + 48) ∷ chars ns

abbrev pub IsDigit : ℕ → Type 0
IsDigit n = n < 10

-- A point and what stands behind it, if there is one.
abbrev pub fraction : Option (List ℕ) → List ℕ
fraction none = []
fraction (some ns) = 46 ∷ chars ns

-- The bytes of a decimal: a minus or none, digits, and a point with digits or none.
abbrev pub decimal : Bool → List ℕ → Option (List ℕ) → List ℕ
decimal true ns fs = 45 ∷ (chars ns ++ fraction fs)
decimal false ns fs = chars ns ++ fraction fs

abbrev pub fraction_digits : Option (List ℕ) → List ℕ
fraction_digits none = []
fraction_digits (some ns) = ns

not_dot : (n : ℕ) → is_dot (n + 48) ≡ false
not_dot n = ground arith

not_minus : (n : ℕ) → is_minus (n + 48) ≡ false
not_minus n = ground arith

a_digit : (n : ℕ) → n < 10 → is_ascii_digit (n + 48) ≡ true
a_digit n p = ground arith

same : (n : ℕ) → n + 48 - 48 ≡ n
same n = omega arith

no_sign :
    (ns : List ℕ) (fs : Option (List ℕ))
    → (starts_negative (decimal false ns fs) ≡ false)
      × (skip_sign (decimal false ns fs) ≡ decimal false ns fs)
no_sign [] none = (refl, refl)
no_sign [] (some ns) = (refl, refl)
no_sign (n ∷ ns) fs = (not_minus n, rw (not_minus n) refl)

module _ {F : Type 0} ⦃d : Double F⦄ where
  -- The digits read from the left, `r` the value of those before.
  abbrev pub value_from : F → List ℕ → F
  value_from r [] = r
  value_from r (n ∷ ns) = value_from (r ⊗ lit 10 0 ⊕ of_nat n) ns

  scan-chars :
      (ns rest : List ℕ) (r : F) (places : ℕ) (found : Bool)
      → All IsDigit ns
      → scan (chars ns ++ rest) r places found
        ≡ scan rest (value_from r ns) (if found then places + length ns else places) found
  unfolding scan
  scan-chars [] rest r places true h = ap (λ n. scan rest r n true) (omega arith)
  scan-chars [] rest r places false h = refl
  scan-chars (n ∷ ns) rest r places true (all_cons p ps) =
      let next = r ⊗ lit 10 0 ⊕ of_nat n in
      rw (not_dot n, a_digit n p, same n)
        (scan-chars ns rest next (places + 1) true ps
          ∙ ap (λ k. scan rest (value_from next ns) k true) (omega arith))
  scan-chars (n ∷ ns) rest r places false (all_cons p ps) =
      rw (not_dot n, a_digit n p, same n)
        (scan-chars ns rest (r ⊗ lit 10 0 ⊕ of_nat n) places false ps)

  scan-fraction :
      (fs : Option (List ℕ)) (r : F)
      → All IsDigit (fraction_digits fs)
      → scan (fraction fs) r 0 false
        ≡ digits (value_from r (fraction_digits fs)) (length (fraction_digits fs))
  unfolding scan
  scan-fraction none r h = refl
  scan-fraction (some ns) r h =
      ap (λ l. scan l r 0 true) (sym (append-nil (chars ns)))
      ∙ scan-chars ns [] r 0 true h
      ∙ ap (digits (value_from r ns)) (omega arith)

  -- What stands before the point, and behind it.
  scan-decimal :
      (ns : List ℕ) (fs : Option (List ℕ))
      → All IsDigit ns
      → All IsDigit (fraction_digits fs)
      → scan (chars ns ++ fraction fs) (lit 0 0) 0 false
        ≡ digits
            (value_from (value_from (lit 0 0) ns) (fraction_digits fs))
            (length (fraction_digits fs))
  scan-decimal ns fs h k =
      scan-chars ns (fraction fs) (lit 0 0) 0 false h ∙ scan-fraction fs (value_from (lit 0 0) ns) k

  -- Digits with so many behind the point, and a sign.
  abbrev pub scaled : (ℕ → F) → Bool → F → ℕ → F
  scaled ten_to negative value places =
      let shifted = if ltb 0 places then value ⊘ ten_to places else value in
      if negative then neg shifted else shifted

  parse_price_simd-scan :
      (standard : List ℕ → Option F) (ten_to : ℕ → F) (s : List ℕ) (value : F) (places : ℕ)
      → 0 < length s
      → length s ≤ 32
      → scan (skip_sign s) (lit 0 0) 0 false ≡ digits value places
      → parse_price_simd standard ten_to s ≡ some (scaled ten_to (starts_negative s) value places)
  unfolding parse_price_simd parse_price_fast
  parse_price_simd-scan standard ten_to s value places some_byte short e =
      let not_empty : (length s == 0) ≡ false = ground arith in
      let not_long : ltb 32 (length s) ≡ false = ground arith in
      rw (parse_price_simd, parse_price_fast, not_empty, not_long, e) refl

  -- The number that a decimal means.
  abbrev pub meant : (ℕ → F) → Bool → List ℕ → Option (List ℕ) → F
  meant ten_to negative ns fs =
      scaled ten_to negative (value_from (value_from (lit 0 0) ns) (fraction_digits fs))
        (length (fraction_digits fs))

  -- A decimal of at least one byte and at most 32 is read without the standard parser: a minus or
  -- none, digits, and a point with digits or none have the value of the digits taken together, read
  -- from the left, divided by the power of ten of how many stand behind the point, and negated
  -- after a minus.
  pub parse_price_simd-decimal :
      (standard : List ℕ → Option F) (ten_to : ℕ → F) (negative : Bool) (ns : List ℕ)
      (fs : Option (List ℕ))
      → All IsDigit ns
      → All IsDigit (fraction_digits fs)
      → 0 < length (decimal negative ns fs)
      → length (decimal negative ns fs) ≤ 32
      → parse_price_simd standard ten_to (decimal negative ns fs)
        ≡ some (meant ten_to negative ns fs)
  unfolding parse_price_simd parse_price_fast
  parse_price_simd-decimal standard ten_to true ns fs h k some_byte short =
      parse_price_simd-scan standard ten_to (decimal true ns fs) _ _ some_byte short
        (scan-decimal ns fs h k)
  parse_price_simd-decimal standard ten_to false ns fs h k some_byte short =
      let (sign, body) = no_sign ns fs in
      parse_price_simd-scan standard ten_to (decimal false ns fs) _ _ some_byte short
        (ap (λ l. scan l (lit 0 0) 0 false) body ∙ scan-decimal ns fs h k)
      ∙ ap
          (λ b. some (
            scaled ten_to b (value_from (value_from (lit 0 0) ns) (fraction_digits fs))
              (length (fraction_digits fs))))
          sign
