-- ===== src/ExchangeParser.antt =====
-- The prices of src/exchange_parser.rs, `parse_price_simd` without AVX-512 and `parse_price_fast`. A text
-- is the list of its bytes.
pub mod Decimals
use funding_spread_arbitrage.Prelude.{
  ℕ, zero, suc, ◌+◌, ◌-◌, Bool, true, false, not, ◌&&◌, ◌||◌, List, [], ◌∷◌, Option, none, some,
  ltb, leb, ◌==◌, if◌then◌else◌, length,
}
use funding_spread_arbitrage.Double.{Double, lit, of_nat, neg, ◌⊕◌, ◌⊗◌, ◌⊘◌}

-- How the loop over the bytes ends: with the digits read and how many stood behind the point, with
-- the standard parser, or with no number.
pub data Scanned (F : Type 0) : Type 0 where
  digits : F → ℕ → Scanned F
  fallback : Scanned F
  invalid : Scanned F

abbrev pub is_ascii_digit : ℕ → Bool
is_ascii_digit byte = leb 48 byte && leb byte 57

abbrev pub is_dot : ℕ → Bool
is_dot byte = byte == 46

abbrev pub is_minus : ℕ → Bool
is_minus byte = byte == 45

abbrev pub starts_negative : List ℕ → Bool
starts_negative [] = false
starts_negative (byte ∷ bytes) = is_minus byte

abbrev pub skip_sign : List ℕ → List ℕ
skip_sign [] = []
skip_sign (byte ∷ bytes) = if is_minus byte then bytes else byte ∷ bytes

module _ {F : Type 0} ⦃d : Double F⦄ where
  unfoldable pub scan : List ℕ → F → ℕ → Bool → Scanned F
  scan [] result decimal_places found_decimal = digits result decimal_places
  scan (byte ∷ bytes) result decimal_places found_decimal =
      let rest =
        scan bytes (if is_dot byte then result else result ⊗ lit 10 0 ⊕ of_nat (byte - 48))
          (if is_dot byte || not found_decimal then decimal_places else decimal_places + 1)
          (is_dot byte || found_decimal) in
      if is_dot byte
      then (if found_decimal then fallback else rest)
      else if is_ascii_digit byte
      then rest
      else if byte == 101 || byte == 69
      then fallback
      else invalid

  -- `standard` is `str::parse`, and `ten_to n` is `10_f64.powi(n)`.
  module _ (standard : List ℕ → Option F) (ten_to : ℕ → F) where
    unfoldable pub parse_price_fast : List ℕ → Option F
    unfolding scan
    parse_price_fast s =
        if length s == 0 || ltb 32 (length s)
        then standard s
        else elim (scan (skip_sign s) (lit 0 0) 0 false) [
          | fallback ↦ standard s
          | invalid ↦ none
          | digits result decimal_places ↦
              let scaled =
                if ltb 0 decimal_places then result ⊘ ten_to decimal_places else result in
              some (if starts_negative s then neg scaled else scaled)
        ]

    unfoldable pub parse_price_simd : List ℕ → Option F
    unfolding parse_price_fast
    parse_price_simd s = if length s == 0 then none else parse_price_fast s
