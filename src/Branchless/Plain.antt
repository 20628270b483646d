-- ===== src/Branchless/Plain.antt =====
-- The branchless tests agree with plain ones.
use funding_spread_arbitrage.Prelude.{
  ◌≡◌, refl, ap, ◌∙◌, if◌then◌else◌, Bool, true, false, ◌&&◌, ◌||◌,
}
use funding_spread_arbitrage.Double.{Double, lit, abs, ◌⊖◌, ◌⊗◌, ◌⊘◌, ◌≺◌, ◌≼◌}
use funding_spread_arbitrage.Branchless.{
  all_conditions_pass, any_condition_passes, is_valid_opportunity, should_exit_opportunity,
}

all_lem : (a b c : Bool) → all_conditions_pass a b c ≡ (a && b && c)
unfolding all_conditions_pass
all_lem true true true = refl
all_lem true true false = refl
all_lem true false true = refl
all_lem true false false = refl
all_lem false true true = refl
all_lem false true false = refl
all_lem false false true = refl
all_lem false false false = refl

any_lem : (a b c : Bool) → any_condition_passes a b c ≡ (a || b || c)
unfolding any_condition_passes
any_lem true true true = refl
any_lem true true false = refl
any_lem true false true = refl
any_lem true false false = refl
any_lem false true true = refl
any_lem false true false = refl
any_lem false false true = refl
any_lem false false false = refl

if_false : (a b : Bool) → (if a then b else false) ≡ (a && b)
if_false true b = refl
if_false false b = refl

module _ {F : Type 0} ⦃d : Double F⦄ where
  -- The spread has closed by nine tenths, if it was above zero, or zero is at or above 90.
  abbrev pub has_closed : F → F → Bool
  has_closed current_spread entry_spread = lit 90 0 ≼ (
      if lit 0 0 ≺ entry_spread
      then ((entry_spread ⊖ current_spread) ⊘ entry_spread) ⊗ lit 100 0
      else lit 0 0)

  -- The tests that are made on bits are the plain ones: an opportunity is valid exactly when
  -- spread, absolute funding and depth are each above their threshold, and is left exactly when
  -- the spread has closed by nine tenths, or is above 1.3 times the entry's, or the entry's
  -- absolute funding was above 0.0001 and the present one is below a fifth of it.
  bits_agree :
      (spread spread_min funding funding_min depth depth_min entry_spread entry_funding : F)
      → (is_valid_opportunity spread spread_min funding funding_min depth depth_min
          ≡ (spread_min ≺ spread && funding_min ≺ abs funding && depth_min ≺ depth))
        × (should_exit_opportunity spread entry_spread funding entry_funding ≡ (
            has_closed spread entry_spread
            || entry_spread ⊗ lit 13 1 ≺ spread
            || (lit 1 4 ≺ abs entry_funding && abs funding ≺ abs entry_funding ⊗ lit 2 1)))
  unfolding is_valid_opportunity should_exit_opportunity
  bits_agree spread spread_min funding funding_min depth depth_min entry_spread entry_funding = (
    all_lem (spread_min ≺ spread) (funding_min ≺ abs funding) (depth_min ≺ depth),
    any_lem (has_closed spread entry_spread) (entry_spread ⊗ lit 13 1 ≺ spread) _
        ∙ ap (λ f. has_closed spread entry_spread || entry_spread ⊗ lit 13 1 ≺ spread || f)
            (if_false (lit 1 4 ≺ abs entry_funding) (abs funding ≺ abs entry_funding ⊗ lit 2 1)),
  )
