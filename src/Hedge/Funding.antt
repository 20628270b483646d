-- ===== src/Hedge/Funding.antt =====
-- `NegativeFundingTracker`: a position is left after two negative funding cycles in a row.
use Prim.Native.String.{String}
use funding_spread_arbitrage.Prelude.{
  ℕ, suc, ◌+◌, ◌%◌, ◌^◌, ◌≤◌, ◌<◌, ◌≡◌, refl, Bool, false, ◌&&◌, List, [], ◌∷◌, arith, leb,
  if◌then◌else◌, length,
}
use funding_spread_arbitrage.Double.{Double, lit, ◌≺◌}

pub record NegativeFundingTracker (F : Type 0) : Type 0 where
  pub symbol : String
  pub consecutive_negative_cycles : ℕ
  pub last_funding_rate : F

module _ {F : Type 0} ⦃d : Double F⦄ where
  unfoldable pub new : String → NegativeFundingTracker F
  new symbol = record {
    symbol = symbol;
    consecutive_negative_cycles = 0;
    last_funding_rate = lit 0 0;
  }

  unfoldable pub should_exit : NegativeFundingTracker F → Bool
  should_exit t = leb 2 t.consecutive_negative_cycles

  -- The counter is a `u32`.
  unfoldable pub update_funding : NegativeFundingTracker F → F → NegativeFundingTracker F × Bool
  update_funding t funding_rate =
      let n = if funding_rate ≺ lit 0 0 then (t.consecutive_negative_cycles + 1) % 2 ^ 32 else 0 in
      (record t { consecutive_negative_cycles = n; last_funding_rate = funding_rate }, leb 2 n)

  unfoldable pub reset : NegativeFundingTracker F → NegativeFundingTracker F
  reset t = record t { consecutive_negative_cycles = 0; last_funding_rate = lit 0 0 }

  -- the tracker after the rates of a log, newest first
  pub tracked : String → List F → NegativeFundingTracker F
  tracked symbol [] = new symbol
  tracked symbol (rate ∷ rates) = (update_funding (tracked symbol rates) rate).0

  -- The specification: how many of the newest rates are negative, and whether two are.
  abbrev negatives : List F → ℕ
  negatives [] = 0
  negatives (rate ∷ rates) = if rate ≺ lit 0 0 then suc (negatives rates) else 0

  abbrev pub last_two_negative : List F → Bool
  last_two_negative (a ∷ b ∷ rates) = (a ≺ lit 0 0) && (b ≺ lit 0 0)
  last_two_negative _ = false

  negatives-length : (rates : List F) → negatives rates ≤ length rates
  negatives-length [] = omega arith
  negatives-length (rate ∷ rates) = ground (arith, negatives-length rates)

  tracked-negatives :
      (symbol : String) (rates : List F)
      → length rates < 2 ^ 32
      → (tracked symbol rates).consecutive_negative_cycles ≡ negatives rates
  unfolding tracked new update_funding
  tracked-negatives symbol [] h = refl
  tracked-negatives symbol (rate ∷ rates) h =
      ground (arith, tracked-negatives symbol rates (omega arith), negatives-length rates)

  -- After any log of fewer than 2^32 rates, the newest among them, the tracker says exit exactly
  -- when the two newest rates are both negative, and so does the update that brought the newest.
  should_exit-tracked :
      (symbol : String) (rate : F) (rates : List F)
      → suc (length rates) < 2 ^ 32
      → (should_exit (tracked symbol (rate ∷ rates)) ≡ last_two_negative (rate ∷ rates))
        × ((update_funding (tracked symbol rates) rate).1 ≡ last_two_negative (rate ∷ rates))
  unfolding should_exit tracked update_funding
  should_exit-tracked symbol rate [] h = ground (arith, tracked-negatives symbol [] (omega arith))
  should_exit-tracked symbol rate (b ∷ rates) h =
      ground (arith, tracked-negatives symbol (b ∷ rates) (omega arith), negatives-length rates)
