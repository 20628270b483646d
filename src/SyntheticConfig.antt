-- ===== src/SyntheticConfig.antt =====
-- `SyntheticConfig` of src/strategy/synthetic_config.rs, without `from_env`, which reads the environment.
use Prim.Native.String.{String}
use funding_spread_arbitrage.Prelude.{
  ℕ, List, [], ◌∷◌, Option, none, some, ◌==◌, if◌then◌else◌, length, Result, ok, err,
}
use funding_spread_arbitrage.Double.{Double, lit, ◌≼◌}

pub record SyntheticConfig (F : Type 0) : Type 0 where
  pub synthetic_spread_bps : F
  pub synthetic_funding_delta : F
  pub estimated_position_size : F
  pub max_concurrent_trades : ℕ
  pub symbols_to_trade : List String

module _ {F : Type 0} ⦃d : Double F⦄ where
  -- `none` is `Ok(())`.
  unfoldable pub validate : SyntheticConfig F → Option String
  validate s =
      if s.synthetic_spread_bps ≼ lit 0 0
      then some "synthetic_spread_bps must be greater than 0"
      else if s.synthetic_funding_delta ≼ lit 0 0
      then some "synthetic_funding_delta must be greater than 0"
      else if s.estimated_position_size ≼ lit 0 0
      then some "estimated_position_size must be greater than 0"
      else if s.max_concurrent_trades == 0
      then some "max_concurrent_trades must be greater than 0"
      else if length s.symbols_to_trade == 0
      then some "symbols_to_trade cannot be empty"
      else none

  unfoldable pub new : F → F → F → ℕ → List String → Result String (SyntheticConfig F)
  unfolding validate
  new synthetic_spread_bps synthetic_funding_delta estimated_position_size max_concurrent_trades
        symbols_to_trade =
      let config : SyntheticConfig F = record {
        synthetic_spread_bps = synthetic_spread_bps;
        synthetic_funding_delta = synthetic_funding_delta;
        estimated_position_size = estimated_position_size;
        max_concurrent_trades = max_concurrent_trades;
        symbols_to_trade = symbols_to_trade;
      } in
      elim (validate config) [ none ↦ ok config | some e ↦ err e ]

  unfoldable pub default : SyntheticConfig F
  default = record {
    synthetic_spread_bps = lit 30 0;
    synthetic_funding_delta = lit 1 2;
    estimated_position_size = lit 1000 0;
    max_concurrent_trades = 3;
    symbols_to_trade = "BTCUSDT" ∷ "ETHUSDT" ∷ [];
  }
