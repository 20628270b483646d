-- ===== src/Hedge/Halt.antt =====
-- The flag `TRADING_HALTED` of src/strategy/atomic_execution.rs, as a value: whether it is set.
use funding_spread_arbitrage.Prelude.{Bool, true, false}

unfoldable pub halt_trading : Bool → Bool
halt_trading halted = true

unfoldable pub resume_trading : Bool → Bool
resume_trading halted = false

unfoldable pub is_trading_halted : Bool → Bool
is_trading_halted halted = halted
