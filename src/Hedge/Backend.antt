-- ===== src/Hedge/Backend.antt =====
-- The trait `ExecutionBackend` of src/strategy/execution_backend.rs. The exchanges keep their state
-- in `B`, and so does the clock; a call returns the state that it leaves behind, and its error is the
-- text that the code prints of it.
use Prim.{Unit}
use Prim.Native.String.{String}
use funding_spread_arbitrage.Prelude.{ℕ, Bool, List, Action}
use funding_spread_arbitrage.Types.Order.{SimulatedOrder, OrderStatus, OrderStatusInfo}
use funding_spread_arbitrage.Types.Market.{OrderBookDepth}

-- The arguments are those of the trait, an exchange's name before an order's id or a symbol.
pub record ExecutionBackend (B F : Type 0) : Type 0 where
  pub set_leverage : String → String → ℕ → Action B String Unit
  pub set_margin_type_isolated : String → String → Action B String Unit
  pub place_order : SimulatedOrder F → Action B String (SimulatedOrder F)
  pub place_market_order : SimulatedOrder F → Action B String (SimulatedOrder F)
  pub cancel_order : String → String → Action B String Unit
  pub get_order_status : String → String → Action B String OrderStatus
  pub get_order_status_detailed : String → String → String → Action B String (OrderStatusInfo F)
  pub get_available_balance : String → Action B String F
  pub get_all_balances : Action B String (List (String × F))
  pub is_symbol_tradeable : String → String → Action B String Bool
  pub get_order_book_depth : String → String → ℕ → Action B String (OrderBookDepth F)
  pub get_best_bid : String → String → Action B String F
  pub get_best_ask : String → String → Action B String F
  pub backend_name : String
  pub get_quantity_step : String → String → Action B String F

-- `Instant::now`, in milliseconds, `SystemTime::now`, in seconds, `tokio::time::sleep`, in
-- milliseconds, and `Uuid::new_v4`.
pub record Clock (B : Type 0) : Type 0 where
  pub instant : B → ℕ
  pub unix_secs : B → ℕ
  pub sleep : ℕ → B → B
  pub new_uuid : B → B × String
