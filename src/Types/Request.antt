-- ===== src/Types/Request.antt =====
-- `OrderRequest` of src/strategy/types.rs, the entry of the execution queue.
use funding_spread_arbitrage.Prelude.{ℕ, Bool, ◌==◌}
use funding_spread_arbitrage.Double.{Double, lit}

pub record OrderRequest (F : Type 0) : Type 0 where
  pub order_id : ℕ
  pub symbol_id : ℕ
  pub exchange_id : ℕ
  pub side : ℕ
  pub order_type : ℕ
  pub price : F
  pub size : F
  pub timestamp_us : ℕ

module _ {F : Type 0} ⦃d : Double F⦄ where
  unfoldable pub market : ℕ → ℕ → ℕ → ℕ → F → ℕ → OrderRequest F
  market order_id symbol_id exchange_id side size timestamp_us = record {
    order_id = order_id;
    symbol_id = symbol_id;
    exchange_id = exchange_id;
    side = side;
    order_type = 0;
    price = lit 0 0;
    size = size;
    timestamp_us = timestamp_us;
  }

module _ {F : Type 0} where
  unfoldable pub limit : ℕ → ℕ → ℕ → ℕ → F → F → ℕ → OrderRequest F
  limit order_id symbol_id exchange_id side price size timestamp_us = record {
    order_id = order_id;
    symbol_id = symbol_id;
    exchange_id = exchange_id;
    side = side;
    order_type = 1;
    price = price;
    size = size;
    timestamp_us = timestamp_us;
  }

  unfoldable pub is_market : OrderRequest F → Bool
  is_market r = r.order_type == 0

  unfoldable pub is_limit : OrderRequest F → Bool
  is_limit r = r.order_type == 1

  unfoldable pub is_buy : OrderRequest F → Bool
  is_buy r = r.side == 0

  unfoldable pub is_sell : OrderRequest F → Bool
  is_sell r = r.side == 1
