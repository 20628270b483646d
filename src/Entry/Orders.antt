-- ===== src/Entry/Orders.antt =====
-- The orders of an entry, of src/strategy/entry.rs, and the simulated fill of one.
use Prim.Native.String.{String}
use funding_spread_arbitrage.Prelude.{ℕ, Bool, true, false, none, some, if◌then◌else◌}
use funding_spread_arbitrage.Double.{Double, lit, ◌⊗◌, ◌≼◌}
use funding_spread_arbitrage.Types.Order.{
  OrderSide, OrderType, OrderStatus, SimulatedOrder, QueuePosition,
}
use funding_spread_arbitrage.Hedge.Backend.{Clock}

module _ {B F : Type 0} ⦃c : Clock B⦄ where
  unfoldable pub create_market_order :
      String → String → OrderSide → F → F → B → B × SimulatedOrder F
  create_market_order exchange symbol side price size b =
      let now = c.unix_secs b in
      let (b₁, id) = c.new_uuid b in
      (
        b₁,
        record {
          id = id;
          exchange = exchange;
          symbol = symbol;
          side = side;
          order_type = OrderType.market;
          price = price;
          size = size;
          queue_position = none;
          created_at = now;
          filled_at = none;
          fill_price = none;
          status = OrderStatus.pending;
        },
      )

module _ {B F : Type 0} ⦃c : Clock B⦄ ⦃d : Double F⦄ where
  unfoldable pub create_limit_order :
      String → String → OrderSide → F → F → F → B → B × SimulatedOrder F
  create_limit_order exchange symbol side price size resting_depth b =
      let now = c.unix_secs b in
      let queue_position : QueuePosition F = record {
        price = price;
        cumulative_volume_at_price = lit 0 0;
        resting_depth_at_entry = resting_depth;
        fill_threshold_pct = lit 20 2;
        is_filled = false;
      } in
      let (b₁, id) = c.new_uuid b in
      (
        b₁,
        record {
          id = id;
          exchange = exchange;
          symbol = symbol;
          side = side;
          order_type = OrderType.limit;
          price = price;
          size = size;
          queue_position = some queue_position;
          created_at = now;
          filled_at = none;
          fill_price = none;
          status = OrderStatus.pending;
        },
      )

module _ {F : Type 0} ⦃d : Double F⦄ where
  -- The order as it is left, and the answer. `now` is the time of the fill.
  unfoldable pub simulate_order_fill : SimulatedOrder F → F → ℕ → SimulatedOrder F × Bool
  simulate_order_fill order cumulative_volume now = elim order.queue_position [
    | none ↦ (order, false)
    | some q ↦
        let seen = record q { cumulative_volume_at_price = cumulative_volume } in
        let fill_threshold = q.resting_depth_at_entry ⊗ q.fill_threshold_pct in
        if fill_threshold ≼ cumulative_volume
        then (
          record order {
            queue_position = some (record seen { is_filled = true });
            status = OrderStatus.filled;
            fill_price = some q.price;
            filled_at = some now;
          },
          true,
        )
        else (record order { queue_position = some seen }, false)
  ]
