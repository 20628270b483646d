-- ===== src/Entry/Retry.antt =====
-- `place_market_order_with_retry` of src/strategy/entry.rs, which hedges a quantity with up to three
-- market orders. The metrics and the log that it keeps are left out.
use Prim.Native.String.{String}
use funding_spread_arbitrage.Prelude.{
  ℕ, zero, suc, ◌*◌, ◌^◌, if◌then◌else◌, if_last, ok, err, Action,
}
use funding_spread_arbitrage.Double.{Double, lit, ◌⊕◌, ◌⊖◌, ◌≼◌}
use funding_spread_arbitrage.Types.Order.{SimulatedOrder}
use funding_spread_arbitrage.Hedge.Backend.{ExecutionBackend, Clock}

-- The texts of its errors, by what they print: the last error of the exchange, or what was filled
-- and what was to be.
pub data HedgeError (F : Type 0) : Type 0 where
  unverified : String → HedgeError F
  placement_failed : String → HedgeError F
  only_filled : F → F → HedgeError F

module _ {B F : Type 0} ⦃x : ExecutionBackend B F⦄ ⦃c : Clock B⦄ ⦃d : Double F⦄ where
  -- The loop, on the attempts that are left and those that are made.
  unfoldable pub hedge_attempts :
      SimulatedOrder F
      → F
      → ℕ
      → ℕ
      → F
      → SimulatedOrder F
      → Action B (HedgeError F) (SimulatedOrder F)
  hedge_attempts order_template target_quantity zero made total_filled last_order b =
      (b, err (only_filled total_filled target_quantity))
  hedge_attempts order_template target_quantity (suc left) made total_filled last_order b =
      let remaining_qty = target_quantity ⊖ total_filled in
      let current_order = record order_template { size = remaining_qty } in
      let (b₁, placed) = x.place_market_order current_order b in
      let next = hedge_attempts order_template target_quantity left (suc made) in
      if remaining_qty ≼ lit 0 0
      then (b, ok (record last_order { size = total_filled }))
      else elim placed [
        | ok filled_order ↦
            let (b₂, verified) =
              x.get_order_status_detailed filled_order.exchange filled_order.id
                order_template.symbol b₁ in
            elim verified [
              | ok status_info ↦
                  let total = total_filled ⊕ status_info.filled_quantity in
                  let again = next total filled_order b₂ in
                  if target_quantity ≼ total
                  then (b₂, ok (record filled_order { size = total }))
                  else again
              | err e ↦
                  if_last left (b₂, err (unverified e))
                    (next total_filled filled_order (c.sleep (100 * 2 ^ made) b₂))
            ]
        | err e ↦
            if_last left (b₁, err (placement_failed e))
              (next total_filled last_order (c.sleep 500 b₁))
      ]

  unfoldable pub place_market_order_with_retry :
      SimulatedOrder F → F → Action B (HedgeError F) (SimulatedOrder F)
  unfolding hedge_attempts
  place_market_order_with_retry order_template target_quantity b =
      hedge_attempts order_template target_quantity 3 0 (lit 0 0) order_template b
