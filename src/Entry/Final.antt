-- ===== src/Entry/Final.antt =====
-- What `execute_atomic_entry_real` of src/strategy/entry.rs does once its loop has ended: a last look at
-- two open orders, and the hedge of a leg that has filled alone, by the cancelled order's own fill,
-- an aggressive limit order and market orders. The side is an argument, as in Hedging.
use Prim.{tt}
use Prim.Native.String.{String, ◌++◌ as ◌<>◌}
use funding_spread_arbitrage.Prelude.{true, not, ◌&&◌, Result, ok, err, Action}
use funding_spread_arbitrage.Double.{Double, lit, ◌⊕◌, ◌⊖◌, ◌≼◌}
use funding_spread_arbitrage.Types.Order.{
  OrderSide, OrderType, OrderStatus, OrderStatusInfo, SimulatedOrder, is_fully_filled,
}
use funding_spread_arbitrage.Types.Trade.{ArbitrageOpportunity}
use funding_spread_arbitrage.Hedge.Backend.{ExecutionBackend, Clock}
use funding_spread_arbitrage.Entry.Retry.{place_market_order_with_retry}
use funding_spread_arbitrage.Entry.Emergency.{opposite}
use funding_spread_arbitrage.Entry.Desk.{
  Legs, Entry, leg, set_leg, exchange_of, price_of, pure, ◌>>=◌, ◌>>◌, choose, asked, with_lock,
  check_depth, new_order, neither_filled,
}
use funding_spread_arbitrage.Entry.Hedging.{
  resize, filled_by, unix_secs, status_of, cancel, guard_depth, hedged,
}
use funding_spread_arbitrage.Entry.Polling.{give_up}

module _ {F : Type 0} where
  -- A leg that the last look finds filled.
  abbrev pub found_filled : OrderSide → OrderStatusInfo F → Legs F → Legs F
  found_filled side info l =
      let k = leg side l in
      set_leg side
        (record k {
          filled = true;
          order = record k.order { status = OrderStatus.filled; size = info.filled_quantity };
        })
        l

module _ {F : Type 0} ⦃d : Double F⦄ where
  -- What the cancelled order had filled.
  abbrev pub filled_before : Result String (OrderStatusInfo F) → F
  filled_before (ok info) = lit 0 0 ⊕ info.filled_quantity
  filled_before (err e) = lit 0 0

-- What is filled of a hedge, and the legs.
pub record Progress (F : Type 0) : Type 0 where
  pub total_filled : F
  pub legs : Legs F

module _ {B F : Type 0} ⦃x : ExecutionBackend B F⦄ ⦃c : Clock B⦄ ⦃d : Double F⦄ where
  unfoldable pub looked_at :
      OrderSide → Legs F → Result String (OrderStatusInfo F) → Entry B F (Legs F)
  unfolding is_fully_filled
  looked_at side l (err e) = pure l
  looked_at side l (ok info) =
      choose (is_fully_filled info) (pure (found_filled side info l)) (pure l)

  unfoldable pub last_look : ArbitrageOpportunity F → Legs F → Entry B F (Legs F)
  unfolding looked_at give_up
  last_look o l =
      choose (not l.long.filled && not l.short.filled)
        (do
          long ← status_of o l.long.order
          l₁ ← looked_at OrderSide.long l long
          short ← status_of o l.short.order
          l₂ ← looked_at OrderSide.short l₁ short
          choose (not l₂.long.filled && not l₂.short.filled) (give_up neither_filled l₂) (pure l₂))
        (pure l)

  -- The aggressive limit order is cancelled unless it has filled what was left.
  unfoldable pub limit_answer :
      OrderSide
      → String
      → F
      → SimulatedOrder F
      → Progress F
      → Result String (OrderStatusInfo F)
      → Entry B F (Progress F)
  limit_answer side exchange remaining placed p (err e) = do cancel exchange placed.id; pure p
  limit_answer side exchange remaining placed p (ok info) =
      let total = p.total_filled ⊕ info.filled_quantity in
      choose (remaining ≼ info.filled_quantity)
        (pure record {
          total_filled = total;
          legs = filled_by side (record placed { size = total }) p.legs;
        })
        (do cancel exchange placed.id; pure (record p { total_filled = total }))

  unfoldable pub limit_placed :
      OrderSide
      → ArbitrageOpportunity F
      → F
      → Progress F
      → Result String (SimulatedOrder F)
      → Entry B F (Progress F)
  unfolding limit_answer
  limit_placed side o remaining p (err e) = pure p
  limit_placed side o remaining p (ok placed) = do
    asked (λ b. (c.sleep 2000 b, tt))
    status ← asked (x.get_order_status_detailed (exchange_of side o) placed.id o.symbol)
    limit_answer side (exchange_of side o) remaining placed p status

  -- `get_best_bid` for a short order, `get_best_ask` for a long one.
  abbrev pub touch_of : OrderSide → String → String → Action B String F
  touch_of OrderSide.short = x.get_best_bid
  touch_of OrderSide.long = x.get_best_ask

  unfoldable pub aggressive_limit :
      OrderSide → ArbitrageOpportunity F → F → Progress F → Result String F → Entry B F (Progress F)
  unfolding limit_placed
  aggressive_limit side o remaining p (err e) = pure p
  aggressive_limit side o remaining p (ok best_price) = do
    id ← asked c.new_uuid
    now ← unix_secs
    placed ← asked (
        x.place_order (
          new_order ("aggressive_hedge_" <> id) (exchange_of side o) o.symbol side OrderType.limit
            best_price remaining now))
    limit_placed side o remaining p placed

  -- What is left after the limit order is hedged with market orders.
  unfoldable pub complete_hedge :
      OrderSide → ArbitrageOpportunity F → F → Progress F → Entry B F (Legs F)
  unfolding hedged place_market_order_with_retry
  complete_hedge side o hedge_quantity p =
      let other = opposite side in
      choose (hedge_quantity ≼ p.total_filled)
        (pure (
          resize other p.total_filled
            (set_leg other (record (leg other p.legs) { filled = true }) p.legs)))
        (do
          let remaining = hedge_quantity ⊖ p.total_filled
          now ← unix_secs
          placed ← asked (
              place_market_order_with_retry
                (new_order "" (exchange_of other o) o.symbol other OrderType.market
                  (price_of other o) remaining now)
                remaining)
          hedged side p.legs placed)

  -- The hedge of a leg that has filled alone.
  unfoldable pub final_hedge : OrderSide → ArbitrageOpportunity F → Legs F → Entry B F (Legs F)
  unfolding guard_depth aggressive_limit complete_hedge
  final_hedge side o l = do
    let other = opposite side
    let order = (leg other l).order
    let hedge_quantity = (leg side l).order.size
    depth ← check_depth order.exchange o.symbol hedge_quantity
    guard_depth side l depth
    cancelled ← cancel order.exchange order.id
    status ← status_of o order
    let total_filled = filled_before status
    choose (hedge_quantity ≼ total_filled)
        (pure
          (resize other total_filled (set_leg other (record (leg other l) { filled = true }) l)))
        (do
          let remaining = hedge_quantity ⊖ total_filled
          touch ← asked (touch_of other (exchange_of other o) o.symbol)
          p ←
              aggressive_limit other o remaining (record { total_filled = total_filled; legs = l })
                touch
          complete_hedge side o hedge_quantity p)

  unfoldable pub hedge_if_alone : OrderSide → ArbitrageOpportunity F → Legs F → Entry B F (Legs F)
  unfolding final_hedge
  hedge_if_alone side o l =
      choose ((leg side l).filled && not (leg (opposite side) l).filled)
        (with_lock o.symbol (final_hedge side o l)) (pure l)
