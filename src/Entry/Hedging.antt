-- ===== src/Entry/Hedging.antt =====
-- The hedges of `execute_atomic_entry_real` of src/strategy/entry.rs: once one leg has filled while the
-- orders are polled, the other is cancelled and placed again as a market order, or the filled leg is
-- closed. The code has this twice, for a long leg and for a short leg that fills first, with the
-- sides swapped; here the side of the filled leg is an argument.
use Prim.{Unit, tt}
use Prim.Native.String.{String}
use funding_spread_arbitrage.Prelude.{ℕ, true, Option, none, some, Result, ok, err}
use funding_spread_arbitrage.Double.{Double, lit, abs, ◌⊖◌, ◌≺◌}
use funding_spread_arbitrage.Types.Order.{
  OrderSide, OrderType, OrderStatus, OrderStatusInfo, SimulatedOrder,
}
use funding_spread_arbitrage.Types.Trade.{ArbitrageOpportunity}
use funding_spread_arbitrage.Hedge.Backend.{ExecutionBackend, Clock}
use funding_spread_arbitrage.Hedge.Legs.{
  BothLegsStatus, both_filled, only_long_filled, only_short_filled, neither_filled,
  check_both_legs_status,
}
use funding_spread_arbitrage.DepthChecker.{DepthCheckResult, should_abort}
use funding_spread_arbitrage.Entry.Retry.{HedgeError, place_market_order_with_retry}
use funding_spread_arbitrage.Entry.Emergency.{opposite}
use funding_spread_arbitrage.Entry.Desk.{
  Leg, Legs, Entry, leg, set_leg, exchange_of, price_of, pure, raise, ◌>>=◌, ◌>>◌, choose, asked,
  check_depth, close_position, new_order, too_shallow, close_failed, hedge_failed,
  hedge_and_close_failed,
}

-- How a part of the loop's body ends: the rest follows, or `continue`, or `break`.
pub data Step (F : Type 0) : Type 0 where
  next again stop : Legs F → Step F

module _ {F : Type 0} where
  -- A leg that is seen to have filled, with the quantity that it filled.
  abbrev pub filled_leg : Leg F → F → ℕ → Leg F
  filled_leg k quantity now = record k {
    filled = true;
    order = record k.order {
      status = OrderStatus.filled;
      filled_at = some now;
      fill_price = some k.order.price;
      size = quantity;
    };
  }

  abbrev pub resize : OrderSide → F → Legs F → Legs F
  resize side size l =
      let k = leg side l in set_leg side (record k { order = record k.order { size = size } }) l

  -- The leg of a side becomes an order that was placed for it, and counts as filled.
  abbrev pub filled_by : OrderSide → SimulatedOrder F → Legs F → Legs F
  filled_by side order l = set_leg side (record (leg side l) { order = order; filled = true }) l

  abbrev pub quantity_of : OrderSide → F → F → F
  quantity_of OrderSide.long long_qty short_qty = long_qty
  quantity_of OrderSide.short long_qty short_qty = short_qty

  abbrev pub resized : OrderSide → F → Legs F → Result String (SimulatedOrder F) → Legs F
  resized side size l (ok o) = resize side size l
  resized side size l (err e) = l

  abbrev pub to_option : Result String (OrderStatusInfo F) → Option (OrderStatusInfo F)
  to_option (ok i) = some i
  to_option (err e) = none

module _ {B F : Type 0} ⦃x : ExecutionBackend B F⦄ ⦃c : Clock B⦄ ⦃d : Double F⦄ where
  abbrev pub unix_secs : Entry B F ℕ
  unix_secs = asked (λ b. (b, c.unix_secs b))

  abbrev pub status_of :
      ArbitrageOpportunity F → SimulatedOrder F → Entry B F (Result String (OrderStatusInfo F))
  status_of o order = asked (x.get_order_status_detailed order.exchange order.id o.symbol)

  abbrev pub cancel : String → String → Entry B F (Result String Unit)
  cancel exchange id = asked (x.cancel_order exchange id)

  -- `check_both_legs_status`, its two questions one after the other.
  unfoldable pub both_legs_status : Legs F → Entry B F (Option (BothLegsStatus F))
  unfolding check_both_legs_status
  both_legs_status l = do
    long ←
        asked
          (x.get_order_status_detailed l.long.order.exchange l.long.order.id l.long.order.symbol)
    short ←
        asked
          (x.get_order_status_detailed l.short.order.exchange l.short.order.id l.short.order.symbol)
    pure (check_both_legs_status (to_option long) (to_option short))

  -- A market order closes what one side has too much.
  unfoldable pub reduce : OrderSide → ArbitrageOpportunity F → F → F → Legs F → Entry B F (Legs F)
  reduce side o diff size l = do
    now ← unix_secs
    placed ← asked (
        x.place_market_order (
          new_order "" (exchange_of side o) o.symbol (opposite side) OrderType.market
            (price_of side o) diff now))
    pure (resized side size l placed)

  unfoldable pub balance : ArbitrageOpportunity F → F → F → Legs F → Entry B F (Legs F)
  unfolding reduce
  balance o long_qty short_qty l =
      choose (lit 1 3 ≺ abs (long_qty ⊖ short_qty))
        (choose (short_qty ≺ long_qty) (reduce OrderSide.long o (long_qty ⊖ short_qty) short_qty l)
          (reduce OrderSide.short o (short_qty ⊖ long_qty) long_qty l))
        (pure l)

  -- Both have filled at once: the other leg is marked, too.
  unfoldable pub settle : OrderSide → ArbitrageOpportunity F → F → F → Legs F → Entry B F (Step F)
  unfolding balance
  settle side o long_qty short_qty l = do
    balanced ← balance o long_qty short_qty l
    now ← unix_secs
    pure (
        again (
          set_leg (opposite side)
            (filled_leg (leg (opposite side) balanced)
              (quantity_of (opposite side) long_qty short_qty) now)
            balanced))

  -- After the market orders of a hedge.
  unfoldable pub hedged :
      OrderSide → Legs F → Result (HedgeError F) (SimulatedOrder F) → Entry B F (Legs F)
  hedged side l (ok order) = pure (filled_by (opposite side) order l)
  hedged side l (err e) = do
    close_position (hedge_and_close_failed side e) (leg side l).order
    raise (hedge_failed side e)

  -- Too little depth for a hedge ends the entry, with the filled leg closed.
  unfoldable pub guard_depth :
      OrderSide → Legs F → Result String (DepthCheckResult F) → Entry B F Unit
  unfolding should_abort
  guard_depth side l (err e) = pure tt
  guard_depth side l (ok depth) =
      choose (should_abort depth)
        (do
          close_position close_failed (leg side l).order
          raise (too_shallow side depth.depth_ratio))
        (pure tt)

  unfoldable pub hedge : OrderSide → ArbitrageOpportunity F → F → Legs F → Entry B F (Legs F)
  unfolding guard_depth hedged place_market_order_with_retry
  hedge side o quantity l = do
    let other = (leg (opposite side) l).order
    depth ← check_depth other.exchange o.symbol quantity
    guard_depth side l depth
    now ← unix_secs
    cancelled ← cancel other.exchange other.id
    placed ← asked (
        place_market_order_with_retry
          (new_order "" (exchange_of (opposite side) o) o.symbol (opposite side) OrderType.market
            (price_of (opposite side) o) quantity now)
          quantity)
    hedged side l placed

  -- One leg is seen to have filled, the other not.
  unfoldable pub answer_fill :
      OrderSide
      → ArbitrageOpportunity F
      → F
      → Legs F
      → Option (BothLegsStatus F)
      → Entry B F (Step F)
  unfolding settle hedge
  answer_fill side o quantity l (some (both_filled long_qty short_qty)) =
      settle side o long_qty short_qty l
  answer_fill side o quantity l (some (only_long_filled _)) = do
    pure (next (← hedge side o quantity l))
  answer_fill side o quantity l (some (only_short_filled _)) = do
    pure (next (← hedge side o quantity l))
  answer_fill side o quantity l (some neither_filled) = do pure (next (← hedge side o quantity l))
  answer_fill side o quantity l none = do pure (next (← hedge side o quantity l))
