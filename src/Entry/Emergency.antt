-- ===== src/Entry/Emergency.antt =====
-- `emergency_close_position` of src/strategy/entry.rs, which closes a leg that could not be hedged. The
-- flag that halts trading is passed on. Times and printing are left out.
use Prim.{Unit, tt}
use Prim.Native.String.{String, ◌++◌ as ◌<>◌}
use text.Mathlib.Text.{find?}
use funding_spread_arbitrage.Prelude.{
  ℕ, Bool, true, false, ◌||◌, none, some, if◌then◌else◌, Result, ok, err,
}
use funding_spread_arbitrage.Double.{Double, lit, ◌⊘◌}
use funding_spread_arbitrage.Types.Order.{OrderSide, OrderType, OrderStatus, SimulatedOrder}
use funding_spread_arbitrage.Hedge.Backend.{ExecutionBackend, Clock}
use funding_spread_arbitrage.Hedge.Placer.{PlaceError, failed_after, no_attempts, place_with_retry}
use funding_spread_arbitrage.Hedge.Halt.{halt_trading}

-- Rust's `contains`
abbrev contains : String → String → Bool
contains s t = elim (find? s t) [ none ↦ false | some _ ↦ true ]

-- The texts that are looked for stand in no other part of what is printed of an error.
abbrev pub is_quantity_limit : PlaceError → Bool
is_quantity_limit (failed_after n e) =
    contains e "Quantity greater than max quantity" || contains e "exceeds minimum limit"
is_quantity_limit no_attempts = false

abbrev pub opposite : OrderSide → OrderSide
opposite OrderSide.long = OrderSide.short
opposite OrderSide.short = OrderSide.long

-- The order, for a new id and the time of its creation.
abbrev pub close_order : {F : Type 0} → SimulatedOrder F → String → ℕ → SimulatedOrder F
close_order filled_order id now = record {
  id = "emergency_close_" <> id;
  exchange = filled_order.exchange;
  symbol = filled_order.symbol;
  side = opposite filled_order.side;
  order_type = OrderType.market;
  price = filled_order.price;
  size = filled_order.size;
  queue_position = none;
  created_at = now;
  filled_at = none;
  fill_price = none;
  status = OrderStatus.pending;
}

module _ {B F : Type 0} ⦃x : ExecutionBackend B F⦄ ⦃c : Clock B⦄ ⦃d : Double F⦄ where
  -- Both halves, one after the other: whether both were placed.
  unfoldable pub close_halves : SimulatedOrder F → B → B × Bool
  unfolding place_with_retry
  close_halves order b =
      let half_size = order.size ⊘ lit 2 0 in
      let close_order_half = record order { size = half_size } in
      let (b₁, first) = place_with_retry close_order_half 5 b in
      let (b₂, id) = c.new_uuid b₁ in
      let (b₃, second) =
        place_with_retry (record close_order_half { id = "emergency_close_" <> id }) 5 b₂ in
      elim first [
        | err e ↦ (b₁, false)
        | ok _ ↦ elim second [ ok _ ↦ (b₃, true) | err e ↦ (b₃, false) ]
      ]

  unfoldable pub emergency_close_position :
      SimulatedOrder F → B → Bool → B × Bool × Result PlaceError Unit
  unfolding close_halves place_with_retry halt_trading
  emergency_close_position filled_order b halted =
      let (b₁, id) = c.new_uuid b in
      let order = close_order filled_order id (c.unix_secs b₁) in
      let (b₂, placed) = place_with_retry order 10 b₁ in
      elim placed [
        | ok _ ↦ (b₂, halted, ok tt)
        | err e ↦
            let (b₃, both) = close_halves order b₂ in
            if is_quantity_limit e
            then (if both then (b₃, halted, ok tt) else (b₃, halt_trading halted, err e))
            else (b₂, halt_trading halted, err e)
      ]
