-- ===== src/Entry/Balanced.antt =====
-- What is recorded when both legs have filled at once and differ.
use funding_spread_arbitrage.Prelude.{ℕ, ◌≡◌, refl, Bool, true, false, Result, ok, if◌then◌else◌}
use funding_spread_arbitrage.Double.{Double, lit, abs, ◌⊖◌, ◌≺◌}
use funding_spread_arbitrage.Types.Order.{OrderSide, OrderType, SimulatedOrder}
use funding_spread_arbitrage.Types.Trade.{ArbitrageOpportunity}
use funding_spread_arbitrage.Hedge.Backend.{ExecutionBackend, Clock}
use funding_spread_arbitrage.Entry.Emergency.{opposite}
use funding_spread_arbitrage.Entry.Desk.{
  Desk, EntryError, Legs, leg, set_leg, exchange_of, price_of, pure, asked, choose, ◌>>=◌,
  new_order,
}
use funding_spread_arbitrage.Entry.Hedging.{
  Step, again, quantity_of, filled_leg, resize, reduce, balance, settle,
}

abbrev is_long : OrderSide → Bool
is_long OrderSide.long = true
is_long OrderSide.short = false

-- Whether a side is the other.
abbrev same_side : OrderSide → OrderSide → Bool
same_side OrderSide.long other = is_long other
same_side OrderSide.short OrderSide.long = false
same_side OrderSide.short OrderSide.short = true

module _ {F : Type 0} where
  -- The sizes that are recorded of two legs after `settle`, where `side` was seen to fill first and
  -- `excess` has filled more.
  pub record HasSizes (side excess : OrderSide) (long_qty short_qty : F) (l k : Legs F)
      : Type 0 where
    pub first : (leg side k).order.size ≡ (
        if same_side side excess
        then quantity_of (opposite side) long_qty short_qty
        else (leg side l).order.size)
    pub second : (leg (opposite side) k).order.size ≡ quantity_of (opposite side) long_qty short_qty

  -- A market order for a size on the other side of a leg: it closes so much of the leg.
  pub record Closes (o : ArbitrageOpportunity F) (side : OrderSide) (size : F)
      (order : SimulatedOrder F) : Type 0 where
    pub symbol_of : order.symbol ≡ o.symbol
    pub exchange_of_leg : order.exchange ≡ exchange_of side o
    pub side_of : order.side ≡ opposite side
    pub type_of : order.order_type ≡ OrderType.market
    pub size_of : order.size ≡ size

  -- The legs after `settle`.
  abbrev settled_legs : OrderSide → OrderSide → F → F → Legs F → ℕ → Legs F
  settled_legs side excess long_qty short_qty l now =
      let b = resize excess (quantity_of (opposite excess) long_qty short_qty) l in
      set_leg (opposite side)
        (filled_leg (leg (opposite side) b) (quantity_of (opposite side) long_qty short_qty) now) b

  settled_legs-HasSizes :
      (side excess : OrderSide) (long_qty short_qty : F) (l : Legs F) (now : ℕ)
      → HasSizes side excess long_qty short_qty l
          (settled_legs side excess long_qty short_qty l now)
  settled_legs-HasSizes OrderSide.long OrderSide.long long_qty short_qty l now = record {
    first = refl;
    second = refl;
  }
  settled_legs-HasSizes OrderSide.long OrderSide.short long_qty short_qty l now = record {
    first = refl;
    second = refl;
  }
  settled_legs-HasSizes OrderSide.short OrderSide.long long_qty short_qty l now = record {
    first = refl;
    second = refl;
  }
  settled_legs-HasSizes OrderSide.short OrderSide.short long_qty short_qty l now = record {
    first = refl;
    second = refl;
  }

module _ {F : Type 0} where
  -- Goes on with legs of these sizes.
  abbrev pub GoesOn : OrderSide → OrderSide → F → F → Legs F → Step F → Type 0
  GoesOn side excess long_qty short_qty l step =
      (k : Legs F) × (step ≡ again k) × HasSizes side excess long_qty short_qty l k

module _ {F : Type 0} ⦃d : Double F⦄ where
  -- What one side has filled more than the other.
  abbrev pub difference : OrderSide → F → F → F
  difference excess long_qty short_qty =
      quantity_of excess long_qty short_qty ⊖ quantity_of (opposite excess) long_qty short_qty

module _ {B F : Type 0} ⦃x : ExecutionBackend B F⦄ where
  -- One order has been placed, which closes so much of a side, and a step has gone on.
  pub record Closed {A : Type 0} (o : ArbitrageOpportunity F) (side : OrderSide) (size : F)
      (s : Desk B F) (P : A → Type 0) (r : Desk B F × Result (EntryError F) A) : Type 0 where
    pub order : SimulatedOrder F
    pub closes : Closes o side size order
    pub answer : A
    pub moved : r ≡ (record s { exchanges = (x.place_market_order order s.exchanges).0 }, ok answer)
    pub meets : P answer

module _ {B F : Type 0} ⦃x : ExecutionBackend B F⦄ ⦃c : Clock B⦄ ⦃d : Double F⦄
    (takes : (order : SimulatedOrder F) (b : B)
      → (placed : SimulatedOrder F) × ((x.place_market_order order b).1 ≡ ok placed)) where
  reduced :
      (side : OrderSide) (o : ArbitrageOpportunity F) (diff size : F) (l : Legs F) (s : Desk B F)
      → Closed o side diff s (λ k. k ≡ resize side size l) (reduce side o diff size l s)
  unfolding reduce asked pure ◌>>=◌
  reduced side o diff size l s =
      let order =
        new_order "" (exchange_of side o) o.symbol (opposite side) OrderType.market
          (price_of side o) diff (c.unix_secs s.exchanges) in
      record {
        order = order;
        closes = record {
          symbol_of = refl;
          exchange_of_leg = refl;
          side_of = refl;
          type_of = refl;
          size_of = refl;
        };
        answer = resize side size l;
        moved = rw (reduce, (takes order s.exchanges).1) refl;
        meets = refl;
      }

  balanced :
      (excess : OrderSide) (o : ArbitrageOpportunity F) (long_qty short_qty : F) (l : Legs F)
      (s : Desk B F)
      → (lit 1 3 ≺ abs (long_qty ⊖ short_qty)) ≡ true
      → (short_qty ≺ long_qty) ≡ is_long excess
      → Closed o excess
          (difference excess long_qty short_qty)
          s
          (λ k. k ≡ resize excess (quantity_of (opposite excess) long_qty short_qty) l)
          (balance o long_qty short_qty l s)
  unfolding balance choose
  balanced OrderSide.long o long_qty short_qty l s h e =
      rw (balance, h, e) (reduced OrderSide.long o (long_qty ⊖ short_qty) short_qty l s)
  balanced OrderSide.short o long_qty short_qty l s h e =
      rw (balance, h, e) (reduced OrderSide.short o (short_qty ⊖ long_qty) long_qty l s)

  -- After `settle`, on a balanced record.
  settled_with :
      (side excess : OrderSide) (o : ArbitrageOpportunity F) (long_qty short_qty size : F)
      (l : Legs F) (s : Desk B F)
      → Closed o excess size s
          (λ k. k ≡ resize excess (quantity_of (opposite excess) long_qty short_qty) l)
          (balance o long_qty short_qty l s)
      → Closed o excess size s
          (GoesOn side excess long_qty short_qty l)
          (settle side o long_qty short_qty l s)
  unfolding settle asked pure ◌>>=◌
  settled_with side excess o long_qty short_qty size l s h =
      let b = (x.place_market_order h.order s.exchanges).0 in
      let legs = settled_legs side excess long_qty short_qty l (c.unix_secs b) in
      record {
        order = h.order;
        closes = h.closes;
        answer = again legs;
        moved = rw (settle, h.moved, h.meets) refl;
        meets =
            (legs, refl, settled_legs-HasSizes side excess long_qty short_qty l (c.unix_secs b));
      }

  -- Both legs have filled, one by more than 0.001 over the other, and the exchanges take every
  -- market order. Then `settle` places one order, a market order for the difference, on the
  -- exchange of the leg in excess and on its other side, so that it closes the excess; it does
  -- nothing else to the desk, and goes on. If the leg that was seen to fill first is the one in
  -- excess, both legs are recorded with the smaller fill. If it is the other, the first keeps its
  -- size and the other is recorded with all that it filled, though its excess has been closed.
  pub settled_sizes :
      (side excess : OrderSide) (o : ArbitrageOpportunity F) (long_qty short_qty : F) (l : Legs F)
      (s : Desk B F)
      → (lit 1 3 ≺ abs (long_qty ⊖ short_qty)) ≡ true
      → (short_qty ≺ long_qty) ≡ is_long excess
      → Closed o excess
          (difference excess long_qty short_qty)
          s
          (GoesOn side excess long_qty short_qty l)
          (settle side o long_qty short_qty l s)
  settled_sizes side excess o long_qty short_qty l s h e =
      settled_with side excess o long_qty short_qty (difference excess long_qty short_qty) l s
        (balanced excess o long_qty short_qty l s h e)
