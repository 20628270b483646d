-- ===== src/Hedge/DualLeg.antt =====
-- `AtomicExecutor::execute_dual_leg` of src/strategy/atomic_execution.rs, which simulates both legs. Each
-- simulated call reads the clock, in nanoseconds, and the two legs share nothing, so that their
-- interleaving does not matter. A task that is joined answers: it does not panic.
use Prim.Native.String.{String}
use funding_spread_arbitrage.Prelude.{
  ℕ, ◌%◌, ◌≡◌, Bool, true, false, not, ◌&&◌, ◌||◌, List, [], ◌∷◌, ltb, if◌then◌else◌, Option, none,
  some, length, Result, ok, err, is_ok, refl, inl, inr, Bool-cases, All, all_nil, all_cons,
}
use funding_spread_arbitrage.Types.Order.{OrderSide, OrderType, SimulatedOrder}
use funding_spread_arbitrage.Hedge.Backend.{Clock}
use funding_spread_arbitrage.Entry.Orders.{create_market_order}
use funding_spread_arbitrage.Entry.Emergency.{opposite}

-- The error text says of each leg whether it was filled.
pub record AtomicExecutionResult (F : Type 0) : Type 0 where
  pub long_order : SimulatedOrder F
  pub short_order : SimulatedOrder F
  pub both_filled : Bool
  pub error : Option (Bool × Bool)

-- The clock when a simulated call draws its lot: one call for each leg, one for each reversal.
pub record Lots : Type 0 where
  pub long_leg : ℕ
  pub short_leg : ℕ
  pub long_reversal : ℕ
  pub short_reversal : ℕ

-- `success_rate < 99`
abbrev pub lucky : ℕ → Bool
lucky nanos = ltb (nanos % 100) 99

module _ {F : Type 0} where
  unfoldable pub execute_order_on_exchange : SimulatedOrder F → ℕ → Result String (SimulatedOrder F)
  execute_order_on_exchange order nanos =
      if lucky nanos then ok order else err "Exchange API timeout"

  -- A market order for all of a leg of a side, on the other side of the same market.
  pub record Reverses (symbol exchange : String) (side : OrderSide) (price size : F)
      (o : SimulatedOrder F) : Type 0 where
    pub symbol_of : o.symbol ≡ symbol
    pub exchange_of : o.exchange ≡ exchange
    pub side_of : o.side ≡ opposite side
    pub type_of : o.order_type ≡ OrderType.market
    pub price_of : o.price ≡ price
    pub size_of : o.size ≡ size

module _ {B F : Type 0} ⦃c : Clock B⦄ where
  unfoldable pub reverse_order : SimulatedOrder F → ℕ → B → B × Result String (SimulatedOrder F)
  unfolding create_market_order execute_order_on_exchange
  reverse_order order nanos b =
      let (b₁, reversal) =
        create_market_order order.exchange order.symbol (opposite order.side) order.price order.size
          b in
      (b₁, execute_order_on_exchange reversal nanos)

  abbrev executed : B × Result String (SimulatedOrder F) → B × List (SimulatedOrder F)
  executed (b, ok o) = (b, o ∷ [])
  executed (b, err e) = (b, [])

  -- What a reversal leaves, if one is due: the clock and the orders that it executed.
  abbrev pub reversed : Bool → SimulatedOrder F → ℕ → B → B × List (SimulatedOrder F)
  reversed false order nanos b = (b, [])
  reversed true order nanos b = executed (reverse_order order nanos b)

  -- The answer, and the reversals of the long and of the short leg that were executed.
  unfoldable pub execute_dual_leg :
      String
      → String
      → String
      → F
      → F
      → F
      → Lots
      → B
      → B × AtomicExecutionResult F × List (SimulatedOrder F) × List (SimulatedOrder F)
  unfolding create_market_order execute_order_on_exchange reverse_order
  execute_dual_leg symbol long_exchange short_exchange long_price short_price position_size lots b =
      let (b₁, long_order) =
        create_market_order long_exchange symbol OrderSide.long long_price position_size b in
      let (b₂, short_order) =
        create_market_order short_exchange symbol OrderSide.short short_price position_size b₁ in
      let long_filled = is_ok (execute_order_on_exchange long_order lots.long_leg) in
      let short_filled = is_ok (execute_order_on_exchange short_order lots.short_leg) in
      let (b₃, long_back) = reversed long_filled long_order lots.long_reversal b₂ in
      let (b₄, short_back) = reversed short_filled short_order lots.short_reversal b₃ in
      if not long_filled || not short_filled
      then (
        b₄,
        record {
          long_order = long_order;
          short_order = short_order;
          both_filled = false;
          error = some (long_filled, short_filled);
        },
        long_back,
        short_back,
      )
      else (
        b₂,
        record {
          long_order = long_order;
          short_order = short_order;
          both_filled = true;
          error = none;
        },
        [],
        [],
      )

  -- The order of a call that succeeds, or no order.
  executed-All :
      (P : SimulatedOrder F → Type 0) (t : Bool) (b : B) (o : SimulatedOrder F) (e : String)
      → P o
      → All P (executed (b, if t then ok o else err e)).1
        × (length (executed (b, if t then ok o else err e)).1 ≡ (if t then 1 else 0))
  executed-All P true b o e h = (all_cons h all_nil, refl)
  executed-All P false b o e h = (all_nil, refl)

  reversed-Reverses :
      (o : SimulatedOrder F) (nanos : ℕ) (b : B)
      → All (Reverses o.symbol o.exchange o.side o.price o.size) (reversed true o nanos b).1
        × (length (reversed true o nanos b).1 ≡ (if lucky nanos then 1 else 0))
  unfolding reverse_order execute_order_on_exchange create_market_order
  reversed-Reverses o nanos b =
      let (b₁, reversal) =
        create_market_order o.exchange o.symbol (opposite o.side) o.price o.size b in
      executed-All (Reverses o.symbol o.exchange o.side o.price o.size) (lucky nanos) b₁ reversal
        "Exchange API timeout"
        record {
          symbol_of = refl;
          exchange_of = refl;
          side_of = refl;
          type_of = refl;
          price_of = refl;
          size_of = refl;
        }

  -- Both legs count as filled exactly when both calls succeed. When just one of them does, that leg
  -- is reversed by at most one order, which is executed exactly when the call of the reversal
  -- succeeds; a reversal that fails is not tried again, and the answer does not depend on it. Every
  -- reversal that is executed is a market order for the whole leg on the leg's exchange and symbol,
  -- on the other side: it sells the long leg, and buys back the short one. No other order is
  -- executed against a leg.
  pub dual_leg_reversals :
      (symbol long_exchange short_exchange : String) (long_price short_price size : F) (lots : Lots)
      (b : B)
      → let r =
          execute_dual_leg symbol long_exchange short_exchange long_price short_price size lots b in
        (r.1.both_filled ≡ (lucky lots.long_leg && lucky lots.short_leg))
        × All (Reverses symbol long_exchange OrderSide.long long_price size) r.2
        × (length r.2 ≡ (
            if lucky lots.long_leg && not (lucky lots.short_leg) && lucky lots.long_reversal
            then 1
            else 0))
        × All (Reverses symbol short_exchange OrderSide.short short_price size) r.3
        × (length r.3 ≡ (
            if lucky lots.short_leg && not (lucky lots.long_leg) && lucky lots.short_reversal
            then 1
            else 0))
  unfolding execute_dual_leg create_market_order execute_order_on_exchange
  dual_leg_reversals symbol long_exchange short_exchange long_price short_price size lots b =
      let (b₁, long_order) =
        create_market_order long_exchange symbol OrderSide.long long_price size b in
      let (b₂, short_order) =
        create_market_order short_exchange symbol OrderSide.short short_price size b₁ in
      elim (Bool-cases (lucky lots.long_leg)) [
        | inl p ↦ elim (Bool-cases (lucky lots.short_leg)) [
          | inl q ↦ rw (execute_dual_leg, p, q) (refl, all_nil, refl, all_nil, refl)
          | inr q ↦
              let (orders, count) = reversed-Reverses long_order lots.long_reversal b₂ in
              rw (execute_dual_leg, p, q) (refl, orders, count, all_nil, refl)
        ]
        | inr p ↦ elim (Bool-cases (lucky lots.short_leg)) [
          | inl q ↦
              let (orders, count) = reversed-Reverses short_order lots.short_reversal b₂ in
              rw (execute_dual_leg, p, q) (refl, all_nil, refl, orders, count)
          | inr q ↦ rw (execute_dual_leg, p, q) (refl, all_nil, refl, all_nil, refl)
        ]
      ]
