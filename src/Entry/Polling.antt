-- ===== src/Entry/Polling.antt =====
-- The loop of `execute_atomic_entry_real` of src/strategy/entry.rs: both orders are polled, moved after
-- the best price and given up when the spread has moved or an order was moved too often. What the
-- code has twice, for the long and for the short leg, takes the side here.
use Prim.Native.String.{String}
use funding_spread_arbitrage.Prelude.{
  ℕ, zero, suc, ◌+◌, ◌-◌, ◌%◌, ◌^◌, Bool, true, false, not, ◌&&◌, ◌||◌, Option, none, some, ltb,
  leb, if◌then◌else◌, Result, ok, err,
}
use funding_spread_arbitrage.Double.{Double, lit, abs, ◌⊖◌, ◌⊗◌, ◌⊘◌, ◌≺◌}
use funding_spread_arbitrage.Types.Order.{
  OrderSide, OrderStatus, OrderStatusInfo, SimulatedOrder, is_fully_filled, is_partially_filled,
}
use funding_spread_arbitrage.Types.Trade.{ArbitrageOpportunity}
use funding_spread_arbitrage.Config.{RepricingConfig}
use funding_spread_arbitrage.Hedge.Backend.{ExecutionBackend, Clock}
use funding_spread_arbitrage.PriceChaser.{
  RepricingMetrics, ChaseError, should_reprice, reprice_order, get_best_price_for_order,
}
use funding_spread_arbitrage.Entry.Emergency.{opposite}
use funding_spread_arbitrage.Entry.Desk.{
  Desk, Legs, EntryError, Entry, leg, set_leg, pure, raise, ◌>>=◌, ◌>>◌, choose, asked, with_lock,
  spread_collapsed, max_reprices_reached,
}
use funding_spread_arbitrage.Entry.Hedging.{
  Step, next, again, stop, filled_leg, unix_secs, status_of, cancel, both_legs_status, answer_fill,
}

abbrev is_cancelled : OrderStatus → Bool
is_cancelled OrderStatus.pending = false
is_cancelled OrderStatus.filled = false
is_cancelled OrderStatus.cancelled = true

module _ {F : Type 0} where
  -- A leg after an order was placed for it at another price, or could not be.
  abbrev pub repriced :
      OrderSide → Legs F → Result ChaseError (SimulatedOrder F × RepricingMetrics F) → Legs F
  repriced side l (ok (order, metrics)) =
      set_leg side
        (record (leg side l) {
          order = order;
          metrics = metrics;
          reprice_count = ((leg side l).reprice_count + 1) % 2 ^ 32;
        })
        l
  repriced side l (err e) = l

module _ {F : Type 0} ⦃d : Double F⦄ where
  unfoldable pub spread_bps : F → F → F
  spread_bps long_price short_price = ((short_price ⊖ long_price) ⊘ long_price) ⊗ lit 10000 0

module _ {B F : Type 0} where
  -- The rest of the body follows, unless `continue` or `break` came before.
  unfoldable pub and_then : (Legs F → Entry B F (Step F)) → Step F → Entry B F (Step F)
  and_then f (next l) = f l
  and_then f (again l) = pure (again l)
  and_then f (stop l) = pure (stop l)

module _ {B F : Type 0} ⦃x : ExecutionBackend B F⦄ ⦃c : Clock B⦄ ⦃d : Double F⦄ where
  -- An answer about an order that has not filled before.
  unfoldable pub judge_status :
      OrderSide
      → ArbitrageOpportunity F
      → Legs F
      → Result String (OrderStatusInfo F)
      → Entry B F (Step F)
  unfolding answer_fill both_legs_status is_fully_filled is_partially_filled
  judge_status side o l (err e) = pure (next l)
  judge_status side o l (ok info) =
      choose (is_fully_filled info)
        (do
          now ← unix_secs
          let l' = set_leg side (filled_leg (leg side l) info.filled_quantity now) l
          choose (not (leg (opposite side) l').filled)
              (with_lock o.symbol
                (do both ← both_legs_status l'; answer_fill side o info.filled_quantity l' both))
              (pure (next l')))
        (choose (not (is_partially_filled info) && is_cancelled info.status) (pure (stop l))
          (pure (next l)))

  unfoldable pub poll : OrderSide → ArbitrageOpportunity F → Legs F → Entry B F (Step F)
  unfolding judge_status
  poll side o l =
      choose (not (leg side l).filled)
        (do status ← status_of o (leg side l).order; judge_status side o l status) (pure (next l))

  unfoldable pub follow_price :
      RepricingConfig F → OrderSide → Legs F → Result ChaseError F → Entry B F (Step F)
  unfolding should_reprice reprice_order
  follow_price config side l (err e) = pure (next l)
  follow_price config side l (ok best_price) =
      let k = leg side l in
      choose (should_reprice config k.order.price best_price)
        (do
          moved ← asked (reprice_order k.order best_price k.metrics)
          pure (next (repriced side l moved)))
        (pure (next l))

  unfoldable pub reprice : RepricingConfig F → OrderSide → Legs F → Entry B F (Step F)
  unfolding follow_price get_best_price_for_order
  reprice config side l =
      let k = leg side l in
      choose (not k.filled && ltb k.reprice_count config.max_reprices)
        (do
          best_price ← asked (get_best_price_for_order k.order)
          follow_price config side l best_price)
        (pure (next l))

  -- Both orders are cancelled and the entry ends, whatever the cancels answer.
  unfoldable pub give_up : {A : Type 0} → EntryError F → Legs F → Entry B F A
  give_up e l = do
    cancel l.long.order.exchange l.long.order.id
    cancel l.short.order.exchange l.short.order.id
    raise e

  unfoldable pub check_spread : RepricingConfig F → F → Legs F → Entry B F (Step F)
  unfolding give_up spread_bps
  check_spread config initial_spread_bps l =
      let current_spread_bps = spread_bps l.long.order.price l.short.order.price in
      choose
        (not l.long.filled
          && not l.short.filled
          && config.spread_collapse_threshold_bps ≺ abs (initial_spread_bps ⊖ current_spread_bps))
        (give_up (spread_collapsed initial_spread_bps current_spread_bps) l) (pure (next l))

  unfoldable pub check_reprices : RepricingConfig F → OrderSide → Legs F → Entry B F (Step F)
  unfolding give_up
  check_reprices config side l =
      let k = leg side l in
      choose (leb config.max_reprices k.reprice_count && not k.filled)
        (give_up (max_reprices_reached side config.max_reprices) l) (pure (next l))

  abbrev pub both_filled_stop : Legs F → Entry B F (Step F)
  both_filled_stop l = choose (l.long.filled && l.short.filled) (pure (stop l)) (pure (next l))

  -- The body of the loop after its wait.
  unfoldable pub turn : RepricingConfig F → ArbitrageOpportunity F → F → Legs F → Entry B F (Step F)
  unfolding and_then poll reprice check_spread check_reprices
  turn config o initial_spread_bps l = do
    s₁ ← poll OrderSide.long o l
    s₂ ← and_then (reprice config OrderSide.long) s₁
    s₃ ← and_then (poll OrderSide.short o) s₂
    s₄ ← and_then (reprice config OrderSide.short) s₃
    s₅ ← and_then (check_spread config initial_spread_bps) s₄
    s₆ ← and_then (check_reprices config OrderSide.long) s₅
    s₇ ← and_then (check_reprices config OrderSide.short) s₆
    and_then both_filled_stop s₇

  abbrev pub slept : RepricingConfig F → Desk B F → Desk B F
  slept config s = record s { exchanges = c.sleep config.reprice_interval_ms s.exchanges }

  -- The loop, begun at the time `start`. `none` says that the fuel is spent.
  unfoldable pub poll_both :
      RepricingConfig F
      → ArbitrageOpportunity F
      → F
      → ℕ
      → ℕ
      → ℕ
      → Legs F
      → Desk B F
      → Option (Desk B F × Result (EntryError F) (Legs F))
  unfolding turn
  poll_both config o initial_spread_bps start timeout zero l s = none
  poll_both config o initial_spread_bps start timeout (suc fuel) l s =
      let (s', taken) = turn config o initial_spread_bps l (slept config s) in
      let rest = poll_both config o initial_spread_bps start timeout fuel in
      if ltb (c.instant s.exchanges - start) timeout && (not l.long.filled || not l.short.filled)
      then (elim taken [
        | err e ↦ some (s', err e)
        | ok (next l') ↦ rest l' s'
        | ok (again l') ↦ rest l' s'
        | ok (stop l') ↦ some (s', ok l')
      ])
      else some (s, ok l)
