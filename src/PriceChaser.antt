-- ===== src/PriceChaser.antt =====
-- `PriceChaser` of src/strategy/price_chaser.rs, which moves a limit order after the best price. Its
-- `RepricingConfig` is declared there again, with the fields that Config has. Printing is left out.
pub mod Budget
pub mod Swift
pub mod Ends
use Prim.Native.String.{String}
use funding_spread_arbitrage.Prelude.{
  ℕ, zero, suc, ◌+◌, ◌-◌, ◌%◌, ◌^◌, Bool, true, false, List, [], ◌∷◌, ◌++◌, Option, none, some, ltb,
  leb, if◌then◌else◌, Result, ok, err, Action, map_err, pure, raise, ◌>>=◌, ◌>>◌,
}
use funding_spread_arbitrage.Double.{Double, lit, abs, ◌⊖◌, ◌⊗◌, ◌⊘◌, ◌≺◌}
use funding_spread_arbitrage.Types.Order.{OrderSide, OrderStatus, SimulatedOrder, is_filled_status}
use funding_spread_arbitrage.Config.{RepricingConfig}
use funding_spread_arbitrage.Hedge.Backend.{ExecutionBackend, Clock}

pub record RepricingEvent (F : Type 0) : Type 0 where
  pub timestamp : ℕ
  pub old_price : F
  pub new_price : F
  pub reason : String
  pub elapsed_ms : ℕ
  pub exchange : String
  pub side : OrderSide

pub record RepricingMetrics (F : Type 0) : Type 0 where
  pub reprice_count : ℕ
  pub reprice_total_time_ms : ℕ
  pub initial_price : F
  pub final_price : F
  pub price_improvement_bps : F
  pub repricing_events : List (RepricingEvent F)
  pub max_reprices_reached : Bool

-- The texts of the errors, by what they print.
pub data ChaseError : Type 0 where
  cancel_failed : String → ChaseError
  placement_failed : String → ChaseError
  bid_failed : String → ChaseError
  ask_failed : String → ChaseError
  status_failed : String → ChaseError
  max_reprices_reached : ℕ → ChaseError
  timeout_reached : ChaseError

module _ {F : Type 0} ⦃d : Double F⦄ where
  unfoldable pub new : F → RepricingMetrics F
  new initial_price = record {
    reprice_count = 0;
    reprice_total_time_ms = 0;
    initial_price = initial_price;
    final_price = initial_price;
    price_improvement_bps = lit 0 0;
    repricing_events = [];
    max_reprices_reached = false;
  }

  unfoldable pub finalize : RepricingMetrics F → RepricingMetrics F
  finalize m = record m {
    price_improvement_bps = ((m.final_price ⊖ m.initial_price) ⊘ m.initial_price) ⊗ lit 10000 0;
  }

  unfoldable pub should_reprice : RepricingConfig F → F → F → Bool
  should_reprice config order_price current_best_price =
      let price_deviation = (abs (current_best_price ⊖ order_price) ⊘ order_price) ⊗ lit 10000 0 in
      config.reprice_threshold_bps ≺ price_deviation

module _ {F : Type 0} where
  -- The metrics after an order is moved.
  abbrev moved_to : RepricingMetrics F → SimulatedOrder F → F → ℕ → ℕ → RepricingMetrics F
  moved_to metrics order new_price elapsed_ms now =
      let event : RepricingEvent F = record {
        timestamp = now;
        old_price = order.price;
        new_price = new_price;
        reason = "price_moved_away";
        elapsed_ms = elapsed_ms;
        exchange = order.exchange;
        side = order.side;
      } in
      record metrics {
        reprice_count = (metrics.reprice_count + 1) % 2 ^ 32;
        reprice_total_time_ms = (metrics.reprice_total_time_ms + elapsed_ms) % 2 ^ 128;
        final_price = new_price;
        repricing_events = metrics.repricing_events ++ event ∷ [];
      }

module _ {B F : Type 0} ⦃x : ExecutionBackend B F⦄ ⦃c : Clock B⦄ where
  -- After the cancel: a call that began at the time `start` records its event.
  abbrev pub record_event :
      SimulatedOrder F
      → F
      → RepricingMetrics F
      → ℕ
      → SimulatedOrder F
      → Action B ChaseError (SimulatedOrder F × RepricingMetrics F)
  record_event order new_price metrics start placed_order b =
      (b, ok (placed_order, moved_to metrics order new_price (c.instant b - start) (c.unix_secs b)))

  abbrev pub place_anew : SimulatedOrder F → F → Action B ChaseError (SimulatedOrder F)
  place_anew order new_price b =
      map_err placement_failed
        (x.place_order (record order { price = new_price; id = ""; created_at = c.unix_secs b })) b

  -- The order that was placed, and the metrics after it.
  unfoldable pub reprice_order :
      SimulatedOrder F
      → F
      → RepricingMetrics F
      → Action B ChaseError (SimulatedOrder F × RepricingMetrics F)
  reprice_order order new_price metrics b =
      (map_err cancel_failed (x.cancel_order order.exchange order.id)
          >> (place_anew order new_price >>= record_event order new_price metrics (c.instant b)))
        b

  abbrev pub best_price_on : OrderSide → String → String → Action B ChaseError F
  best_price_on OrderSide.long exchange symbol = map_err bid_failed (x.get_best_bid exchange symbol)
  best_price_on OrderSide.short exchange symbol =
      map_err ask_failed (x.get_best_ask exchange symbol)

  unfoldable pub get_best_price_for_order : SimulatedOrder F → Action B ChaseError F
  get_best_price_for_order order = best_price_on order.side order.exchange order.symbol

-- One turn of the loop finds the order filled, or goes on with an order and its metrics.
pub data Turn (F : Type 0) : Type 0 where
  is_filled : Turn F
  goes_on : SimulatedOrder F → RepricingMetrics F → Turn F

module _ {B F : Type 0} ⦃x : ExecutionBackend B F⦄ ⦃c : Clock B⦄ ⦃d : Double F⦄ where
  -- An order that is open follows the best price.
  unfoldable pub follow :
      RepricingConfig F → SimulatedOrder F → RepricingMetrics F → F → Action B ChaseError (Turn F)
  unfolding reprice_order should_reprice
  follow config order metrics best_price =
      if should_reprice config order.price best_price
      then reprice_order order best_price metrics >>= (λ moved. pure (goes_on moved.0 moved.1))
      else pure (goes_on order metrics)

  unfoldable pub judge :
      RepricingConfig F
      → SimulatedOrder F
      → RepricingMetrics F
      → OrderStatus
      → Action B ChaseError (Turn F)
  unfolding follow get_best_price_for_order
  judge config order metrics status =
      if is_filled_status status
      then pure is_filled
      else if leb config.max_reprices metrics.reprice_count
      then raise (max_reprices_reached config.max_reprices)
      else get_best_price_for_order order >>= follow config order metrics

  -- The body of the loop up to its wait.
  unfoldable pub turn :
      RepricingConfig F → SimulatedOrder F → RepricingMetrics F → Action B ChaseError (Turn F)
  unfolding judge
  turn config order metrics =
      map_err status_failed (x.get_order_status order.exchange order.id)
      >>= judge config order metrics

  -- The loop, begun at the time `start`. `none` says that the fuel is spent.
  unfoldable pub chase :
      RepricingConfig F
      → ℕ
      → ℕ
      → ℕ
      → SimulatedOrder F
      → RepricingMetrics F
      → B
      → Option (B × Result ChaseError (SimulatedOrder F))
  unfolding turn
  chase config start timeout zero order metrics b = none
  chase config start timeout (suc fuel) order metrics b =
      let (b₁, taken) = turn config order metrics b in
      let next = chase config start timeout fuel in
      if ltb (c.instant b - start) timeout
      then (elim taken [
        | err e ↦ some (b₁, err e)
        | ok is_filled ↦ some (b₁, ok order)
        | ok (goes_on order' metrics') ↦
            next order' metrics' (c.sleep config.reprice_interval_ms b₁)
      ])
      else some (b, err timeout_reached)

  unfoldable pub chase_until_filled :
      RepricingConfig F
      → ℕ
      → SimulatedOrder F
      → ℕ
      → B
      → Option (B × Result ChaseError (SimulatedOrder F))
  unfolding chase new
  chase_until_filled config fuel order timeout b =
      chase config (c.instant b) timeout fuel order (new order.price) b
