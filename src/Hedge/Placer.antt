-- ===== src/Hedge/Placer.antt =====
-- `MarketOrderPlacer::place_with_retry`. The times of the calls, which it records in the metrics, are
-- left out; so is `target_quantity`, which it does not read.
use Prim.Native.String.{String}
use funding_spread_arbitrage.Prelude.{
  ℕ, zero, suc, ◌≡◌, refl, ◌∙◌, Bool, false, List, ◌∷◌, ◌++◌, if◌then◌else◌, if_last, replicate,
  replicate-cons, Result, ok, err, Action,
}
use funding_spread_arbitrage.Types.Order.{SimulatedOrder, OrderStatusInfo, is_filled_status}
use funding_spread_arbitrage.Hedge.Backend.{ExecutionBackend, Clock}

-- The two texts of its errors: the attempts made and the last error, or none allowed.
pub data PlaceError : Type 0 where
  failed_after : ℕ → String → PlaceError
  no_attempts : PlaceError

abbrev pub says_filled : {F : Type 0} → Result String (OrderStatusInfo F) → Bool
says_filled (err e) = false
says_filled (ok info) = is_filled_status info.status

module _ {B F : Type 0} ⦃x : ExecutionBackend B F⦄ ⦃c : Clock B⦄ where
  -- The loop, on the attempts that are made and those that are left.
  unfoldable pub place_attempts : SimulatedOrder F → ℕ → ℕ → Action B PlaceError (SimulatedOrder F)
  place_attempts order made zero b = (b, err no_attempts)
  place_attempts order made (suc left) b =
      let (b₁, placed) = x.place_market_order order b in
      elim placed [
        | ok placed_order ↦
            let (b₂, info) =
              x.get_order_status_detailed placed_order.exchange placed_order.id order.symbol b₁ in
            let again = place_attempts order (suc made) left (c.sleep 100 b₂) in
            if says_filled info
            then (b₂, ok placed_order)
            else if_last left (b₂, ok placed_order) again
        | err e ↦
            let again = place_attempts order (suc made) left (c.sleep 100 b₁) in
            if_last left (b₁, err (failed_after (suc made) e)) again
      ]

  unfoldable pub place_with_retry : SimulatedOrder F → ℕ → Action B PlaceError (SimulatedOrder F)
  unfolding place_attempts
  place_with_retry order max_retries b = place_attempts order 0 max_retries b

  -- An exchange that takes every market order and never reports one as filled, as when it fills it
  -- in part or reports late. `orders` are those that it has taken, newest first.
  pub record IsUnfilling (orders : B → List (SimulatedOrder F)) : Type 0 where
    pub takes :
        (b : B) (o : SimulatedOrder F)
        → (p : SimulatedOrder F) × ((x.place_market_order o b).1 ≡ ok p)
    pub adds : (b : B) (o : SimulatedOrder F) → orders (x.place_market_order o b).0 ≡ o ∷ orders b
    pub asks : (b : B) (e i s : String) → orders (x.get_order_status_detailed e i s b).0 ≡ orders b
    pub unfilled :
        (b : B) (e i s : String) → says_filled (x.get_order_status_detailed e i s b).1 ≡ false
    pub waits : (b : B) (n : ℕ) → orders (c.sleep n b) ≡ orders b

  module _ (orders : B → List (SimulatedOrder F)) (laws : IsUnfilling orders) where
    attempts-pile_up :
        (b : B) (o : SimulatedOrder F) (made n : ℕ)
        → (orders (place_attempts o made (suc n) b).0 ≡ replicate (suc n) o ++ orders b)
          × ((p : SimulatedOrder F) × ((place_attempts o made (suc n) b).1 ≡ ok p))
    unfolding place_attempts
    attempts-pile_up b o made zero =
        let (p, taken) = laws.takes b o in
        let b₁ = (x.place_market_order o b).0 in
        rw (place_attempts, taken, laws.unfilled b₁ p.exchange p.id o.symbol)
          (laws.asks b₁ p.exchange p.id o.symbol ∙ laws.adds b o, (p, refl))
    attempts-pile_up b o made (suc n) =
        let (p, taken) = laws.takes b o in
        let b₁ = (x.place_market_order o b).0 in
        let b₂ = (x.get_order_status_detailed p.exchange p.id o.symbol b₁).0 in
        let rest = attempts-pile_up (c.sleep 100 b₂) o (suc made) n in
        let before : orders (c.sleep 100 b₂) ≡ o ∷ orders b =
          laws.waits b₂ 100 ∙ laws.asks b₁ p.exchange p.id o.symbol ∙ laws.adds b o in
        rw (place_attempts, taken, laws.unfilled b₁ p.exchange p.id o.symbol)
          (rest.0 ∙ rw (before, replicate-cons (suc n) o (orders b)) refl, rest.1)

    -- On an exchange that takes every market order and reports none as filled, every attempt
    -- places the whole order again: with at least one attempt allowed, the exchange has taken as
    -- many copies of it as attempts were allowed, and the call answers with success.
    pub unfilled_orders_pile_up :
        (b : B) (o : SimulatedOrder F) (n : ℕ)
        → (orders (place_with_retry o (suc n) b).0 ≡ replicate (suc n) o ++ orders b)
          × ((p : SimulatedOrder F) × ((place_with_retry o (suc n) b).1 ≡ ok p))
    unfolding place_with_retry
    unfilled_orders_pile_up b o n = attempts-pile_up b o 0 n
