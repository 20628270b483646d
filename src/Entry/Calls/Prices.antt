-- ===== src/Entry/Calls/Prices.antt =====
-- The repricing of an order respects what every call of the exchanges respects.
use funding_spread_arbitrage.Prelude.{
  Result, ok, err, Action, ◌>>=◌, map_err, Leaves, every-Leaves, bind-Leaves, map_err-Leaves,
}
use funding_spread_arbitrage.Types.Order.{OrderSide, SimulatedOrder}
use funding_spread_arbitrage.Hedge.Backend.{ExecutionBackend, Clock}
use funding_spread_arbitrage.PriceChaser.{
  RepricingMetrics, cancel_failed, placement_failed as replacement_failed, bid_failed, ask_failed,
  place_anew, record_event, reprice_order, best_price_on, get_best_price_for_order,
}
use funding_spread_arbitrage.Entry.Steady.{IsSteady}

module _ {B : Type 0} (R : B → B → Type 0) where
  -- What has been reached from a state.
  abbrev From : B → B → Type 0
  From b b' = R b b'

  reached : {E A : Type 0} (b : B) (r : B × Result E A) → Leaves (λ a. From b) (From b) r → R b r.0
  reached b (b', ok a) h = h
  reached b (b', err e) h = h

  mapped :
      {E E' A : Type 0} (f : E → E') (m : Action B E A) (b b₁ : B)
      → R b (m b₁).0
      → Leaves (λ a. From b) (From b) (map_err f m b₁)
  mapped f m b b₁ h =
      map_err-Leaves (λ a. From b) (From b) f m b₁
        (every-Leaves (λ a. From b) (From b) (m b₁) (λ a. h) h)

module _ {B F : Type 0} ⦃x : ExecutionBackend B F⦄ ⦃c : Clock B⦄ (R : B → B → Type 0)
    ⦃laws : IsSteady F R⦄ where
  pub reprice_order-Steady :
      (o : SimulatedOrder F) (p : F) (m : RepricingMetrics F) (b : B)
      → R b (reprice_order o p m b).0
  unfolding reprice_order
  reprice_order-Steady o p m b = reached R b (reprice_order o p m b) (
      bind-Leaves (λ a. From R b) (From R b) (λ a. From R b)
        (map_err cancel_failed (x.cancel_order o.exchange o.id))
        (λ u. place_anew o p >>= record_event o p m (c.instant b)) b
        (mapped R cancel_failed (x.cancel_order o.exchange o.id) b b
          (laws.cancels o.exchange o.id b))
        (λ u b₁ h₁.
          let o' : SimulatedOrder F = record o {
            price = p;
            id = "";
            created_at = c.unix_secs b₁;
          } in
          bind-Leaves (λ a. From R b) (From R b) (λ a. From R b) (place_anew o p)
            (record_event o p m (c.instant b)) b₁
            (mapped R replacement_failed (x.place_order o') b b₁
              (laws.joins b b₁ (x.place_order o' b₁).0 h₁ (laws.places o' b₁)))
            (λ a b₂ h₂. h₂)))

  pub get_best_price-Steady : (o : SimulatedOrder F) (b : B) → R b (get_best_price_for_order o b).0
  unfolding get_best_price_for_order
  get_best_price-Steady o b =
      elim o.side as (λ side. R b (best_price_on {F = F} side o.exchange o.symbol b).0) [
        | OrderSide.long ↦
            reached R b (best_price_on {F = F} OrderSide.long o.exchange o.symbol b) (
              mapped R bid_failed (x.get_best_bid o.exchange o.symbol) b b
                (laws.bids o.exchange o.symbol b))
        | OrderSide.short ↦
            reached R b (best_price_on {F = F} OrderSide.short o.exchange o.symbol b) (
              mapped R ask_failed (x.get_best_ask o.exchange o.symbol) b b
                (laws.asks o.exchange o.symbol b))
      ]
