-- ===== src/Entry/Calls/Retries.antt =====
-- The market orders that are tried again respect what every call of the exchanges respects.
use funding_spread_arbitrage.Prelude.{
  ℕ, zero, suc, ◌*◌, ◌^◌, inl, inr, Bool-cases, if_last-either, Result, Result-cases,
}
use funding_spread_arbitrage.Double.{Double, lit, ◌⊕◌, ◌⊖◌, ◌≼◌}
use funding_spread_arbitrage.Types.Order.{SimulatedOrder}
use funding_spread_arbitrage.Hedge.Backend.{ExecutionBackend, Clock}
use funding_spread_arbitrage.Hedge.Placer.{
  PlaceError, says_filled, place_attempts, place_with_retry,
}
use funding_spread_arbitrage.Entry.Retry.{HedgeError, hedge_attempts, place_market_order_with_retry}
use funding_spread_arbitrage.Entry.Steady.{IsSteady}

module _ {B F : Type 0} ⦃x : ExecutionBackend B F⦄ ⦃c : Clock B⦄ (R : B → B → Type 0)
    ⦃laws : IsSteady F R⦄ where
  place_attempts-Steady :
      (o : SimulatedOrder F) (made left : ℕ) (b : B) → R b (place_attempts o made left b).0
  unfolding place_attempts
  place_attempts-Steady o made zero b = laws.stays b
  place_attempts-Steady o made (suc left) b =
      let (b₁, placed) = x.place_market_order o b in
      let one = laws.markets o b in
      elim (Result-cases placed) [
        | inr (e, p) ↦
            let b₂ = c.sleep 100 b₁ in
            rw (place_attempts, p)
              (if_last-either (λ (r : B × Result PlaceError (SimulatedOrder F)). R b r.0) left _ _
                one
                (laws.joins b b₂ _ (laws.joins b b₁ b₂ one (laws.waits 100 b₁))
                  (place_attempts-Steady o (suc made) left b₂)))
        | inl (q, p) ↦
            let (b₂, info) = x.get_order_status_detailed q.exchange q.id o.symbol b₁ in
            let two = laws.joins b b₁ b₂ one (laws.details q.exchange q.id o.symbol b₁) in
            let b₃ = c.sleep 100 b₂ in
            elim (Bool-cases (says_filled info)) [
              | inl f ↦ rw (place_attempts, p, f) two
              | inr f ↦
                  rw (place_attempts, p, f)
                    (if_last-either (λ (r : B × Result PlaceError (SimulatedOrder F)). R b r.0) left
                      _ _ two
                      (laws.joins b b₃ _ (laws.joins b b₂ b₃ two (laws.waits 100 b₂))
                        (place_attempts-Steady o (suc made) left b₃)))
            ]
      ]

  pub place_with_retry-Steady :
      (o : SimulatedOrder F) (n : ℕ) (b : B) → R b (place_with_retry o n b).0
  unfolding place_with_retry
  place_with_retry-Steady o n b = place_attempts-Steady o 0 n b

module _ {B F : Type 0} ⦃x : ExecutionBackend B F⦄ ⦃c : Clock B⦄ ⦃d : Double F⦄ (R : B → B → Type 0)
    ⦃laws : IsSteady F R⦄ where
  hedge_attempts-Steady :
      (o : SimulatedOrder F) (target : F) (left made : ℕ) (total : F) (last : SimulatedOrder F)
      (b : B)
      → R b (hedge_attempts o target left made total last b).0
  unfolding hedge_attempts
  hedge_attempts-Steady o target zero made total last b = laws.stays b
  hedge_attempts-Steady o target (suc left) made total last b =
      let (b₁, placed) = x.place_market_order (record o { size = target ⊖ total }) b in
      let one = laws.markets (record o { size = target ⊖ total }) b in
      elim (Bool-cases (target ⊖ total ≼ lit 0 0)) [
        | inl h ↦ rw (hedge_attempts, h) (laws.stays b)
        | inr h ↦ elim (Result-cases placed) [
          | inr (e, p) ↦
              let b₂ = c.sleep 500 b₁ in
              rw (hedge_attempts, h, p)
                (if_last-either (λ (r : B × Result (HedgeError F) (SimulatedOrder F)). R b r.0) left
                  _ _ one
                  (laws.joins b b₂ _ (laws.joins b b₁ b₂ one (laws.waits 500 b₁))
                    (hedge_attempts-Steady o target left (suc made) total last b₂)))
          | inl (f, p) ↦
              let (b₂, verified) = x.get_order_status_detailed f.exchange f.id o.symbol b₁ in
              let two = laws.joins b b₁ b₂ one (laws.details f.exchange f.id o.symbol b₁) in
              elim (Result-cases verified) [
                | inr (e, q) ↦
                    let n = 100 * 2 ^ made in
                    let b₃ = c.sleep n b₂ in
                    rw (hedge_attempts, h, p, q)
                      (if_last-either
                        (λ (r : B × Result (HedgeError F) (SimulatedOrder F)). R b r.0) left _ _ two
                        (laws.joins b b₃ _ (laws.joins b b₂ b₃ two (laws.waits n b₂))
                          (hedge_attempts-Steady o target left (suc made) total f b₃)))
                | inl (i, q) ↦ elim (Bool-cases (target ≼ total ⊕ i.filled_quantity)) [
                  | inl g ↦ rw (hedge_attempts, h, p, q, g) two
                  | inr g ↦
                      rw (hedge_attempts, h, p, q, g)
                        (laws.joins b b₂ _ two (
                          hedge_attempts-Steady o target left (suc made) (total ⊕ i.filled_quantity)
                            f b₂))
                ]
              ]
        ]
      ]

  pub place_market_order_with_retry-Steady :
      (o : SimulatedOrder F) (target : F) (b : B) → R b (place_market_order_with_retry o target b).0
  unfolding place_market_order_with_retry
  place_market_order_with_retry-Steady o target b = hedge_attempts-Steady o target 3 0 (lit 0 0) o b
