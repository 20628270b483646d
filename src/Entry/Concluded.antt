-- ===== src/Entry/Concluded.antt =====
-- What an entry with real orders leaves behind, however it ends.
use Prim.{tt}
use Prim.Native.String.{String}
use funding_spread_arbitrage.Prelude.{
  ℕ, ◌≡◌, refl, true, false, not, ◌&&◌, ◌||◌, Result, ok, err, arith,
}
use funding_spread_arbitrage.Double.{Double, ◌⊖◌}
use funding_spread_arbitrage.Types.Order.{OrderSide, SimulatedOrder, OrderStatusInfo}
use funding_spread_arbitrage.Types.Trade.{ArbitrageOpportunity}
use funding_spread_arbitrage.Hedge.Backend.{ExecutionBackend, Clock}
use funding_spread_arbitrage.Entry.Preflight.{Prepared}
use funding_spread_arbitrage.Entry.Emergency.{opposite}
use funding_spread_arbitrage.Entry.Desk.{Desk, Legs, leg, asked}
use funding_spread_arbitrage.Entry.Hedging.{filled_by}
use funding_spread_arbitrage.Entry.Final.{
  Progress, looked_at, last_look, limit_answer, limit_placed, touch_of, aggressive_limit,
  complete_hedge, final_hedge, hedge_if_alone,
}
use funding_spread_arbitrage.Entry.Real.{judge_placed, place_both, open_trade, conclude}
use funding_spread_arbitrage.Entry.Steady.{
  IsSteady, Safe, Any, weaken, pure-Safe, raise-Safe, asked-Safe, bind-Safe, choose-Safe,
  with_lock-Safe,
}
use funding_spread_arbitrage.Entry.Calls.{place_market_order_with_retry-Steady, check_depth-Safe}
use funding_spread_arbitrage.Entry.Paired.{
  Paired, IsFilled, Both, set_leg-Both, resized-Both, market_order, unix_secs-Safe, cancel-Safe,
  guard_depth-Safe, hedged-Safe,
}
use funding_spread_arbitrage.Entry.Turns.{give_up-Safe}

module _ {F : Type 0} where
  -- One leg or both count as filled.
  abbrev Some : Legs F → Type 0
  Some l = (l.long.filled || l.short.filled) ≡ true

  -- One leg or both, and the short leg if the long one.
  record Short (l : Legs F) : Type 0 where
    some_leg : Some l
    with_long : (l.long.filled && not l.short.filled) ≡ false

  Both-Short : (l : Legs F) → Both l → Short l
  Both-Short l h = record { some_leg = ground (arith, h.long); with_long = ground (arith, h.short) }

  filled_by-IsFilled :
      (side : OrderSide) (order : SimulatedOrder F) (l : Legs F)
      → IsFilled side l
      → IsFilled side (filled_by (opposite side) order l)
  filled_by-IsFilled OrderSide.long order l h = h
  filled_by-IsFilled OrderSide.short order l h = h

module _ {B F : Type 0} ⦃x : ExecutionBackend B F⦄ ⦃c : Clock B⦄ ⦃d : Double F⦄ {R : B → B → Type 0}
    ⦃laws : IsSteady F R⦄ where
  looked_at-Safe :
      (side : OrderSide) (l : Legs F) (r : Result String (OrderStatusInfo F)) {s : Desk B F}
      → Safe R Any s (looked_at side l r s)
  unfolding looked_at
  looked_at-Safe side l (err e) = pure-Safe _ tt
  looked_at-Safe side l (ok info) = choose-Safe _ _ _ (λ e. pure-Safe _ tt) (λ e. pure-Safe _ tt)

  last_look-Safe :
      (o : ArbitrageOpportunity F) (l : Legs F) {s : Desk B F} → Safe R Some s (last_look o l s)
  unfolding last_look
  last_look-Safe o l {s} =
      choose-Safe _ _ _
        (λ e. bind-Safe _ _ (asked-Safe _ (laws.details _ _ _ s.exchanges)) (λ r s₁ p₁.
          bind-Safe _ _ (looked_at-Safe OrderSide.long l r) (λ l₁ s₂ p₂.
            bind-Safe _ _ (asked-Safe _ (laws.details _ _ _ s₂.exchanges)) (λ r' s₃ p₃.
              bind-Safe _ _ (looked_at-Safe OrderSide.short l₁ r') (λ l₂ s₄ p₄.
                choose-Safe _ _ _ (λ e. give_up-Safe _ l₂ refl refl)
                  (λ e. pure-Safe _ (ground (arith, e))))))))
        (λ e. pure-Safe _ (ground (arith, e)))

  limit_answer-Safe :
      (side : OrderSide) (e : String) (q : F) (placed : SimulatedOrder F) (p : Progress F)
      (r : Result String (OrderStatusInfo F)) {s : Desk B F}
      → IsFilled side p.legs
      → Safe R (λ p. IsFilled side p.legs) s (limit_answer (opposite side) e q placed p r s)
  unfolding limit_answer
  limit_answer-Safe side e q placed p (err k) h =
      bind-Safe _ _ (cancel-Safe _ _) (λ r s₁ p₁. pure-Safe _ h)
  limit_answer-Safe side e q placed p (ok info) h =
      choose-Safe _ _ _ (λ e. pure-Safe _ (filled_by-IsFilled side _ p.legs h))
        (λ e. bind-Safe _ _ (cancel-Safe _ _) (λ r s₁ p₁. pure-Safe _ h))

  limit_placed-Safe :
      (side : OrderSide) (o : ArbitrageOpportunity F) (q : F) (p : Progress F)
      (r : Result String (SimulatedOrder F)) {s : Desk B F}
      → IsFilled side p.legs
      → Safe R (λ p. IsFilled side p.legs) s (limit_placed (opposite side) o q p r s)
  unfolding limit_placed
  limit_placed-Safe side o q p (err e) h = pure-Safe _ h
  limit_placed-Safe side o q p (ok placed) {s} h =
      bind-Safe _ _ (asked-Safe _ (laws.waits _ s.exchanges)) (λ u s₁ p₁.
        bind-Safe _ _ (asked-Safe _ (laws.details _ _ _ s₁.exchanges))
          (λ r s₂ p₂. limit_answer-Safe side _ q placed p r h))

  aggressive_limit-Safe :
      (side : OrderSide) (o : ArbitrageOpportunity F) (q : F) (p : Progress F) (r : Result String F)
      {s : Desk B F}
      → IsFilled side p.legs
      → Safe R (λ p. IsFilled side p.legs) s (aggressive_limit (opposite side) o q p r s)
  unfolding aggressive_limit
  aggressive_limit-Safe side o q p (err e) h = pure-Safe _ h
  aggressive_limit-Safe side o q p (ok best_price) {s} h =
      bind-Safe _ _ (asked-Safe _ (laws.names s.exchanges)) (λ id s₁ p₁.
        bind-Safe _ _ unix_secs-Safe (λ now s₂ p₂.
          bind-Safe _ _ (asked-Safe _ (laws.places _ s₂.exchanges))
            (λ r s₃ p₃. limit_placed-Safe side o q p r h)))

  touch_of-Safe :
      (side : OrderSide) (e i : String) {s : Desk B F}
      → Safe R Any s (asked (touch_of {F = F} side e i) s)
  touch_of-Safe OrderSide.short e i {s} =
      asked-Safe (x.get_best_bid e i) (laws.bids e i s.exchanges)
  touch_of-Safe OrderSide.long e i {s} = asked-Safe (x.get_best_ask e i) (laws.asks e i s.exchanges)

  complete_hedge-Safe :
      (side : OrderSide) (o : ArbitrageOpportunity F) (q : F) (p : Progress F) {s : Desk B F}
      → IsFilled side p.legs
      → Safe R Both s (complete_hedge side o q p s)
  unfolding complete_hedge
  complete_hedge-Safe side o q p h =
      choose-Safe _ _ _
        (λ e. pure-Safe _ (resized-Both (opposite side) _ _ (set_leg-Both side _ p.legs h refl)))
        (λ e.
          let remaining = q ⊖ p.total_filled in
          bind-Safe _ _ unix_secs-Safe (λ now s₁ p₁.
            bind-Safe _ _
              (asked-Safe _ (
                place_market_order_with_retry-Steady R (market_order side o remaining now) remaining
                  s₁.exchanges))
              (λ placed s₂ p₂. hedged-Safe side p.legs placed h)))

  final_hedge-Safe :
      (side : OrderSide) (o : ArbitrageOpportunity F) (l : Legs F) {s : Desk B F}
      → IsFilled side l
      → Safe R Both s (final_hedge side o l s)
  unfolding final_hedge
  final_hedge-Safe side o l h = bind-Safe _ _ (check_depth-Safe _ _ _) (λ depth s₁ p₁.
      bind-Safe _ _ (guard_depth-Safe side l depth) (λ u s₂ p₂.
        bind-Safe _ _ (cancel-Safe _ _) (λ r s₃ p₃.
          bind-Safe _ _ (asked-Safe _ (laws.details _ _ _ s₃.exchanges)) (λ status s₄ p₄.
            choose-Safe _ _ _
              (λ e. pure-Safe _ (resized-Both (opposite side) _ _ (set_leg-Both side _ l h refl)))
              (λ e. bind-Safe _ _ (touch_of-Safe (opposite side) _ _) (λ touch s₅ p₅.
                bind-Safe _ _ (aggressive_limit-Safe side o _ _ touch h)
                  (λ p s₆ p₆. complete_hedge-Safe side o _ p p₆)))))))

  hedge_if_alone-Safe :
      {P : Legs F → Type 0} (side : OrderSide) (o : ArbitrageOpportunity F) (l : Legs F)
      {s : Desk B F}
      → ((k : Legs F) → Both k → P k)
      → (((leg side l).filled && not (leg (opposite side) l).filled) ≡ false → P l)
      → Safe R P s (hedge_if_alone side o l s)
  unfolding hedge_if_alone
  hedge_if_alone-Safe side o l f g =
      choose-Safe _ _ _
        (λ e. with_lock-Safe _ _ (λ s₁. weaken f (final_hedge-Safe side o l (ground (arith, e)))))
        (λ e. pure-Safe _ (g e))

  open_trade-Safe :
      (o : ArbitrageOpportunity F) (size : F) (now : ℕ) (l : Legs F) {s : Desk B F}
      → Safe R Any s (open_trade o size now l s)
  unfolding open_trade
  open_trade-Safe o size now l {s} =
      bind-Safe _ _ (asked-Safe _ (laws.names s.exchanges)) (λ id s₁ p₁.
        bind-Safe _ _ unix_secs-Safe (λ t₁ s₂ p₂. bind-Safe _ _ unix_secs-Safe (λ t₂ s₃ p₃.
          bind-Safe _ _ (asked-Safe _ (laws.places _ s₃.exchanges)) (λ r s₄ p₄.
            bind-Safe _ _ (asked-Safe _ (laws.places _ s₄.exchanges))
              (λ r' s₅ p₅. pure-Safe _ tt)))))

  pub conclude-Safe :
      (o : ArbitrageOpportunity F) (size : F) (now : ℕ) (l : Legs F) {s : Desk B F}
      → Safe R Any s (conclude o size now l s)
  unfolding conclude
  conclude-Safe o size now l = bind-Safe _ _ (last_look-Safe o l) (λ l₁ s₁ p₁.
      bind-Safe _ _
        (hedge_if_alone-Safe OrderSide.long o l₁ Both-Short
          (λ e. record { some_leg = p₁; with_long = e }))
        (λ l₂ s₂ p₂.
          bind-Safe _ _
            (hedge_if_alone-Safe OrderSide.short o l₂ (λ k h. h)
              (λ e. record {
                long = ground (arith, e, p₂.some_leg, p₂.with_long);
                short = ground (arith, e, p₂.some_leg, p₂.with_long);
              }))
            (λ l₃ s₃ p₃.
              choose-Safe _ _ _ (λ e. absurd (ground (arith, e, p₃.long, p₃.short)))
                (λ e. open_trade-Safe o size now l₃))))

  judge_placed-Safe :
      (long short : Result String (SimulatedOrder F)) {s : Desk B F}
      → Safe R Paired s (judge_placed long short s)
  unfolding judge_placed
  judge_placed-Safe (err e) short = raise-Safe _ refl refl
  judge_placed-Safe (ok long) (err e) =
      bind-Safe _ _ (cancel-Safe _ _) (λ r s₁ p₁. raise-Safe _ refl refl)
  judge_placed-Safe (ok long) (ok short) = pure-Safe _ refl

  pub place_both-Safe : (p : Prepared F) {s : Desk B F} → Safe R Paired s (place_both p s)
  unfolding place_both
  place_both-Safe p {s} = bind-Safe _ _ (asked-Safe _ (laws.places _ s.exchanges)) (λ long s₁ p₁.
      bind-Safe _ _ (asked-Safe _ (laws.places _ s₁.exchanges))
        (λ short s₂ p₂. judge_placed-Safe long short))
