-- ===== src/Entry/Turns.antt =====
-- A turn of the polling loop leaves both legs filled or neither.
use Prim.Native.String.{String}
use funding_spread_arbitrage.Prelude.{◌≡◌, refl, true, false, not, Result, ok, err, arith}
use funding_spread_arbitrage.Double.{Double}
use funding_spread_arbitrage.Types.Order.{OrderSide, SimulatedOrder, OrderStatusInfo}
use funding_spread_arbitrage.Types.Trade.{ArbitrageOpportunity}
use funding_spread_arbitrage.Config.{RepricingConfig}
use funding_spread_arbitrage.Hedge.Backend.{ExecutionBackend, Clock}
use funding_spread_arbitrage.PriceChaser.{ChaseError, RepricingMetrics}
use funding_spread_arbitrage.Entry.Emergency.{opposite}
use funding_spread_arbitrage.Entry.Desk.{Desk, Leg, Legs, EntryError, Entry, leg, set_leg}
use funding_spread_arbitrage.Entry.Hedging.{Step, next, again, stop, filled_leg}
use funding_spread_arbitrage.Entry.Polling.{
  repriced, and_then, judge_status, poll, follow_price, reprice, give_up, check_spread,
  check_reprices, both_filled_stop, turn,
}
use funding_spread_arbitrage.Entry.Steady.{
  IsSteady, Safe, is_close_failure, is_one_leg_left, pure-Safe, raise-Safe, asked-Safe, bind-Safe,
  choose-Safe, with_lock-Safe,
}
use funding_spread_arbitrage.Entry.Calls.{reprice_order-Steady, get_best_price-Steady}
use funding_spread_arbitrage.Entry.Paired.{
  Paired, IsFilled, PairedStep, unix_secs-Safe, cancel-Safe, both_legs_status-Safe,
  answer_fill-Safe,
}

module _ {F : Type 0} where
  now_filled :
      (side : OrderSide) (k : Leg F) (l : Legs F)
      → k.filled ≡ true
      → IsFilled side (set_leg side k l)
  now_filled OrderSide.long k l h = h
  now_filled OrderSide.short k l h = h

  -- A leg that fills when the other has filled makes a pair.
  fills_pair :
      (side : OrderSide) (k : Leg F) (l : Legs F)
      → k.filled ≡ true
      → not (leg (opposite side) (set_leg side k l)).filled ≡ false
      → Paired (set_leg side k l)
  fills_pair OrderSide.long k l h e = ground (arith, h, e)
  fills_pair OrderSide.short k l h e = ground (arith, h, e)

  repriced-Paired :
      (side : OrderSide) (l : Legs F)
      (r : Result ChaseError (SimulatedOrder F × RepricingMetrics F))
      → Paired l
      → Paired (repriced side l r)
  repriced-Paired OrderSide.long l (ok (o, m)) h = h
  repriced-Paired OrderSide.short l (ok (o, m)) h = h
  repriced-Paired OrderSide.long l (err e) h = h
  repriced-Paired OrderSide.short l (err e) h = h

module _ {B F : Type 0} ⦃x : ExecutionBackend B F⦄ ⦃c : Clock B⦄ ⦃d : Double F⦄ {R : B → B → Type 0}
    ⦃laws : IsSteady F R⦄ where
  pub and_then-Safe :
      (f : Legs F → Entry B F (Step F)) (k : Step F) {s : Desk B F}
      → ((l : Legs F) → Paired l → Safe R PairedStep s (f l s))
      → PairedStep k
      → Safe R PairedStep s (and_then f k s)
  unfolding and_then
  and_then-Safe f (next l) h p = h l p
  and_then-Safe f (again l) h p = pure-Safe _ p
  and_then-Safe f (stop l) h p = pure-Safe _ p

  judge_status-Safe :
      (side : OrderSide) (o : ArbitrageOpportunity F) (l : Legs F)
      (r : Result String (OrderStatusInfo F)) {s : Desk B F}
      → Paired l
      → Safe R PairedStep s (judge_status side o l r s)
  unfolding judge_status
  judge_status-Safe side o l (err e) h = pure-Safe _ h
  judge_status-Safe side o l (ok info) h =
      choose-Safe _ _ _
        (λ full. bind-Safe _ _ unix_secs-Safe (λ now s₁ p₁.
          let k = filled_leg (leg side l) info.filled_quantity now in
          choose-Safe _ _ _
            (λ e. with_lock-Safe _ _ (λ s₂.
              bind-Safe _ _ (both_legs_status-Safe (set_leg side k l))
                (λ both s₃ p₃. answer_fill-Safe side o _ _ both (now_filled side k l refl))))
            (λ e. pure-Safe _ (fills_pair side k l refl e))))
        (λ e. choose-Safe _ _ _ (λ e. pure-Safe _ h) (λ e. pure-Safe _ h))

  pub poll-Safe :
      (side : OrderSide) (o : ArbitrageOpportunity F) (l : Legs F) {s : Desk B F}
      → Paired l
      → Safe R PairedStep s (poll side o l s)
  unfolding poll
  poll-Safe side o l {s} h =
      choose-Safe _ _ _
        (λ e.
          bind-Safe _ _ (asked-Safe _ (laws.details _ _ _ s.exchanges))
            (λ r s₁ p. judge_status-Safe side o l r h))
        (λ e. pure-Safe _ h)

  follow_price-Safe :
      (config : RepricingConfig F) (side : OrderSide) (l : Legs F) (r : Result ChaseError F)
      {s : Desk B F}
      → Paired l
      → Safe R PairedStep s (follow_price config side l r s)
  unfolding follow_price
  follow_price-Safe config side l (err e) h = pure-Safe _ h
  follow_price-Safe config side l (ok best_price) {s} h =
      choose-Safe _ _ _
        (λ e.
          bind-Safe _ _
            (asked-Safe _ (
              reprice_order-Steady R (leg side l).order best_price (leg side l).metrics
                s.exchanges))
            (λ r s₁ p. pure-Safe _ (repriced-Paired side l r h)))
        (λ e. pure-Safe _ h)

  pub reprice-Safe :
      (config : RepricingConfig F) (side : OrderSide) (l : Legs F) {s : Desk B F}
      → Paired l
      → Safe R PairedStep s (reprice config side l s)
  unfolding reprice
  reprice-Safe config side l {s} h =
      choose-Safe _ _ _
        (λ e.
          bind-Safe _ _ (asked-Safe _ (get_best_price-Steady R (leg side l).order s.exchanges))
            (λ r s₁ p. follow_price-Safe config side l r h))
        (λ e. pure-Safe _ h)

  pub give_up-Safe :
      {A : Type 0} {P : A → Type 0} (e : EntryError F) (l : Legs F) {s : Desk B F}
      → is_close_failure e ≡ false
      → is_one_leg_left e ≡ false
      → Safe R P s (give_up {A = A} e l s)
  unfolding give_up
  give_up-Safe e l p q =
      bind-Safe _ _ (cancel-Safe _ _)
        (λ r s₁ p₁. bind-Safe _ _ (cancel-Safe _ _) (λ r' s₂ p₂. raise-Safe e p q))

  pub check_spread-Safe :
      (config : RepricingConfig F) (bps : F) (l : Legs F) {s : Desk B F}
      → Paired l
      → Safe R PairedStep s (check_spread config bps l s)
  unfolding check_spread
  check_spread-Safe config bps l h =
      choose-Safe _ _ _ (λ e. give_up-Safe _ l refl refl) (λ e. pure-Safe _ h)

  check_reprices-Safe :
      (config : RepricingConfig F) (side : OrderSide) (l : Legs F) {s : Desk B F}
      → Paired l
      → Safe R PairedStep s (check_reprices config side l s)
  unfolding check_reprices
  check_reprices-Safe config side l h =
      choose-Safe _ _ _ (λ e. give_up-Safe _ l refl refl) (λ e. pure-Safe _ h)

  both_filled_stop-Safe :
      (l : Legs F) {s : Desk B F} → Paired l → Safe R PairedStep s (both_filled_stop l s)
  both_filled_stop-Safe l h = choose-Safe _ _ _ (λ e. pure-Safe _ h) (λ e. pure-Safe _ h)

  pub turn-Safe :
      (config : RepricingConfig F) (o : ArbitrageOpportunity F) (bps : F) (l : Legs F)
      {s : Desk B F}
      → Paired l
      → Safe R PairedStep s (turn config o bps l s)
  unfolding turn
  turn-Safe config o bps l h = bind-Safe _ _ (poll-Safe OrderSide.long o l h) (λ k₁ s₂ p₂.
      bind-Safe _ _ (and_then-Safe _ k₁ (λ l h. reprice-Safe config OrderSide.long l h) p₂)
        (λ k₂ s₃ p₃.
          bind-Safe _ _ (and_then-Safe _ k₂ (λ l h. poll-Safe OrderSide.short o l h) p₃)
            (λ k₃ s₄ p₄.
              bind-Safe _ _ (and_then-Safe _ k₃ (λ l h. reprice-Safe config OrderSide.short l h) p₄)
                (λ k₄ s₅ p₅.
                  bind-Safe _ _ (and_then-Safe _ k₄ (λ l h. check_spread-Safe config bps l h) p₅)
                    (λ k₅ s₆ p₆.
                      bind-Safe _ _
                        (and_then-Safe _ k₅ (λ l h. check_reprices-Safe config OrderSide.long l h)
                          p₆)
                        (λ k₆ s₇ p₇.
                          bind-Safe _ _
                            (and_then-Safe _ k₆
                              (λ l h. check_reprices-Safe config OrderSide.short l h) p₇)
                            (λ k₇ s₈ p₈.
                              and_then-Safe _ k₇ (λ l h. both_filled_stop-Safe l h) p₈)))))))
