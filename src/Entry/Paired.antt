-- ===== src/Entry/Paired.antt =====
-- A hedge leaves both legs filled, or ends the entry with the filled leg closed.
use Prim.{tt}
use Prim.Native.String.{String}
use funding_spread_arbitrage.Prelude.{
  ℕ, ◌≡◌, refl, sym, ◌∙◌, true, Option, none, some, Result, ok, err,
}
use funding_spread_arbitrage.Double.{Double}
use funding_spread_arbitrage.Types.Order.{OrderSide, OrderType, SimulatedOrder}
use funding_spread_arbitrage.Types.Trade.{ArbitrageOpportunity}
use funding_spread_arbitrage.Hedge.Backend.{ExecutionBackend, Clock}
use funding_spread_arbitrage.Hedge.Legs.{
  BothLegsStatus, both_filled, only_long_filled, only_short_filled, neither_filled,
}
use funding_spread_arbitrage.DepthChecker.{DepthCheckResult}
use funding_spread_arbitrage.Entry.Retry.{HedgeError}
use funding_spread_arbitrage.Entry.Emergency.{opposite}
use funding_spread_arbitrage.Entry.Desk.{
  Desk, Leg, Legs, leg, set_leg, exchange_of, price_of, pure, new_order, ◌>>=◌,
}
use funding_spread_arbitrage.Entry.Hedging.{
  Step, next, again, stop, resize, resized, unix_secs, cancel, both_legs_status, reduce, balance,
  settle, hedged, guard_depth, hedge, answer_fill,
}
use funding_spread_arbitrage.Entry.Steady.{
  IsSteady, Safe, Any, pure-Safe, raise-Safe, asked-Safe, bind-Safe, choose-Safe,
}
use funding_spread_arbitrage.Entry.Calls.{
  place_market_order_with_retry-Steady, check_depth-Safe, close_position-Safe,
}

module _ {F : Type 0} where
  -- Both legs count as filled, or neither.
  abbrev pub Paired : Legs F → Type 0
  Paired l = l.long.filled ≡ l.short.filled

  pub record Both (l : Legs F) : Type 0 where
    pub long : l.long.filled ≡ true
    pub short : l.short.filled ≡ true

  abbrev pub IsFilled : OrderSide → Legs F → Type 0
  IsFilled side l = (leg side l).filled ≡ true

  abbrev pub PairedStep : Step F → Type 0
  PairedStep (next l) = Paired l
  PairedStep (again l) = Paired l
  PairedStep (stop l) = Paired l

  pub Both-Paired : (l : Legs F) → Both l → Paired l
  Both-Paired l h = h.long ∙ sym h.short

  pub set_leg-Both :
      (side : OrderSide) (k : Leg F) (l : Legs F)
      → IsFilled side l
      → k.filled ≡ true
      → Both (set_leg (opposite side) k l)
  set_leg-Both OrderSide.long k l h f = record { long = h; short = f }
  set_leg-Both OrderSide.short k l h f = record { long = f; short = h }

  resized-IsFilled :
      (side other : OrderSide) (size : F) (l : Legs F)
      → IsFilled side l
      → IsFilled side (resize other size l)
  resized-IsFilled OrderSide.long OrderSide.long size l h = h
  resized-IsFilled OrderSide.long OrderSide.short size l h = h
  resized-IsFilled OrderSide.short OrderSide.long size l h = h
  resized-IsFilled OrderSide.short OrderSide.short size l h = h

  answered-IsFilled :
      (side other : OrderSide) (size : F) (l : Legs F)
      → IsFilled side l
      → (r : Result String (SimulatedOrder F)) → IsFilled side (resized other size l r)
  answered-IsFilled side other size l h (ok a) = resized-IsFilled side other size l h
  answered-IsFilled side other size l h (err e) = h

  -- The market order of a hedge.
  abbrev pub market_order : OrderSide → ArbitrageOpportunity F → F → ℕ → SimulatedOrder F
  market_order side o q now =
      new_order "" (exchange_of (opposite side) o) o.symbol (opposite side) OrderType.market
        (price_of (opposite side) o) q now

  pub resized-Both : (side : OrderSide) (size : F) (l : Legs F) → Both l → Both (resize side size l)
  resized-Both OrderSide.long size l h = record { long = h.long; short = h.short }
  resized-Both OrderSide.short size l h = record { long = h.long; short = h.short }

module _ {B F : Type 0} ⦃x : ExecutionBackend B F⦄ ⦃c : Clock B⦄ ⦃d : Double F⦄ {R : B → B → Type 0}
    ⦃laws : IsSteady F R⦄ where
  pub unix_secs-Safe : {s : Desk B F} → Safe R Any s (unix_secs {F = F} s)
  unix_secs-Safe {s} = asked-Safe (λ b. (b, c.unix_secs b)) (laws.stays s.exchanges)

  pub cancel-Safe : (e i : String) {s : Desk B F} → Safe R Any s (cancel {F = F} e i s)
  cancel-Safe e i {s} = asked-Safe (x.cancel_order e i) (laws.cancels e i s.exchanges)

  pub both_legs_status-Safe : (l : Legs F) {s : Desk B F} → Safe R Any s (both_legs_status l s)
  unfolding both_legs_status
  both_legs_status-Safe l {s} =
      bind-Safe _ _ (asked-Safe _ (laws.details _ _ _ s.exchanges)) (λ r s₁ p.
        bind-Safe _ _ (asked-Safe _ (laws.details _ _ _ s₁.exchanges)) (λ r' s₂ q. pure-Safe _ tt))

  reduce-Safe :
      (side other : OrderSide) (o : ArbitrageOpportunity F) (diff size : F) (l : Legs F)
      {s : Desk B F}
      → IsFilled side l
      → Safe R (IsFilled side) s (reduce other o diff size l s)
  unfolding reduce
  reduce-Safe side other o diff size l h = bind-Safe _ _ unix_secs-Safe (λ now s₁ p.
      bind-Safe _ _ (asked-Safe _ (laws.markets _ s₁.exchanges))
        (λ r s₂ q. pure-Safe _ (answered-IsFilled side other size l h r)))

  balance-Safe :
      (side : OrderSide) (o : ArbitrageOpportunity F) (long_qty short_qty : F) (l : Legs F)
      {s : Desk B F}
      → IsFilled side l
      → Safe R (IsFilled side) s (balance o long_qty short_qty l s)
  unfolding balance
  balance-Safe side o long_qty short_qty l h =
      choose-Safe _ _ _
        (λ e.
          choose-Safe _ _ _ (λ e. reduce-Safe side OrderSide.long o _ _ l h)
            (λ e. reduce-Safe side OrderSide.short o _ _ l h))
        (λ e. pure-Safe _ h)

  settle-Safe :
      (side : OrderSide) (o : ArbitrageOpportunity F) (long_qty short_qty : F) (l : Legs F)
      {s : Desk B F}
      → IsFilled side l
      → Safe R PairedStep s (settle side o long_qty short_qty l s)
  unfolding settle
  settle-Safe side o long_qty short_qty l h =
      bind-Safe _ _ (balance-Safe side o long_qty short_qty l h) (λ b s₁ f.
        bind-Safe _ _ unix_secs-Safe
          (λ now s₂ p. pure-Safe _ (Both-Paired _ (set_leg-Both side _ b f refl))))

  pub hedged-Safe :
      (side : OrderSide) (l : Legs F) (r : Result (HedgeError F) (SimulatedOrder F)) {s : Desk B F}
      → IsFilled side l
      → Safe R Both s (hedged side l r s)
  unfolding hedged
  hedged-Safe side l (ok order) h = pure-Safe _ (set_leg-Both side _ l h refl)
  hedged-Safe side l (err e) h =
      bind-Safe _ _ (close_position-Safe _ _ (λ k. refl) (λ k. refl))
        (λ u s₁ p. raise-Safe _ refl refl)

  pub guard_depth-Safe :
      (side : OrderSide) (l : Legs F) (r : Result String (DepthCheckResult F)) {s : Desk B F}
      → Safe R Any s (guard_depth side l r s)
  unfolding guard_depth
  guard_depth-Safe side l (err e) = pure-Safe _ tt
  guard_depth-Safe side l (ok depth) =
      choose-Safe _ _ _
        (λ e.
          bind-Safe _ _ (close_position-Safe _ _ (λ k. refl) (λ k. refl))
            (λ u s₁ p. raise-Safe _ refl refl))
        (λ e. pure-Safe _ tt)

  hedge-Safe :
      (side : OrderSide) (o : ArbitrageOpportunity F) (q : F) (l : Legs F) {s : Desk B F}
      → IsFilled side l
      → Safe R Both s (hedge side o q l s)
  unfolding hedge
  hedge-Safe side o q l h = bind-Safe _ _ (check_depth-Safe _ _ _) (λ depth s₁ p₁.
      bind-Safe _ _ (guard_depth-Safe side l depth) (λ u s₂ p₂.
        bind-Safe _ _ unix_secs-Safe (λ now s₃ p₃. bind-Safe _ _ (cancel-Safe _ _) (λ r s₄ p₄.
          bind-Safe _ _
            (asked-Safe _
              (place_market_order_with_retry-Steady R (market_order side o q now) q s₄.exchanges))
            (λ placed s₅ p₅. hedged-Safe side l placed h)))))

  next-hedge-Safe :
      (side : OrderSide) (o : ArbitrageOpportunity F) (q : F) (l : Legs F) {s : Desk B F}
      → IsFilled side l
      → Safe R PairedStep s ((hedge side o q l >>= λ l'. pure (next l')) s)
  next-hedge-Safe side o q l h =
      bind-Safe _ _ (hedge-Safe side o q l h) (λ l' s₁ both. pure-Safe _ (Both-Paired l' both))

  pub answer_fill-Safe :
      (side : OrderSide) (o : ArbitrageOpportunity F) (q : F) (l : Legs F)
      (r : Option (BothLegsStatus F)) {s : Desk B F}
      → IsFilled side l
      → Safe R PairedStep s (answer_fill side o q l r s)
  unfolding answer_fill
  answer_fill-Safe side o q l (some (both_filled a b)) h = settle-Safe side o a b l h
  answer_fill-Safe side o q l (some (only_long_filled a)) h = next-hedge-Safe side o q l h
  answer_fill-Safe side o q l (some (only_short_filled a)) h = next-hedge-Safe side o q l h
  answer_fill-Safe side o q l (some neither_filled) h = next-hedge-Safe side o q l h
  answer_fill-Safe side o q l none h = next-hedge-Safe side o q l h
