-- ===== src/Entry/Prompt.antt =====
-- On exchanges that report every order as filled, the first turn of the polling loop is the last.
use Prim.{Unit, tt}
use Prim.Native.String.{String}
use funding_spread_arbitrage.Prelude.{◌≡◌, refl, true, false, Option, some, Result, ok, err}
use funding_spread_arbitrage.Double.{Double}
use funding_spread_arbitrage.Types.Order.{
  OrderSide, OrderStatus, OrderStatusInfo, SimulatedOrder, is_fully_filled,
}
use funding_spread_arbitrage.Types.Trade.{ArbitrageOpportunity}
use funding_spread_arbitrage.Config.{RepricingConfig}
use funding_spread_arbitrage.Hedge.Backend.{ExecutionBackend, Clock}
use funding_spread_arbitrage.Hedge.Lock.{contains}
use funding_spread_arbitrage.Hedge.Legs.{BothLegsStatus, both_filled, check_both_legs_status}
use funding_spread_arbitrage.Entry.Desk.{Desk, Leg, Legs, Entry, leg}
use funding_spread_arbitrage.Entry.Hedging.{
  Step, again, filled_leg, resized, to_option, both_legs_status, reduce, balance, settle,
  answer_fill,
}
use funding_spread_arbitrage.Entry.Polling.{and_then, judge_status, poll, turn}
use funding_spread_arbitrage.Entry.Good.{
  Good, pure-Good, asked-Good, bind-Good, true-Good, either-Good, with_lock-Good,
}

-- Exchanges that place every order, and report every order as filled.
pub record IsPrompt (B F : Type 0) ⦃x : ExecutionBackend B F⦄ ⦃d : Double F⦄ : Type 0 where
  pub places :
      (o : SimulatedOrder F) (b : B) → (p : SimulatedOrder F) × ((x.place_order o b).1 ≡ ok p)
  pub fills :
      (e i s : String) (b : B)
      → (info : OrderStatusInfo F) × ((x.get_order_status_detailed e i s b).1 ≡ ok info)
        × (is_fully_filled info ≡ true)

module _ {F : Type 0} where
  abbrev pub IsDone : Leg F → Type 0
  IsDone k = (k.filled ≡ true) × (k.order.status ≡ OrderStatus.filled)

  pub record Done (l : Legs F) : Type 0 where
    pub long : IsDone l.long
    pub short : IsDone l.short

  abbrev pub DoneStep : Step F → Type 0
  DoneStep k = (l : Legs F) × (k ≡ again l) × Done l

  -- Two legs of which neither has filled yet.
  pub record Open (l : Legs F) : Type 0 where
    pub long : l.long.filled ≡ false
    pub short : l.short.filled ≡ false

  resized-IsDone :
      (side other : OrderSide) (size : F) (l : Legs F)
      → IsDone (leg side l)
      → (r : Result String (SimulatedOrder F)) → IsDone (leg side (resized other size l r))
  resized-IsDone OrderSide.long OrderSide.long size l h (ok o) = h
  resized-IsDone OrderSide.long OrderSide.short size l h (ok o) = h
  resized-IsDone OrderSide.short OrderSide.long size l h (ok o) = h
  resized-IsDone OrderSide.short OrderSide.short size l h (ok o) = h
  resized-IsDone side other size l h (err e) = h

module _ {B F : Type 0} ⦃x : ExecutionBackend B F⦄ ⦃c : Clock B⦄ ⦃d : Double F⦄
    (laws : IsPrompt B F) where
  reduce-Good :
      (other : OrderSide) (o : ArbitrageOpportunity F) (diff size : F) (l : Legs F) (s : Desk B F)
      → IsDone l.long
      → Good (λ k s. IsDone k.long) (reduce other o diff size l s)
  unfolding reduce
  reduce-Good other o diff size l s h =
      bind-Good {P = λ a s. Unit} _ _ _ (asked-Good _ _ tt) (λ now s₁ p.
        bind-Good {P = λ a s. Unit} _ _ _ (asked-Good _ _ tt)
          (λ r s₂ p. pure-Good _ _ (resized-IsDone OrderSide.long other size l h r)))

  settle-Good :
      (o : ArbitrageOpportunity F) (long_qty short_qty : F) (l : Legs F) (s : Desk B F)
      → IsDone l.long
      → Good (λ k s. DoneStep k) (settle OrderSide.long o long_qty short_qty l s)
  unfolding settle balance
  settle-Good o long_qty short_qty l s h =
      bind-Good {P = λ k s. IsDone k.long} _ _ _
        (either-Good _ _ _ _
          (either-Good _ _ _ _ (reduce-Good OrderSide.long o _ _ l _ h)
            (reduce-Good OrderSide.short o _ _ l _ h))
          (pure-Good _ _ h))
        (λ k s₁ p.
          bind-Good {P = λ a s. Unit} _ _ _ (asked-Good _ _ tt)
            (λ now s₂ q. pure-Good _ _ (_, refl, record { long = p; short = (refl, refl) })))

  -- What is asked of an order: that it has filled.
  abbrev SaysFilled : Result String (OrderStatusInfo F) → Type 0
  SaysFilled r = (info : OrderStatusInfo F) × (r ≡ ok info) × (is_fully_filled info ≡ true)

  abbrev AllFilled : Option (BothLegsStatus F) → Type 0
  AllFilled r = (a : F) × (b : F) × (r ≡ some (both_filled a b))

  checked-AllFilled :
      (a b : Result String (OrderStatusInfo F))
      → SaysFilled a
      → SaysFilled b
      → AllFilled (check_both_legs_status (to_option a) (to_option b))
  unfolding check_both_legs_status
  checked-AllFilled a b (i, e, f) (j, g, k) =
      (i.filled_quantity, j.filled_quantity, rw (e, g, f, k) refl)

  both_legs_status-Good :
      (l : Legs F) (s : Desk B F) → Good (λ o s. AllFilled o) (both_legs_status l s)
  unfolding both_legs_status
  both_legs_status-Good l s =
      bind-Good {P = λ r s. SaysFilled r} _ _ _ (asked-Good _ _ (laws.fills _ _ _ _)) (λ a s₁ p.
        bind-Good {P = λ r s. SaysFilled r} _ _ _ (asked-Good _ _ (laws.fills _ _ _ _))
          (λ b s₂ q. pure-Good _ _ (checked-AllFilled a b p q)))

  answer_fill-Good :
      (o : ArbitrageOpportunity F) (q : F) (l : Legs F) (r : Option (BothLegsStatus F))
      (s : Desk B F)
      → IsDone l.long
      → AllFilled r
      → Good (λ k s. DoneStep k) (answer_fill OrderSide.long o q l r s)
  unfolding answer_fill
  answer_fill-Good o q l r s h (a, b, e) = rw (answer_fill, e) (settle-Good o a b l s h)

  judge_status-Good :
      (o : ArbitrageOpportunity F) (l : Legs F) (r : Result String (OrderStatusInfo F))
      (s : Desk B F)
      → Open l
      → contains s.locks.locks o.symbol ≡ false
      → SaysFilled r
      → Good (λ k s. DoneStep k) (judge_status OrderSide.long o l r s)
  unfolding judge_status
  judge_status-Good o l r s h free (info, e, f) =
      rw (judge_status, e)
        (true-Good _ _ _ _ f (
          bind-Good {P = λ a s'. s'.locks ≡ s.locks} _ _ _ (asked-Good _ _ refl) (λ now s₁ same.
            let k : Legs F = record l { long = filled_leg l.long info.filled_quantity now } in
            true-Good _ _ _ _ (rw (h.short) refl) (
              with_lock-Good o.symbol _ s₁ (rw same free) (λ s₂.
                bind-Good {P = λ o s. AllFilled o} _ _ _ (both_legs_status-Good k s₂)
                  (λ b s₃ p. answer_fill-Good o info.filled_quantity k b s₃ (refl, refl) p))))))

  poll-Good :
      (o : ArbitrageOpportunity F) (l : Legs F) (s : Desk B F)
      → Open l
      → contains s.locks.locks o.symbol ≡ false
      → Good (λ k s. DoneStep k) (poll OrderSide.long o l s)
  unfolding poll
  poll-Good o l s h free = true-Good _ _ _ _ (rw (h.long) refl) (
      bind-Good {P = λ r s'. SaysFilled r × (s'.locks ≡ s.locks)} _ _ _
        (asked-Good _ _ (laws.fills _ _ _ _, refl))
        (λ r s₁ p. judge_status-Good o l r s₁ h (rw (p.1) free) p.0))

  and_then-Good :
      (f : Legs F → Entry B F (Step F)) (k : Step F) (s : Desk B F)
      → DoneStep k
      → Good (λ k s. DoneStep k) (and_then f k s)
  unfolding and_then
  and_then-Good f k s (l, e, h) = rw (and_then, e) (pure-Good _ _ (l, refl, h))

  pub turn-Good :
      (config : RepricingConfig F) (o : ArbitrageOpportunity F) (bps : F) (l : Legs F)
      (s : Desk B F)
      → Open l
      → contains s.locks.locks o.symbol ≡ false
      → Good (λ k s. DoneStep k) (turn config o bps l s)
  unfolding turn
  turn-Good config o bps l s h free =
      bind-Good {P = λ k s. DoneStep k} _ _ _ (poll-Good o l s h free) (λ k₁ s₁ p₁.
        bind-Good {P = λ k s. DoneStep k} _ _ _ (and_then-Good _ k₁ _ p₁) (λ k₂ s₂ p₂.
          bind-Good {P = λ k s. DoneStep k} _ _ _ (and_then-Good _ k₂ _ p₂) (λ k₃ s₃ p₃.
            bind-Good {P = λ k s. DoneStep k} _ _ _ (and_then-Good _ k₃ _ p₃) (λ k₄ s₄ p₄.
              bind-Good {P = λ k s. DoneStep k} _ _ _ (and_then-Good _ k₄ _ p₄) (λ k₅ s₅ p₅.
                bind-Good {P = λ k s. DoneStep k} _ _ _ (and_then-Good _ k₅ _ p₅) (λ k₆ s₆ p₆.
                  bind-Good {P = λ k s. DoneStep k} _ _ _ (and_then-Good _ k₆ _ p₆)
                    (λ k₇ s₇ p₇. and_then-Good _ k₇ _ p₇)))))))
