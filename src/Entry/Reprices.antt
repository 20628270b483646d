-- ===== src/Entry/Reprices.antt =====
-- An order that was moved as often as it may be is given up in the turn that moves it.
use Prim.{Unit, tt}
use funding_spread_arbitrage.Prelude.{◌<◌, ◌≡◌, refl, false, not, ◌&&◌, leb, ok, Answers-ok, arith}
use funding_spread_arbitrage.Double.{Double}
use funding_spread_arbitrage.Types.Order.{OrderSide}
use funding_spread_arbitrage.Types.Trade.{ArbitrageOpportunity}
use funding_spread_arbitrage.Config.{RepricingConfig}
use funding_spread_arbitrage.Hedge.Backend.{ExecutionBackend, Clock}
use funding_spread_arbitrage.Entry.Desk.{Desk, Legs, Entry, leg}
use funding_spread_arbitrage.Entry.Hedging.{Step, next, again, stop}
use funding_spread_arbitrage.Entry.Polling.{and_then, check_reprices, turn}
use funding_spread_arbitrage.Entry.Steady.{IsSteady, Safe, pure-Safe, bind-Safe, choose-Safe}
use funding_spread_arbitrage.Entry.Paired.{Paired, PairedStep}
use funding_spread_arbitrage.Entry.Turns.{
  and_then-Safe, poll-Safe, reprice-Safe, check_spread-Safe, give_up-Safe, turn-Safe,
}
use funding_spread_arbitrage.Entry.Ending.{Whatever, whatever}

module _ {F : Type 0} where
  -- A leg that has not filled has reprices left.
  abbrev HasMore : RepricingConfig F → OrderSide → Legs F → Type 0
  HasMore config side l =
      (leb config.max_reprices (leg side l).reprice_count && not (leg side l).filled) ≡ false

  more :
      (config : RepricingConfig F) (l : Legs F)
      → HasMore config OrderSide.long l × HasMore config OrderSide.short l
      → (side : OrderSide) → (leg side l).filled ≡ false
      → (leg side l).reprice_count < config.max_reprices
  more config l h OrderSide.long e = ground (arith, h.0, e)
  more config l h OrderSide.short e = ground (arith, h.1, e)

  -- If the turn goes on, what holds of the legs.
  abbrev OnNext : (Legs F → Type 0) → Step F → Type 0
  OnNext P (next l) = P l
  OnNext P (again l) = Unit
  OnNext P (stop l) = Unit

module _ {B F : Type 0} ⦃x : ExecutionBackend B F⦄ ⦃c : Clock B⦄ ⦃d : Double F⦄ {R : B → B → Type 0}
    ⦃laws : IsSteady F R⦄ where
  then_next-Safe :
      {P Q : Legs F → Type 0} (f : Legs F → Entry B F (Step F)) (k : Step F) {s : Desk B F}
      → ((l : Legs F) → P l → Safe R (OnNext Q) s (f l s))
      → OnNext P k
      → Safe R (OnNext Q) s (and_then f k s)
  unfolding and_then
  then_next-Safe f (next l) h p = h l p
  then_next-Safe f (again l) h p = pure-Safe _ tt
  then_next-Safe f (stop l) h p = pure-Safe _ tt

  paired_next :
      {Q : Legs F → Type 0} (f : Legs F → Entry B F (Step F)) (k : Step F) {s : Desk B F}
      → ((l : Legs F) → Safe R (OnNext Q) s (f l s))
      → Safe R (OnNext Q) s (and_then f k s)
  unfolding and_then
  paired_next f (next l) h = h l
  paired_next f (again l) h = pure-Safe _ tt
  paired_next f (stop l) h = pure-Safe _ tt

  checked-Safe :
      {P : Legs F → Type 0} (config : RepricingConfig F) (side : OrderSide) (l : Legs F)
      {s : Desk B F}
      → P l
      → Safe R (OnNext (λ k. P k × HasMore config side k)) s (check_reprices config side l s)
  unfolding check_reprices
  checked-Safe config side l h =
      choose-Safe _ _ _ (λ e. give_up-Safe _ l refl refl) (λ e. pure-Safe _ (h, e))

  bounded-Safe :
      (config : RepricingConfig F) (o : ArbitrageOpportunity F) (bps : F) (l : Legs F)
      {s : Desk B F}
      → Paired l
      → Safe R
          (OnNext (λ k. HasMore config OrderSide.long k × HasMore config OrderSide.short k))
          s
          (turn config o bps l s)
  unfolding turn
  bounded-Safe config o bps l h = bind-Safe _ _ (poll-Safe OrderSide.long o l h) (λ k₁ s₂ p₂.
      bind-Safe _ _ (and_then-Safe _ k₁ (λ l h. reprice-Safe config OrderSide.long l h) p₂)
        (λ k₂ s₃ p₃.
          bind-Safe _ _ (and_then-Safe _ k₂ (λ l h. poll-Safe OrderSide.short o l h) p₃)
            (λ k₃ s₄ p₄.
              bind-Safe _ _ (and_then-Safe _ k₃ (λ l h. reprice-Safe config OrderSide.short l h) p₄)
                (λ k₄ s₅ p₅.
                  bind-Safe _ _ (and_then-Safe _ k₄ (λ l h. check_spread-Safe config bps l h) p₅)
                    (λ k₅ s₆ p₆.
                      bind-Safe {P = OnNext (λ k. Unit × HasMore config OrderSide.long k)} _ _
                        (paired_next _ k₅
                          (λ l. checked-Safe {P = λ k. Unit} config OrderSide.long l tt))
                        (λ k₆ s₇ p₇.
                          bind-Safe
                            {P = OnNext (λ k.
                              (Unit × HasMore config OrderSide.long k)
                              × HasMore config OrderSide.short k)}
                            _ _
                            (then_next-Safe {P = λ k. Unit × HasMore config OrderSide.long k} _ k₆
                              (λ l h.
                                checked-Safe {P = λ k. Unit × HasMore config OrderSide.long k}
                                  config OrderSide.short l h)
                              p₇)
                            (λ k₇ s₈ p₈.
                              then_next-Safe
                                {P = λ k.
                                  (Unit × HasMore config OrderSide.long k)
                                  × HasMore config OrderSide.short k}
                                _ k₇
                                (λ l h.
                                  choose-Safe _ _ _ (λ e. pure-Safe _ tt)
                                    (λ e. pure-Safe _ (h.0.1, h.1)))
                                p₈)))))))

module _ {B F : Type 0} ⦃x : ExecutionBackend B F⦄ ⦃c : Clock B⦄ ⦃d : Double F⦄ where
  -- A turn of the polling loop that begins with both legs filled or neither, and after which the
  -- loop goes on with its next turn, leaves them so; and a leg that has not filled then was moved
  -- fewer times than it may be.
  pub turn_keeps_reprices :
      (config : RepricingConfig F) (o : ArbitrageOpportunity F) (bps : F) (l l' : Legs F)
      (s : Desk B F)
      → Paired l
      → (turn config o bps l s).1 ≡ ok (next l')
      → Paired l'
        × ((side : OrderSide)
            → (leg side l').filled ≡ false
            → (leg side l').reprice_count < config.max_reprices)
  turn_keeps_reprices config o bps l l' s h e =
      let both =
        Answers-ok
          (OnNext (λ k. HasMore config OrderSide.long k × HasMore config OrderSide.short k))
          (turn config o bps l s).1 (next l')
          (bounded-Safe {R = Whatever} ⦃laws = whatever⦄ config o bps l {s = s} h).answered e in
      (
        Answers-ok PairedStep (turn config o bps l s).1 (next l')
            (turn-Safe {R = Whatever} ⦃laws = whatever⦄ config o bps l {s = s} h).answered e,
        more config l' both,
      )
