-- ===== src/Entry/Covered.antt =====
-- What the market orders of the last hedge leave recorded of the hedged leg.
use Prim.{tt}
use funding_spread_arbitrage.Prelude.{
  ◌≡◌, refl, ap, ◌∙◌, true, false, ◌||◌, List, ◌++◌, Result, ok, err, Answers,
}
use funding_spread_arbitrage.Double.{Double, lit, ◌⊖◌, ◌≼◌}
use funding_spread_arbitrage.Types.Order.{OrderSide, OrderType, SimulatedOrder}
use funding_spread_arbitrage.Types.Trade.{ArbitrageOpportunity, sum_from}
use funding_spread_arbitrage.Hedge.Backend.{ExecutionBackend, Clock}
use funding_spread_arbitrage.Entry.Retry.{HedgeError, place_market_order_with_retry}
use funding_spread_arbitrage.Entry.Hedged.{IsReporting, Hedged, hedge_accounts}
use funding_spread_arbitrage.Entry.Emergency.{opposite}
use funding_spread_arbitrage.Entry.Desk.{
  Desk, EntryError, Legs, leg, exchange_of, price_of, new_order, carry_on, raise, hedge_failed,
}
use funding_spread_arbitrage.Entry.Hedging.{filled_by, hedged}
use funding_spread_arbitrage.Entry.Final.{Progress, complete_hedge}
use funding_spread_arbitrage.Entry.Steady.{pure_lem, raise_lem, asked_lem, bind_lem, choose_lem}

module _ {F : Type 0} where
  filled_by_order :
      (side : OrderSide) (order : SimulatedOrder F) (l : Legs F)
      → (leg side (filled_by side order l)).order ≡ order
  filled_by_order OrderSide.long order l = refl
  filled_by_order OrderSide.short order l = refl

module _ {B F : Type 0} ⦃d : Double F⦄ where
  -- The recorded size of a side is the sum of the fills that the exchanges reported between two
  -- states, which is at least the target or leaves nothing of it.
  pub record SizedBy (reported : B → List F) (side : OrderSide) (target : F) (b b' : B) (l : Legs F)
      : Type 0 where
    pub fills : List F
    pub all_reported : reported b' ≡ reported b ++ fills
    pub size : (leg side l).order.size ≡ sum_from (lit 0 0) fills
    pub enough :
        (target ≼ sum_from (lit 0 0) fills || target ⊖ sum_from (lit 0 0) fills ≼ lit 0 0) ≡ true

  -- An entry's step that answers, answers with such a size.
  abbrev pub Sized :
      (B → List F) → OrderSide → F → B → Desk B F × Result (EntryError F) (Legs F) → Type 0
  Sized reported side target b r = Answers (λ l. SizedBy reported side target b r.0.exchanges l) r.1

  raised-Sized :
      {A : Type 0} (reported : B → List F) (side : OrderSide) (target : F) (b : B)
      (e : EntryError F) (r : Desk B F × Result (EntryError F) A)
      → Sized reported side target b (carry_on (λ u. raise e) r)
  raised-Sized reported side target b e (s, ok u) = rw (raise_lem {A = Legs F} e s) tt
  raised-Sized reported side target b e (s, err k) = tt

module _ {B F : Type 0} ⦃x : ExecutionBackend B F⦄ ⦃c : Clock B⦄ ⦃d : Double F⦄
    (reported : B → List F) where
  hedged-Sized :
      (side : OrderSide) (target : F) (b : B) (l : Legs F) (s : Desk B F)
      (r : Result (HedgeError F) (SimulatedOrder F))
      → Hedged reported 3 target (lit 0 0) b (s.exchanges, r)
      → Sized reported (opposite side) target b (hedged side l r s)
  unfolding hedged
  hedged-Sized side target b l s (ok order) h =
      rw (pure_lem (filled_by (opposite side) order l) s) record {
        fills = h.fills;
        all_reported = h.all_reported;
        size = ap (λ o. o.size) (filled_by_order (opposite side) order l) ∙ h.accounts.0;
        enough = h.accounts.1;
      }
  hedged-Sized side target b l s (err e) h =
      rw bind_lem (raised-Sized reported (opposite side) target b (hedge_failed side e) _)

  -- When what a hedge has filled with the cancelled order and the limit order does not reach the
  -- quantity to hedge, and the market orders for the rest succeed, the hedged leg is recorded with
  -- the sum of the fills of these market orders alone as its size: what was filled before is not
  -- part of it. That sum is at least the rest, or leaves nothing of it.
  pub final_size :
      (laws : IsReporting reported) (side : OrderSide) (o : ArbitrageOpportunity F) (quantity : F)
      (p : Progress F) (s : Desk B F)
      → (quantity ≼ p.total_filled) ≡ false
      → Sized reported
          (opposite side)
          (quantity ⊖ p.total_filled)
          s.exchanges
          (complete_hedge side o quantity p s)
  unfolding complete_hedge
  final_size laws side o quantity p s h =
      let other = opposite side in
      let remaining = quantity ⊖ p.total_filled in
      let order =
        new_order "" (exchange_of other o) o.symbol other OrderType.market (price_of other o)
          remaining (c.unix_secs s.exchanges) in
      let q = place_market_order_with_retry order remaining s.exchanges in
      rw (h, choose_lem, bind_lem, asked_lem, bind_lem, asked_lem)
        (hedged-Sized side remaining s.exchanges p.legs (record s { exchanges = q.0 }) q.1
          (hedge_accounts reported laws order remaining s.exchanges))
