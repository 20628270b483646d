-- ===== src/Entry/Fills.antt =====
-- When a simulated entry succeeds, and what the trade is that it answers with.
use Prim.{tt}
use Prim.Native.String.{String}
use text.Mathlib.Text.{◌==◌ as same_text}
use funding_spread_arbitrage.Prelude.{
  ◌≡◌, ◌≢◌, ap, ◌++◌, ◌∷◌, [], refl, inl, inr, Bool, true, false, not, ◌&&◌, some, arith,
  if◌then◌else◌, Bool-cases, ℕ, ok, is_ok, bind-Answers, pure, Answers, Answers-ok,
}
use funding_spread_arbitrage.Double.{Double, lit, ◌⊖◌, ◌⊗◌, ◌≺◌, ◌≼◌}
use funding_spread_arbitrage.Types.Order.{
  OrderSide, SimulatedOrder, QueuePosition, is_filled_status,
}
use funding_spread_arbitrage.Types.Trade.{ArbitrageOpportunity, PaperTrade}
use funding_spread_arbitrage.Types.Trade.{PortfolioState}
use funding_spread_arbitrage.Portfolio.{Redis, open_trade, opened, stored, exceeds_capital}
use funding_spread_arbitrage.Hedge.Backend.{Clock}
use funding_spread_arbitrage.Entry.Sizing.{identify_harder_leg}
use funding_spread_arbitrage.Entry.Orders.{create_limit_order, simulate_order_fill}
use funding_spread_arbitrage.Entry.Paper.{
  is_long, fill_legs, fill_in_order, create_trade, execute_atomic_entry,
}

-- A leg that has filled, whole, at its price.
pub record IsFilledAt {F : Type 0} (price size : F) (o : SimulatedOrder F) : Type 0 where
  pub status : is_filled_status o.status ≡ true
  pub price_of : o.fill_price ≡ some price
  pub size_of : o.size ≡ size

module _ {F : Type 0} ⦃d : Double F⦄ where
  pub record Entered (o : ArbitrageOpportunity F) (capital size : F) (t : PaperTrade F)
      : Type 0 where
    pub affordable : (capital ≺ size) ≡ false
    pub named : t.symbol ≡ o.symbol
    pub sized : t.position_size_usd ≡ size
    pub long_filled : IsFilledAt o.long_price size t.long_order
    pub short_filled : IsFilledAt o.short_price size t.short_order

  simulate_order_fill-IsFilledAt :
      (o : SimulatedOrder F) (q : QueuePosition F) (v : F) (now : ℕ)
      → o.queue_position ≡ some q
      → (simulate_order_fill o v now).1 ≡ true
      → IsFilledAt q.price o.size (simulate_order_fill o v now).0
  unfolding simulate_order_fill
  simulate_order_fill-IsFilledAt o q v now e f =
      elim (Bool-cases (q.resting_depth_at_entry ⊗ q.fill_threshold_pct ≼ v)) [
        | inl p ↦
            rw (simulate_order_fill, e, p) record { status = refl; price_of = refl; size_of = refl }
        | inr p ↦ absurd (ground (arith, e, p, f))
      ]

stored-fits :
    {F : Type 0} (r : Redis F) (t : PaperTrade F) (s : PortfolioState F)
    → stored r t s ≢ exceeds_capital
stored-fits r t s = ground arith

module _ {B F : Type 0} ⦃c : Clock B⦄ ⦃d : Double F⦄ where
  fill_legs-Answers :
      (o : ArbitrageOpportunity F) (h e : SimulatedOrder F) (p q : QueuePosition F) (b : B)
      → h.queue_position ≡ some p
      → e.queue_position ≡ some q
      → Answers
          (λ r. IsFilledAt p.price h.size r.0 × IsFilledAt q.price e.size r.1)
          (fill_legs o h e b).1
  unfolding fill_legs
  fill_legs-Answers o h e p q b hp eq =
      let now = c.unix_secs b in
      let u = o.order_book_depth_long ⊗ lit 25 2 in
      let v =
        if is_long e.side
        then o.order_book_depth_long ⊗ lit 30 2
        else o.order_book_depth_short ⊗ lit 30 2 in
      elim (Bool-cases (simulate_order_fill h u now).1) [
        | inr x ↦ rw (fill_legs, x) tt
        | inl x ↦ elim (Bool-cases (simulate_order_fill e v now).1) [
          | inr y ↦ rw (fill_legs, x, y) tt
          | inl y ↦
              rw (fill_legs, x, y)
                (
                  simulate_order_fill-IsFilledAt h p u now hp x,
                  simulate_order_fill-IsFilledAt e q v now eq y,
                )
        ]
      ]

module _ {F : Type 0} ⦃d : Double F⦄ where
  -- A fifth of what rests on the book of a leg has traded: of the harder leg, if a quarter of
  -- the LONG leg's book trades, and of the easier one, if three tenths of its own book trade.
  abbrev pub legs_fill : Bool → ArbitrageOpportunity F → Bool
  legs_fill true o =
      (o.order_book_depth_long ⊗ lit 20 2 ≼ o.order_book_depth_long ⊗ lit 25 2)
      && (o.order_book_depth_short ⊗ lit 20 2 ≼ o.order_book_depth_short ⊗ lit 30 2)
  legs_fill false o =
      (o.order_book_depth_short ⊗ lit 20 2 ≼ o.order_book_depth_long ⊗ lit 25 2)
      && (o.order_book_depth_long ⊗ lit 20 2 ≼ o.order_book_depth_long ⊗ lit 30 2)

module _ {B F : Type 0} ⦃c : Clock B⦄ ⦃d : Double F⦄ where
  -- A simulated entry succeeds exactly when its size is not at or below zero and not above the
  -- capital, and both legs fill: the easier leg when a fifth of its own book is at most three
  -- tenths of that book, and the harder leg when a fifth of its own book is at most a quarter of
  -- the book of the long leg, whichever leg is the harder one.
  pub entry_succeeds_iff :
      (to_lowercase : String → String) (o : ArbitrageOpportunity F) (capital size : F) (b : B)
      → is_ok (execute_atomic_entry to_lowercase o capital size b).1 ≡ (
          not (size ≼ lit 0 0)
          && not (capital ≺ size)
          && legs_fill
              (same_text (identify_harder_leg to_lowercase o.long_exchange o.short_exchange) "long")
              o)
  unfolding execute_atomic_entry create_trade fill_in_order fill_legs create_limit_order
      simulate_order_fill
  entry_succeeds_iff to_lowercase o capital size b = ground arith

  fill_in_order-Answers :
      (o : ArbitrageOpportunity F) (h : Bool) (l s : SimulatedOrder F) (p q : QueuePosition F)
      (b : B)
      → l.queue_position ≡ some p
      → s.queue_position ≡ some q
      → Answers
          (λ r. IsFilledAt p.price l.size r.0 × IsFilledAt q.price s.size r.1)
          (fill_in_order h o l s b).1
  unfolding fill_in_order
  fill_in_order-Answers o true l s p q b lp sq = fill_legs-Answers o l s p q b lp sq
  fill_in_order-Answers o false l s p q b lp sq =
      bind-Answers _ _ (fill_legs o s l) (λ legs. pure (legs.1, legs.0)) b
        (fill_legs-Answers o s l q p b sq lp) (λ legs b₁ h. (h.1, h.0))

  pub entry-Answers :
      (to_lowercase : String → String) (o : ArbitrageOpportunity F) (capital size : F) (b : B)
      → Answers (Entered o capital size) (execute_atomic_entry to_lowercase o capital size b).1
  unfolding execute_atomic_entry create_limit_order create_trade
  entry-Answers to_lowercase o capital size b =
      let (b₁, l) =
        create_limit_order o.long_exchange o.symbol OrderSide.long o.long_price size
          o.order_book_depth_long b in
      let (b₂, s) =
        create_limit_order o.short_exchange o.symbol OrderSide.short o.short_price size
          o.order_book_depth_short b₁ in
      let harder =
        same_text (identify_harder_leg to_lowercase o.long_exchange o.short_exchange) "long" in
      elim (Bool-cases (size ≼ lit 0 0)) [
        | inl p ↦ rw (execute_atomic_entry, p) tt
        | inr p ↦ elim (Bool-cases (capital ≺ size)) [
          | inl q ↦ rw (execute_atomic_entry, p, q) tt
          | inr q ↦
              rw (execute_atomic_entry, p, q)
                (bind-Answers _ (Entered o capital size) (fill_in_order harder o l s)
                  (create_trade o size (c.unix_secs b)) b₂
                  (fill_in_order-Answers o harder l s _ _ b₂ refl refl)
                  (λ legs b₃ h. record {
                    affordable = q;
                    named = refl;
                    sized = refl;
                    long_filled = h.0;
                    short_filled = h.1;
                  }))
        ]
      ]

  -- A trade that a simulated entry answers with has both legs filled, whole, at the prices of the
  -- opportunity; and the portfolio whose available capital the entry was given takes it: it never
  -- refuses the trade for lack of capital, sets its size aside and lists it as active.
  pub entered_trade_opens :
      (to_lowercase : String → String) (o : ArbitrageOpportunity F) (s : PortfolioState F)
      (r : Redis F) (size : F) (b : B) (t : PaperTrade F)
      → (execute_atomic_entry to_lowercase o s.available_capital size b).1 ≡ ok t
      → IsFilledAt o.long_price size t.long_order
        × IsFilledAt o.short_price size t.short_order
        × ((open_trade r s t).1 ≢ exceeds_capital)
        × ((open_trade r s t).0.available_capital ≡ s.available_capital ⊖ size)
        × ((open_trade r s t).0.active_trades ≡ s.active_trades ++ t ∷ [])
  unfolding open_trade
  entered_trade_opens to_lowercase o s r size b t e =
      let w =
        Answers-ok (Entered o s.available_capital size) _ t
          (entry-Answers to_lowercase o s.available_capital size b) e in
      let fits : (s.available_capital ≺ t.position_size_usd) ≡ false = rw w.sized w.affordable in
      rw (open_trade, fits)
        (
          w.long_filled,
          w.short_filled,
          stored-fits r t (opened s t),
          ap (λ p. s.available_capital ⊖ p) w.sized,
          refl,
        )
