-- ===== src/Entry/Opened.antt =====
-- On exchanges that place every order and report every order as filled, an entry ends in a trade.
use Prim.{Unit, tt}
use funding_spread_arbitrage.Prelude.{
  ℕ, zero, suc, ◌-◌, ◌<◌, ◌≡◌, refl, ap, ◌∙◌, true, false, not, ◌&&◌, ◌||◌, some, ltb, Result, ok,
  err, Leaves-ok, arith,
}
use funding_spread_arbitrage.Double.{Double, of_nat}
use funding_spread_arbitrage.Types.Order.{OrderSide, OrderStatus, SimulatedOrder}
use funding_spread_arbitrage.Types.Trade.{ArbitrageOpportunity, PaperTrade, TradeStatus}
use funding_spread_arbitrage.Config.{RepricingConfig}
use funding_spread_arbitrage.Hedge.Backend.{ExecutionBackend, Clock}
use funding_spread_arbitrage.Hedge.Lock.{contains}
use funding_spread_arbitrage.Entry.Preflight.{Prepared, preflight}
use funding_spread_arbitrage.Entry.Emergency.{opposite}
use funding_spread_arbitrage.Entry.Desk.{Desk, Legs, EntryError, leg}
use funding_spread_arbitrage.Entry.Hedging.{again}
use funding_spread_arbitrage.Entry.Polling.{turn, slept, spread_bps, poll_both}
use funding_spread_arbitrage.Entry.Final.{last_look, hedge_if_alone}
use funding_spread_arbitrage.Entry.Real.{
  open_leg, judge_placed, place_both, new_trade, open_trade, conclude, timeout_ms, enter,
  execute_atomic_entry_real,
}
use funding_spread_arbitrage.Entry.Good.{Good, pure-Good, asked-Good, bind-Good, false-Good}
use funding_spread_arbitrage.Entry.Prompt.{IsPrompt, Done, DoneStep, Open, turn-Good}
use funding_spread_arbitrage.Entry.Stranded.{goes_on}
use funding_spread_arbitrage.Entry.Timely.{no_count, from_confidence-cases}
use funding_spread_arbitrage.Entry.Prepared.{IsAdmitted, preflight-IsAdmitted}
use funding_spread_arbitrage.Config.{from_confidence, preset}

module _ {F : Type 0} where
  -- A trade that is active, with both of its orders filled.
  pub record IsOpened (t : PaperTrade F) : Type 0 where
    pub active : t.status ≡ TradeStatus.active
    pub long : t.long_order.status ≡ OrderStatus.filled
    pub short : t.short_order.status ≡ OrderStatus.filled

-- What has been answered.
Good-ok :
    {B F A : Type 0} {P : A → Desk B F → Type 0} (r : Desk B F × Result (EntryError F) A)
    → Good P r
    → (a : A) × (r.1 ≡ ok a) × P a r.0
Good-ok (s, ok a) h = (a, refl, h.meets)
Good-ok (s, err e) h = absurd h.meets

module _ {B F : Type 0} ⦃x : ExecutionBackend B F⦄ ⦃c : Clock B⦄ ⦃d : Double F⦄
    (laws : IsPrompt B F) where
  last_look-Good :
      (o : ArbitrageOpportunity F) (l : Legs F) (s : Desk B F)
      → Done l
      → Good (λ k s. k ≡ l) (last_look o l s)
  unfolding last_look
  last_look-Good o l s h = false-Good _ _ _ _ (rw (h.long.0) refl) (pure-Good _ _ refl)

  hedge_if_alone-Good :
      (side : OrderSide) (o : ArbitrageOpportunity F) (l : Legs F) (s : Desk B F)
      → ((leg side l).filled && not (leg (opposite side) l).filled) ≡ false
      → Good (λ k s. k ≡ l) (hedge_if_alone side o l s)
  unfolding hedge_if_alone
  hedge_if_alone-Good side o l s h = false-Good _ _ _ _ h (pure-Good _ _ refl)

  open_trade-Good :
      (o : ArbitrageOpportunity F) (size : F) (now : ℕ) (l : Legs F) (s : Desk B F)
      → Done l
      → Good (λ t s. IsOpened t) (open_trade o size now l s)
  unfolding open_trade new_trade
  open_trade-Good o size now l s h =
      bind-Good {P = λ a s. Unit} _ _ _ (asked-Good _ _ tt) (λ id s₁ p.
        bind-Good {P = λ a s. Unit} _ _ _ (asked-Good _ _ tt) (λ t₁ s₂ p.
          bind-Good {P = λ a s. Unit} _ _ _ (asked-Good _ _ tt) (λ t₂ s₃ p.
            bind-Good {P = λ a s. Unit} _ _ _ (asked-Good _ _ tt) (λ a s₄ p.
              bind-Good {P = λ a s. Unit} _ _ _ (asked-Good _ _ tt) (λ b s₅ p.
                pure-Good _ _ record { active = refl; long = h.long.1; short = h.short.1 })))))

  conclude-Good :
      (o : ArbitrageOpportunity F) (size : F) (now : ℕ) (l : Legs F) (s : Desk B F)
      → Done l
      → Good (λ t s. IsOpened t) (conclude o size now l s)
  unfolding conclude
  conclude-Good o size now l s h =
      bind-Good {P = λ k s. k ≡ l} _ _ _ (last_look-Good o l s h) (λ l₁ s₁ p₁.
        bind-Good {P = λ k s. k ≡ l₁} _ _ _
          (hedge_if_alone-Good OrderSide.long o l₁ s₁ (rw (p₁, h.long.0, h.short.0) refl))
          (λ l₂ s₂ p₂.
            bind-Good {P = λ k s. k ≡ l₂} _ _ _
              (hedge_if_alone-Good OrderSide.short o l₂ s₂ (rw (p₂, p₁, h.long.0, h.short.0) refl))
              (λ l₃ s₃ p₃.
                let e : l₃ ≡ l = p₃ ∙ p₂ ∙ p₁ in
                false-Good _ _ _ _ (rw (e, h.long.0, h.short.0) refl)
                  (open_trade-Good o size now l₃ s₃ (rw e h)))))

  place_both-Good :
      (p : Prepared F) (s : Desk B F)
      → Good (λ l s'. Open l × (s'.locks ≡ s.locks)) (place_both p s)
  unfolding place_both judge_placed open_leg
  place_both-Good p s =
      bind-Good {P = λ r s'. ((o : SimulatedOrder F) × (r ≡ ok o)) × (s'.locks ≡ s.locks)} _ _ _
        (asked-Good _ _ (laws.places _ _, refl))
        (λ a s₁ p₁.
          bind-Good {P = λ r s'. ((o : SimulatedOrder F) × (r ≡ ok o)) × (s'.locks ≡ s.locks)} _ _ _
            (asked-Good _ _ (laws.places _ _, p₁.1))
            (λ b s₂ p₂.
              rw (judge_placed, p₁.0.1, p₂.0.1)
                (pure-Good _ _ (record { long = refl; short = refl }, p₂.1))))

  one_turn :
      (config : RepricingConfig F) (o : ArbitrageOpportunity F) (bps : F) (timeout k : ℕ)
      (l l' : Legs F) (s : Desk B F)
      → (ltb (c.instant s.exchanges - c.instant s.exchanges) timeout
          && (not l.long.filled || not l.short.filled))
        ≡ true
      → (turn config o bps l (slept config s)).1 ≡ ok (again l')
      → Done l'
      → poll_both config o bps (c.instant s.exchanges) timeout (suc (suc k)) l s
        ≡ some ((turn config o bps l (slept config s)).0, ok l')
  unfolding poll_both
  one_turn config o bps timeout k l l' s begins e done =
      let r = turn config o bps l (slept config s) in
      let over : (ltb (c.instant r.0.exchanges - c.instant s.exchanges) timeout
            && (not l'.long.filled || not l'.short.filled))
          ≡ false =
        ground (arith, done.long.0, done.short.0) in
      rw (poll_both, begins, e, over) refl

  poll_both-Done :
      (config : RepricingConfig F) (o : ArbitrageOpportunity F) (bps : F) (timeout k : ℕ)
      (l : Legs F) (s : Desk B F)
      → Open l
      → contains s.locks.locks o.symbol ≡ false
      → 0 < timeout
      → (l' : Legs F) × (s' : Desk B F) × (poll_both config o bps
            (c.instant s.exchanges)
            timeout
            (suc (suc k))
            l
            s
          ≡ some (s', ok l'))
        × Done l'
  poll_both-Done config o bps timeout k l s h free some_time =
      let r = turn config o bps l (slept config s) in
      let (step, e, (l', e', done)) =
        Good-ok {P = λ k s. DoneStep k} r (turn-Good laws config o bps l (slept config s) h free) in
      let begins : (ltb (c.instant s.exchanges - c.instant s.exchanges) timeout
            && (not l.long.filled || not l.short.filled))
          ≡ true =
        ground (arith, some_time, h.long) in
      (l', r.0, one_turn config o bps timeout k l l' s begins (e ∙ ap ok e') done, done)

  enters :
      (o : ArbitrageOpportunity F) (size : F) (fuel : ℕ) (p : Prepared F) (s : Desk B F)
      (l l' : Legs F) (s₁ : Desk B F) (t : PaperTrade F)
      → (place_both p s).1 ≡ ok l
      → poll_both p.config o
          (spread_bps o.long_price o.short_price)
          (c.instant (place_both p s).0.exchanges)
          (timeout_ms p.config)
          fuel
          l
          (place_both p s).0
        ≡ some (s₁, ok l')
      → (conclude o size p.now l' s₁).1 ≡ ok t
      → enter o size fuel p s ≡ some ((conclude o size p.now l' s₁).0, ok t)
  unfolding enter
  enters o size fuel p s l l' s₁ t e polled a =
      rw (enter, e, polled) (ap (λ u. some ((conclude o size p.now l' s₁).0, u)) a)

  enter-IsOpened :
      (o : ArbitrageOpportunity F) (size : F) (k : ℕ) (p : Prepared F) (s : Desk B F)
      → contains s.locks.locks o.symbol ≡ false
      → 0 < timeout_ms p.config
      → (s' : Desk B F) × (t : PaperTrade F) × (enter o size (suc (suc k)) p s ≡ some (s', ok t))
        × IsOpened t
  enter-IsOpened o size k p s free some_time =
      let r = place_both p s in
      let (l, e, (h, same)) =
        Good-ok {P = λ l s'. Open l × (s'.locks ≡ s.locks)} r (place_both-Good p s) in
      let (l', s₁, polled, done) =
        poll_both-Done p.config o (spread_bps o.long_price o.short_price) (timeout_ms p.config) k l
          r.0 h (rw same free) some_time in
      let q = conclude o size p.now l' s₁ in
      let (t, a, opened) =
        Good-ok {P = λ t s. IsOpened t} q (conclude-Good o size p.now l' s₁ done) in
      (q.0, t, enters o size (suc (suc k)) p s l l' s₁ t e polled a, opened)

  -- The configuration for any confidence has some time.
  some_time :
      (confidence : F) (config : RepricingConfig F)
      → config ≡ from_confidence confidence
      → 0 < timeout_ms config
  unfolding preset
  some_time confidence config e = rw (e, (from_confidence-cases confidence).1) (omega arith)

  -- Exchanges that place every order and report every order as filled give a trade: once the checks
  -- of an entry with real orders have passed and the hedge lock of its symbol is free, two turns of
  -- fuel are enough for it to end in a trade that is active, with both of its orders filled.
  pub entry_opens :
      (floor : F → F) (o : ArbitrageOpportunity F) (capital size : F) (k : ℕ) (s : Desk B F)
      (p : Prepared F) (b : B)
      → preflight floor s.halted o capital size s.exchanges ≡ (b, ok p)
      → contains s.locks.locks o.symbol ≡ false
      → (s' : Desk B F) × (t : PaperTrade F) × (execute_atomic_entry_real floor o capital size
            (suc (suc k))
            s
          ≡ some (s', ok t))
        × IsOpened t
  entry_opens floor o capital size k s p b checked free =
      let admitted =
        Leaves-ok
          (λ p b'. IsAdmitted (λ (b : B). 0) no_count s.halted o capital size p × (zero ≡ zero))
          (λ b'. zero ≡ zero) (preflight floor s.halted o capital size s.exchanges) p
          (preflight-IsAdmitted (λ (b : B). 0) no_count floor s.halted o capital size s.exchanges)
          (ap (λ r. r.1) checked) in
      let (s', t, e, opened) =
        enter-IsOpened o size k p (record s { exchanges = b; depths = p.depths }) free
          (some_time (of_nat o.confidence_score) p.config admitted.0.neutral.configured) in
      (s', t, goes_on floor o capital size (suc (suc k)) s p b checked ∙ e, opened)
