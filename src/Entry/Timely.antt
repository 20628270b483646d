-- ===== src/Entry/Timely.antt =====
-- `execute_atomic_entry_real` ends: its loop is over once its timeout has passed.
use funding_spread_arbitrage.Prelude.{
  ℕ, zero, suc, ◌+◌, ◌-◌, ◌*◌, ◌≤◌, ◌≡◌, refl, ◌∙◌, inl, inr, false, not, ◌&&◌, ◌||◌, Option, some,
  ltb, Bool-cases, Result-cases, Answers-ok, Leaves-ok, arith,
}
use funding_spread_arbitrage.Double.{Double, of_nat, lit, ◌≼◌}
use funding_spread_arbitrage.Types.Trade.{ArbitrageOpportunity}
use funding_spread_arbitrage.Config.{ExecutionMode, RepricingConfig, from_confidence, preset}
use funding_spread_arbitrage.Hedge.Backend.{ExecutionBackend, Clock}
use funding_spread_arbitrage.Entry.Preflight.{Prepared, preflight}
use funding_spread_arbitrage.Entry.Asking.{IsAsking}
use funding_spread_arbitrage.Entry.Prepared.{IsAdmitted, preflight-IsAdmitted}
use funding_spread_arbitrage.Entry.Desk.{Desk, Legs}
use funding_spread_arbitrage.Entry.Hedging.{next, again, stop}
use funding_spread_arbitrage.Entry.Polling.{turn, slept, spread_bps, poll_both}
use funding_spread_arbitrage.Entry.Real.{place_both, timeout_ms, enter, execute_atomic_entry_real}
use funding_spread_arbitrage.Entry.Steady.{IsSteady}
use funding_spread_arbitrage.Entry.Paired.{Paired, PairedStep}
use funding_spread_arbitrage.Entry.Turns.{turn-Safe}
use funding_spread_arbitrage.Entry.Concluded.{place_both-Safe}

-- The clock does not go back, and a wait takes its time.
pub record IsTimed (B F : Type 0) ⦃x : ExecutionBackend B F⦄ ⦃c : Clock B⦄ : Type 0 where
  pub steady : IsSteady F (λ (b b' : B). c.instant b ≤ c.instant b')
  pub sleeps : (n : ℕ) (b : B) → c.instant b + n ≤ c.instant (c.sleep n b)

-- There is an outcome: the fuel suffices.
abbrev pub Ended : {A : Type 0} → Option A → Type 0
Ended {A} o = (r : A) × (o ≡ some r)

module _ {B F : Type 0} ⦃x : ExecutionBackend B F⦄ ⦃c : Clock B⦄ where
  -- A count of orders that counts none.
  abbrev pub no_count : IsAsking F (λ (b : B). 0)
  no_count = record {
    balances = λ e b. refl;
    steps = λ e s b. refl;
    leverage = λ e s n b. refl;
    margins = λ e s b. refl;
    depths = λ e s n b. refl;
  }

module _ {F : Type 0} ⦃d : Double F⦄ where
  preset-timely :
      (config : RepricingConfig F) (mode : ExecutionMode) (k : ℕ)
      → config ≡ preset mode
      → 30 ≤ k
      → timeout_ms config ≤ k * config.reprice_interval_ms
  unfolding preset
  preset-timely config mode k e h = rw e (omega (arith, h))

  pub from_confidence-cases :
      (confidence : F) → (mode : ExecutionMode) × (from_confidence confidence ≡ preset mode)
  unfolding from_confidence
  from_confidence-cases confidence = elim (Bool-cases (lit 90 0 ≼ confidence)) [
    | inl p ↦ (ExecutionMode.ultra_fast, rw p refl)
    | inr p ↦ elim (Bool-cases (lit 75 0 ≼ confidence)) [
      | inl q ↦ (ExecutionMode.balanced, rw (p, q) refl)
      | inr q ↦ (ExecutionMode.safe, rw (p, q) refl)
    ]
  ]

  -- The configuration for any confidence has a timeout of thirty intervals.
  timely :
      (confidence : F) (config : RepricingConfig F) (k : ℕ)
      → config ≡ from_confidence confidence
      → 30 ≤ k
      → timeout_ms config ≤ k * config.reprice_interval_ms
  timely confidence config k e h =
      let (mode, m) = from_confidence-cases confidence in preset-timely config mode k (e ∙ m) h

module _ {B F : Type 0} ⦃x : ExecutionBackend B F⦄ ⦃c : Clock B⦄ ⦃d : Double F⦄
    (laws : IsTimed B F) where
  abbrev Later : B → B → Type 0
  Later b b' = c.instant b ≤ c.instant b'

  poll_both-Ended :
      (config : RepricingConfig F) (o : ArbitrageOpportunity F) (bps : F) (start timeout k : ℕ)
      (l : Legs F) (s : Desk B F)
      → Paired l
      → start + timeout ≤ c.instant s.exchanges + k * config.reprice_interval_ms
      → Ended (poll_both config o bps start timeout (suc k) l s)
  unfolding poll_both
  poll_both-Ended config o bps start timeout zero l s h left =
      let over : ltb (c.instant s.exchanges - start) timeout ≡ false = ground (arith, left) in
      rw (poll_both, over) (_, refl)
  poll_both-Ended config o bps start timeout (suc k) l s h left =
      let i = config.reprice_interval_ms in
      let r = turn config o bps l (slept config s) in
      let safe = turn-Safe {R = Later} ⦃laws = laws.steady⦄ config o bps l {s = slept config s} h in
      let slow = laws.sleeps i s.exchanges in
      let enough : start + timeout ≤ c.instant r.0.exchanges + k * i =
        omega (arith, left, slow, safe.moved) in
      elim (Bool-cases (
        ltb (c.instant s.exchanges - start) timeout && (not l.long.filled || not l.short.filled))) [
          | inr p ↦ rw (poll_both, p) (_, refl)
          | inl p ↦ elim (Result-cases r.1) [
            | inr (e, q) ↦ rw (poll_both, p, q) (_, refl)
            | inl (stop l', q) ↦ rw (poll_both, p, q) (_, refl)
            | inl (next l', q) ↦
                rw (poll_both, p, q)
                  (poll_both-Ended config o bps start timeout k l' r.0
                    (Answers-ok PairedStep r.1 (next l') safe.answered q) enough)
            | inl (again l', q) ↦
                rw (poll_both, p, q)
                  (poll_both-Ended config o bps start timeout k l' r.0
                    (Answers-ok PairedStep r.1 (again l') safe.answered q) enough)
          ]
        ]

  enter-Ended :
      (o : ArbitrageOpportunity F) (size : F) (k : ℕ) (p : Prepared F) (s : Desk B F)
      → timeout_ms p.config ≤ k * p.config.reprice_interval_ms
      → Ended (enter o size (suc k) p s)
  unfolding enter
  enter-Ended o size k p s left =
      let r = place_both p s in
      let safe = place_both-Safe {R = Later} ⦃laws = laws.steady⦄ p {s = s} in
      elim (Result-cases r.1) [
        | inr (e, q) ↦ rw (enter, q) (_, refl)
        | inl (l, q) ↦
            let (out, e) =
              poll_both-Ended p.config o (spread_bps o.long_price o.short_price)
                (c.instant r.0.exchanges) (timeout_ms p.config) k l r.0
                (Answers-ok Paired r.1 l safe.answered q) (omega (arith, left)) in
            rw (enter, q, e) (_, refl)
      ]

  -- On exchanges whose clock does not go back, and a wait of n milliseconds takes at least those,
  -- an entry with real orders ends: thirty-one turns of its loop, the last of which finds that the
  -- timeout is over, are enough for any opportunity.
  pub entry_ends :
      (floor : F → F) (o : ArbitrageOpportunity F) (capital size : F) (k : ℕ) (s : Desk B F)
      → 30 ≤ k
      → Ended (execute_atomic_entry_real floor o capital size (suc k) s)
  unfolding execute_atomic_entry_real
  entry_ends floor o capital size k s h =
      let r = preflight floor s.halted o capital size s.exchanges in
      let checked =
        preflight-IsAdmitted (λ (b : B). 0) no_count floor s.halted o capital size s.exchanges in
      elim (Result-cases r.1) [
        | inr (e, q) ↦ rw (execute_atomic_entry_real, q) (_, refl)
        | inl (p, q) ↦
            let admitted =
              Leaves-ok
                (λ p b'.
                  IsAdmitted (λ (b : B). 0) no_count s.halted o capital size p × (zero ≡ zero))
                (λ b'. zero ≡ zero) r p checked q in
            rw (execute_atomic_entry_real, q)
              (enter-Ended o size k p (record s { exchanges = r.0; depths = p.depths })
                (timely (of_nat o.confidence_score) p.config k admitted.0.neutral.configured h))
      ]
