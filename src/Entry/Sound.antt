-- ===== src/Entry/Sound.antt =====
-- What the loop of `execute_atomic_entry_real` and what follows it leave behind, turn by turn.
use Prim.{Unit, tt}
use funding_spread_arbitrage.Prelude.{
  ℕ, zero, suc, ◌-◌, ◌≡◌, refl, subst, inl, inr, not, ◌&&◌, ◌||◌, Option, none, some, ltb,
  Bool-cases, Result, ok, err, Result-cases, Answers-ok,
}
use funding_spread_arbitrage.Double.{Double}
use funding_spread_arbitrage.Types.Trade.{ArbitrageOpportunity}
use funding_spread_arbitrage.Config.{RepricingConfig}
use funding_spread_arbitrage.Hedge.Backend.{ExecutionBackend, Clock}
use funding_spread_arbitrage.Entry.Preflight.{Prepared}
use funding_spread_arbitrage.Entry.Desk.{Desk, Legs, EntryError, carry_on}
use funding_spread_arbitrage.Entry.Hedging.{Step, next, again, stop}
use funding_spread_arbitrage.Entry.Polling.{turn, slept, spread_bps, poll_both}
use funding_spread_arbitrage.Entry.Real.{place_both, conclude, timeout_ms, enter}
use funding_spread_arbitrage.Entry.Steady.{IsSteady, Safe, Any, later-Safe, carried-Safe}
use funding_spread_arbitrage.Entry.Paired.{Paired, PairedStep}
use funding_spread_arbitrage.Entry.Turns.{turn-Safe}
use funding_spread_arbitrage.Entry.Concluded.{conclude-Safe, place_both-Safe}

-- What is said of an outcome, if the fuel suffices.
abbrev pub Sound :
    {B F A : Type 0}
    → (B → B → Type 0)
    → Desk B F
    → Option (Desk B F × Result (EntryError F) A)
    → Type 0
Sound R s none = Unit
Sound R s (some r) = Safe R Any s r

module _ {B F : Type 0} ⦃x : ExecutionBackend B F⦄ ⦃c : Clock B⦄ ⦃d : Double F⦄ {R : B → B → Type 0}
    ⦃laws : IsSteady F R⦄ where
  waited :
      {A : Type 0} {P : A → Type 0} (config : RepricingConfig F) {s : Desk B F}
      (r : Desk B F × Result (EntryError F) A)
      → Safe R P (slept config s) r
      → Safe R P s r
  waited config {s} r h =
      let b = c.sleep config.reprice_interval_ms s.exchanges in
      record {
        moved =
            laws.joins s.exchanges b r.0.exchanges
              (laws.waits config.reprice_interval_ms s.exchanges) h.moved;
        freed = h.freed;
        flagged = h.flagged;
        hedged = h.hedged;
        answered = h.answered;
      }

  failed-Safe :
      {A C : Type 0} {P : A → Type 0} {Q : C → Type 0} {s s₁ : Desk B F} {e : EntryError F}
      → Safe {A = A} R P s (s₁, err e)
      → Safe {A = C} R Q s (s₁, err e)
  failed-Safe h = record {
    moved = h.moved;
    freed = h.freed;
    flagged = h.flagged;
    hedged = h.hedged;
    answered = tt;
  }

  later-Sound :
      {A C : Type 0} {P : A → Type 0} {s s₁ : Desk B F} {a : A}
      (o : Option (Desk B F × Result (EntryError F) C))
      → Safe R P s (s₁, ok a)
      → Sound R s₁ o
      → Sound R s o
  later-Sound none h k = tt
  later-Sound (some r) h k = later-Safe h k

  -- A turn that begins with a pair of legs, after its wait.
  turn_waited-Safe :
      (config : RepricingConfig F) (o : ArbitrageOpportunity F) (bps : F) (l : Legs F)
      (s : Desk B F) (t : Result (EntryError F) (Step F))
      → Paired l
      → (turn config o bps l (slept config s)).1 ≡ t
      → Safe R PairedStep s ((turn config o bps l (slept config s)).0, t)
  turn_waited-Safe config o bps l s t h e =
      let r = turn config o bps l (slept config s) in
      waited config (r.0, t)
        (subst (λ u. Safe R PairedStep (slept config s) (r.0, u)) e (turn-Safe config o bps l h))

  stays-Safe : {A : Type 0} (s : Desk B F) (a : A) → Safe R Any s (s, ok a)
  stays-Safe s a = record {
    moved = laws.stays s.exchanges;
    freed = refl;
    flagged = refl;
    hedged = refl;
    answered = tt;
  }

module _ {B F : Type 0} ⦃x : ExecutionBackend B F⦄ ⦃c : Clock B⦄ ⦃d : Double F⦄ (R : B → B → Type 0)
    ⦃laws : IsSteady F R⦄ where
  poll_both-Sound :
      (config : RepricingConfig F) (o : ArbitrageOpportunity F) (bps : F) (start timeout fuel : ℕ)
      (l : Legs F) (s : Desk B F)
      → Paired l
      → Sound R s (poll_both config o bps start timeout fuel l s)
  unfolding poll_both
  poll_both-Sound config o bps start timeout zero l s h = tt
  poll_both-Sound config o bps start timeout (suc fuel) l s h =
      let r = turn config o bps l (slept config s) in
      elim (Bool-cases (
        ltb (c.instant s.exchanges - start) timeout && (not l.long.filled || not l.short.filled))) [
          | inr p ↦ rw (poll_both, p) (stays-Safe s l)
          | inl p ↦ elim (Result-cases r.1) [
            | inr (e, q) ↦
                rw (poll_both, p, q) (failed-Safe (turn_waited-Safe config o bps l s (err e) h q))
            | inl (next l', q) ↦
                let safe = turn_waited-Safe config o bps l s (ok (next l')) h q in
                rw (poll_both, p, q)
                  (later-Sound (poll_both config o bps start timeout fuel l' r.0) safe
                    (poll_both-Sound config o bps start timeout fuel l' r.0 safe.answered))
            | inl (again l', q) ↦
                let safe = turn_waited-Safe config o bps l s (ok (again l')) h q in
                rw (poll_both, p, q)
                  (later-Sound (poll_both config o bps start timeout fuel l' r.0) safe
                    (poll_both-Sound config o bps start timeout fuel l' r.0 safe.answered))
            | inl (stop l', q) ↦
                let safe = turn_waited-Safe config o bps l s (ok (stop l')) h q in
                rw (poll_both, p, q) (later-Safe safe (stays-Safe r.0 l'))
          ]
        ]

  concluded-Sound :
      (o : ArbitrageOpportunity F) (size : F) (now : ℕ) (s : Desk B F)
      (q : Option (Desk B F × Result (EntryError F) (Legs F)))
      → Sound R s q
      → Sound R s (elim q [ none ↦ none | some r ↦ some (carry_on (conclude o size now) r) ])
  concluded-Sound o size now s none h = tt
  concluded-Sound o size now s (some r) h =
      carried-Safe (conclude o size now) r h (λ l s₁ p. conclude-Safe o size now l)

  pub enter-Sound :
      (o : ArbitrageOpportunity F) (size : F) (fuel : ℕ) (p : Prepared F) (s : Desk B F)
      → Sound R s (enter o size fuel p s)
  unfolding enter
  enter-Sound o size fuel p s =
      let r = place_both p s in
      let safe = place_both-Safe {R = R} p {s = s} in
      let placed = λ (t : Result (EntryError F) (Legs F)) (e : r.1 ≡ t).
        subst (λ u. Safe R Paired s (r.0, u)) e safe in
      elim (Result-cases r.1) [
        | inr (e, q) ↦ rw (enter, q) (failed-Safe (placed (err e) q))
        | inl (l, q) ↦
            rw (enter, q)
              (concluded-Sound o size p.now s _ (
                later-Sound _ (placed (ok l) q) (
                  poll_both-Sound p.config o (spread_bps o.long_price o.short_price)
                    (c.instant r.0.exchanges) (timeout_ms p.config) fuel l r.0
                    (Answers-ok Paired r.1 l safe.answered q))))
      ]
