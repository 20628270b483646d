-- ===== src/Entry/Ending.antt =====
-- What `execute_atomic_entry_real` leaves behind, however it ends.
use Prim.{Unit, tt}
use funding_spread_arbitrage.Prelude.{
  ℕ, ◌≡◌, refl, subst, ap, ◌∙◌, inl, inr, false, Option, none, some, Result, err, Result-cases, ◌≢◌,
  arith,
}
use funding_spread_arbitrage.Double.{Double}
use funding_spread_arbitrage.Types.Trade.{ArbitrageOpportunity, PaperTrade}
use funding_spread_arbitrage.Hedge.Backend.{ExecutionBackend, Clock}
use funding_spread_arbitrage.Entry.Preflight.{preflight}
use funding_spread_arbitrage.Entry.Desk.{Desk, EntryError, one_leg_left}
use funding_spread_arbitrage.Entry.Real.{enter, execute_atomic_entry_real}
use funding_spread_arbitrage.Entry.Steady.{IsSteady, Safe, Any, halted_by, leaves_one_leg}
use funding_spread_arbitrage.Entry.Sound.{Sound, enter-Sound}

-- The relation that says nothing.
abbrev pub Whatever : {B : Type 0} → B → B → Type 0
Whatever b b' = Unit

module _ {B F : Type 0} ⦃x : ExecutionBackend B F⦄ ⦃c : Clock B⦄ where
  abbrev pub whatever : IsSteady F (Whatever {B = B})
  whatever = record {
    stays = λ b. tt;
    joins = λ b b₁ b₂ h k. tt;
    leverage = λ e s n b. tt;
    margins = λ e s b. tt;
    places = λ o b. tt;
    markets = λ o b. tt;
    cancels = λ e i b. tt;
    details = λ e i s b. tt;
    balances = λ e b. tt;
    depths = λ e s n b. tt;
    bids = λ e s b. tt;
    asks = λ e s b. tt;
    steps = λ e s b. tt;
    waits = λ n b. tt;
    names = λ b. tt;
  }

Sound-some :
    {B F A : Type 0} {R : B → B → Type 0} {s : Desk B F}
    {o : Option (Desk B F × Result (EntryError F) A)} {r : Desk B F × Result (EntryError F) A}
    → Sound R s o
    → o ≡ some r
    → Safe R Any s r
Sound-some {R = R} {s = s} h e = subst (Sound R s) e h

-- A desk that has only its exchanges and its kept books changed.
moved-Sound :
    {B F A : Type 0} (s s₁ : Desk B F) (o : Option (Desk B F × Result (EntryError F) A))
    → s₁.halted ≡ s.halted
    → s₁.locks ≡ s.locks
    → Sound Whatever s₁ o
    → Sound Whatever s o
moved-Sound s s₁ none h k p = tt
moved-Sound s s₁ (some r) h k p = record {
  moved = tt;
  freed = p.freed ∙ k;
  flagged = p.flagged ∙ ap (λ b. halted_by b r.1) h;
  hedged = p.hedged;
  answered = p.answered;
}

module _ {B F : Type 0} ⦃x : ExecutionBackend B F⦄ ⦃c : Clock B⦄ ⦃d : Double F⦄ where
  execute-Sound :
      (floor : F → F) (o : ArbitrageOpportunity F) (capital size : F) (fuel : ℕ) (s : Desk B F)
      → Sound Whatever s (execute_atomic_entry_real floor o capital size fuel s)
  unfolding execute_atomic_entry_real
  execute-Sound floor o capital size fuel s =
      let r = preflight floor s.halted o capital size s.exchanges in
      elim (Result-cases r.1) [
        | inr (e, q) ↦
            rw (execute_atomic_entry_real, q)
              record { moved = tt; freed = refl; flagged = refl; hedged = refl; answered = tt }
        | inl (p, q) ↦
            let s₁ : Desk B F = record s { exchanges = r.0; depths = p.depths } in
            let h : Sound Whatever s₁ (enter o size fuel p s₁) =
              enter-Sound Whatever ⦃laws = whatever⦄ o size fuel p s₁ in
            rw (execute_atomic_entry_real, q) (moved-Sound s s₁ _ refl refl h)
      ]

  -- However an entry with real orders ends, every hedge lock that it took is dropped: the locks are
  -- those from before it.
  pub entry_frees_locks :
      (floor : F → F) (o : ArbitrageOpportunity F) (capital size : F) (fuel : ℕ) (s : Desk B F)
      (r : Desk B F × Result (EntryError F) (PaperTrade F))
      → execute_atomic_entry_real floor o capital size fuel s ≡ some r
      → r.0.locks ≡ s.locks
  entry_frees_locks floor o capital size fuel s r e =
      (Sound-some (execute-Sound floor o capital size fuel s) e).freed

  -- An entry with real orders halts trading exactly when its error is that of a failed emergency
  -- close; with a trade or another error the halt is as it was.
  pub entry_halts :
      (floor : F → F) (o : ArbitrageOpportunity F) (capital size : F) (fuel : ℕ) (s : Desk B F)
      (r : Desk B F × Result (EntryError F) (PaperTrade F))
      → execute_atomic_entry_real floor o capital size fuel s ≡ some r
      → r.0.halted ≡ halted_by s.halted r.1
  entry_halts floor o capital size fuel s r e =
      (Sound-some (execute-Sound floor o capital size fuel s) e).flagged

  -- The error for a leg that is left without its hedge, of which the code says that it should not
  -- happen, does not happen: an entry with real orders never ends with it.
  pub entry_leaves_no_leg :
      (floor : F → F) (o : ArbitrageOpportunity F) (capital size : F) (fuel : ℕ) (s : Desk B F)
      (r : Desk B F × Result (EntryError F) (PaperTrade F))
      → execute_atomic_entry_real floor o capital size fuel s ≡ some r
      → r.1 ≢ err one_leg_left
  entry_leaves_no_leg floor o capital size fuel s r e left =
      let h = (Sound-some (execute-Sound floor o capital size fuel s) e).hedged in
      absurd (ground (arith, subst (λ t. leaves_one_leg t ≡ false) left h))
