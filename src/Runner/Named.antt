-- ===== src/Runner/Named.antt =====
-- That the entries of src/strategy/entry.rs answer with trades of the opportunity's symbol.
use Prim.{Unit, tt}
use Prim.Native.String.{String}
use funding_spread_arbitrage.Prelude.{
  ℕ, ◌≡◌, refl, inl, inr, Bool, true, false, not, ◌||◌, Bool-cases, Option, none, some, Result, ok,
  err, Result-cases, Answers,
}
use funding_spread_arbitrage.Double.{Double}
use funding_spread_arbitrage.Types.Trade.{ArbitrageOpportunity, PaperTrade}
use funding_spread_arbitrage.Hedge.Backend.{ExecutionBackend, Clock}
use funding_spread_arbitrage.Entry.Paper.{EntryError as PaperError, execute_atomic_entry}
use funding_spread_arbitrage.Entry.Fills.{Entered, entry-Answers}
use funding_spread_arbitrage.Entry.Preflight.{Prepared, preflight}
use funding_spread_arbitrage.Entry.Desk.{Desk, EntryError, Entry, Legs, ◌>>=◌, carry_on}
use funding_spread_arbitrage.Entry.Steady.{pure_lem, raise_lem, bind_lem, choose_lem}
use funding_spread_arbitrage.Entry.Real.{
  open_trade, conclude, place_both, enter, execute_atomic_entry_real,
}
use funding_spread_arbitrage.Runner.{real_result, paper_result, enter_trade}
use funding_spread_arbitrage.Runner.Checks.{Assessed}

module _ {F : Type 0} where
  -- What is answered is a trade of the symbol.
  abbrev Of : {E : Type 0} → String → Result E (PaperTrade F) → Type 0
  Of symbol r = Answers (λ trade. trade.symbol ≡ symbol) r

module _ {B F A : Type 0} where
  -- A step whose last part answers with a trade of the symbol, whatever came before.
  carried :
      (symbol : String) (g : A → Entry B F (PaperTrade F)) (r : Desk B F × Result (EntryError F) A)
      → ((a : A) (s₁ : Desk B F) → Of symbol (g a s₁).1)
      → Of symbol (carry_on g r).1
  carried symbol g (s, ok a) h = h a s
  carried symbol g (s, err e) h = tt

  bound :
      (symbol : String) (k : Entry B F A) (g : A → Entry B F (PaperTrade F)) (s : Desk B F)
      → ((a : A) (s₁ : Desk B F) → Of symbol (g a s₁).1)
      → Of symbol ((k >>= g) s).1
  bound symbol k g s h = rw (bind_lem k g s) (carried symbol g (k s) h)

module _ {B F : Type 0} ⦃x : ExecutionBackend B F⦄ ⦃c : Clock B⦄ ⦃d : Double F⦄ where
  open_trade-Of :
      (o : ArbitrageOpportunity F) (size : F) (now : ℕ) (l : Legs F) (s : Desk B F)
      → Of o.symbol (open_trade o size now l s).1
  unfolding open_trade
  open_trade-Of o size now l s = bound o.symbol _ _ s (λ id s₁. bound o.symbol _ _ s₁ (λ t₁ s₂.
      bound o.symbol _ _ s₂ (λ t₂ s₃.
        bound o.symbol _ _ s₃ (λ long s₄. bound o.symbol _ _ s₄ (λ short s₅. rw pure_lem refl)))))

  conclude-Of :
      (o : ArbitrageOpportunity F) (size : F) (now : ℕ) (l : Legs F) (s : Desk B F)
      → Of o.symbol (conclude o size now l s).1
  unfolding conclude
  conclude-Of o size now l s = bound o.symbol _ _ s (λ l₁ s₁. bound o.symbol _ _ s₁ (λ l₂ s₂.
      bound o.symbol _ _ s₂ (λ l₃ s₃.
        elim (Bool-cases (not l₃.long.filled || not l₃.short.filled)) [
          | inl p ↦ rw (choose_lem, p, raise_lem) tt
          | inr p ↦ rw (choose_lem, p) (open_trade-Of o size now l₃ s₃)
        ])))

-- What is said of an outcome that may be missing.
abbrev pub Traded : {B F : Type 0} → String → Option (Desk B F × Option (PaperTrade F)) → Type 0
Traded symbol none = Unit
Traded symbol (some (s, none)) = Unit
Traded symbol (some (s, some trade)) = trade.symbol ≡ symbol

real_result-Traded :
    {B F : Type 0} (symbol : String) (r : Desk B F × Result (EntryError F) (PaperTrade F))
    → Of symbol r.1
    → Traded symbol (real_result (some r))
real_result-Traded symbol (s, ok trade) h = h
real_result-Traded symbol (s, err e) h = tt

module _ {B F : Type 0} ⦃x : ExecutionBackend B F⦄ ⦃c : Clock B⦄ ⦃d : Double F⦄ where
  paper_result-Traded :
      (o : ArbitrageOpportunity F) (capital size : F) (s : Desk B F)
      (r : B × Result PaperError (PaperTrade F))
      → Answers (Entered o capital size) r.1
      → Traded o.symbol (paper_result s r)
  paper_result-Traded o capital size s (b, ok trade) h = h.named
  paper_result-Traded o capital size s (b, err e) h = tt

  concluded-Traded :
      (o : ArbitrageOpportunity F) (size : F) (now : ℕ)
      (q : Option (Desk B F × Result (EntryError F) (Legs F)))
      → Traded o.symbol
          (real_result (elim q [ none ↦ none | some r ↦ some (carry_on (conclude o size now) r) ]))
  concluded-Traded o size now none = tt
  concluded-Traded o size now (some r) =
      real_result-Traded o.symbol (carry_on (conclude o size now) r)
        (carried o.symbol (conclude o size now) r (λ l s. conclude-Of o size now l s))

  enter-Traded :
      (o : ArbitrageOpportunity F) (size : F) (fuel : ℕ) (p : Prepared F) (s : Desk B F)
      → Traded o.symbol (real_result (enter o size fuel p s))
  unfolding enter
  enter-Traded o size fuel p s = elim (Result-cases (place_both p s).1) [
    | inr (e, q) ↦ rw (enter, q) tt
    | inl (l, q) ↦ rw (enter, q) (concluded-Traded o size p.now _)
  ]

  real-Traded :
      (floor : F → F) (o : ArbitrageOpportunity F) (capital size : F) (fuel : ℕ) (s : Desk B F)
      → Traded o.symbol (real_result (execute_atomic_entry_real floor o capital size fuel s))
  unfolding execute_atomic_entry_real
  real-Traded floor o capital size fuel s =
      let r = preflight floor s.halted o capital size s.exchanges in
      elim (Result-cases r.1) [
        | inr (e, q) ↦ rw (execute_atomic_entry_real, q) tt
        | inl (p, q) ↦
            rw (execute_atomic_entry_real, q)
              (enter-Traded o size fuel p (record s { exchanges = r.0; depths = p.depths }))
      ]

  pub enter_trade-Traded :
      (floor : F → F) (to_lowercase : String → String) (real : Bool) (o : ArbitrageOpportunity F)
      (a : Assessed F) (fuel : ℕ) (s : Desk B F)
      → Traded o.symbol (enter_trade floor to_lowercase real o a fuel s)
  unfolding enter_trade
  enter_trade-Traded floor to_lowercase true o a fuel s =
      real-Traded floor o a.available_capital a.position_size fuel s
  enter_trade-Traded floor to_lowercase false o a fuel s =
      paper_result-Traded o a.available_capital a.position_size s
        (execute_atomic_entry to_lowercase o a.available_capital a.position_size s.exchanges)
        (entry-Answers to_lowercase o a.available_capital a.position_size s.exchanges)
