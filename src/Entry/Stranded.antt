-- ===== src/Entry/Stranded.antt =====
-- Where an entry with real orders leaves an order open or a size wrong.
use Prim.Native.String.{String}
use funding_spread_arbitrage.Prelude.{
  ℕ, suc, ◌≡◌, ◌≢◌, refl, sym, ap, subst, ◌∙◌, inl, inr, some, Result, ok, err, Result-cases,
  Leaves-ok, Leaves-err,
}
use funding_spread_arbitrage.Double.{Double}
use funding_spread_arbitrage.Types.Order.{SimulatedOrder}
use funding_spread_arbitrage.Types.Trade.{ArbitrageOpportunity, PaperTrade}
use funding_spread_arbitrage.Hedge.Backend.{ExecutionBackend, Clock}
use funding_spread_arbitrage.Entry.Preflight.{PreflightError, Prepared, preflight}
use funding_spread_arbitrage.Entry.Asking.{IsAsking}
use funding_spread_arbitrage.Entry.Prepared.{IsAdmitted, preflight-IsAdmitted}
use funding_spread_arbitrage.Entry.Desk.{
  Desk, EntryError, raise, asked, ◌>>=◌, refused, long_order_failed,
}
use funding_spread_arbitrage.Entry.Real.{judge_placed, place_both, enter, execute_atomic_entry_real}

module _ {B F : Type 0} ⦃x : ExecutionBackend B F⦄ ⦃c : Clock B⦄ ⦃d : Double F⦄ where
  stranded_by :
      (p : Prepared F) (s : Desk B F) (b₂ b₃ : B) (e : String) (placed : SimulatedOrder F)
      → x.place_order p.long_order_template s.exchanges ≡ (b₂, err e)
      → x.place_order p.short_order_template b₂ ≡ (b₃, ok placed)
      → place_both p s ≡ (record s { exchanges = b₃ }, err (long_order_failed e))
  unfolding place_both judge_placed asked raise ◌>>=◌
  stranded_by p s b₂ b₃ e placed failed stranded = rw (failed, stranded) refl

  pub goes_on :
      (floor : F → F) (o : ArbitrageOpportunity F) (capital size : F) (fuel : ℕ) (s : Desk B F)
      (p : Prepared F) (b : B)
      → preflight floor s.halted o capital size s.exchanges ≡ (b, ok p)
      → execute_atomic_entry_real floor o capital size fuel s
        ≡ enter o size fuel p (record s { exchanges = b; depths = p.depths })
  unfolding execute_atomic_entry_real
  goes_on floor o capital size fuel s p b h =
      rw (execute_atomic_entry_real, ap (λ r. r.1) h)
        (ap (λ r. enter o size fuel p (record s { exchanges = r.0; depths = p.depths })) h)

  gives_up :
      (o : ArbitrageOpportunity F) (size : F) (fuel : ℕ) (p : Prepared F) (s s' : Desk B F)
      (e : EntryError F)
      → place_both p s ≡ (s', err e)
      → enter o size fuel p s ≡ some (s', err e)
  unfolding enter
  gives_up o size fuel p s s' e h = rw (enter, ap (λ r. r.1) h) (ap (λ r. some (r.0, err e)) h)

-- How many limit orders are open on the exchanges, of which one refuses every order and the others
-- take every one; the questions and settings before an entry leave the orders alone. Nothing is said
-- of a cancel.
pub record IsRefusing {B : Type 0} (F : Type 0) ⦃x : ExecutionBackend B F⦄ (refusing : String)
    (open_orders : B → ℕ) : Type 0 where
  pub asking : IsAsking F open_orders
  pub refuses :
      (o : SimulatedOrder F) (b : B)
      → o.exchange ≡ refusing
      → ((e : String) × ((x.place_order o b).1 ≡ err e))
        × (open_orders (x.place_order o b).0 ≡ open_orders b)
  pub takes :
      (o : SimulatedOrder F) (b : B)
      → o.exchange ≢ refusing
      → ((placed : SimulatedOrder F) × ((x.place_order o b).1 ≡ ok placed))
        × (open_orders (x.place_order o b).0 ≡ suc (open_orders b))

module _ {B F : Type 0} where
  -- What an entry ends with, and the orders that are open then, by the answer of its checks.
  abbrev pub EndsStranded :
      (B → ℕ)
      → Desk B F
      → Result (PreflightError F) (Prepared F)
      → Desk B F × Result (EntryError F) (PaperTrade F)
      → Type 0
  EndsStranded open_orders s (err e) r =
      (r.1 ≡ err (refused e)) × (open_orders r.0.exchanges ≡ open_orders s.exchanges)
  EndsStranded open_orders s (ok p) r =
      ((e : String) × (r.1 ≡ err (long_order_failed e)))
      × (open_orders r.0.exchanges ≡ suc (open_orders s.exchanges))

module _ {B F : Type 0} ⦃x : ExecutionBackend B F⦄ ⦃c : Clock B⦄ ⦃d : Double F⦄ (refusing : String)
    (open_orders : B → ℕ) (laws : IsRefusing F refusing open_orders) where
  left_open :
      (floor : F → F) (o : ArbitrageOpportunity F) (capital size : F) (fuel : ℕ) (s : Desk B F)
      (p : Prepared F) (b₁ : B)
      → preflight floor s.halted o capital size s.exchanges ≡ (b₁, ok p)
      → open_orders b₁ ≡ open_orders s.exchanges
      → p.long_order_template.exchange ≡ refusing
      → p.short_order_template.exchange ≢ refusing
      → (r : Desk B F × Result (EntryError F) (PaperTrade F)) × (execute_atomic_entry_real floor o
            capital size fuel s
          ≡ some r)
        × EndsStranded open_orders s (ok p) r
  left_open floor o capital size fuel s p b₁ checked same long short =
      let s₁ : Desk B F = record s { exchanges = b₁; depths = p.depths } in
      let b₂ = (x.place_order p.long_order_template b₁).0 in
      let b₃ = (x.place_order p.short_order_template b₂).0 in
      let failed = laws.refuses p.long_order_template b₁ long in
      let placed = laws.takes p.short_order_template b₂ short in
      let e = failed.0.0 in
      (
        (record s₁ { exchanges = b₃ }, err (long_order_failed e)),
        goes_on floor o capital size fuel s p b₁ checked
            ∙ gives_up o size fuel p s₁ (record s₁ { exchanges = b₃ }) (long_order_failed e)
                (stranded_by p s₁ b₂ b₃ e placed.0.0 (ap (λ a. (b₂, a)) failed.0.1)
                  (ap (λ a. (b₃, a)) placed.0.1)),
        ((e, refl), placed.1 ∙ ap suc (failed.1 ∙ same)),
      )

  -- When the exchange of the long leg refuses every order and the others take every one, then
  -- whatever the opportunity, the capital and the size, an entry with real orders ends. Unless its
  -- checks refuse it, in which case it leaves the open orders alone, it ends with the error of the
  -- long order, and one limit order more is open than before.
  pub short_order_stranded :
      (floor : F → F) (o : ArbitrageOpportunity F) (capital size : F) (fuel : ℕ) (s : Desk B F)
      → o.long_exchange ≡ refusing
      → o.short_exchange ≢ refusing
      → (r : Desk B F × Result (EntryError F) (PaperTrade F)) × (execute_atomic_entry_real floor o
            capital size fuel s
          ≡ some r)
        × EndsStranded open_orders s (preflight floor s.halted o capital size s.exchanges).1 r
  unfolding execute_atomic_entry_real
  short_order_stranded floor o capital size fuel s long short =
      let q = preflight floor s.halted o capital size s.exchanges in
      let checked =
        preflight-IsAdmitted open_orders laws.asking floor s.halted o capital size s.exchanges in
      let Still = λ (b : B). open_orders b ≡ open_orders s.exchanges in
      let Ready = λ (p : Prepared F) (b : B).
        IsAdmitted open_orders laws.asking s.halted o capital size p × Still b in
      elim (Result-cases q.1) [
        | inr (e, h) ↦
            rw (execute_atomic_entry_real, h)
              (
                (record s { exchanges = q.0 }, err (refused e)),
                refl,
                (refl, Leaves-err Ready Still q e checked h),
              )
        | inl (p, h) ↦
            let admitted = Leaves-ok Ready Still q p checked h in
            let neutral = admitted.0.neutral in
            subst
              (λ a.
                (r : Desk B F × Result (EntryError F) (PaperTrade F)) × (execute_atomic_entry_real
                    floor o capital size fuel s
                  ≡ some r)
                × EndsStranded open_orders s a r)
              (sym h)
              (left_open floor o capital size fuel s p q.0 (ap (λ a. (q.0, a)) h) admitted.1
                (neutral.long_exchange ∙ long) (λ k. short (sym neutral.short_exchange ∙ k)))
      ]
