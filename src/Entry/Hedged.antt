-- ===== src/Entry/Hedged.antt =====
-- What the market orders of `place_market_order_with_retry` achieve.
use Prim.{Unit, tt}
use Prim.Native.String.{String}
use funding_spread_arbitrage.Prelude.{
  ℕ, zero, suc, ◌≡◌, refl, sym, ap, ◌∙◌, ◌≤◌, inl, inr, true, ◌||◌, List, [], ◌∷◌, ◌++◌, append-nil,
  append_assoc, length, arith, Bool-cases, if_last-either, Result, ok, err, Result-cases, ◌*◌, ◌^◌,
}
use funding_spread_arbitrage.Double.{Double, lit, ◌⊕◌, ◌⊖◌, ◌≼◌}
use funding_spread_arbitrage.Types.Order.{SimulatedOrder, OrderStatusInfo}
use funding_spread_arbitrage.Types.Trade.{sum_from}
use funding_spread_arbitrage.Hedge.Backend.{ExecutionBackend, Clock}
use funding_spread_arbitrage.Entry.Retry.{
  HedgeError, only_filled, unverified, placement_failed, hedge_attempts,
  place_market_order_with_retry,
}

-- What an answer about an order says was filled.
abbrev fill_of : {F : Type 0} → Result String (OrderStatusInfo F) → List F
fill_of (ok info) = info.filled_quantity ∷ []
fill_of (err e) = []

module _ {B F : Type 0} ⦃x : ExecutionBackend B F⦄ ⦃c : Clock B⦄ where
  -- `reported` are the fills that the exchanges have reported, oldest first.
  pub record IsReporting (reported : B → List F) : Type 0 where
    pub places : (o : SimulatedOrder F) (b : B) → reported (x.place_market_order o b).0 ≡ reported b
    pub answers :
        (e i s : String) (b : B)
        → reported (x.get_order_status_detailed e i s b).0
          ≡ reported b ++ fill_of (x.get_order_status_detailed e i s b).1
    pub waits : (n : ℕ) (b : B) → reported (c.sleep n b) ≡ reported b

module _ {F : Type 0} ⦃d : Double F⦄ where
  -- The answer is true to the sum of the fills.
  abbrev pub Accounts : F → F → Result (HedgeError F) (SimulatedOrder F) → Type 0
  Accounts target sum (ok o) = (o.size ≡ sum) × ((target ≼ sum || target ⊖ sum ≼ lit 0 0) ≡ true)
  Accounts target sum (err (only_filled filled wanted)) = (filled ≡ sum) × (wanted ≡ target)
  Accounts target sum (err (unverified e)) = Unit
  Accounts target sum (err (placement_failed e)) = Unit

  pub record Hedged {B : Type 0} (reported : B → List F) (n : ℕ) (target total : F) (b : B)
      (r : B × Result (HedgeError F) (SimulatedOrder F)) : Type 0 where
    pub fills : List F
    pub few : length fills ≤ n
    pub all_reported : reported r.0 ≡ reported b ++ fills
    pub accounts : Accounts target (sum_from total fills) r.1

module _ {F : Type 0} ⦃d : Double F⦄ where
  nothing_more :
      {B : Type 0} {reported : B → List F} {n : ℕ} {target total : F} {b : B}
      (r : B × Result (HedgeError F) (SimulatedOrder F))
      → reported r.0 ≡ reported b
      → Accounts target total r.1
      → Hedged reported n target total b r
  unfolding sum_from
  nothing_more {reported = reported} {b = b} r e a = record {
    fills = [];
    few = omega arith;
    all_reported = e ∙ sym (append-nil (reported b));
    accounts = a;
  }

  -- Attempts that begin in a state where no more has been reported.
  after :
      {B : Type 0} {reported : B → List F} {n : ℕ} {target total : F} {b : B} (b' : B)
      {r : B × Result (HedgeError F) (SimulatedOrder F)}
      → reported b' ≡ reported b
      → Hedged reported n target total b' r
      → Hedged reported (suc n) target total b r
  after b' e h = record {
    fills = h.fills;
    few = omega (arith, h.few);
    all_reported = h.all_reported ∙ ap (λ l. l ++ h.fills) e;
    accounts = h.accounts;
  }

  -- Attempts that begin in a state where one more fill has been reported.
  one_more :
      {B : Type 0} {reported : B → List F} {n : ℕ} {target total fill : F} {b : B} (b' : B)
      {r : B × Result (HedgeError F) (SimulatedOrder F)}
      → reported b' ≡ reported b ++ fill ∷ []
      → Hedged reported n target (total ⊕ fill) b' r
      → Hedged reported (suc n) target total b r
  unfolding sum_from
  one_more {reported = reported} {fill = fill} {b = b} b' e h = record {
    fills = fill ∷ h.fills;
    few = omega (arith, h.few);
    all_reported =
        h.all_reported ∙ ap (λ l. l ++ h.fills) e ∙ append_assoc (reported b) (fill ∷ []) h.fills;
    accounts = h.accounts;
  }

module _ {B F : Type 0} ⦃x : ExecutionBackend B F⦄ ⦃c : Clock B⦄ ⦃d : Double F⦄
    (reported : B → List F) (laws : IsReporting reported) where
  hedge_attempts-Hedged :
      (o : SimulatedOrder F) (target : F) (left made : ℕ) (total : F) (last : SimulatedOrder F)
      (b : B)
      → Hedged reported left target total b (hedge_attempts o target left made total last b)
  unfolding hedge_attempts sum_from
  hedge_attempts-Hedged o target zero made total last b = record {
    fills = [];
    few = omega arith;
    all_reported = sym (append-nil (reported b));
    accounts = (refl, refl);
  }
  hedge_attempts-Hedged o target (suc left) made total last b =
      let current : SimulatedOrder F = record o { size = target ⊖ total } in
      let (b₁, placed) = x.place_market_order current b in
      let same : reported b₁ ≡ reported b = laws.places current b in
      elim (Bool-cases (target ⊖ total ≼ lit 0 0)) [
        | inl h ↦
            rw (hedge_attempts, h)
              record {
                fills = [];
                few = omega arith;
                all_reported = sym (append-nil (reported b));
                accounts = (refl, ground (arith, h));
              }
        | inr h ↦ elim (Result-cases placed) [
          | inr (e, p) ↦
              rw (hedge_attempts, h, p)
                (if_last-either (Hedged reported (suc left) target total b) left _ _
                  (nothing_more (b₁, err (placement_failed e)) same tt)
                  (after (c.sleep 500 b₁) (laws.waits 500 b₁ ∙ same)
                    (hedge_attempts-Hedged o target left (suc made) total last (c.sleep 500 b₁))))
          | inl (f, p) ↦
              let (b₂, verified) = x.get_order_status_detailed f.exchange f.id o.symbol b₁ in
              let told : reported b₂ ≡ reported b ++ fill_of verified =
                laws.answers f.exchange f.id o.symbol b₁ ∙ ap (λ l. l ++ fill_of verified) same in
              elim (Result-cases verified) [
                | inr (e, q) ↦
                    let b₃ = c.sleep (100 * 2 ^ made) b₂ in
                    let silent : reported b₂ ≡ reported b =
                      told ∙ ap (λ r. reported b ++ fill_of r) q ∙ append-nil (reported b) in
                    rw (hedge_attempts, h, p, q)
                      (if_last-either (Hedged reported (suc left) target total b) left _ _
                        (nothing_more (b₂, err (unverified e)) silent tt)
                        (after b₃ (laws.waits (100 * 2 ^ made) b₂ ∙ silent)
                          (hedge_attempts-Hedged o target left (suc made) total f b₃)))
                | inl (i, q) ↦
                    let fill = i.filled_quantity in
                    let one : reported b₂ ≡ reported b ++ fill ∷ [] =
                      told ∙ ap (λ r. reported b ++ fill_of r) q in
                    elim (Bool-cases (target ≼ total ⊕ fill)) [
                      | inl g ↦
                          rw (hedge_attempts, h, p, q, g)
                            record {
                              fills = fill ∷ [];
                              few = omega arith;
                              all_reported = one;
                              accounts = (refl, ground (arith, g));
                            }
                      | inr g ↦
                          rw (hedge_attempts, h, p, q, g)
                            (one_more b₂ one
                              (hedge_attempts-Hedged o target left (suc made) (total ⊕ fill) f b₂))
                    ]
              ]
        ]
      ]

  -- Whatever the exchanges do, a call of place_market_order_with_retry has at most three fills
  -- reported to it, and its answer is true to them: a success carries as its size the sum of the
  -- reported fills, added up in order from zero, which is at least the target or leaves nothing of
  -- it to hedge; a failure for too little filled carries that sum and the target.
  pub hedge_accounts :
      (o : SimulatedOrder F) (target : F) (b : B)
      → Hedged reported 3 target (lit 0 0) b (place_market_order_with_retry o target b)
  unfolding place_market_order_with_retry
  hedge_accounts o target b = hedge_attempts-Hedged o target 3 0 (lit 0 0) o b
