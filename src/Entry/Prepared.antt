-- ===== src/Entry/Prepared.antt =====
-- What the checks before an entry with real orders promise.
use Prim.{Unit}
use funding_spread_arbitrage.Prelude.{
  ℕ, ◌≡◌, refl, inl, inr, Bool, true, false, Bool-cases, Result, ok, err, pure, ◌>>◌, Leaves,
  bind-Leaves,
}
use funding_spread_arbitrage.Double.{Double, lit, of_nat, ◌⊗◌, ◌≺◌, ◌≼◌}
use funding_spread_arbitrage.Types.Order.{OrderSide}
use funding_spread_arbitrage.Types.Trade.{ArbitrageOpportunity}
use funding_spread_arbitrage.Config.{RepricingConfig, from_confidence}
use funding_spread_arbitrage.Hedge.Backend.{ExecutionBackend, Clock}
use funding_spread_arbitrage.Hedge.Halt.{is_trading_halted}
use funding_spread_arbitrage.DepthChecker.{Cache}
use funding_spread_arbitrage.Entry.Preflight.{
  PreflightError, Prepared, balance_of, has_margin, set_up, unwrap_or, check_depths, with_depths,
  with_set_up, with_balances, with_long_balance, smaller, with_long_step, contract_quantity_for,
  prepare, preflight,
}
use funding_spread_arbitrage.Entry.Asking.{
  IsAsking, Still, check_depths-Leaves, margin-Leaves, balance-Leaves, set_up-Leaves, step-Leaves,
}

-- Both legs are for the same quantity, on the exchanges and at the prices of the opportunity.
pub record IsNeutral {F : Type 0} ⦃d : Double F⦄ (o : ArbitrageOpportunity F) (p : Prepared F)
    : Type 0 where
  pub quantity : (p.contract_quantity ≼ lit 0 0) ≡ false
  pub long_size : p.long_order_template.size ≡ p.contract_quantity
  pub short_size : p.short_order_template.size ≡ p.contract_quantity
  pub long_exchange : p.long_order_template.exchange ≡ o.long_exchange
  pub short_exchange : p.short_order_template.exchange ≡ o.short_exchange
  pub long_side : p.long_order_template.side ≡ OrderSide.long
  pub short_side : p.short_order_template.side ≡ OrderSide.short
  pub long_price : p.long_order_template.price ≡ o.long_price
  pub short_price : p.short_order_template.price ≡ o.short_price
  pub configured : p.config ≡ from_confidence (of_nat o.confidence_score)

module _ {B F : Type 0} ⦃x : ExecutionBackend B F⦄ ⦃c : Clock B⦄ ⦃d : Double F⦄ (placed : B → ℕ)
    (laws : IsAsking F placed) (n : ℕ) where
  abbrev Here : B → Type 0
  Here b = Still placed laws n b

  -- Prepared, with no order placed.
  abbrev IsReady : ArbitrageOpportunity F → Prepared F → B → Type 0
  IsReady o p b = IsNeutral o p × Here b

  contract_quantity-Leaves :
      (floor : F → F) (o : ArbitrageOpportunity F) (size : F) (b : B)
      → Here b
      → Leaves (λ (a : F) (b : B). Here b) Here (contract_quantity_for floor o size b)
  unfolding contract_quantity_for
  contract_quantity-Leaves floor o size b h =
      bind-Leaves (λ (a : F) (b : B). Here b) Here (λ (a : F) (b : B). Here b)
        (unwrap_or (lit 1 1) (x.get_quantity_step o.long_exchange o.symbol))
        (with_long_step floor o size) b (step-Leaves placed laws n o.long_exchange o.symbol b h)
        (λ l b₁ h₁.
          bind-Leaves (λ (a : F) (b : B). Here b) Here (λ (a : F) (b : B). Here b)
            (unwrap_or (lit 1 1) (x.get_quantity_step o.short_exchange o.symbol))
            (smaller floor o size l) b₁ (step-Leaves placed laws n o.short_exchange o.symbol b₁ h₁)
            (λ s b₂ h₂. h₂))

  with_depths-Leaves :
      (o : ArbitrageOpportunity F) (now : ℕ) (q : F) (b : B)
      → (q ≼ lit 0 0) ≡ false
      → Here b
      → Leaves
          (IsReady o)
          Here
          (with_depths o now q (from_confidence (of_nat o.confidence_score)) b)
  with_depths-Leaves o now q b some_quantity h =
      let config : RepricingConfig F = from_confidence (of_nat o.confidence_score) in
      bind-Leaves (λ (u : Cache F) (b : B). Here b) Here (IsReady o)
        (check_depths config.execution_mode o q) (λ u. pure _) b
        (check_depths-Leaves placed laws n config.execution_mode o q b h)
        (λ u b₁ h₁. (
          record {
            quantity = some_quantity;
            long_size = refl;
            short_size = refl;
            long_exchange = refl;
            short_exchange = refl;
            long_side = refl;
            short_side = refl;
            long_price = refl;
            short_price = refl;
            configured = refl;
          },
          h₁,
        ))

  with_set_up-Leaves :
      (o : ArbitrageOpportunity F) (now : ℕ) (q : F) (b : B)
      → (q ≼ lit 0 0) ≡ false
      → Here b
      → Leaves (IsReady o) Here (with_set_up o now q b)
  with_set_up-Leaves o now q b some_quantity h =
      bind-Leaves (λ (u : Unit) (b : B). Here b) Here (IsReady o) (set_up o)
        (λ u. with_depths o now q (from_confidence (of_nat o.confidence_score))) b
        (set_up-Leaves placed laws n o b h)
        (λ u b₁ h₁. with_depths-Leaves o now q b₁ some_quantity h₁)

  with_balances-Leaves :
      (o : ArbitrageOpportunity F) (size : F) (now : ℕ) (q l s : F) (b : B)
      → (q ≼ lit 0 0) ≡ false
      → Here b
      → Leaves (IsReady o) Here (with_balances o size now q l s b)
  with_balances-Leaves o size now q l s b some_quantity h =
      let margin = size ⊗ lit 12 1 in
      bind-Leaves (λ (u : Unit) (b : B). Here b) Here (IsReady o)
        (has_margin o.long_exchange l margin)
        (λ u. has_margin o.short_exchange s margin >> with_set_up o now q) b
        (margin-Leaves placed laws n o.long_exchange l margin b h)
        (λ u b₁ h₁.
          bind-Leaves (λ (u : Unit) (b : B). Here b) Here (IsReady o)
            (has_margin o.short_exchange s margin) (λ u. with_set_up o now q) b₁
            (margin-Leaves placed laws n o.short_exchange s margin b₁ h₁)
            (λ u b₂ h₂. with_set_up-Leaves o now q b₂ some_quantity h₂))

  prepare-Leaves :
      (o : ArbitrageOpportunity F) (size : F) (now : ℕ) (q : F) (b : B)
      → Here b
      → Leaves (IsReady o) Here (prepare o size now q b)
  unfolding prepare
  prepare-Leaves o size now q b h = elim (Bool-cases (q ≼ lit 0 0)) [
    | inl p ↦ rw (prepare, p) h
    | inr p ↦
        rw (prepare, p)
          (bind-Leaves (λ (a : F) (b : B). Here b) Here (IsReady o) (balance_of o.long_exchange)
            (with_long_balance o size now q) b (balance-Leaves placed laws n o.long_exchange b h)
            (λ l b₁ h₁.
              bind-Leaves (λ (a : F) (b : B). Here b) Here (IsReady o) (balance_of o.short_exchange)
                (with_balances o size now q l) b₁
                (balance-Leaves placed laws n o.short_exchange b₁ h₁)
                (λ s b₂ h₂. with_balances-Leaves o size now q l s b₂ p h₂)))
  ]

module _ {B F : Type 0} ⦃x : ExecutionBackend B F⦄ ⦃c : Clock B⦄ ⦃d : Double F⦄ (placed : B → ℕ)
    (laws : IsAsking F placed) where
  -- Trading was not halted, and the size is positive and within the capital.
  pub record IsAdmitted (halted : Bool) (o : ArbitrageOpportunity F) (capital size : F)
      (p : Prepared F) : Type 0 where
    pub running : halted ≡ false
    pub positive : (size ≼ lit 0 0) ≡ false
    pub affordable : (capital ≺ size) ≡ false
    pub neutral : IsNeutral o p

  admits :
      (o : ArbitrageOpportunity F) (capital size : F) (n : ℕ)
      → (size ≼ lit 0 0) ≡ false
      → (capital ≺ size) ≡ false
      → (r : B × Result (PreflightError F) (Prepared F))
      → Leaves (λ p b'. IsNeutral o p × (placed b' ≡ n)) (λ b'. placed b' ≡ n) r
      → Leaves (λ p b'. IsAdmitted false o capital size p × (placed b' ≡ n)) (λ b'. placed b' ≡ n) r
  admits o capital size n p q (b, ok a) h =
      (record { running = refl; positive = p; affordable = q; neutral = h.0 }, h.1)
  admits o capital size n p q (b, err e) h = h

  -- On exchanges where queries and the setting of leverage and margins place no order, the checks
  -- before an entry with real orders place none, whatever they answer. They let an entry pass only
  -- if trading is not halted, its size is not at or below zero and not above the capital, and the
  -- quantity that both exchanges allow is not at or below zero; and then both legs are to be placed
  -- for that same quantity, each on its exchange and side, at the prices of the opportunity, with
  -- the configuration for its confidence.
  pub preflight-IsAdmitted :
      (floor : F → F) (halted : Bool) (o : ArbitrageOpportunity F) (capital size : F) (b : B)
      → Leaves
          (λ p b'. IsAdmitted halted o capital size p × (placed b' ≡ placed b))
          (λ b'. placed b' ≡ placed b)
          (preflight floor halted o capital size b)
  unfolding preflight is_trading_halted
  preflight-IsAdmitted floor true o capital size b = refl
  preflight-IsAdmitted floor false o capital size b =
      let n = placed b in
      elim (Bool-cases (size ≼ lit 0 0)) [
        | inl p ↦ rw (preflight, p) refl
        | inr p ↦ elim (Bool-cases (capital ≺ size)) [
          | inl q ↦ rw (preflight, p, q) refl
          | inr q ↦
              rw (preflight, p, q)
                (bind-Leaves (λ (a : F) (b : B). Still placed laws n b) (Still placed laws n)
                  (λ r b'. IsAdmitted false o capital size r × (placed b' ≡ n))
                  (contract_quantity_for floor o size) (prepare o size (c.unix_secs b)) b
                  (contract_quantity-Leaves placed laws n floor o size b refl)
                  (λ a b₁ h₁.
                    admits o capital size n p q (prepare o size (c.unix_secs b) a b₁)
                      (prepare-Leaves placed laws n o size (c.unix_secs b) a b₁ h₁)))
        ]
      ]
