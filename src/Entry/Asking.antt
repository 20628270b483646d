-- ===== src/Entry/Asking.antt =====
-- The calls of the checks before an entry with real orders place no order.
use Prim.{Unit}
use Prim.Native.String.{String}
use funding_spread_arbitrage.Prelude.{
  ℕ, ◌≡◌, ◌∙◌, inl, inr, ◌||◌, none, Bool-cases, Option-cases, Result, ok, err, Leaves,
  every-Leaves, map_err-Leaves, Result-cases,
}
use funding_spread_arbitrage.Double.{Double, lit, ◌≺◌}
use funding_spread_arbitrage.Types.Trade.{ArbitrageOpportunity}
use funding_spread_arbitrage.Config.{ExecutionMode}
use funding_spread_arbitrage.Hedge.Backend.{ExecutionBackend, Clock}
use funding_spread_arbitrage.DepthChecker.{
  Cache, DepthCheckResult, fresh, cache_key, check_depth_for_hedge, should_abort,
}
use funding_spread_arbitrage.Entry.Preflight.{
  PreflightError, balance_of, balance_failed, has_margin, set_up, unwrap_or, enough_depth,
  judge_depths, check_depths,
}

-- `placed` counts the orders on the exchanges; these calls leave it alone.
pub record IsAsking {B : Type 0} (F : Type 0) ⦃x : ExecutionBackend B F⦄ (placed : B → ℕ)
    : Type 0 where
  pub balances : (e : String) (b : B) → placed (x.get_available_balance e b).0 ≡ placed b
  pub steps : (e s : String) (b : B) → placed (x.get_quantity_step e s b).0 ≡ placed b
  pub leverage : (e s : String) (n : ℕ) (b : B) → placed (x.set_leverage e s n b).0 ≡ placed b
  pub margins : (e s : String) (b : B) → placed (x.set_margin_type_isolated e s b).0 ≡ placed b
  pub depths : (e s : String) (n : ℕ) (b : B) → placed (x.get_order_book_depth e s n b).0 ≡ placed b

module _ {B F : Type 0} ⦃x : ExecutionBackend B F⦄ ⦃c : Clock B⦄ ⦃d : Double F⦄ (placed : B → ℕ)
    (laws : IsAsking F placed) (n : ℕ) where
  abbrev pub Still : B → Type 0
  Still b = placed b ≡ n

  Still-Leaves :
      {E A : Type 0} (r : B × Result E A) → Still r.0 → Leaves (λ (a : A) (b : B). Still b) Still r
  Still-Leaves r h = every-Leaves (λ a b. Still b) Still r (λ a. h) h

  depth-Still :
      (e s : String) (q : F) (cache : Cache F) (b : B)
      → Still b
      → Still (check_depth_for_hedge e s q cache b).1
  unfolding check_depth_for_hedge
  depth-Still e s q cache b h = elim (Option-cases (fresh cache (cache_key e s) (c.instant b))) [
    | inr (v, p) ↦ rw (check_depth_for_hedge, p) h
    | inl p ↦ elim (Result-cases (x.get_order_book_depth e s 10 b).1) [
      | inl (a, q) ↦ rw (check_depth_for_hedge, p, q) (laws.depths e s 10 b ∙ h)
      | inr (a, q) ↦ rw (check_depth_for_hedge, p, q) (laws.depths e s 10 b ∙ h)
    ]
  ]

  enough-Leaves :
      (k : Cache F) (l s : DepthCheckResult F) (b : B)
      → Still b
      → Leaves (λ (u : Cache F) (b : B). Still b) Still (enough_depth k l s b)
  enough-Leaves k l s b h = elim (Bool-cases (should_abort l || should_abort s)) [
    | inl p ↦ rw (enough_depth, p) h
    | inr p ↦ rw (enough_depth, p) h
  ]

  judge_depths-Leaves :
      (cache : Cache F) (b_long : B) (l s : Result String (DepthCheckResult F)) (b : B)
      → Still b_long
      → Still b
      → Leaves (λ (u : Cache F) (b : B). Still b) Still (judge_depths cache b_long l s b)
  judge_depths-Leaves cache b_long (err e) s b h k = h
  judge_depths-Leaves cache b_long (ok l) (err e) b h k = k
  judge_depths-Leaves cache b_long (ok l) (ok s) b h k = enough-Leaves cache l s b k

  pub check_depths-Leaves :
      (mode : ExecutionMode) (o : ArbitrageOpportunity F) (q : F) (b : B)
      → Still b
      → Leaves (λ (u : Cache F) (b : B). Still b) Still (check_depths mode o q b)
  unfolding check_depths
  check_depths-Leaves ExecutionMode.ultra_fast o q b h = h
  check_depths-Leaves ExecutionMode.balanced o q b h =
      let (cache, b₁, l) = check_depth_for_hedge o.long_exchange o.symbol q (λ key. none) b in
      let (cache₂, b₂, s) = check_depth_for_hedge o.short_exchange o.symbol q cache b₁ in
      let h₁ = depth-Still o.long_exchange o.symbol q (λ key. none) b h in
      let h₂ = depth-Still o.short_exchange o.symbol q cache b₁ h₁ in
      judge_depths-Leaves cache₂ b₂ l s b₂ h₂ h₂
  check_depths-Leaves ExecutionMode.safe o q b h =
      let (cache, b₁, l) = check_depth_for_hedge o.long_exchange o.symbol q (λ key. none) b in
      let (cache₂, b₂, s) = check_depth_for_hedge o.short_exchange o.symbol q cache b₁ in
      let h₁ = depth-Still o.long_exchange o.symbol q (λ key. none) b h in
      let h₂ = depth-Still o.short_exchange o.symbol q cache b₁ h₁ in
      judge_depths-Leaves cache₂ b₁ l s b₂ h₁ h₂

  pub margin-Leaves :
      (e : String) (balance required : F) (b : B)
      → Still b
      → Leaves (λ (u : Unit) (b : B). Still b) Still (has_margin e balance required b)
  margin-Leaves e balance required b h = elim (Bool-cases (balance ≺ required)) [
    | inl p ↦ rw (has_margin, p) h
    | inr p ↦ rw (has_margin, p) h
  ]

  pub balance-Leaves :
      (e : String) (b : B) → Still b → Leaves (λ (a : F) (b : B). Still b) Still (balance_of e b)
  balance-Leaves e b h =
      map_err-Leaves (λ (a : F) (b : B). Still b) Still (balance_failed e)
        (x.get_available_balance e) b
        (Still-Leaves (x.get_available_balance e b) (laws.balances e b ∙ h))

  pub set_up-Leaves :
      (o : ArbitrageOpportunity F) (b : B)
      → Still b
      → Leaves (λ (u : Unit) (b : B). Still b) Still (set_up o b)
  set_up-Leaves o b h =
      let b₁ = (x.set_leverage o.long_exchange o.symbol 1 b).0 in
      let b₂ = (x.set_leverage o.short_exchange o.symbol 1 b₁).0 in
      let b₃ = (x.set_margin_type_isolated o.long_exchange o.symbol b₂).0 in
      laws.margins o.short_exchange o.symbol b₃
      ∙ laws.margins o.long_exchange o.symbol b₂
      ∙ laws.leverage o.short_exchange o.symbol 1 b₁
      ∙ laws.leverage o.long_exchange o.symbol 1 b
      ∙ h

  pub step-Leaves :
      (e s : String) (b : B)
      → Still b
      → Leaves
          (λ (a : F) (b : B). Still b)
          Still
          (unwrap_or {E' = PreflightError F} (lit 1 1) (x.get_quantity_step e s) b)
  step-Leaves e s b h = elim (Result-cases (x.get_quantity_step e s b).1) [
    | inl (a, p) ↦ rw (unwrap_or, p) (laws.steps e s b ∙ h)
    | inr (a, p) ↦ rw (unwrap_or, p) (laws.steps e s b ∙ h)
  ]
