-- ===== src/Entry/Unverified.antt =====
-- `place_market_order_with_retry` when the exchange takes its orders and cannot be asked about them.
use Prim.Native.String.{String}
use funding_spread_arbitrage.Prelude.{
  ℕ, zero, suc, ◌≡◌, refl, ◌∙◌, ◌*◌, ◌^◌, false, List, ◌∷◌, ◌++◌, replicate, replicate-cons, ok,
  err, is_ok,
}
use funding_spread_arbitrage.Double.{Double, lit, ◌⊖◌, ◌≼◌}
use funding_spread_arbitrage.Types.Order.{SimulatedOrder}
use funding_spread_arbitrage.Hedge.Backend.{ExecutionBackend, Clock}
use funding_spread_arbitrage.Entry.Retry.{hedge_attempts, place_market_order_with_retry}

module _ {B F : Type 0} ⦃x : ExecutionBackend B F⦄ ⦃c : Clock B⦄ where
  -- Every market order is taken, and no question about an order is answered. `orders` are the
  -- orders taken, newest first.
  pub record IsUnverifying (orders : B → List (SimulatedOrder F)) : Type 0 where
    pub takes :
        (o : SimulatedOrder F) (b : B)
        → (p : SimulatedOrder F) × ((x.place_market_order o b).1 ≡ ok p)
    pub adds : (o : SimulatedOrder F) (b : B) → orders (x.place_market_order o b).0 ≡ o ∷ orders b
    pub refuses :
        (e i s : String) (b : B) → (t : String) × ((x.get_order_status_detailed e i s b).1 ≡ err t)
    pub asks : (e i s : String) (b : B) → orders (x.get_order_status_detailed e i s b).0 ≡ orders b
    pub waits : (n : ℕ) (b : B) → orders (c.sleep n b) ≡ orders b

module _ {B F : Type 0} ⦃x : ExecutionBackend B F⦄ ⦃c : Clock B⦄ ⦃d : Double F⦄
    (orders : B → List (SimulatedOrder F)) (laws : IsUnverifying orders) where
  hedge_attempts-pile_up :
      (o : SimulatedOrder F) (target total : F) (n made : ℕ) (last : SimulatedOrder F) (b : B)
      → (target ⊖ total ≼ lit 0 0) ≡ false
      → (orders (hedge_attempts o target (suc n) made total last b).0
          ≡ replicate (suc n) (record o { size = target ⊖ total }) ++ orders b)
        × (is_ok (hedge_attempts o target (suc n) made total last b).1 ≡ false)
  unfolding hedge_attempts
  hedge_attempts-pile_up o target total zero made last b h =
      let current : SimulatedOrder F = record o { size = target ⊖ total } in
      let (p, taken) = laws.takes current b in
      let b₁ = (x.place_market_order current b).0 in
      let (t, refused) = laws.refuses p.exchange p.id o.symbol b₁ in
      rw (hedge_attempts, h, taken, refused)
        (laws.asks p.exchange p.id o.symbol b₁ ∙ laws.adds current b, refl)
  hedge_attempts-pile_up o target total (suc n) made last b h =
      let current : SimulatedOrder F = record o { size = target ⊖ total } in
      let (p, taken) = laws.takes current b in
      let b₁ = (x.place_market_order current b).0 in
      let (t, refused) = laws.refuses p.exchange p.id o.symbol b₁ in
      let b₂ = (x.get_order_status_detailed p.exchange p.id o.symbol b₁).0 in
      let b₃ = c.sleep (100 * 2 ^ made) b₂ in
      let before : orders b₃ ≡ current ∷ orders b =
        laws.waits (100 * 2 ^ made) b₂
        ∙ laws.asks p.exchange p.id o.symbol b₁
        ∙ laws.adds current b in
      let rest = hedge_attempts-pile_up o target total n (suc made) p b₃ h in
      rw (hedge_attempts, h, taken, refused)
        (rest.0 ∙ rw (before, replicate-cons (suc n) current (orders b)) refl, rest.1)

  -- On an exchange that takes every market order and answers no question about one, the call
  -- fails, and by then the exchange has taken three market orders, each for the whole target: what
  -- an order may have filled is not subtracted when its status cannot be read.
  pub unverified_orders_pile_up :
      (o : SimulatedOrder F) (target : F) (b : B)
      → (target ⊖ lit 0 0 ≼ lit 0 0) ≡ false
      → (orders (place_market_order_with_retry o target b).0
          ≡ replicate 3 (record o { size = target ⊖ lit 0 0 }) ++ orders b)
        × (is_ok (place_market_order_with_retry o target b).1 ≡ false)
  unfolding place_market_order_with_retry
  unverified_orders_pile_up o target b h = hedge_attempts-pile_up o target (lit 0 0) 2 0 o b h
