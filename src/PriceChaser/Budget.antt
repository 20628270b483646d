-- ===== src/PriceChaser/Budget.antt =====
-- What the turns of a chase may place.
use Prim.Native.String.{String}
use funding_spread_arbitrage.Prelude.{
  ℕ, suc, ◌+◌, ◌^◌, ◌≤◌, ◌<◌, ◌≡◌, inl, inr, arith, leb, Bool-cases, Result, map_err, Leaves,
  every-Leaves, bind-Leaves, map_err-Leaves, pure, ◌>>=◌,
}
use funding_spread_arbitrage.Double.{Double}
use funding_spread_arbitrage.Types.Order.{SimulatedOrder, OrderSide, OrderStatus, is_filled_status}
use funding_spread_arbitrage.Config.{RepricingConfig}
use funding_spread_arbitrage.Hedge.Backend.{ExecutionBackend, Clock}
use funding_spread_arbitrage.PriceChaser.{
  bid_failed, ask_failed, cancel_failed, placement_failed, status_failed, RepricingMetrics, Turn,
  is_filled, goes_on, should_reprice, reprice_order, record_event, place_anew, judge, best_price_on,
  get_best_price_for_order, follow, turn,
}

-- A call that places no order, and in which time does not run back.
pub record Quiet {B : Type 0} ⦃c : Clock B⦄ (placed : B → ℕ) (b b' : B) : Type 0 where
  pub later : c.instant b ≤ c.instant b'
  pub same : placed b' ≡ placed b

-- `Instant` never runs back, and a sleep lasts at least its time. `placed` counts the orders that
-- `place_order` has placed.
pub record IsTimely {B : Type 0} (F : Type 0) ⦃x : ExecutionBackend B F⦄ ⦃c : Clock B⦄
    (placed : B → ℕ) : Type 0 where
  pub asks : (e i : String) (b : B) → Quiet placed b (x.get_order_status e i b).0
  pub cancels : (e i : String) (b : B) → Quiet placed b (x.cancel_order e i b).0
  pub bids : (e s : String) (b : B) → Quiet placed b (x.get_best_bid e s b).0
  pub asks_price : (e s : String) (b : B) → Quiet placed b (x.get_best_ask e s b).0
  pub places :
      (o : SimulatedOrder F) (b : B)
      → (c.instant b ≤ c.instant (x.place_order o b).0)
        × (placed (x.place_order o b).0 ≤ suc (placed b))
  pub waits :
      (n : ℕ) (b : B)
      → (c.instant b + n ≤ c.instant (c.sleep n b)) × (placed (c.sleep n b) ≡ placed b)

-- At the time `t` or later, with so many reprices done, so many orders may be placed yet: `most` in
-- all.
pub record At {B : Type 0} ⦃c : Clock B⦄ (placed : B → ℕ) (t most max count : ℕ) (b : B)
    : Type 0 where
  pub late : t ≤ c.instant b
  pub spent : placed b + max ≤ most + count
  pub counted : count ≤ max

pub record Ended {B : Type 0} ⦃c : Clock B⦄ (placed : B → ℕ) (t most : ℕ) (b : B) : Type 0 where
  pub late : t ≤ c.instant b
  pub within : placed b ≤ most

module _ {B : Type 0} ⦃c : Clock B⦄ {placed : B → ℕ} {t most max count : ℕ} where
  pub At-Ended : {b : B} → At placed t most max count b → Ended placed t most b
  At-Ended h = record { late = h.late; within = omega (arith, h.spent, h.counted) }

  Quiet-At :
      {b b' : B} → Quiet placed b b' → At placed t most max count b → At placed t most max count b'
  Quiet-At q h = record {
    late = omega (arith, h.late, q.later);
    spent = omega (arith, h.spent, q.same);
    counted = h.counted;
  }

  Quiet-Leaves :
      {E A : Type 0} {b : B} (r : B × Result E A)
      → Quiet placed b r.0
      → At placed t most max count b
      → Leaves (λ (a : A). At placed t most max count) (Ended placed t most) r
  Quiet-Leaves r q h =
      every-Leaves (λ a. At placed t most max count) (Ended placed t most) r (λ a. Quiet-At q h)
        (At-Ended (Quiet-At q h))

module _ {B F : Type 0} ⦃x : ExecutionBackend B F⦄ ⦃c : Clock B⦄ ⦃d : Double F⦄ (placed : B → ℕ)
    (laws : IsTimely F placed) (t most max : ℕ) where
  best_price_on-Leaves :
      (side : OrderSide) (e s : String) (n : ℕ) (b : B)
      → At placed t most max n b
      → Leaves (λ (a : F). At placed t most max n) (Ended placed t most) (best_price_on side e s b)
  best_price_on-Leaves OrderSide.long e s n b h =
      map_err-Leaves (λ a. At placed t most max n) (Ended placed t most) bid_failed
        (x.get_best_bid e s) b (Quiet-Leaves _ (laws.bids e s b) h)
  best_price_on-Leaves OrderSide.short e s n b h =
      map_err-Leaves (λ a. At placed t most max n) (Ended placed t most) ask_failed
        (x.get_best_ask e s) b (Quiet-Leaves _ (laws.asks_price e s b) h)

  abbrev pub Moved : SimulatedOrder F × RepricingMetrics F → B → Type 0
  Moved m b = At placed t most max m.1.reprice_count b

  abbrev pub Goes : Turn F → B → Type 0
  Goes is_filled b = Ended placed t most b
  Goes (goes_on o m) b = At placed t most max m.reprice_count b

  -- An order that is placed anew costs one reprice.
  moved-Leaves :
      (o : SimulatedOrder F) (n : ℕ) (b : B)
      → At placed t most max n b
      → n < max
      → Leaves
          (λ (a : SimulatedOrder F). At placed t most max (n + 1))
          (Ended placed t most)
          (x.place_order o b)
  moved-Leaves o n b h few =
      let put = laws.places o b in
      every-Leaves (λ a. At placed t most max (n + 1)) (Ended placed t most) (x.place_order o b)
        (λ a. record {
          late = omega (arith, h.late, put);
          spent = omega (arith, h.spent, put);
          counted = omega (arith, few);
        })
        record { late = omega (arith, h.late, put); within = omega (arith, h.spent, put, few) }

  place_anew-Leaves :
      (order : SimulatedOrder F) (price : F) (n : ℕ) (b : B)
      → At placed t most max n b
      → n < max
      → Leaves (λ a. At placed t most max (n + 1)) (Ended placed t most) (place_anew order price b)
  place_anew-Leaves order price n b h few =
      let order' : SimulatedOrder F = record order {
        price = price;
        id = "";
        created_at = c.unix_secs b;
      } in
      map_err-Leaves (λ a. At placed t most max (n + 1)) (Ended placed t most) placement_failed
        (x.place_order order') b (moved-Leaves order' n b h few)

  reprice_order-Leaves :
      (order : SimulatedOrder F) (price : F) (metrics : RepricingMetrics F) (b : B)
      → At placed t most max metrics.reprice_count b
      → metrics.reprice_count < max
      → max < 2 ^ 32
      → Leaves Moved (Ended placed t most) (reprice_order order price metrics b)
  unfolding reprice_order
  reprice_order-Leaves order price metrics b h few small =
      let n = metrics.reprice_count in
      bind-Leaves (λ a. At placed t most max n) (Ended placed t most) Moved
        (map_err cancel_failed (x.cancel_order order.exchange order.id))
        (λ u. place_anew order price >>= record_event order price metrics (c.instant b)) b
        (map_err-Leaves (λ a. At placed t most max n) (Ended placed t most) cancel_failed
          (x.cancel_order order.exchange order.id) b
          (Quiet-Leaves _ (laws.cancels order.exchange order.id b) h))
        (λ u b₁ h₁.
          bind-Leaves (λ a. At placed t most max (n + 1)) (Ended placed t most) Moved
            (place_anew order price) (record_event order price metrics (c.instant b)) b₁
            (place_anew-Leaves order price n b₁ h₁ few)
            (λ o b₂ h₂. record {
              late = h₂.late;
              spent = omega (arith, h₂.spent, few, small);
              counted = omega (arith, few, small);
            }))

  follow-Leaves :
      (config : RepricingConfig F) (order : SimulatedOrder F) (metrics : RepricingMetrics F)
      (price : F) (b : B)
      → At placed t most max metrics.reprice_count b
      → metrics.reprice_count < max
      → max < 2 ^ 32
      → Leaves Goes (Ended placed t most) (follow config order metrics price b)
  unfolding follow
  follow-Leaves config order metrics price b h few small =
      elim (Bool-cases (should_reprice config order.price price)) [
        | inr q ↦ rw (follow, q) h
        | inl q ↦
            rw (follow, q)
              (bind-Leaves Moved (Ended placed t most) Goes (reprice_order order price metrics)
                (λ moved. pure (goes_on moved.0 moved.1)) b
                (reprice_order-Leaves order price metrics b h few small) (λ m b₁ h₁. h₁))
      ]

  judge-Leaves :
      (config : RepricingConfig F) (order : SimulatedOrder F) (metrics : RepricingMetrics F)
      (status : OrderStatus) (b : B)
      → At placed t most max metrics.reprice_count b
      → config.max_reprices ≡ max
      → max < 2 ^ 32
      → Leaves Goes (Ended placed t most) (judge config order metrics status b)
  unfolding judge get_best_price_for_order
  judge-Leaves config order metrics status b h e small =
      let n = metrics.reprice_count in
      elim (Bool-cases (is_filled_status status)) [
        | inl p ↦ rw (judge, p) (At-Ended h)
        | inr p ↦ elim (Bool-cases (leb config.max_reprices n)) [
          | inl q ↦ rw (judge, p, q) (At-Ended h)
          | inr q ↦
              rw (judge, p, q)
                (bind-Leaves (λ (a : F). At placed t most max n) (Ended placed t most) Goes
                  (best_price_on order.side order.exchange order.symbol)
                  (follow config order metrics) b
                  (best_price_on-Leaves order.side order.exchange order.symbol n b h)
                  (λ price b₁ h₁.
                    follow-Leaves config order metrics price b₁ h₁ (ground (arith, q, e)) small))
        ]
      ]

  pub turn-Leaves :
      (config : RepricingConfig F) (order : SimulatedOrder F) (metrics : RepricingMetrics F) (b : B)
      → At placed t most max metrics.reprice_count b
      → config.max_reprices ≡ max
      → max < 2 ^ 32
      → Leaves Goes (Ended placed t most) (turn config order metrics b)
  unfolding turn
  turn-Leaves config order metrics b h e small =
      bind-Leaves (λ a. At placed t most max metrics.reprice_count) (Ended placed t most) Goes
        (map_err status_failed (x.get_order_status order.exchange order.id))
        (judge config order metrics) b
        (map_err-Leaves (λ a. At placed t most max metrics.reprice_count) (Ended placed t most)
          status_failed (x.get_order_status order.exchange order.id) b
          (Quiet-Leaves _ (laws.asks order.exchange order.id b) h))
        (λ status b₁ h₁. judge-Leaves config order metrics status b₁ h₁ e small)
