-- ===== src/PriceChaser/Swift.antt =====
-- How long a turn of a chase takes, and that a turn does not say that the time is over.
use Prim.Native.String.{String}
use funding_spread_arbitrage.Prelude.{
  ℕ, ◌+◌, ◌*◌, ◌≤◌, ◌≡◌, refl, inl, inr, arith, leb, Bool, true, false, Bool-cases, Result, ok, err,
  Action, map_err, pure, ◌>>=◌,
}
use funding_spread_arbitrage.Double.{Double}
use funding_spread_arbitrage.Types.Order.{SimulatedOrder, OrderSide, OrderStatus, is_filled_status}
use funding_spread_arbitrage.Config.{RepricingConfig}
use funding_spread_arbitrage.Hedge.Backend.{ExecutionBackend, Clock}
use funding_spread_arbitrage.PriceChaser.{
  ChaseError, bid_failed, ask_failed, cancel_failed, placement_failed, status_failed,
  max_reprices_reached, timeout_reached, RepricingMetrics, goes_on, should_reprice, reprice_order,
  record_event, place_anew, judge, best_price_on, get_best_price_for_order, follow, turn,
}

-- No call of the exchanges takes longer than `most`, and no sleep is longer than its time by more.
pub record IsSwift (B F : Type 0) ⦃x : ExecutionBackend B F⦄ ⦃c : Clock B⦄ (most : ℕ) : Type 0 where
  pub asks : (e i : String) (b : B) → c.instant (x.get_order_status e i b).0 ≤ c.instant b + most
  pub cancels : (e i : String) (b : B) → c.instant (x.cancel_order e i b).0 ≤ c.instant b + most
  pub bids : (e s : String) (b : B) → c.instant (x.get_best_bid e s b).0 ≤ c.instant b + most
  pub asks_price : (e s : String) (b : B) → c.instant (x.get_best_ask e s b).0 ≤ c.instant b + most
  pub places : (o : SimulatedOrder F) (b : B) → c.instant (x.place_order o b).0 ≤ c.instant b + most
  pub waits : (n : ℕ) (b : B) → c.instant (c.sleep n b) ≤ c.instant b + n + most

-- Whether an error says that the time is over.
abbrev pub is_timeout : ChaseError → Bool
is_timeout (cancel_failed e) = false
is_timeout (placement_failed e) = false
is_timeout (bid_failed e) = false
is_timeout (ask_failed e) = false
is_timeout (status_failed e) = false
is_timeout (max_reprices_reached n) = false
is_timeout timeout_reached = true

abbrev pub says_timeout : {A : Type 0} → Result ChaseError A → Bool
says_timeout (ok a) = false
says_timeout (err e) = is_timeout e

module _ {B : Type 0} ⦃c : Clock B⦄ where
  -- Done at a time, and not with the error for a time that is over.
  pub record Done {A : Type 0} (t : ℕ) (r : B × Result ChaseError A) : Type 0 where
    pub by : c.instant r.0 ≤ t
    pub silent : says_timeout r.1 ≡ false

  bound_of :
      {A C : Type 0} (t later : ℕ) (r : B × Result ChaseError A) (f : A → Action B ChaseError C)
      → Done t r
      → t ≤ later
      → ((a : A) (b₁ : B) → c.instant b₁ ≤ t → Done later (f a b₁))
      → Done later (((λ (b : B). r) >>= f) r.0)
  bound_of t later (b, ok a) f h l k = k a b h.by
  bound_of t later (b, err e) f h l k = record { by = omega (arith, h.by, l); silent = h.silent }

  bind-Done :
      {A C : Type 0} (t later : ℕ) (m : Action B ChaseError A) (f : A → Action B ChaseError C)
      (b : B)
      → Done t (m b)
      → t ≤ later
      → ((a : A) (b₁ : B) → c.instant b₁ ≤ t → Done later (f a b₁))
      → Done later ((m >>= f) b)
  bind-Done t later m f b h l k = bound_of t later (m b) f h l k

  called_of :
      {E A : Type 0} (t : ℕ) (f : E → ChaseError) (r : B × Result E A)
      → ((e : E) → is_timeout (f e) ≡ false)
      → c.instant r.0 ≤ t
      → Done t (map_err f (λ (b : B). r) r.0)
  called_of t f (b, ok a) n h = record { by = h; silent = refl }
  called_of t f (b, err e) n h = record { by = h; silent = n e }

  called :
      {E A : Type 0} (t : ℕ) (f : E → ChaseError) (m : Action B E A) (b : B)
      → ((e : E) → is_timeout (f e) ≡ false)
      → c.instant (m b).0 ≤ t
      → Done t (map_err f m b)
  called t f m b n h = called_of t f (m b) n h

module _ {B F : Type 0} ⦃x : ExecutionBackend B F⦄ ⦃c : Clock B⦄ ⦃d : Double F⦄ (most : ℕ)
    (laws : IsSwift B F most) (t : ℕ) where
  best_price_on-Done :
      (side : OrderSide) (e s : String) (b : B)
      → c.instant b ≤ t
      → Done (t + most) (best_price_on {F = F} side e s b)
  best_price_on-Done OrderSide.long e s b h =
      called (t + most) bid_failed (x.get_best_bid e s) b (λ e. refl)
        (omega (arith, h, laws.bids e s b))
  best_price_on-Done OrderSide.short e s b h =
      called (t + most) ask_failed (x.get_best_ask e s) b (λ e. refl)
        (omega (arith, h, laws.asks_price e s b))

  place_anew-Done :
      (order : SimulatedOrder F) (price : F) (b : B)
      → c.instant b ≤ t
      → Done (t + most) (place_anew order price b)
  place_anew-Done order price b h =
      let order' : SimulatedOrder F = record order {
        price = price;
        id = "";
        created_at = c.unix_secs b;
      } in
      called (t + most) placement_failed (x.place_order order') b (λ e. refl)
        (omega (arith, h, laws.places order' b))

module _ {B F : Type 0} ⦃x : ExecutionBackend B F⦄ ⦃c : Clock B⦄ ⦃d : Double F⦄ (most : ℕ)
    (laws : IsSwift B F most) (t : ℕ) where
  reprice_order-Done :
      (order : SimulatedOrder F) (price : F) (metrics : RepricingMetrics F) (b : B)
      → c.instant b ≤ t
      → Done (t + 2 * most) (reprice_order order price metrics b)
  unfolding reprice_order
  reprice_order-Done order price metrics b h =
      bind-Done (t + most) (t + 2 * most)
        (map_err cancel_failed (x.cancel_order order.exchange order.id))
        (λ u. place_anew order price >>= record_event order price metrics (c.instant b)) b
        (called (t + most) cancel_failed (x.cancel_order order.exchange order.id) b (λ e. refl)
          (omega (arith, h, laws.cancels order.exchange order.id b)))
        (omega arith)
        (λ u b₁ h₁.
          bind-Done (t + most + most) (t + 2 * most) (place_anew order price)
            (record_event order price metrics (c.instant b)) b₁
            (place_anew-Done most laws (t + most) order price b₁ h₁) (omega arith)
            (λ o b₂ h₂. record { by = omega (arith, h₂); silent = refl }))

  follow-Done :
      (config : RepricingConfig F) (order : SimulatedOrder F) (metrics : RepricingMetrics F)
      (price : F) (b : B)
      → c.instant b ≤ t
      → Done (t + 2 * most) (follow config order metrics price b)
  unfolding follow
  follow-Done config order metrics price b h =
      elim (Bool-cases (should_reprice config order.price price)) [
        | inr q ↦ rw (follow, q) record { by = omega (arith, h); silent = refl }
        | inl q ↦
            rw (follow, q)
              (bind-Done (t + 2 * most) (t + 2 * most) (reprice_order order price metrics)
                (λ moved. pure (goes_on moved.0 moved.1)) b
                (reprice_order-Done order price metrics b h) (omega arith)
                (λ m b₁ h₁. record { by = h₁; silent = refl }))
      ]

module _ {B F : Type 0} ⦃x : ExecutionBackend B F⦄ ⦃c : Clock B⦄ ⦃d : Double F⦄ (most : ℕ)
    (laws : IsSwift B F most) (t : ℕ) where
  judge-Done :
      (config : RepricingConfig F) (order : SimulatedOrder F) (metrics : RepricingMetrics F)
      (status : OrderStatus) (b : B)
      → c.instant b ≤ t
      → Done (t + 3 * most) (judge config order metrics status b)
  unfolding judge get_best_price_for_order
  judge-Done config order metrics status b h = elim (Bool-cases (is_filled_status status)) [
    | inl p ↦ rw (judge, p) record { by = omega (arith, h); silent = refl }
    | inr p ↦ elim (Bool-cases (leb config.max_reprices metrics.reprice_count)) [
      | inl q ↦ rw (judge, p, q) record { by = omega (arith, h); silent = refl }
      | inr q ↦
          rw (judge, p, q)
            (bind-Done (t + most) (t + 3 * most)
              (best_price_on order.side order.exchange order.symbol) (follow config order metrics) b
              (best_price_on-Done most laws t order.side order.exchange order.symbol b h)
              (omega arith)
              (λ price b₁ h₁.
                let done = follow-Done most laws (t + most) config order metrics price b₁ h₁ in
                record { by = omega (arith, done.by); silent = done.silent }))
    ]
  ]

module _ {B F : Type 0} ⦃x : ExecutionBackend B F⦄ ⦃c : Clock B⦄ ⦃d : Double F⦄ (most : ℕ)
    (laws : IsSwift B F most) (t : ℕ) where
  -- A turn makes four calls at most.
  pub turn-Done :
      (config : RepricingConfig F) (order : SimulatedOrder F) (metrics : RepricingMetrics F) (b : B)
      → c.instant b ≤ t
      → Done (t + 4 * most) (turn config order metrics b)
  unfolding turn
  turn-Done config order metrics b h =
      bind-Done (t + most) (t + 4 * most)
        (map_err status_failed (x.get_order_status order.exchange order.id))
        (judge config order metrics) b
        (called (t + most) status_failed (x.get_order_status order.exchange order.id) b (λ e. refl)
          (omega (arith, h, laws.asks order.exchange order.id b)))
        (omega arith)
        (λ status b₁ h₁.
          let done = judge-Done most laws (t + most) config order metrics status b₁ h₁ in
          record { by = omega (arith, done.by); silent = done.silent })
