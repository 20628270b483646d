-- ===== src/PriceChaser/Ends.antt =====
-- `chase_until_filled` ends, and does not place more orders than it may.
use funding_spread_arbitrage.Prelude.{
  ℕ, zero, suc, ◌+◌, ◌-◌, ◌*◌, ◌^◌, ◌≤◌, ◌<◌, ◌≡◌, refl, subst, inl, inr, true, false, some, Option,
  arith, ltb, Bool-cases, Result, Result-cases, Leaves-ok, Leaves-err,
}
use funding_spread_arbitrage.Double.{Double}
use funding_spread_arbitrage.Types.Order.{SimulatedOrder}
use funding_spread_arbitrage.Config.{RepricingConfig}
use funding_spread_arbitrage.Hedge.Backend.{ExecutionBackend, Clock}
use funding_spread_arbitrage.PriceChaser.{
  ChaseError, RepricingMetrics, is_filled, goes_on, new, turn, chase, chase_until_filled,
}
use funding_spread_arbitrage.PriceChaser.Swift.{IsSwift, is_timeout, says_timeout, turn-Done}
use funding_spread_arbitrage.PriceChaser.Budget.{IsTimely, At, Ended, At-Ended, Goes, turn-Leaves}

-- How a chase ends that began at a time: when, with how many orders, and with the error for a
-- timeout only if it is over.
pub record Chased {B F : Type 0} ⦃c : Clock B⦄ (placed : B → ℕ) (start timeout latest most : ℕ)
    (r : B × Result ChaseError (SimulatedOrder F)) : Type 0 where
  pub by : c.instant r.0 ≤ latest
  pub within : placed r.0 ≤ most
  pub over : says_timeout r.1 ≡ true → timeout ≤ c.instant r.0 - start

module _ {B F : Type 0} ⦃x : ExecutionBackend B F⦄ ⦃c : Clock B⦄ ⦃d : Double F⦄ (placed : B → ℕ)
    (laws : IsTimely F placed) (call : ℕ) (swift : IsSwift B F call) where
  -- An answer in time and within the budget.
  abbrev Answered : ℕ → ℕ → ℕ → ℕ → Option (B × Result ChaseError (SimulatedOrder F)) → Type 0
  Answered start timeout latest most o =
      (r : B × Result ChaseError (SimulatedOrder F)) × (o ≡ some r)
      × Chased placed start timeout latest most r

  chase-Answered :
      (config : RepricingConfig F) (start timeout k most : ℕ) (order : SimulatedOrder F)
      (metrics : RepricingMetrics F) (b : B)
      → config.max_reprices < 2 ^ 32
      → At placed 0 most config.max_reprices metrics.reprice_count b
      → start + timeout ≤ c.instant b + k * config.reprice_interval_ms
      → c.instant b ≤ start + timeout + config.reprice_interval_ms + 5 * call
      → Answered start timeout
          (start + timeout + config.reprice_interval_ms + 5 * call)
          most
          (chase config start timeout (suc k) order metrics b)
  unfolding chase
  chase-Answered config start timeout zero most order metrics b small h left soon =
      let over : ltb (c.instant b - start) timeout ≡ false = ground (arith, left) in
      rw (chase, over)
        (
          _,
          refl,
          record { by = soon; within = (At-Ended h).within; over = λ e. omega (arith, left) },
        )
  chase-Answered config start timeout (suc k) most order metrics b small h left soon =
      let i = config.reprice_interval_ms in
      let here : At placed (c.instant b) most config.max_reprices metrics.reprice_count b = record {
        late = omega arith;
        spent = h.spent;
        counted = h.counted;
      } in
      let r = turn config order metrics b in
      let left_by =
        turn-Leaves placed laws (c.instant b) most config.max_reprices config order metrics b here
          refl small in
      let done = turn-Done call swift (c.instant b) config order metrics b (omega arith) in
      elim (Bool-cases (ltb (c.instant b - start) timeout)) [
        | inr p ↦
            rw (chase, p)
              (
                _,
                refl,
                record { by = soon; within = (At-Ended h).within; over = λ e. ground (arith, p) },
              )
        | inl p ↦
            let early : c.instant b < start + timeout = ground (arith, p) in
            elim (Result-cases r.1) [
              | inr (e, q) ↦
                  let ended : Ended placed (c.instant b) most r.0 =
                    Leaves-err (Goes placed laws (c.instant b) most config.max_reprices)
                      (Ended placed (c.instant b) most) r e left_by q in
                  let silent : is_timeout e ≡ false =
                    subst (λ a. says_timeout a ≡ false) q done.silent in
                  rw (chase, p, q)
                    (
                      _,
                      refl,
                      record {
                        by = omega (arith, done.by, early);
                        within = ended.within;
                        over = λ o. absurd (ground (arith, silent, o));
                      },
                    )
              | inl (is_filled, q) ↦
                  let ended : Ended placed (c.instant b) most r.0 =
                    Leaves-ok (Goes placed laws (c.instant b) most config.max_reprices)
                      (Ended placed (c.instant b) most) r is_filled left_by q in
                  rw (chase, p, q)
                    (
                      _,
                      refl,
                      record {
                        by = omega (arith, done.by, early);
                        within = ended.within;
                        over = λ o. absurd (ground (arith, o));
                      },
                    )
              | inl (goes_on o m, q) ↦
                  let on : At placed (c.instant b) most config.max_reprices m.reprice_count r.0 =
                    Leaves-ok (Goes placed laws (c.instant b) most config.max_reprices)
                      (Ended placed (c.instant b) most) r (goes_on o m) left_by q in
                  let slept = laws.waits i r.0 in
                  rw (chase, p, q)
                    (chase-Answered config start timeout k most o m (c.sleep i r.0) small
                      record {
                        late = omega arith;
                        spent = omega (arith, on.spent, slept);
                        counted = on.counted;
                      }
                      (omega (arith, left, on.late, slept))
                      (omega (arith, done.by, early, swift.waits i r.0)))
            ]
      ]

  -- With a clock that never runs back, sleeps that last at least their time, and no call or
  -- oversleeping of more than `call` milliseconds, a chase of a timeout that so many intervals
  -- cover ends within one turn more: it answers, with the order filled or with an error, before the
  -- timeout, one interval and five calls have passed; it has placed no more orders than the
  -- configuration allows reprices; and it answers that the timeout is reached only when it is.
  pub chase_ends :
      (config : RepricingConfig F) (order : SimulatedOrder F) (timeout intervals : ℕ) (b : B)
      → config.max_reprices < 2 ^ 32
      → timeout ≤ intervals * config.reprice_interval_ms
      → (r : B × Result ChaseError (SimulatedOrder F)) × (chase_until_filled config
            (suc intervals)
            order
            timeout
            b
          ≡ some r)
        × Chased placed
            (c.instant b)
            timeout
            (c.instant b + timeout + config.reprice_interval_ms + 5 * call)
            (placed b + config.max_reprices)
            r
  unfolding chase_until_filled new
  chase_ends config order timeout intervals b small enough =
      chase-Answered config (c.instant b) timeout intervals (placed b + config.max_reprices) order
        (new order.price) b small
        record { late = omega arith; spent = omega arith; counted = omega arith }
        (omega (arith, enough)) (omega arith)
