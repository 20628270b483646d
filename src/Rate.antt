-- ===== src/Rate.antt =====
-- `RateLimiter` of src/strategy/rate_limiter.rs: a bucket of tokens. Times are nanoseconds; the
-- timestamps of the last second only feed the statistics and are left out. One turn of the loop of
-- `acquire` runs under the mutex.
pub mod Bounds
use funding_spread_arbitrage.Prelude.{
  ℕ, suc, ◌+◌, ◌-◌, ◌*◌, ◌/◌, ◌%◌, ◌^◌, ◌≤◌, ◌<◌, ◌≡◌, refl, subst, inl, inr, Bool-cases, All,
  all_nil, all_cons, Bool, true, false, List, [], ◌∷◌, ltb, min, if◌then◌else◌, arith,
}
use funding_spread_arbitrage.Double.{Double, to_uint, of_nat, ◌⊕◌, ◌⊗◌, ◌⊘◌}

pub record RateLimiter : Type 0 where
  pub tokens : ℕ
  pub last_refill : ℕ
  pub requests_per_second : ℕ
  pub burst_capacity : ℕ

unfoldable pub new : ℕ → ℕ → ℕ → RateLimiter
new requests_per_second burst_capacity now = record {
  tokens = burst_capacity;
  last_refill = now;
  requests_per_second = requests_per_second;
  burst_capacity = burst_capacity;
}

-- `Duration::as_secs_f64`: the whole seconds and the nanoseconds of the last one, added as `f64`.
unfoldable pub as_secs_f64 : (F : Type 0) ⦃d : Double F⦄ → ℕ → F
as_secs_f64 F nanos =
    of_nat (nanos / 1_000_000_000) ⊕ of_nat (nanos % 1_000_000_000) ⊘ of_nat 1_000_000_000

-- `elapsed.as_secs_f64() * rate as f64`, cast to `u32`.
unfoldable pub tokens_over : (F : Type 0) ⦃d : Double F⦄ → ℕ → ℕ → ℕ
unfolding as_secs_f64
tokens_over F elapsed rate = to_uint 32 (as_secs_f64 F elapsed ⊗ of_nat rate)

-- `duration_since` gives 0 for a later time.
unfoldable pub tokens_to_add : (F : Type 0) ⦃d : Double F⦄ → RateLimiter → ℕ → ℕ
unfolding tokens_over
tokens_to_add F s now = tokens_over F (now - s.last_refill) s.requests_per_second

-- Below a million tokens the rounding of `f64`, three times at most, is too small to lift a product
-- over a whole number that it does not reach: a number of nanoseconds times a rate is a multiple of
-- 10^-9 tokens, and the rounding errors are below 10^-9 together. So the cast gives no token too
-- many.
pub record RoundsDown (F : Type 0) ⦃d : Double F⦄ : Type 0 where
  pub down :
      (elapsed rate : ℕ)
      → elapsed * rate < 10 ^ 15
      → tokens_over F elapsed rate * 10 ^ 9 ≤ elapsed * rate

-- The sum of the tokens is one of `u32`.
unfoldable pub refill : RateLimiter → ℕ → ℕ → RateLimiter
refill s now added =
    if ltb 0 added
    then record s { tokens = min ((s.tokens + added) % 2 ^ 32) s.burst_capacity; last_refill = now }
    else s

-- One turn of the loop: whether a token was granted.
unfoldable pub take : RateLimiter → RateLimiter × Bool
take s = if ltb 0 s.tokens then (record s { tokens = s.tokens - 1 }, true) else (s, false)

unfoldable pub try_turn : RateLimiter → ℕ → ℕ → RateLimiter × Bool
unfolding refill take
try_turn s now added = take (refill s now added)

unfoldable pub turn : (F : Type 0) ⦃d : Double F⦄ → RateLimiter → ℕ → RateLimiter × Bool
unfolding try_turn tokens_to_add
turn F s now = try_turn s now (tokens_to_add F s now)

module _ (F : Type 0) ⦃d : Double F⦄ where
  -- the requests granted in the turns at the times of a list
  unfoldable pub granted : RateLimiter → List ℕ → ℕ
  granted s [] = 0
  granted s (now ∷ times) =
      let rest = granted (turn F s now).0 times in if (turn F s now).1 then suc rest else rest

  pub after : RateLimiter → List ℕ → RateLimiter
  after s [] = s
  after s (now ∷ times) = after (turn F s now).0 times
