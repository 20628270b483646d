-- ===== src/DepthChecker/Reuse.antt =====
-- What the cache of `DepthChecker` saves.
use Prim.Native.String.{String}
use text.Mathlib.Text.{◌==◌ as same_text}
use text.Mathlib.TextEquality.{eq_iff}
use funding_spread_arbitrage.Prelude.{
  ℕ, ◌-◌, ◌<◌, ◌≡◌, refl, sym, subst, true, none, some, ltb, lt→ltb, ok,
}
use funding_spread_arbitrage.Double.{Double}
use funding_spread_arbitrage.Types.Market.{OrderBookDepth}
use funding_spread_arbitrage.Hedge.Backend.{ExecutionBackend, Clock}
use funding_spread_arbitrage.DepthChecker.{
  Cache, fresh, insert, cache_key, calculate_depth_result, check_depth_for_hedge,
}

insert-fresh :
    {F : Type 0} (cache : Cache F) (key : String) (entry : OrderBookDepth F × ℕ) (now : ℕ)
    → now - entry.1 < 100
    → fresh (insert cache key entry) key now ≡ some entry.0
insert-fresh cache key entry now soon =
    let found : same_text key key ≡ true = (eq_iff key key).1 refl in
    let young : ltb (now - entry.1) 100 ≡ true = lt→ltb (now - entry.1) 100 soon in
    rw (fresh, insert, found, young) refl

module _ {B F : Type 0} ⦃x : ExecutionBackend B F⦄ ⦃c : Clock B⦄ ⦃d : Double F⦄ where
  fresh_hit :
      (exchange symbol : String) (quantity : F) (cache : Cache F) (b : B) (depth : OrderBookDepth F)
      → fresh cache (cache_key exchange symbol) (c.instant b) ≡ some depth
      → check_depth_for_hedge exchange symbol quantity cache b
        ≡ (cache, b, ok (calculate_depth_result exchange symbol depth quantity 0))
  unfolding check_depth_for_hedge
  fresh_hit exchange symbol quantity cache b depth h = rw (check_depth_for_hedge, h) refl

  -- A book that an exchange was asked for, because none was kept that is fresh, is kept: a check of
  -- the same symbol on the same exchange less than 100 milliseconds later asks no exchange, leaves
  -- the cache as it is, and judges its own quantity by that book.
  pub depth_reused :
      (exchange symbol : String) (quantity later_quantity : F) (cache : Cache F) (b later : B)
      (depth : OrderBookDepth F)
      → fresh cache (cache_key exchange symbol) (c.instant b) ≡ none
      → (x.get_order_book_depth exchange symbol 10 b).1 ≡ ok depth
      → c.instant later - c.instant (x.get_order_book_depth exchange symbol 10 b).0 < 100
      → check_depth_for_hedge exchange symbol later_quantity
          (check_depth_for_hedge exchange symbol quantity cache b).0
          later
        ≡ (
          (check_depth_for_hedge exchange symbol quantity cache b).0,
          later,
          ok (calculate_depth_result exchange symbol depth later_quantity 0),
        )
  unfolding check_depth_for_hedge
  depth_reused exchange symbol quantity later_quantity cache b later depth stale asked soon =
      let key = cache_key exchange symbol in
      let entry : OrderBookDepth F × ℕ =
        (depth, c.instant (x.get_order_book_depth exchange symbol 10 b).0) in
      let kept : (check_depth_for_hedge exchange symbol quantity cache b).0
          ≡ insert cache key entry =
        rw (check_depth_for_hedge, stale, asked) refl in
      fresh_hit exchange symbol later_quantity
        (check_depth_for_hedge exchange symbol quantity cache b).0 later depth
        (subst (λ k. fresh k key (c.instant later) ≡ some depth) (sym kept)
          (insert-fresh cache key entry (c.instant later) soon))
