-- ===== src/MarketData/Spreads.antt =====
-- The iterator over the spreads against the getter of one spread.
use funding_spread_arbitrage.Prelude.{
  ℕ, zero, suc, ◌+◌, ◌<◌, ◌≡◌, refl, ap, List, some, arith, length, get_elem?,
}
use funding_spread_arbitrage.Double.{Double}
use funding_spread_arbitrage.Types.Market.{MarketUpdate}
use funding_spread_arbitrage.MarketData.{
  MarketDataStore, spreads_from, iter_spreads, get_spread_bps, id_at,
}
use funding_spread_arbitrage.MarketData.Log.{
  replay, latest, highest, Holds, replay-Holds, replay-IsStore, IsStore,
}

module _ {F : Type 0} ⦃d : Double F⦄ where
  spreads_from-at :
      (s : MarketDataStore F) (i n k : ℕ)
      → k < n
      → i + n ≡ s.count
      → get_elem? (spreads_from s i n) k ≡ some (id_at s (i + k), get_spread_bps s (i + k))
  unfolding spreads_from get_spread_bps
  spreads_from-at s i zero k h e = absurd (omega arith)
  spreads_from-at s i (suc n) zero h e = ground arith
  spreads_from-at s i (suc n) (suc k) h e =
      let e' : suc i + k ≡ i + suc k = omega arith in
      rw (spreads_from-at s (suc i) n k (omega arith) (omega arith), e')

  length-spreads_from : (s : MarketDataStore F) (i n : ℕ) → length (spreads_from s i n) ≡ n
  unfolding spreads_from
  length-spreads_from s i zero = refl
  length-spreads_from s i (suc n) = ap suc (length-spreads_from s (suc i) n)

  -- After any log of updates, the iterator has one item for each index up to the highest stored
  -- symbol: the spread that `get_spread_bps` gives, under the id of that symbol if it had an
  -- update, and under id 0 if it had none.
  iter_spreads-at :
      (us : List (MarketUpdate F)) (i : ℕ)
      → i < highest us
      → (length (iter_spreads (replay us)) ≡ highest us)
        × (get_elem? (iter_spreads (replay us)) i
            ≡ some (latest (λ u. u.symbol_id) 0 us i, get_spread_bps (replay us) i))
  unfolding iter_spreads
  iter_spreads-at us i h =
      let s = replay us in
      let w : IsStore s = replay-IsStore us in
      let here : Holds us 0 s = replay-Holds us 0 (omega arith) in
      ground (
        arith,
        length-spreads_from s 0 s.count,
        spreads_from-at s 0 s.count i (omega (arith, here.tracked)) (omega arith),
        replay-Holds us i (omega (arith, w.in_range, here.tracked)),
      )
