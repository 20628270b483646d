-- ===== src/PaperTrading/Hedges.antt =====
-- The hedges and the emergency close on the paper exchange.
use Prim.{tt}
use Prim.Native.String.{String}
use text.Mathlib.Text.{◌==◌ as same_text}
use text.Mathlib.TextEquality.{eq_iff}
use funding_spread_arbitrage.Prelude.{ℕ, suc, ◌≡◌, refl, ap, Bool, true, false, Option, some, ok}
use funding_spread_arbitrage.Double.{Double, lit, ◌⊕◌, ◌⊖◌, ◌≼◌}
use funding_spread_arbitrage.Types.Order.{SimulatedOrder, OrderStatus}
use funding_spread_arbitrage.Hedge.Backend.{Clock}
use funding_spread_arbitrage.Hedge.Placer.{place_attempts, place_with_retry}
use funding_spread_arbitrage.Entry.Retry.{hedge_attempts, place_market_order_with_retry}
use funding_spread_arbitrage.Entry.Emergency.{close_order, emergency_close_position}
use funding_spread_arbitrage.PaperTrading.{
  PaperTradingBackend, insert, named, filled, place_market_order, get_order_status_detailed,
  paper_clock, paper_trading,
}

found : {A : Type 0} (m : String → Option A) (key : String) (v : A) → insert m key v key ≡ some v
found m key v =
    let same : same_text key key ≡ true = (eq_iff key key).1 refl in rw (insert, same) refl

module _ {W F : Type 0} ⦃c : Clock W⦄ ⦃d : Double F⦄ where
  -- The order that is placed for one.
  abbrev pub placed : SimulatedOrder F → PaperTradingBackend W F → SimulatedOrder F
  placed o b = let (world, id) = named o b in filled o id (c.unix_secs world)

  abbrev pub after : SimulatedOrder F → PaperTradingBackend W F → PaperTradingBackend W F
  after o b = (place_market_order o b).0

  paper_reports :
      (o : SimulatedOrder F) (e s : String) (b : PaperTradingBackend W F)
      → get_order_status_detailed e (placed o b).id s (after o b) ≡ (
        after o b,
        ok record {
          status = OrderStatus.filled;
          filled_quantity = o.size;
          total_quantity = o.size;
        },
      )
  unfolding place_market_order get_order_status_detailed
  paper_reports o e s b =
      let p = placed o b in
      let there : insert b.orders p.id p p.id ≡ some p = found b.orders p.id p in
      rw (get_order_status_detailed, there) refl

  place_with_retry-paper :
      (o : SimulatedOrder F) (n : ℕ) (b : PaperTradingBackend W F)
      → place_with_retry o (suc n) b ≡ (after o b, ok (placed o b))
  unfolding place_with_retry place_attempts place_market_order
  place_with_retry-paper o n b = rw (paper_reports o o.exchange o.symbol b) refl

  -- On the paper exchange, where there is something left to hedge and adding what is left to zero
  -- covers the target, a hedge succeeds with one market order: the exchange is left as that one
  -- order for what is left leaves it, and the answer is the order, filled, with what is left as
  -- its size.
  paper_hedge :
      (o : SimulatedOrder F) (target : F) (b : PaperTradingBackend W F)
      → (target ⊖ lit 0 0 ≼ lit 0 0) ≡ false
      → (target ≼ lit 0 0 ⊕ (target ⊖ lit 0 0)) ≡ true
      → let left : SimulatedOrder F = record o { size = target ⊖ lit 0 0 } in
        place_market_order_with_retry o target b
        ≡ (after left b, ok (record (placed left b) { size = lit 0 0 ⊕ (target ⊖ lit 0 0) }))
  unfolding place_market_order_with_retry hedge_attempts place_market_order
  paper_hedge o target b some_left covers =
      let left : SimulatedOrder F = record o { size = target ⊖ lit 0 0 } in
      let reports = paper_reports left o.exchange o.symbol b in
      rw (some_left, ap (λ r. r.1) reports, covers)
        (ap (λ r. (r.0, ok (record (placed left b) { size = lit 0 0 ⊕ (target ⊖ lit 0 0) })))
          reports)

  -- On the paper exchange an emergency close succeeds with one market order against the whole leg,
  -- which is kept as filled, and leaves the trading halt as it was.
  paper_close :
      (leg : SimulatedOrder F) (b : PaperTradingBackend W F) (halted : Bool)
      → let (world, id) = c.new_uuid b.world in
        let named_b : PaperTradingBackend W F = record b { world = world } in
        let order = close_order leg id (c.unix_secs world) in
        (emergency_close_position leg b halted ≡ (after order named_b, halted, ok tt))
        × ((after order named_b).orders (placed order named_b).id ≡ some (placed order named_b))
  unfolding emergency_close_position place_market_order
  paper_close leg b halted =
      let (world, id) = c.new_uuid b.world in
      let named_b : PaperTradingBackend W F = record b { world = world } in
      let order = close_order leg id (c.unix_secs world) in
      let closes = place_with_retry-paper order 9 named_b in
      (
        rw (emergency_close_position, ap (λ r. r.1) closes) (ap (λ r. (r.0, halted, ok tt)) closes),
        found b.orders (placed order named_b).id (placed order named_b),
      )
