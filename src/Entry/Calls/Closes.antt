-- ===== src/Entry/Calls/Closes.antt =====
-- The emergency close and the question about depth respect what every call of the exchanges respects.
use Prim.{tt}
use Prim.Native.String.{String, ◌++◌ as ◌<>◌}
use funding_spread_arbitrage.Prelude.{
  ◌≡◌, refl, ap, sym, ◌∙◌, inl, inr, Bool, true, false, Bool-cases, Option-cases, if◌then◌else◌,
  is_ok, Result-cases,
}
use funding_spread_arbitrage.Double.{Double, lit, ◌⊘◌}
use funding_spread_arbitrage.Types.Order.{SimulatedOrder}
use funding_spread_arbitrage.Hedge.Backend.{ExecutionBackend, Clock}
use funding_spread_arbitrage.Hedge.Placer.{PlaceError, place_with_retry}
use funding_spread_arbitrage.Hedge.Halt.{halt_trading}
use funding_spread_arbitrage.DepthChecker.{fresh, cache_key, Cache, check_depth_for_hedge}
use funding_spread_arbitrage.Entry.Emergency.{
  is_quantity_limit, close_order, close_halves, emergency_close_position,
}
use funding_spread_arbitrage.Entry.Desk.{Desk, EntryError, check_depth, close_position}
use funding_spread_arbitrage.Entry.Steady.{IsSteady, Safe, Any, is_close_failure, is_one_leg_left}
use funding_spread_arbitrage.Entry.Calls.Retries.{place_with_retry-Steady}

module _ {B F : Type 0} ⦃x : ExecutionBackend B F⦄ ⦃c : Clock B⦄ ⦃d : Double F⦄ (R : B → B → Type 0)
    ⦃laws : IsSteady F R⦄ where
  close_halves-Steady : (o : SimulatedOrder F) (b : B) → R b (close_halves o b).0
  unfolding close_halves
  close_halves-Steady o b =
      let half : SimulatedOrder F = record o { size = o.size ⊘ lit 2 0 } in
      let (b₁, first) = place_with_retry half 5 b in
      let (b₂, name) = c.new_uuid b₁ in
      let other : SimulatedOrder F = record half { id = "emergency_close_" <> name } in
      let (b₃, second) = place_with_retry other 5 b₂ in
      let one = place_with_retry-Steady R half 5 b in
      let three =
        laws.joins b b₂ b₃ (laws.joins b b₁ b₂ one (laws.names b₁))
          (place_with_retry-Steady R other 5 b₂) in
      elim (Result-cases first) [
        | inr (e, p) ↦ rw (close_halves, p) one
        | inl (a, p) ↦ elim (Result-cases second) [
          | inl (a', q) ↦ rw (close_halves, p, q) three
          | inr (e, q) ↦ rw (close_halves, p, q) three
        ]
      ]

  emergency_close-Steady :
      (o : SimulatedOrder F) (b : B) (halted : Bool)
      → R b (emergency_close_position o b halted).0
        × ((emergency_close_position o b halted).1
            ≡ (if is_ok (emergency_close_position o b halted).2 then halted else true))
  unfolding emergency_close_position halt_trading
  emergency_close-Steady o b halted =
      let (b₁, id) = c.new_uuid b in
      let order = close_order o id (c.unix_secs b₁) in
      let (b₂, placed) = place_with_retry order 10 b₁ in
      let whole = laws.joins b b₁ b₂ (laws.names b) (place_with_retry-Steady R order 10 b₁) in
      let halves = laws.joins b b₂ (close_halves order b₂).0 whole (close_halves-Steady order b₂) in
      elim (Result-cases placed) [
        | inl (a, p) ↦ rw (emergency_close_position, p) (whole, refl)
        | inr (e, p) ↦ elim (Bool-cases (is_quantity_limit e)) [
          | inr q ↦ rw (emergency_close_position, p, q) (whole, refl)
          | inl q ↦ elim (Bool-cases (close_halves order b₂).1) [
            | inl h ↦ rw (emergency_close_position, p, q, h) (halves, refl)
            | inr h ↦ rw (emergency_close_position, p, q, h) (halves, refl)
          ]
        ]
      ]

  depth_asked-Steady :
      (e s : String) (q : F) (k : Cache F) (b : B) → R b (check_depth_for_hedge e s q k b).1
  unfolding check_depth_for_hedge
  depth_asked-Steady e s q k b = elim (Option-cases (fresh k (cache_key e s) (c.instant b))) [
    | inr (v, p) ↦ rw (check_depth_for_hedge, p) (laws.stays b)
    | inl p ↦ elim (Result-cases (x.get_order_book_depth e s 10 b).1) [
      | inl (a, r) ↦ rw (check_depth_for_hedge, p, r) (laws.depths e s 10 b)
      | inr (a, r) ↦ rw (check_depth_for_hedge, p, r) (laws.depths e s 10 b)
    ]
  ]

module _ {B F : Type 0} ⦃x : ExecutionBackend B F⦄ ⦃c : Clock B⦄ ⦃d : Double F⦄ {R : B → B → Type 0}
    ⦃laws : IsSteady F R⦄ where
  pub check_depth-Safe : (e s : String) (q : F) {t : Desk B F} → Safe R Any t (check_depth e s q t)
  unfolding check_depth
  check_depth-Safe e s q {t} = record {
    moved = depth_asked-Steady R e s q t.depths t.exchanges;
    freed = refl;
    flagged = refl;
    hedged = refl;
    answered = tt;
  }

  pub close_position-Safe :
      (f : PlaceError → EntryError F) (o : SimulatedOrder F) {s : Desk B F}
      → ((e : PlaceError) → is_close_failure (f e) ≡ true)
      → ((e : PlaceError) → is_one_leg_left (f e) ≡ false)
      → Safe R Any s (close_position f o s)
  unfolding close_position
  close_position-Safe f o {s} p q =
      let r = emergency_close_position o s.exchanges s.halted in
      let (m, h) = emergency_close-Steady R o s.exchanges s.halted in
      elim (Result-cases r.2) [
        | inl (a, e) ↦
            rw (close_position, e)
              record {
                moved = m;
                freed = refl;
                flagged = h ∙ ap (λ k. if is_ok k then s.halted else true) e;
                hedged = refl;
                answered = tt;
              }
        | inr (a, e) ↦
            rw (close_position, e)
              record {
                moved = m;
                freed = refl;
                flagged =
                    h
                    ∙ ap (λ k. if is_ok k then s.halted else true) e
                    ∙ ap (λ (t : Bool). if t then true else s.halted) (sym (p a));
                hedged = q a;
                answered = tt;
              }
      ]
