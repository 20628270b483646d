-- ===== src/Entry/Closing.antt =====
-- What an emergency close places, and when it halts trading.
use Prim.{tt}
use Prim.Native.String.{String, ◌++◌ as ◌<>◌}
use funding_spread_arbitrage.Prelude.{
  ℕ, zero, suc, ◌+◌, ◌≤◌, ◌≡◌, refl, ◌∙◌, sym, ap, ◌⊎◌, inl, inr, Bool, true, List, ◌++◌,
  append_assoc, arith, length, length-append, length-replicate, replicate, All, all_nil, all_cons,
  All-append, Bool-cases, if◌then◌else◌, ok, is_ok, Result-cases,
}
use funding_spread_arbitrage.Double.{Double, lit, ◌⊘◌}
use funding_spread_arbitrage.Types.Order.{SimulatedOrder}
use funding_spread_arbitrage.Hedge.Backend.{ExecutionBackend, Clock}
use funding_spread_arbitrage.Hedge.Placer.{place_with_retry, IsUnfilling, unfilled_orders_pile_up}
use funding_spread_arbitrage.Hedge.Copies.{IsTaking, Copies, place_with_retry-Copies}
use funding_spread_arbitrage.Hedge.Halt.{halt_trading}
use funding_spread_arbitrage.Entry.Emergency.{
  is_quantity_limit, opposite, close_order, close_halves, emergency_close_position,
}

All-replicate : {A : Type 0} {P : A → Type 0} (n : ℕ) (a : A) → P a → All P (replicate n a)
All-replicate zero a p = all_nil
All-replicate (suc n) a p = all_cons p (All-replicate n a p)

module _ {F : Type 0} ⦃d : Double F⦄ where
  -- An order that closes another, or half of it: on its exchange, for its symbol, on the other
  -- side.
  pub record Closes (filled o : SimulatedOrder F) : Type 0 where
    pub on : o.exchange ≡ filled.exchange
    pub for_symbol : o.symbol ≡ filled.symbol
    pub against : o.side ≡ opposite filled.side
    pub sized : (o.size ≡ filled.size) ⊎ (o.size ≡ filled.size ⊘ lit 2 0)

  -- At most `n` orders more, and each closes `filled`.
  pub record Placed {B : Type 0} (orders : B → List (SimulatedOrder F)) (filled : SimulatedOrder F)
      (n : ℕ) (b b' : B) : Type 0 where
    pub new : List (SimulatedOrder F)
    pub few : length new ≤ n
    pub taken : orders b' ≡ new ++ orders b
    pub closes : All (Closes filled) new

  Copies-Placed :
      {B : Type 0} {orders : B → List (SimulatedOrder F)} {filled o : SimulatedOrder F} {n : ℕ}
      {b b' : B}
      → Closes filled o
      → Copies orders n o b b'
      → Placed orders filled n b b'
  Copies-Placed {o = o} p h = record {
    new = replicate h.number o;
    few = omega (arith, h.few, length-replicate h.number o);
    taken = h.taken;
    closes = All-replicate h.number o p;
  }

  no_more :
      {B : Type 0} {orders : B → List (SimulatedOrder F)} {filled : SimulatedOrder F} {n : ℕ}
      {b b₁ b' : B}
      → Placed orders filled n b b₁
      → orders b' ≡ orders b₁
      → Placed orders filled n b b'
  no_more h e = record { new = h.new; few = h.few; taken = e ∙ h.taken; closes = h.closes }

  earlier :
      {B : Type 0} {orders : B → List (SimulatedOrder F)} {filled : SimulatedOrder F} {n : ℕ}
      {b b₁ b' : B}
      → orders b₁ ≡ orders b
      → Placed orders filled n b₁ b'
      → Placed orders filled n b b'
  earlier e h = record {
    new = h.new;
    few = h.few;
    taken = h.taken ∙ ap (λ l. h.new ++ l) e;
    closes = h.closes;
  }

  then-Placed :
      {B : Type 0} {orders : B → List (SimulatedOrder F)} {filled : SimulatedOrder F} {m n : ℕ}
      {b b₁ b' : B}
      → Placed orders filled m b b₁
      → Placed orders filled n b₁ b'
      → Placed orders filled (m + n) b b'
  then-Placed {orders = orders} {b = b} h k = record {
    new = k.new ++ h.new;
    few = omega (arith, h.few, k.few, length-append k.new h.new);
    taken = k.taken ∙ ap (λ l. k.new ++ l) h.taken ∙ sym (append_assoc k.new h.new (orders b));
    closes = All-append k.closes h.closes;
  }

  fewer :
      {B : Type 0} {orders : B → List (SimulatedOrder F)} {filled : SimulatedOrder F} {m n : ℕ}
      {b b' : B}
      → m ≤ n
      → Placed orders filled m b b'
      → Placed orders filled n b b'
  fewer le h = record {
    new = h.new;
    few = omega (arith, h.few);
    taken = h.taken;
    closes = h.closes;
  }

module _ {B F : Type 0} ⦃x : ExecutionBackend B F⦄ ⦃c : Clock B⦄ ⦃d : Double F⦄
    (orders : B → List (SimulatedOrder F)) (laws : IsTaking orders) where
  half-Closes :
      (filled : SimulatedOrder F) (id h : String) (now : ℕ)
      → Closes filled (record (close_order filled id now) { id = h; size = filled.size ⊘ lit 2 0 })
  half-Closes filled id h now = record {
    on = refl;
    for_symbol = refl;
    against = refl;
    sized = inr refl;
  }

  close_halves-Placed :
      (filled : SimulatedOrder F) (id : String) (now : ℕ) (b : B)
      → Placed orders filled 10 b (close_halves (close_order filled id now) b).0
  unfolding close_halves
  close_halves-Placed filled id now b =
      let order = close_order filled id now in
      let half : SimulatedOrder F = record order { size = order.size ⊘ lit 2 0 } in
      let (b₁, first) = place_with_retry half 5 b in
      let (b₂, name) = c.new_uuid b₁ in
      let other : SimulatedOrder F = record half { id = "emergency_close_" <> name } in
      let one : Placed orders filled 5 b b₁ =
        Copies-Placed (half-Closes filled id order.id now)
          (place_with_retry-Copies orders laws half 5 b) in
      let two : Placed orders filled 5 b₂ (place_with_retry other 5 b₂).0 =
        Copies-Placed (half-Closes filled id other.id now)
          (place_with_retry-Copies orders laws other 5 b₂) in
      elim (Result-cases first) [
        | inr (e, p) ↦ rw (close_halves, p) (fewer (omega arith) one)
        | inl (o, p) ↦ elim (Result-cases (place_with_retry other 5 b₂).1) [
          | inl (o', q) ↦ rw (close_halves, p, q) (then-Placed (no_more one (laws.names b₁)) two)
          | inr (e, q) ↦ rw (close_halves, p, q) (then-Placed (no_more one (laws.names b₁)) two)
        ]
      ]

  -- On any exchange that takes a market order whole or not at all when it is placed, an emergency
  -- close places at most twenty orders, each on the exchange of the leg, for its symbol, on the
  -- other side, and of its size or half of it; and trading is halted after a failure, and as it was
  -- after a success.
  pub emergency_closes :
      (filled : SimulatedOrder F) (b : B) (halted : Bool)
      → Placed orders filled 20 b (emergency_close_position filled b halted).0
        × ((emergency_close_position filled b halted).1
            ≡ (if is_ok (emergency_close_position filled b halted).2 then halted else true))
  unfolding emergency_close_position halt_trading
  emergency_closes filled b halted =
      let (b₁, id) = c.new_uuid b in
      let order = close_order filled id (c.unix_secs b₁) in
      let (b₂, placed) = place_with_retry order 10 b₁ in
      let whole : Placed orders filled 10 b₁ b₂ =
        Copies-Placed record { on = refl; for_symbol = refl; against = refl; sized = inl refl }
          (place_with_retry-Copies orders laws order 10 b₁) in
      let named : Placed orders filled 10 b b₂ = earlier (laws.names b) whole in
      let halves = then-Placed named (close_halves-Placed filled id (c.unix_secs b₁) b₂) in
      elim (Result-cases placed) [
        | inl (o, p) ↦ rw (emergency_close_position, p) (fewer (omega arith) named, refl)
        | inr (e, p) ↦ elim (Bool-cases (is_quantity_limit e)) [
          | inr q ↦ rw (emergency_close_position, p, q) (fewer (omega arith) named, refl)
          | inl q ↦ elim (Bool-cases (close_halves order b₂).1) [
            | inl h ↦ rw (emergency_close_position, p, q, h) (halves, refl)
            | inr h ↦ rw (emergency_close_position, p, q, h) (halves, refl)
          ]
        ]
      ]

module _ {B F : Type 0} ⦃x : ExecutionBackend B F⦄ ⦃c : Clock B⦄ ⦃d : Double F⦄
    (orders : B → List (SimulatedOrder F)) (laws : IsUnfilling orders) where
  -- On an exchange that takes every market order and reports none as filled, an emergency close
  -- places ten copies of the order that closes the whole leg, answers with success and leaves the
  -- trading halt as it was.
  pub unfilled_close_succeeds :
      (filled : SimulatedOrder F) (b : B) (halted : Bool)
      → orders (c.new_uuid b).0 ≡ orders b
      → ((emergency_close_position filled b halted).2 ≡ ok tt)
        × ((emergency_close_position filled b halted).1 ≡ halted)
        × (orders (emergency_close_position filled b halted).0
            ≡ replicate 10 (close_order filled (c.new_uuid b).1 (c.unix_secs (c.new_uuid b).0))
              ++ orders b)
  unfolding emergency_close_position
  unfilled_close_succeeds filled b halted e =
      let (b₁, id) = c.new_uuid b in
      let order = close_order filled id (c.unix_secs b₁) in
      let (taken, (p, placed)) = unfilled_orders_pile_up orders laws b₁ order 9 in
      rw (emergency_close_position, placed)
        (refl, refl, taken ∙ ap (λ l. replicate 10 order ++ l) e)
