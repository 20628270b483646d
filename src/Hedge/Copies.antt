-- ===== src/Hedge/Copies.antt =====
-- Which orders `place_with_retry` places.
use Prim.Native.String.{String}
use funding_spread_arbitrage.Prelude.{
  ℕ, zero, suc, ◌≤◌, ◌≡◌, ◌⊎◌, inl, inr, refl, ◌∙◌, ap, List, ◌∷◌, ◌++◌, arith, replicate,
  replicate-cons, Bool-cases, if_last-either, Result, Result-cases,
}
use funding_spread_arbitrage.Types.Order.{SimulatedOrder}
use funding_spread_arbitrage.Hedge.Backend.{ExecutionBackend, Clock}
use funding_spread_arbitrage.Hedge.Placer.{
  PlaceError, says_filled, place_attempts, place_with_retry,
}

-- Exchanges that take a market order or do not, and take none otherwise. `orders` are the orders
-- that they have taken, newest first.
pub record IsTaking {B F : Type 0} ⦃x : ExecutionBackend B F⦄ ⦃c : Clock B⦄
    (orders : B → List (SimulatedOrder F)) : Type 0 where
  pub takes :
      (o : SimulatedOrder F) (b : B)
      → (orders (x.place_market_order o b).0 ≡ o ∷ orders b)
        ⊎ (orders (x.place_market_order o b).0 ≡ orders b)
  pub asks : (e i s : String) (b : B) → orders (x.get_order_status_detailed e i s b).0 ≡ orders b
  pub waits : (n : ℕ) (b : B) → orders (c.sleep n b) ≡ orders b
  pub names : (b : B) → orders (c.new_uuid b).0 ≡ orders b

moved : {A : Type 0} {x y a b : A} → y ≡ x → (x ≡ a) ⊎ (x ≡ b) → (y ≡ a) ⊎ (y ≡ b)
moved e (inl h) = inl (e ∙ h)
moved e (inr h) = inr (e ∙ h)

-- At most `n` copies of an order have been taken.
pub record Copies {B F : Type 0} (orders : B → List (SimulatedOrder F)) (n : ℕ)
    (o : SimulatedOrder F) (b b' : B) : Type 0 where
  pub number : ℕ
  pub few : number ≤ n
  pub taken : orders b' ≡ replicate number o ++ orders b

module _ {B F : Type 0} {orders : B → List (SimulatedOrder F)} {o : SimulatedOrder F} where
  none_more : {n : ℕ} {b b' : B} → orders b' ≡ orders b → Copies orders n o b b'
  none_more e = record { number = 0; few = omega arith; taken = e }

  -- One more attempt before the others.
  one_before :
      {n : ℕ} {b b₁ b' : B}
      → (orders b₁ ≡ o ∷ orders b) ⊎ (orders b₁ ≡ orders b)
      → Copies orders n o b₁ b'
      → Copies orders (suc n) o b b'
  one_before {b = b} (inl e) h = record {
    number = suc h.number;
    few = omega (arith, h.few);
    taken = h.taken ∙ ap (λ l. replicate h.number o ++ l) e ∙ replicate-cons h.number o (orders b);
  }
  one_before (inr e) h = record {
    number = h.number;
    few = omega (arith, h.few);
    taken = h.taken ∙ ap (λ l. replicate h.number o ++ l) e;
  }

module _ {B F : Type 0} ⦃x : ExecutionBackend B F⦄ ⦃c : Clock B⦄
    (orders : B → List (SimulatedOrder F)) (laws : IsTaking orders) where
  place_attempts-Copies :
      (o : SimulatedOrder F) (made n : ℕ) (b : B)
      → Copies orders n o b (place_attempts o made n b).0
  unfolding place_attempts
  place_attempts-Copies o made zero b = none_more refl
  place_attempts-Copies o made (suc n) b =
      let (b₁, placed) = x.place_market_order o b in
      elim (Result-cases placed) [
        | inr (e, p) ↦
            rw (place_attempts, p)
              (if_last-either
                (λ (r : B × Result PlaceError (SimulatedOrder F)). Copies orders (suc n) o b r.0) n
                _ _ (one_before (laws.takes o b) (none_more refl))
                (one_before (moved (laws.waits 100 b₁) (laws.takes o b))
                  (place_attempts-Copies o (suc made) n (c.sleep 100 b₁))))
        | inl (f, p) ↦
            let (b₂, info) = x.get_order_status_detailed f.exchange f.id o.symbol b₁ in
            let asked = moved (laws.asks f.exchange f.id o.symbol b₁) (laws.takes o b) in
            elim (Bool-cases (says_filled info)) [
              | inl q ↦ rw (place_attempts, p, q) (one_before asked (none_more refl))
              | inr q ↦
                  rw (place_attempts, p, q)
                    (if_last-either
                      (λ (r : B × Result PlaceError (SimulatedOrder F)).
                        Copies orders (suc n) o b r.0)
                      n _ _ (one_before asked (none_more refl))
                      (one_before (moved (laws.waits 100 b₂) asked)
                        (place_attempts-Copies o (suc made) n (c.sleep 100 b₂))))
            ]
      ]

  pub place_with_retry-Copies :
      (o : SimulatedOrder F) (n : ℕ) (b : B) → Copies orders n o b (place_with_retry o n b).0
  unfolding place_with_retry
  place_with_retry-Copies o n b = place_attempts-Copies o 0 n b
