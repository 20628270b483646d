-- ===== src/FillProbability/Choice.antt =====
-- Which level `should_try_limit` chooses.
use funding_spread_arbitrage.Prelude.{
  ℕ, suc, ◌<◌, ◌≡◌, ◌⊎◌, refl, sym, subst, Bool, true, false, ◌&&◌, ◌||◌, arith, inl, inr,
  Bool-cases,
}
use funding_spread_arbitrage.Double.{Double, IsIeee, lit, ◌≺◌, ◌≼◌}
use funding_spread_arbitrage.Types.Market.{OrderBookDepth}
use funding_spread_arbitrage.Types.Order.{OrderSide}
use funding_spread_arbitrage.FillProbability.{
  FillProbabilityEstimator, LimitOrderDecision, try_level, no_decision, calculate_fill_probability,
  should_try_limit,
}

below-cases : (i n : ℕ) → i < suc n → (i < n) ⊎ (i ≡ n)
below-cases i n h = ground arith

module _ {F : Type 0} ⦃d : Double F⦄ (s : FillProbabilityEstimator F) (book : OrderBookDepth F)
    (side : OrderSide) (size : F) where
  abbrev pub chance : ℕ → F
  chance level = (calculate_fill_probability s book side level size).probability

  -- A level is worth a try by itself.
  abbrev pub is_worth : ℕ → Bool
  is_worth level = s.min_probability_threshold ≼ chance level && lit 0 0 ≺ chance level

  abbrev pub meets : ℕ → Bool
  meets level = s.min_probability_threshold ≼ chance level

  -- The decision after the levels below `n`: a level that was chosen is one of them, meets the
  -- threshold and lends its chance and its wait, and no other that meets it has a greater chance.
  pub record IsBest (n : ℕ) (r : LimitOrderDecision F) : Type 0 where
    pub chosen :
        r.use_limit ≡ true
        → (r.price_level < n)
          × (meets r.price_level ≡ true)
          × (r.probability ≡ chance r.price_level)
          × (r.wait_time_ms
              ≡ (calculate_fill_probability s book side r.price_level size).estimated_wait_ms)
    pub greatest : (i : ℕ) → i < n → meets i ≡ true → (r.probability ≺ chance i) ≡ false

  decision_iff :
      (should_try_limit s book side size).use_limit ≡ (is_worth 0 || is_worth 1 || is_worth 2)
  unfolding should_try_limit
  decision_iff = ground arith

  module _ (laws : IsIeee F) where
    -- What does not exceed `a` does not exceed what does.
    still_greatest : (a b p : F) → (a ≺ b) ≡ true → (a ≺ p) ≡ false → (b ≺ p) ≡ false
    still_greatest a b p h k = elim (Bool-cases (b ≺ p)) [
      | inr e ↦ e
      | inl e ↦ absurd (ground (arith, laws.le_lt_trans a b p (laws.le_of_lt a b h) e, k))
    ]

    -- A level that is not chosen.
    keeps :
        (n : ℕ) (r : LimitOrderDecision F)
        → IsBest n r
        → (meets n ≡ true → (r.probability ≺ chance n) ≡ false)
        → IsBest (suc n) r
    keeps n r best out = record {
      chosen = λ u. let c = best.chosen u in (omega (arith, c.0), c.1, c.2, c.3);
      greatest = λ i below h. elim (below-cases i n below) [
        | inl lower ↦ best.greatest i lower h
        | inr same ↦
            subst (λ j. (r.probability ≺ chance j) ≡ false) (sym same)
              (out (subst (λ j. meets j ≡ true) same h))
      ];
    }

    try_level-IsBest :
        (n : ℕ) (r : LimitOrderDecision F)
        → IsBest n r
        → IsBest (suc n) (try_level s book side size r n)
    try_level-IsBest n r best = elim (Bool-cases (meets n)) [
      | inr m ↦ rw m (keeps n r best (λ h. absurd (ground (arith, m, h))))
      | inl m ↦ elim (Bool-cases (r.probability ≺ chance n)) [
        | inr g ↦ rw (m, g) (keeps n r best (λ h. g))
        | inl g ↦
            rw (m, g)
              record {
                chosen = λ u. (omega arith, m, refl, refl);
                greatest = λ i below h. elim (below-cases i n below) [
                  | inl lower ↦
                      still_greatest r.probability (chance n) (chance i) g (best.greatest i lower h)
                  | inr same ↦
                      subst (λ j. (chance n ≺ chance j) ≡ false) (sym same)
                        (laws.lt_irrefl (chance n))
                ];
              }
      ]
    ]

    -- Under the laws of IEEE 754 should_try_limit looks at the three best levels: a level that it
    -- chooses is one of them, meets the threshold and lends its chance and its wait, and none of
    -- them that meets the threshold has a greater chance than the one of the decision. It chooses
    -- one exactly when one of them meets the threshold with a chance above zero.
    pub should_try_limit-IsBest :
        IsBest 3 (should_try_limit s book side size)
        × ((should_try_limit s book side size).use_limit ≡ (is_worth 0 || is_worth 1 || is_worth 2))
    unfolding should_try_limit
    should_try_limit-IsBest =
        let first = try_level s book side size no_decision 0 in
        let second = try_level s book side size first 1 in
        let none_yet : IsBest 0 no_decision = record {
          chosen = λ u. absurd (ground (arith, u));
          greatest = λ i below. absurd (omega arith);
        } in
        (
          try_level-IsBest 2 second
              (try_level-IsBest 1 first (try_level-IsBest 0 no_decision none_yet)),
          decision_iff,
        )
