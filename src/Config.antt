-- ===== src/Config.antt =====
-- The repricing configuration of src/strategy/types.rs and its validator, `ConfigValidator` of
-- src/strategy/config_storage.rs. `none` is `Ok(())`; the text of an error is left out.
use funding_spread_arbitrage.Prelude.{
  ℕ, ◌≤◌, ◌≡◌, ◌↔◌, Bool, true, false, not, ◌&&◌, ◌||◌, Option, none, some, ltb, if◌then◌else◌,
  arith, inl, inr, Bool-cases,
}
use funding_spread_arbitrage.Double.{Double, IsIeee, lit, ◌≺◌, ◌≼◌}

pub data ExecutionMode : Type 0 where
  ultra_fast balanced safe : ExecutionMode

pub record RepricingConfig (F : Type 0) : Type 0 where
  pub reprice_threshold_bps : F
  pub max_reprices : ℕ
  pub reprice_interval_ms : ℕ
  pub total_timeout_seconds : ℕ
  pub spread_collapse_threshold_bps : F
  pub execution_mode : ExecutionMode

-- What a validator refuses.
pub data Invalid : Type 0 where
  reprice_threshold max_reprices reprice_interval total_timeout spread_collapse : Invalid
  not_above_balanced ultra_fast_range balanced_range : Invalid

module _ {F : Type 0} ⦃d : Double F⦄ where
  -- `ultra_fast`, `balanced` and `safe`, which differ in the mode.
  unfoldable pub preset : ExecutionMode → RepricingConfig F
  preset mode = record {
    reprice_threshold_bps = lit 5 0;
    max_reprices = 5;
    reprice_interval_ms = 100;
    total_timeout_seconds = 3;
    spread_collapse_threshold_bps = lit 50 0;
    execution_mode = mode;
  }

  unfoldable pub from_confidence : F → RepricingConfig F
  unfolding preset
  from_confidence confidence_score =
      if lit 90 0 ≼ confidence_score
      then preset ExecutionMode.ultra_fast
      else if lit 75 0 ≼ confidence_score
      then preset ExecutionMode.balanced
      else preset ExecutionMode.safe

  abbrev outside : F → F → F → Bool
  outside low high x = x ≺ low || high ≺ x

  unfoldable pub validate_repricing_config : RepricingConfig F → Option Invalid
  validate_repricing_config c =
      if outside (lit 1 0) (lit 20 0) c.reprice_threshold_bps
      then some Invalid.reprice_threshold
      else if ltb c.max_reprices 1 || ltb 10 c.max_reprices
      then some Invalid.max_reprices
      else if ltb c.reprice_interval_ms 50 || ltb 500 c.reprice_interval_ms
      then some Invalid.reprice_interval
      else if ltb c.total_timeout_seconds 1 || ltb 10 c.total_timeout_seconds
      then some Invalid.total_timeout
      else if outside (lit 20 0) (lit 100 0) c.spread_collapse_threshold_bps
      then some Invalid.spread_collapse
      else none

  -- `(0.0..=100.0).contains`
  abbrev percentage : F → Bool
  percentage x = lit 0 0 ≼ x && x ≼ lit 100 0

  unfoldable pub validate_confidence_thresholds : F → F → Option Invalid
  validate_confidence_thresholds ultra_fast_threshold balanced_threshold =
      if ultra_fast_threshold ≼ balanced_threshold
      then some Invalid.not_above_balanced
      else if not (percentage ultra_fast_threshold)
      then some Invalid.ultra_fast_range
      else if not (percentage balanced_threshold)
      then some Invalid.balanced_range
      else none

  module _ (laws : IsIeee F) where
    not_below : (x y : F) → (x ≼ y) ≡ true → (y ≺ x) ≡ false
    not_below x y h = elim (Bool-cases (y ≺ x)) [
      | inl e ↦ absurd (ground (arith, laws.le_lt_trans x y x h e, laws.lt_irrefl x))
      | inr e ↦ e
    ]

    literals : (m n : ℕ) → m ≤ n → d.lt (d.lit n 0) (d.lit m 0) ≡ false
    literals m n h = not_below (lit m 0) (lit n 0) (laws.lit_mono m n 0 h)

    preset-valid : (mode : ExecutionMode) → validate_repricing_config (preset mode) ≡ none
    unfolding preset validate_repricing_config
    preset-valid mode = ground (
      arith,
      literals 1 5 (omega arith),
      literals 5 20 (omega arith),
      literals 20 50 (omega arith),
      literals 50 100 (omega arith),
    )

    -- Under the laws of IEEE 754 the configuration that is chosen for a confidence, whatever it
    -- is, passes the validator.
    validate-from_confidence :
        (confidence : F) → validate_repricing_config (from_confidence confidence) ≡ none
    unfolding from_confidence
    validate-from_confidence confidence = elim (Bool-cases (lit 90 0 ≼ confidence)) [
      | inl h ↦ rw h (preset-valid ExecutionMode.ultra_fast)
      | inr h ↦ elim (Bool-cases (lit 75 0 ≼ confidence)) [
        | inl k ↦ rw (h, k) (preset-valid ExecutionMode.balanced)
        | inr k ↦ rw (h, k) (preset-valid ExecutionMode.safe)
      ]
    ]

    -- Under the laws of IEEE 754 two thresholds pass the validator exactly when the one for the
    -- fast mode is above the other and both lie between 0 and 100; a not-a-number never passes.
    pub validate_confidence_thresholds_iff :
        (u b : F)
        → (validate_confidence_thresholds u b ≡ none)
          ↔ (((lit 0 0 ≼ b) ≡ true) × ((b ≺ u) ≡ true) × ((u ≼ lit 100 0) ≡ true))
    unfolding validate_confidence_thresholds
    validate_confidence_thresholds_iff u b = (
      λ h.
          ground
            (arith, laws.not_lt_le b u, laws.num_of_le (lit 0 0) u, laws.num_of_le (lit 0 0) b),
      λ h.
          let above : (lit 0 0 ≼ u) ≡ true =
            laws.le_of_lt (lit 0 0) u (laws.le_lt_trans (lit 0 0) b u h.0 h.1) in
          let below : (b ≼ lit 100 0) ≡ true =
            laws.le_of_lt b (lit 100 0) (laws.lt_le_trans b u (lit 100 0) h.1 h.2) in
          ground (arith, above, below, laws.le_lt_trans u b u, laws.lt_irrefl u, h),
    )
