-- ===== src/Confluence.antt =====
-- `ConfluenceCalculator` of src/strategy/confluence.rs. Its histories are deques, oldest entry first.
pub mod Windows
use funding_spread_arbitrage.Prelude.{
  ℕ, suc, ◌-◌, Bool, false, not, ◌&&◌, List, [], ◌∷◌, ◌++◌, Option, none, some, ltb, length,
  get_elem?, drop, if◌then◌else◌,
}
use funding_spread_arbitrage.Double.{Double, lit, abs, fmax, ◌⊕◌, ◌⊖◌, ◌⊗◌, ◌⊘◌, ◌≺◌, ◌≼◌, ◌≈◌}
use funding_spread_arbitrage.Types.Trade.{HardConstraints}

pub record ConfluenceCalculator (F : Type 0) : Type 0 where
  pub oi_history : List F
  pub vwap_history : List (F × F)
  pub atr_history : List F

module _ {F : Type 0} where
  unfoldable pub new : ConfluenceCalculator F
  new = record { oi_history = []; vwap_history = []; atr_history = [] }

-- `push_back`, and `pop_front` if more than `n` are held.
abbrev pub push_window : {A : Type 0} → ℕ → List A → A → List A
push_window n window x =
    let pushed = window ++ x ∷ [] in if ltb n (length pushed) then drop 1 pushed else pushed

module _ {F : Type 0} where
  unfoldable pub update_oi_history : ConfluenceCalculator F → F → ConfluenceCalculator F
  update_oi_history s oi = record s { oi_history = push_window 24 s.oi_history oi }

  unfoldable pub update_vwap_history : ConfluenceCalculator F → F → F → ConfluenceCalculator F
  update_vwap_history s price volume = record s {
    vwap_history = push_window 3600 s.vwap_history (price, volume);
  }

  unfoldable pub update_atr_history : ConfluenceCalculator F → F → ConfluenceCalculator F
  update_atr_history s atr = record s { atr_history = push_window 14 s.atr_history atr }

module _ {F : Type 0} ⦃d : Double F⦄ where
  unfoldable pub check_hard_constraints : F → F → F → Bool → F → HardConstraints
  check_hard_constraints order_book_depth_long order_book_depth_short position_size
        exchange_latency_ok funding_delta =
      record {
        order_book_depth_sufficient =
            position_size ⊗ lit 2 0 ≼ order_book_depth_long
            && position_size ⊗ lit 2 0 ≼ order_book_depth_short;
        exchange_latency_ok = exchange_latency_ok;
        funding_delta_substantial = lit 1 4 ≺ abs funding_delta;
      }

  unfoldable pub calculate_obi : F → F → F
  calculate_obi bid_volume ask_volume =
      if bid_volume ⊕ ask_volume ≈ lit 0 0
      then lit 0 0
      else (bid_volume ⊖ ask_volume) ⊘ (bid_volume ⊕ ask_volume)

  unfoldable pub calculate_vwap_deviation : F → F → F
  calculate_vwap_deviation current_price vwap =
      if vwap ≈ lit 0 0 then lit 0 0 else (current_price ⊖ vwap) ⊘ vwap

  unfoldable pub calculate_atr : F → F → F → F → F
  calculate_atr high low close prev_close =
      let tr1 = high ⊖ low in
      let tr2 = abs (high ⊖ prev_close) in
      let tr3 = abs (low ⊖ prev_close) in fmax (fmax tr1 tr2) tr3

  -- `unwrap_or(0.0)`
  abbrev or_zero : Option F → F
  or_zero none = lit 0 0
  or_zero (some a) = a

  unfoldable pub get_atr_trend : ConfluenceCalculator F → Bool
  get_atr_trend s =
      let n = length s.atr_history in
      let recent_atr = or_zero (get_elem? s.atr_history (n - 1)) in
      let prev_atr = or_zero (get_elem? s.atr_history (n - 2)) in
      if ltb n 2 then false else recent_atr ≺ prev_atr

  -- The loop over the prices.
  abbrev min_distance_from : F → F → List F → F
  min_distance_from current_price min_distance [] = min_distance
  min_distance_from current_price min_distance (price ∷ prices) =
      let distance = abs (price ⊖ current_price) in
      min_distance_from current_price (if distance ≺ min_distance then distance else min_distance)
        prices

  -- `largest` is `f64::MAX`.
  unfoldable pub identify_liquidation_clusters : F → List F → F → F
  identify_liquidation_clusters largest [] current_price = lit 100 0
  identify_liquidation_clusters largest (p ∷ ps) current_price =
      let min_distance = min_distance_from current_price largest (p ∷ ps) in
      if current_price ≈ lit 0 0 then lit 100 0 else (min_distance ⊘ current_price) ⊗ lit 100 0
