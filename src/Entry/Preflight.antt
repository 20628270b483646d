-- ===== src/Entry/Preflight.antt =====
-- `execute_atomic_entry_real` of src/strategy/entry.rs up to its orders: what is checked and prepared before
-- either leg is placed. The two depth checks that `tokio::join!` runs at once run one after the
-- other here. `floor` is that of `f64`.
use Prim.{Unit, tt}
use Prim.Native.String.{String}
use funding_spread_arbitrage.Prelude.{
  ℕ, Bool, ◌||◌, none, if◌then◌else◌, Result, ok, err, Action, pure, raise, map_err, ◌>>=◌, ◌>>◌,
}
use funding_spread_arbitrage.Double.{Double, lit, of_nat, fmin, fmax, ◌⊗◌, ◌⊘◌, ◌≺◌, ◌≼◌}
use funding_spread_arbitrage.Types.Order.{OrderSide, OrderType, OrderStatus, SimulatedOrder}
use funding_spread_arbitrage.Types.Trade.{ArbitrageOpportunity}
use funding_spread_arbitrage.Config.{ExecutionMode, RepricingConfig, from_confidence}
use funding_spread_arbitrage.Hedge.Backend.{ExecutionBackend, Clock}
use funding_spread_arbitrage.Hedge.Halt.{is_trading_halted}
use funding_spread_arbitrage.DepthChecker.{
  Cache, DepthCheckResult, check_depth_for_hedge, should_abort,
}

-- The texts of its errors, by what they print.
pub data PreflightError (F : Type 0) : Type 0 where
  trading_halted : PreflightError F
  not_positive : PreflightError F
  exceeds_capital : PreflightError F
  quantity_too_small : PreflightError F
  balance_failed : String → String → PreflightError F
  insufficient_balance : String → F → F → PreflightError F
  long_depth_failed : String → PreflightError F
  short_depth_failed : String → PreflightError F
  insufficient_depth : F → F → PreflightError F

-- What the rest of the entry goes on with.
pub record Prepared (F : Type 0) : Type 0 where
  pub contract_quantity : F
  pub long_order_template : SimulatedOrder F
  pub short_order_template : SimulatedOrder F
  pub config : RepricingConfig F
  pub now : ℕ
  pub depths : Cache F

module _ {F : Type 0} ⦃d : Double F⦄ where
  -- A quantity cut to the step of an exchange.
  abbrev pub rounded : (F → F) → F → F → F
  rounded floor quantity step = floor (quantity ⊘ step) ⊗ step

  abbrev pub limit_template : String → String → OrderSide → F → F → ℕ → SimulatedOrder F
  limit_template exchange symbol side price size now = record {
    id = "";
    exchange = exchange;
    symbol = symbol;
    side = side;
    order_type = OrderType.limit;
    price = price;
    size = size;
    queue_position = none;
    created_at = now;
    filled_at = none;
    fill_price = none;
    status = OrderStatus.pending;
  }

-- `unwrap_or`, and `let _ = …`
abbrev pub unwrap_or : {B E E' A : Type 0} → A → Action B E A → Action B E' A
unwrap_or a m b = let (b₁, r) = m b in elim r [ ok x ↦ (b₁, ok x) | err e ↦ (b₁, ok a) ]

abbrev pub ignored : {B E E' A : Type 0} → Action B E A → Action B E' Unit
ignored m b = ((m b).0, ok tt)

module _ {B F : Type 0} ⦃x : ExecutionBackend B F⦄ ⦃c : Clock B⦄ ⦃d : Double F⦄ where
  -- Steps 0: the balance of one exchange, with a fifth in reserve.
  abbrev pub balance_of : String → Action B (PreflightError F) F
  balance_of exchange = map_err (balance_failed exchange) (x.get_available_balance exchange)

  abbrev pub has_margin : String → F → F → Action B (PreflightError F) Unit
  has_margin exchange balance required_margin =
      if balance ≺ required_margin
      then raise (insufficient_balance exchange balance required_margin)
      else pure tt

  -- Steps 1 and 1.5, whose answers are not read.
  abbrev pub set_up : ArbitrageOpportunity F → Action B (PreflightError F) Unit
  set_up o =
      ignored (x.set_leverage o.long_exchange o.symbol 1)
      >> (ignored (x.set_leverage o.short_exchange o.symbol 1)
          >> (ignored (x.set_margin_type_isolated o.long_exchange o.symbol)
              >> ignored (x.set_margin_type_isolated o.short_exchange o.symbol)))

  abbrev pub enough_depth :
      Cache F → DepthCheckResult F → DepthCheckResult F → Action B (PreflightError F) (Cache F)
  enough_depth cache long_depth short_depth =
      if should_abort long_depth || should_abort short_depth
      then raise (insufficient_depth long_depth.depth_ratio short_depth.depth_ratio)
      else pure cache

  -- Both answers, the state where the long one is looked at, and the one behind the short check.
  abbrev pub judge_depths :
      Cache F
      → B
      → Result String (DepthCheckResult F)
      → Result String (DepthCheckResult F)
      → Action B (PreflightError F) (Cache F)
  judge_depths cache b_long (err e) short_result b = (b_long, err (long_depth_failed e))
  judge_depths cache b_long (ok long_depth) (err e) b = (b, err (short_depth_failed e))
  judge_depths cache b_long (ok long_depth) (ok short_depth) b =
      enough_depth cache long_depth short_depth b

  -- Step 1.6, with a new depth checker, whose cache is empty; the cache after it.
  unfoldable pub check_depths :
      ExecutionMode → ArbitrageOpportunity F → F → Action B (PreflightError F) (Cache F)
  unfolding check_depth_for_hedge should_abort
  check_depths ExecutionMode.ultra_fast o quantity b = (b, ok (λ key. none))
  check_depths ExecutionMode.balanced o quantity b =
      let (cache, b₁, long_result) =
        check_depth_for_hedge o.long_exchange o.symbol quantity (λ key. none) b in
      let (cache₂, b₂, short_result) =
        check_depth_for_hedge o.short_exchange o.symbol quantity cache b₁ in
      judge_depths cache₂ b₂ long_result short_result b₂
  check_depths ExecutionMode.safe o quantity b =
      let (cache, b₁, long_result) =
        check_depth_for_hedge o.long_exchange o.symbol quantity (λ key. none) b in
      let (cache₂, b₂, short_result) =
        check_depth_for_hedge o.short_exchange o.symbol quantity cache b₁ in
      judge_depths cache₂ b₁ long_result short_result b₂

  -- Steps 1 to 1.6, and what is prepared.
  abbrev pub with_depths :
      ArbitrageOpportunity F → ℕ → F → RepricingConfig F → Action B (PreflightError F) (Prepared F)
  with_depths o now contract_quantity config =
      check_depths config.execution_mode o contract_quantity >>= λ depths. pure record {
        contract_quantity = contract_quantity;
        long_order_template =
            limit_template o.long_exchange o.symbol OrderSide.long o.long_price contract_quantity
              now;
        short_order_template =
            limit_template o.short_exchange o.symbol OrderSide.short o.short_price contract_quantity
              now;
        config = config;
        now = now;
        depths = depths;
      }

  abbrev pub with_set_up : ArbitrageOpportunity F → ℕ → F → Action B (PreflightError F) (Prepared F)
  with_set_up o now contract_quantity =
      set_up o >> with_depths o now contract_quantity (from_confidence (of_nat o.confidence_score))

  abbrev pub with_balances :
      ArbitrageOpportunity F → F → ℕ → F → F → F → Action B (PreflightError F) (Prepared F)
  with_balances o position_size now contract_quantity long_balance short_balance =
      let required_margin = position_size ⊗ lit 12 1 in
      has_margin o.long_exchange long_balance required_margin
      >> (has_margin o.short_exchange short_balance required_margin
          >> with_set_up o now contract_quantity)

  abbrev pub with_long_balance :
      ArbitrageOpportunity F → F → ℕ → F → F → Action B (PreflightError F) (Prepared F)
  with_long_balance o position_size now contract_quantity long_balance =
      balance_of o.short_exchange
      >>= with_balances o position_size now contract_quantity long_balance

  -- Once the quantity is known.
  unfoldable pub prepare :
      ArbitrageOpportunity F → F → ℕ → F → Action B (PreflightError F) (Prepared F)
  unfolding check_depths from_confidence
  prepare o position_size now contract_quantity =
      if contract_quantity ≼ lit 0 0
      then raise quantity_too_small
      else balance_of o.long_exchange >>= with_long_balance o position_size now contract_quantity

  module _ (floor : F → F) where
    -- The smaller of the quantities that the steps of both exchanges allow.
    abbrev pub smaller : ArbitrageOpportunity F → F → F → F → Action B (PreflightError F) F
    smaller o position_size long_step short_step =
        let max_price = fmax o.long_price o.short_price in
        let raw_contract_quantity = position_size ⊘ max_price in
        pure (
          fmin (rounded floor raw_contract_quantity long_step)
            (rounded floor raw_contract_quantity short_step))

    abbrev pub with_long_step : ArbitrageOpportunity F → F → F → Action B (PreflightError F) F
    with_long_step o position_size long_step =
        unwrap_or (lit 1 1) (x.get_quantity_step o.short_exchange o.symbol)
        >>= smaller o position_size long_step

    unfoldable pub contract_quantity_for :
        ArbitrageOpportunity F → F → Action B (PreflightError F) F
    contract_quantity_for o position_size =
        unwrap_or (lit 1 1) (x.get_quantity_step o.long_exchange o.symbol)
        >>= with_long_step o position_size

    unfoldable pub preflight :
        Bool → ArbitrageOpportunity F → F → F → Action B (PreflightError F) (Prepared F)
    unfolding contract_quantity_for prepare is_trading_halted
    preflight halted o available_capital position_size b =
        if is_trading_halted halted
        then (b, err trading_halted)
        else if position_size ≼ lit 0 0
        then (b, err not_positive)
        else if available_capital ≺ position_size
        then (b, err exceeds_capital)
        else (contract_quantity_for o position_size >>= prepare o position_size (c.unix_secs b)) b
