-- ===== src/Portfolio.antt =====
-- `PortfolioManager` of src/strategy/portfolio.rs. `open_trade` and `close_trade` take `&mut self`,
-- so no other change falls between the parts of a call. The calls of Redis are an argument that
-- says which of them fail, and the clock is another.
pub mod Ledger
use Prim.Native.String.{String}
use text.Mathlib.Text.{◌==◌ as same_text}
use funding_spread_arbitrage.Prelude.{
  ℕ, suc, ◌+◌, ◌-◌, ◌%◌, ◌^◌, Bool, true, false, not, ◌&&◌, List, [], ◌∷◌, ◌++◌, Option, none, some,
  ltb, ◌==◌, remove_first, if◌then◌else◌,
}
use funding_spread_arbitrage.Double.{Double, lit, of_nat, abs, ◌⊕◌, ◌⊖◌, ◌⊗◌, ◌⊘◌, ◌≺◌, ◌≈◌}
use funding_spread_arbitrage.Types.Trade.{PaperTrade, TradeStatus, PortfolioState, LegOutEvent}
use funding_spread_arbitrage.Pipeline.Backlog.{inc}

-- Whether a command of `log_trade_entry`, `log_trade_exit` or `persist_state` succeeds.
pub record Redis (F : Type 0) : Type 0 where
  pub logs : PaperTrade F → Bool
  pub persists : PortfolioState F → Bool

-- `Ok(())`, and the two kinds of `Err`.
pub data Outcome : Type 0 where
  ok : Outcome
  exceeds_capital : Outcome
  redis_error : Outcome

pub record PortfolioMetrics (F : Type 0) : Type 0 where
  pub total_trades : ℕ
  pub win_rate : F
  pub cumulative_pnl : F
  pub pnl_percentage : F
  pub available_capital : F
  pub utilization_pct : F
  pub leg_out_count : ℕ
  pub leg_out_loss_pct : F
  pub realistic_apr : F

module _ {F : Type 0} where
  -- `log_trade_…(..).await?; persist_state().await?; Ok(())`
  abbrev pub stored : Redis F → PaperTrade F → PortfolioState F → Outcome
  stored r trade s =
      if r.logs trade then (if r.persists s then ok else redis_error) else redis_error

  abbrev has_leg_out : PaperTrade F → Bool
  has_leg_out t = elim t.leg_out_event [ none ↦ false | some _ ↦ true ]

  -- `position` of the trade with an id, and its `remove`
  unfoldable pub remove_trade :
      String → List (PaperTrade F) → Option (PaperTrade F × List (PaperTrade F))
  remove_trade trade_id ts = remove_first (λ t. same_text t.id trade_id) ts

module _ {F : Type 0} ⦃d : Double F⦄ where
  unfoldable pub new : F → PortfolioState F
  new starting_capital = record {
    starting_capital = starting_capital;
    available_capital = starting_capital;
    total_open_positions = lit 0 0;
    active_trades = [];
    closed_trades = [];
    cumulative_pnl = lit 0 0;
    win_count = 0;
    loss_count = 0;
    leg_out_count = 0;
    leg_out_total_loss = lit 0 0;
    last_updated = 0;
  }

  abbrev pub opened : PortfolioState F → PaperTrade F → PortfolioState F
  opened s trade = record s {
    available_capital = s.available_capital ⊖ trade.position_size_usd;
    total_open_positions = s.total_open_positions ⊕ trade.position_size_usd;
    active_trades = s.active_trades ++ trade ∷ [];
  }

  unfoldable pub open_trade : Redis F → PortfolioState F → PaperTrade F → PortfolioState F × Outcome
  open_trade r s trade =
      if s.available_capital ≺ trade.position_size_usd
      then (s, exceeds_capital)
      else if s.available_capital ≺ trade.position_size_usd
      then (s, exceeds_capital)
      else (opened s trade, stored r trade (opened s trade))

  abbrev pub exited : PaperTrade F → F → String → ℕ → PaperTrade F
  exited t actual_profit exit_reason exit_time = record t {
    actual_profit_usd = actual_profit;
    exit_reason = some exit_reason;
    status = TradeStatus.closed;
    exit_time = some exit_time;
  }

  -- the state after the write lock
  abbrev settle : PortfolioState F → PaperTrade F → List (PaperTrade F) → F → PortfolioState F
  settle s trade remaining actual_profit = record s {
    active_trades = remaining;
    total_open_positions = s.total_open_positions ⊖ trade.position_size_usd;
    available_capital = s.available_capital ⊕ (trade.position_size_usd ⊕ actual_profit);
    cumulative_pnl = s.cumulative_pnl ⊕ actual_profit;
    leg_out_total_loss =
        if has_leg_out trade && actual_profit ≺ lit 0 0
        then s.leg_out_total_loss ⊕ abs actual_profit
        else s.leg_out_total_loss;
    closed_trades = s.closed_trades ++ trade ∷ [];
  }

  -- the atomic counters behind it
  abbrev count : PortfolioState F → PaperTrade F → F → PortfolioState F
  count s trade actual_profit = record s {
    win_count = if lit 0 0 ≺ actual_profit then inc s.win_count else s.win_count;
    loss_count = if lit 0 0 ≺ actual_profit then s.loss_count else inc s.loss_count;
    leg_out_count =
        if has_leg_out trade && actual_profit ≺ lit 0 0
        then inc s.leg_out_count
        else s.leg_out_count;
  }

  unfoldable pub close_trade :
      Redis F → PortfolioState F → String → F → String → ℕ → PortfolioState F × Outcome
  unfolding remove_trade
  close_trade r s trade_id actual_profit exit_reason exit_time =
      elim (remove_trade trade_id s.active_trades) [
        | none ↦ (s, ok)
        | some (t, remaining) ↦
            let trade = exited t actual_profit exit_reason exit_time in
            let s' = count (settle s trade remaining actual_profit) trade actual_profit in
            (s', stored r trade s')
      ]

  -- The difference of the two times is one of `u64`.
  unfoldable pub get_portfolio_metrics : PortfolioState F → ℕ → ℕ → PortfolioMetrics F
  get_portfolio_metrics s start_time now =
      let total_trades = (s.win_count + s.loss_count) % 2 ^ 64 in
      let days_elapsed : F = of_nat ((now + 2 ^ 64 - start_time) % 2 ^ 64) ⊘ lit 86_400 0 in
      record {
        total_trades = total_trades;
        win_rate =
            if ltb 0 total_trades
            then (of_nat s.win_count ⊘ of_nat total_trades) ⊗ lit 100 0
            else lit 0 0;
        cumulative_pnl = s.cumulative_pnl;
        pnl_percentage = (s.cumulative_pnl ⊘ s.starting_capital) ⊗ lit 100 0;
        available_capital = s.available_capital;
        utilization_pct = (s.total_open_positions ⊘ s.starting_capital) ⊗ lit 100 0;
        leg_out_count = s.leg_out_count;
        leg_out_loss_pct =
            if s.cumulative_pnl ≈ lit 0 0
            then lit 0 0
            else (s.leg_out_total_loss ⊘ abs s.cumulative_pnl) ⊗ lit 100 0;
        realistic_apr =
            if lit 0 0 ≺ days_elapsed
            then ((s.cumulative_pnl ⊘ s.starting_capital) ⊘ (days_elapsed ⊘ lit 365 0)) ⊗ lit 100 0
            else lit 0 0;
      }
