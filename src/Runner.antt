-- ===== src/Runner.antt =====
-- `StrategyRunner` of src/strategy/runner.rs: what it does with an opportunity that the detector has
-- queued, `execute_opportunity`. The exchanges, the halt, the hedge locks and the depth cache are
-- those of an entry.
pub mod Trades
pub mod Checks
pub mod Named
pub mod Counts
pub mod OneTrade
pub mod Ends
use Prim.Native.String.{String, ◌++◌ as ◌<>◌}
use text.Mathlib.Text.{◌==◌ as same_text}
use funding_spread_arbitrage.Prelude.{
  ℕ, Bool, true, false, ◌&&◌, ◌||◌, List, [], ◌∷◌, Option, none, some, Result, ok, err,
  if◌then◌else◌,
}
use funding_spread_arbitrage.Double.{Double, lit, ◌⊕◌, ◌⊖◌, ◌⊗◌, ◌⊘◌, ◌≺◌, ◌≼◌}
use funding_spread_arbitrage.Types.Order.{OrderSide, OrderType, OrderStatus, SimulatedOrder}
use funding_spread_arbitrage.Types.Trade.{
  ArbitrageOpportunity, TradeStatus, PaperTrade, PortfolioState,
}
use funding_spread_arbitrage.DashMap.{DashMap}
use funding_spread_arbitrage.SymbolMap.{SymbolMap, Pair, get_or_insert}
use funding_spread_arbitrage.MarketData.{MarketDataStore, get_ask, get_bid}
use funding_spread_arbitrage.Branchless.{calculate_spread_bps}
use funding_spread_arbitrage.Portfolio.{Redis, open_trade}
use funding_spread_arbitrage.Hedge.Backend.{ExecutionBackend, Clock}
use funding_spread_arbitrage.Entry.Sizing.{calculate_position_size}
use funding_spread_arbitrage.Entry.Paper.{EntryError, execute_atomic_entry}
use funding_spread_arbitrage.Entry.Desk.{Desk, EntryError as RealError}
use funding_spread_arbitrage.Entry.Real.{execute_atomic_entry_real}
use funding_spread_arbitrage.Runner.Trades.{TradeMap}
use funding_spread_arbitrage.Runner.Checks.{
  is_real_trading, Assessed, is_open, occupies, any_occupies, placeholder_trade,
  get_exchange_taker_fee, both_prices, assess, projected,
}

pub record StrategyRunner (B F T M N : Type 0) : Type 0 where
  pub desk : Desk B F
  pub active_trades : T
  pub portfolio : PortfolioState F
  pub symbol_map : SymbolMap M N
  pub market_data_store : MarketDataStore F

module _ {B F : Type 0} where
  abbrev pub real_result :
      Option (Desk B F × Result (RealError F) (PaperTrade F))
      → Option (Desk B F × Option (PaperTrade F))
  real_result none = none
  real_result (some (s, ok trade)) = some (s, some trade)
  real_result (some (s, err e)) = some (s, none)

  abbrev pub paper_result :
      Desk B F → B × Result EntryError (PaperTrade F) → Option (Desk B F × Option (PaperTrade F))
  paper_result s (b, ok trade) = some (record s { exchanges = b }, some trade)
  paper_result s (b, err e) = some (record s { exchanges = b }, none)

module _ {B F : Type 0} ⦃x : ExecutionBackend B F⦄ ⦃c : Clock B⦄ ⦃d : Double F⦄ where
  module _ (floor : F → F) (to_lowercase : String → String) where
    -- The entry, with real orders or simulated; `none` says that the fuel is spent.
    unfoldable pub enter_trade :
        Bool
        → ArbitrageOpportunity F
        → Assessed F
        → ℕ
        → Desk B F
        → Option (Desk B F × Option (PaperTrade F))
    unfolding execute_atomic_entry_real execute_atomic_entry
    enter_trade true o a fuel s =
        real_result (execute_atomic_entry_real floor o a.available_capital a.position_size fuel s)
    enter_trade false o a fuel s =
        paper_result s
          (execute_atomic_entry to_lowercase o a.available_capital a.position_size s.exchanges)

module _ {B F T M N : Type 0} ⦃x : ExecutionBackend B F⦄ ⦃c : Clock B⦄ ⦃d : Double F⦄
    ⦃m : TradeMap T F⦄ ⦃t : DashMap M Pair ℕ⦄ ⦃f : DashMap N ℕ Pair⦄ where
  -- The prices, or nothing, and the map of symbols, in which both pairs now have ids.
  unfoldable pub get_prices_from_store :
      StrategyRunner B F T M N
      → String
      → String
      → String
      → StrategyRunner B F T M N × Option (F × F)
  unfolding get_or_insert get_ask get_bid
  get_prices_from_store r pair long_exchange short_exchange =
      let (s₁, long_symbol_id) = get_or_insert r.symbol_map long_exchange pair in
      let (s₂, short_symbol_id) = get_or_insert s₁ short_exchange pair in
      (
        record r { symbol_map = s₂ },
        both_prices (get_ask r.market_data_store long_symbol_id)
            (get_bid r.market_data_store short_symbol_id),
      )

  module _ (redis : Redis F) where
    -- The placeholder gives way to the trade. An error of the portfolio is only printed.
    unfoldable pub after_entry :
        StrategyRunner B F T M N
        → String
        → Assessed F
        → Desk B F × Option (PaperTrade F)
        → StrategyRunner B F T M N
    unfolding open_trade
    after_entry r id a (s, none) = record r {
      desk = s;
      active_trades = m.remove r.active_trades id;
    }
    after_entry r id a (s, some trade) =
        let trade' = projected a trade in
        record r {
          desk = s;
          active_trades = m.insert (m.remove r.active_trades id) trade'.id trade';
          portfolio = (open_trade redis r.portfolio trade').0;
        }

  module _ (floor : F → F) (to_lowercase : String → String) (redis : Redis F) where
    -- After the placeholder has been entered under the id.
    unfoldable pub reserved :
        ArbitrageOpportunity F
        → ℕ
        → String
        → StrategyRunner B F T M N
        → Option (StrategyRunner B F T M N)
    unfolding get_prices_from_store assess enter_trade after_entry
    reserved o fuel id r =
        let (r₁, prices) = get_prices_from_store r o.symbol o.long_exchange o.short_exchange in
        elim (assess to_lowercase r₁.portfolio o prices) [
          | none ↦ some (record r₁ { active_trades = m.remove r₁.active_trades id })
          | some a ↦
              elim (enter_trade floor to_lowercase (is_real_trading x.backend_name) o a fuel
                r₁.desk) [ none ↦ none | some e ↦ some (after_entry redis r₁ id a e) ]
        ]

    unfoldable pub execute_opportunity :
        ArbitrageOpportunity F → ℕ → StrategyRunner B F T M N → Option (StrategyRunner B F T M N)
    unfolding any_occupies reserved
    execute_opportunity o fuel r =
        if any_occupies o.symbol (m.entries r.active_trades)
        then some r
        else (let (b, name) = c.new_uuid r.desk.exchanges in
            let id = "placeholder_" <> name in
            reserved o fuel id (record r {
              desk = record r.desk { exchanges = b };
              active_trades = m.insert r.active_trades id (placeholder_trade o id);
            }))
