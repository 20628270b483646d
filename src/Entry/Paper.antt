-- ===== src/Entry/Paper.antt =====
-- `execute_atomic_entry` of src/strategy/entry.rs, the entry that simulates its fills. The numbers that
-- the texts of its errors print are left out of them.
use Prim.Native.String.{String}
use text.Mathlib.Text.{◌==◌ as same_text}
use funding_spread_arbitrage.Prelude.{
  ℕ, Bool, true, false, not, none, if◌then◌else◌, ok, err, Action, pure, ◌>>=◌,
}
use funding_spread_arbitrage.Double.{Double, lit, ◌⊖◌, ◌⊗◌, ◌⊘◌, ◌≺◌, ◌≼◌}
use funding_spread_arbitrage.Types.Order.{OrderSide, SimulatedOrder}
use funding_spread_arbitrage.Types.Trade.{ArbitrageOpportunity, PaperTrade, TradeStatus}
use funding_spread_arbitrage.Hedge.Backend.{Clock}
use funding_spread_arbitrage.Entry.Sizing.{identify_harder_leg}
use funding_spread_arbitrage.Entry.Orders.{create_limit_order, simulate_order_fill}

pub data EntryError : Type 0 where
  not_positive : EntryError
  exceeds_capital : EntryError
  harder_unfilled : OrderSide → String → EntryError
  easier_unfilled : OrderSide → String → EntryError

abbrev pub is_long : OrderSide → Bool
is_long OrderSide.long = true
is_long OrderSide.short = false

module _ {B F : Type 0} ⦃c : Clock B⦄ ⦃d : Double F⦄ where
  -- Steps 1 to 4: the harder leg, then the easier one.
  unfoldable pub fill_legs :
      ArbitrageOpportunity F
      → SimulatedOrder F
      → SimulatedOrder F
      → Action B EntryError (SimulatedOrder F × SimulatedOrder F)
  unfolding simulate_order_fill
  fill_legs opportunity harder_order easier_order b =
      let now = c.unix_secs b in
      let harder_cumulative_volume = opportunity.order_book_depth_long ⊗ lit 25 2 in
      let (harder, harder_filled) = simulate_order_fill harder_order harder_cumulative_volume now in
      let easier_cumulative_volume =
        if is_long easier_order.side
        then opportunity.order_book_depth_long ⊗ lit 30 2
        else opportunity.order_book_depth_short ⊗ lit 30 2 in
      let (easier, easier_filled) = simulate_order_fill easier_order easier_cumulative_volume now in
      if not harder_filled
      then (b, err (harder_unfilled harder.side harder.exchange))
      else if not easier_filled
      then (b, err (easier_unfilled easier.side easier.exchange))
      else (b, ok (harder, easier))

  -- The two orders, long and short, whichever is the harder one.
  unfoldable pub fill_in_order :
      Bool
      → ArbitrageOpportunity F
      → SimulatedOrder F
      → SimulatedOrder F
      → Action B EntryError (SimulatedOrder F × SimulatedOrder F)
  unfolding fill_legs
  fill_in_order true opportunity long_order short_order b =
      fill_legs opportunity long_order short_order b
  fill_in_order false opportunity long_order short_order b =
      (fill_legs opportunity short_order long_order >>= λ legs. pure (legs.1, legs.0)) b

  -- Step 5, for the two legs, long and short.
  unfoldable pub create_trade :
      ArbitrageOpportunity F
      → F
      → ℕ
      → SimulatedOrder F × SimulatedOrder F
      → Action B EntryError (PaperTrade F)
  create_trade opportunity position_size now legs b =
      let (b₁, trade_id) = c.new_uuid b in
      (
        b₁,
        ok record {
          id = trade_id;
          symbol = opportunity.symbol;
          long_exchange = opportunity.long_exchange;
          short_exchange = opportunity.short_exchange;
          entry_time = now;
          entry_long_price = opportunity.long_price;
          entry_short_price = opportunity.short_price;
          entry_spread_bps =
              ((opportunity.short_price ⊖ opportunity.long_price) ⊘ opportunity.long_price)
              ⊗ lit 10000 0;
          position_size_usd = position_size;
          funding_delta_entry = opportunity.funding_delta_8h;
          projected_profit_usd = opportunity.projected_profit_after_slippage;
          actual_profit_usd = lit 0 0;
          status = TradeStatus.active;
          exit_reason = none;
          exit_spread_bps = none;
          exit_time = none;
          long_order = legs.0;
          short_order = legs.1;
          long_exit_order = none;
          short_exit_order = none;
          stop_loss_triggered = false;
          stop_loss_long_price = lit 0 0;
          stop_loss_short_price = lit 0 0;
          leg_out_event = none;
        },
      )

  unfoldable pub execute_atomic_entry :
      (String → String) → ArbitrageOpportunity F → F → F → Action B EntryError (PaperTrade F)
  unfolding create_limit_order fill_in_order create_trade identify_harder_leg
  execute_atomic_entry to_lowercase opportunity available_capital position_size b =
      let harder_leg =
        identify_harder_leg to_lowercase opportunity.long_exchange opportunity.short_exchange in
      let now = c.unix_secs b in
      let (b₁, long_order) =
        create_limit_order opportunity.long_exchange opportunity.symbol OrderSide.long
          opportunity.long_price position_size opportunity.order_book_depth_long b in
      let (b₂, short_order) =
        create_limit_order opportunity.short_exchange opportunity.symbol OrderSide.short
          opportunity.short_price position_size opportunity.order_book_depth_short b₁ in
      let harder_leg_is_long = same_text harder_leg "long" in
      if position_size ≼ lit 0 0
      then (b, err not_positive)
      else if available_capital ≺ position_size
      then (b, err exceeds_capital)
      else (fill_in_order harder_leg_is_long opportunity long_order short_order
            >>= create_trade opportunity position_size now)
          b₂
