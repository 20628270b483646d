-- ===== src/Entry/Real.antt =====
-- `execute_atomic_entry_real` of src/strategy/entry.rs: the checks of Preflight, the placing of both orders,
-- the loop of Polling, the hedges of Final, and the trade with its exit orders.
use Prim.Native.String.{String}
use funding_spread_arbitrage.Prelude.{
  ℕ, ◌*◌, ◌%◌, ◌^◌, false, not, ◌||◌, Option, none, some, Result, ok, err,
}
use funding_spread_arbitrage.Double.{Double, lit, ◌⊕◌, ◌⊖◌, ◌⊗◌}
use funding_spread_arbitrage.Types.Order.{OrderSide, OrderType, SimulatedOrder}
use funding_spread_arbitrage.Types.Trade.{ArbitrageOpportunity, PaperTrade, TradeStatus}
use funding_spread_arbitrage.Config.{RepricingConfig}
use funding_spread_arbitrage.Hedge.Backend.{ExecutionBackend, Clock}
use funding_spread_arbitrage.PriceChaser.{new}
use funding_spread_arbitrage.Entry.Preflight.{Prepared, preflight}
use funding_spread_arbitrage.Entry.Desk.{
  Desk, Leg, Legs, EntryError, Entry, pure, raise, ◌>>=◌, ◌>>◌, carry_on, choose, asked, new_order,
  refused, long_order_failed, short_order_failed, one_leg_left,
}
use funding_spread_arbitrage.Entry.Hedging.{unix_secs, cancel}
use funding_spread_arbitrage.Entry.Polling.{spread_bps, poll_both}
use funding_spread_arbitrage.Entry.Final.{last_look, hedge_if_alone}

module _ {F : Type 0} where
  abbrev to_option : Result String (SimulatedOrder F) → Option (SimulatedOrder F)
  to_option (ok o) = some o
  to_option (err e) = none

module _ {F : Type 0} ⦃d : Double F⦄ where
  unfoldable pub open_leg : SimulatedOrder F → Leg F
  unfolding new
  open_leg order = record {
    order = order;
    filled = false;
    reprice_count = 0;
    metrics = new order.price;
  }

  -- The prices at which a trade takes its profit: those of the opportunity, moved by nine tenths
  -- of the spread.
  abbrev pub target_capture : ArbitrageOpportunity F → F
  target_capture o = (o.short_price ⊖ o.long_price) ⊗ lit 9 1

  abbrev pub stop_loss_spread : ArbitrageOpportunity F → F
  stop_loss_spread o = (o.short_price ⊖ o.long_price) ⊗ lit 13 1

  unfoldable pub new_trade :
      ArbitrageOpportunity F
      → F
      → ℕ
      → String
      → Legs F
      → Option (SimulatedOrder F)
      → Option (SimulatedOrder F)
      → PaperTrade F
  unfolding spread_bps
  new_trade o position_size now trade_id l long_exit_order short_exit_order = record {
    id = trade_id;
    symbol = o.symbol;
    long_exchange = o.long_exchange;
    short_exchange = o.short_exchange;
    entry_time = now;
    entry_long_price = o.long_price;
    entry_short_price = o.short_price;
    entry_spread_bps = spread_bps o.long_price o.short_price;
    position_size_usd = position_size;
    funding_delta_entry = o.funding_delta_8h;
    projected_profit_usd = o.projected_profit_after_slippage;
    actual_profit_usd = lit 0 0;
    status = TradeStatus.active;
    exit_reason = none;
    exit_spread_bps = none;
    exit_time = none;
    long_order = l.long.order;
    short_order = l.short.order;
    long_exit_order = long_exit_order;
    short_exit_order = short_exit_order;
    stop_loss_triggered = false;
    stop_loss_long_price = o.short_price ⊖ stop_loss_spread o;
    stop_loss_short_price = o.long_price ⊕ stop_loss_spread o;
    leg_out_event = none;
  }

  -- The product is a `u64`.
  abbrev pub timeout_ms : RepricingConfig F → ℕ
  timeout_ms config = (config.total_timeout_seconds * 1000) % 2 ^ 64

module _ {B F : Type 0} ⦃x : ExecutionBackend B F⦄ ⦃c : Clock B⦄ ⦃d : Double F⦄ where
  -- Both limit orders were placed, or not.
  unfoldable pub judge_placed :
      Result String (SimulatedOrder F) → Result String (SimulatedOrder F) → Entry B F (Legs F)
  unfolding open_leg
  judge_placed (err e) short = raise (long_order_failed e)
  judge_placed (ok long) (err e) = do cancel long.exchange long.id; raise (short_order_failed e)
  judge_placed (ok long) (ok short) = pure (record { long = open_leg long; short = open_leg short })

  unfoldable pub place_both : Prepared F → Entry B F (Legs F)
  unfolding judge_placed
  place_both p = do
    long ← asked (x.place_order p.long_order_template)
    short ← asked (x.place_order p.short_order_template)
    judge_placed long short

  -- Both legs have filled: the exit orders and the trade.
  unfoldable pub open_trade : ArbitrageOpportunity F → F → ℕ → Legs F → Entry B F (PaperTrade F)
  unfolding new_trade
  open_trade o position_size now l = do
    trade_id ← asked c.new_uuid
    t₁ ← unix_secs
    t₂ ← unix_secs
    long_exit ← asked (
        x.place_order (
          new_order "" o.long_exchange o.symbol OrderSide.short OrderType.limit
            (o.long_price ⊕ target_capture o) l.long.order.size t₁))
    short_exit ← asked (
        x.place_order (
          new_order "" o.short_exchange o.symbol OrderSide.long OrderType.limit
            (o.short_price ⊖ target_capture o) l.short.order.size t₂))
    pure (new_trade o position_size now trade_id l (to_option long_exit) (to_option short_exit))

  -- What follows the loop.
  unfoldable pub conclude : ArbitrageOpportunity F → F → ℕ → Legs F → Entry B F (PaperTrade F)
  unfolding last_look hedge_if_alone open_trade
  conclude o position_size now l = do
    l₁ ← last_look o l
    l₂ ← hedge_if_alone OrderSide.long o l₁
    l₃ ← hedge_if_alone OrderSide.short o l₂
    choose (not l₃.long.filled || not l₃.short.filled) (raise one_leg_left)
        (open_trade o position_size now l₃)

  -- From the orders to the trade; `none` says that the fuel of the loop is spent.
  unfoldable pub enter :
      ArbitrageOpportunity F
      → F
      → ℕ
      → Prepared F
      → Desk B F
      → Option (Desk B F × Result (EntryError F) (PaperTrade F))
  unfolding place_both poll_both conclude
  enter o position_size fuel p s =
      let (s₁, placed) = place_both p s in
      elim placed [
        | err e ↦ some (s₁, err e)
        | ok l ↦
            elim (poll_both p.config o (spread_bps o.long_price o.short_price)
              (c.instant s₁.exchanges) (timeout_ms p.config) fuel l s₁) [
                | none ↦ none
                | some r ↦ some (carry_on (conclude o position_size p.now) r)
              ]
      ]

  module _ (floor : F → F) where
    unfoldable pub execute_atomic_entry_real :
        ArbitrageOpportunity F
        → F
        → F
        → ℕ
        → Desk B F
        → Option (Desk B F × Result (EntryError F) (PaperTrade F))
    unfolding preflight enter
    execute_atomic_entry_real o available_capital position_size fuel s =
        let (b, checked) = preflight floor s.halted o available_capital position_size s.exchanges in
        elim checked [
          | err e ↦ some (record s { exchanges = b }, err (refused e))
          | ok p ↦ enter o position_size fuel p (record s { exchanges = b; depths = p.depths })
        ]
