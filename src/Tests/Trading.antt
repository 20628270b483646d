-- ===== src/Tests/Trading.antt =====
-- Entries with real orders, on an exchange that fills every order at once.
use funding_spread_arbitrage.Prelude.{◌≡◌, refl, true, false, [], none, some, ok}
use funding_spread_arbitrage.Double.{lit, ◌⊖◌}
use funding_spread_arbitrage.Double.Fixed.{Fixed, fixed_double}
use funding_spread_arbitrage.Types.Order.{OrderSide, OrderStatus, OrderStatusInfo, is_fully_filled}
use funding_spread_arbitrage.Hedge.Backend.{ExecutionBackend}
use funding_spread_arbitrage.Entry.Desk.{Desk, Legs}
use funding_spread_arbitrage.Entry.Hedging.{settle}
use funding_spread_arbitrage.Entry.Balanced.{Closed, GoesOn, settled_sizes}
use funding_spread_arbitrage.Types.Trade.{ArbitrageOpportunity, PaperTrade}
use funding_spread_arbitrage.Config.{from_confidence}
use funding_spread_arbitrage.Entry.Preflight.{Prepared, limit_template, preflight}
use funding_spread_arbitrage.Entry.Prompt.{IsPrompt}
use funding_spread_arbitrage.Entry.Opened.{IsOpened, entry_opens}
use funding_spread_arbitrage.Entry.Real.{open_leg, execute_atomic_entry_real}
use funding_spread_arbitrage.Tests.Exchanges.{Exchange, opened, answering, test_clock}
use funding_spread_arbitrage.Tests.Entries.{opportunity}

abbrev full : OrderStatusInfo Fixed
full = record { status = OrderStatus.filled; filled_quantity = lit 1 0; total_quantity = lit 1 0 }

abbrev pub filling : ExecutionBackend Exchange Fixed
filling = answering (ok full)

abbrev pub desk : Desk Exchange Fixed
desk = record {
  exchanges = opened;
  halted = false;
  locks = record { locks = []; held = [] };
  depths = λ key. none;
}

abbrev pub floor : Fixed → Fixed
floor a = a

abbrev pub chance : ArbitrageOpportunity Fixed
chance = opportunity (lit 1000 0) (lit 900 0)

abbrev pub prepared : Prepared Fixed
prepared = record {
  contract_quantity = lit 495049 6;
  long_order_template = limit_template "okx" "BTCUSDT" OrderSide.long (lit 100 0) (lit 495049 6) 0;
  short_order_template =
      limit_template "paradex" "BTCUSDT" OrderSide.short (lit 101 0) (lit 495049 6) 0;
  config = from_confidence (lit 95 0);
  now = 0;
  depths = λ key. none;
}

instance abbrev filling_exchange : ExecutionBackend Exchange Fixed
filling_exchange = filling

prompt : IsPrompt Exchange Fixed
unfolding is_fully_filled
prompt = record { places = λ o b. (o, refl); fills = λ e i s b. (full, refl, refl) }

entry_opens_example :
    (s' : Desk Exchange Fixed) × (t : PaperTrade Fixed) × (execute_atomic_entry_real floor chance
        (lit 1000 0)
        (lit 50 0)
        2
        desk
      ≡ some (s', ok t))
    × IsOpened t
unfolding preflight
entry_opens_example =
    entry_opens prompt floor chance (lit 1000 0) (lit 50 0) 0 desk prepared opened refl refl

-- Two legs, of which the long one is seen to have filled first.
abbrev pub legs : Legs Fixed
legs = record {
  long = record (open_leg prepared.long_order_template) { filled = true };
  short = open_leg prepared.short_order_template;
}

settled_sizes_example :
    Closed chance OrderSide.short
      (lit {F = Fixed} 2 0 ⊖ lit 1 0)
      desk
      (GoesOn OrderSide.long OrderSide.short (lit 1 0) (lit 2 0) legs)
      (settle OrderSide.long chance (lit 1 0) (lit 2 0) legs desk)
settled_sizes_example =
    settled_sizes (λ o b. (o, refl)) OrderSide.long OrderSide.short chance (lit 1 0) (lit 2 0) legs
      desk refl refl
