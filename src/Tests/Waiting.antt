-- ===== src/Tests/Waiting.antt =====
-- Entries with real orders, on an exchange that never fills one.
use funding_spread_arbitrage.Prelude.{◌<◌, ◌≡◌, ◌≢◌, refl, false, Result, ok, err, arith}
use funding_spread_arbitrage.Double.{lit}
use funding_spread_arbitrage.Double.Fixed.{Fixed, fixed_double}
use funding_spread_arbitrage.Types.Order.{OrderSide, OrderStatus}
use funding_spread_arbitrage.Config.{from_confidence}
use funding_spread_arbitrage.Hedge.Backend.{ExecutionBackend}
use funding_spread_arbitrage.Entry.Desk.{
  Legs, EntryError, ◌>>=◌, choose, asked, pure, leg, one_leg_left,
}
use funding_spread_arbitrage.Entry.Hedging.{Step, next, again, stop}
use funding_spread_arbitrage.Entry.Polling.{turn}
use funding_spread_arbitrage.Entry.Real.{open_leg, execute_atomic_entry_real}
use funding_spread_arbitrage.Entry.Steady.{halted_by}
use funding_spread_arbitrage.Entry.Paired.{Paired}
use funding_spread_arbitrage.Entry.Ending.{entry_frees_locks, entry_halts, entry_leaves_no_leg}
use funding_spread_arbitrage.Entry.Timely.{IsTimed, Ended, entry_ends}
use funding_spread_arbitrage.Entry.Reprices.{turn_keeps_reprices}
use funding_spread_arbitrage.Tests.Exchanges.{Exchange, answering, test_clock}
use funding_spread_arbitrage.Tests.Trading.{desk, floor, chance, prepared}

instance abbrev pub waiting_exchange : ExecutionBackend Exchange Fixed
waiting_exchange = answering (
    ok record { status = OrderStatus.pending; filled_quantity = lit 0 0; total_quantity = lit 1 0 })

pub timed : IsTimed Exchange Fixed
timed = record {
  steady = record {
    stays = λ b. omega arith;
    joins = λ b b₁ b₂ h k. omega (arith, h, k);
    leverage = λ e s n b. omega arith;
    margins = λ e s b. omega arith;
    places = λ o b. omega arith;
    markets = λ o b. omega arith;
    cancels = λ e i b. omega arith;
    details = λ e i s b. omega arith;
    balances = λ e b. omega arith;
    depths = λ e s n b. omega arith;
    bids = λ e s b. omega arith;
    asks = λ e s b. omega arith;
    steps = λ e s b. omega arith;
    waits = λ n b. omega arith;
    names = λ b. omega arith;
  };
  sleeps = λ n b. omega arith;
}

entry_ends_example : Ended (execute_atomic_entry_real floor chance (lit 1000 0) (lit 50 0) 31 desk)
entry_ends_example = entry_ends timed floor chance (lit 1000 0) (lit 50 0) 30 desk (omega arith)

-- The outcome of the same entry.
ended : Ended (execute_atomic_entry_real floor chance (lit 1000 0) (lit 50 0) 31 desk)
ended = entry_ends timed floor chance (lit 1000 0) (lit 50 0) 30 desk (omega arith)

entry_frees_locks_example : ended.0.0.locks ≡ desk.locks
entry_frees_locks_example =
    entry_frees_locks floor chance (lit 1000 0) (lit 50 0) 31 desk ended.0 ended.1

entry_halts_example : ended.0.0.halted ≡ halted_by desk.halted ended.0.1
entry_halts_example = entry_halts floor chance (lit 1000 0) (lit 50 0) 31 desk ended.0 ended.1

entry_leaves_no_leg_example : ended.0.1 ≢ err one_leg_left
entry_leaves_no_leg_example =
    entry_leaves_no_leg floor chance (lit 1000 0) (lit 50 0) 31 desk ended.0 ended.1

abbrev legs : Legs Fixed
legs = record {
  long = open_leg prepared.long_order_template;
  short = open_leg prepared.short_order_template;
}

-- The legs after a turn, which moves both orders to the best prices.
abbrev legs_after : Result (EntryError Fixed) (Step Fixed) → Legs Fixed
legs_after (ok (next l)) = l
legs_after (ok (again l)) = l
legs_after (ok (stop l)) = l
legs_after (err e) = legs

moved : Legs Fixed
unfolding turn open_leg
moved = legs_after (turn prepared.config chance (lit 100 0) legs desk).1

moved_both : (moved.long.reprice_count ≡ 1) × (moved.short.reprice_count ≡ 1)
unfolding moved ◌>>=◌ choose asked pure from_confidence
moved_both = (refl, refl)

turn_keeps_reprices_example :
    Paired moved
    × ((side : OrderSide)
        → (leg side moved).filled ≡ false
        → (leg side moved).reprice_count < prepared.config.max_reprices)
unfolding moved turn open_leg ◌>>=◌ choose asked pure from_confidence
turn_keeps_reprices_example =
    turn_keeps_reprices prepared.config chance (lit 100 0) legs moved desk refl refl
