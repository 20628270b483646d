-- ===== src/Tests/Stranded.antt =====
-- An entry with real orders where the exchange of the long leg refuses its order.
use text.Mathlib.Text.{◌==◌ as same_text}
use text.Mathlib.TextEquality.{eq_iff}
use funding_spread_arbitrage.Prelude.{
  arith, ◌≡◌, refl, inl, inr, false, Bool-cases, some, suc, Result, ok, err, if◌then◌else◌,
}
use funding_spread_arbitrage.Double.{lit}
use funding_spread_arbitrage.Double.Fixed.{Fixed, fixed_double}
use funding_spread_arbitrage.Types.Trade.{PaperTrade}
use funding_spread_arbitrage.Hedge.Backend.{ExecutionBackend}
use funding_spread_arbitrage.Entry.Preflight.{preflight}
use funding_spread_arbitrage.Entry.Desk.{Desk, EntryError}
use funding_spread_arbitrage.Entry.Real.{execute_atomic_entry_real}
use funding_spread_arbitrage.Entry.Stranded.{IsRefusing, EndsStranded, short_order_stranded}
use funding_spread_arbitrage.Tests.Exchanges.{Exchange, opened, limits, test_clock}
use funding_spread_arbitrage.Tests.Trading.{filling, desk, floor, chance, prepared}

instance abbrev refusing_exchange : ExecutionBackend Exchange Fixed
refusing_exchange = record filling {
  place_order = λ o b.
      if same_text o.exchange "okx"
      then (b, err "refused")
      else (record b { placed = suc b.placed }, ok o);
}

refusing : IsRefusing Fixed "okx" limits
refusing = record {
  asking = record {
    balances = λ e b. refl;
    steps = λ e s b. refl;
    leverage = λ e s n b. refl;
    margins = λ e s b. refl;
    depths = λ e s n b. refl;
  };
  refuses = λ o b h. let p = (eq_iff o.exchange "okx").1 h in rw p (("refused", refl), refl);
  takes = λ o b h. elim (Bool-cases (same_text o.exchange "okx")) [
    | inl p ↦ absurd (h ((eq_iff o.exchange "okx").0 p))
    | inr p ↦ rw p ((o, refl), refl)
  ];
}

short_order_stranded_example :
    (r : Desk Exchange Fixed × Result (EntryError Fixed) (PaperTrade Fixed))
    × (execute_atomic_entry_real floor chance (lit 1000 0) (lit 50 0) 31 desk ≡ some r)
    × EndsStranded limits desk (preflight floor false chance (lit 1000 0) (lit 50 0) opened).1 r
short_order_stranded_example =
    short_order_stranded "okx" limits refusing floor chance (lit 1000 0) (lit 50 0) 31 desk refl
      (λ e. ground (arith, (eq_iff "paradex" "okx").1 e))

-- The checks let the entry pass, so the short order is left.
passes : (preflight floor false chance (lit 1000 0) (lit 50 0) opened).1 ≡ ok prepared
unfolding preflight
passes = refl
