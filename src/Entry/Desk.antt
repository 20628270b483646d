-- ===== src/Entry/Desk.antt =====
-- What `execute_atomic_entry_real` of src/strategy/entry.rs works on once its orders are to be
-- placed: the exchanges, the flag that halts trading, the hedge locks, the books that its depth
-- checker has kept, and the two legs with their flags and counters. Metrics of the time that hedges
-- take and the log are left out, since nothing reads them back.
use Prim.{Unit, tt}
use Prim.Native.String.{String}
use funding_spread_arbitrage.Prelude.{ℕ, Bool, true, false, Option, none, some, Result, ok, err}
use funding_spread_arbitrage.Double.{Double}
use funding_spread_arbitrage.Types.Order.{OrderSide, OrderType, OrderStatus, SimulatedOrder}
use funding_spread_arbitrage.Types.Trade.{ArbitrageOpportunity}
use funding_spread_arbitrage.Hedge.Backend.{ExecutionBackend, Clock}
use funding_spread_arbitrage.Hedge.Lock.{Locks, try_acquire_hedge_lock, drop_lock}
use funding_spread_arbitrage.Hedge.Placer.{PlaceError}
use funding_spread_arbitrage.DepthChecker.{Cache, DepthCheckResult, check_depth_for_hedge}
use funding_spread_arbitrage.PriceChaser.{RepricingMetrics}
use funding_spread_arbitrage.Entry.Retry.{HedgeError}
use funding_spread_arbitrage.Entry.Emergency.{emergency_close_position}
use funding_spread_arbitrage.Entry.Preflight.{PreflightError}

pub record Desk (B F : Type 0) : Type 0 where
  pub exchanges : B
  pub halted : Bool
  pub locks : Locks
  pub depths : Cache F

-- `long_order`, `long_filled`, `long_reprice_count` and `long_metrics`, or the same for the short leg.
pub record Leg (F : Type 0) : Type 0 where
  pub order : SimulatedOrder F
  pub filled : Bool
  pub reprice_count : ℕ
  pub metrics : RepricingMetrics F

pub record Legs (F : Type 0) : Type 0 where
  pub long : Leg F
  pub short : Leg F

-- The texts of the errors, by what they print. A side is that of the leg which has filled, or which
-- is repriced.
pub data EntryError (F : Type 0) : Type 0 where
  refused : PreflightError F → EntryError F
  long_order_failed : String → EntryError F
  short_order_failed : String → EntryError F
  lock_held : EntryError F
  too_shallow : OrderSide → F → EntryError F
  close_failed : PlaceError → EntryError F
  hedge_failed : OrderSide → HedgeError F → EntryError F
  hedge_and_close_failed : OrderSide → HedgeError F → PlaceError → EntryError F
  spread_collapsed : F → F → EntryError F
  max_reprices_reached : OrderSide → ℕ → EntryError F
  neither_filled : EntryError F
  one_leg_left : EntryError F

abbrev pub leg : {F : Type 0} → OrderSide → Legs F → Leg F
leg OrderSide.long l = l.long
leg OrderSide.short l = l.short

abbrev pub set_leg : {F : Type 0} → OrderSide → Leg F → Legs F → Legs F
set_leg OrderSide.long k l = record l { long = k }
set_leg OrderSide.short k l = record l { short = k }

abbrev pub exchange_of : {F : Type 0} → OrderSide → ArbitrageOpportunity F → String
exchange_of OrderSide.long o = o.long_exchange
exchange_of OrderSide.short o = o.short_exchange

abbrev pub price_of : {F : Type 0} → OrderSide → ArbitrageOpportunity F → F
price_of OrderSide.long o = o.long_price
price_of OrderSide.short o = o.short_price

-- The steps of an entry, which go on with an answer or end it with an error.
abbrev pub Entry : Type 0 → Type 0 → Type 0 → Type 0
Entry B F A = Desk B F → Desk B F × Result (EntryError F) A

module _ {B F : Type 0} where
  infixl 5 ◌>>=◌ ◌>>◌
  unfoldable pub pure : {A : Type 0} → A → Entry B F A
  pure a s = (s, ok a)

  unfoldable pub raise : {A : Type 0} → EntryError F → Entry B F A
  raise e s = (s, err e)

  abbrev pub carry_on :
      {A C : Type 0}
      → (A → Entry B F C)
      → Desk B F × Result (EntryError F) A
      → Desk B F × Result (EntryError F) C
  carry_on f (s, ok a) = f a s
  carry_on f (s, err e) = (s, err e)

  unfoldable pub ◌>>=◌ : {A C : Type 0} → Entry B F A → (A → Entry B F C) → Entry B F C
  ◌>>=◌ m f s = carry_on f (m s)

  abbrev pub ◌>>◌ : {A C : Type 0} → Entry B F A → Entry B F C → Entry B F C
  m >> k = m >>= λ _. k

  -- A test, which the theorems take in either way.
  unfoldable pub choose : {A : Type 0} → Bool → Entry B F A → Entry B F A → Entry B F A
  choose true m k = m
  choose false m k = k

  -- A call of the exchanges or of the clock.
  unfoldable pub asked : {A : Type 0} → (B → B × A) → Entry B F A
  asked f s = let (b, a) = f s.exchanges in (record s { exchanges = b }, ok a)

  -- A block that holds the hedge lock of a symbol, which goes out of scope wherever it ends.
  unfoldable pub hold :
      {A : Type 0}
      → String
      → Entry B F A
      → Desk B F
      → Locks × Option String
      → Desk B F × Result (EntryError F) A
  unfolding drop_lock
  hold symbol m s (locks, none) = (s, err lock_held)
  hold symbol m s (locks, some _) =
      let (s', r) = m (record s { locks = locks }) in
      (record s' { locks = drop_lock s'.locks symbol }, r)

  unfoldable pub with_lock : {A : Type 0} → String → Entry B F A → Entry B F A
  unfolding try_acquire_hedge_lock hold
  with_lock symbol m s = hold symbol m s (try_acquire_hedge_lock s.locks symbol)

module _ {B F : Type 0} ⦃x : ExecutionBackend B F⦄ ⦃c : Clock B⦄ ⦃d : Double F⦄ where
  unfoldable pub check_depth : String → String → F → Entry B F (Result String (DepthCheckResult F))
  unfolding check_depth_for_hedge
  check_depth exchange symbol quantity s =
      let (cache, b, r) = check_depth_for_hedge exchange symbol quantity s.depths s.exchanges in
      (record s { exchanges = b; depths = cache }, ok r)

  -- `emergency_close_position`, whose error ends the entry with the error made of it.
  unfoldable pub close_position : (PlaceError → EntryError F) → SimulatedOrder F → Entry B F Unit
  unfolding emergency_close_position
  close_position f order s =
      let (b, halted, r) = emergency_close_position order s.exchanges s.halted in
      let s' : Desk B F = record s { exchanges = b; halted = halted } in
      elim r [ ok _ ↦ (s', ok tt) | err e ↦ (s', err (f e)) ]

-- An order that is not placed yet.
abbrev pub new_order :
    {F : Type 0} → String → String → String → OrderSide → OrderType → F → F → ℕ → SimulatedOrder F
new_order id exchange symbol side order_type price size now = record {
  id = id;
  exchange = exchange;
  symbol = symbol;
  side = side;
  order_type = order_type;
  price = price;
  size = size;
  queue_position = none;
  created_at = now;
  filled_at = none;
  fill_price = none;
  status = OrderStatus.pending;
}
