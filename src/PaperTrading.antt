-- ===== src/PaperTrading.antt =====
-- `PaperTradingBackend` of src/strategy/paper_trading_backend.rs, an exchange that fills every order at
-- once. Its maps are functions from keys, and `world` is the clock and the source of names.
pub mod Hedges
use Prim.{Unit, tt}
use Prim.Native.String.{String}
use text.Mathlib.Text.{◌==◌ as same_text}
use funding_spread_arbitrage.Prelude.{
  ℕ, Bool, true, List, [], ◌∷◌, Option, none, some, if◌then◌else◌, Result, ok, err, Action,
}
use funding_spread_arbitrage.Double.{Double, lit}
use funding_spread_arbitrage.Types.Order.{SimulatedOrder, OrderStatus, OrderStatusInfo}
use funding_spread_arbitrage.Types.Market.{OrderBookDepth}
use funding_spread_arbitrage.Hedge.Backend.{ExecutionBackend, Clock}

pub record PaperTradingBackend (W F : Type 0) : Type 0 where
  pub balances : List (String × F)
  pub orders : String → Option (SimulatedOrder F)
  pub world : W

-- `HashMap::insert`, `remove` and `get`
abbrev pub insert : {A : Type 0} → (String → Option A) → String → A → String → Option A
insert m key v other = if same_text other key then some v else m other

abbrev pub remove : {A : Type 0} → (String → Option A) → String → String → Option A
remove m key other = if same_text other key then none else m other

abbrev pub lookup : {A : Type 0} → List (String × A) → String → Option A
lookup [] key = none
lookup ((k, v) ∷ entries) key =
    let rest = lookup entries key in if same_text k key then some v else rest

module _ {W F : Type 0} where
  unfoldable pub new : W → List (String × F) → PaperTradingBackend W F
  new world initial_balances = record {
    balances = initial_balances;
    orders = λ id. none;
    world = world;
  }

  -- The calls that answer without looking, or that are not implemented.
  abbrev pub fixed_answer : {A : Type 0} → A → Action (PaperTradingBackend W F) String A
  fixed_answer a b = (b, ok a)

  abbrev pub not_implemented : {A : Type 0} → String → Action (PaperTradingBackend W F) String A
  not_implemented e b = (b, err e)

  unfoldable pub cancel_order : String → String → Action (PaperTradingBackend W F) String Unit
  cancel_order exchange order_id b = (record b { orders = remove b.orders order_id }, ok tt)

  unfoldable pub get_order_status :
      String → String → Action (PaperTradingBackend W F) String OrderStatus
  get_order_status exchange order_id b = elim (b.orders order_id) [
    | some order ↦ (b, ok order.status)
    | none ↦ (b, ok OrderStatus.cancelled)
  ]

  unfoldable pub get_available_balance : String → Action (PaperTradingBackend W F) String F
  get_available_balance exchange b = elim (lookup b.balances exchange) [
    | some balance ↦ (b, ok balance)
    | none ↦ (b, err "Exchange not found")
  ]

  unfoldable pub get_all_balances : Action (PaperTradingBackend W F) String (List (String × F))
  get_all_balances b = (b, ok b.balances)

module _ {W F : Type 0} ⦃d : Double F⦄ where
  unfoldable pub get_order_status_detailed :
      String → String → String → Action (PaperTradingBackend W F) String (OrderStatusInfo F)
  get_order_status_detailed exchange order_id symbol b = elim (b.orders order_id) [
    | some order ↦ (
      b,
      ok record {
        status = order.status;
        filled_quantity = order.size;
        total_quantity = order.size;
      },
    )
    | none ↦ (
      b,
      ok record {
        status = OrderStatus.cancelled;
        filled_quantity = lit 0 0;
        total_quantity = lit 0 0;
      },
    )
  ]

abbrev pub filled : {F : Type 0} → SimulatedOrder F → String → ℕ → SimulatedOrder F
filled order id now = record order {
  id = id;
  status = OrderStatus.filled;
  filled_at = some now;
  fill_price = some order.price;
}

module _ {W F : Type 0} ⦃c : Clock W⦄ where
  -- An order that has an id keeps it.
  abbrev pub named : SimulatedOrder F → PaperTradingBackend W F → W × String
  named order b = if same_text order.id "" then c.new_uuid b.world else (b.world, order.id)

  unfoldable pub place_order :
      SimulatedOrder F → Action (PaperTradingBackend W F) String (SimulatedOrder F)
  place_order order b =
      let (world, id) = named order b in
      let placed = filled order id (c.unix_secs world) in
      (record b { orders = insert b.orders id placed; world = world }, ok placed)

  -- The same code again.
  unfoldable pub place_market_order :
      SimulatedOrder F → Action (PaperTradingBackend W F) String (SimulatedOrder F)
  place_market_order order b =
      let (world, id) = named order b in
      let placed = filled order id (c.unix_secs world) in
      (record b { orders = insert b.orders id placed; world = world }, ok placed)

  instance abbrev pub paper_clock : Clock (PaperTradingBackend W F)
  paper_clock = record {
    instant = λ b. c.instant b.world;
    unix_secs = λ b. c.unix_secs b.world;
    sleep = λ n b. record b { world = c.sleep n b.world };
    new_uuid = λ b. let (world, id) = c.new_uuid b.world in (record b { world = world }, id);
  }

module _ {W F : Type 0} ⦃c : Clock W⦄ ⦃d : Double F⦄ where
  instance abbrev pub paper_trading : ExecutionBackend (PaperTradingBackend W F) F
  paper_trading = record {
    set_leverage = λ exchange symbol leverage. fixed_answer tt;
    set_margin_type_isolated = λ exchange symbol. fixed_answer tt;
    place_order = place_order;
    place_market_order = place_market_order;
    cancel_order = cancel_order;
    get_order_status = get_order_status;
    get_order_status_detailed = get_order_status_detailed;
    get_available_balance = get_available_balance;
    get_all_balances = get_all_balances;
    is_symbol_tradeable = λ exchange symbol. fixed_answer true;
    get_order_book_depth = λ exchange symbol levels.
        not_implemented "get_order_book_depth not yet implemented for paper trading";
    get_best_bid =
        λ exchange symbol. not_implemented "get_best_bid not yet implemented for paper trading";
    get_best_ask =
        λ exchange symbol. not_implemented "get_best_ask not yet implemented for paper trading";
    backend_name = "PaperTrading";
    get_quantity_step = λ exchange symbol. fixed_answer (lit 1 1);
  }
