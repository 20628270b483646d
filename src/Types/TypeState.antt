-- ===== src/Types/TypeState.antt =====
-- The typestate pattern of src/strategy/types.rs: `Order<S>` and its transitions. The state is an
-- index, as the `PhantomData<S>` of the source: an order keeps no value of its state.
use Prim.Native.String.{String}
use funding_spread_arbitrage.Prelude.{ℕ}

pub data State : Type 0 where
  pending filled cancelled : State

pub record Order (F : Type 0) (s : State) : Type 0 where
  pub id : ℕ
  pub symbol_id : ℕ
  pub price : F
  pub size : F

module _ {F : Type 0} where
  unfoldable pub new : ℕ → ℕ → F → F → Order F State.pending
  new id symbol_id price size = record {
    id = id;
    symbol_id = symbol_id;
    price = price;
    size = size;
  }

  unfoldable pub fill : Order F State.pending → F → ℕ → Order F State.filled
  fill o _fill_price _fill_time = record {
    id = o.id;
    symbol_id = o.symbol_id;
    price = o.price;
    size = o.size;
  }

  unfoldable pub cancel : Order F State.pending → String → Order F State.cancelled
  cancel o _reason = record { id = o.id; symbol_id = o.symbol_id; price = o.price; size = o.size }

  unfoldable pub get_fill_price : Order F State.filled → F
  get_fill_price o = o.price

  unfoldable pub get_reason : Order F State.cancelled → String
  get_reason _ = "Order cancelled"
