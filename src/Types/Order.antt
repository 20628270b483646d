-- ===== src/Types/Order.antt =====
-- Orders of src/strategy/types.rs: sides, types, states, and what an exchange reports of one.
use Prim.Native.String.{String}
use funding_spread_arbitrage.Prelude.{ℕ, Bool, true, false, Option, ◌&&◌, if◌then◌else◌}
use funding_spread_arbitrage.Double.{Double, lit, ◌⊗◌, ◌⊘◌, ◌≺◌, ◌≼◌}

pub data OrderSide : Type 0 where
  long short : OrderSide

pub data OrderType : Type 0 where
  limit market : OrderType

pub data OrderStatus : Type 0 where
  pending filled cancelled : OrderStatus

-- `status == OrderStatus::Filled`
abbrev pub is_filled_status : OrderStatus → Bool
is_filled_status pending = false
is_filled_status filled = true
is_filled_status cancelled = false

pub record QueuePosition (F : Type 0) : Type 0 where
  pub price : F
  pub cumulative_volume_at_price : F
  pub resting_depth_at_entry : F
  pub fill_threshold_pct : F
  pub is_filled : Bool

pub record OrderStatusInfo (F : Type 0) : Type 0 where
  pub status : OrderStatus
  pub filled_quantity : F
  pub total_quantity : F

pub record SimulatedOrder (F : Type 0) : Type 0 where
  pub id : String
  pub exchange : String
  pub symbol : String
  pub side : OrderSide
  pub order_type : OrderType
  pub price : F
  pub size : F
  pub queue_position : Option (QueuePosition F)
  pub created_at : ℕ
  pub filled_at : Option ℕ
  pub fill_price : Option F
  pub status : OrderStatus

module _ {F : Type 0} ⦃d : Double F⦄ where
  unfoldable pub is_fully_filled : OrderStatusInfo F → Bool
  is_fully_filled i = is_filled_status i.status && i.total_quantity ≼ i.filled_quantity

  unfoldable pub is_partially_filled : OrderStatusInfo F → Bool
  is_partially_filled i = lit 0 0 ≺ i.filled_quantity && i.filled_quantity ≺ i.total_quantity

  unfoldable pub fill_percentage : OrderStatusInfo F → F
  fill_percentage i =
      if lit 0 0 ≺ i.total_quantity
      then (i.filled_quantity ⊘ i.total_quantity) ⊗ lit 100 0
      else lit 0 0
