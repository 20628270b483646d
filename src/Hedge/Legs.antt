-- ===== src/Hedge/Legs.antt =====
-- `check_both_legs_status`: which of the two legs of a trade the exchanges report as filled.
use funding_spread_arbitrage.Prelude.{Bool, true, false, Option, none, some}
use funding_spread_arbitrage.Double.{Double}
use funding_spread_arbitrage.Types.Order.{OrderStatusInfo, is_fully_filled}

pub data BothLegsStatus (F : Type 0) : Type 0 where
  both_filled : F → F → BothLegsStatus F
  only_long_filled : F → BothLegsStatus F
  only_short_filled : F → BothLegsStatus F
  neither_filled : BothLegsStatus F

module _ {F : Type 0} ⦃d : Double F⦄ where
  abbrev legs_of : OrderStatusInfo F → OrderStatusInfo F → Bool → Bool → BothLegsStatus F
  legs_of long short true true = both_filled long.filled_quantity short.filled_quantity
  legs_of long short true false = only_long_filled long.filled_quantity
  legs_of long short false true = only_short_filled short.filled_quantity
  legs_of long short false false = neither_filled

  -- The arguments are the two answers of the backend; `none` is an `Err`.
  unfoldable pub check_both_legs_status :
      Option (OrderStatusInfo F) → Option (OrderStatusInfo F) → Option (BothLegsStatus F)
  check_both_legs_status none _ = none
  check_both_legs_status (some long) none = none
  check_both_legs_status (some long) (some short) =
      some (legs_of long short (is_fully_filled long) (is_fully_filled short))
