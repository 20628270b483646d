-- ===== src/Entry/Calls.antt =====
-- The calls that an entry makes of the other components respect what every call of the exchanges
-- respects.
mod Retries
mod Prices
mod Closes
pub use Retries.{place_market_order_with_retry-Steady}
pub use Prices.{reprice_order-Steady, get_best_price-Steady}
pub use Closes.{check_depth-Safe, close_position-Safe}
