-- ===== src/Entry/Steady/Defs.antt =====
-- What a step of an entry keeps of the desk, and what its error says of the desk.
use Prim.{Unit}
use Prim.Native.String.{String}
use funding_spread_arbitrage.Prelude.{
  ℕ, ◌≡◌, Bool, true, false, if◌then◌else◌, Result, ok, err, Answers,
}
use funding_spread_arbitrage.Types.Order.{SimulatedOrder}
use funding_spread_arbitrage.Hedge.Backend.{ExecutionBackend, Clock}
use funding_spread_arbitrage.Entry.Desk.{
  Desk, EntryError, refused, long_order_failed, short_order_failed, lock_held, too_shallow,
  close_failed, hedge_failed, hedge_and_close_failed, spread_collapsed, max_reprices_reached,
  neither_filled, one_leg_left,
}

-- A relation between the states of the exchanges that every call respects.
pub record IsSteady {B : Type 0} (F : Type 0) ⦃x : ExecutionBackend B F⦄ ⦃c : Clock B⦄
    (R : B → B → Type 0) : Type 0 where
  pub stays : (b : B) → R b b
  pub joins : (b b₁ b₂ : B) → R b b₁ → R b₁ b₂ → R b b₂
  pub leverage : (e s : String) (n : ℕ) (b : B) → R b (x.set_leverage e s n b).0
  pub margins : (e s : String) (b : B) → R b (x.set_margin_type_isolated e s b).0
  pub places : (o : SimulatedOrder F) (b : B) → R b (x.place_order o b).0
  pub markets : (o : SimulatedOrder F) (b : B) → R b (x.place_market_order o b).0
  pub cancels : (e i : String) (b : B) → R b (x.cancel_order e i b).0
  pub details : (e i s : String) (b : B) → R b (x.get_order_status_detailed e i s b).0
  pub balances : (e : String) (b : B) → R b (x.get_available_balance e b).0
  pub depths : (e s : String) (n : ℕ) (b : B) → R b (x.get_order_book_depth e s n b).0
  pub bids : (e s : String) (b : B) → R b (x.get_best_bid e s b).0
  pub asks : (e s : String) (b : B) → R b (x.get_best_ask e s b).0
  pub steps : (e s : String) (b : B) → R b (x.get_quantity_step e s b).0
  pub waits : (n : ℕ) (b : B) → R b (c.sleep n b)
  pub names : (b : B) → R b (c.new_uuid b).0

-- Whether an emergency close has failed.
abbrev pub is_close_failure : {F : Type 0} → EntryError F → Bool
is_close_failure (refused e) = false
is_close_failure (long_order_failed e) = false
is_close_failure (short_order_failed e) = false
is_close_failure lock_held = false
is_close_failure (too_shallow s r) = false
is_close_failure (close_failed e) = true
is_close_failure (hedge_failed s e) = false
is_close_failure (hedge_and_close_failed s e k) = true
is_close_failure (spread_collapsed a b) = false
is_close_failure (max_reprices_reached s n) = false
is_close_failure neither_filled = false
is_close_failure one_leg_left = false

-- Whether it is the error that the code says should not happen.
abbrev pub is_one_leg_left : {F : Type 0} → EntryError F → Bool
is_one_leg_left (refused e) = false
is_one_leg_left (long_order_failed e) = false
is_one_leg_left (short_order_failed e) = false
is_one_leg_left lock_held = false
is_one_leg_left (too_shallow s r) = false
is_one_leg_left (close_failed e) = false
is_one_leg_left (hedge_failed s e) = false
is_one_leg_left (hedge_and_close_failed s e k) = false
is_one_leg_left (spread_collapsed a b) = false
is_one_leg_left (max_reprices_reached s n) = false
is_one_leg_left neither_filled = false
is_one_leg_left one_leg_left = true

module _ {F : Type 0} where
  -- The flag that halts trading, after an answer.
  abbrev pub halted_by : {A : Type 0} → Bool → Result (EntryError F) A → Bool
  halted_by halted (ok a) = halted
  halted_by halted (err e) = if is_close_failure e then true else halted

  abbrev pub leaves_one_leg : {A : Type 0} → Result (EntryError F) A → Bool
  leaves_one_leg (ok a) = false
  leaves_one_leg (err e) = is_one_leg_left e

-- The desk after a step, seen from the desk before it.
pub record Safe {B F A : Type 0} (R : B → B → Type 0) (P : A → Type 0) (s : Desk B F)
    (r : Desk B F × Result (EntryError F) A) : Type 0 where
  pub moved : R s.exchanges r.0.exchanges
  pub freed : r.0.locks ≡ s.locks
  pub flagged : r.0.halted ≡ halted_by s.halted r.1
  pub hedged : leaves_one_leg r.1 ≡ false
  pub answered : Answers P r.1

-- Nothing is known of an answer.
abbrev pub Any : {A : Type 0} → A → Type 0
Any a = Unit
