-- ===== src/Entry/Steady.antt =====
-- How the steps of an entry leave the desk: what each keeps, and what an error says of it.
mod Defs
mod Steps
mod Rules
pub use Defs.{IsSteady, Safe, Any, is_close_failure, is_one_leg_left, halted_by, leaves_one_leg}
pub use Steps.{same, pure_lem, raise_lem, asked_lem, bind_lem, choose_lem}
pub use Rules.{
  weaken, pure-Safe, raise-Safe, asked-Safe, later-Safe, carried-Safe, bind-Safe, choose-Safe,
  with_lock-Safe,
}
