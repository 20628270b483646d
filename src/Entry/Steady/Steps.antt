-- ===== src/Entry/Steady/Steps.antt =====
-- The steps of an entry as functions of the desk, and a lock that is taken and dropped.
use Prim.Native.String.{String}
use text.Mathlib.Text.{◌==◌ as same_text}
use text.Mathlib.TextEquality.{eq_iff}
use funding_spread_arbitrage.Prelude.{
  ℕ, suc, List, ◌∷◌, ltb, count_if, arith, ◌≡◌, refl, ◌⊎◌, inl, inr, Bool, true, false, none,
  Bool-cases, if◌then◌else◌, ok, err,
}
use funding_spread_arbitrage.Hedge.Lock.{
  Locks, is, contains, remove, try_acquire_hedge_lock, drop_lock,
}
use funding_spread_arbitrage.Entry.Desk.{
  Desk, EntryError, Entry, pure, raise, carry_on, ◌>>=◌, choose, asked,
}

-- What the steps are.
module _ {B F : Type 0} where
  pub pure_lem : {A : Type 0} (a : A) (s : Desk B F) → pure a s ≡ (s, ok a)
  unfolding pure
  pure_lem a s = refl

  pub raise_lem : {A : Type 0} (e : EntryError F) (s : Desk B F) → raise {A = A} e s ≡ (s, err e)
  unfolding raise
  raise_lem e s = refl

  pub asked_lem :
      {A : Type 0} (f : B → B × A) (s : Desk B F)
      → asked f s ≡ (record s { exchanges = (f s.exchanges).0 }, ok (f s.exchanges).1)
  unfolding asked
  asked_lem f s = refl

  pub bind_lem :
      {A C : Type 0} (m : Entry B F A) (f : A → Entry B F C) (s : Desk B F)
      → (m >>= f) s ≡ carry_on f (m s)
  unfolding ◌>>=◌
  bind_lem m f s = refl

  pub choose_lem : {A : Type 0} (t : Bool) (m k : Entry B F A) → choose t m k ≡ (if t then m else k)
  unfolding choose
  choose_lem true m k = refl
  choose_lem false m k = refl

pub same : (symbol : String) → same_text symbol symbol ≡ true
same symbol = (eq_iff symbol symbol).1 refl

positive : (n : ℕ) → ltb 0 (suc n) ≡ true
positive n = ground arith

dropped :
    (xs ys : List String) (symbol : String)
    → drop_lock (record { locks = symbol ∷ xs; held = symbol ∷ ys }) symbol
      ≡ record { locks = xs; held = ys }
unfolding drop_lock
dropped xs ys symbol = rw (drop_lock, remove, same symbol, positive (count_if (is symbol) ys)) refl

-- A lock that is acquired is dropped with nothing else changed.
pub try_acquire_hedge_lock-cases :
    (l : Locks) (symbol : String)
    → ((try_acquire_hedge_lock l symbol).1 ≡ none)
      ⊎ (drop_lock (try_acquire_hedge_lock l symbol).0 symbol ≡ l)
unfolding try_acquire_hedge_lock
try_acquire_hedge_lock-cases l symbol = elim (Bool-cases (contains l.locks symbol)) [
  | inl p ↦ inl (rw p refl)
  | inr p ↦ inr (rw p (dropped l.locks l.held symbol))
]
