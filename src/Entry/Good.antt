-- ===== src/Entry/Good.antt =====
-- The steps of an entry that go on with an answer, and what holds after them.
use Prim.Native.String.{String}
use funding_spread_arbitrage.Prelude.{◌≡◌, Bool, true, false, Result, ok, err}
use funding_spread_arbitrage.Hedge.Lock.{contains, try_acquire_hedge_lock, drop_lock}
use funding_spread_arbitrage.Entry.Desk.{
  Desk, EntryError, Entry, pure, asked, choose, hold, with_lock, carry_on, ◌>>=◌,
}
use funding_spread_arbitrage.Entry.Steady.{pure_lem, asked_lem, bind_lem, choose_lem}

-- A step that has answered, and what holds of its answer and of the desk after it.
abbrev Meets :
    {B F A : Type 0} → (A → Desk B F → Type 0) → Desk B F × Result (EntryError F) A → Type 0
Meets P (s, ok a) = P a s
Meets P (s, err e) = ⊥

pub record Good {B F A : Type 0} (P : A → Desk B F → Type 0)
    (r : Desk B F × Result (EntryError F) A) : Type 0 where
  pub meets : Meets P r

module _ {B F : Type 0} where
  pub pure-Good :
      {A : Type 0} {P : A → Desk B F → Type 0} (a : A) (s : Desk B F) → P a s → Good P (pure a s)
  pure-Good a s p = rw (pure_lem a s) record { meets = p }

  pub asked-Good :
      {A : Type 0} {P : A → Desk B F → Type 0} (f : B → B × A) (s : Desk B F)
      → P (f s.exchanges).1 (record s { exchanges = (f s.exchanges).0 })
      → Good P (asked f s)
  asked-Good f s p = rw (asked_lem f s) record { meets = p }

  pub carried-Good :
      {A C : Type 0} {P : A → Desk B F → Type 0} {Q : C → Desk B F → Type 0} (f : A → Entry B F C)
      (r : Desk B F × Result (EntryError F) A)
      → Good P r
      → ((a : A) (s : Desk B F) → P a s → Good Q (f a s))
      → Good Q (carry_on f r)
  carried-Good f (s, ok a) h k = k a s h.meets
  carried-Good f (s, err e) h k = absurd h.meets

  pub bind-Good :
      {A C : Type 0} {P : A → Desk B F → Type 0} {Q : C → Desk B F → Type 0} (m : Entry B F A)
      (f : A → Entry B F C) (s : Desk B F)
      → Good P (m s)
      → ((a : A) (s₁ : Desk B F) → P a s₁ → Good Q (f a s₁))
      → Good Q ((m >>= f) s)
  bind-Good m f s h k = rw (bind_lem m f s) (carried-Good f (m s) h k)

  pub true-Good :
      {A : Type 0} {P : A → Desk B F → Type 0} (t : Bool) (m k : Entry B F A) (s : Desk B F)
      → t ≡ true
      → Good P (m s)
      → Good P (choose t m k s)
  true-Good t m k s e h = rw (choose_lem t m k, e) h

  pub false-Good :
      {A : Type 0} {P : A → Desk B F → Type 0} (t : Bool) (m k : Entry B F A) (s : Desk B F)
      → t ≡ false
      → Good P (k s)
      → Good P (choose t m k s)
  false-Good t m k s e h = rw (choose_lem t m k, e) h

  -- A test whose outcome does not matter.
  pub either-Good :
      {A : Type 0} {P : A → Desk B F → Type 0} (t : Bool) (m k : Entry B F A) (s : Desk B F)
      → Good P (m s)
      → Good P (k s)
      → Good P (choose t m k s)
  either-Good true m k s h h' = rw (choose_lem true m k) h
  either-Good false m k s h h' = rw (choose_lem false m k) h'

  pub released-Good :
      {A : Type 0} {P : A → Type 0} (r : Desk B F × Result (EntryError F) A)
      (f : Desk B F → Desk B F)
      → Good (λ a s. P a) r
      → Good (λ a s. P a) (f r.0, r.1)
  released-Good (s, ok a) f h = record { meets = h.meets }
  released-Good (s, err e) f h = absurd h.meets

  pub with_lock-Good :
      {A : Type 0} {P : A → Type 0} (symbol : String) (m : Entry B F A) (s : Desk B F)
      → contains s.locks.locks symbol ≡ false
      → ((s₁ : Desk B F) → Good (λ a s. P a) (m s₁))
      → Good (λ a s. P a) (with_lock symbol m s)
  unfolding with_lock hold try_acquire_hedge_lock
  with_lock-Good symbol m s e h =
      rw (with_lock, try_acquire_hedge_lock, e, hold)
        (released-Good (m _) (λ (s' : Desk B F). record s' { locks = drop_lock s'.locks symbol })
          (h _))
