-- ===== src/Entry/Steady/Rules.antt =====
-- How what a step keeps is put together from what its parts keep.
use Prim.{tt}
use Prim.Native.String.{String}
use funding_spread_arbitrage.Prelude.{
  ◌≡◌, refl, ap, ◌∙◌, ◌⊎◌, inl, inr, Option, Bool, true, false, none, some, Result, ok, err,
}
use funding_spread_arbitrage.Hedge.Backend.{ExecutionBackend, Clock}
use funding_spread_arbitrage.Hedge.Lock.{Locks, try_acquire_hedge_lock, drop_lock}
use funding_spread_arbitrage.Entry.Desk.{
  Desk, EntryError, Entry, pure, raise, carry_on, ◌>>=◌, choose, asked, hold, with_lock,
}
use funding_spread_arbitrage.Entry.Steady.Defs.{
  IsSteady, Safe, Any, is_close_failure, is_one_leg_left, halted_by,
}
use funding_spread_arbitrage.Entry.Steady.Steps.{
  pure_lem, raise_lem, asked_lem, bind_lem, choose_lem, try_acquire_hedge_lock-cases,
}

-- What is answered may be said more weakly.
pub weaken :
    {B F A : Type 0} {R : B → B → Type 0} {P Q : A → Type 0} {s : Desk B F}
    {r : Desk B F × Result (EntryError F) A}
    → ((a : A) → P a → Q a)
    → Safe R P s r
    → Safe R Q s r
weaken {r = (s', ok a)} f h = record {
  moved = h.moved;
  freed = h.freed;
  flagged = h.flagged;
  hedged = h.hedged;
  answered = f a h.answered;
}
weaken {r = (s', err e)} f h = record {
  moved = h.moved;
  freed = h.freed;
  flagged = h.flagged;
  hedged = h.hedged;
  answered = tt;
}

module _ {B F : Type 0} ⦃x : ExecutionBackend B F⦄ ⦃c : Clock B⦄ {R : B → B → Type 0}
    ⦃laws : IsSteady F R⦄ where
  pub pure-Safe : {A : Type 0} {P : A → Type 0} (a : A) {s : Desk B F} → P a → Safe R P s (pure a s)
  pure-Safe a {s} p = rw (pure_lem a s) record {
    moved = laws.stays s.exchanges;
    freed = refl;
    flagged = refl;
    hedged = refl;
    answered = p;
  }

  pub raise-Safe :
      {A : Type 0} {P : A → Type 0} (e : EntryError F) {s : Desk B F}
      → is_close_failure e ≡ false
      → is_one_leg_left e ≡ false
      → Safe R P s (raise {A = A} e s)
  raise-Safe {A} e {s} p q = rw (raise_lem {A = A} e s) record {
    moved = laws.stays s.exchanges;
    freed = refl;
    flagged = rw p refl;
    hedged = q;
    answered = tt;
  }

  pub asked-Safe :
      {A : Type 0} (f : B → B × A) {s : Desk B F}
      → R s.exchanges (f s.exchanges).0
      → Safe R Any s (asked f s)
  asked-Safe f {s} m =
      rw (asked_lem f s)
        record { moved = m; freed = refl; flagged = refl; hedged = refl; answered = tt }

  -- A step that begins where another has ended well.
  pub later-Safe :
      {A C : Type 0} {P : A → Type 0} {Q : C → Type 0} {s s₁ : Desk B F} {a : A}
      {r : Desk B F × Result (EntryError F) C}
      → Safe R P s (s₁, ok a)
      → Safe R Q s₁ r
      → Safe R Q s r
  later-Safe {s = s} {s₁ = s₁} {r = r} h k = record {
    moved = laws.joins s.exchanges s₁.exchanges r.0.exchanges h.moved k.moved;
    freed = k.freed ∙ h.freed;
    flagged = k.flagged ∙ ap (λ b. halted_by b r.1) h.flagged;
    hedged = k.hedged;
    answered = k.answered;
  }

  pub carried-Safe :
      {A C : Type 0} {P : A → Type 0} {Q : C → Type 0} {s : Desk B F} (f : A → Entry B F C)
      (r : Desk B F × Result (EntryError F) A)
      → Safe R P s r
      → ((a : A) (s₁ : Desk B F) → P a → Safe R Q s₁ (f a s₁))
      → Safe R Q s (carry_on f r)
  carried-Safe f (s₁, ok a) h k = later-Safe h (k a s₁ h.answered)
  carried-Safe f (s₁, err e) h k = record {
    moved = h.moved;
    freed = h.freed;
    flagged = h.flagged;
    hedged = h.hedged;
    answered = tt;
  }

  pub bind-Safe :
      {A C : Type 0} {P : A → Type 0} {Q : C → Type 0} (m : Entry B F A) (f : A → Entry B F C)
      {s : Desk B F}
      → Safe R P s (m s)
      → ((a : A) (s₁ : Desk B F) → P a → Safe R Q s₁ (f a s₁))
      → Safe R Q s ((m >>= f) s)
  bind-Safe m f {s} h k = rw (bind_lem m f s) (carried-Safe f (m s) h k)

  pub choose-Safe :
      {A : Type 0} {P : A → Type 0} (t : Bool) (m k : Entry B F A) {s : Desk B F}
      → (t ≡ true → Safe R P s (m s))
      → (t ≡ false → Safe R P s (k s))
      → Safe R P s (choose t m k s)
  choose-Safe true m n h k = rw (choose_lem true m n) (h refl)
  choose-Safe false m n h k = rw (choose_lem false m n) (k refl)

  hold-Safe :
      {A : Type 0} {P : A → Type 0} (symbol : String) (m : Entry B F A) {s : Desk B F}
      (q : Locks × Option String)
      → ((s₁ : Desk B F) → Safe R P s₁ (m s₁))
      → (q.1 ≡ none) ⊎ (drop_lock q.0 symbol ≡ s.locks)
      → Safe R P s (hold symbol m s q)
  unfolding hold
  hold-Safe symbol m {s} (locks, none) h e = record {
    moved = laws.stays s.exchanges;
    freed = refl;
    flagged = refl;
    hedged = refl;
    answered = tt;
  }
  hold-Safe symbol m (locks, some y) h (inl e) = absurd (cc e)
  hold-Safe symbol m {s} (locks, some y) h (inr e) =
      let k = h (record s { locks = locks }) in
      record {
        moved = k.moved;
        freed = ap (λ l. drop_lock l symbol) k.freed ∙ e;
        flagged = k.flagged;
        hedged = k.hedged;
        answered = k.answered;
      }

  pub with_lock-Safe :
      {A : Type 0} {P : A → Type 0} (symbol : String) (m : Entry B F A) {s : Desk B F}
      → ((s₁ : Desk B F) → Safe R P s₁ (m s₁))
      → Safe R P s (with_lock symbol m s)
  unfolding with_lock
  with_lock-Safe symbol m {s} h =
      hold-Safe symbol m (try_acquire_hedge_lock s.locks symbol) h
        (try_acquire_hedge_lock-cases s.locks symbol)
