-- ===== src/Hedge/Lock.antt =====
-- `HEDGE_LOCKS`, `try_acquire_hedge_lock` and the `Drop` of a `HedgeLock`. The `HashSet` is the list
-- of its elements. Nothing panics while the mutex is held, so it is never poisoned; its critical
-- sections are the steps.
use Prim.Native.String.{String}
use text.Mathlib.Text.{◌==◌ as same_text}
use text.Mathlib.TextEquality.{eq_iff}
use funding_spread_arbitrage.Prelude.{
  ℕ, ◌+◌, ◌≤◌, ◌≡◌, refl, Bool, List, [], ◌∷◌, Option, none, some, arith, ltb, ◌==◌, if◌then◌else◌,
  inl, inr, Bool-cases, remove_first, count_if, remove_first-cases,
}

-- `locks` is the set; `held` are the symbols of the `HedgeLock` values alive in the program.
pub record Locks : Type 0 where
  pub locks : List String
  pub held : List String

abbrev pub is : String → String → Bool
is symbol other = same_text other symbol

abbrev pub contains : List String → String → Bool
contains xs symbol = ltb 0 (count_if (is symbol) xs)

-- `remove` takes the element out of the set.
abbrev pub remove : List String → String → List String
remove xs symbol = elim (remove_first (is symbol) xs) [ none ↦ xs | some (_, rest) ↦ rest ]

-- `none` is the `Err`, `some` the lock.
unfoldable pub try_acquire_hedge_lock : Locks → String → Locks × Option String
try_acquire_hedge_lock s symbol =
    if contains s.locks symbol
    then (s, none)
    else (record { locks = symbol ∷ s.locks; held = symbol ∷ s.held }, some symbol)

-- A held lock goes out of scope: `drop`.
unfoldable pub drop_lock : Locks → String → Locks
drop_lock s symbol =
    if contains s.held symbol
    then record { locks = remove s.locks symbol; held = remove s.held symbol }
    else s

-- The states that the program can reach, whatever threads acquire and drop.
pub data Reached : Locks → Type 0 where
  begun : Reached (record { locks = []; held = [] })
  acquired :
      {s : Locks} → Reached s → (symbol : String) → Reached (try_acquire_hedge_lock s symbol).0
  dropped : {s : Locks} → Reached s → (symbol : String) → Reached (drop_lock s symbol)

record Exclusive (s : Locks) (symbol : String) : Type 0 where
  same : count_if (is symbol) s.locks ≡ count_if (is symbol) s.held
  single : count_if (is symbol) s.held ≤ 1

abbrev bump : List String → String → String → ℕ
bump xs symbol other = if contains xs symbol then (if same_text symbol other then 1 else 0) else 0

-- A removal takes out one element, the one asked for.
remove-bump :
    (xs : List String) (symbol other : String)
    → count_if (is other) (remove xs symbol) + bump xs symbol other ≡ count_if (is other) xs
remove-bump xs symbol other = elim (remove_first-cases (is symbol) xs) [
  | inl (missing, none_left) ↦ rw (remove, missing, none_left) (omega arith)
  | inr (y, (rest, (found, r))) ↦
      let e : y ≡ symbol = (eq_iff y symbol).0 r.passes in
      rw (remove, found) (ground (arith, e, r.passes, r.kept (is other), r.kept (is symbol)))
]

bump-same :
    (xs ys : List String) (symbol other : String)
    → count_if (is symbol) xs ≡ count_if (is symbol) ys
    → bump xs symbol other ≡ bump ys symbol other
bump-same xs ys symbol other e = rw e refl

-- Two sets that count alike count alike after a removal from both.
remove-same :
    (xs ys : List String) (symbol other : String)
    → count_if (is symbol) xs ≡ count_if (is symbol) ys
    → count_if (is other) xs ≡ count_if (is other) ys
    → (count_if (is other) (remove xs symbol) ≡ count_if (is other) (remove ys symbol))
      × (count_if (is other) (remove ys symbol) ≤ count_if (is other) ys)
remove-same xs ys symbol other e k =
    let one = remove-bump xs symbol other in
    let two = remove-bump ys symbol other in
    let same = bump-same xs ys symbol other e in (omega (arith, one, two, same), omega (arith, two))

Exclusive-drop :
    (s : Locks) (symbol other : String)
    → Exclusive s symbol
    → Exclusive s other
    → Exclusive (drop_lock s symbol) other
unfolding drop_lock
Exclusive-drop s symbol other e k =
    let both = remove-same s.locks s.held symbol other e.same k.same in
    elim (Bool-cases (contains s.held symbol)) [
      | inl h ↦ rw h record { same = both.0; single = omega (arith, both.1, k.single) }
      | inr h ↦ rw h k
    ]

Exclusive-acquire :
    (s : Locks) (symbol other : String)
    → Exclusive s symbol
    → Exclusive s other
    → Exclusive (try_acquire_hedge_lock s symbol).0 other
unfolding try_acquire_hedge_lock
Exclusive-acquire s symbol other e k = elim (Bool-cases (contains s.locks symbol)) [
  | inl h ↦ rw h k
  | inr h ↦ rw h record {
    same = ground (arith, k.same);
    single = ground (arith, e.same, k.single, eq_iff symbol other);
  }
]

Reached-Exclusive : {s : Locks} → Reached s → (symbol : String) → Exclusive s symbol
Reached-Exclusive begun symbol = record { same = refl; single = omega arith }
Reached-Exclusive (acquired r other) symbol =
    Exclusive-acquire _ other symbol (Reached-Exclusive r other) (Reached-Exclusive r symbol)
Reached-Exclusive (dropped r other) symbol =
    Exclusive-drop _ other symbol (Reached-Exclusive r other) (Reached-Exclusive r symbol)

-- In every state that acquisitions and drops can reach, a symbol has at most one lock alive, and an
-- attempt to acquire one succeeds exactly when it has none.
pub hedge_lock_exclusive :
    (s : Locks) (symbol : String)
    → Reached s
    → (count_if (is symbol) s.held ≤ 1)
      × ((try_acquire_hedge_lock s symbol).1
          ≡ (if count_if (is symbol) s.held == 0 then some symbol else none))
unfolding try_acquire_hedge_lock
hedge_lock_exclusive s symbol r = ground (arith, Reached-Exclusive r symbol)
