-- ===== src/ArrayQueue/Defs.antt =====
-- The interface of the queue and its documented laws.
use funding_spread_arbitrage.Prelude.{
  ℕ, ◌≤◌, ◌<◌, ◌≡◌, List, [], ◌∷◌, ◌++◌, Option, none, some, length,
}

-- A method on `&self` returns the queue that it leaves behind. `push` answers `none` for `Ok(())`
-- and `some a` for `Err(a)`. `contents` is the view of a queue as the list of its values, oldest
-- first, by which the laws are stated.
pub record ArrayQueue (Q A : Type 0) : Type 0 where
  pub new : ℕ → Q
  pub push : Q → A → Q × Option A
  pub pop : Q → Q × Option A
  pub len : Q → ℕ
  pub capacity : Q → ℕ
  pub contents : Q → List A

-- What the documentation of the crate promises of the operations.
pub record IsFifo (Q A : Type 0) ⦃a : ArrayQueue Q A⦄ : Type 0 where
  pub contents-new : (n : ℕ) → 0 < n → a.contents (a.new n) ≡ []
  pub capacity-new : (n : ℕ) → 0 < n → a.capacity (a.new n) ≡ n
  pub bounded : (q : Q) → length (a.contents q) ≤ a.capacity q
  pub len_lem : (q : Q) → a.len q ≡ length (a.contents q)
  pub push_room :
      (q : Q) (x : A)
      → length (a.contents q) < a.capacity q
      → ((a.push q x).1 ≡ none) × (a.contents (a.push q x).0 ≡ a.contents q ++ x ∷ [])
  pub push_full :
      (q : Q) (x : A)
      → a.capacity q ≤ length (a.contents q)
      → ((a.push q x).1 ≡ some x) × (a.contents (a.push q x).0 ≡ a.contents q)
  pub capacity-push : (q : Q) (x : A) → a.capacity (a.push q x).0 ≡ a.capacity q
  pub pop_empty : (q : Q) → a.contents q ≡ [] → ((a.pop q).1 ≡ none) × (a.contents (a.pop q).0 ≡ [])
  pub pop_front :
      (q : Q) (x : A) (xs : List A)
      → a.contents q ≡ x ∷ xs
      → ((a.pop q).1 ≡ some x) × (a.contents (a.pop q).0 ≡ xs)
  pub capacity-pop : (q : Q) → a.capacity (a.pop q).0 ≡ a.capacity q
