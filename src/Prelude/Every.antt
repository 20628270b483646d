-- ===== src/Prelude/Every.antt =====
-- A predicate that holds of every entry of a list.
use Prim.Native.Nat.{ℕ, zero, suc}
use mathlib.Core.List.{List, [], ◌∷◌, ◌++◌}
use funding_spread_arbitrage.Prelude.Lists.{drop, keep_last}

pub data All {ℓ k} {A : Type ℓ} (P : A → Type k) : List A → Type (ℓ ⊔ k) where
  all_nil : All P []
  all_cons : {x : A} {xs : List A} → P x → All P xs → All P (x ∷ xs)

module _ {ℓ k} {A : Type ℓ} {P : A → Type k} where
  pub All-append : {xs : List A} → All P xs → {ys : List A} → All P ys → All P (xs ++ ys)
  All-append all_nil q = q
  All-append (all_cons p ps) q = all_cons p (All-append ps q)

  All-drop : (n : ℕ) {xs : List A} → All P xs → All P (drop n xs)
  All-drop zero h = h
  All-drop (suc n) all_nil = all_nil
  All-drop (suc n) (all_cons p ps) = All-drop n ps

  pub All-keep_last : (n : ℕ) (xs : List A) → All P xs → All P (keep_last n xs)
  unfolding keep_last
  All-keep_last n xs h = All-drop _ h
