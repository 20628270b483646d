-- ===== src/Prelude/Remove.antt =====
-- The first entry of a list that passes a test, taken out of it.
use Prim.Native.Nat.{ℕ, suc, ◌+◌}
use mathlib.Core.Path.{◌≡◌, refl, ap}
use mathlib.Core.Logic.{◌⊎◌, inl, inr}
use mathlib.Core.Bool.{Bool, true}
use mathlib.Core.List.{List, [], ◌∷◌, ◌++◌}
use mathlib.Core.Option.{Option, none, some}
use native.Mathlib.Omega.{arith}
use funding_spread_arbitrage.Prelude.Tests.{if◌then◌else◌, Bool-cases}
use funding_spread_arbitrage.Prelude.Lists.{length}

module _ {ℓ} {A : Type ℓ} where
  abbrev pub remove_first : (A → Bool) → List A → Option (A × List A)
  remove_first p [] = none
  remove_first p (x ∷ xs) =
      let rest = remove_first p xs in
      if p x then some (x, xs) else elim rest [ none ↦ none | some (y, ys) ↦ some (y, x ∷ ys) ]

  abbrev pub count_if : (A → Bool) → List A → ℕ
  count_if q [] = 0
  count_if q (x ∷ xs) = if q x then suc (count_if q xs) else count_if q xs

  pub count_if-append :
      (q : A → Bool) (xs ys : List A) → count_if q (xs ++ ys) ≡ count_if q xs + count_if q ys
  count_if-append q [] ys = omega arith
  count_if-append q (x ∷ xs) ys = ground (arith, count_if-append q xs ys)

  -- An entry counts alike wherever it stands, and so does another that passes the same test.
  pub count_if-move :
      (q : A → Bool) (x y : A) (xs : List A)
      → q x ≡ q y
      → count_if q (x ∷ xs) ≡ count_if q (y ∷ []) + count_if q xs
  count_if-move q x y xs e = ground arith

  -- What `remove_first` takes out passes the test, and the others stay.
  pub record Removed (p : A → Bool) (xs : List A) (x : A) (ys : List A) : Type ℓ where
    pub passes : p x ≡ true
    pub shorter : length xs ≡ suc (length ys)
    pub kept : (q : A → Bool) → count_if q xs ≡ count_if q (x ∷ ys)

  pub remove_first-cases :
      (p : A → Bool) (xs : List A)
      → ((remove_first p xs ≡ none) × (count_if p xs ≡ 0))
        ⊎ ((x : A) × ((ys : List A) × ((remove_first p xs ≡ some (x, ys)) × Removed p xs x ys)))
  remove_first-cases p [] = inl (refl, refl)
  remove_first-cases p (x ∷ xs) = elim (Bool-cases (p x)) [
    | inl e ↦ inr (x, (xs, (rw e refl, record { passes = e; shorter = refl; kept = λ q. refl })))
    | inr e ↦ elim (remove_first-cases p xs) [
      | inl (missing, zero) ↦ inl (rw (e, missing) refl, rw (e, zero) refl)
      | inr (y, (ys, (found, r))) ↦ inr (
        y,
        (
          x ∷ ys,
          (
            rw (e, found) refl,
            record {
              passes = r.passes;
              shorter = ap suc r.shorter;
              kept = λ q. ground (arith, r.kept q);
            },
          ),
        ),
      )
    ]
  ]
