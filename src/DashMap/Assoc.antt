-- ===== src/DashMap/Assoc.antt =====
-- A map that meets the interface: the list of its entries, with a test of equality of the keys.
use Prim.Native.String.{String}
use text.Mathlib.Text.{◌==◌ as same_text}
use text.Mathlib.TextEquality.{eq_iff}
use funding_spread_arbitrage.Prelude.{
  ℕ, ◌≡◌, ◌≢◌, ◌⊎◌, ◌↔◌, inl, inr, refl, ap, Bool, true, List, [], ◌∷◌, Option, none, some, ◌==◌,
  ==_iff, arith, length, if◌then◌else◌, ◌&&◌, Bool-cases,
}
use funding_spread_arbitrage.DashMap.Defs.{DashMap, IsMap}

pub record Key (K : Type 0) : Type 0 where
  pub same : K → K → Bool
  pub same_iff : (k l : K) → (same k l ≡ true) ↔ (k ≡ l)

instance abbrev pub key_ℕ : Key ℕ
key_ℕ = record { same = λ k l. k == l; same_iff = ==_iff }

abbrev same_pair : String × String → String × String → Bool
same_pair k l = same_text k.0 l.0 && same_text k.1 l.1

pub same_pair_iff : (k l : String × String) → (same_pair k l ≡ true) ↔ (k ≡ l)
same_pair_iff (a, b) (c, e) = (
  λ h. ground (arith, eq_iff a c, eq_iff b e),
  λ h. ground (arith, eq_iff a c, eq_iff b e, ap (λ p. p.0) h, ap (λ p. p.1) h),
)

instance abbrev pub key_pair : Key (String × String)
key_pair = record { same = same_pair; same_iff = same_pair_iff }

module _ {K V : Type 0} ⦃k : Key K⦄ where
  abbrev lookup : List (K × V) → K → Option V
  lookup [] l = none
  lookup ((a, v) ∷ es) l = if k.same a l then some v else lookup es l

  instance abbrev pub assoc_map : DashMap (List (K × V)) K V
  assoc_map = record { empty = []; get = lookup; insert = λ es a v. (a, v) ∷ es; len = length }

  insert-cases :
      (es : List (K × V)) (a : K) (v : V) (l : K)
      → ((a ≡ l) × (lookup ((a, v) ∷ es) l ≡ some v))
        ⊎ ((a ≢ l) × (lookup ((a, v) ∷ es) l ≡ lookup es l))
  insert-cases es a v l = elim (Bool-cases (k.same a l)) [
    | inl e ↦ inl ((k.same_iff a l).0 e, rw e refl)
    | inr e ↦ inr (ground (arith, k.same_iff a l), rw e refl)
  ]

  pub Assoc-IsMap : IsMap (List (K × V)) K V
  Assoc-IsMap = record {
    get-empty = λ l. refl;
    get-insert = insert-cases;
    len-empty = refl;
    len-insert = λ es a v h. refl;
  }
