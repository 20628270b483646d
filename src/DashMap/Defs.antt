-- ===== src/DashMap/Defs.antt =====
-- The interface of the map and its laws.
use funding_spread_arbitrage.Prelude.{ℕ, suc, ◌≡◌, ◌≢◌, ◌⊎◌, Option, none, some}

-- `insert` is also `VacantEntry::insert`: the key is looked up under the lock of its shard.
pub record DashMap (M K V : Type 0) : Type 0 where
  pub empty : M
  pub get : M → K → Option V
  pub insert : M → K → V → M
  pub len : M → ℕ

-- Keys are compared by their equality: a lookup after an insertion finds the value inserted under
-- the same key, and what it found before under any other.
pub record IsMap (M K V : Type 0) ⦃m : DashMap M K V⦄ : Type 0 where
  pub get-empty : (k : K) → m.get m.empty k ≡ none
  pub get-insert :
      (s : M) (k : K) (v : V) (l : K)
      → ((k ≡ l) × (m.get (m.insert s k v) l ≡ some v))
        ⊎ ((k ≢ l) × (m.get (m.insert s k v) l ≡ m.get s l))
  pub len-empty : m.len m.empty ≡ 0
  pub len-insert :
      (s : M) (k : K) (v : V) → m.get s k ≡ none → m.len (m.insert s k v) ≡ suc (m.len s)
