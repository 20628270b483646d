-- ===== src/Fees.antt =====
-- Exchange ids, names and taker fees of src/strategy/exchange_fees.rs. `str::to_lowercase` follows
-- the tables of Unicode and is an argument; the two `HashMap`s are the lists of their entries.
use Prim.Native.String.{String}
use text.Mathlib.Text.{◌==◌ as same_text}
use text.Mathlib.TextEquality.{eq_iff}
use funding_spread_arbitrage.Prelude.{
  ℕ, zero, suc, ◌≤◌, ◌≡◌, ◌⊎◌, inl, inr, refl, subst, List, [], ◌∷◌, Option, none, some,
  if◌then◌else◌, arith, get_or, set, replicate, Bool-cases,
}
use funding_spread_arbitrage.Double.{Double, lit}

abbrev pub exchange_id_binance : ℕ
exchange_id_binance = 1

abbrev pub exchange_id_okx : ℕ
exchange_id_okx = 2

abbrev pub exchange_id_bybit : ℕ
exchange_id_bybit = 3

abbrev pub exchange_id_bitget : ℕ
exchange_id_bitget = 4

abbrev pub exchange_id_kucoin : ℕ
exchange_id_kucoin = 5

abbrev pub exchange_id_hyperliquid : ℕ
exchange_id_hyperliquid = 6

abbrev pub exchange_id_paradex : ℕ
exchange_id_paradex = 7

abbrev pub exchange_id_gateio : ℕ
exchange_id_gateio = 8

abbrev pub exchange_to_id_table : List (String × ℕ)
exchange_to_id_table =
    ("binance", exchange_id_binance)
    ∷ ("okx", exchange_id_okx)
    ∷ ("bybit", exchange_id_bybit)
    ∷ ("bitget", exchange_id_bitget)
    ∷ ("kucoin", exchange_id_kucoin)
    ∷ ("hyperliquid", exchange_id_hyperliquid)
    ∷ ("paradex", exchange_id_paradex)
    ∷ ("gateio", exchange_id_gateio)
    ∷ []

abbrev pub id_to_exchange_table : List String
id_to_exchange_table =
    "" ∷ "binance" ∷ "okx" ∷ "bybit" ∷ "bitget" ∷ "kucoin" ∷ "hyperliquid" ∷ "paradex" ∷ "gateio"
    ∷ []

abbrev lookup : List (String × ℕ) → String → Option ℕ
lookup [] name = none
lookup ((n, id) ∷ rows) name = if same_text n name then some id else lookup rows name

abbrev unwrap_or : Option ℕ → ℕ → ℕ
unwrap_or none x = x
unwrap_or (some y) x = y

unfoldable pub exchange_to_id : (String → String) → String → ℕ
exchange_to_id to_lowercase exchange =
    unwrap_or (lookup exchange_to_id_table (to_lowercase exchange)) 0

-- `get(id).unwrap_or("")`
unfoldable pub id_to_exchange : ℕ → String
id_to_exchange exchange_id = get_or id_to_exchange_table exchange_id ""

unfoldable pub get_all_exchange_ids : List ℕ
get_all_exchange_ids =
    exchange_id_binance ∷ exchange_id_okx ∷ exchange_id_bybit ∷ exchange_id_bitget
    ∷ exchange_id_kucoin ∷ exchange_id_hyperliquid ∷ exchange_id_paradex ∷ exchange_id_gateio ∷ []

unfoldable pub get_all_exchange_names : List String
get_all_exchange_names =
    "binance" ∷ "okx" ∷ "bybit" ∷ "bitget" ∷ "kucoin" ∷ "hyperliquid" ∷ "paradex" ∷ "gateio" ∷ []

module _ {F : Type 0} ⦃d : Double F⦄ where
  -- `EXCHANGE_FEES`: 6.0 for every id, and then the assignments.
  abbrev pub exchange_fees : List F
  exchange_fees =
      let fees₀ : List F = replicate 256 (lit 6 0) in
      let fees₁ = set fees₀ exchange_id_binance (lit 4 0) in
      let fees₂ = set fees₁ exchange_id_okx (lit 5 0) in
      let fees₃ = set fees₂ exchange_id_bybit (lit 55 1) in
      let fees₄ = set fees₃ exchange_id_bitget (lit 6 0) in
      let fees₅ = set fees₄ exchange_id_kucoin (lit 6 0) in
      let fees₆ = set fees₅ exchange_id_hyperliquid (lit 45 1) in
      let fees₇ = set fees₆ exchange_id_paradex (lit 5 0) in set fees₇ exchange_id_gateio (lit 6 0)

  unfoldable pub get_exchange_fee : ℕ → F
  get_exchange_fee exchange_id = get_or exchange_fees exchange_id (lit 6 0)

  unfoldable pub get_exchange_fee_by_name : (String → String) → String → F
  unfolding get_exchange_fee
  get_exchange_fee_by_name to_lowercase exchange =
      get_exchange_fee (unwrap_or (lookup exchange_to_id_table (to_lowercase exchange)) 0)

-- What holds of every row of a table holds of the answer of a lookup.
data AllRows (P : String → ℕ → Type 0) : List (String × ℕ) → Type 0 where
  nil : AllRows P []
  cons :
      (n : String) (id : ℕ) {rows : List (String × ℕ)}
      → P n id
      → AllRows P rows
      → AllRows P ((n, id) ∷ rows)

lookup-cases :
    (P : String → ℕ → Type 0) (rows : List (String × ℕ)) (name : String)
    → AllRows P rows
    → (lookup rows name ≡ none) ⊎ ((id : ℕ) × ((lookup rows name ≡ some id) × P name id))
lookup-cases P [] name nil = inl refl
lookup-cases P ((n, id) ∷ rows) name (cons _ _ p ps) = elim (Bool-cases (same_text n name)) [
  | inl e ↦ inr (id, (rw e refl, subst (λ m. P m id) ((eq_iff n name).0 e) p))
  | inr e ↦ elim (lookup-cases P rows name ps) [
    | inl missing ↦ inl (rw e missing)
    | inr (i, (found, q)) ↦ inr (i, (rw e found, q))
  ]
]

every_row : AllRows (λ n id. get_or id_to_exchange_table id "" ≡ n) exchange_to_id_table
every_row = cons "binance" 1 refl (
    cons "okx" 2 refl (
      cons "bybit" 3 refl (
        cons "bitget" 4 refl (
          cons "kucoin" 5 refl
            (cons "hyperliquid" 6 refl (cons "paradex" 7 refl (cons "gateio" 8 refl nil)))))))

-- A name has the id 0, or an id whose name is its lower case.
pub id_to_exchange-exchange_to_id :
    (to_lowercase : String → String) (exchange : String)
    → (exchange_to_id to_lowercase exchange ≡ 0)
      ⊎ (id_to_exchange (exchange_to_id to_lowercase exchange) ≡ to_lowercase exchange)
unfolding exchange_to_id id_to_exchange
id_to_exchange-exchange_to_id to_lowercase exchange =
    elim (lookup-cases (λ n id. get_or id_to_exchange_table id "" ≡ n) exchange_to_id_table
      (to_lowercase exchange) every_row) [
        | inl e ↦ inl (rw e refl)
        | inr (id, (e, named)) ↦ inr (rw e named)
      ]

known : (i : ℕ) → 1 ≤ i → i ≤ 8 → unwrap_or (lookup exchange_to_id_table (id_to_exchange i)) 0 ≡ i
unfolding id_to_exchange
known zero low high = absurd (omega arith)
known (suc (zero)) low high = refl
known (suc (suc (zero))) low high = refl
known (suc (suc (suc (zero)))) low high = refl
known (suc (suc (suc (suc (zero))))) low high = refl
known (suc (suc (suc (suc (suc (zero)))))) low high = refl
known (suc (suc (suc (suc (suc (suc (zero))))))) low high = refl
known (suc (suc (suc (suc (suc (suc (suc (zero)))))))) low high = refl
known (suc (suc (suc (suc (suc (suc (suc (suc (zero))))))))) low high = refl
known (suc (suc (suc (suc (suc (suc (suc (suc (suc (n)))))))))) low high = absurd (omega arith)

-- The ids from 1 to 8 are those of their own names, if those names are their own lower case.
pub exchange_to_id-id_to_exchange :
    (to_lowercase : String → String) (i : ℕ)
    → 1 ≤ i
    → i ≤ 8
    → to_lowercase (id_to_exchange i) ≡ id_to_exchange i
    → exchange_to_id to_lowercase (id_to_exchange i) ≡ i
unfolding exchange_to_id
exchange_to_id-id_to_exchange to_lowercase i low high e = rw e (known i low high)
