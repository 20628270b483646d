-- ===== src/SymbolMap.antt =====
-- `SymbolMap` of src/strategy/symbol_map.rs: ids of (exchange, symbol) pairs, in both directions.
-- A call runs here as one step; `SymbolMap.Threads` takes `get_or_insert` apart.
pub mod Laws
pub mod Threads
use Prim.Native.String.{String}
use funding_spread_arbitrage.Prelude.{
  ℕ, suc, ◌%◌, ◌^◌, ◌==◌, Bool, List, [], ◌∷◌, Option, none, some,
}
use funding_spread_arbitrage.DashMap.{DashMap}

abbrev pub Pair : Type 0
Pair = String × String

pub record SymbolMap (M N : Type 0) : Type 0 where
  pub to_id : M
  pub from_id : N
  pub next_id : ℕ

abbrev pub common_exchanges : List String
common_exchanges = "bybit" ∷ "okx" ∷ "kucoin" ∷ "bitget" ∷ "hyperliquid" ∷ "paradex" ∷ []

abbrev pub common_symbols : List String
common_symbols =
    "BTCUSDT" ∷ "ETHUSDT" ∷ "SOLUSDT" ∷ "BNBUSDT" ∷ "XRPUSDT" ∷ "ADAUSDT" ∷ "DOGEUSDT" ∷ "MATICUSDT"
    ∷ "DOTUSDT" ∷ "AVAXUSDT" ∷ []

-- `fetch_add(1)` on an `AtomicU32`
abbrev pub next : ℕ → ℕ
next n = suc n % 2 ^ 32

module _ {M N : Type 0} ⦃t : DashMap M Pair ℕ⦄ ⦃f : DashMap N ℕ Pair⦄ where
  -- the entry of the slow path: occupied, or vacant
  abbrev at_entry : SymbolMap M N → Pair → ℕ → Option ℕ → SymbolMap M N × ℕ
  at_entry s key new_id (some id) = (s, id)
  at_entry s key new_id none = (
    record s { to_id = t.insert s.to_id key new_id; from_id = f.insert s.from_id new_id key },
    new_id,
  )

  abbrev at_lookup : SymbolMap M N → Pair → Option ℕ → SymbolMap M N × ℕ
  at_lookup s key (some id) = (s, id)
  at_lookup s key none =
      let s' = record s { next_id = next s.next_id } in
      at_entry s' key s.next_id (t.get s'.to_id key)

  unfoldable pub get_or_insert : SymbolMap M N → String → String → SymbolMap M N × ℕ
  get_or_insert s exchange symbol =
      let key : Pair = (exchange, symbol) in at_lookup s key (t.get s.to_id key)

  unfoldable pub get : SymbolMap M N → ℕ → Option Pair
  get s symbol_id = f.get s.from_id symbol_id

  unfoldable pub len : SymbolMap M N → ℕ
  len s = t.len s.to_id

  unfoldable pub is_empty : SymbolMap M N → Bool
  is_empty s = t.len s.to_id == 0

  -- the two loops of `preallocate_common_symbols`
  unfoldable pub preallocate_symbols : SymbolMap M N → String → List String → SymbolMap M N
  preallocate_symbols s exchange [] = s
  preallocate_symbols s exchange (symbol ∷ symbols) =
      preallocate_symbols (get_or_insert s exchange symbol).0 exchange symbols

  unfoldable pub preallocate : SymbolMap M N → List String → List String → SymbolMap M N
  preallocate s [] symbols = s
  preallocate s (exchange ∷ exchanges) symbols =
      preallocate (preallocate_symbols s exchange symbols) exchanges symbols

  abbrev pub fresh : SymbolMap M N
  fresh = record { to_id = t.empty; from_id = f.empty; next_id = 1 }

  unfoldable pub new : SymbolMap M N
  unfolding preallocate
  new = preallocate fresh common_exchanges common_symbols
