-- ===== src/Runner/Trades.antt =====
-- The map of the trades of src/strategy/runner.rs, a `DashMap<String, PaperTrade>` of which the code
-- goes through the entries, inserts and removes: an interface, with the laws of a map.
use Prim.Native.String.{String}
use text.Mathlib.Text.{◌==◌ as same_text}
use funding_spread_arbitrage.Prelude.{◌+◌, ◌≡◌, Bool, not, ◌&&◌, List, [], ◌∷◌, count_if}
use funding_spread_arbitrage.Types.Trade.{PaperTrade}

abbrev pub Entry : Type 0 → Type 0
Entry F = String × PaperTrade F

pub record TradeMap (T F : Type 0) : Type 0 where
  pub entries : T → List (Entry F)
  pub insert : T → String → PaperTrade F → T
  pub remove : T → String → T

module _ {F : Type 0} where
  -- A test of the entries under other keys.
  abbrev pub besides : String → (Entry F → Bool) → Entry F → Bool
  besides id p e = not (same_text e.0 id) && p e

-- A removal leaves the entries under other keys, and an insertion adds one to them, in any order.
pub record IsTradeMap (T F : Type 0) ⦃m : TradeMap T F⦄ : Type 0 where
  pub entries-remove :
      (t : T) (id : String) (p : Entry F → Bool)
      → count_if p (m.entries (m.remove t id)) ≡ count_if (besides id p) (m.entries t)
  pub entries-insert :
      (t : T) (id : String) (trade : PaperTrade F) (p : Entry F → Bool)
      → count_if p (m.entries (m.insert t id trade))
        ≡ count_if p ((id, trade) ∷ []) + count_if (besides id p) (m.entries t)
