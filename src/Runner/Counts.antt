-- ===== src/Runner/Counts.antt =====
-- How many trades of the map of src/strategy/runner.rs pass a test, when one is inserted or removed.
use Prim.Native.String.{String}
use text.Mathlib.Text.{◌==◌ as same_text}
use text.Mathlib.TextEquality.{eq_iff}
use funding_spread_arbitrage.Prelude.{
  ◌+◌, ◌≤◌, ◌≡◌, refl, subst, inl, inr, arith, Bool, true, false, Bool-cases, List, [], ◌∷◌,
  count_if,
}
use funding_spread_arbitrage.Types.Trade.{PaperTrade}
use funding_spread_arbitrage.Entry.Steady.{same}
use funding_spread_arbitrage.Runner.Checks.{occupies, any_occupies}
use funding_spread_arbitrage.Runner.Trades.{TradeMap, IsTradeMap, besides}

-- Counting with two tests, of which one implies the other.
count_if_mono :
    {A : Type 0} (p q : A → Bool) (xs : List A)
    → ((x : A) → p x ≡ true → q x ≡ true)
    → count_if p xs ≤ count_if q xs
count_if_mono p q [] h = omega arith
count_if_mono p q (x ∷ xs) h = elim (Bool-cases (p x)) [
  | inl e ↦ rw (e, h x e) (omega (arith, count_if_mono p q xs h))
  | inr e ↦ elim (Bool-cases (q x)) [
    | inl f ↦ rw (e, f) (omega (arith, count_if_mono p q xs h))
    | inr f ↦ rw (e, f) (count_if_mono p q xs h)
  ]
]

module _ {F : Type 0} where
  pub unoccupied :
      (symbol : String) (es : List (String × PaperTrade F))
      → any_occupies symbol es ≡ false
      → count_if (occupies symbol) es ≡ 0
  unfolding any_occupies
  unoccupied symbol [] h = refl
  unoccupied symbol (e ∷ es) h = elim (Bool-cases (occupies symbol e)) [
    | inl p ↦ absurd (ground (arith, h, p))
    | inr p ↦ rw p (unoccupied symbol es (ground (arith, h, p)))
  ]

  besides-weaker :
      (id : String) (p : String × PaperTrade F → Bool) (e : String × PaperTrade F)
      → besides id p e ≡ true
      → p e ≡ true
  besides-weaker id p e h = ground (arith, h)

module _ {T F : Type 0} ⦃m : TradeMap T F⦄ ⦃laws : IsTradeMap T F⦄ where
  pub removed_few :
      (t : T) (id : String) (p : String × PaperTrade F → Bool)
      → count_if p (m.entries (m.remove t id)) ≤ count_if p (m.entries t)
  removed_few t id p =
      rw (laws.entries-remove t id p)
        (count_if_mono (besides id p) p (m.entries t) (besides-weaker id p))

  inserted_few :
      (t : T) (id : String) (trade : PaperTrade F) (p : String × PaperTrade F → Bool)
      → count_if p (m.entries (m.insert t id trade))
        ≤ count_if p ((id, trade) ∷ []) + count_if p (m.entries t)
  inserted_few t id trade p =
      rw (laws.entries-insert t id trade p)
        (omega (arith, count_if_mono (besides id p) p (m.entries t) (besides-weaker id p)))

  -- A trade that is inserted and removed again leaves no entry behind.
  pub put_back :
      (t : T) (id : String) (trade : PaperTrade F) (p : String × PaperTrade F → Bool)
      → count_if p (m.entries (m.remove (m.insert t id trade) id)) ≤ count_if p (m.entries t)
  put_back t id trade p =
      let one : count_if (besides id p) ((id, trade) ∷ []) ≡ 0 = rw (same id) refl in
      rw
        (
          laws.entries-remove (m.insert t id trade) id p,
          laws.entries-insert t id trade (besides id p),
          one,
        )
        (omega (
          arith,
          count_if_mono (besides id (besides id p)) p (m.entries t)
              (λ e h. besides-weaker id p e (besides-weaker id (besides id p) e h)),
        ))

  -- A trade of a symbol that no other occupies leaves one at most of each symbol.
  pub one_added :
      (t : T) (trade : PaperTrade F) (symbol : String)
      → count_if (occupies trade.symbol) (m.entries t) ≡ 0
      → count_if (occupies symbol) (m.entries t) ≤ 1
      → count_if (occupies symbol) (m.entries (m.insert t trade.id trade)) ≤ 1
  one_added t trade symbol h k =
      let few = inserted_few t trade.id trade (occupies symbol) in
      elim (Bool-cases (same_text trade.symbol symbol)) [
        | inl e ↦
            let z : count_if (occupies symbol) (m.entries t) ≡ 0 =
              subst (λ s. count_if (occupies s) (m.entries t) ≡ 0)
                ((eq_iff trade.symbol symbol).0 e) h in
            ground (arith, few, z)
        | inr e ↦ ground (arith, few, e, k)
      ]
