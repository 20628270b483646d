-- ===== src/Portfolio/Ledger.antt =====
-- What a sequence of `open_trade` and `close_trade` keeps true of the books.
use Prim.Native.String.{String}
use text.Mathlib.Text.{◌==◌ as same_text}
use text.Mathlib.TextEquality.{eq_iff}
use funding_spread_arbitrage.Prelude.{
  ℕ, suc, ◌+◌, ◌%◌, ◌^◌, ◌≡◌, inl, inr, refl, Bool, true, false, ◌&&◌, List, [], ◌∷◌, none, some,
  arith, length, length-append, if◌then◌else◌, Bool-cases, count_if, count_if-append, count_if-move,
  remove_first-cases,
}
use funding_spread_arbitrage.Double.{Double, lit, ◌⊖◌, ◌≺◌}
use funding_spread_arbitrage.Types.Trade.{PaperTrade, TradeStatus, PortfolioState}
use funding_spread_arbitrage.Portfolio.{
  Redis, redis_error, open_trade, close_trade, new, opened, remove_trade, stored, exited,
}

module _ {F : Type 0} where
  abbrev pub has_id : String → PaperTrade F → Bool
  has_id id t = same_text t.id id

  -- Closed, with a reason and a time.
  abbrev pub is_settled : PaperTrade F → Bool
  is_settled t = elim t.status [
    | TradeStatus.closed ↦ elim t.exit_reason [
      | none ↦ false
      | some _ ↦ elim t.exit_time [ none ↦ false | some _ ↦ true ]
    ]
    | _ ↦ false
  ]

  -- How many trades of the books have an id.
  abbrev pub held : String → PortfolioState F → ℕ
  held id s = count_if (has_id id) s.active_trades + count_if (has_id id) s.closed_trades

  -- All closed trades are settled, and each is counted once, as a win or as a loss.
  pub record IsLedger (s : PortfolioState F) : Type 0 where
    pub settled : count_if is_settled s.closed_trades ≡ length s.closed_trades
    pub counted : (s.win_count + s.loss_count) % 2 ^ 64 ≡ length s.closed_trades % 2 ^ 64

-- A call, with what Redis and the clock do in it.
pub data Call (F : Type 0) : Type 0 where
  opens : Redis F → PaperTrade F → Call F
  closes : Redis F → String → F → String → ℕ → Call F

module _ {F : Type 0} ⦃d : Double F⦄ where
  unfoldable pub step : PortfolioState F → Call F → PortfolioState F
  step s (opens r t) = (open_trade r s t).0
  step s (closes r id profit reason now) = (close_trade r s id profit reason now).0

  unfoldable pub run : PortfolioState F → List (Call F) → PortfolioState F
  run s [] = s
  run s (c ∷ cs) = run (step s c) cs

  -- How many trades with an id a call brings in: one, if it opens such a trade and the capital
  -- that is available suffices.
  abbrev pub entered : String → PortfolioState F → Call F → ℕ
  entered id s (opens r t) =
      if s.available_capital ≺ t.position_size_usd then 0 else (if has_id id t then 1 else 0)
  entered id s (closes r i profit reason now) = 0

  abbrev pub entered_all : String → PortfolioState F → List (Call F) → ℕ
  entered_all id s [] = 0
  entered_all id s (c ∷ cs) = entered id s c + entered_all id (step s c) cs

  record Kept (s : PortfolioState F) (n : String → ℕ) (s' : PortfolioState F) : Type 0 where
    ledger : IsLedger s → IsLedger s'
    holds : (id : String) → held id s' ≡ held id s + n id

  open_trade-Kept :
      (r : Redis F) (s : PortfolioState F) (t : PaperTrade F)
      → Kept s (λ id. entered id s (opens r t)) (open_trade r s t).0
  unfolding open_trade
  open_trade-Kept r s t = elim (Bool-cases (s.available_capital ≺ t.position_size_usd)) [
    | inl e ↦ rw e record { ledger = λ w. w; holds = λ id. omega arith }
    | inr e ↦ rw e record {
      ledger = λ w. record { settled = w.settled; counted = w.counted };
      holds = λ id. omega (arith, count_if-append (has_id id) s.active_trades (t ∷ []));
    }
  ]

  close_trade-Kept :
      (r : Redis F) (s : PortfolioState F) (id : String) (profit : F) (reason : String) (now : ℕ)
      → Kept s (λ _. 0) (close_trade r s id profit reason now).0
  unfolding close_trade remove_trade
  close_trade-Kept r s id profit reason now =
      elim (remove_first-cases (has_id id) s.active_trades) [
        | inl (missing, none_left) ↦
            rw (close_trade, missing) record { ledger = λ w. w; holds = λ i. omega arith }
        | inr (t, (rest, (found, taken))) ↦
            let u : PaperTrade F = exited t profit reason now in
            rw (close_trade, found)
              record {
                ledger = λ w. record {
                  settled = omega (
                    arith,
                    w.settled,
                    count_if-append is_settled s.closed_trades (u ∷ []),
                    length-append s.closed_trades (u ∷ []),
                  );
                  counted = elim (Bool-cases (lit 0 0 ≺ profit)) [
                    | inl e ↦
                        rw e (omega (arith, w.counted, length-append s.closed_trades (u ∷ [])))
                    | inr e ↦
                        rw e (omega (arith, w.counted, length-append s.closed_trades (u ∷ [])))
                  ];
                };
                holds = λ i. omega (
                  arith,
                  taken.kept (has_id i),
                  count_if-move (has_id i) t u rest refl,
                  count_if-append (has_id i) s.closed_trades (u ∷ []),
                );
              }
      ]

  step-Kept : (s : PortfolioState F) (c : Call F) → Kept s (λ id. entered id s c) (step s c)
  unfolding step
  step-Kept s (opens r t) = open_trade-Kept r s t
  step-Kept s (closes r id profit reason now) = close_trade-Kept r s id profit reason now

  run-Kept :
      (s : PortfolioState F) (cs : List (Call F)) → Kept s (λ id. entered_all id s cs) (run s cs)
  unfolding run
  run-Kept s [] = record { ledger = λ w. w; holds = λ id. omega arith }
  run-Kept s (c ∷ cs) =
      let one = step-Kept s c in
      let rest = run-Kept (step s c) cs in
      record {
        ledger = λ w. rest.ledger (one.ledger w);
        holds = λ id. omega (arith, one.holds id, rest.holds id);
      }

  -- Whatever trades are opened and closed from a new portfolio, and whichever calls of Redis fail,
  -- every trade that was opened is in the books once, active or closed; the closed trades carry
  -- their status, their reason and their time, and wins and losses add up to their number.
  pub books_balance :
      (capital : F) (cs : List (Call F)) (id : String)
      → let s = run (new capital) cs in
        (held id s ≡ entered_all id (new capital) cs)
        × (count_if is_settled s.closed_trades ≡ length s.closed_trades)
        × ((s.win_count + s.loss_count) % 2 ^ 64 ≡ length s.closed_trades % 2 ^ 64)
  unfolding new
  books_balance capital cs id =
      let all = run-Kept (new capital) cs in
      let w : IsLedger (run (new capital) cs) =
        all.ledger record { settled = refl; counted = refl } in
      (omega (arith, all.holds id), w.settled, w.counted)

  -- An error of Redis does not undo `open_trade`: if the position does not exceed the available
  -- capital and a command of Redis fails, the call answers with the error, the trade is in the
  -- books once more than before, and its capital is deducted.
  pub failed_open_stays_open :
      (r : Redis F) (s : PortfolioState F) (t : PaperTrade F)
      → (s.available_capital ≺ t.position_size_usd) ≡ false
      → r.logs t && r.persists (opened s t) ≡ false
      → ((open_trade r s t).1 ≡ redis_error)
        × (held t.id (open_trade r s t).0 ≡ suc (held t.id s))
        × ((open_trade r s t).0.available_capital ≡ s.available_capital ⊖ t.position_size_usd)
  unfolding open_trade
  failed_open_stays_open r s t e h =
      let same : same_text t.id t.id ≡ true = (eq_iff t.id t.id).1 refl in
      let more : held t.id (opened s t) ≡ suc (held t.id s) =
        omega (arith, count_if-append (has_id t.id) s.active_trades (t ∷ []), one same) in
      let failed : stored r t (opened s t) ≡ redis_error = elim (Bool-cases (r.logs t)) [
        | inl l ↦ rw (l, with_log l) refl
        | inr l ↦ rw l refl
      ] in
      rw e (failed, more, refl)
    where
      one : has_id t.id t ≡ true → count_if (has_id t.id) (t ∷ []) ≡ 1
      one k = rw k refl

      with_log : r.logs t ≡ true → r.persists (opened s t) ≡ false
      with_log l = ground arith
