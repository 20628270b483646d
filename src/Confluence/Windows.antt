-- ===== src/Confluence/Windows.antt =====
-- The histories are sliding windows.
use funding_spread_arbitrage.Prelude.{
  ℕ, ◌≡◌, sym, ◌∙◌, inl, inr, List, [], ◌∷◌, ◌++◌, arith, ltb, length, length-append, keep_last,
  keep_last-append, keep_last-of_le, keep_last-drop_one, length-keep_last, append_assoc, append-nil,
  Bool-cases,
}
use funding_spread_arbitrage.Confluence.{
  ConfluenceCalculator, new, push_window, update_oi_history, update_vwap_history,
  update_atr_history,
}

push_window-keep_last :
    {A : Type 0} (n : ℕ) (seen : List A) (x : A)
    → push_window n (keep_last n seen) x ≡ keep_last n (seen ++ x ∷ [])
push_window-keep_last n seen x =
    let w = keep_last n seen in
    let short = length-keep_last n seen in
    let longer = length-append w (x ∷ []) in
    elim (Bool-cases (ltb n (length (w ++ x ∷ [])))) [
      | inl p ↦
          rw (push_window, p)
            (sym (keep_last-drop_one n (w ++ x ∷ []) (ground (arith, p, short, longer)))
              ∙ keep_last-append n seen (x ∷ []))
      | inr p ↦
          rw (push_window, p)
            (sym (keep_last-of_le n (w ++ x ∷ []) (ground (arith, p)))
              ∙ keep_last-append n seen (x ∷ []))
    ]

-- A call that updates a history.
pub data Update (F : Type 0) : Type 0 where
  oi : F → Update F
  vwap : F → F → Update F
  atr : F → Update F

module _ {F : Type 0} where
  abbrev pub apply : ConfluenceCalculator F → Update F → ConfluenceCalculator F
  apply s (oi a) = update_oi_history s a
  apply s (vwap p v) = update_vwap_history s p v
  apply s (atr a) = update_atr_history s a

  abbrev pub apply_all : ConfluenceCalculator F → List (Update F) → ConfluenceCalculator F
  apply_all s [] = s
  apply_all s (u ∷ us) = apply_all (apply s u) us

  -- What was given to each history.
  abbrev pub ois : List (Update F) → List F
  ois [] = []
  ois (oi a ∷ us) = a ∷ ois us
  ois (_ ∷ us) = ois us

  abbrev pub vwaps : List (Update F) → List (F × F)
  vwaps [] = []
  vwaps (vwap p v ∷ us) = (p, v) ∷ vwaps us
  vwaps (_ ∷ us) = vwaps us

  abbrev pub atrs : List (Update F) → List F
  atrs [] = []
  atrs (atr a ∷ us) = a ∷ atrs us
  atrs (_ ∷ us) = atrs us

  -- The histories are the last entries of what was given.
  pub record Windows (s : ConfluenceCalculator F) (os : List F) (vs : List (F × F)) (rs : List F)
      : Type 0 where
    pub oi_window : s.oi_history ≡ keep_last 24 os
    pub vwap_window : s.vwap_history ≡ keep_last 3600 vs
    pub atr_window : s.atr_history ≡ keep_last 14 rs

  apply_all-Windows :
      (us : List (Update F)) (s : ConfluenceCalculator F) (os : List F) (vs : List (F × F))
      (rs : List F)
      → Windows s os vs rs
      → Windows (apply_all s us) (os ++ ois us) (vs ++ vwaps us) (rs ++ atrs us)
  unfolding update_oi_history update_vwap_history update_atr_history
  apply_all-Windows [] s os vs rs h = rw (append-nil os, append-nil vs, append-nil rs) h
  apply_all-Windows (oi a ∷ us) s os vs rs h = rw (sym (append_assoc os (a ∷ []) (ois us))) (
      apply_all-Windows us (apply s (oi a)) (os ++ a ∷ []) vs rs record {
        oi_window = rw h.oi_window (push_window-keep_last 24 os a);
        vwap_window = h.vwap_window;
        atr_window = h.atr_window;
      })
  apply_all-Windows (vwap p v ∷ us) s os vs rs h =
      rw (sym (append_assoc vs ((p, v) ∷ []) (vwaps us))) (
        apply_all-Windows us (apply s (vwap p v)) os (vs ++ (p, v) ∷ []) rs record {
          oi_window = h.oi_window;
          vwap_window = rw h.vwap_window (push_window-keep_last 3600 vs (p, v));
          atr_window = h.atr_window;
        })
  apply_all-Windows (atr a ∷ us) s os vs rs h = rw (sym (append_assoc rs (a ∷ []) (atrs us))) (
      apply_all-Windows us (apply s (atr a)) os vs (rs ++ a ∷ []) record {
        oi_window = h.oi_window;
        vwap_window = h.vwap_window;
        atr_window = rw h.atr_window (push_window-keep_last 14 rs a);
      })

  -- Whatever the order of the calls, each history of a new calculator is the newest of what was
  -- given to it, oldest first: up to 24 open interests, 3600 prices with their volumes, and 14
  -- average true ranges.
  histories-Windows :
      (us : List (Update F)) → Windows (apply_all new us) (ois us) (vwaps us) (atrs us)
  unfolding new
  histories-Windows us = apply_all-Windows us new [] [] [] record {
    oi_window = sym (keep_last-of_le 24 [] (omega arith));
    vwap_window = sym (keep_last-of_le 3600 [] (omega arith));
    atr_window = sym (keep_last-of_le 14 [] (omega arith));
  }
