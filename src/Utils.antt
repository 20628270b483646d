-- ===== src/Utils.antt =====
-- `chunk_vec` and the backoff of src/utils.rs.
use native.Mathlib.Nat.{pow-suc}
use funding_spread_arbitrage.Prelude.{
  true, ℕ, zero, suc, ◌+◌, ◌-◌, ◌*◌, ◌%◌, ◌^◌, ◌≤◌, ◌<◌, ◌≡◌, refl, sym, ap, ◌∙◌, inl, inr, min,
  List, [], ◌∷◌, ◌++◌, Option, none, some, arith, ltb, ◌==◌, if◌then◌else◌, length, take, drop,
  length-drop, drop-drop, false, All, all_nil, all_cons, Bool-cases,
}

module _ {A : Type 0} where
  -- `items[start..end]`, for `start <= end <= items.len()`
  abbrev slice : List A → ℕ → ℕ → List A
  slice items start end = take (end - start) (drop start items)

  -- The loop from an index on. `none` says that the fuel is spent.
  unfoldable chunks_from : ℕ → List A → ℕ → ℕ → Option (List (List A))
  chunks_from zero items chunk_size idx = none
  chunks_from (suc fuel) items chunk_size idx =
      let end = min (idx + chunk_size) (length items) in
      let rest = chunks_from fuel items chunk_size end in
      if ltb idx (length items)
      then (elim rest [ none ↦ none | some chunks ↦ some (slice items idx end ∷ chunks) ])
      else some []

  unfoldable pub chunk_vec : ℕ → List A → ℕ → Option (List (List A))
  unfolding chunks_from
  chunk_vec fuel items chunk_size =
      if chunk_size == 0 then some [] else chunks_from fuel items chunk_size 0

  abbrev pub flatten : List (List A) → List A
  flatten [] = []
  flatten (c ∷ cs) = c ++ flatten cs

  pub record IsChunk (size : ℕ) (c : List A) : Type 0 where
    pub some_item : 0 < length c
    pub bounded : length c ≤ size

  length-take : (n : ℕ) (xs : List A) → length (take n xs) ≡ min n (length xs)
  length-take zero xs = omega arith
  length-take (suc n) [] = omega arith
  length-take (suc n) (x ∷ xs) = omega (arith, length-take n xs)

  take-drop : (n : ℕ) (xs : List A) → take n xs ++ drop n xs ≡ xs
  take-drop zero xs = refl
  take-drop (suc n) [] = refl
  take-drop (suc n) (x ∷ xs) = ap (λ l. x ∷ l) (take-drop n xs)

  drop-of_le : (n : ℕ) (xs : List A) → length xs ≤ n → drop n xs ≡ []
  drop-of_le zero [] h = refl
  drop-of_le zero (x ∷ xs) h = absurd (omega arith)
  drop-of_le (suc n) [] h = refl
  drop-of_le (suc n) (x ∷ xs) h = drop-of_le n xs (omega arith)

  -- A slice and what follows it.
  slice-drop : (i n : ℕ) (xs : List A) → i ≤ n → slice xs i n ++ drop n xs ≡ drop i xs
  slice-drop i n xs h =
      ap (λ k. slice xs i n ++ drop k xs) (omega arith)
      ∙ ap (λ l. slice xs i n ++ l) (sym (drop-drop (n - i) i xs))
      ∙ take-drop (n - i) (drop i xs)

  -- Chunks that make up the items from an index on.
  pub record Chunked (items : List A) (size idx : ℕ) (o : Option (List (List A))) : Type 0 where
    pub chunks : List (List A)
    pub made : o ≡ some chunks
    pub complete : flatten chunks ≡ drop idx items
    pub sized : All (IsChunk size) chunks

  chunks_from-Chunked :
      (items : List A) (size idx fuel : ℕ)
      → 0 < size
      → idx ≤ length items
      → length items < idx + fuel
      → Chunked items size idx (chunks_from fuel items size idx)
  unfolding chunks_from
  chunks_from-Chunked items size idx zero pos le enough = absurd (omega arith)
  chunks_from-Chunked items size idx (suc fuel) pos le enough =
      let end = min (idx + size) (length items) in
      elim (Bool-cases (ltb idx (length items))) [
        | inr p ↦
            rw (chunks_from, p)
              record {
                chunks = [];
                made = refl;
                complete = sym (drop-of_le idx items (ground (arith, p)));
                sized = all_nil;
              }
        | inl p ↦
            let within : idx < length items = ground (arith, p) in
            let rest = chunks_from-Chunked items size end fuel pos (omega arith) (omega arith) in
            let n = length-take (end - idx) (drop idx items) in
            let m = length-drop idx items in
            rw (chunks_from, p, rest.made)
              record {
                chunks = slice items idx end ∷ rest.chunks;
                made = refl;
                complete =
                    ap (λ l. slice items idx end ++ l) rest.complete
                    ∙ slice-drop idx end items (omega arith);
                sized =
                    all_cons
                      record { some_item = omega (arith, n, m); bounded = omega (arith, n, m) }
                      rest.sized;
              }
      ]

  -- With a chunk size above zero and a turn for each item and one more, chunk_vec answers with
  -- chunks that are the items in their order when they are put together, none of them empty and
  -- none longer than the chunk size.
  chunk_vec-Chunked :
      (items : List A) (size : ℕ)
      → 0 < size
      → Chunked items size 0 (chunk_vec (suc (length items)) items size)
  unfolding chunk_vec
  chunk_vec-Chunked items size pos =
      let not_zero : (size == 0) ≡ false = ground arith in
      rw (chunk_vec, not_zero)
        (chunks_from-Chunked items size 0 (suc (length items)) pos (omega arith) (omega arith))

-- The new backoff, and the time slept.
unfoldable pub apply_backoff : ℕ → ℕ × ℕ
apply_backoff backoff_ms =
    if ltb 0 backoff_ms then (min (backoff_ms * 2 % 2 ^ 64) 10_000, backoff_ms) else (250, 0)

abbrev pub reset_backoff : ℕ → ℕ
reset_backoff backoff_ms = 0

-- The backoff after so many calls that follow a reset.
abbrev pub backoff_after : ℕ → ℕ
backoff_after zero = reset_backoff 0
backoff_after (suc n) = (apply_backoff (backoff_after n)).0

twice : (b : ℕ) → 0 < b → b ≤ 10_000 → (apply_backoff b).0 ≡ min (b * 2) 10_000
unfolding apply_backoff
twice b pos small =
    let positive : ltb 0 b ≡ true = ground arith in rw (apply_backoff, positive) (omega arith)

pow_pos : (n : ℕ) → 0 < 2 ^ n
pow_pos zero = omega arith
pow_pos (suc n) = omega (arith, pow_pos n, pow-suc 2 n)

-- After a reset the first call sets the backoff to 250 milliseconds, and each one after it doubles
-- it, up to ten seconds.
pub backoff_doubles : (n : ℕ) → backoff_after (suc n) ≡ min (250 * 2 ^ n) 10_000
unfolding apply_backoff
backoff_doubles zero = refl
backoff_doubles (suc n) =
    let b = backoff_after (suc n) in
    let e = backoff_doubles n in
    omega (arith, twice b (omega (arith, e, pow_pos n)) (omega (arith, e)), e, pow-suc 2 n)
