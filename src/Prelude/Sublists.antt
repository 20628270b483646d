-- ===== src/Prelude/Sublists.antt =====
-- One list is another with entries left out.
use mathlib.Core.List.{List, [], ◌∷◌, ◌++◌}

pub data Subseq {ℓ} {A : Type ℓ} : List A → List A → Type ℓ where
  done : Subseq [] []
  keep : {x : A} {xs ys : List A} → Subseq xs ys → Subseq (x ∷ xs) (x ∷ ys)
  skip : {y : A} {xs ys : List A} → Subseq xs ys → Subseq xs (y ∷ ys)

module _ {ℓ} {A : Type ℓ} where
  pub Subseq-refl : (xs : List A) → Subseq xs xs
  Subseq-refl [] = done
  Subseq-refl (x ∷ xs) = keep (Subseq-refl xs)

  pub Subseq-append : {xs ys : List A} (zs : List A) → Subseq xs ys → Subseq (xs ++ zs) (ys ++ zs)
  Subseq-append zs done = Subseq-refl zs
  Subseq-append zs (keep h) = keep (Subseq-append zs h)
  Subseq-append zs (skip h) = skip (Subseq-append zs h)

  pub Subseq-trans : {ys zs : List A} → Subseq ys zs → {xs : List A} → Subseq xs ys → Subseq xs zs
  Subseq-trans done h = h
  Subseq-trans (skip k) h = skip (Subseq-trans k h)
  Subseq-trans (keep k) (keep h) = keep (Subseq-trans k h)
  Subseq-trans (keep k) (skip h) = skip (Subseq-trans k h)

  Subseq-without : (xs : List A) (y : A) (zs : List A) → Subseq (xs ++ zs) (xs ++ y ∷ zs)
  Subseq-without [] y zs = skip (Subseq-refl zs)
  Subseq-without (x ∷ xs) y zs = keep (Subseq-without xs y zs)

  -- Leaving out one entry more.
  pub Subseq-cut :
      (xs : List A) (y : A) (zs : List A) {ws : List A}
      → Subseq (xs ++ y ∷ zs) ws
      → Subseq (xs ++ zs) ws
  Subseq-cut xs y zs h = Subseq-trans h (Subseq-without xs y zs)
