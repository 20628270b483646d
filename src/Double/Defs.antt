-- ===== src/Double/Defs.antt =====
-- The operations of `f64` that the code uses, and the laws of IEEE 754 that theorems rest on.
use funding_spread_arbitrage.Prelude.{ℕ, ◌^◌, ◌≤◌, ◌<◌, ◌≡◌, Bool, true, false}

-- `lit n k` is the literal n · 10^-k, rounded; `of_nat` is `as f64`, and `to_uint w` is the
-- saturating cast to the unsigned type of w bits. Comparisons with a not-a-number are false.
pub record Double (F : Type 0) : Type 0 where
  pub lit : ℕ → ℕ → F
  pub of_nat : ℕ → F
  pub to_uint : ℕ → F → ℕ
  pub neg : F → F
  pub abs : F → F
  pub fmin : F → F → F
  pub fmax : F → F → F
  pub add : F → F → F
  pub sub : F → F → F
  pub mul : F → F → F
  pub div : F → F → F
  pub lt : F → F → Bool
  pub le : F → F → Bool
  pub eq : F → F → Bool

infixl 65 ◌⊕◌ ◌⊖◌
infixl 70 ◌⊗◌ ◌⊘◌
infix 50 ◌≺◌ ◌≼◌ ◌≈◌
module _ {F : Type 0} ⦃d : Double F⦄ where
  abbrev pub lit : ℕ → ℕ → F
  lit = d.lit

  abbrev pub of_nat : ℕ → F
  of_nat = d.of_nat

  abbrev pub to_uint : ℕ → F → ℕ
  to_uint = d.to_uint

  abbrev pub neg : F → F
  neg = d.neg

  abbrev pub abs : F → F
  abs = d.abs

  abbrev pub fmin : F → F → F
  fmin = d.fmin

  abbrev pub fmax : F → F → F
  fmax = d.fmax

  abbrev pub ◌⊕◌ : F → F → F
  ◌⊕◌ = d.add

  abbrev pub ◌⊖◌ : F → F → F
  ◌⊖◌ = d.sub

  abbrev pub ◌⊗◌ : F → F → F
  ◌⊗◌ = d.mul

  abbrev pub ◌⊘◌ : F → F → F
  ◌⊘◌ = d.div

  -- The tests `<`, `<=` and `==`. `a > b` is written `b ≺ a`, as IEEE 754 has it.
  abbrev pub ◌≺◌ : F → F → Bool
  ◌≺◌ = d.lt

  abbrev pub ◌≼◌ : F → F → Bool
  ◌≼◌ = d.le

  abbrev pub ◌≈◌ : F → F → Bool
  ◌≈◌ = d.eq

-- A value is a number, no not-a-number, when it is `<=` itself.
pub record IsIeee (F : Type 0) ⦃d : Double F⦄ : Type 0 where
  pub lt_irrefl : (x : F) → (x ≺ x) ≡ false
  pub le_of_lt : (x y : F) → (x ≺ y) ≡ true → (x ≼ y) ≡ true
  pub le_lt_trans : (x y z : F) → (x ≼ y) ≡ true → (y ≺ z) ≡ true → (x ≺ z) ≡ true
  pub lt_le_trans : (x y z : F) → (x ≺ y) ≡ true → (y ≼ z) ≡ true → (x ≺ z) ≡ true
  -- Of two numbers one is `<=` the other unless it is greater.
  pub not_lt_le : (x y : F) → (x ≼ x) ≡ true → (y ≼ y) ≡ true → (x ≺ y) ≡ false → (y ≼ x) ≡ true
  -- What compares is a number.
  pub num_of_le : (x y : F) → (x ≼ y) ≡ true → ((x ≼ x) ≡ true) × ((y ≼ y) ≡ true)
  -- Rounding is monotone: a literal keeps its order, and a sum that is a number grows with a term.
  pub lit_mono : (m n k : ℕ) → m ≤ n → d.le (d.lit m k) (d.lit n k) ≡ true
  pub add_mono :
      (c x y : F)
      → (x ≼ y) ≡ true
      → (c ⊕ x ≼ c ⊕ x) ≡ true
      → (c ⊕ y ≼ c ⊕ y) ≡ true
      → (c ⊕ x ≼ c ⊕ y) ≡ true
  -- Adding a finite literal to a number gives a number.
  pub add_lit_num : (c : F) (n k : ℕ) → (c ≼ c) ≡ true → (c ⊕ lit n k ≼ c ⊕ lit n k) ≡ true
  -- A sum is a number only if its terms are.
  pub num_of_add : (x y : F) → (x ⊕ y ≼ x ⊕ y) ≡ true → ((x ≼ x) ≡ true) × ((y ≼ y) ≡ true)
  pub to_uint-lt : (w : ℕ) (x : F) → to_uint w x < 2 ^ w
