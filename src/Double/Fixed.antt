-- ===== src/Double/Fixed.antt =====
-- Decimals with six places and a not-a-number: a value that meets the interface, for tests.
use Prim.Native.Nat.{min as nat_min}
use native.Mathlib.Nat.{pow-suc, div-mul-le_self, le-div_iff_mul-le}
use funding_spread_arbitrage.Prelude.{
  ℕ, zero, suc, ◌+◌, ◌-◌, ◌*◌, ◌/◌, ◌^◌, ◌≤◌, ◌<◌, ◌≡◌, Bool, true, false, Option, none, some,
  arith, ltb, leb, ◌==◌, if◌then◌else◌, ◌&&◌,
}
use funding_spread_arbitrage.Double.Defs.{Double, IsIeee}

-- `negsuc n` is -(n + 1).
pub data ℤ : Type 0 where
  pos : ℕ → ℤ
  negsuc : ℕ → ℤ

abbrev pos_part : ℤ → ℕ
pos_part (pos n) = n
pos_part (negsuc n) = 0

abbrev neg_part : ℤ → ℕ
neg_part (pos n) = 0
neg_part (negsuc n) = suc n

abbrev size : ℤ → ℕ
size a = pos_part a + neg_part a

-- m - n, as an integer.
abbrev sub_ℕ : ℕ → ℕ → ℤ
sub_ℕ m n = if leb n m then pos (m - n) else negsuc (n - m - 1)

abbrev is_neg : ℤ → Bool
is_neg (pos n) = false
is_neg (negsuc n) = true

abbrev same_sign : Bool → Bool → Bool
same_sign true b = b
same_sign false true = false
same_sign false false = true

abbrev signed : ℤ → ℤ → ℕ → ℤ
signed a b n = if same_sign (is_neg a) (is_neg b) then pos n else sub_ℕ 0 n

-- The values, in millionths. `none` is the not-a-number.
abbrev pub Fixed : Type 0
Fixed = Option ℤ

abbrev one : ℕ
one = 1_000_000

abbrev lift : (ℤ → ℤ → Option ℤ) → Fixed → Fixed → Fixed
lift f (some a) (some b) = f a b
lift f _ _ = none

abbrev test : (ℤ → ℤ → Bool) → Fixed → Fixed → Bool
test f (some a) (some b) = f a b
test f _ _ = false

abbrev le_ℤ : ℤ → ℤ → Bool
le_ℤ a b = leb (pos_part a + neg_part b) (pos_part b + neg_part a)

abbrev lt_ℤ : ℤ → ℤ → Bool
lt_ℤ a b = ltb (pos_part a + neg_part b) (pos_part b + neg_part a)

abbrev add_ℤ : ℤ → ℤ → ℤ
add_ℤ a b = sub_ℕ (pos_part a + pos_part b) (neg_part a + neg_part b)

abbrev neg_ℤ : ℤ → ℤ
neg_ℤ a = sub_ℕ (neg_part a) (pos_part a)

abbrev select : (ℤ → ℤ → Bool) → Fixed → Fixed → Fixed
select f (some a) (some b) = if f a b then some a else some b
select f (some a) none = some a
select f none y = y

abbrev map_fixed : (ℤ → ℤ) → Fixed → Fixed
map_fixed f none = none
map_fixed f (some a) = some (f a)

abbrev to_uint_fixed : ℕ → Fixed → ℕ
to_uint_fixed w none = 0
to_uint_fixed w (some a) = nat_min (pos_part a / one) (2 ^ w - 1)

abbrev lit_fixed : ℕ → ℕ → Fixed
lit_fixed n k = some (pos (n * one / 10 ^ k))

instance abbrev pub fixed_double : Double Fixed
fixed_double = record {
  lit = lit_fixed;
  of_nat = λ n. some (pos (n * one));
  to_uint = to_uint_fixed;
  neg = map_fixed neg_ℤ;
  abs = map_fixed (λ a. pos (size a));
  fmin = select le_ℤ;
  fmax = select (λ a b. le_ℤ b a);
  add = lift (λ a b. some (add_ℤ a b));
  sub = lift (λ a b. some (add_ℤ a (neg_ℤ b)));
  mul = lift (λ a b. some (signed a b (size a * size b / one)));
  div = lift (λ a b. if size b == 0 then none else some (signed a b (size a * one / size b)));
  lt = test lt_ℤ;
  le = test le_ℤ;
  eq = test (λ a b. size a == size b && same_sign (is_neg a) (is_neg b));
}

Fixed-add_mono :
    (c x y : Fixed)
    → fixed_double.le x y ≡ true
    → fixed_double.le (fixed_double.add c x) (fixed_double.add c x) ≡ true
    → fixed_double.le (fixed_double.add c y) (fixed_double.add c y) ≡ true
    → fixed_double.le (fixed_double.add c x) (fixed_double.add c y) ≡ true
Fixed-add_mono (some c) (some x) (some y) h p q = ground arith
Fixed-add_mono none x y h p q = cc
Fixed-add_mono c none y h p q = cc
Fixed-add_mono c x none h p q = ground arith

pow_ten_pos : (k : ℕ) → 0 < 10 ^ k
pow_ten_pos zero = omega arith
pow_ten_pos (suc k) = omega (arith, pow_ten_pos k, pow-suc 10 k)

pow_two_pos : (k : ℕ) → 0 < 2 ^ k
pow_two_pos zero = omega arith
pow_two_pos (suc k) = omega (arith, pow_two_pos k, pow-suc 2 k)

div_mono : (a b k : ℕ) → 0 < k → a ≤ b → a / k ≤ b / k
div_mono a b k p h = (le-div_iff_mul-le p).1 (omega (arith, div-mul-le_self a k))

Fixed-lit_mono :
    (m n k : ℕ) → m ≤ n → fixed_double.le (fixed_double.lit m k) (fixed_double.lit n k) ≡ true
Fixed-lit_mono m n k h =
    ground (arith, div_mono (m * one) (n * one) (10 ^ k) (pow_ten_pos k) (omega arith))

Fixed-to_uint-lt : (w : ℕ) (x : Fixed) → fixed_double.to_uint w x < 2 ^ w
Fixed-to_uint-lt w none = pow_two_pos w
Fixed-to_uint-lt w (some a) = omega (arith, pow_two_pos w)

pub Fixed-IsIeee : IsIeee Fixed
Fixed-IsIeee = record {
  lt_irrefl = λ x. ground arith;
  le_of_lt = λ x y h. ground arith;
  le_lt_trans = λ x y z h k. ground arith;
  lt_le_trans = λ x y z h k. ground arith;
  not_lt_le = λ x y h k l. ground arith;
  num_of_le = λ x y h. ground arith;
  lit_mono = Fixed-lit_mono;
  add_mono = Fixed-add_mono;
  add_lit_num = λ c n k h. ground arith;
  num_of_add = λ x y h. ground arith;
  to_uint-lt = Fixed-to_uint-lt;
}
