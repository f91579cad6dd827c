-- ===== src/Base/Float.antt =====
-- What the code does with a float64: the numbers it starts from, four operations and two comparisons.
-- The laws are those of IEEE 754 and hold of every float64, infinities and NaN included: comparisons
-- with NaN are false, and rounding is monotone. What is said of the values of an operation is said
-- of ratios of counts and of the numbers from zero to one.
pub mod Thousandths
use Prim.Native.Nat.{ℕ, ◌^◌, ◌≤◌, ◌<◌}
use mathlib.Core.Path.{◌≡◌}
use mathlib.Core.Bool.{Bool, true, false}

pub record Float : Type 1 where
  pub F : Type 0
  pub zero_f : F
  pub one : F
  pub infinity : F
  pub of_nat : ℕ → F
  pub sub : F → F → F
  pub mul : F → F → F
  pub div : F → F → F
  pub lt : F → F → Bool
  pub le : F → F → Bool
  pub lt_irrefl : (a : F) → lt a a ≡ false
  pub le_of_lt : (a b : F) → lt a b ≡ true → le a b ≡ true
  pub le_trans : (a b c : F) → le a b ≡ true → le b c ≡ true → le a c ≡ true
  pub lt_of_lt_of_le : (a b c : F) → lt a b ≡ true → le b c ≡ true → lt a c ≡ true
  -- A value that is not NaN is equal to itself, and such values are ordered.
  pub refl_left : (a b : F) → le a b ≡ true → le a a ≡ true
  pub refl_right : (a b : F) → le a b ≡ true → le b b ≡ true
  pub le_of_not_lt : (a b : F) → le a a ≡ true → le b b ≡ true → lt b a ≡ false → le a b ≡ true
  pub lt_of_not_le : (a b : F) → le a a ≡ true → le b b ≡ true → le a b ≡ false → lt b a ≡ true
  pub zero_refl : le zero_f zero_f ≡ true
  pub one_refl : le one one ≡ true
  pub of_nat_mono : (m n : ℕ) → m ≤ n → le (of_nat m) (of_nat n) ≡ true
  pub of_nat_pos : (n : ℕ) → 0 < n → lt zero_f (of_nat n) ≡ true
  -- A ratio of counts of a 64-bit integer, of which the second is positive, is at most one.
  pub ratio_unit :
      (m n : ℕ)
      → m ≤ n
      → 0 < n
      → n < 2 ^ 63
      → (le zero_f (div (of_nat m) (of_nat n)) ≡ true) × (le (div (of_nat m) (of_nat n)) one ≡ true)
  -- Between zero and one.
  pub sub_pos :
      (a b : F) → le zero_f a ≡ true → lt a b ≡ true → le b one ≡ true → lt zero_f (sub b a) ≡ true
  pub sub_unit :
      (a b : F)
      → le zero_f a ≡ true
      → le a b ≡ true
      → le b one ≡ true
      → (le zero_f (sub b a) ≡ true) × (le (sub b a) b ≡ true)
  pub sub_mono :
      (a b c : F)
      → le zero_f a ≡ true
      → le a b ≡ true
      → le b c ≡ true
      → le c one ≡ true
      → le (sub b a) (sub c a) ≡ true
  pub div_unit :
      (a b : F)
      → le zero_f a ≡ true
      → le a b ≡ true
      → lt zero_f b ≡ true
      → le b one ≡ true
      → (le zero_f (div a b) ≡ true) × (le (div a b) one ≡ true)
  pub mul_unit :
      (a b : F)
      → le zero_f a ≡ true
      → le a one ≡ true
      → le zero_f b ≡ true
      → le b one ≡ true
      → (le zero_f (mul a b) ≡ true) × (le (mul a b) b ≡ true)
  pub half_le : (a : F) → lt zero_f a ≡ true → le (div a (of_nat 2)) a ≡ true
  -- Zero divided by zero is NaN, and an operation on NaN is.
  pub zero_div_zero : (a : F) → le (div (of_nat 0) (of_nat 0)) a ≡ false
  pub le_of_nan : (a b : F) → le a a ≡ false → le a b ≡ false
  pub lt_of_nan : (a b : F) → le b b ≡ false → lt a b ≡ false
  pub sub_nan : (a b : F) → le a a ≡ false → le (sub a b) (sub a b) ≡ false
  pub div_nan : (a b : F) → le a a ≡ false → le (div a b) (div a b) ≡ false
  pub mul_nan : (a b : F) → le a a ≡ false → le (mul a b) (mul a b) ≡ false
