-- ===== src/Base/Float/Thousandths.antt =====
-- A value of the interface of floats: thousandths, rounded down, and `none` for NaN.
use Prim.Native.Nat.{ℕ, ◌-◌, ◌*◌, ◌/◌, ◌^◌, ◌≤◌, ◌<◌}
use mathlib.Core.Path.{◌≡◌, refl}
use mathlib.Core.Bool.{Bool, true, false}
use mathlib.Core.Option.{Option, none, some}
use native.Mathlib.Omega.{arith}
use cachet.Base.Tests.{ltb, leb, ◌==◌, if◌then◌else◌}
use cachet.Base.Float.{Float}

abbrev Thousandths : Type 0
Thousandths = Option ℕ

abbrev compared : (ℕ → ℕ → Bool) → Thousandths → Thousandths → Bool
compared test (some a) (some b) = test a b
compared test (some a) none = false
compared test none b = false

abbrev combined : (ℕ → ℕ → Thousandths) → Thousandths → Thousandths → Thousandths
combined f (some a) (some b) = f a b
combined f (some a) none = none
combined f none b = none

abbrev quotient : ℕ → ℕ → Thousandths
quotient a c = if c == 0 then none else some (a * 1000 / c)

ratio_le : (m n : ℕ) → m ≤ n → 0 < n → m * 1000 * 1000 / (n * 1000) ≤ 1000
ratio_le m n h p = let q : m * 1000 * 1000 ≤ 1000 * (n * 1000) = omega arith in grind arith

quotient_le : (a b : ℕ) → a ≤ b → 0 < b → a * 1000 / b ≤ 1000
quotient_le a b h p = grind arith

product_le : (a b : ℕ) → a ≤ 1000 → a * b / 1000 ≤ b
product_le a b h = let m : a * b ≤ 1000 * b = grind arith in omega arith

abbrev minus : Thousandths → Thousandths → Thousandths
minus = combined (λ a b. some (a - b))

abbrev times : Thousandths → Thousandths → Thousandths
times = combined (λ a b. some (a * b / 1000))

abbrev over : Thousandths → Thousandths → Thousandths
over = combined quotient

abbrev whole : ℕ → Thousandths
whole n = some (n * 1000)

pub lt_irrefl : (a : Thousandths) → compared ltb a a ≡ false
lt_irrefl a = ground arith

pub le_of_lt : (a b : Thousandths) → compared ltb a b ≡ true → compared leb a b ≡ true
le_of_lt a b h = ground arith

pub le_trans :
    (a b c : Thousandths)
    → compared leb a b ≡ true
    → compared leb b c ≡ true
    → compared leb a c ≡ true
le_trans a b c h k = ground arith

pub lt_of_lt_of_le :
    (a b c : Thousandths)
    → compared ltb a b ≡ true
    → compared leb b c ≡ true
    → compared ltb a c ≡ true
lt_of_lt_of_le a b c h k = ground arith

pub refl_left : (a b : Thousandths) → compared leb a b ≡ true → compared leb a a ≡ true
refl_left a b h = ground arith

pub refl_right : (a b : Thousandths) → compared leb a b ≡ true → compared leb b b ≡ true
refl_right a b h = ground arith

pub le_of_not_lt :
    (a b : Thousandths)
    → compared leb a a ≡ true
    → compared leb b b ≡ true
    → compared ltb b a ≡ false
    → compared leb a b ≡ true
le_of_not_lt a b h k l = ground arith

pub lt_of_not_le :
    (a b : Thousandths)
    → compared leb a a ≡ true
    → compared leb b b ≡ true
    → compared leb a b ≡ false
    → compared ltb b a ≡ true
lt_of_not_le a b h k l = ground arith

pub ratio_unit :
    (m n : ℕ)
    → m ≤ n
    → 0 < n
    → n < 2 ^ 63
    → (compared leb (some 0) (over (whole m) (whole n)) ≡ true)
      × (compared leb (over (whole m) (whole n)) (some 1000) ≡ true)
ratio_unit m n h p word = ground (arith, ratio_le m n h p)

pub sub_pos :
    (a b : Thousandths)
    → compared leb (some 0) a ≡ true
    → compared ltb a b ≡ true
    → compared leb b (some 1000) ≡ true
    → compared ltb (some 0) (minus b a) ≡ true
sub_pos a b low h high = ground arith

pub sub_unit :
    (a b : Thousandths)
    → compared leb (some 0) a ≡ true
    → compared leb a b ≡ true
    → compared leb b (some 1000) ≡ true
    → (compared leb (some 0) (minus b a) ≡ true) × (compared leb (minus b a) b ≡ true)
sub_unit a b low h high = ground arith

pub sub_mono :
    (a b c : Thousandths)
    → compared leb (some 0) a ≡ true
    → compared leb a b ≡ true
    → compared leb b c ≡ true
    → compared leb c (some 1000) ≡ true
    → compared leb (minus b a) (minus c a) ≡ true
sub_mono a b c low h k high = ground arith

pub div_unit :
    (a b : Thousandths)
    → compared leb (some 0) a ≡ true
    → compared leb a b ≡ true
    → compared ltb (some 0) b ≡ true
    → compared leb b (some 1000) ≡ true
    → (compared leb (some 0) (over a b) ≡ true) × (compared leb (over a b) (some 1000) ≡ true)
div_unit (some a) (some b) low h p high =
    ground (arith, quotient_le a b (ground arith) (ground arith))
div_unit none b low h p high = absurd (ground arith)
div_unit (some a) none low h p high = absurd (ground arith)

pub mul_unit :
    (a b : Thousandths)
    → compared leb (some 0) a ≡ true
    → compared leb a (some 1000) ≡ true
    → compared leb (some 0) b ≡ true
    → compared leb b (some 1000) ≡ true
    → (compared leb (some 0) (times a b) ≡ true) × (compared leb (times a b) b ≡ true)
mul_unit (some a) (some b) low h k high = ground (arith, product_le a b (ground arith))
mul_unit none b low h k high = absurd (ground arith)
mul_unit (some a) none low h k high = absurd (ground arith)

pub nan_of :
    (f : ℕ → ℕ → Thousandths) (a b : Thousandths)
    → compared leb a a ≡ false
    → compared leb (combined f a b) (combined f a b) ≡ false
nan_of f none b h = refl
nan_of f (some a) b h = absurd (ground arith)

pub le_of_nan : (a b : Thousandths) → compared leb a a ≡ false → compared leb a b ≡ false
le_of_nan a b h = ground arith

pub lt_of_nan : (a b : Thousandths) → compared leb b b ≡ false → compared ltb a b ≡ false
lt_of_nan a b h = ground arith

pub of_nat_mono : (m n : ℕ) → m ≤ n → compared leb (whole m) (whole n) ≡ true
of_nat_mono m n h = ground arith

pub of_nat_pos : (n : ℕ) → 0 < n → compared ltb (some 0) (whole n) ≡ true
of_nat_pos n h = ground arith

pub half_le :
    (a : Thousandths) → compared ltb (some 0) a ≡ true → compared leb (over a (whole 2)) a ≡ true
half_le none h = absurd (ground arith)
half_le (some a) h = ground arith

-- A number above the quotients that are taken.
abbrev big : Thousandths
big = some (10 ^ 30)

abbrev pub thousandths : Float
thousandths = record {
  F = Thousandths;
  zero_f = some 0;
  one = some 1000;
  infinity = big;
  half_le = half_le;
  of_nat = whole;
  sub = minus;
  mul = times;
  div = over;
  lt = compared ltb;
  le = compared leb;
  lt_irrefl = lt_irrefl;
  le_of_lt = le_of_lt;
  le_trans = le_trans;
  lt_of_lt_of_le = lt_of_lt_of_le;
  refl_left = refl_left;
  refl_right = refl_right;
  le_of_not_lt = le_of_not_lt;
  lt_of_not_le = lt_of_not_le;
  sub_pos = sub_pos;
  sub_mono = sub_mono;
  ratio_unit = ratio_unit;
  sub_unit = sub_unit;
  div_unit = div_unit;
  mul_unit = mul_unit;
  zero_refl = refl;
  one_refl = refl;
  of_nat_mono = of_nat_mono;
  of_nat_pos = of_nat_pos;
  zero_div_zero = λ a. refl;
  le_of_nan = le_of_nan;
  lt_of_nan = lt_of_nan;
  sub_nan = nan_of (λ a b. some (a - b));
  div_nan = nan_of quotient;
  mul_nan = nan_of (λ a b. some (a * b / 1000));
}
