-- ===== src/Base/Bits.antt =====
-- `|` of disjoint fields, `&` with a low mask and `^`, as arithmetic and as laws at every width.
-- `bit_or`, `bit_and` and `bit_xor` stand for a recursion on binary digits with fuel; the fuel is
-- dropped first.
use Prim.Native.Nat.{
  ℕ, zero, suc, ◌+◌, ◌-◌, ◌*◌, ◌/◌, ◌%◌, ◌^◌, ◌≤◌, ◌<◌, min, max, bit_and, bit_or, bit_xor, digits,
  bitwise, bit_and-bitwise, bit_or-bitwise, bit_xor-bitwise, differ,
}
use mathlib.Core.Path.{◌≡◌, refl, sym, ap, ap₂, ◌∙◌}
use mathlib.Core.WellFounded
use mathlib.Core.Logic.{◌⊎◌, inl, inr}
use native.Mathlib.Nat.{pow-suc, one-le-pow, div-div-eq-div-mul}
use native.Mathlib.Omega.{arith}
use cachet.Base.Order.{lt_wf}

differ_lem : (a b : ℕ) → differ a b ≡ (a - b) + (b - a)
differ_lem zero b = omega arith
differ_lem (suc a) zero = omega arith
differ_lem (suc a) (suc b) = omega (arith, differ_lem a b)

-- One more round of fuel than the first operand changes nothing, and so does any number of them.
spare_round :
    (z : ℕ → ℕ) (f : ℕ → ℕ → ℕ) (n a b : ℕ) → a ≤ n → digits z f (suc n) a b ≡ digits z f n a b
spare_round z f n zero b h = start n
  where
    start : (n : ℕ) → digits z f (suc n) zero b ≡ digits z f n zero b
    start zero = refl
    start (suc n) = refl
spare_round z f zero (suc a) b h = elim h [ ]
spare_round z f (suc n) (suc a) b h =
    ap (λ t. t * 2 + f (suc a % 2) (b % 2)) (spare_round z f n (suc a / 2) (b / 2) (omega arith))

spare_rounds : (z : ℕ → ℕ) (f : ℕ → ℕ → ℕ) (k a b : ℕ) → digits z f (k + a) a b ≡ bitwise z f a b
spare_rounds z f zero a b = ap (λ n. digits z f n a b) (omega arith)
spare_rounds z f (suc k) a b =
    let more : suc k + a ≡ suc (k + a) = omega arith in
    ap (λ n. digits z f n a b) more
    ∙ spare_round z f (k + a) a b (omega arith)
    ∙ spare_rounds z f k a b

lowest_digit :
    (z : ℕ → ℕ) (f : ℕ → ℕ → ℕ) (a b : ℕ)
    → bitwise z f (suc a) b ≡ bitwise z f (suc a / 2) (b / 2) * 2 + f (suc a % 2) (b % 2)
lowest_digit z f a b =
    ap (λ t. t * 2 + f (suc a % 2) (b % 2))
      (ap (λ n. digits z f n (suc a / 2) (b / 2)) (omega arith)
        ∙ spare_rounds z f (a - suc a / 2) (suc a / 2) (b / 2))

bit_xor_step : (a b : ℕ) → bit_xor a b ≡ bit_xor (a / 2) (b / 2) * 2 + (a + b) % 2
bit_xor_step zero b = simp bit_xor-bitwise (omega arith)
bit_xor_step (suc a) b =
    simp bit_xor-bitwise
      (omega (arith, lowest_digit (λ y. y) differ a b, differ_lem (suc a % 2) (b % 2)))

bit_or_step : (a b : ℕ) → bit_or a b ≡ 2 * bit_or (a / 2) (b / 2) + max (a % 2) (b % 2)
bit_or_step zero b = simp bit_or-bitwise (omega arith)
bit_or_step (suc a) b = simp bit_or-bitwise (omega (arith, lowest_digit (λ y. y) max a b))

bit_and_step : (a b : ℕ) → bit_and a b ≡ 2 * bit_and (a / 2) (b / 2) + min (a % 2) (b % 2)
bit_and_step zero b = simp bit_and-bitwise (omega arith)
bit_and_step (suc a) b = simp bit_and-bitwise (omega (arith, lowest_digit (λ y. 0) min a b))

bit_or-zero : (a : ℕ) → bit_or a 0 ≡ a
bit_or-zero a =
    WellFounded.induction lt_wf {C = λ n. bit_or n 0 ≡ n} a
      λ n ih. ground (arith, bit_or_step n 0, ih (n / 2))

bit_and-zero : (a : ℕ) → bit_and a 0 ≡ 0
bit_and-zero a =
    WellFounded.induction lt_wf {C = λ n. bit_and n 0 ≡ 0} a
      λ n ih. ground (arith, bit_and_step n 0, ih (n / 2))

-- A field of `suc k` bits is twice one of `k` bits.
double_field : (hi k : ℕ) → hi * 2 ^ suc k ≡ 2 * (hi * 2 ^ k)
double_field hi k = omega (arith, ap (λ (t : ℕ). hi * t) (pow-suc 2 k))

-- `(hi << k) | lo` is a sum when `lo` fits in `k` bits.
pub bit_or_fields : (k hi lo : ℕ) → lo < 2 ^ k → bit_or (hi * 2 ^ k) lo ≡ hi * 2 ^ k + lo
bit_or_fields zero hi lo h = ground (arith, bit_or-zero hi)
bit_or_fields (suc k) hi lo h =
    let half : bit_or (hi * 2 ^ k) (lo / 2) ≡ hi * 2 ^ k + lo / 2 =
      bit_or_fields k hi (lo / 2) (omega (arith, pow-suc 2 k)) in
    ground (arith, double_field hi k, half, bit_or_step (hi * 2 ^ suc k) lo)

low_field : (k hi lo : ℕ) → lo < 2 ^ k → bit_and (hi * 2 ^ k + lo) (2 ^ k - 1) ≡ lo
low_field zero hi lo h = rw (bit_and-zero (hi * 2 ^ 0 + lo)) (omega arith)
low_field (suc k) hi lo h =
    let half : bit_and (hi * 2 ^ k + lo / 2) (2 ^ k - 1) ≡ lo / 2 =
      low_field k hi (lo / 2) (omega (arith, pow-suc 2 k)) in
    let step = bit_and_step (hi * 2 ^ suc k + lo) (2 ^ suc k - 1) in
    ground (arith, double_field hi k, pow-suc 2 k, half, step)

-- The lowest `k` bits of a number are its remainder by `2 ^ k`.
pub bit_and_mask : (k a : ℕ) → bit_and a (2 ^ k - 1) ≡ a % 2 ^ k
bit_and_mask k a =
    let room : 0 < 2 ^ k = one-le-pow k 2 (omega arith) in
    ground (arith, low_field k (a / 2 ^ k) (a % 2 ^ k))

zero_or_pos : (n : ℕ) → (n ≡ 0) ⊎ (0 < n)
zero_or_pos zero = inl refl
zero_or_pos (suc n) = inr (omega arith)

-- The laws of `^`, by induction on the larger operand.
pub xor_self : (a : ℕ) → bit_xor a a ≡ 0
xor_self a = WellFounded.induction lt_wf {C = λ n. bit_xor n n ≡ 0} a λ n ih. elim (zero_or_pos n) [
  | inl z ↦ rw z
  | inr p ↦ omega (arith, bit_xor_step n n, ih (n / 2) (omega arith))
]

pub xor-zero : (a : ℕ) → bit_xor a 0 ≡ a
xor-zero a = WellFounded.induction lt_wf {C = λ n. bit_xor n 0 ≡ n} a λ n ih. elim (zero_or_pos n) [
  | inl z ↦ rw z
  | inr p ↦ omega (arith, bit_xor_step n 0, ih (n / 2) (omega arith))
]

pub zero-xor : (b : ℕ) → bit_xor 0 b ≡ b
zero-xor b = WellFounded.induction lt_wf {C = λ n. bit_xor 0 n ≡ n} b λ n ih. elim (zero_or_pos n) [
  | inl z ↦ rw z
  | inr p ↦ omega (arith, bit_xor_step 0 n, ih (n / 2) (omega arith))
]

pub xor_assoc : (a b c : ℕ) → bit_xor (bit_xor a b) c ≡ bit_xor a (bit_xor b c)
xor_assoc a =
    WellFounded.induction lt_wf
      {C = λ n. (b c : ℕ) → bit_xor (bit_xor n b) c ≡ bit_xor n (bit_xor b c)} a
      λ n ih b c. elim (zero_or_pos n) [
        | inl z ↦ rw (z, zero-xor b, zero-xor (bit_xor b c))
        | inr p ↦ ground (
          arith,
          bit_xor_step n b,
          bit_xor_step b c,
          bit_xor_step (bit_xor n b) c,
          bit_xor_step n (bit_xor b c),
          ih (n / 2) (omega arith) (b / 2) (c / 2),
        )
      ]

xor_half : (a b : ℕ) → bit_xor a b / 2 ≡ bit_xor (a / 2) (b / 2)
xor_half a b = omega (arith, bit_xor_step a b)

half_lt : (k a : ℕ) → a < 2 ^ suc k → a / 2 < 2 ^ k
half_lt k a h = omega (arith, pow-suc 2 k)

-- A value within `k` bits stays within them.
pub xor_lt : (k a b : ℕ) → a < 2 ^ k → b < 2 ^ k → bit_xor a b < 2 ^ k
xor_lt zero a b p q = ground (arith, xor-zero a)
xor_lt (suc k) a b p q =
    omega (
      arith,
      bit_xor_step a b,
      pow-suc 2 k,
      xor_lt k (a / 2) (b / 2) (half_lt k a p) (half_lt k b q),
    )

div_two_pow : (a k : ℕ) → a / 2 ^ suc k ≡ a / 2 / 2 ^ k
div_two_pow a k =
    rw (div-div-eq-div-mul a 2 (2 ^ k)) (ap (λ (t : ℕ). a / t) (omega (arith, pow-suc 2 k)))

div_one : (a : ℕ) → a / 1 ≡ a
div_one a = omega arith

-- A shift to the right goes through `^`.
pub xor_shift : (k a b : ℕ) → bit_xor a b / 2 ^ k ≡ bit_xor (a / 2 ^ k) (b / 2 ^ k)
xor_shift zero a b = div_one (bit_xor a b) ∙ sym (ap₂ bit_xor (div_one a) (div_one b))
xor_shift (suc k) a b = rw (
  div_two_pow (bit_xor a b) k,
  div_two_pow a k,
  div_two_pow b k,
  xor_half,
  xor_shift k (a / 2) (b / 2),
)
