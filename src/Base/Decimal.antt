-- ===== src/Base/Decimal.antt =====
-- Decimal text of unsigned integers: `strconv.FormatUint`, `strconv.ParseUint` in base 10, and the
-- order of digit strings of one length.
use Prim.Native.Nat.{ℕ, zero, suc, ◌+◌, ◌-◌, ◌*◌, ◌/◌, ◌%◌, ◌^◌, ◌≤◌, ◌<◌}
use mathlib.Core.Path.{◌≡◌, refl, sym, ap, ◌∙◌}
use mathlib.Core.Logic.{◌⊎◌, inl, inr}
use mathlib.Core.Bool.{Bool, true, false, ◌&&◌}
use mathlib.Core.Option.{Option, none, some}
use mathlib.Core.List.{[], ◌∷◌, ◌++◌}
use native.Mathlib.Nat.{pow-suc}
use native.Mathlib.Omega.{arith}
use cachet.Base.Tests.{ltb, leb, ◌==◌, if◌then◌else◌, Bool-cases}
use cachet.Base.Lists.{length, replicate, All}
use cachet.Base.Text.{Bytes, bytes_lt}

-- Digits are put in front from the least significant one on, while the number is positive.
unfoldable pub decimal_loop : ℕ → ℕ → Bytes → Bytes
decimal_loop zero u tail = tail
decimal_loop (suc fuel) u tail =
    let more = decimal_loop fuel (u / 10) ((48 + u % 10) ∷ tail) in if u == 0 then tail else more

-- Twenty digits hold every number of 64 bits.
unfoldable pub format_uint : ℕ → Bytes
format_uint u = if u == 0 then b'0' ∷ [] else decimal_loop 20 u []

abbrev pub is_digit : ℕ → Bool
is_digit c = leb b'0' c && leb c b'9'

unfoldable pub parse_digits : ℕ → Bytes → Option ℕ
parse_digits acc [] = some acc
parse_digits acc (c ∷ s) =
    let more = parse_digits (acc * 10 + (c - b'0')) s in if is_digit c then more else none

abbrev in_range : ℕ → Option ℕ → Option ℕ
in_range bits none = none
in_range bits (some v) = if ltb v (2 ^ bits) then some v else none

-- `none` is the syntax or range error.
unfoldable pub parse_uint : ℕ → Bytes → Option ℕ
unfolding parse_digits
parse_uint bits [] = none
parse_uint bits (c ∷ s) = in_range bits (parse_digits 0 (c ∷ s))

push_digit :
    (u : ℕ) (tail : Bytes) → parse_digits (u / 10) ((48 + u % 10) ∷ tail) ≡ parse_digits u tail
unfolding parse_digits
push_digit u tail =
    let digit : is_digit (48 + u % 10) ≡ true = ground arith in
    rw digit (ap (λ a. parse_digits a tail) (omega arith))

parse_digits-decimal_loop :
    (fuel u : ℕ) (tail : Bytes)
    → u < 10 ^ fuel
    → parse_digits 0 (decimal_loop fuel u tail) ≡ parse_digits u tail
unfolding decimal_loop
parse_digits-decimal_loop zero u tail h = ground arith
parse_digits-decimal_loop (suc fuel) u tail h = elim (Bool-cases (u == 0)) [
  | inl done ↦ ground arith
  | inr more ↦ rw more (
      parse_digits-decimal_loop fuel (u / 10) ((48 + u % 10) ∷ tail)
        (omega (arith, pow-suc 10 fuel))
      ∙ push_digit u tail)
]

length-decimal_loop :
    (fuel u : ℕ) (tail : Bytes) → length (decimal_loop fuel u tail) ≤ fuel + length tail
unfolding decimal_loop
length-decimal_loop zero u tail = omega arith
length-decimal_loop (suc fuel) u tail =
    ground (arith, length-decimal_loop fuel (u / 10) ((48 + u % 10) ∷ tail))

abbrev pub IsDigit : ℕ → Type 0
IsDigit c = (48 ≤ c) × (c ≤ 57)

decimal_loop-digits :
    (fuel u : ℕ) (tail : Bytes) → All IsDigit tail → All IsDigit (decimal_loop fuel u tail)
unfolding decimal_loop
decimal_loop-digits zero u tail h = h
decimal_loop-digits (suc fuel) u tail h = elim (Bool-cases (u == 0)) [
  | inl done ↦ rw done h
  | inr more ↦
      rw more
        (decimal_loop-digits fuel (u / 10) ((48 + u % 10) ∷ tail) ((omega arith, omega arith), h))
]

pub format_uint-digits : (u : ℕ) → All IsDigit (format_uint u)
unfolding format_uint
format_uint-digits u = elim (Bool-cases (u == 0)) [
  | inl z ↦ rw z ((omega arith, omega arith), tt)
  | inr p ↦ rw p (decimal_loop-digits 20 u [] tt)
]

pub length-format_uint : (u : ℕ) → length (format_uint u) ≤ 20
unfolding format_uint
length-format_uint u = elim (Bool-cases (u == 0)) [
  | inl z ↦ rw z (omega arith)
  | inr p ↦ rw p (length-decimal_loop 20 u [])
]

zero_lem : (u : ℕ) → (u == 0) ≡ true → parse_digits 0 (b'0' ∷ []) ≡ some u
unfolding parse_digits
zero_lem u h = ground arith

nil_lem : (u : ℕ) → parse_digits u [] ≡ some u
unfolding parse_digits
nil_lem u = refl

pub parse_digits-format_uint : (u : ℕ) → u < 10 ^ 20 → parse_digits 0 (format_uint u) ≡ some u
unfolding format_uint
parse_digits-format_uint u h = elim (Bool-cases (u == 0)) [
  | inl z ↦ rw z (zero_lem u z)
  | inr p ↦ rw p (parse_digits-decimal_loop 20 u [] h ∙ nil_lem u)
]

decimal_loop_grows : (fuel u : ℕ) (tail : Bytes) → length tail ≤ length (decimal_loop fuel u tail)
unfolding decimal_loop
decimal_loop_grows zero u tail = omega arith
decimal_loop_grows (suc fuel) u tail =
    ground (arith, decimal_loop_grows fuel (u / 10) ((48 + u % 10) ∷ tail))

decimal_loop_nonempty : (fuel u : ℕ) → (u == 0) ≡ false → 0 < length (decimal_loop (suc fuel) u [])
unfolding decimal_loop
decimal_loop_nonempty fuel u h = rw h (decimal_loop_grows fuel (u / 10) ((48 + u % 10) ∷ []))

pub format_uint_nonempty : (u : ℕ) → 0 < length (format_uint u)
unfolding format_uint
format_uint_nonempty u = elim (Bool-cases (u == 0)) [
  | inl z ↦ rw z (omega arith)
  | inr p ↦ rw p (decimal_loop_nonempty 19 u p)
]

pub parse_uint-in_range :
    (bits : ℕ) (s : Bytes) {v : ℕ}
    → 0 < length s
    → parse_digits 0 s ≡ some v
    → v < 2 ^ bits
    → parse_uint bits s ≡ some v
unfolding parse_uint
parse_uint-in_range bits [] l p h = absurd (omega arith)
parse_uint-in_range bits (c ∷ s) {v} l p h =
    let fits : ltb v (2 ^ bits) ≡ true = ground arith in rw (p, fits)

pub parse_uint-format_uint :
    (bits u : ℕ) → u < 10 ^ 20 → u < 2 ^ bits → parse_uint bits (format_uint u) ≡ some u
parse_uint-format_uint bits u h hb =
    parse_uint-in_range bits (format_uint u) (format_uint_nonempty u) (parse_digits-format_uint u h)
      hb

-- Leading zeros change nothing.
pub parse_digits-zeros :
    (n : ℕ) (s : Bytes) → parse_digits 0 (replicate n b'0' ++ s) ≡ parse_digits 0 s
unfolding parse_digits
parse_digits-zeros zero s = refl
parse_digits-zeros (suc n) s = parse_digits-zeros n s

trichotomy : (a b : ℕ) → (a < b) ⊎ ((a ≡ b) ⊎ (b < a))
trichotomy a b = ground arith

parse_digits-cons :
    (acc c : ℕ) (s : Bytes) {x : ℕ}
    → parse_digits acc (c ∷ s) ≡ some x
    → (48 ≤ c) × (c ≤ 57) × (parse_digits (acc * 10 + (c - 48)) s ≡ some x)
unfolding parse_digits
parse_digits-cons acc c s h = ground arith

parse_digits-nil : (acc : ℕ) → parse_digits acc [] ≡ some acc
unfolding parse_digits
parse_digits-nil acc = refl

parse_digits_mono :
    (a b : ℕ) (s t : Bytes) {x y : ℕ}
    → a < b
    → length s ≡ length t
    → parse_digits a s ≡ some x
    → parse_digits b t ≡ some y
    → x < y
parse_digits_mono a b [] [] h l p q = ground (arith, parse_digits-nil a, parse_digits-nil b)
parse_digits_mono a b [] (d ∷ t) h l p q = absurd (omega arith)
parse_digits_mono a b (c ∷ s) [] h l p q = absurd (omega arith)
parse_digits_mono a b (c ∷ s) (d ∷ t) h l p q =
    let (lo, hi, p') = parse_digits-cons a c s p in
    let (lo', hi', q') = parse_digits-cons b d t q in
    parse_digits_mono (a * 10 + (c - 48)) (b * 10 + (d - 48)) s t (omega arith) (omega arith) p' q'

-- Two digit strings of one length are ordered as their values are.
pub bytes_lt-eq-ltb :
    (acc : ℕ) (s t : Bytes) {x y : ℕ}
    → length s ≡ length t
    → parse_digits acc s ≡ some x
    → parse_digits acc t ≡ some y
    → bytes_lt s t ≡ ltb x y
unfolding bytes_lt
bytes_lt-eq-ltb acc [] [] {x} {y} l p q = let same : some x ≡ some y = sym p ∙ q in ground arith
bytes_lt-eq-ltb acc [] (d ∷ t) l p q = absurd (omega arith)
bytes_lt-eq-ltb acc (c ∷ s) [] l p q = absurd (omega arith)
bytes_lt-eq-ltb acc (c ∷ s) (d ∷ t) {x} {y} l p q =
    let (lo, hi, p') = parse_digits-cons acc c s p in
    let (lo', hi', q') = parse_digits-cons acc d t q in
    elim (trichotomy c d) [
      | inl less ↦
          let xy : x < y =
            parse_digits_mono (acc * 10 + (c - 48)) (acc * 10 + (d - 48)) s t (omega arith)
              (omega arith) p' q' in
          ground arith
      | inr (inl same) ↦
          let ih =
            bytes_lt-eq-ltb (acc * 10 + (c - 48)) s t {x = x} {y = y} (omega arith) p'
              (rw same q') in
          ground arith
      | inr (inr more) ↦
          let yx : y < x =
            parse_digits_mono (acc * 10 + (d - 48)) (acc * 10 + (c - 48)) t s (omega arith)
              (omega arith) q' p' in
          ground arith
    ]
