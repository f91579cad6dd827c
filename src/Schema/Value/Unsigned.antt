-- ===== src/Schema/Value/Unsigned.antt =====
-- internal/schema/row.go: what `Uint64` returns, against the number that the digits denote.
use cachet.Base.Decimal.{
  is_digit, format_uint, parse_digits, parse_digits-format_uint, format_uint_nonempty,
}
use cachet.Schema.Value.{Value, uint_loop, uint_64}
use cachet.Base.{
  ℕ, ◌+◌, ◌-◌, ◌*◌, ◌%◌, ◌^◌, ◌≤◌, ◌<◌, ◌≡◌, refl, true, false, some, [], ◌∷◌, arith, ltb, ◌==◌,
  length, Bytes, ok,
}

parse_digits_ge : (acc : ℕ) (s : Bytes) (v : ℕ) → parse_digits acc s ≡ some v → acc ≤ v
unfolding parse_digits
parse_digits_ge acc [] v h = ground arith
parse_digits_ge acc (c ∷ s) v h = ground (arith, parse_digits_ge (acc * 10 + (c - 48)) s v)

uint_loop_in_range :
    (u : ℕ) (s : Bytes) (v : ℕ) → parse_digits u s ≡ some v → v < 2 ^ 64 → uint_loop u s ≡ ok v
unfolding uint_loop parse_digits
uint_loop_in_range u [] v h fits = ground arith
uint_loop_in_range u (c ∷ s) v h fits =
    let digit : is_digit c ≡ true = ground arith in
    let later : parse_digits (u * 10 + (c - 48)) s ≡ some v = ground arith in
    let ge = parse_digits_ge (u * 10 + (c - 48)) s v later in
    let exact : (u * 10 + (c - 48)) % 2 ^ 64 ≡ u * 10 + (c - 48) = omega arith in
    let rising : ltb (u * 10 + (c - 48)) u ≡ false = ground arith in
    rw (digit, exact, rising) (uint_loop_in_range (u * 10 + (c - 48)) s v later fits)

uint_loop_modulo :
    (w u : ℕ) (s : Bytes) (v : ℕ)
    → u ≡ w % 2 ^ 64
    → uint_loop u s ≡ ok v
    → (x : ℕ) × ((parse_digits w s ≡ some x) × (v ≡ x % 2 ^ 64))
unfolding uint_loop parse_digits
uint_loop_modulo w u [] v same h = (w, (refl, ground arith))
uint_loop_modulo w u (c ∷ s) v same h =
    let digit : is_digit c ≡ true = ground arith in
    let later : uint_loop ((u * 10 + (c - 48)) % 2 ^ 64) s ≡ ok v = ground arith in
    let next : (u * 10 + (c - 48)) % 2 ^ 64 ≡ (w * 10 + (c - 48)) % 2 ^ 64 = omega arith in
    rw digit (uint_loop_modulo (w * 10 + (c - 48)) ((u * 10 + (c - 48)) % 2 ^ 64) s v next later)

abbrev pub text : Bytes → Value
text s = record { bytes = s; is_null = false }

-- The decimal text of a 64-bit number reads back as that number.
pub uint_64-format_uint : (u : ℕ) → u < 2 ^ 64 → uint_64 (text (format_uint u)) ≡ ok u
unfolding uint_64
uint_64-format_uint u h =
    let read =
      uint_loop_in_range 0 (format_uint u) u (parse_digits-format_uint u (omega arith)) h in
    let full = format_uint_nonempty u in
    let some_bytes : (length (format_uint u) == 0) ≡ false = ground arith in rw some_bytes read

-- Whatever value is accepted consists of digits, and is read as the number they denote modulo
-- 2^64: the overflow test does not rule out that the number itself is larger.
pub uint_64-modulo :
    (s : Bytes) (v : ℕ)
    → uint_64 (text s) ≡ ok v
    → (x : ℕ) × ((parse_digits 0 s ≡ some x) × (v ≡ x % 2 ^ 64))
unfolding uint_64
uint_64-modulo [] v h = absurd (ground arith)
uint_64-modulo (c ∷ s) v h = uint_loop_modulo 0 0 (c ∷ s) v (omega arith) (accepted c s v h)
  where
    accepted :
        (c : ℕ) (s : Bytes) (v : ℕ) → uint_64 (text (c ∷ s)) ≡ ok v → uint_loop 0 (c ∷ s) ≡ ok v
    accepted c s v h = ground arith
