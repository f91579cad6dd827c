-- ===== src/HashRing/Mix.antt =====
-- internal/hashring/ring.go: the finalizing mix is a bijection of the 64-bit numbers.
use cachet.Base.Bits.{xor_self, xor-zero, xor_assoc, xor_lt, xor_shift, zero-xor}
use cachet.HashRing.{split_mix_64}
use cachet.Base.{ℕ, ◌+◌, ◌*◌, ◌/◌, ◌%◌, ◌^◌, ◌<◌, bit_xor, ◌≡◌, refl, sym, ap, ◌∙◌, arith}

-- The inverses of the two odd factors.
times_first :
    (x : ℕ) → x < 2 ^ 64 → x * 13787848793156543929 % 2 ^ 64 * 10871156337175269513 % 2 ^ 64 ≡ x
times_first x h = omega arith

times_second :
    (x : ℕ) → x < 2 ^ 64 → x * 10723151780598845931 % 2 ^ 64 * 3573116690164977347 % 2 ^ 64 ≡ x
times_second x h = omega arith

cancel : (u a v : ℕ) → bit_xor (bit_xor u a) (bit_xor a v) ≡ bit_xor u v
cancel u a v =
    xor_assoc u a (bit_xor a v)
    ∙ ap (bit_xor u) (sym (xor_assoc a a v) ∙ rw (xor_self a) (zero-xor v))

-- A value that was mixed with its own shifted bits, mixed twice more.
unshift : ℕ → ℕ → ℕ
unshift k y = bit_xor (bit_xor y (y / 2 ^ k)) (y / 2 ^ k / 2 ^ k)

unshift_xor : (k x : ℕ) → x / 2 ^ k / 2 ^ k / 2 ^ k ≡ 0 → unshift k (bit_xor x (x / 2 ^ k)) ≡ x
unfolding unshift
unshift_xor k x gone =
    let a = x / 2 ^ k in
    let b = a / 2 ^ k in
    rw (xor_shift k x a, xor_shift k a b) (rw (cancel x a b, gone) (cancel x b 0 ∙ xor-zero x))

shifted_injective :
    (k x y : ℕ)
    → x / 2 ^ k / 2 ^ k / 2 ^ k ≡ 0
    → y / 2 ^ k / 2 ^ k / 2 ^ k ≡ 0
    → bit_xor x (x / 2 ^ k) ≡ bit_xor y (y / 2 ^ k)
    → x ≡ y
shifted_injective k x y p q e = sym (unshift_xor k x p) ∙ ap (unshift k) e ∙ unshift_xor k y q

shifted_lt : (k x : ℕ) → x < 2 ^ 64 → x / 2 ^ k < 2 ^ 64 → bit_xor x (x / 2 ^ k) < 2 ^ 64
shifted_lt k x h l = xor_lt 64 x (x / 2 ^ k) h l

first_injective :
    (x y : ℕ)
    → x < 2 ^ 64
    → y < 2 ^ 64
    → x * 13787848793156543929 % 2 ^ 64 ≡ y * 13787848793156543929 % 2 ^ 64
    → x ≡ y
first_injective x y h l e =
    sym (times_first x h) ∙ ap (λ z. z * 10871156337175269513 % 2 ^ 64) e ∙ times_first y l

second_injective :
    (x y : ℕ)
    → x < 2 ^ 64
    → y < 2 ^ 64
    → x * 10723151780598845931 % 2 ^ 64 ≡ y * 10723151780598845931 % 2 ^ 64
    → x ≡ y
second_injective x y h l e =
    sym (times_second x h) ∙ ap (λ z. z * 3573116690164977347 % 2 ^ 64) e ∙ times_second y l

added : ℕ → ℕ
added x = (x + 11400714819323198485) % 2 ^ 64

multiplied : ℕ → ℕ
multiplied a = bit_xor a (a / 2 ^ 30) * 13787848793156543929 % 2 ^ 64

multiplied_again : ℕ → ℕ
multiplied_again b = bit_xor b (b / 2 ^ 27) * 10723151780598845931 % 2 ^ 64

added_lt : (x : ℕ) → added x < 2 ^ 64
unfolding added
added_lt x = omega arith

added_injective : (x y : ℕ) → x < 2 ^ 64 → y < 2 ^ 64 → added x ≡ added y → x ≡ y
unfolding added
added_injective x y h l e = omega arith

multiplied_lt : (a : ℕ) → multiplied a < 2 ^ 64
unfolding multiplied
multiplied_lt a = omega arith

multiplied_injective : (x y : ℕ) → x < 2 ^ 64 → y < 2 ^ 64 → multiplied x ≡ multiplied y → x ≡ y
unfolding multiplied
multiplied_injective x y h l e = shifted_injective 30 x y (omega arith) (omega arith) (
    first_injective (bit_xor x (x / 2 ^ 30)) (bit_xor y (y / 2 ^ 30))
      (shifted_lt 30 x h (omega arith)) (shifted_lt 30 y l (omega arith)) e)

multiplied_again_lt : (b : ℕ) → multiplied_again b < 2 ^ 64
unfolding multiplied_again
multiplied_again_lt b = omega arith

multiplied_again_injective :
    (x y : ℕ) → x < 2 ^ 64 → y < 2 ^ 64 → multiplied_again x ≡ multiplied_again y → x ≡ y
unfolding multiplied_again
multiplied_again_injective x y h l e = shifted_injective 27 x y (omega arith) (omega arith) (
    second_injective (bit_xor x (x / 2 ^ 27)) (bit_xor y (y / 2 ^ 27))
      (shifted_lt 27 x h (omega arith)) (shifted_lt 27 y l (omega arith)) e)

split_mix_64_stages :
    (x : ℕ)
    → let c = multiplied_again (multiplied (added x)) in split_mix_64 x ≡ bit_xor c (c / 2 ^ 31)
unfolding split_mix_64 multiplied_again multiplied added
split_mix_64_stages x = refl

-- The finalizing mix introduces no collision: two 64-bit numbers with the same image are equal.
pub split_mix_64-injective :
    (x y : ℕ) → x < 2 ^ 64 → y < 2 ^ 64 → split_mix_64 x ≡ split_mix_64 y → x ≡ y
split_mix_64-injective x y h l e =
    let a = added x in
    let b = added y in
    let c = multiplied_again (multiplied a) in
    let d = multiplied_again (multiplied b) in
    let hc = multiplied_again_lt (multiplied a) in
    let hd = multiplied_again_lt (multiplied b) in
    added_injective x y h l (
      multiplied_injective a b (added_lt x) (added_lt y) (
        multiplied_again_injective (multiplied a) (multiplied b) (multiplied_lt a) (multiplied_lt b)
          (shifted_injective 31 c d (omega arith) (omega arith)
            (sym (split_mix_64_stages x) ∙ e ∙ split_mix_64_stages y))))
