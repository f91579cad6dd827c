-- ===== src/Schema/Key/Escape.antt =====
-- internal/schema/key.go: escaping a value keeps the separator out, and is undone by unescaping.
use cachet.Base.Bits.{bit_or_fields, bit_and_mask}
use cachet.Schema.Key.{
  hex_digit, is_escaped, escape, hex_val, join_nibbles, unescape_loop, contains, unescape,
}
use cachet.Base.{
  ℕ, zero, suc, ◌*◌, ◌/◌, ◌%◌, ◌<◌, bit_and, bit_or, ◌≡◌, refl, sym, ◌∙◌, inl, inr, false, [], ◌∷◌,
  arith, ◌==◌, Bool-cases, All, Bytes, IsByte, ok,
}

-- A predicate at every number below a bound.
abbrev AllBelow : ℕ → (ℕ → Type 0) → Type 0
AllBelow zero P = Unit
AllBelow (suc k) P = P 0 × AllBelow k (λ n. P (suc n))

all_below : (k : ℕ) (P : ℕ → Type 0) → AllBelow k P → (n : ℕ) → n < k → P n
all_below zero P h n lt = absurd (omega arith)
all_below (suc k) P h zero lt = h.0
all_below (suc k) P h (suc n) lt = all_below k (λ m. P (suc m)) h.1 n (omega arith)

hex_val-hex_digit : (n : ℕ) → n < 16 → hex_val (hex_digit n) ≡ ok n
unfolding hex_val hex_digit
hex_val-hex_digit n h =
    all_below 16 (λ m. hex_val (hex_digit m) ≡ ok m)
      (
        refl,
        (
          refl,
          (
            refl,
            (
              refl,
              (
                refl,
                (
                  refl,
                  (
                    refl,
                    (refl, (refl, (refl, (refl, (refl, (refl, (refl, (refl, (refl, tt))))))))),
                  ),
                ),
              ),
            ),
          ),
        ),
      )
      n h

nibbles : (c : ℕ) → IsByte c → bit_or (c / 16 * 16 % 256) (bit_and c 15) ≡ c
nibbles c h =
    let high : c / 16 * 16 % 256 ≡ c / 16 * 16 = omega arith in
    let low : bit_and c 15 ≡ c % 16 = bit_and_mask 4 c in
    rw (high, low) (bit_or_fields 4 (c / 16) (c % 16) (omega arith) ∙ omega arith)

-- A byte that is not escaped is copied.
unescape_loop-cons :
    (c : ℕ) (s t : Bytes)
    → (c == b'%') ≡ false
    → unescape_loop s ≡ ok t
    → unescape_loop (c ∷ s) ≡ ok (c ∷ t)
unfolding unescape_loop
unescape_loop-cons c [] t plain h = ground arith
unescape_loop-cons c (d ∷ []) t plain h = rw plain (rw h refl)
unescape_loop-cons c (d ∷ e ∷ s) t plain h = rw plain (rw h refl)

unescape_loop-escaped :
    (c : ℕ) (s t : Bytes)
    → IsByte c
    → unescape_loop s ≡ ok t
    → unescape_loop (b'%' ∷ hex_digit (c / 16) ∷ hex_digit (bit_and c 15) ∷ s) ≡ ok (c ∷ t)
unfolding unescape_loop join_nibbles
unescape_loop-escaped c s t h rest =
    let low = bit_and_mask 4 c in
    rw (hex_val-hex_digit (c / 16) (omega arith))
      (rw (hex_val-hex_digit (bit_and c 15) (omega arith)) (rw rest (rw (nibbles c h) refl)))

not_escape : (c : ℕ) → is_escaped c ≡ false → (c == b'%') ≡ false
unfolding is_escaped
not_escape c p = ground arith

unescape_loop-escape : (s : Bytes) → All IsByte s → unescape_loop (escape s) ≡ ok s
unfolding escape unescape_loop
unescape_loop-escape [] h = refl
unescape_loop-escape (c ∷ s) h = elim (Bool-cases (is_escaped c)) [
  | inl e ↦ rw e (unescape_loop-escaped c (escape s) s h.0 (unescape_loop-escape s h.1))
  | inr p ↦ rw p (unescape_loop-cons c (escape s) s (not_escape c p) (unescape_loop-escape s h.1))
]

-- Without the escape character unescaping changes nothing.
unescape_loop-plain : (s : Bytes) → contains b'%' s ≡ false → unescape_loop s ≡ ok s
unfolding contains unescape_loop
unescape_loop-plain [] h = refl
unescape_loop-plain (c ∷ s) h =
    unescape_loop-cons c s s (ground arith) (unescape_loop-plain s (ground arith))

pub unescape-escape : (s : Bytes) → All IsByte s → unescape (escape s) ≡ ok s
unfolding unescape
unescape-escape s h = elim (Bool-cases (contains b'%' (escape s))) [
  | inl marked ↦ rw marked (unescape_loop-escape s h)
  | inr free ↦ rw free (sym (unescape_loop-plain (escape s) free) ∙ unescape_loop-escape s h)
]

hex_digit-colon : (n : ℕ) → n < 16 → (hex_digit n == b':') ≡ false
unfolding hex_digit
hex_digit-colon n h =
    all_below 16 (λ m. (hex_digit m == b':') ≡ false)
      (
        refl,
        (
          refl,
          (
            refl,
            (
              refl,
              (
                refl,
                (
                  refl,
                  (
                    refl,
                    (refl, (refl, (refl, (refl, (refl, (refl, (refl, (refl, (refl, tt))))))))),
                  ),
                ),
              ),
            ),
          ),
        ),
      )
      n h

pub contains-escape : (s : Bytes) → All IsByte s → contains b':' (escape s) ≡ false
unfolding contains escape is_escaped
contains-escape [] h = refl
contains-escape (c ∷ s) h =
    let low = bit_and_mask 4 c in
    ground (arith, contains-escape s h.1, hex_digit-colon (c / 16), hex_digit-colon (bit_and c 15))
