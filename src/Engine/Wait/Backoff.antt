-- ===== src/Engine/Wait/Backoff.antt =====
-- internal/engine/lease.go: the delays that the loop computes.
use cachet.Base.Int.{ℤ, pos, ltb_ℤ, leb_ℤ}
use cachet.Engine.Wait.{signed_64, double, WaitPolicy, new_wait_policy, grow, backoff}
use cachet.Base.{
  ℕ, zero, suc, ◌*◌, ◌^◌, ◌≤◌, ◌<◌, min, ◌≡◌, refl, ap, ◌∙◌, inl, inr, false, arith, if◌then◌else◌,
  Bool-cases,
}

power_pos : (n : ℕ) → 0 < 2 ^ n
power_pos zero = omega arith
power_pos (suc n) = let p = power_pos n in omega arith

double_lem : (n : ℕ) → n < 2 ^ 62 → double (pos n) ≡ pos (2 * n)
unfolding double signed_64
double_lem n h = ground arith

mul_ge : (d k : ℕ) → 0 < k → d ≤ d * k
mul_ge d k h = grind arith

doubled : (d n : ℕ) → 2 * d * 2 ^ n ≡ d * 2 ^ suc n
doubled d n = let s : 2 ^ suc n ≡ 2 * 2 ^ n = omega arith in rw s (grind arith)

stopped : (d m k : ℕ) → 0 < k → ltb_ℤ (pos d) (pos m) ≡ false → min d m ≡ min (d * k) m
stopped d m k live more = let le = mul_ge d k live in ground arith

grow_lem :
    (n d m : ℕ)
    → m ≤ 2 ^ 62
    → (g : ℕ) × (grow (pos m) n (pos d) ≡ pos g) × (min g m ≡ min (d * 2 ^ n) m)
unfolding grow
grow_lem zero d m fits = (d, refl, grind arith)
grow_lem (suc n) d m fits = elim (Bool-cases (ltb_ℤ (pos d) (pos m))) [
  | inl less ↦
      let (g, e, same) = grow_lem n (2 * d) m fits in
      (
        g,
        rw less (ap (grow (pos m) n) (double_lem d (ground arith)) ∙ e),
        same ∙ ap (λ x. min x m) (doubled d n),
      )
  | inr more ↦ (d, rw more refl, stopped d m (2 ^ suc n) (power_pos (suc n)) more)
]

clamped : (m g : ℕ) (d : ℤ) → d ≡ pos g → (if ltb_ℤ (pos m) d then pos m else d) ≡ pos (min g m)
clamped m g d e = rw e (ground arith)

unless_zero : (b : ℕ) (d : ℤ) → 0 < b → (if leb_ℤ (pos b) (pos 0) then pos 0 else d) ≡ d
unless_zero b d live = ground arith

at_parts :
    (p : WaitPolicy) (b m n : ℕ)
    → p.base ≡ pos b
    → p.max_delay ≡ pos m
    → 0 < b
    → m ≤ 2 ^ 62
    → backoff p (pos n) ≡ pos (min (b * 2 ^ n) m)
unfolding backoff
at_parts p b m n at_base at_max live fits =
    let (g, e, same) = grow_lem n b m fits in
    rw (at_base, at_max)
      (unless_zero b
          (if ltb_ℤ (pos m) (grow (pos m) n (pos b)) then pos m else grow (pos m) n (pos b)) live
        ∙ clamped m g (grow (pos m) n (pos b)) e
        ∙ ap pos same)

policy_base : (attempts : ℤ) (b m : ℕ) → (new_wait_policy attempts (pos b) (pos m)).base ≡ pos b
unfolding new_wait_policy
policy_base attempts b m = ground arith

policy_max :
    (attempts : ℤ) (b m : ℕ) → b ≤ m → (new_wait_policy attempts (pos b) (pos m)).max_delay ≡ pos m
unfolding new_wait_policy
policy_max attempts b m ordered = ground arith

-- Up to a cap of 2^62 nanoseconds the wait before attempt n is the base doubled n times, clamped at
-- the cap: no doubling wraps.
pub backoff-new_wait_policy :
    (attempts : ℤ) (b m n : ℕ)
    → 0 < b
    → b ≤ m
    → m ≤ 2 ^ 62
    → backoff (new_wait_policy attempts (pos b) (pos m)) (pos n) ≡ pos (min (b * 2 ^ n) m)
backoff-new_wait_policy attempts b m n live ordered fits =
    at_parts (new_wait_policy attempts (pos b) (pos m)) b m n (policy_base attempts b m)
      (policy_max attempts b m ordered) live fits
