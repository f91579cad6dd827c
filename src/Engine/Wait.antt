-- ===== src/Engine/Wait.antt =====
-- internal/engine/lease.go: how long a caller waits for another one's fill. A duration is an int64 of
-- nanoseconds, whose doubling wraps.
pub mod Backoff
use cachet.Base.Int.{ℤ, pos, negsuc, ltb_ℤ, leb_ℤ}
use cachet.Base.{
  ℕ, zero, suc, ◌+◌, ◌-◌, ◌*◌, ◌/◌, ◌%◌, ◌^◌, ◌≤◌, ◌<◌, min, max, bit_and, bit_or, bit_xor, ◌≡◌,
  refl, sym, ap, ◌∙◌, ◌≢◌, ◌↔◌, ◌⊎◌, inl, inr, Bool, true, false, not, ◌&&◌, ◌||◌, Option, none,
  some, List, [], ◌∷◌, ◌++◌, map, append_assoc, append-nil, arith, ltb, leb, ◌==◌, if◌then◌else◌,
  ltb→lt, lt→ltb, le→ltb, leb→le, le→leb, ==_iff, ==_refl, tests, Bool-cases, Option-cases, &&_true,
  length, get_elem?, get_or, set, take, drop, replicate, All, length-append, take_append,
  drop_append, length-replicate, All-append, Bytes, IsByte, ascii, bytes_eq, bytes_lt, bytes_le,
  eq_of_bytes_eq, bytes_eq_refl, bytes_eq_iff, bytes_eq_ne, Result, ok, err, ◌>>=◌, ◌>>◌, require,
}

-- The int64 of a 64-bit word.
unfoldable pub signed_64 : ℕ → ℤ
signed_64 n = let m = n % 2 ^ 64 in if ltb m (2 ^ 63) then pos m else negsuc (2 ^ 64 - 1 - m)

-- `d *= 2`
unfoldable pub double : ℤ → ℤ
double (pos n) = signed_64 (2 * n)
double (negsuc n) = signed_64 (2 ^ 64 - (2 * suc n) % 2 ^ 64)

pub record WaitPolicy : Type 0 where
  pub attempts : ℤ
  pub base : ℤ
  pub max_delay : ℤ

abbrev at_least : ℤ → ℤ → ℤ
at_least low a = if ltb_ℤ a low then low else a

unfoldable pub new_wait_policy : ℤ → ℤ → ℤ → WaitPolicy
new_wait_policy attempts base max_delay = record {
  attempts = at_least (pos 0) attempts;
  base = at_least (pos 0) base;
  max_delay = at_least (at_least (pos 0) base) max_delay;
}

-- The loop, with the iterations that `attempt` leaves.
unfoldable pub grow : ℤ → ℕ → ℤ → ℤ
grow max_delay zero d = d
grow max_delay (suc n) d =
    let rest = grow max_delay n (double d) in if ltb_ℤ d max_delay then rest else d

abbrev clamp : ℤ → ℤ → ℤ
clamp max_delay d = if ltb_ℤ max_delay d then max_delay else d

unfoldable pub backoff : WaitPolicy → ℤ → ℤ
backoff p (negsuc n) = pos 0
backoff p (pos n) =
    let d = clamp p.max_delay (grow p.max_delay n p.base) in
    if leb_ℤ p.base (pos 0) then pos 0 else d
