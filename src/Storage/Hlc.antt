-- ===== src/Storage/Hlc.antt =====
-- internal/storage/hlc.go: versions, and the clock that issues them. Wall time is an argument: the
-- reading of `now().UnixMilli()`. `none` stands for the panic of `NewVersion`.
pub mod Pack
pub mod Order
pub mod Total
use cachet.Base.Int.{ℤ, pos, pos_part, ltb_ℤ}
use cachet.Base.{
  ℕ, zero, suc, ◌+◌, ◌-◌, ◌*◌, ◌/◌, ◌%◌, ◌^◌, ◌≤◌, ◌<◌, min, max, bit_and, bit_or, bit_xor, ◌≡◌,
  refl, sym, ap, ◌∙◌, ◌≢◌, ◌↔◌, ◌⊎◌, inl, inr, Bool, true, false, not, ◌&&◌, ◌||◌, Option, none,
  some, List, [], ◌∷◌, ◌++◌, map, append_assoc, append-nil, arith, ltb, leb, ◌==◌, if◌then◌else◌,
  ltb→lt, lt→ltb, le→ltb, leb→le, le→leb, ==_iff, ==_refl, tests, Bool-cases, Option-cases, &&_true,
  length, get_elem?, get_or, set, take, drop, replicate, All, length-append, take_append,
  drop_append, length-replicate, All-append, Bytes, IsByte, ascii, bytes_eq, bytes_lt, bytes_le,
  eq_of_bytes_eq, bytes_eq_refl, bytes_eq_iff, bytes_eq_ne, Result, ok, err, ◌>>=◌, ◌>>◌, require,
}

-- `1<<logicalBits - 1`
abbrev pub logical_mask : ℕ
logical_mask = 2 ^ 16 - 1

abbrev pub max_physical_millis : ℕ
max_physical_millis = 2 ^ 48 - 1

abbrev pub max_logical : ℕ
max_logical = logical_mask

unfoldable pub new_version : ℤ → ℕ → Option ℕ
new_version millis logical =
    if ltb_ℤ millis (pos 0) || ltb_ℤ (pos max_physical_millis) millis
    then none
    else some (bit_or (pos_part millis * 2 ^ 16 % 2 ^ 64) logical)

unfoldable pub physical_millis : ℕ → ℕ
physical_millis v = v / 2 ^ 16

unfoldable pub logical : ℕ → ℕ
logical v = bit_and v logical_mask % 2 ^ 16

-- `time.UnixMilli(v.PhysicalMillis())`, in nanoseconds since the epoch.
unfoldable pub time : ℕ → ℤ
unfolding physical_millis
time v = pos (physical_millis v * 1000000)

pub record Clock : Type 0 where
  pub last : ℕ

-- `c.last = v; return v`
unfoldable pub issue : Option ℕ → Option (ℕ × Clock)
issue none = none
issue (some v) = some (v, record { last = v })

unfoldable pub advance_logical : Clock → Option (ℕ × Clock)
unfolding issue physical_millis logical new_version
advance_logical c =
    if logical c.last == max_logical
    then issue (new_version (pos (physical_millis c.last + 1)) 0)
    else issue (new_version (pos (physical_millis c.last)) (logical c.last + 1))

unfoldable pub next : ℤ → Clock → Option (ℕ × Clock)
unfolding issue physical_millis new_version
next wall c =
    if ltb_ℤ (pos (physical_millis c.last)) wall
    then issue (new_version wall 0)
    else advance_logical c

-- The branch of `Now` on a candidate that did not panic.
unfoldable pub raise_floor : Clock → Option ℕ → Option (ℕ × Clock)
raise_floor c none = none
raise_floor c (some candidate) =
    if ltb c.last candidate then some (candidate, record { last = candidate }) else some (c.last, c)

unfoldable pub now : ℤ → Clock → Option (ℕ × Clock)
unfolding raise_floor new_version
now wall c = raise_floor c (new_version wall 0)

unfoldable pub observe : ℕ → Clock → Clock
observe v c = if ltb c.last v then record { last = v } else c
