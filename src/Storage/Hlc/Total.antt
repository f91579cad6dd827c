-- ===== src/Storage/Hlc/Total.antt =====
-- What `Next` and `Now` return, in one arithmetic expression, while they cannot panic.
use cachet.Base.Int.{ℤ, pos, negsuc, pos_part, ltb_ℤ, ◌≤ℤ◌}
use cachet.Base.{ℕ, ◌+◌, ◌*◌, ◌/◌, ◌<◌, ◌≡◌, Option, some, arith, if◌then◌else◌}
use cachet.Storage.Hlc.{Clock, physical_millis, logical, max_physical_millis, advance_logical, next}
use cachet.Storage.Hlc.Pack.{new_version_sum, logical_lem}

-- The wall clock's millisecond if it is ahead, and the successor of the last version otherwise.
abbrev pub successor : ℤ → ℕ → ℕ
successor wall last = if ltb_ℤ (pos (last / 65536)) wall then pos_part wall * 65536 else last + 1

abbrev at : ℕ → Option (ℕ × Clock)
at v = some (v, record { last = v })

advance_logical-eq :
    (c : Clock) → c.last / 65536 < max_physical_millis → advance_logical c ≡ at (c.last + 1)
unfolding advance_logical
advance_logical-eq c h = ground (
  arith,
  logical_lem c.last,
  new_version_sum (c.last / 65536 + 1) 0,
  new_version_sum (c.last / 65536) (logical c.last + 1),
)

-- While the wall clock and the last version are below the last representable millisecond, `Next`
-- does not panic: it returns the wall clock's millisecond with a zero counter if that is ahead of
-- the last version's, and the last version plus one otherwise, which carries a saturated counter
-- into the next millisecond; and it keeps what it returns.
pub next-eq-successor :
    (wall : ℤ) (c : Clock)
    → wall ≤ℤ pos max_physical_millis
    → physical_millis c.last < max_physical_millis
    → next wall c ≡ some (successor wall c.last, record { last = successor wall c.last })
unfolding next physical_millis
next-eq-successor (pos w) c hw hl = ground (arith, advance_logical-eq c hl, new_version_sum w 0)
next-eq-successor (negsuc w) c hw hl = ground (arith, advance_logical-eq c hl)
