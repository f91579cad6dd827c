-- ===== src/Cdc.antt =====
-- internal/cdc: positions in a binlog (checkpoint.go), and the progress that a tailer records
-- (tailer.go). The stream, the clock and the cache's replies are input; logs are left out.
pub mod Checkpointed
mod Tests
use cachet.Base.Int.{ℤ, pos, ltb_ℤ}
use cachet.Base.{
  ℕ, zero, suc, ◌+◌, ◌-◌, ◌*◌, ◌/◌, ◌%◌, ◌^◌, ◌≤◌, ◌<◌, min, max, bit_and, bit_or, bit_xor, ◌≡◌,
  refl, sym, ap, ◌∙◌, ◌≢◌, ◌↔◌, ◌⊎◌, inl, inr, Bool, true, false, not, ◌&&◌, ◌||◌, Option, none,
  some, List, [], ◌∷◌, ◌++◌, map, append_assoc, append-nil, arith, ltb, leb, ◌==◌, if◌then◌else◌,
  ltb→lt, lt→ltb, le→ltb, leb→le, le→leb, ==_iff, ==_refl, tests, Bool-cases, Option-cases, &&_true,
  length, get_elem?, get_or, set, take, drop, replicate, All, length-append, take_append,
  drop_append, length-replicate, All-append, Bytes, IsByte, ascii, bytes_eq, bytes_lt, bytes_le,
  eq_of_bytes_eq, bytes_eq_refl, bytes_eq_iff, bytes_eq_ne, Result, ok, err, ◌>>=◌, ◌>>◌, require,
}

pub record Position : Type 0 where
  pub file : Bytes
  pub offset : ℕ

unfoldable pub before : Position → Position → Bool
before p other =
    if not (bytes_eq p.file other.file)
    then bytes_lt p.file other.file
    else ltb p.offset other.offset

-- In nanoseconds.
abbrev pub initial_invalidate_backoff : ℕ
initial_invalidate_backoff = 100000000

abbrev pub max_invalidate_backoff : ℕ
max_invalidate_backoff = 2000000000

pub record Tailer : Type 0 where
  pub position : Position
  pub dirty : Bool
  pub frozen : Bool
  pub frozen_at : Position

abbrev pub no_position : Position
no_position = record { file = []; offset = 0 }

abbrev pub new_tailer : Tailer
new_tailer = record {
  position = no_position;
  dirty = false;
  frozen = false;
  frozen_at = no_position;
}

unfoldable pub freeze : Tailer → Tailer
freeze t =
    if t.frozen
    then t
    else record { position = t.position; dirty = t.dirty; frozen = true; frozen_at = t.position }

unfoldable pub set_position : Position → Tailer → Tailer
set_position p t = record { position = p; dirty = true; frozen = t.frozen; frozen_at = t.frozen_at }

-- `saveIfDirty`, with what it saves. A failed save is only logged.
unfoldable pub save_if_dirty : Tailer → Option Position × Tailer
save_if_dirty t =
    let p = if t.frozen then t.frozen_at else t.position in
    (
      if not t.dirty || bytes_eq p.file [] then none else some p,
      record { position = t.position; dirty = false; frozen = t.frozen; frozen_at = t.frozen_at },
    )

-- How the loop of `invalidate` ends: a reply, whether the tombstone was applied; an error where the
-- context or the deadline is over; or the end of the context during a wait.
pub data Ending : Type 0 where
  delivered : (applied : Bool) → Ending
  out_of_time cancelled : Ending

unfoldable pub next_backoff : ℕ → ℕ
next_backoff backoff =
    let twice = backoff * 2 in
    if ltb max_invalidate_backoff twice then max_invalidate_backoff else twice

abbrev pub ended : Ending → Tailer → Option Bool × Tailer
ended (delivered applied) t = (some applied, t)
ended out_of_time t = (none, freeze t)
ended cancelled t = (none, freeze t)

-- The loop of `invalidate`, with the waits: so many attempts fail with time left, and then it ends.
unfoldable pub invalidate_from : ℕ → Ending → ℕ → Tailer → List ℕ × (Option Bool × Tailer)
invalidate_from zero ending backoff t = ([], ended ending t)
invalidate_from (suc failures) ending backoff t =
    let rest = invalidate_from failures ending (next_backoff backoff) t in
    (backoff ∷ rest.0, rest.1)

unfoldable pub invalidate : ℕ → Ending → Tailer → List ℕ × (Option Bool × Tailer)
invalidate failures ending t = invalidate_from failures ending initial_invalidate_backoff t
