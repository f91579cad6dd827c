-- ===== src/Window.antt =====
-- The ring of buckets that internal/breaker/breaker.go and internal/admission/sketch.go both keep: the
-- bucket at `head` is being written, and buckets are cleared as the time that they cover goes by.
pub mod Simulation
pub mod Invariant
use cachet.Base.Int.{ℤ, pos, negsuc, ltb_ℤ, ◌+ℤ◌, ◌-ℤ◌}
use cachet.Base.{
  ℕ, zero, suc, ◌+◌, ◌-◌, ◌*◌, ◌/◌, ◌%◌, ◌^◌, ◌≤◌, ◌<◌, min, max, bit_and, bit_or, bit_xor, ◌≡◌,
  refl, sym, ap, ◌∙◌, ◌≢◌, ◌↔◌, ◌⊎◌, inl, inr, Bool, true, false, not, ◌&&◌, ◌||◌, Option, none,
  some, List, [], ◌∷◌, ◌++◌, map, append_assoc, append-nil, arith, ltb, leb, ◌==◌, if◌then◌else◌,
  ltb→lt, lt→ltb, le→ltb, leb→le, le→leb, ==_iff, ==_refl, tests, Bool-cases, Option-cases, &&_true,
  length, get_elem?, get_or, set, take, drop, replicate, All, length-append, take_append,
  drop_append, length-replicate, All-append, Bytes, IsByte, ascii, bytes_eq, bytes_lt, bytes_le,
  eq_of_bytes_eq, bytes_eq_refl, bytes_eq_iff, bytes_eq_ne, Result, ok, err, ◌>>=◌, ◌>>◌, require,
}

module _ {A : Type 0} where
  -- `buckets[i] = f(buckets[i])`; an index out of range changes nothing.
  unfoldable pub modify : ℕ → (A → A) → List A → List A
  modify i f [] = []
  modify zero f (a ∷ as') = f a ∷ as'
  modify (suc i) f (a ∷ as') = a ∷ modify i f as'

pub record Window (A : Type 0) : Type 0 where
  pub buckets : List A
  pub head : ℕ
  pub head_start : ℤ

module _ {A : Type 0} (clear : A → A) where
  abbrev pub clear_next : Window A → Window A
  clear_next w =
      let head = (w.head + 1) % length w.buckets in
      record { buckets = modify head clear w.buckets; head = head; head_start = w.head_start }

  -- The loop over `steps`.
  unfoldable pub clear_steps : ℕ → Window A → Window A
  clear_steps zero w = w
  clear_steps (suc n) w = clear_steps n (clear_next w)

  abbrev pub restart : ℤ → Window A → Window A
  restart start w = record { buckets = w.buckets; head = w.head; head_start = start }

  -- `elapsed` nanoseconds are at least a slice here. `none` is the panic of a division by zero;
  -- `later` is the second reading of the clock.
  unfoldable pub roll_steps : ℕ → ℤ → ℕ → Window A → Option (Window A)
  roll_steps slice later elapsed w =
      let steps = elapsed / slice in
      if slice == 0
      then none
      else if leb (length w.buckets) steps
      then some (record { buckets = map clear w.buckets; head = 0; head_start = later })
      else some (restart (w.head_start +ℤ pos (steps * slice)) (clear_steps steps w))

  abbrev pub roll_elapsed : ℕ → ℤ → ℤ → Window A → Option (Window A)
  roll_elapsed slice later (negsuc n) w = some w
  roll_elapsed slice later (pos n) w = if ltb n slice then some w else roll_steps slice later n w

  -- `rollLocked`, with a slice of nanoseconds and the readings of the clock.
  unfoldable pub roll : ℕ → ℤ → ℤ → Window A → Option (Window A)
  roll slice now later w = roll_elapsed slice later (now -ℤ w.head_start) w
