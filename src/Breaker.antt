-- ===== src/Breaker.antt =====
-- internal/breaker/breaker.go: what fraction of a node's traffic is shed, by its failures over a window.
-- Floats are a parameter, and so are the readings of the clock and of the random source.
pub mod Shed
pub mod Latch
pub mod Stale
mod Tests
use cachet.Base.Float.{Float}
use cachet.Base.Assoc.{lookup, insert}
use cachet.Base.Int.{ℤ, pos, pos_part, leb_ℤ, ltb_ℤ}
use cachet.Window.{Window, modify, roll}
use cachet.Base.{
  ℕ, zero, suc, ◌+◌, ◌-◌, ◌*◌, ◌/◌, ◌%◌, ◌^◌, ◌≤◌, ◌<◌, min, max, bit_and, bit_or, bit_xor, ◌≡◌,
  refl, sym, ap, ◌∙◌, ◌≢◌, ◌↔◌, ◌⊎◌, inl, inr, Bool, true, false, not, ◌&&◌, ◌||◌, Option, none,
  some, List, [], ◌∷◌, ◌++◌, map, append_assoc, append-nil, arith, ltb, leb, ◌==◌, if◌then◌else◌,
  ltb→lt, lt→ltb, le→ltb, leb→le, le→leb, ==_iff, ==_refl, tests, Bool-cases, Option-cases, &&_true,
  length, get_elem?, get_or, set, take, drop, replicate, All, length-append, take_append,
  drop_append, length-replicate, All-append, Bytes, IsByte, ascii, bytes_eq, bytes_lt, bytes_le,
  eq_of_bytes_eq, bytes_eq_refl, bytes_eq_iff, bytes_eq_ne, Result, ok, err, ◌>>=◌, ◌>>◌, require,
}

pub data Error : Type 0 where
  window_not_positive buckets_not_positive min_requests_negative : Error
  failure_floor_out_of_range max_shed_negative max_shed_not_below_one : Error
  integer_divide_by_zero : Error

pub record Bucket : Type 0 where
  pub successes : ℕ
  pub failures : ℕ

abbrev pub empty_bucket : Bucket
empty_bucket = record { successes = 0; failures = 0 }

abbrev pub clear_bucket : Bucket → Bucket
clear_bucket b = empty_bucket

unfoldable pub add_success : Bucket → Bucket
add_success b = record { successes = b.successes + 1; failures = b.failures }

unfoldable pub add_failure : Bucket → Bucket
add_failure b = record { successes = b.successes; failures = b.failures + 1 }

-- The loop of `countLocked`, over the buckets from the last one on.
unfoldable pub count : List Bucket → Bucket
count [] = empty_bucket
count (b ∷ buckets) =
    let rest = count buckets in
    record { successes = b.successes + rest.successes; failures = b.failures + rest.failures }

module _ (float : Float) where
  open float use {F, zero_f, one, of_nat, sub, mul, div, lt, le}

  -- Durations are in nanoseconds.
  pub record Options : Type 0 where
    pub window : ℤ
    pub bucket_count : ℤ
    pub min_requests : ℤ
    pub failure_floor : F
    pub max_shed : F

  pub record Breaker : Type 0 where
    pub opts : Options
    pub bucketed : ℕ
    pub live : Window Bucket

  pub record Stats : Type 0 where
    pub total_successes : ℕ
    pub total_failures : ℕ
    pub total : ℕ
    pub failure_rate : F
    pub shed_rate : F

  unfoldable pub check : Options → Result Error (Unit {0})
  check o = do
    require (ltb_ℤ (pos 0) o.window) window_not_positive
    require (ltb_ℤ (pos 0) o.bucket_count) buckets_not_positive
    require (leb_ℤ (pos 0) o.min_requests) min_requests_negative
    require (not (lt o.failure_floor zero_f || le one o.failure_floor)) failure_floor_out_of_range
    require (not (lt o.max_shed zero_f)) max_shed_negative
    require (not (le one o.max_shed)) max_shed_not_below_one
    ok tt

  abbrev pub fresh : Options → ℤ → Breaker
  fresh o start = record {
    opts = o;
    bucketed = pos_part o.window / pos_part o.bucket_count;
    live = record {
      buckets = replicate (pos_part o.bucket_count) empty_bucket;
      head = 0;
      head_start = start;
    };
  }

  unfoldable pub new : Options → ℤ → Result Error Breaker
  unfolding check
  new o start = check o >> ok (fresh o start)

  abbrev pub with_window : Breaker → Window Bucket → Breaker
  with_window b w = record { opts = b.opts; bucketed = b.bucketed; live = w }

  abbrev or_panic : Option (Window Bucket) → Result Error (Window Bucket)
  or_panic none = err integer_divide_by_zero
  or_panic (some w) = ok w

  -- `rollLocked`
  unfoldable pub roll_locked : Breaker → ℤ → ℤ → Result Error (Window Bucket)
  roll_locked b now later = or_panic (roll clear_bucket b.bucketed now later b.live)

  abbrev record_in : (Bucket → Bucket) → Window Bucket → Window Bucket
  record_in f w = record {
    buckets = modify w.head f w.buckets;
    head = w.head;
    head_start = w.head_start;
  }

  unfoldable pub success : Breaker → ℤ → ℤ → Result Error Breaker
  unfolding roll_locked
  success b now later =
      roll_locked b now later >>= λ w. ok (with_window b (record_in add_success w))

  unfoldable pub failure : Breaker → ℤ → ℤ → Result Error Breaker
  unfolding roll_locked
  failure b now later =
      roll_locked b now later >>= λ w. ok (with_window b (record_in add_failure w))

  -- The part of `shedLocked` after the window has rolled, on what `countLocked` returned.
  unfoldable pub shed_rate_of : Options → Bucket → F
  shed_rate_of o c =
      let n = c.successes + c.failures in
      let rate = div (of_nat c.failures) (of_nat n) in
      let scaled = mul (div (sub rate o.failure_floor) (sub one o.failure_floor)) o.max_shed in
      if ltb_ℤ (pos n) o.min_requests
      then zero_f
      else if le rate o.failure_floor
      then zero_f
      else if lt o.max_shed scaled
      then o.max_shed
      else scaled

  unfoldable pub shed_locked : Breaker → ℤ → ℤ → Result Error (F × Breaker)
  unfolding roll_locked shed_rate_of count
  shed_locked b now later =
      roll_locked b now later >>= λ w. ok (shed_rate_of b.opts (count w.buckets), with_window b w)

  -- `Allow`, with the reading of the random source.
  unfoldable pub allow : Breaker → ℤ → ℤ → F → Result Error (Bool × Breaker)
  unfolding shed_locked
  allow b now later random =
      shed_locked b now later >>= λ r. ok (if le r.0 zero_f then true else le r.0 random, r.1)

  -- The counts are taken before the window rolls, and the shed rate after it.
  unfoldable pub stats : Breaker → ℤ → ℤ → Result Error (Stats × Breaker)
  unfolding shed_locked count
  stats b now later =
      let c = count b.live.buckets in
      let n = c.successes + c.failures in
      shed_locked b now later >>= λ r. ok (
        record {
          total_successes = c.successes;
          total_failures = c.failures;
          total = n;
          failure_rate = if ltb 0 n then div (of_nat c.failures) (of_nat n) else zero_f;
          shed_rate = r.0;
        },
        r.1,
      )

  pub record Group : Type 0 where
    pub group_opts : Options
    pub breakers : List (Bytes × Breaker)

  unfoldable pub new_group : Options → ℤ → Result Error Group
  unfolding new
  new_group o start = new o start >>= λ b. ok (record { group_opts = o; breakers = [] })

  abbrev add_breaker : Group → Bytes → Result Error Breaker → Result Error (Breaker × Group)
  add_breaker g node (err e) = err e
  add_breaker g node (ok b) =
      ok (b, record { group_opts = g.group_opts; breakers = insert node b g.breakers })

  abbrev found_or_new : Group → Bytes → ℤ → Option Breaker → Result Error (Breaker × Group)
  found_or_new g node start (some b) = ok (b, g)
  found_or_new g node start none = add_breaker g node (new g.group_opts start)

  -- `For`: an error stands for its panic.
  unfoldable pub breaker_for : Group → Bytes → ℤ → Result Error (Breaker × Group)
  unfolding new lookup insert
  breaker_for g node start = found_or_new g node start (lookup node g.breakers)

  -- `ShedProbability`
  unfoldable pub shed_probability : Breaker → ℤ → ℤ → Result Error (F × Breaker)
  unfolding shed_locked
  shed_probability b now later = shed_locked b now later

  -- The loop of `Nodes`, with the readings of the clock for each node.
  unfoldable pub nodes_from :
      (Bytes → ℤ × ℤ)
      → List (Bytes × Breaker)
      → Result Error (List (Bytes × Stats) × List (Bytes × Breaker))
  unfolding stats
  nodes_from clock [] = ok ([], [])
  nodes_from clock ((node, b) ∷ breakers) =
      let rest = nodes_from clock breakers in
      stats b (clock node).0 (clock node).1 >>= λ r.
      rest >>= λ out. ok ((node, r.0) ∷ out.0, (node, r.1) ∷ out.1)

  unfoldable pub nodes : (Bytes → ℤ × ℤ) → Group → Result Error (List (Bytes × Stats) × Group)
  unfolding nodes_from
  nodes clock g = nodes_from clock g.breakers >>= λ out.
      ok (out.0, record { group_opts = g.group_opts; breakers = out.1 })
