-- ===== src/Breaker/Stale.antt =====
-- internal/breaker/breaker.go: what `Stats` reports after an idle window.
use cachet.Base.Float.{Float}
use cachet.Base.Int.{ℤ, pos, ◌-ℤ◌}
use cachet.Window.{Window, roll_steps, roll_elapsed, roll}
use cachet.Breaker.{
  Bucket, empty_bucket, clear_bucket, count, Breaker, Stats, with_window, roll_locked, shed_rate_of,
  shed_locked, stats,
}
use cachet.Breaker.Latch.{IsIdle, cleared, count_idle}
use cachet.Base.{
  ℕ, ◌+◌, ◌/◌, ◌≤◌, ◌<◌, ◌≡◌, refl, true, false, some, map, arith, ltb, leb, ◌==◌, if◌then◌else◌,
  length, ok,
}

emptied : ℤ → Window Bucket → Window Bucket
emptied later w = record { buckets = map clear_bucket w.buckets; head = 0; head_start = later }

roll_gone :
    (slice : ℕ) (later : ℤ) (n : ℕ) (w : Window Bucket)
    → 0 < slice
    → slice ≤ n
    → length w.buckets ≤ n / slice
    → roll_elapsed clear_bucket slice later (pos n) w ≡ some (emptied later w)
unfolding roll_steps emptied
roll_gone slice later n w live late gone =
    let a : ltb n slice ≡ false = ground arith in
    let b : (slice == 0) ≡ false = ground arith in
    let c : leb (length w.buckets) (n / slice) ≡ true = ground arith in rw (a, b, c) refl

module _ (float : Float) where
  abbrev reported : Breaker float → Stats float
  reported b =
      let c = count b.live.buckets in
      let n = c.successes + c.failures in
      record {
        total_successes = c.successes;
        total_failures = c.failures;
        total = n;
        failure_rate =
            if ltb 0 n then float.div (float.of_nat c.failures) (float.of_nat n) else float.zero_f;
        shed_rate = shed_rate_of float b.opts empty_bucket;
      }

  emptied-IsIdle : (b : Breaker float) (later : ℤ) → IsIdle (emptied later b.live)
  unfolding emptied
  emptied-IsIdle b later = cleared b.live.buckets

  count-emptied :
      (b : Breaker float) (later : ℤ) → count (emptied later b.live).buckets ≡ empty_bucket
  count-emptied b later = count_idle (emptied later b.live).buckets (emptied-IsIdle b later)

  -- When the whole window has gone by without a call, `Stats` still reports the successes and the
  -- failures of the calls before it, next to the shed fraction of an empty window.
  pub stats-IsIdle :
      (b : Breaker float) (now later : ℤ) (n : ℕ)
      → now -ℤ b.live.head_start ≡ pos n
      → 0 < b.bucketed
      → b.bucketed ≤ n
      → length b.live.buckets ≤ n / b.bucketed
      → (s : Stats float) × (b' : Breaker float) × (stats float b now later ≡ ok (s, b'))
        × (s.total_successes ≡ (count b.live.buckets).successes)
        × (s.total_failures ≡ (count b.live.buckets).failures)
        × (s.shed_rate ≡ shed_rate_of float b.opts empty_bucket)
        × IsIdle b'.live
  unfolding stats shed_locked roll_locked roll
  stats-IsIdle b now later n e live late gone =
      let rolled = roll_gone b.bucketed later n b.live live late gone in
      (
        reported b,
        with_window float b (emptied later b.live),
        rw (e, rolled, count-emptied b later) refl,
        refl,
        refl,
        refl,
        emptied-IsIdle b later,
      )
