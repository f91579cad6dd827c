-- ===== src/Breaker/Tests.antt =====
-- Concrete breakers on thousandths, and the theorems at them.
use cachet.Base.Float.Thousandths.{thousandths}
use cachet.Base.Int.{ℤ, pos, ltb_ℤ, ◌-ℤ◌}
use cachet.Breaker.{
  Bucket, empty_bucket, count, Options, Breaker, Stats, max_shed_not_below_one, check, new, fresh,
  shed_rate_of, stats,
}
use cachet.Breaker.Shed.{shed_rate_of-capped}
use cachet.Breaker.Latch.{Call, allow_all, allow_all-new, IsIdle}
use cachet.Breaker.Stale.{stats-IsIdle}
use cachet.Base.{◌≡◌, refl, ◌⊎◌, false, some, List, [], ◌∷◌, arith, replicate, ok, err, true}

-- A window of ten nanoseconds in five buckets, a floor of 5% and a cap of 95%.
abbrev options : ℤ → Options thousandths
options least = record {
  window = pos 10;
  bucket_count = pos 5;
  min_requests = least;
  failure_floor = some 50;
  max_shed = some 950;
}

accepted : check thousandths (options (pos 2)) ≡ ok tt
unfolding check
accepted = refl

never_sheds_all :
    check thousandths (record (options (pos 2)) { max_shed = some 1000 })
    ≡ err max_shed_not_below_one
unfolding check
never_sheds_all = refl

abbrev window_counts : Bucket
window_counts = record { successes = 5; failures = 5 }

half_shed : shed_rate_of thousandths (options (pos 2)) window_counts ≡ some 449
unfolding shed_rate_of
half_shed = refl

shed_rate_of-capped_example :
    let shed = shed_rate_of thousandths (options (pos 2)) window_counts in
    (thousandths.le (some 0) shed ≡ true)
    × (thousandths.le shed (some 950) ≡ true)
    × (thousandths.lt shed (some 1000) ≡ true)
    × ((shed ≡ some 0)
        ⊎ ((ltb_ℤ (pos 10) (pos 2) ≡ false) × (thousandths.lt (some 50) (some 500) ≡ true)))
shed_rate_of-capped_example =
    shed_rate_of-capped thousandths (options (pos 2)) window_counts accepted refl refl refl
      (omega arith)

accepted_without : check thousandths (options (pos 0)) ≡ ok tt
unfolding check
accepted_without = refl

abbrev calls : List (Call thousandths)
calls =
    record { now = pos 101; later = pos 101; random = some 999 }
    ∷ record { now = pos 500; later = pos 500; random = some 0 }
    ∷ []

allow_all-new_example :
    (new thousandths (options (pos 0)) (pos 100)
      ≡ ok (fresh thousandths (options (pos 0)) (pos 100)))
    × (allow_all thousandths (fresh thousandths (options (pos 0)) (pos 100)) calls
        ≡ ok (false ∷ false ∷ []))
allow_all-new_example =
    allow_all-new thousandths (options (pos 0)) (pos 100) calls accepted_without refl (omega arith)

-- Three failures at 101, and nothing until 500.
abbrev failed : Breaker thousandths
failed = record {
  opts = options (pos 2);
  bucketed = 2;
  live = record {
    buckets = record { successes = 0; failures = 3 } ∷ replicate 4 empty_bucket;
    head = 0;
    head_start = pos 100;
  };
}

idle_time : pos 500 -ℤ pos 100 ≡ pos 400
unfolding ◌-ℤ◌
idle_time = refl

stats-IsIdle_example :
    (s : Stats thousandths) × (b : Breaker thousandths) × (stats thousandths failed
        (pos 500)
        (pos 500)
      ≡ ok (s, b))
    × (s.total_successes ≡ (count failed.live.buckets).successes)
    × (s.total_failures ≡ (count failed.live.buckets).failures)
    × (s.shed_rate ≡ shed_rate_of thousandths (options (pos 2)) empty_bucket)
    × IsIdle b.live
stats-IsIdle_example =
    stats-IsIdle thousandths failed (pos 500) (pos 500) 400 idle_time (omega arith) (omega arith)
      (omega arith)
