-- ===== src/Storage/Tests.antt =====
-- Runs of the clock, and the theorems at them.
use cachet.Base.Int.{pos, negsuc}
use cachet.Base.{◌^◌, ◌<◌, ◌≡◌, refl, some, List, [], ◌∷◌, arith, All}
use cachet.Storage.Hlc.{
  Clock, new_version, physical_millis, logical, advance_logical, next, now, observe,
}
use cachet.Storage.Hlc.Pack.{unpack-new_version}
use cachet.Storage.Hlc.Order.{
  Event, Call, issued, read, observed, next_call, now_call, observe_call, version, Follows, step,
  run, run-Follows,
}
use cachet.Storage.Hlc.Total.{successor, next-eq-successor}

abbrev start : Clock
start = record { last = 0 }

-- The second call's reading is behind the first's; the third is a fill, the fourth a write.
abbrev calls : List Call
calls =
    next_call (pos 10)
    ∷ next_call (negsuc 3)
    ∷ now_call (pos 12)
    ∷ next_call (pos 12)
    ∷ observe_call 900000
    ∷ next_call (pos 12)
    ∷ []

abbrev events : List Event
events =
    issued 655360
    ∷ issued 655361
    ∷ read 786432
    ∷ issued 786433
    ∷ observed 900000
    ∷ issued 900001
    ∷ []

run-calls : run calls start ≡ some (events, record { last = 900001 })
unfolding run step next now observe advance_logical logical
run-calls = refl

saturated : next (pos 1) (record { last = 131071 }) ≡ some (131072, record { last = 131072 })
unfolding next advance_logical
saturated = refl

run-Follows_example :
    All
      (λ b. Follows (issued 786433) (version b))
      (issued 655360 ∷ issued 655361 ∷ read 786432 ∷ [])
run-Follows_example =
    run-Follows (issued 786433) (observed 900000 ∷ issued 900001 ∷ []) (record { last = 900001 })
      calls start (issued 655360 ∷ issued 655361 ∷ read 786432 ∷ []) run-calls

unpack-new_version_example :
    (pos (physical_millis 655363) ≡ pos 10) × (logical 655363 ≡ 3) × (655363 < 2 ^ 64)
unfolding new_version
unpack-new_version_example = unpack-new_version (pos 10) 3 655363 (omega arith) refl

next-eq-successor_example :
    next (pos 1) (record { last = 131071 })
    ≡ some (successor (pos 1) 131071, record { last = successor (pos 1) 131071 })
unfolding physical_millis
next-eq-successor_example =
    next-eq-successor (pos 1) (record { last = 131071 }) (omega arith) (omega arith)
