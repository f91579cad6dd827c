-- ===== src/Engine/Tests.antt =====
-- Concrete requests and waits, and the theorems at them.
use cachet.Base.Int.{pos, neg_ℤ, ◌+ℤ◌}
use cachet.Consistency.Level.{session, bounded, Requirement, requires_watermark}
use cachet.Consistency.Token.{new_token}
use cachet.Storage.Hlc.{Clock, next, new_version, issue, physical_millis, time}
use cachet.Storage.Hlc.Order.{Call, next_call, issued, run, step}
use cachet.Engine.Freshness.{Freshness, accept_entry, oldest}
use cachet.Engine.Freshness.Permits.{PermitsAt, accept_entry-Permits}
use cachet.Engine.Freshness.ReadOwnWrites.{request, Rejects, run-Rejects}
use cachet.Engine.Wait.{new_wait_policy, backoff, grow, double, signed_64}
use cachet.Engine.Wait.Backoff.{backoff-new_wait_policy}
use cachet.Base.{
  ◌*◌, ◌^◌, min, ◌≡◌, refl, ◌≢◌, ◌↔◌, true, false, none, some, List, [], ◌∷◌, ◌++◌, arith, All,
  ascii,
}

abbrev at_session : Requirement
at_session = record { level = session; staleness_bound = pos 0 }

-- An entry of the epoch's second millisecond, asked for five milliseconds after the epoch within two.
abbrev stale : Freshness
stale =
    request (record { level = bounded; staleness_bound = pos 2000000 }) (pos 5000000) (pos 0) 65536
      none

stale_rejected : accept_entry stale ≡ false
unfolding accept_entry oldest time physical_millis neg_ℤ ◌+ℤ◌
stale_rejected = refl

third_wait : backoff (new_wait_policy (pos 5) (pos 10) (pos 1000)) (pos 3) ≡ pos 80
unfolding backoff new_wait_policy grow double signed_64
third_wait = refl

accept_entry-Permits_example : (accept_entry stale ≡ true) ↔ PermitsAt bounded stale
accept_entry-Permits_example = accept_entry-Permits stale

abbrev start : Clock
start = record { last = 0 }

abbrev after_second : Clock
after_second = record { last = 2 * 65536 }

abbrev calls : List Call
calls = next_call (pos 1) ∷ next_call (pos 2) ∷ []

ran : run calls start ≡ some ((issued 65536 ∷ []) ++ issued (2 * 65536) ∷ [], after_second)
unfolding run step next new_version issue physical_millis
ran = refl

shard_named : ascii "s0" ≢ []
shard_named e = ground arith

checked : requires_watermark session ≡ true
unfolding requires_watermark
checked = refl

run-Rejects_example :
    All
      (Rejects at_session (pos 5000000) (pos 0) (new_token (pos 8)) (ascii "s0") (2 * 65536))
      (issued 65536 ∷ [])
run-Rejects_example =
    run-Rejects at_session (pos 5000000) (pos 0) (new_token (pos 8)) (ascii "s0") (2 * 65536) calls
      start after_second (issued 65536 ∷ []) [] ran shard_named checked

backoff-new_wait_policy_example :
    backoff (new_wait_policy (pos 5) (pos 10) (pos 1000)) (pos 3) ≡ pos (min (10 * 2 ^ 3) 1000)
backoff-new_wait_policy_example =
    backoff-new_wait_policy (pos 5) 10 1000 3 (omega arith) (omega arith) (omega arith)
