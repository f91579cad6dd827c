-- ===== src/Config/Tests.antt =====
-- Concrete configurations on thousandths, and the theorems at them.
use cachet.Base.Float.Thousandths.{thousandths}
use cachet.Base.Int.{pos, ltb_ℤ}
use cachet.HashRing.{is_member}
use cachet.Storage.Shard.{router_of, new_router}
use cachet.Breaker as breaker
use cachet.Admission.Policy as policy
use cachet.Config.{
  Shard, Gutter, Admission, Breaker, shards_from, validate_shards, addresses_from,
  validate_addresses, gutter_from, validate_gutter, validate_admission, validate_breaker,
  validate_lease, breaker_options, policy_options, duplicate_shard, both_cache_and_gutter,
  backoff_max_below_backoff,
}
use cachet.Config.Accepted.{accepted-made, validate_gutter-IsStandby, IsStandby}
use cachet.Base.{
  ◌<◌, ◌≡◌, refl, ◌⊎◌, true, some, List, [], ◌∷◌, map, length, Bytes, ascii, bytes_eq, ok, err,
}

abbrev first : Shard
first = record { id = ascii "a"; dsn = ascii "mysql" }

abbrev second : Shard
second = record { id = ascii "b"; dsn = ascii "mysql" }

abbrev two_shards : List Shard
two_shards = first ∷ second ∷ []

abbrev breaker_section : Breaker thousandths
breaker_section = record {
  breaker_window = pos 10;
  buckets = pos 5;
  min_requests = pos 2;
  failure_floor = some 50;
  max_shed = some 950;
}

abbrev admission_section : Admission thousandths
admission_section = record {
  enabled = true;
  admit_ratio = some 20000;
  evict_ratio = some 10000;
  min_samples = 0;
  min_dwell = pos 5;
  window = pos 60;
}

abbrev gutter_section : Gutter
gutter_section = record { gutter_addresses = ascii "g" ∷ []; gutter_ttl = pos 7 }

abbrev pool : List Bytes
pool = ascii "n" ∷ ascii "m" ∷ []

shards_accepted : validate_shards two_shards ≡ ok tt
unfolding validate_shards shards_from bytes_eq is_member
shards_accepted = refl

shard_twice : validate_shards (first ∷ first ∷ []) ≡ err (duplicate_shard (ascii "a"))
unfolding validate_shards shards_from bytes_eq is_member
shard_twice = refl

breaker_accepted : validate_breaker thousandths breaker_section ≡ ok tt
unfolding validate_breaker
breaker_accepted = refl

admission_accepted : validate_admission thousandths admission_section ≡ ok tt
unfolding validate_admission
admission_accepted = refl

gutter_accepted : validate_gutter gutter_section pool ≡ ok tt
unfolding validate_gutter gutter_from bytes_eq is_member
gutter_accepted = refl

gutter_on_pool :
    validate_gutter gutter_section (ascii "g" ∷ []) ≡ err (both_cache_and_gutter (ascii "g"))
unfolding validate_gutter gutter_from bytes_eq is_member
gutter_on_pool = refl

nodes_accepted : validate_addresses pool ≡ ok tt
unfolding validate_addresses addresses_from bytes_eq is_member
nodes_accepted = refl

backoff_falls :
    validate_lease (record {
      ttl = pos 5;
      wait_attempts = pos 0;
      wait_backoff = pos 2;
      wait_backoff_max = pos 1;
    })
    ≡ err backoff_max_below_backoff
unfolding validate_lease
backoff_falls = refl

accepted-made_example :
    (new_router (map (λ s. s.id) two_shards) ≡ ok (router_of (map (λ s. s.id) two_shards)))
    × (breaker.new thousandths (breaker_options thousandths breaker_section) (pos 100)
        ≡ ok (breaker.fresh thousandths (breaker_options thousandths breaker_section) (pos 100)))
    × (policy.new_policy_checked thousandths (policy_options thousandths admission_section)
        ≡ ok (record (policy_options thousandths admission_section) { min_samples = 20 }))
accepted-made_example =
    accepted-made thousandths two_shards breaker_section admission_section (pos 100) shards_accepted
      breaker_accepted refl admission_accepted

validate_gutter-IsStandby_example :
    (length (gutter_section.gutter_addresses) ≡ 0)
    ⊎ ((0 < length pool) × (ltb_ℤ (pos 0) (pos 7) ≡ true) × IsStandby pool [] (ascii "g" ∷ []))
validate_gutter-IsStandby_example = validate_gutter-IsStandby gutter_section pool gutter_accepted
