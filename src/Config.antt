-- ===== src/Config.antt =====
-- internal/config/config.go: what a configuration must satisfy, section by section, with what cmd/cachet
-- makes of the accepted sections. Durations are in nanoseconds; a set is the list of its members. The
-- parsing of the addresses to listen on, of the default level and of the tables is not modelled.
pub mod Accepted
mod Tests
use cachet.Base.Float.{Float}
use cachet.Base.Int.{ℤ, pos, leb_ℤ, ltb_ℤ}
use cachet.HashRing.{is_member}
use cachet.Breaker as breaker
use cachet.Admission.Policy as policy
use cachet.Base.{
  ℕ, zero, suc, ◌+◌, ◌-◌, ◌*◌, ◌/◌, ◌%◌, ◌^◌, ◌≤◌, ◌<◌, min, max, bit_and, bit_or, bit_xor, ◌≡◌,
  refl, sym, ap, ◌∙◌, ◌≢◌, ◌↔◌, ◌⊎◌, inl, inr, Bool, true, false, not, ◌&&◌, ◌||◌, Option, none,
  some, List, [], ◌∷◌, ◌++◌, map, append_assoc, append-nil, arith, ltb, leb, ◌==◌, if◌then◌else◌,
  ltb→lt, lt→ltb, le→ltb, leb→le, le→leb, ==_iff, ==_refl, tests, Bool-cases, Option-cases, &&_true,
  length, get_elem?, get_or, set, take, drop, replicate, All, length-append, take_append,
  drop_append, length-replicate, All-append, Bytes, IsByte, ascii, bytes_eq, bytes_lt, bytes_le,
  eq_of_bytes_eq, bytes_eq_refl, bytes_eq_iff, bytes_eq_ne, Result, ok, err, ◌>>=◌, ◌>>◌, require,
}

-- An index is that of the entry at fault.
pub data Error : Type 0 where
  no_shards no_pool : Error
  shard_id_empty shard_dsn_empty address_empty gutter_address_empty : ℕ → Error
  duplicate_shard duplicate_address duplicate_gutter both_cache_and_gutter : Bytes → Error
  not_positive negative out_of_range : (field : Bytes) → Error
  evict_above_admit backoff_max_below_backoff : Error

pub record Shard : Type 0 where
  pub id : Bytes
  pub dsn : Bytes

pub record Gutter : Type 0 where
  pub gutter_addresses : List Bytes
  pub gutter_ttl : ℤ

pub record Lease : Type 0 where
  pub ttl : ℤ
  pub wait_attempts : ℤ
  pub wait_backoff : ℤ
  pub wait_backoff_max : ℤ

pub record Consistency : Type 0 where
  pub max_clock_skew : ℤ
  pub cdc_lag_bound : ℤ
  pub write_path_invalidation_budget : ℤ
  pub max_affected_keys : ℤ
  pub max_session_shards : ℤ
  pub entry_ttl : ℤ
  pub synchronous_invalidation : Bool

abbrev positive : Bytes → ℤ → Result Error (Unit {0})
positive field d = require (ltb_ℤ (pos 0) d) (not_positive field)

abbrev not_negative : Bytes → ℤ → Result Error (Unit {0})
not_negative field d = require (leb_ℤ (pos 0) d) (negative field)

-- The loop over the shards in `Validate`.
unfoldable pub shards_from : ℕ → List Bytes → List Shard → Result Error (Unit {0})
shards_from i seen [] = ok tt
shards_from i seen (sh ∷ shards) =
    let rest = shards_from (i + 1) (sh.id ∷ seen) shards in
    if bytes_eq sh.id []
    then err (shard_id_empty i)
    else if bytes_eq sh.dsn []
    then err (shard_dsn_empty i)
    else if is_member sh.id seen
    then err (duplicate_shard sh.id)
    else rest

unfoldable pub validate_shards : List Shard → Result Error (Unit {0})
validate_shards [] = err no_shards
validate_shards (sh ∷ shards) = shards_from 0 [] (sh ∷ shards)

-- The loop over the cache addresses in `Validate`.
unfoldable pub addresses_from : ℕ → List Bytes → List Bytes → Result Error (Unit {0})
addresses_from i seen [] = ok tt
addresses_from i seen (addr ∷ addresses) =
    let rest = addresses_from (i + 1) (addr ∷ seen) addresses in
    if bytes_eq addr []
    then err (address_empty i)
    else if is_member addr seen
    then err (duplicate_address addr)
    else rest

unfoldable pub validate_addresses : List Bytes → Result Error (Unit {0})
validate_addresses addresses = addresses_from 0 [] addresses

unfoldable pub validate_lease : Lease → Result Error (Unit {0})
validate_lease l = do
  positive (ascii "ttl") l.ttl
  not_negative (ascii "wait_attempts") l.wait_attempts
  not_negative (ascii "wait_backoff") l.wait_backoff
  require (not (ltb_ℤ l.wait_backoff_max l.wait_backoff)) backoff_max_below_backoff
  ok tt

-- The loop over the gutter addresses.
unfoldable pub gutter_from : List Bytes → ℕ → List Bytes → List Bytes → Result Error (Unit {0})
gutter_from primary i seen [] = ok tt
gutter_from primary i seen (addr ∷ addresses) =
    let rest = gutter_from primary (i + 1) (addr ∷ seen) addresses in
    if bytes_eq addr []
    then err (gutter_address_empty i)
    else if is_member addr seen
    then err (duplicate_gutter addr)
    else if is_member addr primary
    then err (both_cache_and_gutter addr)
    else rest

unfoldable pub validate_gutter : Gutter → List Bytes → Result Error (Unit {0})
validate_gutter g primary =
    if length g.gutter_addresses == 0
    then ok tt
    else if length primary == 0
    then err no_pool
    else positive (ascii "ttl") g.gutter_ttl >> gutter_from primary 0 [] g.gutter_addresses

unfoldable pub validate_consistency : Consistency → Result Error (Unit {0})
validate_consistency c = do
  not_negative (ascii "max_clock_skew") c.max_clock_skew
  positive (ascii "cdc_lag_bound") c.cdc_lag_bound
  positive (ascii "write_path_invalidation_budget") c.write_path_invalidation_budget
  positive (ascii "entry_ttl") c.entry_ttl
  positive (ascii "max_affected_keys") c.max_affected_keys
  positive (ascii "max_session_shards") c.max_session_shards
  ok tt

module _ (float : Float) where
  open float use {F, zero_f, one, lt, le}

  pub record Admission : Type 0 where
    pub enabled : Bool
    pub admit_ratio : F
    pub evict_ratio : F
    pub min_samples : ℕ
    pub min_dwell : ℤ
    pub window : ℤ

  pub record Breaker : Type 0 where
    pub breaker_window : ℤ
    pub buckets : ℤ
    pub min_requests : ℤ
    pub failure_floor : F
    pub max_shed : F

  unfoldable pub validate_admission : Admission → Result Error (Unit {0})
  validate_admission a = if not a.enabled then ok tt else do
    require (not (le a.admit_ratio zero_f)) (not_positive (ascii "admit_ratio"))
    require (not (le a.evict_ratio zero_f)) (not_positive (ascii "evict_ratio"))
    require (not (lt a.admit_ratio a.evict_ratio)) evict_above_admit
    not_negative (ascii "min_dwell") a.min_dwell
    positive (ascii "window") a.window
    ok tt

  unfoldable pub validate_breaker : Breaker → Result Error (Unit {0})
  validate_breaker b = do
    positive (ascii "window") b.breaker_window
    positive (ascii "buckets") b.buckets
    not_negative (ascii "min_requests") b.min_requests
    require (not (lt b.failure_floor zero_f || le one b.failure_floor))
        (out_of_range (ascii "failure_floor"))
    require (not (lt b.max_shed zero_f || le one b.max_shed)) (out_of_range (ascii "max_shed"))
    ok tt

  -- `breakerOptions` of cmd/cachet/main.go
  unfoldable pub breaker_options : Breaker → breaker.Options float
  breaker_options c = record {
    window = c.breaker_window;
    bucket_count = c.buckets;
    min_requests = c.min_requests;
    failure_floor = c.failure_floor;
    max_shed = c.max_shed;
  }

  -- The policy's options in `newAdmission` of cmd/cachet/main.go.
  unfoldable pub policy_options : Admission → policy.PolicyOptions float
  policy_options c = record {
    admit_ratio = c.admit_ratio;
    evict_ratio = c.evict_ratio;
    min_samples = c.min_samples;
    min_dwell = c.min_dwell;
    default_admit = true;
  }
