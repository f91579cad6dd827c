-- ===== src/Sextant/Verifier.antt =====
-- pkg/sextant/verifier.go: the detection loop. What the origin, the cache, the key source and the clock
-- answer at a check is an input; a file of the trace is of any type, and logs are left out.
pub mod Streak
pub mod Sound
pub mod Unmeasured
use cachet.Base.Int.{ℤ, pos, leb_ℤ, pos_part}
use cachet.Base.Assoc.{lookup, insert, remove}
use cachet.Consistency.Level.{Level, session, strong, bounded, eventual}
use cachet.Sextant.Difference.{
  Tier, tier_cachet, valid, compares_versions, Difference, version_difference, value_difference,
}
use cachet.Sextant.Classify.{PropagationBound, Observation, Violation, violates, classify}
use cachet.Sextant.Slo.{Slo, observe}
use cachet.Base.{
  ℕ, zero, suc, ◌+◌, ◌-◌, ◌*◌, ◌/◌, ◌%◌, ◌^◌, ◌≤◌, ◌<◌, min, max, bit_and, bit_or, bit_xor, ◌≡◌,
  refl, sym, ap, ◌∙◌, ◌≢◌, ◌↔◌, ◌⊎◌, inl, inr, Bool, true, false, not, ◌&&◌, ◌||◌, Option, none,
  some, List, [], ◌∷◌, ◌++◌, map, append_assoc, append-nil, arith, ltb, leb, ◌==◌, if◌then◌else◌,
  ltb→lt, lt→ltb, le→ltb, leb→le, le→leb, ==_iff, ==_refl, tests, Bool-cases, Option-cases, &&_true,
  length, get_elem?, get_or, set, take, drop, replicate, All, length-append, take_append,
  drop_append, length-replicate, All-append, Bytes, IsByte, ascii, bytes_eq, bytes_lt, bytes_le,
  eq_of_bytes_eq, bytes_eq_refl, bytes_eq_iff, bytes_eq_ne, Result, ok, err, ◌>>=◌, ◌>>◌, require,
}

pub data Error : Type 0 where
  no_cache_reader no_origin_reader no_key_source no_slo unknown_tier : Error
  origin_failed cache_failed shard_failed : Error
  versions_missing values_missing : (of_entry of_origin : Bool) → Error

-- `none` is a nil value.
pub record Entry : Type 0 where
  pub entry_version : ℕ
  pub entry_version_known : Bool
  pub entry_value : Option Bytes

pub record State : Type 0 where
  pub state_version : ℕ
  pub state_version_known : Bool
  pub state_value : Option Bytes

pub record Stats : Type 0 where
  pub rounds : ℕ
  pub checked : ℕ
  pub violation_count : ℕ
  pub error_count : ℕ

pub record VerifierOptions : Type 0 where
  pub has_cache : Bool
  pub has_origin : Bool
  pub has_keys : Bool
  pub slo_option : Option Slo
  pub bound_option : PropagationBound
  pub tier_option : Tier
  pub batch_option : ℤ

pub record Verifier : Type 0 where
  pub tier : Tier
  pub bound : PropagationBound
  pub batch : ℕ
  pub behind_since : List (Bytes × ℤ)
  pub slo : Slo
  pub stats : Stats

abbrev pub no_stats : Stats
no_stats = record { rounds = 0; checked = 0; violation_count = 0; error_count = 0 }

abbrev pub made : VerifierOptions → Slo → Result Error Verifier
made o slo =
    let tier = if bytes_eq o.tier_option [] then tier_cachet else o.tier_option in
    if not (valid tier)
    then err unknown_tier
    else ok (record {
      tier = tier;
      bound = o.bound_option;
      batch = if leb_ℤ o.batch_option (pos 0) then 100 else pos_part o.batch_option;
      behind_since = [];
      slo = slo;
      stats = no_stats;
    })

abbrev pub with_slo : VerifierOptions → Option Slo → Result Error Verifier
with_slo o none = err no_slo
with_slo o (some slo) = made o slo

unfoldable pub new_verifier : VerifierOptions → Result Error Verifier
new_verifier o =
    if not o.has_cache
    then err no_cache_reader
    else if not o.has_origin
    then err no_origin_reader
    else if not o.has_keys
    then err no_key_source
    else with_slo o o.slo_option

abbrev is_some : Option Bytes → Bool
is_some none = false
is_some (some b) = true

abbrev pub compare_values : Option Bytes → Option Bytes → Result Error Difference
compare_values (some a) (some b) = ok (value_difference (bytes_eq a b))
compare_values (some a) none = err (values_missing true false)
compare_values none b = err (values_missing false (is_some b))

unfoldable pub compare : Tier → Entry → State → Result Error Difference
compare tier e s =
    if compares_versions tier
    then if not e.entry_version_known || not s.state_version_known
      then err (versions_missing e.entry_version_known s.state_version_known)
      else ok (version_difference e.entry_version s.state_version)
    else compare_values e.entry_value s.state_value

-- `Levels`
unfoldable pub levels_of : Tier → List Level
levels_of tier = if compares_versions tier then session ∷ bounded ∷ eventual ∷ [] else eventual ∷ []

abbrev pub with_behind : Verifier → List (Bytes × ℤ) → Verifier
with_behind v behind_since = record {
  tier = v.tier;
  bound = v.bound;
  batch = v.batch;
  behind_since = behind_since;
  slo = v.slo;
  stats = v.stats;
}

abbrev pub with_slo_of : Verifier → Slo → Verifier
with_slo_of v slo = record {
  tier = v.tier;
  bound = v.bound;
  batch = v.batch;
  behind_since = v.behind_since;
  slo = slo;
  stats = v.stats;
}

-- The loops of `observeClean` and of a violation, over the levels.
unfoldable pub observe_levels : List Level → ℤ → (Level → Bool) → Slo → Slo
observe_levels [] now violated s = s
observe_levels (l ∷ levels) now violated s =
    observe_levels levels now violated (observe s l now (violated l))

abbrev pub clean : Level → Bool
clean l = false

unfoldable pub observe_clean : Verifier → ℤ → Verifier
observe_clean v now = with_slo_of v (observe_levels (levels_of v.tier) now clean v.slo)

abbrev pub since_or : ℤ → Option ℤ → ℤ
since_or now none = now
since_or now (some since) = since

abbrev pub remembered : Verifier → Bytes → ℤ → Option ℤ → Verifier
remembered v key now (some since) = v
remembered v key now none = with_behind v (insert key now v.behind_since)

-- `firstSeenBehind`
unfoldable pub first_seen_behind : Verifier → Bytes → ℤ → ℤ × Verifier
first_seen_behind v key now =
    let found = lookup key v.behind_since in (since_or now found, remembered v key now found)

unfoldable pub forget : Verifier → Bytes → Verifier
forget v key = with_behind v (remove key v.behind_since)

-- One key that is sampled, with what the adapters and the clock answer.
pub record Sampled (Trace : Type 0) : Type 0 where
  pub sampled_key : Bytes
  pub state_answer : Result Error (Option State)
  pub entry_answer : Result Error (Option Entry)
  pub shard_answer : Result Error Bytes
  pub read_at : ℤ
  pub history_of : Trace

-- A check's error, the verifier after it, whether the key was counted, and its violation.
pub record Checked (Trace : Type 0) : Type 0 where
  pub failure : Option Error
  pub left : Verifier
  pub counted : Bool
  pub reported : Option (Violation Trace)

abbrev one_if : Bool → ℕ
one_if true = 1
one_if false = 0

abbrev is_failure : Option Error → Bool
is_failure none = false
is_failure (some e) = true

abbrev added : Stats → Stats → Stats
added s round = record {
  rounds = s.rounds + 1;
  checked = s.checked + round.checked;
  violation_count = s.violation_count + round.violation_count;
  error_count = s.error_count + round.error_count;
}

abbrev totalled : Verifier × Stats → Verifier × Stats
totalled (v, round) = (
  record {
    tier = v.tier;
    bound = v.bound;
    batch = v.batch;
    behind_since = v.behind_since;
    slo = v.slo;
    stats = added v.stats round;
  },
  record {
    rounds = 1;
    checked = round.checked;
    violation_count = round.violation_count;
    error_count = round.error_count;
  },
)

module _ {Trace : Type 0} where
  abbrev stopped : Verifier → Bool → Error → Checked Trace
  stopped v counted e = record { failure = some e; left = v; counted = counted; reported = none }

  abbrev fine : Verifier → Bool → Checked Trace
  fine v counted = record { failure = none; left = v; counted = counted; reported = none }

  -- The check sets no watermark and no window.
  abbrev pub observation : Sampled Trace → Bytes → Difference → ℤ → Observation Trace
  observation a shard diff since = record {
    key = a.sampled_key;
    shard = shard;
    diff = diff;
    behind_since = since;
    now = a.read_at;
    watermark = 0;
    watermark_known = false;
    bounded_window = pos 0;
    trace = a.history_of;
  }

  abbrev pub classified : Verifier → Sampled Trace → Option (Violation Trace) → Checked Trace
  classified v a none = fine (observe_clean v a.read_at) true
  classified v a (some violation) = record {
    failure = none;
    left = with_slo_of v (observe_levels (levels_of v.tier) a.read_at (violates violation) v.slo);
    counted = true;
    reported = some violation;
  }

  abbrev pub located : Verifier → Sampled Trace → Difference → Result Error Bytes → Checked Trace
  located v a diff (err e) = stopped v true e
  located v a diff (ok shard) =
      let seen = first_seen_behind v a.sampled_key a.read_at in
      classified seen.1 a (classify (observation a shard diff seen.0) v.bound)

  abbrev pub judged : Verifier → Sampled Trace → Difference → Bool → Checked Trace
  judged v a diff false = fine (observe_clean (forget v a.sampled_key) a.read_at) true
  judged v a diff true = located v a diff a.shard_answer

  abbrev pub compared : Verifier → Sampled Trace → Result Error Difference → Checked Trace
  compared v a (err e) = stopped v true e
  compared v a (ok diff) = judged v a diff diff.is_behind

  abbrev pub peeked :
      Verifier → Sampled Trace → Option State → Result Error (Option Entry) → Checked Trace
  peeked v a state (err e) = stopped v false e
  peeked v a none (ok entry) = fine (forget v a.sampled_key) false
  peeked v a (some state) (ok none) = fine (forget v a.sampled_key) false
  peeked v a (some state) (ok (some entry)) = compared v a (compare v.tier entry state)

  abbrev pub asked : Verifier → Sampled Trace → Result Error (Option State) → Checked Trace
  asked v a (err e) = stopped v false e
  asked v a (ok state) = peeked v a state a.entry_answer

  unfoldable pub check : Verifier → Sampled Trace → Checked Trace
  check v a = asked v a a.state_answer

  abbrev is_reported : Option (Violation Trace) → Bool
  is_reported none = false
  is_reported (some violation) = true

  abbrev pub tallied : Stats → Checked Trace → Stats
  tallied s c = record {
    rounds = s.rounds;
    checked = s.checked + one_if c.counted;
    violation_count = s.violation_count + one_if (is_reported c.reported);
    error_count = s.error_count + one_if (is_failure c.failure);
  }

  -- The loop over the batch, on the answers of the key source: `none` is one that has no key, which
  -- ends the loop.
  unfoldable pub run_batch : ℕ → List (Option (Sampled Trace)) → Verifier → Stats → Verifier × Stats
  unfolding check
  run_batch zero answers v round = (v, round)
  run_batch (suc n) [] v round = (v, round)
  run_batch (suc n) (none ∷ answers) v round = (v, round)
  run_batch (suc n) (some a ∷ answers) v round =
      let c = check v a in run_batch n answers c.left (tallied round c)

  unfoldable pub run_once : Verifier → List (Option (Sampled Trace)) → Verifier × Stats
  run_once v answers = totalled (run_batch v.batch answers v no_stats)
