-- ===== src/Sextant/Tests.antt =====
-- Concrete samples and verifiers, and the theorems at them.
use cachet.Base.Float.Thousandths.{thousandths}
use cachet.Base.Assoc.{lookup, insert}
use cachet.Base.Int.{ℤ, pos, leb_ℤ, ◌-ℤ◌, ◌+ℤ◌, saturated, int_64}
use cachet.Consistency.Level.{session, strong, bounded, eventual}
use cachet.Sextant.Difference.{tier_cachet, valid, compares_versions, version_difference}
use cachet.Sextant.Classify.{
  PropagationBound, Violation, classify, duration, same_level, violated_levels, below_watermark,
  past_window,
}
use cachet.Sextant.RecentKeys.{new_recent_keys}
use cachet.Sextant.RecentKeys.Indexed.{
  IsIndexed, touch_all, queue_all, queued, position, touch_all-queue_all,
}
use cachet.Sextant.Slo.{new_slo, find_level, put_level, observe, report}
use cachet.Base.Sort.{filter}
use cachet.Sextant.Slo.Figure.{is_recent, Figure}
use cachet.Sextant.Slo.Rolling.{
  Use, use_observe, use_report, use_all, history, IsBefore, report-history,
}
use cachet.Sextant.Verifier.{
  Entry, State, VerifierOptions, Verifier, new_verifier, Sampled, compare, check, observe_levels,
  levels_of, observe_clean, first_seen_behind, no_stats,
}
use cachet.Sextant.Verifier.Streak.{HasStreak, event_of, seen_behind}
use cachet.Sextant.Verifier.Sound.{check_all, reported-streak}
use cachet.Sextant.Verifier.Unmeasured.{run_all, report-unmeasured}
use cachet.Base.{
  ℕ, ◌≡◌, refl, inr, true, false, none, some, List, [], ◌∷◌, arith, All, Bytes, ascii, bytes_eq, ok,
}

abbrev written : List Bytes
written = ascii "a" ∷ ascii "b" ∷ ascii "a" ∷ ascii "c" ∷ []

queue_of_two : queue_all 2 [] written ≡ ascii "b" ∷ ascii "c" ∷ []
unfolding queue_all queued position bytes_eq
queue_of_two = refl

touch_all-queue_all_example :
    IsIndexed (touch_all (new_recent_keys (pos 2)) written)
    × ((touch_all (new_recent_keys (pos 2)) written).keys
        ≡ queue_all (new_recent_keys (pos 2)).capacity [] written)
touch_all-queue_all_example = touch_all-queue_all (pos 2) written

abbrev same_number : thousandths.F → thousandths.F
same_number a = a

abbrev uses : List Use
uses =
    use_observe session (pos 1) true
    ∷ use_observe strong (pos 6) true
    ∷ use_report session (pos 9)
    ∷ use_observe session (pos 12) false
    ∷ []

abbrev uses_before : All (IsBefore (pos 13)) uses
uses_before = (tt, (tt, (omega arith, (tt, tt))))

report-history_example :
    Figure thousandths same_number same_number session
      (filter (is_recent (pos 10) (pos 13)) (history session uses))
      (report thousandths same_number same_number
        (use_all thousandths same_number same_number (new_slo (pos 10)) uses)
        session
        (pos 13)).0
report-history_example =
    report-history thousandths same_number same_number (pos 10) uses session (pos 13) uses_before

abbrev bound : PropagationBound
bound = record { write_path_budget = pos 2; cdc_lag_bound = pos 2; max_clock_skew = pos 1 }

abbrev verifier : Verifier
verifier = record {
  tier = tier_cachet;
  bound = bound;
  batch = 100;
  behind_since = [];
  slo = new_slo (pos 100);
  stats = no_stats;
}

abbrev made_verifier : VerifierOptions
made_verifier = record {
  has_cache = true;
  has_origin = true;
  has_keys = true;
  slo_option = some (new_slo (pos 100));
  bound_option = bound;
  tier_option = [];
  batch_option = pos 0;
}

verifier_made : new_verifier made_verifier ≡ ok verifier
unfolding new_verifier valid bytes_eq
verifier_made = refl

abbrev row : State
row = record { state_version = 5; state_version_known = true; state_value = none }

abbrev stale_entry : Entry
stale_entry = record { entry_version = 3; entry_version_known = true; entry_value = none }

abbrev sampled : ℕ → Sampled Bytes
sampled t = record {
  sampled_key = ascii "k";
  state_answer = ok (some row);
  entry_answer = ok (some stale_entry);
  shard_answer = ok (ascii "s");
  read_at = pos t;
  history_of = [];
}

abbrev violation : Violation Bytes
violation = record {
  violated_key = ascii "k";
  violated_shard = ascii "s";
  violated_diff = version_difference 3 5;
  behind_for = pos 10;
  levels = eventual ∷ [];
  explained = [];
}

violation_reported :
    (check (check_all verifier (sampled 10 ∷ [])) (sampled 20)).reported ≡ some violation
unfolding check check_all compare compares_versions bytes_eq version_difference first_seen_behind
    lookup insert classify saturated duration int_64 ◌-ℤ◌ ◌+ℤ◌ violated_levels below_watermark
    past_window observe_clean observe_levels levels_of observe same_level find_level put_level
    new_slo
violation_reported = refl

bound_sound : leb_ℤ (pos 0) (duration bound) ≡ true
unfolding duration int_64 ◌+ℤ◌
bound_sound = refl

reported-streak_example :
    (t : ℤ) × HasStreak tier_cachet (ascii "k") t (sampled 10 ∷ [])
    × (event_of tier_cachet (sampled 20) ≡ seen_behind)
    × (leb_ℤ (saturated (pos 20 -ℤ t)) (duration bound) ≡ false)
reported-streak_example =
    reported-streak verifier (sampled 10 ∷ []) (sampled 20) violation refl bound_sound
      violation_reported

report-unmeasured_example :
    (report thousandths same_number same_number
      (run_all verifier ((some (sampled 10) ∷ []) ∷ (some (sampled 20) ∷ []) ∷ [])).slo
      bounded
      (pos 30)).0.violations
    ≡ 0
unfolding find_level new_slo
report-unmeasured_example =
    report-unmeasured thousandths same_number same_number verifier
      ((some (sampled 10) ∷ []) ∷ (some (sampled 20) ∷ []) ∷ []) bounded (pos 30) (inr refl) refl
