-- ===== src/Sextant/Verifier/Unmeasured.antt =====
-- pkg/sextant/verifier.go with slo.go: what the loop records for SESSION and BOUNDED.
use mathlib.Core.Path.{subst}
use cachet.Base.Float.{Float}
use cachet.Base.Assoc.{lookup}
use cachet.Base.Int.{ℤ, ◌-ℤ◌}
use cachet.Consistency.Level.{Level, session, strong, bounded}
use cachet.Sextant.Difference.{Difference}
use cachet.Sextant.Classify.{
  PropagationBound, Violation, violates, classify, classify_lem, below_watermark, past_window,
  same_level,
}
use cachet.Sextant.Slo.{
  Sample, Slo, find_level, stored, observe, keep_after, count_violations, report_on, report,
}
use cachet.Sextant.Slo.Stored.{eq_of_same_level, stored-observe, added}
use cachet.Sextant.Slo.Rolling.{report_of_found}
use cachet.Sextant.Verifier.{
  Error, Entry, State, Stats, Verifier, Sampled, observe_levels, levels_of, clean, observe_clean,
  forget, first_seen_behind, remembered, observation, classified, located, compare, judged,
  compared, peeked, asked, check, tallied, run_batch, run_once, no_stats,
}
use cachet.Base.{
  ℕ, zero, suc, ◌≡◌, refl, sym, ap, ◌∙◌, ◌⊎◌, inl, inr, Bool, true, false, Option, none, some, List,
  [], ◌∷◌, arith, ◌==◌, Bool-cases, length, All, All-append, Bytes, Result, ok, err,
}

abbrev pub AllClean : Level → Slo → Type 0
AllClean j s = All (λ o. o.violation ≡ false) (stored j s)

AllClean-observe :
    (s : Slo) (l j : Level) (now : ℤ) (violation : Bool)
    → (same_level l j ≡ true → violation ≡ false)
    → AllClean j s
    → AllClean j (observe s l now violation)
AllClean-observe s l j now violation h kept =
    subst (All (λ o. o.violation ≡ false)) (sym (stored-observe s l j now violation))
      (All-append (λ o. o.violation ≡ false) (stored j s) (added j l now violation) kept new_)
  where
    new_ : All (λ o. o.violation ≡ false) (added j l now violation)
    new_ = elim (Bool-cases (same_level l strong)) [
      | inl bypass ↦ rw bypass tt
      | inr cached ↦ elim (Bool-cases (same_level l j)) [
        | inl same ↦ rw (cached, same) (h same, tt)
        | inr apart ↦ rw (cached, apart) tt
      ]
    ]

AllClean-levels :
    (levels : List Level) (j : Level) (now : ℤ) (violated : Level → Bool) (s : Slo)
    → violated j ≡ false
    → AllClean j s
    → AllClean j (observe_levels levels now violated s)
unfolding observe_levels
AllClean-levels [] j now violated s h kept = kept
AllClean-levels (l ∷ levels) j now violated s h kept =
    AllClean-levels levels j now violated (observe s l now (violated l)) h (
      AllClean-observe s l j now (violated l)
        (λ same. subst (λ x. violated x ≡ false) (sym (eq_of_same_level l j same)) h) kept)

-- SESSION and BOUNDED
abbrev pub IsOrdered : Level → Type 0
IsOrdered j = (j ≡ session) ⊎ (j ≡ bounded)

module _ {Trace : Type 0} where
  unviolated :
      (a : Sampled Trace) (shard : Bytes) (diff : Difference) (since : ℤ) (p : PropagationBound)
      (x : Violation Trace) (j : Level)
      → IsOrdered j
      → classify (observation a shard diff since) p ≡ some x
      → violates x j ≡ false
  unfolding below_watermark past_window
  unviolated a shard diff since p x j h e = elim (classify_lem (observation a shard diff since) p) [
    | inl c ↦ absurd (let n = c.0 in ground arith)
    | inr (y, made, stale, late, ev, st, se, bo) ↦
        let same : y ≡ x = ground arith in
        elim h [
          | inl is_session ↦
              subst (λ l. violates x l ≡ false) (sym is_session)
                (subst (λ z. violates z session ≡ false) same (se ∙ ground arith))
          | inr is_bounded ↦
              subst (λ l. violates x l ≡ false) (sym is_bounded)
                (subst (λ z. violates z bounded ≡ false) same (bo ∙ ground arith))
        ]
  ]

  check_clean :
      (v : Verifier) (a : Sampled Trace) (j : Level)
      → IsOrdered j
      → AllClean j v.slo
      → AllClean j (check v a).left.slo
  unfolding check forget first_seen_behind observe_clean
  check_clean v a j h kept = on_state a.state_answer
    where
      on_class :
          (w : Verifier) (o : Option (Violation Trace))
          → AllClean j w.slo
          → ((x : Violation Trace) → o ≡ some x → violates x j ≡ false)
          → AllClean j (classified w a o).left.slo
      on_class w none k n = AllClean-levels (levels_of w.tier) j a.read_at clean w.slo refl k
      on_class w (some x) k n =
          AllClean-levels (levels_of w.tier) j a.read_at (violates x) w.slo (n x refl) k

      same_slo : (o : Option ℤ) → AllClean j (remembered v a.sampled_key a.read_at o).slo
      same_slo none = kept
      same_slo (some since) = kept

      on_shard :
          (diff : Difference) (r : Result Error Bytes) → AllClean j (located v a diff r).left.slo
      on_shard diff (err e) = kept
      on_shard diff (ok shard) =
          let seen = first_seen_behind v a.sampled_key a.read_at in
          on_class seen.1 (classify (observation a shard diff seen.0) v.bound)
            (same_slo (lookup a.sampled_key v.behind_since))
            (λ x e. unviolated a shard diff seen.0 v.bound x j h e)

      on_judged : (diff : Difference) (b : Bool) → AllClean j (judged v a diff b).left.slo
      on_judged diff false = AllClean-levels (levels_of v.tier) j a.read_at clean v.slo refl kept
      on_judged diff true = on_shard diff a.shard_answer

      on_diff : (r : Result Error Difference) → AllClean j (compared v a r).left.slo
      on_diff (err e) = kept
      on_diff (ok diff) = on_judged diff diff.is_behind

      on_entry :
          (s : Option State) (r : Result Error (Option Entry))
          → AllClean j (peeked v a s r).left.slo
      on_entry s (err e) = kept
      on_entry none (ok entry) = kept
      on_entry (some s) (ok none) = kept
      on_entry (some s) (ok (some entry)) = on_diff (compare v.tier entry s)

      on_state : (r : Result Error (Option State)) → AllClean j (asked v a r).left.slo
      on_state (err e) = kept
      on_state (ok s) = on_entry s a.entry_answer

  batch_clean :
      (n : ℕ) (answers : List (Option (Sampled Trace))) (v : Verifier) (round : Stats) (j : Level)
      → IsOrdered j
      → AllClean j v.slo
      → AllClean j (run_batch n answers v round).0.slo
  unfolding run_batch
  batch_clean zero answers v round j h kept = kept
  batch_clean (suc n) [] v round j h kept = kept
  batch_clean (suc n) (none ∷ answers) v round j h kept = kept
  batch_clean (suc n) (some a ∷ answers) v round j h kept =
      batch_clean n answers (check v a).left (tallied round (check v a)) j h
        (check_clean v a j h kept)

  -- `Run`, on the answers of each tick.
  unfoldable pub run_all : Verifier → List (List (Option (Sampled Trace))) → Verifier
  run_all v [] = v
  run_all v (answers ∷ ticks) = run_all (run_once v answers).0 ticks

  all_clean :
      (ticks : List (List (Option (Sampled Trace)))) (v : Verifier) (j : Level)
      → IsOrdered j
      → AllClean j v.slo
      → AllClean j (run_all v ticks).slo
  unfolding run_all run_once
  all_clean [] v j h kept = kept
  all_clean (answers ∷ ticks) v j h kept =
      all_clean ticks (run_once v answers).0 j h (batch_clean v.batch answers v no_stats j h kept)

count_clean :
    (c : ℤ) (l : List Sample)
    → All (λ o. o.violation ≡ false) l
    → count_violations (keep_after c l) ≡ 0
unfolding count_violations keep_after
count_clean c [] h = refl
count_clean c (o ∷ l) h = let rest = count_clean c l h.1 in let own = h.0 in ground arith

-- Whatever the adapters answer and however long entries stay behind, the report for SESSION and for
-- BOUNDED shows no violation, at every tier, when the verifier starts with no sample of that level.
pub report-unmeasured :
    (float : Float) (log_10 negate : float.F → float.F) {Trace : Type 0} (v : Verifier)
    (ticks : List (List (Option (Sampled Trace)))) (j : Level) (now : ℤ)
    → IsOrdered j
    → stored j v.slo ≡ []
    → (report float log_10 negate (run_all v ticks).slo j now).0.violations ≡ 0
unfolding report report_on
report-unmeasured float log_10 negate v ticks j now h e =
    let s = (run_all v ticks).slo in
    let kept = all_clean ticks v j h (subst (All (λ o. o.violation ≡ false)) (sym e) tt) in
    let z = count_clean (now -ℤ s.window) (stored j s) kept in
    ap (λ r. r.violations) (report_of_found float log_10 negate s j now (find_level j s.levels))
    ∙ elim (Bool-cases (length (keep_after (now -ℤ s.window) (stored j s)) == 0)) [
      | inl empty ↦ rw empty refl
      | inr some_ ↦ rw some_ z
    ]
