-- ===== src/Sextant/Classify.antt =====
-- pkg/sextant/verify.go: which observation is a violation, and of which levels. Times and durations are
-- in nanoseconds; a duration is an int64. The mutation history is of any type.
use cachet.Base.Int.{ℤ, pos, ltb_ℤ, leb_ℤ, ◌-ℤ◌, ◌+ℤ◌, int_64, saturated}
use cachet.Consistency.Level.{Level, session, strong, bounded, eventual, other}
use cachet.Sextant.Difference.{Difference}
use cachet.Base.{
  ℕ, ◌≡◌, refl, ◌⊎◌, inl, inr, Bool, true, false, not, ◌&&◌, Option, none, some, List, [], ◌∷◌,
  ◌++◌, arith, ltb, if◌then◌else◌, Bool-cases, Bytes,
}

pub record PropagationBound : Type 0 where
  pub write_path_budget : ℤ
  pub cdc_lag_bound : ℤ
  pub max_clock_skew : ℤ

unfoldable pub duration : PropagationBound → ℤ
duration p = int_64 (int_64 (p.write_path_budget +ℤ p.cdc_lag_bound) +ℤ p.max_clock_skew)

unfoldable pub same_level : Level → Level → Bool
same_level session session = true
same_level strong strong = true
same_level bounded bounded = true
same_level eventual eventual = true
same_level (other m) (other n) = leb_ℤ m n && leb_ℤ n m
same_level _ _ = false

pub record Observation (Trace : Type 0) : Type 0 where
  pub key : Bytes
  pub shard : Bytes
  pub diff : Difference
  pub behind_since : ℤ
  pub now : ℤ
  pub watermark : ℕ
  pub watermark_known : Bool
  pub bounded_window : ℤ
  pub trace : Trace

pub record Violation (Trace : Type 0) : Type 0 where
  pub violated_key : Bytes
  pub violated_shard : Bytes
  pub violated_diff : Difference
  pub behind_for : ℤ
  pub levels : List Level
  pub explained : Trace

unfoldable pub has_level : List Level → Level → Bool
has_level [] l = false
has_level (got ∷ levels) l = if same_level got l then true else has_level levels l

module _ {Trace : Type 0} where
  abbrev pub violates : Violation Trace → Level → Bool
  violates v l = has_level v.levels l

  abbrev pub behind : Observation Trace → ℤ
  behind o = saturated (o.now -ℤ o.behind_since)

  -- SESSION, in the condition of its `if`.
  unfoldable pub below_watermark : Observation Trace → Bool
  below_watermark o =
      o.diff.versions_known && (o.watermark_known && ltb o.diff.fill_version o.watermark)

  -- BOUNDED, in the condition of its `if`.
  unfoldable pub past_window : Observation Trace → PropagationBound → Bool
  past_window o p =
      o.diff.versions_known
      && (ltb_ℤ (pos 0) o.bounded_window
          && ltb_ℤ (int_64 (o.bounded_window +ℤ p.max_clock_skew)) (behind o))

  unfoldable pub violated_levels : Observation Trace → PropagationBound → List Level
  violated_levels o p =
      let session_levels = if below_watermark o then session ∷ [] else [] in
      let bounded_levels = if past_window o p then bounded ∷ [] else [] in
      (eventual ∷ session_levels) ++ bounded_levels

  -- `none` is no violation.
  unfoldable pub classify : Observation Trace → PropagationBound → Option (Violation Trace)
  classify o p =
      if not o.diff.is_behind
      then none
      else if leb_ℤ (behind o) (duration p)
      then none
      else some (record {
        violated_key = o.key;
        violated_shard = o.shard;
        violated_diff = o.diff;
        behind_for = behind o;
        levels = violated_levels o p;
        explained = o.trace;
      })

  -- An observation is a violation exactly when the entry is behind for longer than the bound. It then
  -- counts against EVENTUAL, never against STRONG, and against SESSION and BOUNDED exactly when versions
  -- are known and the entry is below the watermark or past the window and the skew.
  pub classify_lem :
      (o : Observation Trace) (p : PropagationBound)
      → ((classify o p ≡ none)
          × ((o.diff.is_behind ≡ false) ⊎ (leb_ℤ (behind o) (duration p) ≡ true)))
        ⊎ ((v : Violation Trace) × (classify o p ≡ some v)
            × (o.diff.is_behind ≡ true)
            × (leb_ℤ (behind o) (duration p) ≡ false)
            × (violates v eventual ≡ true)
            × (violates v strong ≡ false)
            × (violates v session ≡ below_watermark o)
            × (violates v bounded ≡ past_window o p))
  unfolding classify violated_levels has_level same_level
  classify_lem o p = elim (Bool-cases o.diff.is_behind) [
    | inr fresh ↦ inl (rw fresh refl, inl fresh)
    | inl stale ↦ elim (Bool-cases (leb_ℤ (behind o) (duration p))) [
      | inl soon ↦ inl (rw (stale, soon) refl, inr soon)
      | inr late ↦ inr (
        record {
          violated_key = o.key;
          violated_shard = o.shard;
          violated_diff = o.diff;
          behind_for = behind o;
          levels = violated_levels o p;
          explained = o.trace;
        },
        rw (stale, late) refl,
        stale,
        late,
        ground arith,
        ground arith,
        ground arith,
        ground arith,
      )
    ]
  ]
