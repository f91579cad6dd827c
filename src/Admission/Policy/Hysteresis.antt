-- ===== src/Admission/Policy/Hysteresis.antt =====
-- internal/admission/policy.go: a decision is settled at once, and a change has its evidence.
use mathlib.Core.Path.{subst}
use cachet.Base.Float.{Float}
use cachet.Base.Int.{ℤ, pos, ltb_ℤ, ◌-ℤ◌}
use cachet.Admission.Policy.{
  Time, PolicyOptions, State, Decision, new_policy, ratio_of, decision, differs, by_threshold,
  after_dwell, decide, below_samples, held_for,
}
use cachet.Base.{
  ◌+◌, ◌%◌, ◌^◌, ◌≡◌, refl, ◌⊎◌, inl, inr, Bool, true, false, ◌&&◌, ◌||◌, none, some, arith, ltb,
  if◌then◌else◌, Bool-cases,
}

module _ (float : Float) where
  open float use {
    F, zero_f, of_nat, div, lt, le, lt_irrefl, lt_of_not_le, le_of_not_lt, lt_of_lt_of_le, le_trans,
    refl_left, refl_right, half_le, of_nat_pos, le_of_nan, lt_of_nan, zero_refl, le_of_lt,
  }

  -- No ratio is both high enough to admit a key and low enough to evict it.
  abbrev pub IsBanded : PolicyOptions float → Type 0
  IsBanded p = (r : F) → (le p.admit_ratio r && lt r p.evict_ratio) ≡ false

  apart : (high low r : F) → le low high ≡ true → (le high r && lt r low) ≡ false
  apart high low r h = elim (Bool-cases (lt r low)) [
    | inl below ↦ elim (Bool-cases (le high r)) [
      | inl above ↦
          let loop = lt_of_lt_of_le r low high below h in
          let around = lt_of_lt_of_le r high r loop above in
          let never = lt_irrefl r in absurd (ground arith)
      | inr other ↦ ground arith
    ]
    | inr other ↦ ground arith
  ]

  -- Thresholds that are compared as Go compares them, NaN included, leave a band.
  apart_checked : (high low r : F) → lt high low ≡ false → (le high r && lt r low) ≡ false
  apart_checked high low r h = elim (Bool-cases (le high high)) [
    | inl number ↦ elim (Bool-cases (le low low)) [
      | inl too ↦ apart high low r (le_of_not_lt low high too number h)
      | inr nan ↦ let never = lt_of_nan r low nan in ground arith
    ]
    | inr nan ↦ let never = le_of_nan high r nan in ground arith
  ]

  positive : (a : F) → (le a a ≡ true) → (le a zero_f ≡ false) → lt zero_f a ≡ true
  positive a number h = lt_of_not_le a zero_f number zero_refl h

  half_apart : (a r : F) → le a zero_f ≡ false → (le a r && lt r (div a (of_nat 2))) ≡ false
  half_apart a r h = elim (Bool-cases (le a a)) [
    | inl number ↦ apart a (div a (of_nat 2)) r (half_le a (positive a number h))
    | inr nan ↦ let never = le_of_nan a r nan in ground arith
  ]

  admit_positive : (a : F) → le (if le a zero_f then of_nat 20 else a) zero_f ≡ false
  admit_positive a = elim (Bool-cases (le a zero_f)) [
    | inl low ↦ rw low (elim (Bool-cases (le (of_nat 20) zero_f)) [
      | inl wrong ↦
          let up = lt_of_lt_of_le zero_f (of_nat 20) zero_f (of_nat_pos 20 (omega arith)) wrong in
          let never = lt_irrefl zero_f in absurd (ground arith)
      | inr fine ↦ fine
    ])
    | inr high ↦ rw high high
  ]

  pub IsBanded-new_policy : (o : PolicyOptions float) → IsBanded (new_policy float o)
  unfolding new_policy
  IsBanded-new_policy o r =
      let admit = if le o.admit_ratio zero_f then of_nat 20 else o.admit_ratio in
      elim (Bool-cases (le o.evict_ratio zero_f || lt admit o.evict_ratio)) [
        | inl replaced ↦ rw replaced (half_apart admit r (admit_positive o.admit_ratio))
        | inr kept ↦
            let ordered : lt admit o.evict_ratio ≡ false = ground arith in
            rw kept (apart_checked admit o.evict_ratio r ordered)
      ]

  abbrev pub with_state : State float → Bool → Time → State float
  with_state s admitted since = record {
    key = s.key;
    reads = s.reads;
    writes = s.writes;
    admitted = admitted;
    since = since;
    now = s.now;
  }

  threshold_settled :
      (p : PolicyOptions float) (s : State float) (r : F) (t : Time)
      → IsBanded p
      → (by_threshold float p (with_state s (by_threshold float p s r).admit t) r).admit
        ≡ (by_threshold float p s r).admit
  unfolding by_threshold
  threshold_settled p s r t banded =
      let b = banded r in
      elim (Bool-cases s.admitted) [
        | inl yes_ ↦ elim (Bool-cases (lt r p.evict_ratio)) [
          | inl low ↦
              let high : le p.admit_ratio r ≡ false = ground arith in rw (yes_, low, high) refl
          | inr fine ↦ rw (yes_, fine) refl
        ]
        | inr out ↦ elim (Bool-cases (le p.admit_ratio r)) [
          | inl high ↦
              let low : lt r p.evict_ratio ≡ false = ground arith in rw (out, high, low) refl
          | inr fine ↦ rw (out, fine) refl
        ]
      ]

  dwell_settled :
      (p : PolicyOptions float) (s : State float) (r : F) (t : Time)
      → IsBanded p
      → (after_dwell float p (with_state s (by_threshold float p s r).admit t) r t).admit
        ≡ (by_threshold float p s r).admit
  unfolding after_dwell
  dwell_settled p s r none banded = threshold_settled p s r none banded
  dwell_settled p s r (some since) banded =
      elim (Bool-cases (ltb_ℤ (pos 0) p.min_dwell && ltb_ℤ (s.now -ℤ since) p.min_dwell)) [
        | inl held ↦ rw held refl
        | inr long ↦ rw long (threshold_settled p s r (some since) banded)
      ]

  -- The state that `Explain` leaves after a decision.
  abbrev pub after : State float → Decision float → State float
  after s d = with_state s d.admit (if differs d.admit s.admitted then some s.now else s.since)

  differs_self : (b : Bool) → differs b b ≡ false
  differs_self b = ground arith

  after_dwell_settled :
      (p : PolicyOptions float) (s : State float) (r : F) (since t : Time)
      → IsBanded p
      → (differs (after_dwell float p s r since).admit s.admitted ≡ false → t ≡ since)
      → (after_dwell float p (with_state s (after_dwell float p s r since).admit t) r t).admit
        ≡ (after_dwell float p s r since).admit
  unfolding after_dwell
  after_dwell_settled p s r none t banded same = dwell_settled p s r t banded
  after_dwell_settled p s r (some since) t banded same =
      elim (Bool-cases (ltb_ℤ (pos 0) p.min_dwell && ltb_ℤ (s.now -ℤ since) p.min_dwell)) [
        | inl held ↦
            let kept : t ≡ some since = same (rw held (differs_self s.admitted)) in
            rw (kept, held) refl
        | inr long ↦ rw long (dwell_settled p s r t banded)
      ]

  admit_settled :
      (o : PolicyOptions float) (s : State float)
      → let p = new_policy float o in
        (decide float p (after s (decide float p s))).admit ≡ (decide float p s).admit
  unfolding decide
  admit_settled o s =
      let p = new_policy float o in
      elim (Bool-cases (ltb ((s.reads + s.writes) % 2 ^ 32) p.min_samples)) [
        | inl few ↦ rw few refl
        | inr enough ↦ rw enough (
            after_dwell_settled p s (ratio_of float s.reads s.writes) s.since
              (if differs (after_dwell float p s (ratio_of float s.reads s.writes) s.since).admit
                  s.admitted
                then some s.now
                else s.since)
              (IsBanded-new_policy o) (λ e. rw e refl))
      ]

  -- A decision that is taken again at the same time and counts, in the state that the first one leaves,
  -- admits the key exactly when the first did, though its reason may differ, and leaves that state as
  -- it is, under any options that `NewPolicy` is given.
  pub decide_settled :
      (o : PolicyOptions float) (s : State float)
      → let p = new_policy float o in
        let left = after s (decide float p s) in
        ((decide float p left).admit ≡ (decide float p s).admit)
        × (after left (decide float p left) ≡ left)
  decide_settled o s =
      let p = new_policy float o in
      let left = after s (decide float p s) in
      let same = admit_settled o s in (same, rw (same, differs_self (decide float p s).admit) refl)

  -- The evidence for a change by the thresholds.
  abbrev pub Crossed : PolicyOptions float → State float → Type 0
  Crossed p s =
      let r = ratio_of float s.reads s.writes in
      ((s.admitted ≡ false) × (le p.admit_ratio r ≡ true))
      ⊎ ((s.admitted ≡ true) × (lt r p.evict_ratio ≡ true))

  abbrev pub Dwelt : PolicyOptions float → ℤ → Time → Type 0
  Dwelt p now none = Unit
  Dwelt p now (some since) =
      (ltb_ℤ (pos 0) p.min_dwell ≡ false) ⊎ (ltb_ℤ (now -ℤ since) p.min_dwell ≡ false)

  threshold_change :
      (p : PolicyOptions float) (s : State float)
      → differs (by_threshold float p s (ratio_of float s.reads s.writes)).admit s.admitted ≡ true
      → Crossed p s
  unfolding by_threshold
  threshold_change p s h = ground arith

  dwell_change :
      (p : PolicyOptions float) (s : State float) (since : Time)
      → differs (after_dwell float p s (ratio_of float s.reads s.writes) since).admit s.admitted
        ≡ true
      → Dwelt p s.now since × Crossed p s
  unfolding after_dwell
  dwell_change p s none h = (tt, threshold_change p s h)
  dwell_change p s (some since) h =
      elim (Bool-cases (ltb_ℤ (pos 0) p.min_dwell && ltb_ℤ (s.now -ℤ since) p.min_dwell)) [
        | inl held ↦
            let change = simp held at h in
            let self = differs_self s.admitted in absurd (ground arith)
        | inr long ↦
            let change : differs (by_threshold float p s (ratio_of float s.reads s.writes)).admit
                  s.admitted
                ≡ true =
              subst
                (λ b.
                  differs
                    (if b
                      then decision float s s.admitted
                          (held_for (s.now -ℤ since) p.min_dwell (ratio_of float s.reads s.writes))
                      else by_threshold float p s (ratio_of float s.reads s.writes)).admit
                    s.admitted
                  ≡ true)
                long h in
            (ground arith, threshold_change p s change)
      ]

  -- A decision that changes the state of a key either lacks samples and takes the default, or its
  -- dwell, where the policy has one and the time of the last change is known, is over and the ratio
  -- has crossed the threshold on that side.
  pub decide_change :
      (p : PolicyOptions float) (s : State float)
      → differs (decide float p s).admit s.admitted ≡ true
      → ((ltb ((s.reads + s.writes) % 2 ^ 32) p.min_samples ≡ true)
          × ((decide float p s).admit ≡ p.default_admit))
        ⊎ (Dwelt p s.now s.since × Crossed p s)
  unfolding decide
  decide_change p s h = elim (Bool-cases (ltb ((s.reads + s.writes) % 2 ^ 32) p.min_samples)) [
    | inl few ↦ inl (few, rw few refl)
    | inr enough ↦ inr (
        dwell_change p s s.since (
          subst
            (λ b.
              differs
                (if b
                  then decision float s p.default_admit
                      (below_samples ((s.reads + s.writes) % 2 ^ 32) p.min_samples)
                  else after_dwell float p s (ratio_of float s.reads s.writes) s.since).admit
                s.admitted
              ≡ true)
            enough h))
  ]
