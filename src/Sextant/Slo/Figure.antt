-- ===== src/Sextant/Slo/Figure.antt =====
-- pkg/sextant/slo.go: what a report says of the samples in its window, by counting them.
use cachet.Base.Float.{Float}
use cachet.Base.Int.{ℤ, ltb_ℤ, ◌+ℤ◌, ◌-ℤ◌, +ℤ_parts, -ℤ_parts}
use cachet.Base.Sort.{filter}
use cachet.Consistency.Level.{Level}
use cachet.Sextant.Slo.{Sample, keep_after, count_violations, Report, nines_of, report_on}
use cachet.Base.{
  ℕ, ◌+◌, ◌-◌, ◌≡◌, refl, ap, inl, inr, Bool, true, not, List, [], ◌∷◌, arith, ltb, ◌==◌,
  if◌then◌else◌, Bool-cases, length,
}

-- The window that starts with the sample has not passed.
abbrev pub is_recent : ℤ → ℤ → Sample → Bool
is_recent window now o = ltb_ℤ now (o.seen_at +ℤ window)

pub keep_after-filter :
    (window now : ℤ) (l : List Sample)
    → keep_after (now -ℤ window) l ≡ filter (is_recent window now) l
unfolding keep_after filter
keep_after-filter window now [] = refl
keep_after-filter window now (o ∷ l) =
    let rest = keep_after-filter window now l in
    let s = +ℤ_parts o.seen_at window in
    let d = -ℤ_parts now window in
    let same : ltb_ℤ (now -ℤ window) o.seen_at ≡ ltb_ℤ now (o.seen_at +ℤ window) = ground arith in
    rw (same, rest) refl

-- How many samples are violations, and how many are not.
abbrev pub bad : List Sample → ℕ
bad l = length (filter (λ o. o.violation) l)

abbrev pub good : List Sample → ℕ
good l = length (filter (λ o. not o.violation) l)

count_violations-bad : (l : List Sample) → count_violations l ≡ bad l
unfolding count_violations filter
count_violations-bad [] = refl
count_violations-bad (o ∷ l) = let rest = count_violations-bad l in ground arith

bad-good : (l : List Sample) → length l ≡ bad l + good l
unfolding filter
bad-good [] = refl
bad-good (o ∷ l) = let rest = bad-good l in ground arith

module _ (float : Float) (log_10 negate : float.F → float.F) where
  open float use {F, zero_f, one, of_nat, sub, div}

  -- The counts, the share of the samples that are no violations, and the nines that they support.
  abbrev pub Figure : Level → List Sample → Report float log_10 negate → Type 0
  Figure l samples r =
      (r.reported_level ≡ l)
      × (r.observations ≡ bad samples + good samples)
      × (r.violations ≡ bad samples)
      × (r.known ≡ ltb 0 (bad samples + good samples))
      × (r.consistency ≡ (
          if bad samples + good samples == 0
          then zero_f
          else div (of_nat (good samples)) (of_nat (bad samples + good samples))))
      × (r.nines ≡ (
          if ltb 0 (bad samples)
          then negate (log_10 (sub one r.consistency))
          else if ltb 3 (good samples)
          then log_10 (div (of_nat (good samples)) (of_nat 3))
          else zero_f))

  nines_by_counts :
      (m n : ℕ) (c : F)
      → nines_of float log_10 negate (m + n) m c ≡ (
          if ltb 0 m
          then negate (log_10 (sub one c))
          else if ltb 3 n
          then log_10 (div (of_nat n) (of_nat 3))
          else zero_f)
  nines_by_counts m n c = elim (Bool-cases (ltb 0 m)) [
    | inl some_bad ↦ rw some_bad refl
    | inr clean ↦
        let same : m + n ≡ n = ground arith in
        rw clean (ap (λ k. if ltb 3 k then log_10 (div (of_nat k) (of_nat 3)) else zero_f) same)
  ]

  pub report_on-Figure :
      (l : Level) (samples : List Sample)
      → Figure l samples (report_on float log_10 negate l samples)
  unfolding report_on
  report_on-Figure l samples =
      let m = bad samples in
      let n = good samples in
      let total = bad-good samples in
      let counted = count_violations-bad samples in
      let left_over : m + n - m ≡ n = omega arith in
      elim (Bool-cases (m + n == 0)) [
        | inl empty ↦
            let none_bad : m ≡ 0 = ground arith in
            let none_good : n ≡ 0 = ground arith in
            rw (total, counted, none_bad, none_good) (refl, refl, refl, refl, refl, refl)
        | inr full ↦
            let known : true ≡ ltb 0 (m + n) = ground arith in
            rw (total, counted, left_over, full)
              (refl, refl, refl, known, refl, nines_by_counts m n (div (of_nat n) (of_nat (m + n))))
      ]
