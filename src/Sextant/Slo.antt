-- ===== src/Sextant/Slo.antt =====
-- pkg/sextant/slo.go: samples for each level over a rolling window, and the figure that they give. The
-- floats and the logarithm are parameters, and times are in nanoseconds.
pub mod Figure
pub mod Rolling
pub mod Stored
use cachet.Base.Float.{Float}
use cachet.Base.Int.{ℤ, pos, leb_ℤ, ltb_ℤ, ◌-ℤ◌}
use cachet.Consistency.Level.{Level, session, strong, bounded, eventual, other}
use cachet.Sextant.Classify.{same_level}
use cachet.Base.{
  ℕ, zero, suc, ◌+◌, ◌-◌, ◌*◌, ◌/◌, ◌%◌, ◌^◌, ◌≤◌, ◌<◌, min, max, bit_and, bit_or, bit_xor, ◌≡◌,
  refl, sym, ap, ◌∙◌, ◌≢◌, ◌↔◌, ◌⊎◌, inl, inr, Bool, true, false, not, ◌&&◌, ◌||◌, Option, none,
  some, List, [], ◌∷◌, ◌++◌, map, append_assoc, append-nil, arith, ltb, leb, ◌==◌, if◌then◌else◌,
  ltb→lt, lt→ltb, le→ltb, leb→le, le→leb, ==_iff, ==_refl, tests, Bool-cases, Option-cases, &&_true,
  length, get_elem?, get_or, set, take, drop, replicate, All, length-append, take_append,
  drop_append, length-replicate, All-append, Bytes, IsByte, ascii, bytes_eq, bytes_lt, bytes_le,
  eq_of_bytes_eq, bytes_eq_refl, bytes_eq_iff, bytes_eq_ne, Result, ok, err, ◌>>=◌, ◌>>◌, require,
}

pub record Sample : Type 0 where
  pub seen_at : ℤ
  pub violation : Bool

pub record Slo : Type 0 where
  pub window : ℤ
  pub levels : List (Level × List Sample)

unfoldable pub new_slo : ℤ → Slo
new_slo window = record {
  window = if leb_ℤ window (pos 0) then pos 60000000000 else window;
  levels = [];
}

unfoldable pub find_level : Level → List (Level × List Sample) → Option (List Sample)
find_level l [] = none
find_level l ((k, samples) ∷ levels) = if same_level k l then some samples else find_level l levels

unfoldable pub put_level :
    Level → List Sample → List (Level × List Sample) → List (Level × List Sample)
put_level l samples [] = (l, samples) ∷ []
put_level l samples ((k, old) ∷ levels) =
    let rest = put_level l samples levels in
    if same_level k l then (k, samples) ∷ levels else (k, old) ∷ rest

-- A level without samples has none.
abbrev pub or_empty : Option (List Sample) → List Sample
or_empty none = []
or_empty (some samples) = samples

abbrev pub stored : Level → Slo → List Sample
stored l s = or_empty (find_level l s.levels)

abbrev pub with_samples : Slo → Level → List Sample → Slo
with_samples s l samples = record { window = s.window; levels = put_level l samples s.levels }

unfoldable pub observe : Slo → Level → ℤ → Bool → Slo
observe s l seen_at violation =
    if same_level l strong
    then s
    else with_samples s l (stored l s ++ (record { seen_at = seen_at; violation = violation }) ∷ [])

-- The loop that keeps the samples after the cutoff.
unfoldable pub keep_after : ℤ → List Sample → List Sample
keep_after cutoff [] = []
keep_after cutoff (o ∷ samples) =
    let rest = keep_after cutoff samples in if ltb_ℤ cutoff o.seen_at then o ∷ rest else rest

unfoldable pub count_violations : List Sample → ℕ
count_violations [] = 0
count_violations (o ∷ samples) =
    let rest = count_violations samples in if o.violation then rest + 1 else rest

module _ (float : Float) (log_10 negate : float.F → float.F) where
  open float use {F, zero_f, one, of_nat, sub, div}

  pub record Report : Type 0 where
    pub reported_level : Level
    pub observations : ℕ
    pub violations : ℕ
    pub consistency : F
    pub nines : F
    pub known : Bool

  abbrev pub no_report : Level → Report
  no_report l = record {
    reported_level = l;
    observations = 0;
    violations = 0;
    consistency = zero_f;
    nines = zero_f;
    known = false;
  }

  abbrev pub nines_of : ℕ → ℕ → F → F
  nines_of observations violations consistency =
      if ltb 0 violations
      then negate (log_10 (sub one consistency))
      else if ltb 3 observations
      then log_10 (div (of_nat observations) (of_nat 3))
      else zero_f

  unfoldable pub report_on : Level → List Sample → Report
  report_on l samples =
      let observations = length samples in
      let violations = count_violations samples in
      let consistency = div (of_nat (observations - violations)) (of_nat observations) in
      if observations == 0 then no_report l else record {
        reported_level = l;
        observations = observations;
        violations = violations;
        consistency = consistency;
        nines = nines_of observations violations consistency;
        known = true;
      }

  abbrev pub report_found : Slo → Level → ℤ → Option (List Sample) → Report × Slo
  report_found s l now none = (no_report l, s)
  report_found s l now (some samples) =
      let kept = keep_after (now -ℤ s.window) samples in (report_on l kept, with_samples s l kept)

  unfoldable pub report : Slo → Level → ℤ → Report × Slo
  report s l now = report_found s l now (find_level l s.levels)

-- `Levels`
unfoldable pub observed_levels : Slo → List Level
observed_levels s = map (λ p. p.0) s.levels
