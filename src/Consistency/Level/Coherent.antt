-- ===== src/Consistency/Level/Coherent.antt =====
-- pkg/consistency: which requirements are accepted, and that levels survive the wire.
use cachet.Base.Int.{ℤ, pos, negsuc}
use cachet.Consistency.Level.{
  Level, session, strong, bounded, eventual, other, Requirement, validate, CoherentAt,
}
use cachet.Consistency.Level.Wire.{to_wire, level_from_wire, sent, requirement_from_wire}
use cachet.Base.{zero, suc, ◌≡◌, refl, ◌↔◌, Bool, true, some, arith, ok}

unbounded_iff :
    (b : ℤ) → (validate (record { level = session; staleness_bound = b }) ≡ ok tt) ↔ (b ≡ pos 0)
unfolding validate
unbounded_iff (pos zero) = (λ e. refl, λ h. ground arith)
unbounded_iff (pos (suc n)) = (λ e. absurd (ground arith), λ h. absurd (ground arith))
unbounded_iff (negsuc n) = (λ e. absurd (ground arith), λ h. absurd (ground arith))

-- Validation accepts BOUNDED with a positive bound and every other level with no bound, and accepts
-- nothing else.
pub validate-CoherentAt :
    (level : Level) (b : ℤ)
    → (validate (record { level = level; staleness_bound = b }) ≡ ok tt) ↔ CoherentAt level b
unfolding validate
validate-CoherentAt session b = unbounded_iff b
validate-CoherentAt strong b = unbounded_iff b
validate-CoherentAt eventual b = unbounded_iff b
validate-CoherentAt bounded (pos zero) = (λ e. absurd (ground arith), λ h. absurd (ground arith))
validate-CoherentAt bounded (pos (suc n)) = (λ e. (n, refl), λ h. ground arith)
validate-CoherentAt bounded (negsuc n) = (λ e. absurd (ground arith), λ h. absurd (ground arith))
validate-CoherentAt (other k) b = (λ e. absurd (ground arith), λ h. absurd h)

level_from_wire-to_wire :
    (level : Level) (b : ℤ) → CoherentAt level b → level_from_wire (to_wire level) ≡ ok level
unfolding level_from_wire to_wire
level_from_wire-to_wire session b h = refl
level_from_wire-to_wire strong b h = refl
level_from_wire-to_wire bounded b h = refl
level_from_wire-to_wire eventual b h = refl
level_from_wire-to_wire (other n) b h = absurd h

module _ {Duration : Type 0} (check_valid : Duration → Bool) (as_duration : Duration → ℤ) where
  present :
      (level : Level) (d : Duration)
      → CoherentAt level (as_duration d)
      → check_valid d ≡ true
      → requirement_from_wire check_valid as_duration (to_wire level) (some d)
        ≡ ok (record { level = level; staleness_bound = as_duration d })
  unfolding requirement_from_wire
  present level d coherent valid =
      rw (level_from_wire-to_wire level (as_duration d) coherent)
        (rw valid (rw ((validate-CoherentAt level (as_duration d)).1 coherent) refl))

  as_sent :
      (level : Level) (d : Duration)
      → CoherentAt level (as_duration d)
      → check_valid d ≡ true
      → requirement_from_wire check_valid as_duration (to_wire level) (sent level d)
        ≡ ok (record { level = level; staleness_bound = as_duration d })
  unfolding requirement_from_wire to_wire level_from_wire validate
  as_sent bounded d coherent valid = present bounded d coherent valid
  as_sent session d coherent valid = rw coherent refl
  as_sent strong d coherent valid = rw coherent refl
  as_sent eventual d coherent valid = rw coherent refl
  as_sent (other n) d coherent valid = absurd coherent

  -- A coherent requirement, which for every level but BOUNDED has no bound, is the requirement that the
  -- server reads from the wire: as the client sends it, with a duration for BOUNDED alone, and also with
  -- a duration at any level, if the runtime accepts the duration message and reads it back as the bound.
  pub requirement_from_wire-to_wire :
      (level : Level) (d : Duration)
      → CoherentAt level (as_duration d)
      → check_valid d ≡ true
      → let requirement : Requirement = record { level = level; staleness_bound = as_duration d } in
        (requirement_from_wire check_valid as_duration (to_wire level) (sent level d)
          ≡ ok requirement)
        × (requirement_from_wire check_valid as_duration (to_wire level) (some d) ≡ ok requirement)
  requirement_from_wire-to_wire level d coherent valid =
      (as_sent level d coherent valid, present level d coherent valid)
