-- ===== src/Consistency/Level/Wire.antt =====
-- pkg/consistency/proto.go: levels and requirements on the wire. A duration message and its two
-- methods belong to the protobuf runtime: they are parameters.
use cachet.Base.Int.{ℤ, pos}
use cachet.Base.{Bool, Option, none, some, if◌then◌else◌, Result, ok, err, ◌>>=◌, ◌>>◌}
use cachet.Consistency.Level.{
  Level, session, strong, bounded, eventual, other, Error, unsupported_wire_level, invalid_bound,
  Requirement, validate,
}

-- `unrecognized` is a value that this build's protocol does not name.
pub data WireLevel : Type 0 where
  unspecified wire_strong wire_session wire_bounded wire_eventual : WireLevel
  unrecognized : ℤ → WireLevel

unfoldable pub to_wire : Level → WireLevel
to_wire strong = wire_strong
to_wire session = wire_session
to_wire bounded = wire_bounded
to_wire eventual = wire_eventual
to_wire (other n) = unspecified

unfoldable pub level_from_wire : WireLevel → Result Error Level
level_from_wire unspecified = ok session
level_from_wire wire_strong = ok strong
level_from_wire wire_session = ok session
level_from_wire wire_bounded = ok bounded
level_from_wire wire_eventual = ok eventual
level_from_wire (unrecognized n) = err unsupported_wire_level

-- The duration of a request, which the client of pkg/cachet/cachet.go sends with BOUNDED alone.
abbrev pub sent {ℓ} : {Duration : Type ℓ} → Level → Duration → Option Duration
sent bounded d = some d
sent session d = none
sent strong d = none
sent eventual d = none
sent (other n) d = none

module _ {Duration : Type 0} (check_valid : Duration → Bool) (as_duration : Duration → ℤ) where
  abbrev bound_from_wire : Option Duration → Result Error ℤ
  bound_from_wire none = ok (pos 0)
  bound_from_wire (some d) = if check_valid d then ok (as_duration d) else err invalid_bound

  unfoldable pub requirement_from_wire : WireLevel → Option Duration → Result Error Requirement
  unfolding level_from_wire validate
  requirement_from_wire p bound = do
    level ← level_from_wire p
    staleness ← bound_from_wire bound
    validate (record { level = level; staleness_bound = staleness })
    ok (record { level = level; staleness_bound = staleness })
