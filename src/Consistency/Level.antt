-- ===== src/Consistency/Level.antt =====
-- pkg/consistency/level.go and proto.go: the levels, and which requirements are coherent.
pub mod Wire
pub mod Coherent
use cachet.Base.Int.{ℤ, pos, ltb_ℤ, leb_ℤ}
use cachet.Base.{
  ℕ, zero, suc, ◌+◌, ◌-◌, ◌*◌, ◌/◌, ◌%◌, ◌^◌, ◌≤◌, ◌<◌, min, max, bit_and, bit_or, bit_xor, ◌≡◌,
  refl, sym, ap, ◌∙◌, ◌≢◌, ◌↔◌, ◌⊎◌, inl, inr, Bool, true, false, not, ◌&&◌, ◌||◌, Option, none,
  some, List, [], ◌∷◌, ◌++◌, map, append_assoc, append-nil, arith, ltb, leb, ◌==◌, if◌then◌else◌,
  ltb→lt, lt→ltb, le→ltb, leb→le, le→leb, ==_iff, ==_refl, tests, Bool-cases, Option-cases, &&_true,
  length, get_elem?, get_or, set, take, drop, replicate, All, length-append, take_append,
  drop_append, length-replicate, All-append, Bytes, IsByte, ascii, bytes_eq, bytes_lt, bytes_le,
  eq_of_bytes_eq, bytes_eq_refl, bytes_eq_iff, bytes_eq_ne, Result, ok, err, ◌>>=◌, ◌>>◌, require,
}

-- `other` is a value of the Go type that names no level.
pub data Level : Type 0 where
  session strong bounded eventual : Level
  other : ℤ → Level

unfoldable pub bypasses_cache : Level → Bool
bypasses_cache strong = true
bypasses_cache _ = false

unfoldable pub requires_watermark : Level → Bool
requires_watermark session = true
requires_watermark bounded = true
requires_watermark _ = false

pub data Error : Type 0 where
  unknown_level missing_bound negative_bound unexpected_bound : Error
  unsupported_wire_level invalid_bound : Error

-- The bound is in nanoseconds.
pub record Requirement : Type 0 where
  pub level : Level
  pub staleness_bound : ℤ

abbrev is_zero : ℤ → Bool
is_zero b = leb_ℤ b (pos 0) && leb_ℤ (pos 0) b

abbrev validate_bounded : ℤ → Result Error (Unit {0})
validate_bounded b =
    if is_zero b then err missing_bound else if ltb_ℤ b (pos 0) then err negative_bound else ok tt

abbrev validate_unbounded : ℤ → Result Error (Unit {0})
validate_unbounded b = if is_zero b then ok tt else err unexpected_bound

abbrev validate_level : Level → ℤ → Result Error (Unit {0})
validate_level (other n) b = err unknown_level
validate_level bounded b = validate_bounded b
validate_level session b = validate_unbounded b
validate_level strong b = validate_unbounded b
validate_level eventual b = validate_unbounded b

unfoldable pub validate : Requirement → Result Error (Unit {0})
validate r = validate_level r.level r.staleness_bound

-- What a caller may ask for: BOUNDED with a positive bound, and the other three with none.
abbrev pub CoherentAt : Level → ℤ → Type 0
CoherentAt bounded b = (n : ℕ) × (b ≡ pos (suc n))
CoherentAt (other n) b = ⊥
CoherentAt session b = b ≡ pos 0
CoherentAt strong b = b ≡ pos 0
CoherentAt eventual b = b ≡ pos 0
