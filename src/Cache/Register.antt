-- ===== src/Cache/Register.antt =====
-- What one entry of the cache promises: a register whose writes are compare-and-sets on versions.
-- This is the specification that the scripts meet, in numbers, with no server and no text.
pub mod Guard
use cachet.Base.{
  ℕ, zero, suc, ◌+◌, ◌-◌, ◌*◌, ◌/◌, ◌%◌, ◌^◌, ◌≤◌, ◌<◌, min, max, bit_and, bit_or, bit_xor, ◌≡◌,
  refl, sym, ap, ◌∙◌, ◌≢◌, ◌↔◌, ◌⊎◌, inl, inr, Bool, true, false, not, ◌&&◌, ◌||◌, Option, none,
  some, List, [], ◌∷◌, ◌++◌, map, append_assoc, append-nil, arith, ltb, leb, ◌==◌, if◌then◌else◌,
  ltb→lt, lt→ltb, le→ltb, leb→le, le→leb, ==_iff, ==_refl, tests, Bool-cases, Option-cases, &&_true,
  length, get_elem?, get_or, set, take, drop, replicate, All, length-append, take_append,
  drop_append, length-replicate, All-append, Bytes, IsByte, ascii, bytes_eq, bytes_lt, bytes_le,
  eq_of_bytes_eq, bytes_eq_refl, bytes_eq_iff, bytes_eq_ne, Result, ok, err, ◌>>=◌, ◌>>◌, require,
}

-- A cached row, or the cached fact that the row does not exist.
pub record Row : Type 0 where
  pub version : ℕ
  pub fill : ℕ
  pub encoded : Bytes
  pub is_negative : Bytes
  pub schema : Bytes

-- The value, and the version of the newest invalidation that was applied.
pub record Register : Type 0 where
  pub value : Option Row
  pub marker : Option ℕ

abbrev pub empty : Register
empty = record { value = none; marker = none }

abbrev pub older_than_marker : ℕ → Option ℕ → Bool
older_than_marker version none = false
older_than_marker version (some t) = ltb version t

-- A newer row, or a newer snapshot of the same row.
abbrev pub fresher : ℕ → ℕ → Option Row → Bool
fresher version fill none = true
fresher version fill (some r) = ltb r.version version || (r.version == version && ltb r.fill fill)

unfoldable pub fill_wins : Register → ℕ → ℕ → Bool
fill_wins s version fill = not (older_than_marker version s.marker) && fresher version fill s.value

unfoldable pub apply_fill : Register → Row → Register
unfolding fill_wins
apply_fill s r = if fill_wins s r.version r.fill then record s { value = some r } else s

abbrev pub above_value : ℕ → Option Row → Bool
above_value version none = true
above_value version (some r) = ltb r.version version

abbrev pub above_marker : ℕ → Option ℕ → Bool
above_marker version none = true
above_marker version (some t) = ltb t version

unfoldable pub tombstone_wins : Register → ℕ → Bool
tombstone_wins s version = above_value version s.value && above_marker version s.marker

unfoldable pub apply_tombstone : Register → ℕ → Register
unfolding tombstone_wins
apply_tombstone s version =
    if tombstone_wins s version then record { value = none; marker = some version } else s

abbrev pub of_schema : Bytes → Option Row → Option Row
of_schema schema none = none
of_schema schema (some r) = if bytes_eq r.schema schema then some r else none

unfoldable pub read : Register → Bytes → Option Row
read s schema = of_schema schema s.value

-- 64-bit versions, and no value below the marker.
abbrev pub Fits : Option Row → Option ℕ → Type 0
Fits none none = Unit {0}
Fits none (some t) = t < 2 ^ 64
Fits (some r) none = (r.version < 2 ^ 64) × (r.fill < 2 ^ 64)
Fits (some r) (some t) = (r.version < 2 ^ 64) × (r.fill < 2 ^ 64) × (t ≤ r.version)

abbrev pub IsCoherent : Register → Type 0
IsCoherent s = Fits s.value s.marker

pub Fits-fill :
    (v : Option Row) (m : Option ℕ) (r : Row)
    → Fits v m
    → r.version < 2 ^ 64
    → r.fill < 2 ^ 64
    → fill_wins (record { value = v; marker = m }) r.version r.fill ≡ true
    → Fits (some r) m
unfolding fill_wins
Fits-fill v none r h hv hf wins = (hv, hf)
Fits-fill v (some t) r h hv hf wins =
    let (above, _) =
      &&_true (not (older_than_marker r.version (some t))) (fresher r.version r.fill v) wins in
    (hv, hf, ground arith)

-- A fill keeps the value at or above the marker.
apply_fill-IsCoherent :
    (s : Register) (r : Row)
    → IsCoherent s
    → r.version < 2 ^ 64
    → r.fill < 2 ^ 64
    → IsCoherent (apply_fill s r)
unfolding apply_fill
apply_fill-IsCoherent s r h hv hf = elim (Bool-cases (fill_wins s r.version r.fill)) [
  | inl wins ↦ rw wins (Fits-fill s.value s.marker r h hv hf wins)
  | inr loses ↦ rw loses h
]

apply_tombstone-IsCoherent :
    (s : Register) (x : ℕ) → IsCoherent s → x < 2 ^ 64 → IsCoherent (apply_tombstone s x)
unfolding apply_tombstone
apply_tombstone-IsCoherent s x h hx = elim (Bool-cases (tombstone_wins s x)) [
  | inl wins ↦ rw wins hx
  | inr loses ↦ rw loses h
]
