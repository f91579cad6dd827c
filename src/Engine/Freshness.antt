-- ===== src/Engine/Freshness.antt =====
-- internal/engine/freshness.go: which cached entry a request may be served. A point in time is in
-- nanoseconds since the epoch.
pub mod Permits
pub mod ReadOwnWrites
use cachet.Base.Int.{ℤ, pos, neg_ℤ, ltb_ℤ, ◌+ℤ◌}
use cachet.Consistency.Level.{
  Level, session, strong, bounded, eventual, other, Requirement, bypasses_cache, requires_watermark,
}
use cachet.Storage.Hlc.{time}
use cachet.Base.{
  ℕ, zero, suc, ◌+◌, ◌-◌, ◌*◌, ◌/◌, ◌%◌, ◌^◌, ◌≤◌, ◌<◌, min, max, bit_and, bit_or, bit_xor, ◌≡◌,
  refl, sym, ap, ◌∙◌, ◌≢◌, ◌↔◌, ◌⊎◌, inl, inr, Bool, true, false, not, ◌&&◌, ◌||◌, Option, none,
  some, List, [], ◌∷◌, ◌++◌, map, append_assoc, append-nil, arith, ltb, leb, ◌==◌, if◌then◌else◌,
  ltb→lt, lt→ltb, le→ltb, leb→le, le→leb, ==_iff, ==_refl, tests, Bool-cases, Option-cases, &&_true,
  length, get_elem?, get_or, set, take, drop, replicate, All, length-append, take_append,
  drop_append, length-replicate, All-append, Bytes, IsByte, ascii, bytes_eq, bytes_lt, bytes_le,
  eq_of_bytes_eq, bytes_eq_refl, bytes_eq_iff, bytes_eq_ne, Result, ok, err, ◌>>=◌, ◌>>◌, require,
}

pub record Freshness : Type 0 where
  pub requirement : Requirement
  pub fill_version : ℕ
  pub watermark : ℕ
  pub watermark_known : Bool
  pub now : ℤ
  pub max_clock_skew : ℤ

-- `f.Requirement.Level == consistency.Bounded`
unfoldable pub is_bounded : Level → Bool
is_bounded bounded = true
is_bounded _ = false

unfoldable pub oldest : Freshness → ℤ
oldest f = (f.now +ℤ neg_ℤ ((f.requirement).staleness_bound)) +ℤ f.max_clock_skew

unfoldable pub accept_entry : Freshness → Bool
unfolding bypasses_cache requires_watermark is_bounded oldest time
accept_entry f =
    if bypasses_cache ((f.requirement).level)
    then false
    else if (requires_watermark ((f.requirement).level) && f.watermark_known)
        && ltb f.fill_version f.watermark
    then false
    else if is_bounded ((f.requirement).level) && ltb_ℤ (time f.fill_version) (oldest f)
    then false
    else true
