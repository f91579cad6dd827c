-- ===== src/Engine/Freshness/Permits.antt =====
-- internal/engine/freshness.go against the rules of the consistency levels.
use cachet.Base.Int.{neg_ℤ, ltb_ℤ, ◌+ℤ◌, ◌≤ℤ◌, +ℤ_parts, neg_parts}
use cachet.Consistency.Level.{
  Level, session, strong, bounded, eventual, other, bypasses_cache, requires_watermark,
}
use cachet.Storage.Hlc.{time}
use cachet.Engine.Freshness.{Freshness, is_bounded, oldest, accept_entry}
use cachet.Base.{◌≤◌, ◌≡◌, refl, ◌↔◌, true, false, arith}

-- The entry is from a state at or after the last one that the session has written or seen.
abbrev pub CoversSession : Freshness → Type 0
CoversSession f = f.watermark_known ≡ true → f.watermark ≤ f.fill_version

-- The entry's age is within the bound less the clocks' skew.
abbrev pub WithinBound : Freshness → Type 0
WithinBound f =
    (f.now +ℤ f.max_clock_skew) ≤ℤ (time f.fill_version +ℤ (f.requirement).staleness_bound)

abbrev pub PermitsAt : Level → Freshness → Type 0
PermitsAt strong f = ⊥
PermitsAt session f = CoversSession f
PermitsAt bounded f = CoversSession f × WithinBound f
PermitsAt eventual f = Unit
PermitsAt (other n) f = Unit

oldest_iff : (f : Freshness) → (ltb_ℤ (time f.fill_version) (oldest f) ≡ false) ↔ WithinBound f
unfolding oldest
oldest_iff f =
    let b = (f.requirement).staleness_bound in
    let e = neg_parts b in
    let s = +ℤ_parts (f.now +ℤ neg_ℤ b) f.max_clock_skew in
    let r = +ℤ_parts f.now (neg_ℤ b) in
    let u = +ℤ_parts f.now f.max_clock_skew in
    let v = +ℤ_parts (time f.fill_version) b in (λ h. ground arith, λ h. ground arith)

accept_entry-PermitsAt :
    (level : Level) (f : Freshness)
    → (f.requirement).level ≡ level
    → (accept_entry f ≡ true) ↔ PermitsAt level f
unfolding accept_entry bypasses_cache requires_watermark is_bounded
accept_entry-PermitsAt strong f e = rw e (λ h. absurd (ground arith), λ h. absurd h)
accept_entry-PermitsAt session f e = rw e (λ h. ground arith, λ h. ground arith)
accept_entry-PermitsAt bounded f e =
    rw e (let o = oldest_iff f in (λ h. ground (arith, o.0, o.1), λ h. ground (arith, o.0, o.1)))
accept_entry-PermitsAt eventual f e = rw e (λ h. tt, λ h. refl)
accept_entry-PermitsAt (other n) f e = rw e (λ h. tt, λ h. refl)

-- A cached entry is served in exactly these cases: never for STRONG; for SESSION, if it is at or
-- after the session's watermark where one is known; for BOUNDED, if moreover its age and the clock
-- skew fit in the staleness bound, so that the skew narrows the window; and always for EVENTUAL.
pub accept_entry-Permits :
    (f : Freshness) → (accept_entry f ≡ true) ↔ PermitsAt ((f.requirement).level) f
accept_entry-Permits f = accept_entry-PermitsAt ((f.requirement).level) f refl
