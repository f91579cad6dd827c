-- ===== src/Engine/Freshness/ReadOwnWrites.antt =====
-- A session's write, the entries that were filled before it, and the reads that follow it.
use cachet.Base.Int.{ℤ}
use cachet.Consistency.Level.{Requirement, requires_watermark}
use cachet.Consistency.Token.{Token, advance, watermark}
use cachet.Consistency.Token.Advance.{watermark-advance, raised}
use cachet.Storage.Hlc.{Clock}
use cachet.Storage.Hlc.Order.{Call, Event, issued, version, run, run-Follows}
use cachet.Engine.Freshness.{Freshness, accept_entry}
use cachet.Base.{
  ℕ, ◌≤◌, ◌<◌, ◌≡◌, ap, ◌∙◌, ◌≢◌, true, false, Option, none, some, List, [], ◌∷◌, ◌++◌, arith, All,
  Bytes,
}

-- The request of a session whose `Watermark` call returned the position.
abbrev pub request : Requirement → ℤ → ℤ → ℕ → Option ℕ → Freshness
request r now skew fill none = record {
  requirement = r;
  fill_version = fill;
  watermark = 0;
  watermark_known = false;
  now = now;
  max_clock_skew = skew;
}
request r now skew fill (some w) = record {
  requirement = r;
  fill_version = fill;
  watermark = w;
  watermark_known = true;
  now = now;
  max_clock_skew = skew;
}

rejects_older :
    (r : Requirement) (now skew : ℤ) (fill w : ℕ)
    → requires_watermark r.level ≡ true
    → fill < w
    → accept_entry (request r now skew fill (some w)) ≡ false
unfolding accept_entry
rejects_older r now skew fill w checked older = ground arith

raised_ge : (o : Option ℕ) (w : ℕ) → w ≤ raised o w
raised_ge none w = omega arith
raised_ge (some v) w = omega arith

module _ (r : Requirement) (now skew : ℤ) (t : Token) (shard : Bytes) (w : ℕ) where
  abbrev pub Rejects : Event → Type 0
  Rejects b =
      accept_entry (request r now skew (version b) (watermark (advance t shard w) shard)) ≡ false

  All-Rejects :
      (before : List Event)
      → shard ≢ []
      → requires_watermark r.level ≡ true
      → All (λ b. version b < w) before
      → All Rejects before
  All-Rejects [] named checked h = tt
  All-Rejects (b ∷ before) named checked h = (
    ap (λ o. accept_entry (request r now skew (version b) o)) (watermark-advance t shard w named)
        ∙ rejects_older r now skew (version b) (raised (watermark t shard) w) checked
            (let ge = raised_ge (watermark t shard) w in omega arith),
    All-Rejects before named checked h.1,
  )

  -- Read-own-writes: when a shard's clock issues a version for a session's write and the session
  -- advances its token to it, the session's next read at SESSION or BOUNDED is served no entry that
  -- was filled from a state before the write: none whose fill version the clock had issued, read or
  -- observed before it.
  pub run-Rejects :
      (calls : List Call) (c d : Clock) (before after : List Event)
      → run calls c ≡ some (before ++ issued w ∷ after, d)
      → shard ≢ []
      → requires_watermark r.level ≡ true
      → All Rejects before
  run-Rejects calls c d before after ran named checked =
      All-Rejects before named checked (run-Follows (issued w) after d calls c before ran)
