-- ===== src/Cache/Trace/Invalidation.antt =====
-- What an invalidation, a read and a fill promise about every later script run on the key.
use cachet.Cache.Version.{encode_version, encode_version-injective}
use cachet.Cache.Redis.{Redis}
use cachet.Cache.Register
use cachet.Cache.Register.{
  Row, Register, IsCoherent, of_schema, fill_wins, apply_fill, apply_tombstone, tombstone_wins,
}
use cachet.Cache.Register.Guard.{Guards, GuardsAt, apply_tombstone-Guards, tombstone-below-Guards}
use cachet.Cache.Script.{hit, apply, reject, fill_cas, tombstone_cas, finish_tombstone, read}
use cachet.Cache.Script.Refine.{decided, IsWordRow, value-IsWordRow}
use cachet.Cache.Script.Represents.{
  Represents, arguments, fill_cas-Represents, tombstone_cas-Represents, verdict-fill,
  verdict-tombstone, read-eq, reply_for,
}
use cachet.Cache.Trace.{Action, IsSent, KeepsEntry, run, run-Guards}
use cachet.Base.{
  ℕ, ◌^◌, ◌≤◌, ◌<◌, ◌≡◌, refl, sym, ap, ◌∙◌, inl, inr, Bool, true, false, Option, none, some, List,
  arith, if◌then◌else◌, Bool-cases, All, Bytes, bytes_eq,
}

-- The reply carries a version at or above `w`.
abbrev pub ServesAtLeast : ℕ → Bytes → Type 0
ServesAtLeast w text = (v : ℕ) × (text ≡ encode_version v) × (w ≤ v)

served :
    (w : ℕ) (v : Option Row) (m : Option ℕ) (schema text : Bytes) (fv row neg : Option Bytes)
    → GuardsAt w v m
    → reply_for (of_schema schema v) ≡ some (hit text fv row neg)
    → ServesAtLeast w text
served w none m schema text fv row neg g h = ground arith
served w (some r) m schema text fv row neg g h = elim (Bool-cases (bytes_eq r.schema schema)) [
  | inl same ↦ (r.version, ground arith, g)
  | inr other ↦ absurd (ground arith)
]

-- The version in a reply is the stored row's.
seen :
    (x : ℕ) (v : Option Row) (m : Option ℕ) (schema : Bytes) (fv row neg : Option Bytes)
    → x < 2 ^ 64
    → IsWordRow v
    → reply_for (of_schema schema v) ≡ some (hit (encode_version x) fv row neg)
    → GuardsAt x v m
seen x none m schema fv row neg hx fits h = ground arith
seen x (some q) m schema fv row neg hx fits h = elim (Bool-cases (bytes_eq q.schema schema)) [
  | inl same ↦
      let text : encode_version q.version ≡ encode_version x = ground arith in
      omega (arith, encode_version-injective q.version x fits.0 hx text)
  | inr other ↦ absurd (ground arith)
]

decided_lem : (b : Bool) → decided b ≡ (if b then apply else reject)
decided_lem true = refl
decided_lem false = refl

filled_read :
    (s : Register) (r : Row) (schema : Bytes)
    → reply_for (Register.read (apply_fill s r) schema) ≡ (
        if fill_wins s r.version r.fill
        then reply_for (of_schema schema (some r))
        else reply_for (Register.read s schema))
unfolding apply_fill Register.read
filled_read s r schema = elim (Bool-cases (fill_wins s r.version r.fill)) [
  | inl wins ↦ rw wins
  | inr loses ↦ rw loses
]

module _ (server : Redis) (key lease_key : Bytes) where
  open server use {Db}

  served_after :
      (db : Db) (s : Register) (w : ℕ) (actions : List Action) (schema text : Bytes)
      (fv row neg : Option Bytes)
      → Represents server key lease_key db s
      → All IsSent actions
      → All KeepsEntry actions
      → Guards w s
      → read server (run server key lease_key db actions) key schema ≡ some (hit text fv row neg)
      → ServesAtLeast w text
  unfolding Register.read
  served_after db s w actions schema text fv row neg rep sent keeps g h =
      let (s', rep', g') = run-Guards server key lease_key w db s actions sent keeps rep g in
      served w s'.value s'.marker schema text fv row neg g' (
        sym (read-eq server key lease_key (run server key lease_key db actions) s' rep' schema) ∙ h)

  replayed :
      (db : Db) (s : Register) (w x ttl : ℕ)
      → Represents server key lease_key db s
      → Guards w s
      → x ≤ w
      → x < 2 ^ 64
      → 0 < ttl
      → tombstone_cas server db key (encode_version x) ttl ≡ (db, reject)
  unfolding tombstone_cas
  replayed db s w x ttl rep g h hx live =
      ap (λ d. (finish_tombstone server db key (encode_version x) ttl d, d))
        (verdict-tombstone server key lease_key db s rep x ttl live hx
          ∙ ap decided (tombstone-below-Guards w s x g h))

  module _ (db : Db) (s : Register) (rep : Represents server key lease_key db s) where
    -- The database and the register just after a tombstone.
    marked_rep :
        (w ttl : ℕ)
        → w < 2 ^ 64
        → 0 < ttl
        → Represents server key lease_key
            (tombstone_cas server db key (encode_version w) ttl).0
            (apply_tombstone s w)
    marked_rep w ttl hw live = tombstone_cas-Represents server key lease_key db s rep w ttl live hw

    -- After a tombstone at version `w` has run, whether it won its compare-and-set or lost it, and
    -- after any further sequence of fills, tombstones, lease requests and lease expiries on the
    -- key, in which the entry neither expires nor is evicted, a reader of any schema that gets an
    -- entry gets one of row version `w` at least.
    pub read-run-tombstone :
        (w ttl : ℕ) (actions : List Action) (schema text : Bytes) (fv row neg : Option Bytes)
        → w < 2 ^ 64
        → 0 < ttl
        → All IsSent actions
        → All KeepsEntry actions
        → read server
            (run server key lease_key
              (tombstone_cas server db key (encode_version w) ttl).0
              actions)
            key
            schema
          ≡ some (hit text fv row neg)
        → ServesAtLeast w text
    read-run-tombstone w ttl actions schema text fv row neg hw live sent keeps h =
        served_after _ (apply_tombstone s w) w actions schema text fv row neg
          (marked_rep w ttl hw live) sent keeps (apply_tombstone-Guards s w rep.coherent) h

    -- An invalidation that is delivered late or again, at a version no higher than one that has
    -- run before, is refused and changes nothing, whatever ran in between, as long as the entry
    -- with the tombstone in it has neither expired nor been evicted.
    pub tombstone-run-tombstone :
        (w x ttl : ℕ) (actions : List Action)
        → w < 2 ^ 64
        → 0 < ttl
        → All IsSent actions
        → All KeepsEntry actions
        → x ≤ w
        → let db' =
            run server key lease_key
              (tombstone_cas server db key (encode_version w) ttl).0
              actions in
          tombstone_cas server db' key (encode_version x) ttl ≡ (db', reject)
    tombstone-run-tombstone w x ttl actions hw live sent keeps h =
        let (s', rep', g') =
          run-Guards server key lease_key w _ (apply_tombstone s w) actions sent keeps
            (marked_rep w ttl hw live) (apply_tombstone-Guards s w rep.coherent) in
        replayed _ s' w x ttl rep' g' h (omega arith) live

    -- Successive reads of a key do not go back: once a reader of any schema got an entry of row
    -- version `x`, a reader that gets an entry after any further sequence of script runs and lease
    -- expiries, in which the entry neither expires nor is evicted, gets one of row version `x` at
    -- least.
    pub read-run-read :
        (x : ℕ) (actions : List Action) (mine schema text : Bytes)
        (fv0 row0 neg0 fv row neg : Option Bytes)
        → x < 2 ^ 64
        → All IsSent actions
        → All KeepsEntry actions
        → read server db key mine ≡ some (hit (encode_version x) fv0 row0 neg0)
        → read server (run server key lease_key db actions) key schema ≡ some (hit text fv row neg)
        → ServesAtLeast x text
    unfolding Register.read
    read-run-read x actions mine schema text fv0 row0 neg0 fv row neg hx sent keeps first h =
        served_after db s x actions schema text fv row neg rep sent keeps
          (seen x s.value s.marker mine fv0 row0 neg0 hx
            (value-IsWordRow s.value s.marker rep.coherent)
            (sym (read-eq server key lease_key db s rep mine) ∙ first))
          h

    -- A fill wins exactly when its row version is not below the newest invalidation's and it is a
    -- newer row, or a newer snapshot of the same row, than the entry's. The next reader of the
    -- filled schema gets the filled row, field by field, after a fill that won, and a reader of
    -- another schema a miss; after a fill that lost, every reader gets what it got before.
    pub read-fill_cas :
        (r : Row) (ttl : ℕ) (token schema : Bytes)
        → 0 < ttl
        → r.version < 2 ^ 64
        → r.fill < 2 ^ 64
        → let result = fill_cas server db key lease_key (arguments r ttl token) in
          (result.1 ≡ (if fill_wins s r.version r.fill then apply else reject))
          × (read server result.0 key schema ≡ (
              if fill_wins s r.version r.fill
              then reply_for (of_schema schema (some r))
              else read server db key schema))
    unfolding fill_cas
    read-fill_cas r ttl token schema live hv hf = (
      verdict-fill server key lease_key db s rep r ttl token live hv hf
          ∙ decided_lem (fill_wins s r.version r.fill),
      read-eq server key lease_key (fill_cas server db key lease_key (arguments r ttl token)).0
            (apply_fill s r)
            (fill_cas-Represents server key lease_key db s rep r ttl token live hv hf) schema
          ∙ filled_read s r schema
          ∙ rw (read-eq server key lease_key db s rep schema),
    )
