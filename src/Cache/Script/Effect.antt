-- ===== src/Cache/Script/Effect.antt =====
-- The effect of a whole script on the entry's fields, by what its compare-and-set decided.
use cachet.Cache.Redis.{Redis, Field, row_version, fill_version, tombstone}
use cachet.Cache.Script.{
  Verdict, apply, reject, fail, Fill, fill_cas, tombstone_cas, write_row, finish_fill,
  finish_tombstone, fill_verdict, tombstone_verdict,
}
use cachet.Cache.Script.View.{
  filled, marked, IsEntryKey, hget-release_lease, get-release_lease, get-write_row,
  get-write_marker, hget-write_row, hget-write_marker,
}
use cachet.Base.{ℕ, ◌<◌, ◌≡◌, refl, ◌∙◌, Option, none, Bytes}

-- The fields after a fill, and after a tombstone, by what the compare-and-set decided.
abbrev pub fill_effect : Verdict → Fill → Field → Option Bytes → Option Bytes
fill_effect apply a g old = filled a g old
fill_effect reject a g old = old
fill_effect fail a g old = old

abbrev pub tombstone_effect : Verdict → Bytes → Field → Option Bytes → Option Bytes
tombstone_effect apply version g old = marked version g
tombstone_effect reject version g old = old
tombstone_effect fail version g old = old

module _ (server : Redis) where
  open server use {Db, hget, get}

  abbrev pub verdict_of_fill : Db → Bytes → Fill → Verdict
  verdict_of_fill db key a =
      fill_verdict (hget db key row_version) (hget db key fill_version) (hget db key tombstone)
        a.version a.fill

  abbrev pub verdict_of_tombstone : Db → Bytes → Bytes → Verdict
  verdict_of_tombstone db key version =
      tombstone_verdict (hget db key row_version) (hget db key tombstone) version

  finish_fill_effect :
      (db : Db) (key lease_key : Bytes) (a : Fill) (g : Field) (d : Verdict)
      → IsEntryKey server db key lease_key
      → 0 < a.ttl
      → hget (finish_fill server db key lease_key a d) key g ≡ fill_effect d a g (hget db key g)
  finish_fill_effect db key lease_key a g apply k live =
      hget-release_lease server (write_row server db key a) key lease_key a.token g k.apart
      ∙ hget-write_row server db key k.no_string a g live
  finish_fill_effect db key lease_key a g reject k live =
      hget-release_lease server db key lease_key a.token g k.apart
  finish_fill_effect db key lease_key a g fail k live = refl

  finish_fill_key :
      (db : Db) (key lease_key : Bytes) (a : Fill) (d : Verdict)
      → IsEntryKey server db key lease_key
      → 0 < a.ttl
      → get (finish_fill server db key lease_key a d) key ≡ none
  finish_fill_key db key lease_key a apply k live =
      get-release_lease server (write_row server db key a) key lease_key a.token k.apart
      ∙ get-write_row server db key key a live
      ∙ k.no_string
  finish_fill_key db key lease_key a reject k live =
      get-release_lease server db key lease_key a.token k.apart ∙ k.no_string
  finish_fill_key db key lease_key a fail k live = k.no_string

  -- A fill changes the entry's fields exactly as its verdict says.
  pub hget-fill_cas :
      (db : Db) (key lease_key : Bytes) (a : Fill) (g : Field)
      → IsEntryKey server db key lease_key
      → 0 < a.ttl
      → hget (fill_cas server db key lease_key a).0 key g
        ≡ fill_effect (verdict_of_fill db key a) a g (hget db key g)
  unfolding fill_cas
  hget-fill_cas db key lease_key a g k live =
      finish_fill_effect db key lease_key a g (verdict_of_fill db key a) k live

  pub fill_cas-IsEntryKey :
      (db : Db) (key lease_key : Bytes) (a : Fill)
      → IsEntryKey server db key lease_key
      → 0 < a.ttl
      → IsEntryKey server (fill_cas server db key lease_key a).0 key lease_key
  unfolding fill_cas
  fill_cas-IsEntryKey db key lease_key a k live = record {
    no_string = finish_fill_key db key lease_key a (verdict_of_fill db key a) k live;
    apart = k.apart;
  }

  finish_tombstone_effect :
      (db : Db) (key version : Bytes) (ttl : ℕ) (g : Field) (d : Verdict)
      → get db key ≡ none
      → 0 < ttl
      → hget (finish_tombstone server db key version ttl d) key g
        ≡ tombstone_effect d version g (hget db key g)
  finish_tombstone_effect db key version ttl g apply k live =
      hget-write_marker server db key k version ttl g live
  finish_tombstone_effect db key version ttl g reject k live = refl
  finish_tombstone_effect db key version ttl g fail k live = refl

  finish_tombstone_get :
      (db : Db) (key j version : Bytes) (ttl : ℕ) (d : Verdict)
      → 0 < ttl
      → get (finish_tombstone server db key version ttl d) j ≡ get db j
  finish_tombstone_get db key j version ttl apply live =
      get-write_marker server db key j version ttl live
  finish_tombstone_get db key j version ttl reject live = refl
  finish_tombstone_get db key j version ttl fail live = refl

  -- A tombstone changes the entry's fields exactly as its verdict says.
  pub hget-tombstone_cas :
      (db : Db) (key version : Bytes) (ttl : ℕ) (g : Field)
      → get db key ≡ none
      → 0 < ttl
      → hget (tombstone_cas server db key version ttl).0 key g
        ≡ tombstone_effect (verdict_of_tombstone db key version) version g (hget db key g)
  unfolding tombstone_cas
  hget-tombstone_cas db key version ttl g k live =
      finish_tombstone_effect db key version ttl g (verdict_of_tombstone db key version) k live

  pub get-tombstone_cas :
      (db : Db) (key j version : Bytes) (ttl : ℕ)
      → 0 < ttl
      → get (tombstone_cas server db key version ttl).0 j ≡ get db j
  unfolding tombstone_cas
  get-tombstone_cas db key j version ttl live =
      finish_tombstone_get db key j version ttl (verdict_of_tombstone db key version) live
