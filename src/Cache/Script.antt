-- ===== src/Cache/Script.antt =====
-- internal/cache/lua: the four scripts. The server runs each one without interruption; a script's
-- effects are those of its commands in order.
pub mod View
pub mod Effect
pub mod Refine
pub mod Represents
use cachet.Cache.Redis.{
  Redis, Field, row_version, fill_version, row, negative, fingerprint, tombstone,
}
use cachet.Base.{
  ℕ, zero, suc, ◌+◌, ◌-◌, ◌*◌, ◌/◌, ◌%◌, ◌^◌, ◌≤◌, ◌<◌, min, max, bit_and, bit_or, bit_xor, ◌≡◌,
  refl, sym, ap, ◌∙◌, ◌≢◌, ◌↔◌, ◌⊎◌, inl, inr, Bool, true, false, not, ◌&&◌, ◌||◌, Option, none,
  some, List, [], ◌∷◌, ◌++◌, map, append_assoc, append-nil, arith, ltb, leb, ◌==◌, if◌then◌else◌,
  ltb→lt, lt→ltb, le→ltb, leb→le, le→leb, ==_iff, ==_refl, tests, Bool-cases, Option-cases, &&_true,
  length, get_elem?, get_or, set, take, drop, replicate, All, length-append, take_append,
  drop_append, length-replicate, All-append, Bytes, IsByte, ascii, bytes_eq, bytes_lt, bytes_le,
  eq_of_bytes_eq, bytes_eq_refl, bytes_eq_iff, bytes_eq_ne, Result, ok, err, ◌>>=◌, ◌>>◌, require,
}

-- What a compare-and-set decides: `fail` is the error that Lua raises on comparing a missing fill
-- version with text.
pub data Verdict : Type 0 where
  apply reject fail : Verdict

-- `tv and ARGV[1] < tv`
abbrev pub older_than : Bytes → Option Bytes → Bool
older_than version none = false
older_than version (some held) = bytes_lt version held

-- `rv and ARGV[1] <= rv`
abbrev pub not_newer_than : Bytes → Option Bytes → Bool
not_newer_than version none = false
not_newer_than version (some held) = bytes_le version held

-- On the same row version only a fresher snapshot is worth writing.
abbrev pub refresh_verdict : Bytes → Option Bytes → Verdict
refresh_verdict fill none = fail
refresh_verdict fill (some held) = if bytes_le fill held then reject else apply

abbrev pub present_verdict : Option Bytes → Option Bytes → Bytes → Bytes → Verdict
present_verdict none fv version fill = apply
present_verdict (some rv) fv version fill =
    if bytes_lt version rv
    then reject
    else if bytes_eq version rv
    then refresh_verdict fill fv
    else apply

-- The tests of fill_cas.lua, on what HMGET returned.
unfoldable pub fill_verdict : Option Bytes → Option Bytes → Option Bytes → Bytes → Bytes → Verdict
fill_verdict rv fv tv version fill =
    if older_than version tv then reject else present_verdict rv fv version fill

-- The tests of tombstone_cas.lua.
unfoldable pub tombstone_verdict : Option Bytes → Option Bytes → Bytes → Verdict
tombstone_verdict rv tv version =
    if not_newer_than version rv
    then reject
    else if not_newer_than version tv
    then reject
    else apply

-- ARGV of fill_cas.lua; an empty token stands for a filler that holds no lease.
pub record Fill : Type 0 where
  pub version : Bytes
  pub fill : Bytes
  pub encoded : Bytes
  pub is_negative : Bytes
  pub ttl : ℕ
  pub schema : Bytes
  pub token : Bytes

-- The reply of read_lease.lua.
pub data LeaseReply : Type 0 where
  hit : Bytes → Option Bytes → Option Bytes → Option Bytes → LeaseReply
  granted wait : LeaseReply

module _ (server : Redis) where
  open server use {Db, hget, hset, hdel, get, set_nx, del, pexpire}

  abbrev release_held : Db → Bytes → Bytes → Option Bytes → Db
  release_held db lease_key token none = db
  release_held db lease_key token (some held) = if bytes_eq held token then del db lease_key else db

  -- `releaseLease`
  unfoldable pub release_lease : Db → Bytes → Bytes → Db
  release_lease db lease_key token =
      if bytes_eq token [] then db else release_held db lease_key token (get db lease_key)

  abbrev pub write_row : Db → Bytes → Fill → Db
  write_row db key a =
      let db1 = hset db key row_version a.version in
      let db2 = hset db1 key fill_version a.fill in
      let db3 = hset db2 key row a.encoded in
      let db4 = hset db3 key negative a.is_negative in
      pexpire (hset db4 key fingerprint a.schema) key a.ttl

  abbrev pub finish_fill : Db → Bytes → Bytes → Fill → Verdict → Db
  finish_fill db key lease_key a apply = release_lease (write_row db key a) lease_key a.token
  finish_fill db key lease_key a reject = release_lease db lease_key a.token
  finish_fill db key lease_key a fail = db

  unfoldable pub fill_cas : Db → Bytes → Bytes → Fill → Db × Verdict
  fill_cas db key lease_key a =
      let verdict =
        fill_verdict (hget db key row_version) (hget db key fill_version) (hget db key tombstone)
          a.version a.fill in
      (finish_fill db key lease_key a verdict, verdict)

  abbrev pub write_marker : Db → Bytes → Bytes → ℕ → Db
  write_marker db key version ttl =
      let db1 = hdel (hset db key tombstone version) key row_version in
      let db2 = hdel db1 key fill_version in
      let db3 = hdel db2 key row in
      let db4 = hdel db3 key negative in pexpire (hdel db4 key fingerprint) key ttl

  abbrev pub finish_tombstone : Db → Bytes → Bytes → ℕ → Verdict → Db
  finish_tombstone db key version ttl apply = write_marker db key version ttl
  finish_tombstone db key version ttl reject = db
  finish_tombstone db key version ttl fail = db

  unfoldable pub tombstone_cas : Db → Bytes → Bytes → ℕ → Db × Verdict
  tombstone_cas db key version ttl =
      let verdict = tombstone_verdict (hget db key row_version) (hget db key tombstone) version in
      (finish_tombstone db key version ttl verdict, verdict)

  -- `e[5] == ARGV[..]`: a missing field equals no text.
  abbrev same_schema : Option Bytes → Bytes → Bool
  same_schema none schema = false
  same_schema (some held) schema = bytes_eq held schema

  abbrev pub reply_of : Db → Bytes → Bytes → Option Bytes → Option LeaseReply
  reply_of db key schema none = none
  reply_of db key schema (some version) =
      if same_schema (hget db key fingerprint) schema
      then some (hit version (hget db key fill_version) (hget db key row) (hget db key negative))
      else none

  -- read.lua: `none` is the empty reply, a miss.
  unfoldable pub read : Db → Bytes → Bytes → Option LeaseReply
  read db key schema = reply_of db key schema (hget db key row_version)

  abbrev pub take_lease : Db → Option Db → Db × LeaseReply
  take_lease db none = (db, wait)
  take_lease db (some db') = (db', granted)

  abbrev pub or_lease : Db → Bytes → Bytes → ℕ → Option LeaseReply → Db × LeaseReply
  or_lease db lease_key token ttl (some reply) = (db, reply)
  or_lease db lease_key token ttl none = take_lease db (set_nx db lease_key token ttl)

  -- read_lease.lua
  unfoldable pub read_lease : Db → Bytes → Bytes → Bytes → ℕ → Bytes → Db × LeaseReply
  unfolding read
  read_lease db key lease_key token ttl schema =
      or_lease db lease_key token ttl (read db key schema)
