-- ===== src/Cache/Script/View.antt =====
-- What each script does to every key: the commands are folded into one equation per script, and
-- clients need the server's laws no more.
use cachet.Cache.Redis.{
  Redis, Field, row_version, fill_version, row, negative, fingerprint, tombstone, field_eq,
}
use cachet.Cache.Script.{Fill, release_lease, write_row, write_marker}
use cachet.Base.{
  ℕ, ◌<◌, ◌≡◌, refl, ◌∙◌, false, Option, none, some, arith, if◌then◌else◌, Option-cases, Bytes,
  bytes_eq, bytes_eq_refl,
}

-- The fields that an applied fill leaves, and those that an applied tombstone leaves.
abbrev pub filled : Fill → Field → Option Bytes → Option Bytes
filled a row_version old = some a.version
filled a fill_version old = some a.fill
filled a row old = some a.encoded
filled a negative old = some a.is_negative
filled a fingerprint old = some a.schema
filled a tombstone old = old

abbrev pub marked : Bytes → Field → Option Bytes
marked version tombstone = some version
marked version _ = none

filled_cases :
    (a : Fill) (g : Field) (old : Option Bytes)
    → (if field_eq fingerprint g
        then some a.schema
        else if field_eq negative g
        then some a.is_negative
        else if field_eq row g
        then some a.encoded
        else if field_eq fill_version g
        then some a.fill
        else if field_eq row_version g
        then some a.version
        else old)
      ≡ filled a g old
filled_cases a row_version old = refl
filled_cases a _ old = refl

marked_cases :
    (version : Bytes) (g : Field) (old : Option Bytes)
    → (if field_eq fingerprint g
        then none
        else if field_eq negative g
        then none
        else if field_eq row g
        then none
        else if field_eq fill_version g
        then none
        else if field_eq row_version g
        then none
        else if field_eq tombstone g
        then some version
        else old)
      ≡ marked version g
marked_cases version row_version old = refl
marked_cases version _ old = refl

module _ (server : Redis) where
  open server use {
    Db, hget, hset, hdel, get, del, pexpire, hget-hset, get-hset, hget-hdel, get-hdel, hget-del,
    get-del, hget-pexpire, get-pexpire,
  }

  -- The entry key never holds a string, and the lease key is another key.
  pub record IsEntryKey (db : Db) (key lease_key : Bytes) : Type 0 where
    pub no_string : get db key ≡ none
    pub apart : bytes_eq lease_key key ≡ false

  hset_lem :
      (db : Db) (key : Bytes) (f g : Field) (x : Bytes)
      → get db key ≡ none
      → hget (hset db key f x) key g ≡ (if field_eq f g then some x else hget db key g)
  hset_lem db key f g x h = rw (hget-hset db key key f g x h, bytes_eq_refl key)

  hdel_lem :
      (db : Db) (key : Bytes) (f g : Field)
      → get db key ≡ none
      → hget (hdel db key f) key g ≡ (if field_eq f g then none else hget db key g)
  hdel_lem db key f g h = rw (hget-hdel db key key f g h, bytes_eq_refl key)

  hset_kept :
      (db : Db) (key : Bytes) (f : Field) (x : Bytes)
      → get db key ≡ none
      → get (hset db key f x) key ≡ none
  hset_kept db key f x h = get-hset db key key f x ∙ h

  hdel_kept :
      (db : Db) (key : Bytes) (f : Field) → get db key ≡ none → get (hdel db key f) key ≡ none
  hdel_kept db key f h = get-hdel db key key f ∙ h

  module _ (db : Db) (key : Bytes) (h : get db key ≡ none) where
    pub hget-write_row :
        (a : Fill) (g : Field)
        → 0 < a.ttl
        → hget (write_row server db key a) key g ≡ filled a g (hget db key g)
    hget-write_row a g live =
        let db1 = hset db key row_version a.version in
        let db2 = hset db1 key fill_version a.fill in
        let db3 = hset db2 key row a.encoded in
        let db4 = hset db3 key negative a.is_negative in
        let h1 = hset_kept db key row_version a.version h in
        let h2 = hset_kept db1 key fill_version a.fill h1 in
        let h3 = hset_kept db2 key row a.encoded h2 in
        let h4 = hset_kept db3 key negative a.is_negative h3 in
        hget-pexpire (hset db4 key fingerprint a.schema) key key g a.ttl live
        ∙ hset_lem db4 key fingerprint g a.schema h4
        ∙ rw
            (
              hset_lem db3 key negative g a.is_negative h3,
              hset_lem db2 key row g a.encoded h2,
              hset_lem db1 key fill_version g a.fill h1,
              hset_lem db key row_version g a.version h,
            )
            (filled_cases a g (hget db key g))

    pub hget-write_marker :
        (version : Bytes) (ttl : ℕ) (g : Field)
        → 0 < ttl
        → hget (write_marker server db key version ttl) key g ≡ marked version g
    hget-write_marker version ttl g live =
        let db0 = hset db key tombstone version in
        let db1 = hdel db0 key row_version in
        let db2 = hdel db1 key fill_version in
        let db3 = hdel db2 key row in
        let db4 = hdel db3 key negative in
        let h0 = hset_kept db key tombstone version h in
        let h1 = hdel_kept db0 key row_version h0 in
        let h2 = hdel_kept db1 key fill_version h1 in
        let h3 = hdel_kept db2 key row h2 in
        let h4 = hdel_kept db3 key negative h3 in
        hget-pexpire (hdel db4 key fingerprint) key key g ttl live
        ∙ hdel_lem db4 key fingerprint g h4
        ∙ rw
            (
              hdel_lem db3 key negative g h3,
              hdel_lem db2 key row g h2,
              hdel_lem db1 key fill_version g h1,
              hdel_lem db0 key row_version g h0,
              hset_lem db key tombstone g version h,
            )
            (marked_cases version g (hget db key g))

  pub hget-release_lease :
      (db : Db) (key lease_key token : Bytes) (g : Field)
      → bytes_eq lease_key key ≡ false
      → hget (release_lease server db lease_key token) key g ≡ hget db key g
  unfolding release_lease
  hget-release_lease db key lease_key token g apart =
      ground (arith, hget-del db lease_key key g, Option-cases (get db lease_key))

  pub get-release_lease :
      (db : Db) (key lease_key token : Bytes)
      → bytes_eq lease_key key ≡ false
      → get (release_lease server db lease_key token) key ≡ get db key
  unfolding release_lease
  get-release_lease db key lease_key token apart =
      ground (arith, get-del db lease_key key, Option-cases (get db lease_key))

  pub get-write_row :
      (db : Db) (key j : Bytes) (a : Fill)
      → 0 < a.ttl
      → get (write_row server db key a) j ≡ get db j
  get-write_row db key j a live = rw (get-pexpire _ key j a.ttl live) (simp get-hset)

  pub get-write_marker :
      (db : Db) (key j version : Bytes) (ttl : ℕ)
      → 0 < ttl
      → get (write_marker server db key version ttl) j ≡ get db j
  get-write_marker db key j version ttl live =
      rw (get-pexpire _ key j ttl live) (simp (get-hset, get-hdel))
