-- ===== src/Cache/Redis.antt =====
-- The cache server's commands that the scripts call, as the server documents them. The server is
-- not part of the repository: it is a parameter.
use cachet.Base.{
  ℕ, ◌<◌, ◌≡◌, ◌≢◌, Bool, false, ◌&&◌, Option, none, some, ◌==◌, if◌then◌else◌, Bytes, bytes_eq,
}

-- The fields of an entry's hash.
pub data Field : Type 0 where
  row_version fill_version row negative fingerprint tombstone : Field

abbrev pub field_index : Field → ℕ
field_index row_version = 0
field_index fill_version = 1
field_index row = 2
field_index negative = 3
field_index fingerprint = 4
field_index tombstone = 5

abbrev pub field_eq : Field → Field → Bool
field_eq f g = field_index f == field_index g

abbrev pub same_place : Bytes → Field → Bytes → Field → Bool
same_place k f j g = bytes_eq k j && field_eq f g

-- A key holds a hash or a string; `hget` and `get` are `none` where it does not exist or holds the
-- other kind. HSET and HDEL are refused on a string, so their laws have that premise. PEXPIRE
-- with a positive time changes no value; what it schedules is a later `del`.
pub record Redis : Type 1 where
  pub Db : Type 0
  pub hget : Db → Bytes → Field → Option Bytes
  pub hset : Db → Bytes → Field → Bytes → Db
  pub hdel : Db → Bytes → Field → Db
  pub get : Db → Bytes → Option Bytes
  -- SET NX PX: `none` is the nil reply, and stands for the error that a time of zero is; both leave
  -- the database as it is.
  pub set_nx : Db → Bytes → Bytes → ℕ → Option Db
  pub del : Db → Bytes → Db
  pub pexpire : Db → Bytes → ℕ → Db
  pub hget-hset :
      (db : Db) (k j : Bytes) (f g : Field) (x : Bytes)
      → get db k ≡ none
      → hget (hset db k f x) j g ≡ (if same_place k f j g then some x else hget db j g)
  pub get-hset : (db : Db) (k j : Bytes) (f : Field) (x : Bytes) → get (hset db k f x) j ≡ get db j
  pub hget-hdel :
      (db : Db) (k j : Bytes) (f g : Field)
      → get db k ≡ none
      → hget (hdel db k f) j g ≡ (if same_place k f j g then none else hget db j g)
  pub get-hdel : (db : Db) (k j : Bytes) (f : Field) → get (hdel db k f) j ≡ get db j
  pub hget-del :
      (db : Db) (k j : Bytes) (g : Field)
      → hget (del db k) j g ≡ (if bytes_eq k j then none else hget db j g)
  pub get-del :
      (db : Db) (k j : Bytes) → get (del db k) j ≡ (if bytes_eq k j then none else get db j)
  pub hget-pexpire :
      (db : Db) (k j : Bytes) (g : Field) (ttl : ℕ)
      → 0 < ttl
      → hget (pexpire db k ttl) j g ≡ hget db j g
  pub get-pexpire :
      (db : Db) (k j : Bytes) (ttl : ℕ) → 0 < ttl → get (pexpire db k ttl) j ≡ get db j
  pub set_nx-held :
      (db : Db) (k x held : Bytes) (ttl : ℕ) → get db k ≡ some held → set_nx db k x ttl ≡ none
  pub set_nx-absent :
      (db : Db) (k x : Bytes) (ttl : ℕ)
      → 0 < ttl
      → get db k ≡ none
      → ((g : Field) → hget db k g ≡ none)
      → set_nx db k x ttl ≢ none
  pub get-set_nx :
      (db db' : Db) (k j x : Bytes) (ttl : ℕ)
      → set_nx db k x ttl ≡ some db'
      → get db' j ≡ (if bytes_eq k j then some x else get db j)
  pub hget-set_nx :
      (db db' : Db) (k j x : Bytes) (g : Field) (ttl : ℕ)
      → set_nx db k x ttl ≡ some db'
      → bytes_eq k j ≡ false
      → hget db' j g ≡ hget db j g
