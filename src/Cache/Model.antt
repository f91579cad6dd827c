-- ===== src/Cache/Model.antt =====
-- A server that meets the laws: hashes and strings as functions.
use cachet.Cache.Redis.{
  Redis, Field, row_version, fill_version, row, negative, fingerprint, tombstone, same_place,
}
use cachet.Base.{
  ℕ, ◌<◌, ◌≡◌, refl, sym, ap, ◌∙◌, ◌≢◌, inl, inr, Bool, true, false, ◌||◌, Option, none, some,
  arith, if◌then◌else◌, Bool-cases, Bytes, bytes_eq,
}

pub record Store : Type 0 where
  pub hashes : Bytes → Field → Option Bytes
  pub strings : Bytes → Option Bytes

abbrev pub empty_store : Store
empty_store = record { hashes = λ k f. none; strings = λ k. none }

abbrev pub is_some : Option Bytes → Bool
is_some none = false
is_some (some x) = true

abbrev pub exists : Store → Bytes → Bool
exists db k =
    is_some (db.strings k)
    || is_some (db.hashes k row_version)
    || is_some (db.hashes k fill_version)
    || is_some (db.hashes k row)
    || is_some (db.hashes k negative)
    || is_some (db.hashes k fingerprint)
    || is_some (db.hashes k tombstone)

abbrev pub put_string : Store → Bytes → Bytes → Store
put_string db k x = record db { strings = λ j. if bytes_eq k j then some x else db.strings j }

abbrev pub set_nx : Store → Bytes → Bytes → ℕ → Option Store
set_nx db k x ttl = if exists db k then none else some (put_string db k x)

pub set_nx_held :
    (db : Store) (k x held : Bytes) (ttl : ℕ) → db.strings k ≡ some held → set_nx db k x ttl ≡ none
set_nx_held db k x held ttl h = rw h

pub set_nx_absent :
    (db : Store) (k x : Bytes) (ttl : ℕ)
    → 0 < ttl
    → db.strings k ≡ none
    → ((g : Field) → db.hashes k g ≡ none)
    → set_nx db k x ttl ≢ none
set_nx_absent db k x ttl live h hs =
    rw (h, hs row_version, hs fill_version, hs row, hs negative, hs fingerprint, hs tombstone)
      (λ e. ground arith)

some_ne_none : (db : Store) → some db ≡ none → ⊥
some_ne_none db e = cc

abbrev strings_of : Option Store → Bytes → Option Bytes
strings_of none j = none
strings_of (some db) j = db.strings j

abbrev hashes_of : Option Store → Bytes → Field → Option Bytes
hashes_of none j g = none
hashes_of (some db) j g = db.hashes j g

pub get_set_nx :
    (db db' : Store) (k j x : Bytes) (ttl : ℕ)
    → set_nx db k x ttl ≡ some db'
    → db'.strings j ≡ (if bytes_eq k j then some x else db.strings j)
get_set_nx db db' k j x ttl h = elim (Bool-cases (exists db k)) [
  | inl taken ↦
      let refused : set_nx db k x ttl ≡ none = rw taken in
      absurd (some_ne_none db' (sym h ∙ refused))
  | inr free ↦
      let done : set_nx db k x ttl ≡ some (put_string db k x) = rw free in
      ap (λ o. strings_of o j) (sym h ∙ done)
]

pub hget_set_nx :
    (db db' : Store) (k j x : Bytes) (g : Field) (ttl : ℕ)
    → set_nx db k x ttl ≡ some db'
    → db'.hashes j g ≡ db.hashes j g
hget_set_nx db db' k j x g ttl h = elim (Bool-cases (exists db k)) [
  | inl taken ↦
      let refused : set_nx db k x ttl ≡ none = rw taken in
      absurd (some_ne_none db' (sym h ∙ refused))
  | inr free ↦
      let done : set_nx db k x ttl ≡ some (put_string db k x) = rw free in
      ap (λ o. hashes_of o j g) (sym h ∙ done)
]

abbrev pub server : Redis
server = record {
  Db = Store;
  hget = λ db k f. db.hashes k f;
  hset = λ db k f x. record db {
    hashes = λ j g. if same_place k f j g then some x else db.hashes j g;
  };
  hdel = λ db k f. record db { hashes = λ j g. if same_place k f j g then none else db.hashes j g };
  get = λ db k. db.strings k;
  set_nx = set_nx;
  del = λ db k. record {
    hashes = λ j g. if bytes_eq k j then none else db.hashes j g;
    strings = λ j. if bytes_eq k j then none else db.strings j;
  };
  pexpire = λ db k ttl. db;
  hget-hset = λ db k j f g x h. refl;
  get-hset = λ db k j f x. refl;
  hget-hdel = λ db k j f g h. refl;
  get-hdel = λ db k j f. refl;
  hget-del = λ db k j g. refl;
  get-del = λ db k j. refl;
  hget-pexpire = λ db k j g ttl h. refl;
  get-pexpire = λ db k j ttl h. refl;
  set_nx-held = set_nx_held;
  set_nx-absent = set_nx_absent;
  get-set_nx = get_set_nx;
  hget-set_nx = λ db db' k j x g ttl h other. hget_set_nx db db' k j x g ttl h;
}
