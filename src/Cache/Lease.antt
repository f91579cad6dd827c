-- ===== src/Cache/Lease.antt =====
-- The lease: who may fill a key, and who hands it back.
pub mod Exclusion
use cachet.Cache.Redis.{Redis, Field, row_version, tombstone}
use cachet.Cache.Register.{Register, empty}
use cachet.Cache.Script.{
  LeaseReply, hit, granted, wait, Fill, fill_cas, read, read_lease, or_lease, take_lease,
}
use cachet.Cache.Script.View.{IsEntryKey}
use cachet.Cache.Script.Represents.{Represents, Represents-frame}
use cachet.Base.{
  ℕ, zero, suc, ◌+◌, ◌-◌, ◌*◌, ◌/◌, ◌%◌, ◌^◌, ◌≤◌, ◌<◌, min, max, bit_and, bit_or, bit_xor, ◌≡◌,
  refl, sym, ap, ◌∙◌, ◌≢◌, ◌↔◌, ◌⊎◌, inl, inr, Bool, true, false, not, ◌&&◌, ◌||◌, Option, none,
  some, List, [], ◌∷◌, ◌++◌, map, append_assoc, append-nil, arith, ltb, leb, ◌==◌, if◌then◌else◌,
  ltb→lt, lt→ltb, le→ltb, leb→le, le→leb, ==_iff, ==_refl, tests, Bool-cases, Option-cases, &&_true,
  length, get_elem?, get_or, set, take, drop, replicate, All, length-append, take_append,
  drop_append, length-replicate, All-append, Bytes, IsByte, ascii, bytes_eq, bytes_lt, bytes_le,
  eq_of_bytes_eq, bytes_eq_refl, bytes_eq_iff, bytes_eq_ne, Result, ok, err, ◌>>=◌, ◌>>◌, require,
}

module _ (server : Redis) (key lease_key : Bytes) where
  open server use {Db, hget, get, set_nx, del, hget-set_nx, get-set_nx, hget-del, get-del}

  taken-Represents :
      (db : Db) (s : Register) (o : Option Db) (token : Bytes) (ttl : ℕ)
      → Represents server key lease_key db s
      → set_nx db lease_key token ttl ≡ o
      → Represents server key lease_key (take_lease server db o).0 s
  taken-Represents db s none token ttl rep e = rep
  taken-Represents db s (some db') token ttl rep e =
      Represents-frame server key lease_key db db' s
        (get-set_nx db db' lease_key key token ttl e ∙ rw rep.entry_key.apart)
        (λ g. hget-set_nx db db' lease_key key token g ttl e rep.entry_key.apart) rep

  answered-Represents :
      (db : Db) (s : Register) (o : Option LeaseReply) (token : Bytes) (ttl : ℕ)
      → Represents server key lease_key db s
      → Represents server key lease_key (or_lease server db lease_key token ttl o).0 s
  answered-Represents db s none token ttl rep =
      taken-Represents db s (set_nx db lease_key token ttl) token ttl rep refl
  answered-Represents db s (some reply) token ttl rep = rep

  module _ (db : Db) (s : Register) (rep : Represents server key lease_key db s) where
    -- Taking a lease leaves the entry alone.
    pub read_lease-Represents :
        (token : Bytes) (ttl : ℕ) (schema : Bytes)
        → Represents server key lease_key (read_lease server db key lease_key token ttl schema).0 s
    unfolding read_lease
    read_lease-Represents token ttl schema =
        answered-Represents db s (read server db key schema) token ttl rep

    -- So does the end of a lease.
    pub expiry-Represents : Represents server key lease_key (del db lease_key) s
    expiry-Represents =
        Represents-frame server key lease_key db (del db lease_key) s
          (get-del db lease_key key ∙ rw rep.entry_key.apart)
          (λ g. hget-del db lease_key key g ∙ rw rep.entry_key.apart) rep

    -- Without its entry the key represents the empty register.
    pub loss-Represents : Represents server key lease_key (del db key) empty
    loss-Represents =
        let gone : (g : Field) → hget (del db key) key g ≡ none =
          λ g. hget-del db key key g ∙ rw (bytes_eq_refl key) refl in
        record {
          entry_key = record {
            no_string = get-del db key key ∙ rw (bytes_eq_refl key) refl;
            apart = rep.entry_key.apart;
          };
          version = gone row_version;
          marker = gone tombstone;
          fields = tt;
          coherent = tt;
        }
