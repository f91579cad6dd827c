-- ===== src/Cache/Trace.antt =====
-- Sequences of script runs on one key, by any number of engines and tailers: the server runs one
-- script at a time, so an interleaving is a list. Between scripts the server may drop the lease or the
-- entry, whose times PX and PEXPIRE set, and it may evict the entry.
pub mod Invalidation
use cachet.Cache.Version.{encode_version}
use cachet.Cache.Redis.{Redis}
use cachet.Cache.Register
use cachet.Cache.Register.{
  Row, Register, empty, apply_fill, apply_tombstone, tombstone_wins, of_schema,
}
use cachet.Cache.Register.Guard.{
  Guards, Guards-apply_fill, Guards-apply_tombstone, apply_tombstone-Guards, tombstone-below-Guards,
}
use cachet.Cache.Script.{
  LeaseReply, hit, granted, wait, Verdict, reject, fill_cas, tombstone_cas, read, read_lease,
}
use cachet.Cache.Script.Represents.{
  Represents, arguments, fill_cas-Represents, tombstone_cas-Represents, verdict-tombstone, read-eq,
  reply_for,
}
use cachet.Cache.Lease.{read_lease-Represents, expiry-Represents, loss-Represents}
use cachet.Base.{
  ℕ, zero, suc, ◌+◌, ◌-◌, ◌*◌, ◌/◌, ◌%◌, ◌^◌, ◌≤◌, ◌<◌, min, max, bit_and, bit_or, bit_xor, ◌≡◌,
  refl, sym, ap, ◌∙◌, ◌≢◌, ◌↔◌, ◌⊎◌, inl, inr, Bool, true, false, not, ◌&&◌, ◌||◌, Option, none,
  some, List, [], ◌∷◌, ◌++◌, map, append_assoc, append-nil, arith, ltb, leb, ◌==◌, if◌then◌else◌,
  ltb→lt, lt→ltb, le→ltb, leb→le, le→leb, ==_iff, ==_refl, tests, Bool-cases, Option-cases, &&_true,
  length, get_elem?, get_or, set, take, drop, replicate, All, length-append, take_append,
  drop_append, length-replicate, All-append, Bytes, IsByte, ascii, bytes_eq, bytes_lt, bytes_le,
  eq_of_bytes_eq, bytes_eq_refl, bytes_eq_iff, bytes_eq_ne, Result, ok, err, ◌>>=◌, ◌>>◌, require,
}

-- `expire_lease` is the server dropping a lease whose time has run out, `lose_entry` the server
-- dropping the entry, with the tombstone in it, when its time has run out or it is evicted.
pub data Action : Type 0 where
  fill_action : Row → ℕ → Bytes → Action
  tombstone_action : ℕ → ℕ → Action
  lease_action : Bytes → ℕ → Bytes → Action
  expire_lease : Action
  lose_entry : Action

-- 64-bit versions and a positive time to live.
abbrev pub IsSent : Action → Type 0
IsSent (fill_action r ttl token) = (r.version < 2 ^ 64) × (r.fill < 2 ^ 64) × (0 < ttl)
IsSent (tombstone_action x ttl) = (x < 2 ^ 64) × (0 < ttl)
IsSent (lease_action token ttl schema) = Unit {0}
IsSent expire_lease = Unit {0}
IsSent lose_entry = Unit {0}

-- Every action but the loss of the entry.
abbrev pub KeepsEntry : Action → Type 0
KeepsEntry (fill_action r ttl token) = Unit {0}
KeepsEntry (tombstone_action x ttl) = Unit {0}
KeepsEntry (lease_action token ttl schema) = Unit {0}
KeepsEntry expire_lease = Unit {0}
KeepsEntry lose_entry = ⊥

abbrev pub act_register : Register → Action → Register
act_register s (fill_action r ttl token) = apply_fill s r
act_register s (tombstone_action x ttl) = apply_tombstone s x
act_register s (lease_action token ttl schema) = s
act_register s expire_lease = s
act_register s lose_entry = empty

Guards-act :
    (w : ℕ) (s : Register) (a : Action) → KeepsEntry a → Guards w s → Guards w (act_register s a)
Guards-act w s (fill_action r ttl token) keeps g = Guards-apply_fill w s r g
Guards-act w s (tombstone_action x ttl) keeps g = Guards-apply_tombstone w s x g
Guards-act w s (lease_action token ttl schema) keeps g = g
Guards-act w s expire_lease keeps g = g
Guards-act w s lose_entry keeps g = absurd keeps

module _ (server : Redis) (key lease_key : Bytes) where
  open server use {Db, del}

  unfoldable pub act : Db → Action → Db
  act db (fill_action r ttl token) = (fill_cas server db key lease_key (arguments r ttl token)).0
  act db (tombstone_action x ttl) = (tombstone_cas server db key (encode_version x) ttl).0
  act db (lease_action token ttl schema) = (read_lease server db key lease_key token ttl schema).0
  act db expire_lease = del db lease_key
  act db lose_entry = del db key

  unfoldable pub run : Db → List Action → Db
  unfolding act
  run db [] = db
  run db (a ∷ actions) = run (act db a) actions

  act-Represents :
      (db : Db) (s : Register) (a : Action)
      → IsSent a
      → Represents server key lease_key db s
      → Represents server key lease_key (act db a) (act_register s a)
  unfolding act
  act-Represents db s (fill_action r ttl token) sent rep =
      fill_cas-Represents server key lease_key db s rep r ttl token sent.2 sent.0 sent.1
  act-Represents db s (tombstone_action x ttl) sent rep =
      tombstone_cas-Represents server key lease_key db s rep x ttl sent.1 sent.0
  act-Represents db s (lease_action token ttl schema) sent rep =
      read_lease-Represents server key lease_key db s rep token ttl schema
  act-Represents db s expire_lease sent rep = expiry-Represents server key lease_key db s rep
  act-Represents db s lose_entry sent rep = loss-Represents server key lease_key db s rep

  -- A guarded version stays guarded over any run that keeps the entry.
  run-Guards :
      (w : ℕ) (db : Db) (s : Register) (actions : List Action)
      → All IsSent actions
      → All KeepsEntry actions
      → Represents server key lease_key db s
      → Guards w s
      → (s' : Register) × Represents server key lease_key (run db actions) s' × Guards w s'
  unfolding run
  run-Guards w db s [] sent keeps rep g = (s, rep, g)
  run-Guards w db s (a ∷ actions) sent keeps rep g =
      run-Guards w (act db a) (act_register s a) actions sent.1 keeps.1
        (act-Represents db s a sent.0 rep) (Guards-act w s a keeps.0 g)
