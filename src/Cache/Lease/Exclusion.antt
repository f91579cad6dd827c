-- ===== src/Cache/Lease/Exclusion.antt =====
-- At most one caller holds the right to fill a key.
use cachet.Cache.Version.{encode_version}
use cachet.Cache.Redis.{Redis}
use cachet.Cache.Register.{Row}
use cachet.Cache.Script.{
  LeaseReply, granted, Verdict, apply, reject, fail, Fill, fill_cas, read, read_lease,
  release_lease, write_row, finish_fill, or_lease, take_lease,
}
use cachet.Cache.Script.View.{get-write_row}
use cachet.Cache.Script.Effect.{verdict_of_fill, get-tombstone_cas}
use cachet.Cache.Script.Represents.{arguments}
use cachet.Cache.Trace.{
  Action, fill_action, tombstone_action, lease_action, expire_lease, lose_entry, IsSent, act, run,
}
use mathlib.Core.Path.{subst}
use cachet.Base.{
  ℕ, ◌<◌, ◌≡◌, refl, ap, ◌∙◌, ◌≢◌, false, Option, none, some, List, [], ◌∷◌, arith, All, Bytes,
  bytes_eq, bytes_eq_refl,
}

-- Neither the end of the lease nor a fill that carries its token. The loss of the entry is no end of
-- the lease where the two keys are apart.
abbrev pub Leaves : Bytes → Bytes → Bytes → Action → Type 0
Leaves key lease_key mine (fill_action r ttl token) = bytes_eq mine token ≡ false
Leaves key lease_key mine (tombstone_action x ttl) = Unit {0}
Leaves key lease_key mine (lease_action token ttl schema) = Unit {0}
Leaves key lease_key mine expire_lease = ⊥
Leaves key lease_key mine lose_entry = bytes_eq key lease_key ≡ false

module _ (server : Redis) (key lease_key mine : Bytes) where
  open server use {Db, get, set_nx, set_nx-held, get-set_nx, get-del}

  release_other :
      (db : Db) (token : Bytes)
      → get db lease_key ≡ some mine
      → bytes_eq mine token ≡ false
      → release_lease server db lease_key token ≡ db
  unfolding release_lease
  release_other db token held other = ground arith

  release_own :
      (db : Db)
      → get db lease_key ≡ some mine
      → bytes_eq mine [] ≡ false
      → get (release_lease server db lease_key mine) lease_key ≡ none
  unfolding release_lease
  release_own db held real =
      ground (arith, bytes_eq_refl mine, bytes_eq_refl lease_key, get-del db lease_key lease_key)

  -- While the lease is held the script grants nothing.
  refused :
      (db : Db) (token : Bytes) (ttl : ℕ) (o : Option LeaseReply)
      → get db lease_key ≡ some mine
      → ((or_lease server db lease_key token ttl o).0 ≡ db)
        × (o ≢ some granted → (or_lease server db lease_key token ttl o).1 ≢ granted)
  refused db token ttl none held =
      rw (set_nx-held db lease_key token mine ttl held) (refl, λ _. ground arith)
  refused db token ttl (some reply) held = (refl, λ other e. other (ap some e))

  finish_keeps :
      (db : Db) (a : Fill) (d : Verdict)
      → 0 < a.ttl
      → get db lease_key ≡ some mine
      → bytes_eq mine a.token ≡ false
      → get (finish_fill server db key lease_key a d) lease_key ≡ some mine
  finish_keeps db a apply live held other =
      let kept = get-write_row server db key lease_key a live ∙ held in
      ap (λ x. get x lease_key) (release_other (write_row server db key a) a.token kept other)
      ∙ kept
  finish_keeps db a reject live held other =
      ap (λ x. get x lease_key) (release_other db a.token held other) ∙ held
  finish_keeps db a fail live held other = held

  act_keeps :
      (db : Db) (a : Action)
      → IsSent a
      → Leaves key lease_key mine a
      → get db lease_key ≡ some mine
      → get (act server key lease_key db a) lease_key ≡ some mine
  unfolding act fill_cas arguments read_lease
  act_keeps db (fill_action r ttl token) sent leaves held =
      finish_keeps db (arguments r ttl token)
        (verdict_of_fill server db key (arguments r ttl token)) sent.2 held leaves
  act_keeps db (tombstone_action x ttl) sent leaves held =
      get-tombstone_cas server db key lease_key (encode_version x) ttl sent.1 ∙ held
  act_keeps db (lease_action token ttl schema) sent leaves held =
      ap (λ x. get x lease_key) (refused db token ttl (read server db key schema) held).0 ∙ held
  act_keeps db expire_lease sent leaves held = absurd leaves
  act_keeps db lose_entry sent leaves held = get-del db key lease_key ∙ rw leaves held

  run_keeps :
      (db : Db) (actions : List Action)
      → All IsSent actions
      → All (Leaves key lease_key mine) actions
      → get db lease_key ≡ some mine
      → get (run server key lease_key db actions) lease_key ≡ some mine
  unfolding run
  run_keeps db [] sent leaves held = held
  run_keeps db (a ∷ actions) sent leaves held =
      run_keeps (act server key lease_key db a) actions sent.1 leaves.1
        (act_keeps db a sent.0 leaves.0 held)

  read-ne-granted : (db : Db) (schema : Bytes) → read server db key schema ≢ some granted
  unfolding read
  read-ne-granted db schema e = ground arith

  granted_holds :
      (db db1 : Db) (ttl : ℕ) (o : Option LeaseReply)
      → o ≢ some granted
      → or_lease server db lease_key mine ttl o ≡ (db1, granted)
      → get db1 lease_key ≡ some mine
  granted_holds db db1 ttl none other e = taken_holds (set_nx db lease_key mine ttl) refl e
    where
      taken_holds :
          (o : Option Db)
          → set_nx db lease_key mine ttl ≡ o
          → take_lease server db o ≡ (db1, granted)
          → get db1 lease_key ≡ some mine
      taken_holds none f e = absurd (ground arith)
      taken_holds (some db') f e =
          subst (λ x. get x lease_key ≡ some mine) (ap (λ p. p.0) e)
            (get-set_nx db db' lease_key lease_key mine ttl f ∙ rw (bytes_eq_refl lease_key))
  granted_holds db db1 ttl (some reply) other e = absurd (other (ap (λ p. some p.1) e))

  -- A caller that was granted the lease excludes all others: after any sequence of script runs on
  -- the key, among which the lease does not expire and no fill carries the caller's token, and which
  -- may lose the entry where the entry's and the lease's keys are apart, no
  -- caller is granted the lease, whatever its token and its schema, and the server still holds the
  -- first caller's token.
  pub read_lease-excludes :
      (db db1 : Db) (ttl : ℕ) (schema : Bytes) (actions : List Action) (token : Bytes) (ttl' : ℕ)
      (schema' : Bytes)
      → read_lease server db key lease_key mine ttl schema ≡ (db1, granted)
      → All IsSent actions
      → All (Leaves key lease_key mine) actions
      → let db2 = run server key lease_key db1 actions in
        (get db2 lease_key ≡ some mine)
        × ((read_lease server db2 key lease_key token ttl' schema').1 ≢ granted)
  unfolding read_lease
  read_lease-excludes db db1 ttl schema actions token ttl' schema' own sent leaves =
      let start =
        granted_holds db db1 ttl (read server db key schema) (read-ne-granted db schema) own in
      let db2 = run server key lease_key db1 actions in
      let held = run_keeps db1 actions sent leaves start in
      (
        held,
        (refused db2 token ttl' (read server db2 key schema') held).1 (read-ne-granted db2 schema'),
      )

  finish_releases :
      (db : Db) (a : Fill) (d : Verdict)
      → 0 < a.ttl
      → a.token ≡ mine
      → get db lease_key ≡ some mine
      → bytes_eq mine [] ≡ false
      → d ≢ fail
      → get (finish_fill server db key lease_key a d) lease_key ≡ none
  finish_releases db a apply live e held real ran = rw e (
      release_own (write_row server db key a) (get-write_row server db key lease_key a live ∙ held)
        real)
  finish_releases db a reject live e held real ran = rw e (release_own db held real)
  finish_releases db a fail live e held real ran = absurd (ran refl)

  -- The holder's fill hands the lease back, whether it wins its compare-and-set or loses it.
  pub fill_cas-releases :
      (db : Db) (r : Row) (ttl : ℕ)
      → 0 < ttl
      → get db lease_key ≡ some mine
      → bytes_eq mine [] ≡ false
      → (fill_cas server db key lease_key (arguments r ttl mine)).1 ≢ fail
      → get (fill_cas server db key lease_key (arguments r ttl mine)).0 lease_key ≡ none
  unfolding fill_cas arguments
  fill_cas-releases db r ttl live held real ran =
      finish_releases db (arguments r ttl mine)
        (verdict_of_fill server db key (arguments r ttl mine)) live refl held real ran
