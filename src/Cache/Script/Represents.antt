-- ===== src/Cache/Script/Represents.antt =====
-- The database represents a register at each entry key, and the scripts step as the register does.
use cachet.Cache.Version.{encode_version}
use cachet.Cache.Redis.{
  Redis, Field, row_version, fill_version, row, negative, fingerprint, tombstone,
}
use cachet.Cache.Register
use cachet.Cache.Register.{
  Row, Register, fill_wins, apply_fill, tombstone_wins, apply_tombstone, IsCoherent, of_schema,
  Fits-fill,
}
use cachet.Cache.Script
use cachet.Cache.Script.{
  Verdict, apply, reject, fail, Fill, LeaseReply, hit, fill_cas, tombstone_cas, reply_of,
}
use cachet.Cache.Script.View.{IsEntryKey}
use cachet.Cache.Script.Effect.{
  fill_effect, tombstone_effect, verdict_of_fill, verdict_of_tombstone, hget-fill_cas,
  hget-tombstone_cas, fill_cas-IsEntryKey, get-tombstone_cas,
}
use cachet.Cache.Script.Refine.{
  encoded_version, version_text, decided, FillText, fill_verdict-decided, tombstone_verdict-decided,
}
use cachet.Base.{
  ℕ, ◌^◌, ◌<◌, ◌≡◌, refl, ap, ◌∙◌, inl, inr, Option, none, some, arith, if◌then◌else◌, Bool-cases,
  Bytes, bytes_eq,
}

-- The arguments that the client sends for a row.
unfoldable pub arguments : Row → ℕ → Bytes → Fill
arguments r ttl token = record {
  version = encode_version r.version;
  fill = encode_version r.fill;
  encoded = r.encoded;
  is_negative = r.is_negative;
  ttl = ttl;
  schema = r.schema;
  token = token;
}

abbrev pub reply_for : Option Row → Option LeaseReply
reply_for none = none
reply_for (some r) = some (
    hit (encode_version r.version) (some (encode_version r.fill)) (some r.encoded)
      (some r.is_negative))

same_reply :
    (r : Row) (schema : Bytes)
    → (if bytes_eq r.schema schema
        then some (
            hit
              (encode_version r.version)
              (some (encode_version r.fill))
              (some r.encoded)
              (some r.is_negative))
        else none)
      ≡ reply_for (of_schema schema (some r))
same_reply r schema = ground arith

module _ (server : Redis) (key lease_key : Bytes) where
  open server use {Db, hget, get}

  abbrev Holds : Db → Option Row → Type 0
  Holds db none = Unit {0}
  Holds db (some r) =
      (hget db key fill_version ≡ some (encode_version r.fill))
      × (hget db key row ≡ some r.encoded)
      × (hget db key negative ≡ some r.is_negative)
      × (hget db key fingerprint ≡ some r.schema)

  pub record Represents (db : Db) (s : Register) : Type 0 where
    pub entry_key : IsEntryKey server db key lease_key
    pub version : hget db key row_version ≡ version_text s.value
    pub marker : hget db key tombstone ≡ encoded_version s.marker
    pub fields : Holds db s.value
    pub coherent : IsCoherent s

  Holds-FillText : (db : Db) (v : Option Row) → Holds db v → FillText v (hget db key fill_version)
  Holds-FillText db none h = tt
  Holds-FillText db (some r) h = h.0

  Holds-same :
      (db db' : Db) (v : Option Row)
      → ((g : Field) → hget db' key g ≡ hget db key g)
      → Holds db v
      → Holds db' v
  Holds-same db db' none same h = tt
  Holds-same db db' (some r) same h =
      (same fill_version ∙ h.0, same row ∙ h.1, same negative ∙ h.2, same fingerprint ∙ h.3)

  module _ (db : Db) (s : Register) (rep : Represents db s) where
    reply_lem :
        (v : Option Row) (schema : Bytes)
        → Holds db v
        → reply_of server db key schema (version_text v) ≡ reply_for (of_schema schema v)
    reply_lem none schema h = refl
    reply_lem (some r) schema h = rw (h.0, h.1, h.2, h.3) (same_reply r schema)

    module _ (r : Row) (ttl : ℕ) (token : Bytes) (live : 0 < ttl) (hv : r.version < 2 ^ 64)
        (hf : r.fill < 2 ^ 64) where
      -- The script applies a fill exactly when the register does.
      pub verdict-fill :
          verdict_of_fill server db key (arguments r ttl token)
          ≡ decided (fill_wins s r.version r.fill)
      unfolding arguments
      verdict-fill =
          rw (rep.version, rep.marker)
            (fill_verdict-decided r.version r.fill hv hf s.value s.marker (hget db key fill_version)
              rep.coherent (Holds-FillText db s.value rep.fields))

      after_fill :
          (d : Verdict) (g : Field)
          → verdict_of_fill server db key (arguments r ttl token) ≡ d
          → hget (fill_cas server db key lease_key (arguments r ttl token)).0 key g
            ≡ fill_effect d (arguments r ttl token) g (hget db key g)
      unfolding arguments
      after_fill d g e =
          hget-fill_cas server db key lease_key (arguments r ttl token) g rep.entry_key live
          ∙ ap (λ x. fill_effect x (arguments r ttl token) g (hget db key g)) e

      -- A fill takes a database that represents a register to one that represents the register
      -- after the fill.
      pub fill_cas-Represents :
          Represents (fill_cas server db key lease_key (arguments r ttl token)).0 (apply_fill s r)
      unfolding apply_fill arguments
      fill_cas-Represents = elim (Bool-cases (fill_wins s r.version r.fill)) [
        | inl wins ↦
            let e = verdict-fill ∙ ap decided wins in
            rw wins (record {
              entry_key =
                  fill_cas-IsEntryKey server db key lease_key (arguments r ttl token) rep.entry_key
                    live;
              version = after_fill apply row_version e;
              marker = after_fill apply tombstone e ∙ rep.marker;
              fields = (
                after_fill apply fill_version e,
                after_fill apply row e,
                after_fill apply negative e,
                after_fill apply fingerprint e,
              );
              coherent = Fits-fill s.value s.marker r rep.coherent hv hf wins;
            })
        | inr loses ↦
            let e = verdict-fill ∙ ap decided loses in
            rw loses (record {
              entry_key =
                  fill_cas-IsEntryKey server db key lease_key (arguments r ttl token) rep.entry_key
                    live;
              version = after_fill reject row_version e ∙ rep.version;
              marker = after_fill reject tombstone e ∙ rep.marker;
              fields = Holds-same db _ s.value (λ g. after_fill reject g e) rep.fields;
              coherent = rep.coherent;
            })
      ]

    module _ (x ttl : ℕ) (live : 0 < ttl) (hx : x < 2 ^ 64) where
      pub verdict-tombstone :
          verdict_of_tombstone server db key (encode_version x) ≡ decided (tombstone_wins s x)
      verdict-tombstone =
          rw (rep.version, rep.marker)
            (tombstone_verdict-decided x x hx hx s.value s.marker rep.coherent)

      after_tombstone :
          (d : Verdict) (g : Field)
          → verdict_of_tombstone server db key (encode_version x) ≡ d
          → hget (tombstone_cas server db key (encode_version x) ttl).0 key g
            ≡ tombstone_effect d (encode_version x) g (hget db key g)
      after_tombstone d g e =
          hget-tombstone_cas server db key (encode_version x) ttl g rep.entry_key.no_string live
          ∙ ap (λ d. tombstone_effect d (encode_version x) g (hget db key g)) e

      tombstone_key :
          IsEntryKey server (tombstone_cas server db key (encode_version x) ttl).0 key lease_key
      tombstone_key = record {
        no_string =
            get-tombstone_cas server db key key (encode_version x) ttl live
            ∙ rep.entry_key.no_string;
        apart = rep.entry_key.apart;
      }

      -- So does a tombstone.
      pub tombstone_cas-Represents :
          Represents (tombstone_cas server db key (encode_version x) ttl).0 (apply_tombstone s x)
      unfolding apply_tombstone
      tombstone_cas-Represents = elim (Bool-cases (tombstone_wins s x)) [
        | inl wins ↦
            let e = verdict-tombstone ∙ ap decided wins in
            rw wins (record {
              entry_key = tombstone_key;
              version = after_tombstone apply row_version e;
              marker = after_tombstone apply tombstone e;
              fields = tt;
              coherent = hx;
            })
        | inr loses ↦
            let e = verdict-tombstone ∙ ap decided loses in
            rw loses (record {
              entry_key = tombstone_key;
              version = after_tombstone reject row_version e ∙ rep.version;
              marker = after_tombstone reject tombstone e ∙ rep.marker;
              fields = Holds-same db _ s.value (λ g. after_tombstone reject g e) rep.fields;
              coherent = rep.coherent;
            })
      ]

    -- read.lua returns what the register holds, for a reader of the same schema, and a miss else.
    pub read-eq :
        (schema : Bytes) → Script.read server db key schema ≡ reply_for (Register.read s schema)
    unfolding Script.read Register.read
    read-eq schema = rw rep.version (reply_lem s.value schema rep.fields)

  -- Changes outside the entry do not matter.
  pub Represents-frame :
      (db db' : Db) (s : Register)
      → get db' key ≡ get db key
      → ((g : Field) → hget db' key g ≡ hget db key g)
      → Represents db s
      → Represents db' s
  Represents-frame db db' s strings same rep = record {
    entry_key = record {
      no_string = strings ∙ rep.entry_key.no_string;
      apart = rep.entry_key.apart;
    };
    version = same row_version ∙ rep.version;
    marker = same tombstone ∙ rep.marker;
    fields = Holds-same db db' s.value same rep.fields;
    coherent = rep.coherent;
  }
