-- ===== src/Cache/Tests.antt =====
-- Runs of the scripts on a concrete server, and the theorems at them.
use cachet.Cache.Version.{
  encode_version, decode_version, encode_version-order, decode_version-encode_version,
}
use cachet.Base.Decimal.{format_uint, decimal_loop}
use cachet.Cache.Register.{Row, empty, apply_fill, fill_wins, of_schema}
use cachet.Cache.Script.{
  hit, granted, apply, reject, fill_cas, tombstone_cas, read, read_lease, fill_verdict,
  tombstone_verdict, release_lease,
}
use cachet.Cache.Script.Represents.{Represents, arguments, reply_for, fill_cas-Represents}
use cachet.Cache.Trace.{
  IsSent, KeepsEntry, Action, fill_action, tombstone_action, lease_action, lose_entry, run,
}
use cachet.Cache.Trace.Invalidation.{
  ServesAtLeast, read-run-tombstone, tombstone-run-tombstone, read-run-read, read-fill_cas,
}
use cachet.Cache.Lease.Exclusion.{read_lease-excludes}
use cachet.Cache.Model.{Store, server, empty_store}
use cachet.Base.{
  ◌<◌, ◌≡◌, refl, ◌≢◌, ◌↔◌, true, some, List, [], ◌∷◌, ◌++◌, arith, if◌then◌else◌, All, Bytes,
  ascii, bytes_eq, bytes_lt, bytes_le,
}

abbrev key : Bytes
key = ascii "t:1"

abbrev lease_key : Bytes
lease_key = ascii "t:1" ++ 0 ∷ ascii "lease"

abbrev schema : Bytes
schema = ascii "aa"

abbrev old_row : Row
old_row = record {
  version = 4;
  fill = 6;
  encoded = ascii "old";
  is_negative = ascii "0";
  schema = schema;
}

abbrev new_row : Row
new_row = record {
  version = 9;
  fill = 9;
  encoded = ascii "new";
  is_negative = ascii "0";
  schema = schema;
}

-- A slow fill of the old row, a request for the lease, and the fill of the new row.
abbrev actions : List Action
actions =
    fill_action old_row 1000 []
    ∷ lease_action (ascii "a") 50 schema
    ∷ fill_action new_row 1000 (ascii "a")
    ∷ []

empty-Represents : Represents server key lease_key empty_store empty
unfolding bytes_eq
empty-Represents = record {
  entry_key = record { no_string = refl; apart = refl };
  version = refl;
  marker = refl;
  fields = tt;
  coherent = tt;
}

actions-IsSent : All IsSent actions
actions-IsSent = omega arith

encode_version-order_example : (bytes_lt (encode_version 9) (encode_version 10) ≡ true) ↔ (9 < 10)
encode_version-order_example = encode_version-order 9 10 (omega arith) (omega arith)

actions-KeepsEntry : All KeepsEntry actions
actions-KeepsEntry = (tt, (tt, (tt, tt)))

decode_version-encode_version_example : decode_version (encode_version 12) ≡ some 12
decode_version-encode_version_example = decode_version-encode_version 12 (omega arith)

read-run-tombstone_example : ServesAtLeast 8 (encode_version 9)
unfolding read fill_cas tombstone_cas read_lease run arguments fill_verdict tombstone_verdict
    release_lease bytes_eq bytes_lt bytes_le encode_version format_uint decimal_loop
read-run-tombstone_example =
    read-run-tombstone server key lease_key empty_store empty empty-Represents 8 1000 actions schema
      (encode_version 9) (some (encode_version 9)) (some (ascii "new")) (some (ascii "0"))
      (omega arith) (omega arith) actions-IsSent actions-KeepsEntry refl

tombstone-run-tombstone_example :
    tombstone_cas server
      (run server key lease_key
        (tombstone_cas server empty_store key (encode_version 8) 1000).0
        actions)
      key
      (encode_version 7)
      1000
    ≡ (
      run server key lease_key
          (tombstone_cas server empty_store key (encode_version 8) 1000).0
          actions,
      reject,
    )
tombstone-run-tombstone_example =
    tombstone-run-tombstone server key lease_key empty_store empty empty-Represents 8 7 1000 actions
      (omega arith) (omega arith) actions-IsSent actions-KeepsEntry (omega arith)

abbrev filled_store : Store
filled_store = (fill_cas server empty_store key lease_key (arguments old_row 1000 [])).0

filled-Represents : Represents server key lease_key filled_store (apply_fill empty old_row)
filled-Represents =
    fill_cas-Represents server key lease_key empty_store empty empty-Represents old_row 1000 []
      (omega arith) (omega arith) (omega arith)

read-run-read_example : ServesAtLeast 4 (encode_version 9)
unfolding read fill_cas tombstone_cas read_lease run arguments fill_verdict tombstone_verdict
    release_lease bytes_eq bytes_lt bytes_le encode_version format_uint decimal_loop
read-run-read_example =
    read-run-read server key lease_key filled_store (apply_fill empty old_row) filled-Represents 4
      actions schema schema (encode_version 9) (some (encode_version 6)) (some (ascii "old"))
      (some (ascii "0")) (some (encode_version 9)) (some (ascii "new")) (some (ascii "0"))
      (omega arith) actions-IsSent actions-KeepsEntry refl refl

read-fill_cas_example :
    ((fill_cas server filled_store key lease_key (arguments new_row 1000 [])).1
      ≡ (if fill_wins (apply_fill empty old_row) 9 9 then apply else reject))
    × (read server
          (fill_cas server filled_store key lease_key (arguments new_row 1000 [])).0
          key
          schema
        ≡ (if fill_wins (apply_fill empty old_row) 9 9
            then reply_for (of_schema schema (some new_row))
            else read server filled_store key schema))
read-fill_cas_example =
    read-fill_cas server key lease_key filled_store (apply_fill empty old_row) filled-Represents
      new_row 1000 [] schema (omega arith) (omega arith) (omega arith)

abbrev leased_store : Store
leased_store = (read_lease server empty_store key lease_key (ascii "a") 50 schema).0

-- Another caller's request and fill, an invalidation, and the loss of the entry.
abbrev others : List Action
others =
    lease_action (ascii "b") 50 schema
    ∷ fill_action old_row 1000 (ascii "b")
    ∷ tombstone_action 5 1000
    ∷ lose_entry
    ∷ []

read_lease-excludes_example :
    (server.get (run server key lease_key leased_store others) lease_key ≡ some (ascii "a"))
    × ((read_lease server
          (run server key lease_key leased_store others)
          key
          lease_key
          (ascii "c")
          50
          schema).1
        ≢ granted)
unfolding read_lease read bytes_eq
read_lease-excludes_example =
    read_lease-excludes server key lease_key (ascii "a") empty_store leased_store 50 schema others
      (ascii "c") 50 schema refl (omega arith) (tt, (refl, (tt, (refl, tt))))

-- An entry that is lost takes its tombstone along, and a slow fill of the old row then wins.
abbrev late_fill : List Action
late_fill = lose_entry ∷ fill_action old_row 1000 [] ∷ []

lost_marker :
    read server
      (run server key lease_key
        (tombstone_cas server empty_store key (encode_version 8) 1000).0
        late_fill)
      key
      schema
    ≡ some
        (hit (encode_version 4) (some (encode_version 6)) (some (ascii "old")) (some (ascii "0")))
unfolding read fill_cas tombstone_cas run arguments fill_verdict tombstone_verdict release_lease
    bytes_eq bytes_lt bytes_le encode_version format_uint decimal_loop
lost_marker = refl
