-- ===== src/Storage/Shard.antt =====
-- internal/storage/shard.go: the database shard of a key, and the keys of a batch by shard. The set of
-- shards is the list of its members.
pub mod Group
mod Tests
use cachet.Base.Assoc.{insert}
use cachet.Base.Assoc as assoc
use cachet.Base.Sort.{sort}
use cachet.HashRing.{Ring, is_member, new_ring}
use cachet.HashRing as ring
use cachet.Base.{
  ℕ, zero, suc, ◌+◌, ◌-◌, ◌*◌, ◌/◌, ◌%◌, ◌^◌, ◌≤◌, ◌<◌, min, max, bit_and, bit_or, bit_xor, ◌≡◌,
  refl, sym, ap, ◌∙◌, ◌≢◌, ◌↔◌, ◌⊎◌, inl, inr, Bool, true, false, not, ◌&&◌, ◌||◌, Option, none,
  some, List, [], ◌∷◌, ◌++◌, map, append_assoc, append-nil, arith, ltb, leb, ◌==◌, if◌then◌else◌,
  ltb→lt, lt→ltb, le→ltb, leb→le, le→leb, ==_iff, ==_refl, tests, Bool-cases, Option-cases, &&_true,
  length, get_elem?, get_or, set, take, drop, replicate, All, length-append, take_append,
  drop_append, length-replicate, All-append, Bytes, IsByte, ascii, bytes_eq, bytes_lt, bytes_le,
  eq_of_bytes_eq, bytes_eq_refl, bytes_eq_iff, bytes_eq_ne, Result, ok, err, ◌>>=◌, ◌>>◌, require,
}

-- `no_nodes` is the error of the ring, and `routing` any other that it returns.
pub data Error : Type 0 where
  no_nodes empty_key empty_shard_id : Error
  routing : ring.Error → Error

pub record Router : Type 0 where
  pub ring : Ring
  pub shards : List Bytes

-- The loop of `NewRouter`: the names so far are the set so far.
unfoldable pub topology : List Bytes → List Bytes → Result Error (List Bytes)
topology names [] = ok names
topology names (s ∷ shards) =
    let rest = topology (if is_member s names then names else names ++ s ∷ []) shards in
    if bytes_eq s [] then err empty_shard_id else rest

abbrev pub router_of : List Bytes → Router
router_of names = record { ring = new_ring (sort bytes_lt names); shards = names }

unfoldable pub new_router : List Bytes → Result Error Router
new_router [] = err no_nodes
new_router (s ∷ shards) = topology [] (s ∷ shards) >>= λ names. ok (router_of names)

abbrev pub routed : Result ring.Error Bytes → Result Error Bytes
routed (ok node) = ok node
routed (err ring.no_nodes) = err no_nodes
routed (err ring.index_out_of_range) = err (routing ring.index_out_of_range)

unfoldable pub shard_for : Router → Bytes → Result Error Bytes
shard_for r key = if bytes_eq key [] then err empty_key else routed (ring.lookup r.ring key)

abbrev pub or_empty : Option (List Bytes) → List Bytes
or_empty none = []
or_empty (some keys) = keys

-- `groups[id] = append(groups[id], k)`
abbrev pub add_key : Bytes → Bytes → List (Bytes × List Bytes) → List (Bytes × List Bytes)
add_key id k groups = insert id (or_empty (assoc.lookup id groups) ++ k ∷ []) groups

-- The loop of `Group`.
unfoldable pub group_from :
    Router
    → List (Bytes × List Bytes)
    → List Bytes
    → List Bytes
    → Result Error (List (Bytes × List Bytes))
group_from r groups seen [] = ok groups
group_from r groups seen (k ∷ keys) =
    let skipped = group_from r groups seen keys in
    let added = shard_for r k >>= λ id. group_from r (add_key id k groups) (k ∷ seen) keys in
    if is_member k seen then skipped else added

unfoldable pub group : Router → List Bytes → Result Error (List (Bytes × List Bytes))
group r keys = group_from r [] [] keys

unfoldable pub has : Router → Bytes → Bool
has r id = is_member id r.shards

unfoldable pub shards_of : Router → List Bytes
shards_of r = r.ring.nodes
