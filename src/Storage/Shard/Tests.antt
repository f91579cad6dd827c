-- ===== src/Storage/Shard/Tests.antt =====
-- A concrete topology, and the theorem at it.
use cachet.Base.Assoc as assoc
use cachet.Base.Sort.{filter}
use cachet.HashRing.{is_member}
use cachet.Storage.Shard.{
  Router, topology, router_of, new_router, or_empty, group, has, empty_shard_id, no_nodes,
  shard_for, empty_key,
}
use cachet.Storage.Shard.Group.{distinct, owned, group-filter}
use cachet.Base.{◌≡◌, refl, true, List, [], ◌∷◌, Bytes, ascii, bytes_eq, ok, err}

abbrev names : List Bytes
names = ascii "b" ∷ ascii "a" ∷ ascii "b" ∷ []

abbrev router : Router
router = router_of (ascii "b" ∷ ascii "a" ∷ [])

abbrev keys : List Bytes
keys = ascii "x" ∷ ascii "y" ∷ ascii "x" ∷ []

router_made : new_router names ≡ ok router
unfolding new_router topology bytes_eq is_member
router_made = refl

no_topology : new_router [] ≡ err no_nodes
unfolding new_router
no_topology = refl

shard_unnamed : new_router (ascii "a" ∷ [] ∷ []) ≡ err empty_shard_id
unfolding new_router topology bytes_eq is_member
shard_unnamed = refl

key_empty : shard_for router [] ≡ err empty_key
unfolding shard_for bytes_eq
key_empty = refl

has_shard : has router (ascii "a") ≡ true
unfolding has bytes_eq is_member
has_shard = refl

keys_distinct : distinct [] keys ≡ ascii "x" ∷ ascii "y" ∷ []
unfolding distinct bytes_eq is_member
keys_distinct = refl

group-filter_example :
    (out : List (Bytes × List Bytes)) × (group router keys ≡ ok out)
    × (or_empty (assoc.lookup (ascii "a") out)
        ≡ filter (owned router (ascii "a")) (distinct [] keys))
unfolding bytes_eq
group-filter_example =
    group-filter names router keys (ascii "a") router_made (refl, (refl, (refl, tt)))
