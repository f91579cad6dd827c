-- ===== src/HashRing/Tests.antt =====
-- A concrete ring, and the theorems at it. The ring of the tests has its placements written out, since
-- 256 of them for each node are many to compute.
use cachet.Base.Decimal.{format_uint, decimal_loop}
use cachet.Base.Sort.{filter, sort, insert_sorted}
use cachet.HashRing.{
  Ring, ring_of, split_mix_64, search, lookup_hash, new_ring, lookup, unique, placements,
  node_placements, placed_before, hash_key, fnv_1a, is_member,
}
use cachet.HashRing.Total.{lookup-of_nodes}
use cachet.HashRing.Remap.{other_than, lookup-filter}
use cachet.Base.{ℕ, ◌≡◌, refl, true, List, [], ◌∷◌, Bytes, ascii, bytes_eq, bytes_lt, ok}

abbrev two_points : Ring
two_points = ring_of (ascii "a" ∷ ascii "b" ∷ []) ((10, ascii "b") ∷ (20, ascii "a") ∷ [])

between : lookup_hash two_points 15 ≡ ok (ascii "a")
unfolding lookup_hash search
between = refl

wraps_around : lookup_hash two_points 21 ≡ ok (ascii "b")
unfolding lookup_hash search
wraps_around = refl

split_mix_64-one : split_mix_64 1 ≡ 10451216379200822465
unfolding split_mix_64
split_mix_64-one = refl

fnv_1a-a : fnv_1a 14695981039346656037 (ascii "a") ≡ 12638187200555641996
unfolding fnv_1a
fnv_1a-a = refl

abbrev seed : ℕ
seed = 12345

abbrev two_nodes : List Bytes
two_nodes = ascii "a" ∷ ascii "b" ∷ []

owned : lookup (new_ring two_nodes) (ascii "k") ≡ ok (ascii "a")
unfolding lookup lookup_hash new_ring unique placements node_placements placed_before hash_key
    fnv_1a split_mix_64 search is_member sort insert_sorted bytes_lt format_uint decimal_loop
    bytes_eq
owned = refl

others : other_than (ascii "b") (ascii "a") ≡ true
unfolding bytes_eq
others = refl

lookup-filter_example :
    lookup (new_ring (filter (other_than (ascii "b")) two_nodes)) (ascii "k") ≡ ok (ascii "a")
lookup-filter_example = lookup-filter (ascii "b") two_nodes (ascii "k") (ascii "a") others owned

lookup-of_nodes_example :
    (n : Bytes) × ((lookup (new_ring two_nodes) (ascii "y") ≡ ok n)
      × (is_member n two_nodes ≡ true))
lookup-of_nodes_example = lookup-of_nodes (ascii "a") (ascii "b" ∷ []) (ascii "y")
