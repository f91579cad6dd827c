-- ===== src/HashRing/Total.antt =====
-- internal/hashring/ring.go: a ring over some nodes finds an owner for every key, among its nodes.
use cachet.Base.Sort.{sort, length-sort, All-sort}
use cachet.HashRing.{
  hash_key, is_member, unique, placed_before, node_placements, placements, ring_virtual_nodes,
  new_ring, lookup,
}
use cachet.HashRing.Owner.{find_from, or_first, lookup_hash-ring_of}
use cachet.Base.{
  ℕ, zero, suc, ◌+◌, ◌<◌, ◌≡◌, refl, ap, ◌∙◌, inl, inr, true, Option, none, some, List, [], ◌∷◌,
  arith, leb, Bool-cases, length, All, length-append, All-append, Bytes, bytes_lt, bytes_eq_refl,
  ok,
}

module _ (P : Bytes → Type 0) where
  All-node_placements :
      (n : Bytes) (i count : ℕ) → P n → All (λ p. P p.1) (node_placements n i count)
  unfolding node_placements
  All-node_placements n i zero h = tt
  All-node_placements n i (suc count) h = (h, All-node_placements n (i + 1) count h)

  All-placements : (nodes : List Bytes) → All P nodes → All (λ p. P p.1) (placements nodes)
  unfolding placements
  All-placements [] h = tt
  All-placements (n ∷ nodes) h =
      All-append (λ p. P p.1) (node_placements n 0 ring_virtual_nodes) (placements nodes)
        (All-node_placements n 0 ring_virtual_nodes h.0) (All-placements nodes h.1)

  All-unique : (nodes : List Bytes) → All P nodes → All P (unique nodes)
  unfolding unique
  All-unique [] h = tt
  All-unique (n ∷ nodes) h = elim (Bool-cases (is_member n nodes)) [
    | inl again ↦ rw again (All-unique nodes h.1)
    | inr fresh ↦ rw fresh (h.0, All-unique nodes h.1)
  ]

  find_from-All :
      (h : ℕ) (placed : List (ℕ × Bytes)) (n : Bytes)
      → All (λ p. P p.1) placed
      → find_from h placed ≡ some n
      → P n
  unfolding find_from
  find_from-All h [] n all e = absurd (ground arith)
  find_from-All h ((p, m) ∷ placed) n all e = elim (Bool-cases (leb h p)) [
    | inl here ↦ let same : m ≡ n = ground arith in rw (← same) all.0
    | inr before ↦
        let later : find_from h placed ≡ some n = ground arith in
        find_from-All h placed n all.1 later
  ]

  or_first-All :
      (h : ℕ) (placed : List (ℕ × Bytes)) (o : Option Bytes)
      → All (λ p. P p.1) placed
      → 0 < length placed
      → find_from h placed ≡ o
      → (n : Bytes) × ((or_first placed o ≡ ok n) × P n)
  or_first-All h [] o all some_placed e = absurd (omega arith)
  or_first-All h ((p, m) ∷ placed) none all some_placed e = (m, (refl, all.0))
  or_first-All h ((p, m) ∷ placed) (some n) all some_placed e =
      (n, (refl, find_from-All h ((p, m) ∷ placed) n all e))

unique_positive : (nodes : List Bytes) → 0 < length nodes → 0 < length (unique nodes)
unfolding unique is_member
unique_positive [] h = h
unique_positive (n ∷ []) h = omega arith
unique_positive (n ∷ m ∷ nodes) h =
    let rest = unique_positive (m ∷ nodes) (omega arith) in ground arith

length-node_placements : (n : Bytes) (i count : ℕ) → length (node_placements n i count) ≡ count
unfolding node_placements
length-node_placements n i zero = refl
length-node_placements n i (suc count) = ap suc (length-node_placements n (i + 1) count)

placements_positive : (nodes : List Bytes) → 0 < length nodes → 0 < length (placements nodes)
unfolding placements
placements_positive [] h = h
placements_positive (n ∷ nodes) h =
    let total = length-append (node_placements n 0 ring_virtual_nodes) (placements nodes) in
    let own = length-node_placements n 0 ring_virtual_nodes in omega (arith, total, own)

All-is_member :
    (all nodes : List Bytes)
    → ((n : Bytes) → is_member n nodes ≡ true → is_member n all ≡ true)
    → All (λ n. is_member n all ≡ true) nodes
unfolding is_member
All-is_member all [] h = tt
All-is_member all (n ∷ nodes) h =
    (h n (rw (bytes_eq_refl n) refl), All-is_member all nodes (λ m e. h m (rw e (ground arith))))

-- A ring over at least one node finds an owner for every key, and the owner is one of its nodes.
pub lookup-of_nodes :
    (m : Bytes) (nodes : List Bytes) (key : Bytes)
    → (n : Bytes) × ((lookup (new_ring (m ∷ nodes)) key ≡ ok n) × (is_member n (m ∷ nodes) ≡ true))
unfolding lookup new_ring
lookup-of_nodes m nodes key =
    let all : List Bytes = m ∷ nodes in
    let P : Bytes → Type 0 = λ n. is_member n all ≡ true in
    let sorted = sort bytes_lt (unique all) in
    let placed = sort placed_before (placements sorted) in
    let members = All-is_member all all (λ n e. e) in
    let sorted_members = All-sort bytes_lt P (unique all) (All-unique P all members) in
    let placed_members =
      All-sort placed_before (λ p. P p.1) (placements sorted)
        (All-placements P sorted sorted_members) in
    let u = unique_positive all (omega arith) in
    let some_sorted : 0 < length sorted = omega (arith, length-sort bytes_lt (unique all)) in
    let w = placements_positive sorted some_sorted in
    let some_placed : 0 < length placed =
      omega (arith, length-sort placed_before (placements sorted)) in
    let (n, (found, member)) =
      or_first-All P (hash_key key) placed (find_from (hash_key key) placed) placed_members
        some_placed refl in
    (n, (lookup_hash-ring_of sorted placed (hash_key key) ∙ found, member))
