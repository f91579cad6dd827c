-- ===== src/HashRing/Remap.antt =====
-- internal/hashring/ring.go: what changes when a node leaves the ring.
use cachet.Base.Sort.{filter, sort, filter-sort, bytes_lt_asym, bytes_lt_trans}
use cachet.HashRing.{
  hash_key, is_member, unique, placed_before, node_placements, placements, ring_virtual_nodes,
  new_ring, lookup,
}
use cachet.HashRing.Owner.{find_from, first_owner, or_first, lookup_hash-ring_of}
use cachet.Base.{
  ℕ, zero, suc, ◌+◌, ◌≡◌, refl, sym, ap, ◌∙◌, Bool, true, false, not, Option, none, some, List, [],
  ◌∷◌, ◌++◌, arith, if◌then◌else◌, Bytes, bytes_eq, bytes_lt, bytes_eq_iff, ok,
}

abbrev pub other_than : Bytes → Bytes → Bool
other_than x n = not (bytes_eq n x)

abbrev placed_other : Bytes → ℕ × Bytes → Bool
placed_other x (p, n) = other_than x n

placed_before_asym : (a b : ℕ × Bytes) → placed_before a b ≡ true → placed_before b a ≡ false
unfolding placed_before
placed_before_asym (p, n) (q, m) h = ground (arith, bytes_lt_asym n m)

placed_before_trans :
    (a b c : ℕ × Bytes)
    → placed_before c b ≡ false
    → placed_before b a ≡ false
    → placed_before c a ≡ false
unfolding placed_before
placed_before_trans (p, n) (q, m) (r, l) h k = ground (arith, bytes_lt_trans n m l)

module _ (x : Bytes) where
  find_from-none :
      (h : ℕ) (placed : List (ℕ × Bytes))
      → find_from h placed ≡ none
      → find_from h (filter (placed_other x) placed) ≡ none
  unfolding find_from filter
  find_from-none h [] e = refl
  find_from-none h ((p, n) ∷ placed) e = ground (arith, find_from-none h placed)

  find_from-some :
      (h : ℕ) (placed : List (ℕ × Bytes)) (n : Bytes)
      → other_than x n ≡ true
      → find_from h placed ≡ some n
      → find_from h (filter (placed_other x) placed) ≡ some n
  unfolding find_from filter
  find_from-some h [] n other e = ground arith
  find_from-some h ((p, m) ∷ placed) n other e =
      ground (arith, find_from-some h placed n other, bytes_eq_iff m x, bytes_eq_iff n x)

  first_owner-filter :
      (placed : List (ℕ × Bytes)) (n : Bytes)
      → other_than x n ≡ true
      → first_owner placed ≡ ok n
      → first_owner (filter (placed_other x) placed) ≡ ok n
  unfolding filter
  first_owner-filter [] n other e = absurd (ground arith)
  first_owner-filter ((p, m) ∷ placed) n other e =
      ground (arith, bytes_eq_iff m x, bytes_eq_iff n x)

  or_first-filter :
      (h : ℕ) (placed : List (ℕ × Bytes)) (n : Bytes) (o : Option Bytes)
      → find_from h placed ≡ o
      → other_than x n ≡ true
      → or_first placed o ≡ ok n
      → or_first (filter (placed_other x) placed) (find_from h (filter (placed_other x) placed))
        ≡ ok n
  or_first-filter h placed n none f other e =
      rw (find_from-none h placed f) (first_owner-filter placed n other e)
  or_first-filter h placed n (some m) f other e =
      let same : m ≡ n = ground arith in
      rw (find_from-some h placed n other (f ∙ ap some same)) refl

  filter-append :
      (a b : List (ℕ × Bytes))
      → filter (placed_other x) (a ++ b) ≡ filter (placed_other x) a ++ filter (placed_other x) b
  unfolding filter
  filter-append [] b = refl
  filter-append ((p, n) ∷ a) b = ground (arith, filter-append a b)

  filter-node_placements :
      (n : Bytes) (i count : ℕ)
      → filter (placed_other x) (node_placements n i count)
        ≡ (if other_than x n then node_placements n i count else [])
  unfolding filter node_placements
  filter-node_placements n i zero = ground arith
  filter-node_placements n i (suc count) = ground (arith, filter-node_placements n (i + 1) count)

  filter-placements :
      (nodes : List Bytes)
      → filter (placed_other x) (placements nodes) ≡ placements (filter (other_than x) nodes)
  unfolding filter placements
  filter-placements [] = refl
  filter-placements (n ∷ nodes) =
      filter-append (node_placements n 0 ring_virtual_nodes) (placements nodes)
      ∙ rw (filter-node_placements n 0 ring_virtual_nodes, filter-placements nodes) (ground arith)

  is_member-filter :
      (n : Bytes) (nodes : List Bytes)
      → other_than x n ≡ true
      → is_member n (filter (other_than x) nodes) ≡ is_member n nodes
  unfolding filter is_member
  is_member-filter n [] other = refl
  is_member-filter n (m ∷ nodes) other =
      ground (
        arith,
        is_member-filter n nodes other,
        bytes_eq_iff m n,
        bytes_eq_iff m x,
        bytes_eq_iff n x,
      )

  filter-unique :
      (nodes : List Bytes)
      → filter (other_than x) (unique nodes) ≡ unique (filter (other_than x) nodes)
  unfolding filter unique
  filter-unique [] = refl
  filter-unique (n ∷ nodes) = ground (arith, filter-unique nodes, is_member-filter n nodes)

  -- The placements of the ring over some nodes, in order.
  abbrev placed_nodes : List Bytes → List (ℕ × Bytes)
  placed_nodes nodes = sort placed_before (placements (sort bytes_lt (unique nodes)))

  lookup-placed :
      (nodes : List Bytes) (key : Bytes)
      → lookup (new_ring nodes) key
        ≡ or_first (placed_nodes nodes) (find_from (hash_key key) (placed_nodes nodes))
  unfolding lookup new_ring
  lookup-placed nodes key =
      lookup_hash-ring_of (sort bytes_lt (unique nodes)) (placed_nodes nodes) (hash_key key)

  filter-placed_nodes :
      (nodes : List Bytes)
      → filter (placed_other x) (placed_nodes nodes) ≡ placed_nodes (filter (other_than x) nodes)
  filter-placed_nodes nodes =
      filter-sort placed_before placed_before_asym placed_before_trans (placed_other x)
        (placements (sort bytes_lt (unique nodes)))
      ∙ ap (sort placed_before) (
          filter-placements (sort bytes_lt (unique nodes))
          ∙ ap placements (
              filter-sort bytes_lt bytes_lt_asym bytes_lt_trans (other_than x) (unique nodes)
              ∙ ap (sort bytes_lt) (filter-unique nodes)))

  -- When a node leaves the ring, every key that another node owns stays with that node: only the
  -- keys of the node that left are remapped.
  pub lookup-filter :
      (nodes : List Bytes) (key n : Bytes)
      → other_than x n ≡ true
      → lookup (new_ring nodes) key ≡ ok n
      → lookup (new_ring (filter (other_than x) nodes)) key ≡ ok n
  lookup-filter nodes key n other owns =
      let all = placed_nodes nodes in
      lookup-placed (filter (other_than x) nodes) key
      ∙ rw (← filter-placed_nodes nodes) (
          or_first-filter (hash_key key) all n (find_from (hash_key key) all) refl other
            (sym (lookup-placed nodes key) ∙ owns))
