-- ===== src/HashRing.antt =====
-- internal/hashring/ring.go: the consistent-hash ring. The point of a string is the FNV-1a digest of
-- its bytes, mixed; a number of the ring is a uint64.
pub mod Mix
pub mod Owner
pub mod Remap
pub mod Total
mod Tests
use cachet.Base.Sort.{sort}
use cachet.Base.Decimal.{format_uint}
use cachet.Base.{
  ℕ, zero, suc, ◌+◌, ◌-◌, ◌*◌, ◌/◌, ◌%◌, ◌^◌, ◌≤◌, ◌<◌, min, max, bit_and, bit_or, bit_xor, ◌≡◌,
  refl, sym, ap, ◌∙◌, ◌≢◌, ◌↔◌, ◌⊎◌, inl, inr, Bool, true, false, not, ◌&&◌, ◌||◌, Option, none,
  some, List, [], ◌∷◌, ◌++◌, map, append_assoc, append-nil, arith, ltb, leb, ◌==◌, if◌then◌else◌,
  ltb→lt, lt→ltb, le→ltb, leb→le, le→leb, ==_iff, ==_refl, tests, Bool-cases, Option-cases, &&_true,
  length, get_elem?, get_or, set, take, drop, replicate, All, length-append, take_append,
  drop_append, length-replicate, All-append, Bytes, IsByte, ascii, bytes_eq, bytes_lt, bytes_le,
  eq_of_bytes_eq, bytes_eq_refl, bytes_eq_iff, bytes_eq_ne, Result, ok, err, ◌>>=◌, ◌>>◌, require,
}

abbrev pub ring_virtual_nodes : ℕ
ring_virtual_nodes = 256

pub record Ring : Type 0 where
  pub points : List ℕ
  pub owner : List Bytes
  pub nodes : List Bytes

-- `index_out_of_range` is the panic of `r.owner[i]`.
pub data Error : Type 0 where
  no_nodes index_out_of_range : Error

-- The constants are 0x9E3779B97F4A7C15, 0xBF58476D1CE4E5B9 and 0x94D049BB133111EB.
unfoldable pub split_mix_64 : ℕ → ℕ
split_mix_64 x =
    let a = (x + 11400714819323198485) % 2 ^ 64 in
    let b = bit_xor a (a / 2 ^ 30) * 13787848793156543929 % 2 ^ 64 in
    let c = bit_xor b (b / 2 ^ 27) * 10723151780598845931 % 2 ^ 64 in bit_xor c (c / 2 ^ 31)

-- The digest of hash/fnv's New64a after the bytes.
unfoldable pub fnv_1a : ℕ → Bytes → ℕ
fnv_1a h [] = h
fnv_1a h (b ∷ s) = fnv_1a (bit_xor h b * 1099511628211 % 2 ^ 64) s

unfoldable pub hash_key : Bytes → ℕ
hash_key s = split_mix_64 (fnv_1a 14695981039346656037 s)

unfoldable pub is_member : Bytes → List Bytes → Bool
is_member n [] = false
is_member n (m ∷ nodes) = bytes_eq m n || is_member n nodes

-- The keys of the map `unique`.
unfoldable pub unique : List Bytes → List Bytes
unique [] = []
unique (n ∷ nodes) = let rest = unique nodes in if is_member n nodes then rest else n ∷ rest

-- A placement is a point and its node.
unfoldable pub placed_before : ℕ × Bytes → ℕ × Bytes → Bool
placed_before (p, n) (q, m) = if p == q then bytes_lt n m else ltb p q

-- The placements of one node, for the indices from `i` on; `count` of them are left.
unfoldable pub node_placements : Bytes → ℕ → ℕ → List (ℕ × Bytes)
node_placements n i zero = []
node_placements n i (suc count) =
    (hash_key (n ++ b'#' ∷ format_uint i), n) ∷ node_placements n (i + 1) count

unfoldable pub placements : List Bytes → List (ℕ × Bytes)
placements [] = []
placements (n ∷ nodes) = node_placements n 0 ring_virtual_nodes ++ placements nodes

abbrev pub ring_of : List Bytes → List (ℕ × Bytes) → Ring
ring_of sorted placed = record {
  points = map (λ p. p.0) placed;
  owner = map (λ p. p.1) placed;
  nodes = sorted;
}

unfoldable pub new_ring : List Bytes → Ring
new_ring nodes =
    let sorted = sort bytes_lt (unique nodes) in
    ring_of sorted (sort placed_before (placements sorted))

-- `sort.Search` on the points: the first index whose point is at least `h`, or the length.
unfoldable pub search : ℕ → List ℕ → ℕ
search h [] = 0
search h (p ∷ points) = let rest = search h points in if leb h p then 0 else suc rest

abbrev wrap : ℕ → ℕ → ℕ
wrap n i = if i == n then 0 else i

abbrev pub owner_at : Option Bytes → Result Error Bytes
owner_at none = err index_out_of_range
owner_at (some n) = ok n

unfoldable pub lookup_hash : Ring → ℕ → Result Error Bytes
lookup_hash r h =
    let found = owner_at (get_elem? r.owner (wrap (length r.points) (search h r.points))) in
    if length r.points == 0 then err no_nodes else found

unfoldable pub lookup : Ring → Bytes → Result Error Bytes
lookup r key = lookup_hash r (hash_key key)
