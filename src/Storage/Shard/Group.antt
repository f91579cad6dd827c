-- ===== src/Storage/Shard/Group.antt =====
-- internal/storage/shard.go: the groups of a batch against its distinct keys.
use mathlib.Core.Path.{subst}
use cachet.Base.Assoc.{insert, lookup-insert}
use cachet.Base.Assoc as assoc
use cachet.Base.Sort.{filter, sort, length-sort}
use cachet.HashRing.{is_member, new_ring}
use cachet.HashRing as ring
use cachet.HashRing.Total.{lookup-of_nodes}
use cachet.Storage.Shard.{
  Error, empty_shard_id, Router, topology, router_of, new_router, routed, shard_for, or_empty,
  add_key, group_from, group,
}
use cachet.Base.{
  ◌≤◌, ◌<◌, ◌≡◌, refl, sym, ap, ◌∙◌, inl, inr, Bool, true, false, some, List, [], ◌∷◌, ◌++◌,
  append_assoc, append-nil, arith, if◌then◌else◌, Bool-cases, length, All, length-append, Bytes,
  bytes_eq, bytes_lt, eq_of_bytes_eq, Result, ok, err, ◌>>=◌,
}

-- The keys that are not in `seen`, each once, in the order of their first places.
unfoldable pub distinct : List Bytes → List Bytes → List Bytes
distinct seen [] = []
distinct seen (k ∷ keys) =
    let skipped = distinct seen keys in
    let added = k ∷ distinct (k ∷ seen) keys in if is_member k seen then skipped else added

abbrev is_shard : Bytes → Result Error Bytes → Bool
is_shard id (ok s) = bytes_eq s id
is_shard id (err e) = false

unfoldable pub owned : Router → Bytes → Bytes → Bool
owned r id key = is_shard id (shard_for r key)

-- Every key has a shard.
abbrev pub Routes : Router → List Bytes → Type 0
Routes r keys = All (λ k. (id : Bytes) × (shard_for r k ≡ ok id)) keys

lookup-add_key :
    (id k j : Bytes) (groups : List (Bytes × List Bytes))
    → or_empty (assoc.lookup j (add_key id k groups))
      ≡ or_empty (assoc.lookup j groups) ++ (if bytes_eq id j then k ∷ [] else [])
lookup-add_key id k j groups =
    ap or_empty (lookup-insert id j (or_empty (assoc.lookup id groups) ++ k ∷ []) groups)
    ∙ either (bytes_eq id j) refl
  where
    either :
        (b : Bool)
        → bytes_eq id j ≡ b
        → or_empty (
            if b then some (or_empty (assoc.lookup id groups) ++ k ∷ []) else assoc.lookup j groups)
          ≡ or_empty (assoc.lookup j groups) ++ (if b then k ∷ [] else [])
    either true same =
        ap (λ x. or_empty (assoc.lookup x groups) ++ k ∷ []) (eq_of_bytes_eq id j same)
    either false apart = sym (append-nil (or_empty (assoc.lookup j groups)))

filter_head :
    (p : Bytes → Bool) (k : Bytes) (keys : List Bytes)
    → filter p (k ∷ keys) ≡ (if p k then k ∷ [] else []) ++ filter p keys
unfolding filter
filter_head p k keys = ground arith

owned-shard :
    (r : Router) (own k id : Bytes) → shard_for r k ≡ ok own → owned r id k ≡ bytes_eq own id
unfolding owned
owned-shard r own k id e = ap (is_shard id) e

from_filter :
    (r : Router) (keys : List Bytes) (groups : List (Bytes × List Bytes)) (seen : List Bytes)
    → Routes r keys
    → (out : List (Bytes × List Bytes)) × (group_from r groups seen keys ≡ ok out)
      × ((id : Bytes)
          → or_empty (assoc.lookup id out)
            ≡ or_empty (assoc.lookup id groups) ++ filter (owned r id) (distinct seen keys))
unfolding group_from distinct filter
from_filter r [] groups seen h =
    (groups, refl, λ id. sym (append-nil (or_empty (assoc.lookup id groups))))
from_filter r (k ∷ keys) groups seen ((own, e), h) = elim (Bool-cases (is_member k seen)) [
  | inl dup ↦ rw dup (from_filter r keys groups seen h)
  | inr new_ ↦
      let (out, made, all) = from_filter r keys (add_key own k groups) (k ∷ seen) h in
      rw new_ (
        out,
        ap (λ o. o >>= λ id. group_from r (add_key id k groups) (k ∷ seen) keys) e ∙ made,
        λ id.
            all id
            ∙ ap (λ l. l ++ filter (owned r id) (distinct (k ∷ seen) keys))
                (lookup-add_key own k id groups)
            ∙ append_assoc (or_empty (assoc.lookup id groups))
                (if bytes_eq own id then k ∷ [] else [])
                (filter (owned r id) (distinct (k ∷ seen) keys))
            ∙ ap (λ l. or_empty (assoc.lookup id groups) ++ l)
                (ap
                    (λ b.
                      (if b then k ∷ [] else []) ++ filter (owned r id) (distinct (k ∷ seen) keys))
                    (sym (owned-shard r own k id e))
                  ∙ sym (filter_head (owned r id) k (distinct (k ∷ seen) keys))),
      )
]

-- The names that a topology keeps.
topology_grows :
    (shards names out : List Bytes) → topology names shards ≡ ok out → length names ≤ length out
unfolding topology
topology_grows [] names out h =
    let e : names ≡ out = ground arith in subst (λ l. length names ≤ length l) e (omega arith)
topology_grows (s ∷ shards) names out h = elim (Bool-cases (bytes_eq s [])) [
  | inl empty ↦
      let bad : topology names (s ∷ shards) ≡ err empty_shard_id = rw empty refl in
      absurd (ground arith)
  | inr full ↦
      let rest : topology (if is_member s names then names else names ++ s ∷ []) shards ≡ ok out =
        sym (rest_path full) ∙ h in
      let n =
        topology_grows shards (if is_member s names then names else names ++ s ∷ []) out rest in
      elim (Bool-cases (is_member s names)) [
        | inl dup ↦
            subst (λ l. length l ≤ length out) (ap (λ b. if b then names else names ++ s ∷ []) dup)
              n
        | inr new_ ↦
            let m =
              subst (λ l. length l ≤ length out)
                (ap (λ b. if b then names else names ++ s ∷ []) new_) n in
            omega (arith, length-append names (s ∷ []))
      ]
]
  where
    rest_path :
        bytes_eq s [] ≡ false
        → topology names (s ∷ shards)
          ≡ topology (if is_member s names then names else names ++ s ∷ []) shards
    rest_path e = rw e refl

topology_positive :
    (s : Bytes) (shards out : List Bytes) → topology [] (s ∷ shards) ≡ ok out → 0 < length out
unfolding topology is_member
topology_positive s shards out h = elim (Bool-cases (bytes_eq s [])) [
  | inl empty ↦
      let bad : topology [] (s ∷ shards) ≡ err empty_shard_id = rw empty refl in
      absurd (ground arith)
  | inr full ↦
      let rest : topology [] (s ∷ shards) ≡ topology (s ∷ []) shards = rw full refl in
      topology_grows shards (s ∷ []) out (sym rest ∙ h)
]

new_router_names :
    (shards : List Bytes) (r : Router)
    → new_router shards ≡ ok r
    → (m : Bytes) × (nodes : List Bytes) × (r.ring ≡ new_ring (m ∷ nodes))
unfolding new_router
new_router_names [] r h = absurd (ground arith)
new_router_names (s ∷ shards) r h = at (topology [] (s ∷ shards)) refl h
  where
    at :
        (o : Result Error (List Bytes))
        → topology [] (s ∷ shards) ≡ o
        → (o >>= λ names. ok (router_of names)) ≡ ok r
        → (m : Bytes) × (nodes : List Bytes) × (r.ring ≡ new_ring (m ∷ nodes))
    at (err e) made h = absurd (ground arith)
    at (ok names) made h =
        let same : router_of names ≡ r = ground arith in
        let n = topology_positive s shards names made in
        sorted (sort bytes_lt names) refl (omega (arith, length-sort bytes_lt names))
          (sym (ap (λ x. x.ring) same))
      where
        sorted :
            (l : List Bytes)
            → sort bytes_lt names ≡ l
            → 0 < length (sort bytes_lt names)
            → r.ring ≡ new_ring (sort bytes_lt names)
            → (m : Bytes) × (nodes : List Bytes) × (r.ring ≡ new_ring (m ∷ nodes))
        sorted [] e n h = absurd (let z = subst (λ l. 0 < length l) e n in omega arith)
        sorted (m ∷ nodes) e n h = (m, nodes, h ∙ ap new_ring e)

shard_for-new_router :
    (shards : List Bytes) (r : Router) (key : Bytes)
    → new_router shards ≡ ok r
    → bytes_eq key [] ≡ false
    → (id : Bytes) × (shard_for r key ≡ ok id)
unfolding shard_for
shard_for-new_router shards r key h full =
    let (m, nodes, e) = new_router_names shards r h in
    let (id, (found, member)) = lookup-of_nodes m nodes key in
    (id, rw full (ap (λ g. routed (ring.lookup g key)) e ∙ ap routed found))

Routes-new_router :
    (shards : List Bytes) (r : Router) (keys : List Bytes)
    → new_router shards ≡ ok r
    → All (λ k. bytes_eq k [] ≡ false) keys
    → Routes r keys
Routes-new_router shards r [] h full = tt
Routes-new_router shards r (k ∷ keys) h full =
    (shard_for-new_router shards r k h full.0, Routes-new_router shards r keys h full.1)

-- Over a topology that `NewRouter` accepts, a batch of keys that are not empty is grouped, and the group
-- of a shard is its keys of the batch, each once, in the order of their first places.
pub group-filter :
    (shards : List Bytes) (r : Router) (keys : List Bytes) (id : Bytes)
    → new_router shards ≡ ok r
    → All (λ k. bytes_eq k [] ≡ false) keys
    → (out : List (Bytes × List Bytes)) × (group r keys ≡ ok out)
      × (or_empty (assoc.lookup id out) ≡ filter (owned r id) (distinct [] keys))
unfolding group assoc.lookup
group-filter shards r keys id h full =
    let (out, made, all) = from_filter r keys [] [] (Routes-new_router shards r keys h full) in
    (out, made, all id)
