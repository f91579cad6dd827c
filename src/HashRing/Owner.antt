-- ===== src/HashRing/Owner.antt =====
-- internal/hashring/ring.go: Lookup on the placements of a ring, without its two arrays.
use cachet.HashRing.{Error, no_nodes, ring_of, search, wrap, owner_at, lookup_hash}
use cachet.Base.{
  ℕ, suc, ◌<◌, ◌≡◌, refl, ap, ◌∙◌, ◌⊎◌, inl, inr, false, Option, none, some, List, [], ◌∷◌, map,
  arith, leb, ◌==◌, if◌then◌else◌, ==_refl, Bool-cases, length, get_elem?, Bytes, Result, ok, err,
}

-- The first placement at or after a point.
unfoldable pub find_from : ℕ → List (ℕ × Bytes) → Option Bytes
find_from h [] = none
find_from h ((p, n) ∷ placed) = let rest = find_from h placed in if leb h p then some n else rest

abbrev pub first_owner : List (ℕ × Bytes) → Result Error Bytes
first_owner [] = err no_nodes
first_owner ((p, n) ∷ placed) = ok n

abbrev pub or_first : List (ℕ × Bytes) → Option Bytes → Result Error Bytes
or_first placed none = first_owner placed
or_first placed (some n) = ok n

abbrev points : List (ℕ × Bytes) → List ℕ
points placed = map (λ p. p.0) placed

abbrev owners : List (ℕ × Bytes) → List Bytes
owners placed = map (λ p. p.1) placed

search-find :
    (h : ℕ) (placed : List (ℕ × Bytes))
    → ((search h (points placed) ≡ length (points placed)) × (find_from h placed ≡ none))
      ⊎ ((n : Bytes) × ((search h (points placed) < length (points placed))
            × ((get_elem? (owners placed) (search h (points placed)) ≡ some n)
                × (find_from h placed ≡ some n))))
unfolding search find_from
search-find h [] = inl (refl, refl)
search-find h ((p, n) ∷ placed) = elim (Bool-cases (leb h p)) [
  | inl here ↦ rw here (inr (n, (omega arith, (refl, refl))))
  | inr before ↦ rw before (elim (search-find h placed) [
    | inl (e, f) ↦ inl (ap suc e, f)
    | inr (m, (lt, (e, f))) ↦ inr (m, (omega arith, (e, f)))
  ])
]

wrapped : (n i : ℕ) (os : List Bytes) → i ≡ suc n → get_elem? os (wrap (suc n) i) ≡ get_elem? os 0
wrapped n i os e = rw e (rw (==_refl (suc n)) refl)

inside : (n i : ℕ) (os : List Bytes) → i < n → get_elem? os (wrap n i) ≡ get_elem? os i
inside n i os lt = let other : (i == n) ≡ false = ground arith in rw other refl

lookup_hash-cons :
    (sorted : List Bytes) (p : ℕ) (n : Bytes) (placed : List (ℕ × Bytes)) (h : ℕ)
    → let all = (p, n) ∷ placed in
      lookup_hash (ring_of sorted all) h
      ≡ owner_at (get_elem? (owners all) (wrap (length (points all)) (search h (points all))))
unfolding lookup_hash
lookup_hash-cons sorted p n placed h = ground arith

find_from-nil : (h : ℕ) → find_from h [] ≡ none
unfolding find_from
find_from-nil h = refl

lookup_hash-nil : (sorted : List Bytes) (h : ℕ) → lookup_hash (ring_of sorted []) h ≡ err no_nodes
unfolding lookup_hash
lookup_hash-nil sorted h = refl

-- Lookup is the owner of the first placement at or after the hash, or else of the first one.
pub lookup_hash-ring_of :
    (sorted : List Bytes) (placed : List (ℕ × Bytes)) (h : ℕ)
    → lookup_hash (ring_of sorted placed) h ≡ or_first placed (find_from h placed)
lookup_hash-ring_of sorted [] h = rw (find_from-nil h) (lookup_hash-nil sorted h)
lookup_hash-ring_of sorted ((p, n) ∷ placed) h =
    let all : List (ℕ × Bytes) = (p, n) ∷ placed in
    let start = lookup_hash-cons sorted p n placed h in
    elim (search-find h all) [
      | inl (e, f) ↦
          start
          ∙ ap owner_at (wrapped (length (points placed)) (search h (points all)) (owners all) e)
          ∙ rw f refl
      | inr (m, (lt, (e, f))) ↦
          start
          ∙ ap owner_at (inside (length (points all)) (search h (points all)) (owners all) lt ∙ e)
          ∙ rw f refl
    ]
