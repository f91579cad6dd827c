-- ===== src/Base/Sort.antt =====
-- Go's sort.Slice and sort.Strings, as insertion sort by a Boolean order, and its law with a filter.
-- The result does not depend on the algorithm as long as elements that are equal in the order are
-- equal.
use mathlib.Core.Path.{◌≡◌, refl, ap, ◌∙◌}
use mathlib.Core.Logic.{inl, inr}
use mathlib.Core.Bool.{Bool, true, false}
use mathlib.Core.List.{List, [], ◌∷◌}
use native.Mathlib.Omega.{arith}
use Prim.Native.Nat.{suc}
use cachet.Base.Tests.{if◌then◌else◌, Bool-cases}
use cachet.Base.Lists.{All, length}
use cachet.Base.Text.{Bytes, bytes_lt}

module _ {ℓ} {A : Type ℓ} (p : A → Bool) where
  unfoldable pub filter : List A → List A
  filter [] = []
  filter (a ∷ l) = let rest = filter l in if p a then a ∷ rest else rest

  All-filter {κ} : (P : A → Type κ) (l : List A) → All P l → All P (filter l)
  unfolding filter
  All-filter P [] h = h
  All-filter P (a ∷ l) h = elim (Bool-cases (p a)) [
    | inl kept ↦ rw kept (h.0, All-filter P l h.1)
    | inr dropped ↦ rw dropped (All-filter P l h.1)
  ]

module _ {ℓ} {A : Type ℓ} (lt : A → A → Bool) where
  unfoldable pub insert_sorted : A → List A → List A
  insert_sorted a [] = a ∷ []
  insert_sorted a (b ∷ l) = let rest = insert_sorted a l in if lt b a then b ∷ rest else a ∷ b ∷ l

  unfoldable pub sort : List A → List A
  sort [] = []
  sort (a ∷ l) = insert_sorted a (sort l)

  abbrev pub IsSorted : List A → Type ℓ
  IsSorted [] = Unit {ℓ}
  IsSorted (a ∷ l) = All (λ b. lt b a ≡ false) l × IsSorted l

  All-insert_sorted {κ} :
      (P : A → Type κ) (a : A) (l : List A) → P a → All P l → All P (insert_sorted a l)
  unfolding insert_sorted
  All-insert_sorted P a [] h hs = (h, hs)
  All-insert_sorted P a (b ∷ l) h hs = elim (Bool-cases (lt b a)) [
    | inl less ↦ rw less (hs.0, All-insert_sorted P a l h hs.1)
    | inr more ↦ rw more (h, hs)
  ]

  pub All-sort {κ} : (P : A → Type κ) (l : List A) → All P l → All P (sort l)
  unfolding sort
  All-sort P [] h = h
  All-sort P (a ∷ l) h = All-insert_sorted P a (sort l) h.0 (All-sort P l h.1)

  length-insert_sorted : (a : A) (l : List A) → length (insert_sorted a l) ≡ suc (length l)
  unfolding insert_sorted
  length-insert_sorted a [] = refl
  length-insert_sorted a (b ∷ l) = ground (arith, length-insert_sorted a l)

  pub length-sort : (l : List A) → length (sort l) ≡ length l
  unfolding sort
  length-sort [] = refl
  length-sort (a ∷ l) = length-insert_sorted a (sort l) ∙ ap suc (length-sort l)

  insert_front : (a : A) (l : List A) → All (λ b. lt b a ≡ false) l → insert_sorted a l ≡ a ∷ l
  unfolding insert_sorted
  insert_front a [] h = refl
  insert_front a (b ∷ l) h = rw h.0 refl

  module _ (asym : (a b : A) → lt a b ≡ true → lt b a ≡ false)
      (trans : (a b c : A) → lt c b ≡ false → lt b a ≡ false → lt c a ≡ false) where
    below :
        (a b : A) (l : List A)
        → lt b a ≡ false
        → All (λ c. lt c b ≡ false) l
        → All (λ c. lt c a ≡ false) l
    below a b [] h hs = hs
    below a b (c ∷ l) h hs = (trans a b c hs.0 h, below a b l h hs.1)

    insert_sorted-IsSorted : (a : A) (l : List A) → IsSorted l → IsSorted (insert_sorted a l)
    unfolding insert_sorted
    insert_sorted-IsSorted a [] h = (tt, h)
    insert_sorted-IsSorted a (b ∷ l) h = elim (Bool-cases (lt b a)) [
      | inl less ↦ rw less (
        All-insert_sorted (λ c. lt c b ≡ false) a l (asym b a less) h.0,
        insert_sorted-IsSorted a l h.1,
      )
      | inr more ↦ rw more ((more, below a b l more h.0), h)
    ]

    sort-IsSorted : (l : List A) → IsSorted (sort l)
    unfolding sort
    sort-IsSorted [] = tt
    sort-IsSorted (a ∷ l) = insert_sorted-IsSorted a (sort l) (sort-IsSorted l)

    filter-insert_sorted :
        (p : A → Bool) (a : A) (l : List A)
        → IsSorted l
        → filter p (insert_sorted a l) ≡ (if p a then insert_sorted a (filter p l) else filter p l)
    unfolding insert_sorted filter
    filter-insert_sorted p a [] h = refl
    filter-insert_sorted p a (b ∷ l) h =
        let ih = filter-insert_sorted p a l h.1 in
        elim (Bool-cases (lt b a)) [
          | inl less ↦ rw less (ground (arith, ih))
          | inr more ↦
              let front =
                insert_front a (filter p l)
                  (All-filter p (λ c. lt c a ≡ false) l (below a b l more h.0)) in
              rw more (ground (arith, front))
        ]

    pub filter-sort : (p : A → Bool) (l : List A) → filter p (sort l) ≡ sort (filter p l)
    unfolding sort filter
    filter-sort p [] = refl
    filter-sort p (a ∷ l) = elim (Bool-cases (p a)) [
      | inl kept ↦
          filter-insert_sorted p a (sort l) (sort-IsSorted l)
          ∙ rw kept (ap (insert_sorted a) (filter-sort p l))
      | inr dropped ↦
          filter-insert_sorted p a (sort l) (sort-IsSorted l) ∙ rw dropped (filter-sort p l)
    ]

pub bytes_lt_asym : (a b : Bytes) → bytes_lt a b ≡ true → bytes_lt b a ≡ false
unfolding bytes_lt
bytes_lt_asym [] [] h = refl
bytes_lt_asym [] (b ∷ bs) h = refl
bytes_lt_asym (a ∷ s) [] h = cc
bytes_lt_asym (a ∷ s) (b ∷ t) h = ground (arith, bytes_lt_asym s t)

pub bytes_lt_trans :
    (a b c : Bytes) → bytes_lt c b ≡ false → bytes_lt b a ≡ false → bytes_lt c a ≡ false
unfolding bytes_lt
bytes_lt_trans [] [] c h k = h
bytes_lt_trans [] (b ∷ t) [] h k = refl
bytes_lt_trans [] (b ∷ t) (c ∷ u) h k = refl
bytes_lt_trans (a ∷ s) [] c h k = cc
bytes_lt_trans (a ∷ s) (b ∷ t) [] h k = cc
bytes_lt_trans (a ∷ s) (b ∷ t) (c ∷ u) h k = ground (arith, bytes_lt_trans s t u)
