-- ===== src/Admission/Sketch/OverCount/Estimate.antt =====
-- internal/admission/sketch.go: what the tables of a window estimate, against the lists of their keys.
use cachet.Admission.Sketch.{min_cell, estimate}
use cachet.Admission.Sketch.OverCount.Table.{
  occurrences, occurrences-le, row_cells, length-cells_from, Covers,
}
use cachet.Base.{
  ℕ, ◌+◌, ◌-◌, ◌*◌, ◌%◌, ◌^◌, ◌≤◌, ◌<◌, ◌≡◌, List, [], ◌∷◌, arith, ltb, if◌then◌else◌, length,
  get_or, All, Bytes,
}

unfoldable pub total_occurrences : Bytes → List (List Bytes) → ℕ
total_occurrences key [] = 0
total_occurrences key (k ∷ ks) = occurrences key k + total_occurrences key ks

unfoldable pub total_length : List (List Bytes) → ℕ
total_length [] = 0
total_length (k ∷ ks) = length k + total_length ks

module _ (width depth : ℕ) where
  min_cell_le : (least : ℕ) (t cs : List ℕ) → min_cell least t cs ≤ least
  unfolding min_cell
  min_cell_le least t [] = omega arith
  min_cell_le least t (c ∷ cs) =
      let v = get_or t c 0 in
      let rest = min_cell_le (if ltb v least then v else least) t cs in ground (arith, rest)

  min_cell_ge :
      (n least : ℕ) (t cs : List ℕ)
      → n ≤ least
      → All (λ c. n ≤ get_or t c 0) cs
      → n ≤ min_cell least t cs
  unfolding min_cell
  min_cell_ge n least t [] le all = le
  min_cell_ge n least t (c ∷ cs) le all =
      min_cell_ge n (if ltb (get_or t c 0) least then get_or t c 0 else least) t cs (lower all.0)
        all.1
    where
      lower : n ≤ get_or t c 0 → n ≤ (if ltb (get_or t c 0) least then get_or t c 0 else least)
      lower h = ground arith

  min_cell_head :
      (t : List ℕ) (key : Bytes) (b : ℕ)
      → 0 < depth
      → ((d : ℕ) → get_or t d 0 ≤ b)
      → min_cell (2 ^ 32 - 1) t (row_cells width depth key) ≤ b
  unfolding min_cell
  min_cell_head t key b live upper =
      first (row_cells width depth key) (length-cells_from width depth key 0 depth)
    where
      first : (cs : List ℕ) → length cs ≡ depth → min_cell (2 ^ 32 - 1) t cs ≤ b
      first [] e = absurd (omega arith)
      first (c ∷ cs) e =
          let v = get_or t c 0 in
          let rest = min_cell_le (if ltb v (2 ^ 32 - 1) then v else 2 ^ 32 - 1) t cs in
          let u = upper c in ground (arith, rest)

  abbrev pub AllCovers : List (List ℕ) → List (List Bytes) → Type 0
  AllCovers [] [] = Unit
  AllCovers [] (k ∷ ks) = ⊥
  AllCovers (t ∷ ts) [] = ⊥
  AllCovers (t ∷ ts) (k ∷ ks) = Covers width depth t k × AllCovers ts ks

  estimate_from :
      (ts : List (List ℕ)) (ks : List (List Bytes)) (key : Bytes) (acc : ℕ)
      → 0 < depth
      → AllCovers ts ks
      → acc + total_length ks * depth < 2 ^ 32
      → acc + total_occurrences key ks ≤ estimate ts (row_cells width depth key) acc
  unfolding estimate total_occurrences total_length
  estimate_from [] [] key acc live h room = omega arith
  estimate_from [] (k ∷ ks) key acc live h room = absurd h
  estimate_from (t ∷ ts) [] key acc live h room = absurd h
  estimate_from (t ∷ ts) (k ∷ ks) key acc live (head, tail) room =
      let split : (length k + total_length ks) * depth
          ≡ length k * depth + total_length ks * depth =
        grind arith in
      let own : length k * depth < 2 ^ 32 = omega arith in
      let bounds = head.1 own in
      let m = min_cell (2 ^ 32 - 1) t (row_cells width depth key) in
      let most : m ≤ length k * depth = min_cell_head t key (length k * depth) live bounds.0 in
      let few = occurrences-le key k in
      let once : length k ≤ length k * depth = grind arith in
      let least : occurrences key k ≤ m =
        min_cell_ge (occurrences key k) (2 ^ 32 - 1) t (row_cells width depth key) (omega arith)
          (bounds.1 key) in
      let exact : (acc + m) % 2 ^ 32 ≡ acc + m = omega arith in
      let rest = estimate_from ts ks key (acc + m) live tail (omega arith) in rw exact (omega arith)

  -- The estimate of a row of tables counts a key at least as often as it stands in their lists.
  pub estimate-ge :
      (ts : List (List ℕ)) (ks : List (List Bytes)) (key : Bytes)
      → 0 < depth
      → AllCovers ts ks
      → total_length ks * depth < 2 ^ 32
      → total_occurrences key ks ≤ estimate ts (row_cells width depth key) 0
  estimate-ge ts ks key live h room =
      let e = estimate_from ts ks key 0 live h (omega arith) in omega arith
