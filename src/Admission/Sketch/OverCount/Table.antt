-- ===== src/Admission/Sketch/OverCount/Table.antt =====
-- internal/admission/sketch.go: one table of cells against the list of the keys that it counts.
use mathlib.Core.Path.{subst}
use cachet.Base.Bits.{bit_and_mask}
use cachet.HashRing.{split_mix_64, fnv_1a}
use cachet.Window.{modify}
use cachet.Admission.Sketch.{zeroed, cell, cells_from, increment}
use cachet.Base.{
  ℕ, zero, suc, ◌+◌, ◌-◌, ◌*◌, ◌%◌, ◌^◌, ◌≤◌, ◌<◌, bit_and, ◌≡◌, refl, sym, ap, ◌∙◌, ◌≢◌, ◌⊎◌, inl,
  inr, true, false, List, [], ◌∷◌, ◌++◌, map, arith, ◌==◌, if◌then◌else◌, Bool-cases, length,
  get_or, replicate, All, length-replicate, Bytes, bytes_eq, eq_of_bytes_eq, bytes_eq_refl,
}

-- How often a key stands in a list.
unfoldable pub occurrences : Bytes → List Bytes → ℕ
occurrences key [] = 0
occurrences key (k ∷ keys) =
    let rest = occurrences key keys in if bytes_eq k key then rest + 1 else rest

pub occurrences-le : (key : Bytes) (keys : List Bytes) → occurrences key keys ≤ length keys
unfolding occurrences
occurrences-le key [] = omega arith
occurrences-le key (k ∷ keys) = ground (arith, occurrences-le key keys)

step : ℕ → ℕ
step v = (v + 1) % 2 ^ 32

length-modify : (c : ℕ) (f : ℕ → ℕ) (t : List ℕ) → length (modify c f t) ≡ length t
unfolding modify
length-modify c f [] = refl
length-modify zero f (v ∷ t) = refl
length-modify (suc c) f (v ∷ t) = ap suc (length-modify c f t)

get_or-modify_self :
    (c : ℕ) (f : ℕ → ℕ) (t : List ℕ) → c < length t → get_or (modify c f t) c 0 ≡ f (get_or t c 0)
unfolding modify
get_or-modify_self c f [] h = absurd (omega arith)
get_or-modify_self zero f (v ∷ t) h = refl
get_or-modify_self (suc c) f (v ∷ t) h = get_or-modify_self c f t (omega arith)

get_or-modify_ne :
    (c d : ℕ) (f : ℕ → ℕ) (t : List ℕ) → c ≢ d → get_or (modify c f t) d 0 ≡ get_or t d 0
unfolding modify
get_or-modify_ne c d f [] h = refl
get_or-modify_ne zero zero f (v ∷ t) h = absurd (h refl)
get_or-modify_ne zero (suc d) f (v ∷ t) h = refl
get_or-modify_ne (suc c) zero f (v ∷ t) h = refl
get_or-modify_ne (suc c) (suc d) f (v ∷ t) h = get_or-modify_ne c d f t (λ e. h (ap suc e))

modify_self_bounds :
    (c b : ℕ) (t : List ℕ)
    → c < length t
    → b + 1 < 2 ^ 32
    → get_or t c 0 ≤ b
    → get_or (modify c step t) c 0 ≡ get_or t c 0 + 1
unfolding step
modify_self_bounds c b t inside room small = omega (arith, get_or-modify_self c step t inside)

modify_bounds :
    (c d b : ℕ) (t : List ℕ)
    → c < length t
    → b + 1 < 2 ^ 32
    → get_or t d 0 ≤ b
    → (get_or t d 0 ≤ get_or (modify c step t) d 0) × (get_or (modify c step t) d 0 ≤ b + 1)
modify_bounds c d b t inside room small = elim (Bool-cases (c == d)) [
  | inl same ↦
      let e : c ≡ d = ground arith in
      subst
        (λ x.
          (get_or t x 0 ≤ get_or (modify c step t) x 0) × (get_or (modify c step t) x 0 ≤ b + 1))
        e
        (let small' : get_or t c 0 ≤ b = subst (λ x. get_or t x 0 ≤ b) (sym e) small in
          let s = modify_self_bounds c b t inside room small' in (omega arith, omega arith))
  | inr other ↦
      let ne : c ≢ d = λ e. ground arith in
      let s = get_or-modify_ne c d step t ne in (omega arith, omega arith)
]

increment_bounds :
    (cs : List ℕ) (d b : ℕ) (t : List ℕ)
    → All (λ c. c < length t) cs
    → b + length cs < 2 ^ 32
    → get_or t d 0 ≤ b
    → (get_or t d 0 ≤ get_or (increment cs t) d 0) × (get_or (increment cs t) d 0 ≤ b + length cs)
unfolding increment step
increment_bounds [] d b t inside room small = (omega arith, omega arith)
increment_bounds (c ∷ cs) d b t inside room small =
    let one = modify_bounds c d b t inside.0 (omega arith) small in
    let kept = subst (λ n. All (λ x. x < n) cs) (sym (length-modify c step t)) inside.1 in
    let rest = increment_bounds cs d (b + 1) (modify c step t) kept (omega arith) one.1 in
    (omega arith, omega arith)

All-map {ℓ} :
    {A : Type ℓ} (P Q : A → Type 0) → ((a : A) → P a → Q a) → (l : List A) → All P l → All Q l
All-map P Q f [] h = tt
All-map P Q f (a ∷ l) h = (f a h.0, All-map P Q f l h.1)

All-zip {ℓ} :
    {A : Type ℓ} (P Q R : A → Type 0)
    → ((a : A) → P a → Q a → R a)
    → (l : List A) → All P l
    → All Q l
    → All R l
All-zip P Q R f [] h k = tt
All-zip P Q R f (a ∷ l) h k = (f a h.0 k.0, All-zip P Q R f l h.1 k.1)

increment_member :
    (cs : List ℕ) (b : ℕ) (t : List ℕ)
    → All (λ c. c < length t) cs
    → b + length cs < 2 ^ 32
    → ((d : ℕ) → get_or t d 0 ≤ b)
    → All (λ c. get_or t c 0 + 1 ≤ get_or (increment cs t) c 0) cs
unfolding increment step
increment_member [] b t inside room small = tt
increment_member (c ∷ cs) b t inside room small =
    let t1 = modify c step t in
    let kept = subst (λ n. All (λ x. x < n) cs) (sym (length-modify c step t)) inside.1 in
    let up = λ (d : ℕ). modify_bounds c d b t inside.0 (omega arith) (small d) in
    let own = modify_self_bounds c b t inside.0 (omega arith) (small c) in
    let rest = increment_bounds cs c (b + 1) t1 kept (omega arith) (up c).1 in
    (
      omega arith,
      All-map (λ x. get_or t1 x 0 + 1 ≤ get_or (increment cs t1) x 0)
          (λ x. get_or t x 0 + 1 ≤ get_or (increment cs t1) x 0)
          (λ x h. let u = (up x).0 in omega arith) cs
          (increment_member cs (b + 1) t1 kept (omega arith) (λ d. (up d).1)),
    )

length-increment : (cs t : List ℕ) → length (increment cs t) ≡ length t
unfolding increment step
length-increment [] t = refl
length-increment (c ∷ cs) t = length-increment cs (modify c step t) ∙ length-modify c step t

module _ (width depth : ℕ) where
  abbrev pub row_cells : Bytes → List ℕ
  row_cells key = cells_from width key 0 depth

  -- No cell exceeds the increments of the keys, and every cell of a key counts it at least.
  abbrev Bounds : List ℕ → List Bytes → Type 0
  Bounds t keys =
      ((d : ℕ) → get_or t d 0 ≤ length keys * depth)
      × ((key : Bytes) → All (λ c. occurrences key keys ≤ get_or t c 0) (row_cells key))

  abbrev pub Covers : List ℕ → List Bytes → Type 0
  Covers t keys = (length t ≡ width * depth) × (length keys * depth < 2 ^ 32 → Bounds t keys)

  pub length-cells_from :
      (key : Bytes) (row left : ℕ) → length (cells_from width key row left) ≡ left
  unfolding cells_from
  length-cells_from key row zero = refl
  length-cells_from key row (suc left) = ap suc (length-cells_from key (row + 1) left)

  slot_lt :
      (x row s : ℕ) → 0 < width → row < depth → s ≤ x % width → row * width + s < width * depth
  slot_lt x row s w h le =
      let small : x % width < width = grind arith in
      let grows : suc row * width ≤ depth * width = grind arith in grind arith

  cell_lt : (key : Bytes) (row : ℕ) → 0 < width → row < depth → cell width key row < width * depth
  unfolding cell
  cell_lt key row w h =
      let x = split_mix_64 (fnv_1a 14695981039346656037 (key ++ bit_and row 255 ∷ [])) in
      let positive : (width == 0) ≡ false = ground arith in
      let masked = bit_and_mask 31 (x % width) in
      rw positive (slot_lt x row (bit_and (x % width) (2 ^ 31 - 1)) w h (omega arith))

  cells_lt :
      (key : Bytes) (row left : ℕ)
      → 0 < width
      → row + left ≤ depth
      → All (λ c. c < width * depth) (cells_from width key row left)
  unfolding cells_from
  cells_lt key row zero w h = tt
  cells_lt key row (suc left) w h =
      (cell_lt key row w (omega arith), cells_lt key (row + 1) left w (omega arith))

  pub Covers-increment :
      (t : List ℕ) (keys : List Bytes) (key : Bytes)
      → 0 < width
      → Covers t keys
      → Covers (increment (row_cells key) t) (key ∷ keys)
  unfolding occurrences
  Covers-increment t keys key w (size, bounds) = (
    length-increment (row_cells key) t ∙ size,
    λ room. grown (grown_room room) (bounds (less room)),
  )
    where
      less : (suc (length keys)) * depth < 2 ^ 32 → length keys * depth < 2 ^ 32
      less room = grind arith

      grown_room : (suc (length keys)) * depth < 2 ^ 32 → length keys * depth + depth < 2 ^ 32
      grown_room room = grind arith

      grown :
          length keys * depth + depth < 2 ^ 32
          → Bounds t keys
          → Bounds (increment (row_cells key) t) (key ∷ keys)
      grown room (upper, lower) =
          let n = length-cells_from key 0 depth in
          let b = length keys * depth in
          let inside =
            subst (λ m. All (λ c. c < m) (row_cells key)) (sym size)
              (cells_lt key 0 depth w (omega arith)) in
          let fits : b + length (row_cells key) < 2 ^ 32 = omega arith in
          let up = λ (d : ℕ). increment_bounds (row_cells key) d b t inside fits (upper d) in
          let product : suc (length keys) * depth ≡ b + depth = grind arith in
          (
            λ d. let u = (up d).1 in omega arith,
            λ k.
                counted k (Bool-cases (bytes_eq key k)) (lower k) (λ d. (up d).0)
                  (All-zip (λ c. occurrences key keys ≤ get_or t c 0)
                    (λ c. get_or t c 0 + 1 ≤ get_or (increment (row_cells key) t) c 0)
                    (λ c. occurrences key (key ∷ keys) ≤ get_or (increment (row_cells key) t) c 0)
                    (λ c g h. rw (bytes_eq_refl key) (omega arith)) (row_cells key) (lower key)
                    (increment_member (row_cells key) b t inside fits upper)),
          )
        where
          counted :
              (k : Bytes)
              → (bytes_eq key k ≡ true) ⊎ (bytes_eq key k ≡ false)
              → All (λ c. occurrences k keys ≤ get_or t c 0) (row_cells k)
              → ((d : ℕ) → get_or t d 0 ≤ get_or (increment (row_cells key) t) d 0)
              → All
                  (λ c. occurrences key (key ∷ keys) ≤ get_or (increment (row_cells key) t) c 0)
                  (row_cells key)
              → All
                  (λ c. occurrences k (key ∷ keys) ≤ get_or (increment (row_cells key) t) c 0)
                  (row_cells k)
          counted k (inl same) low up own =
              subst
                (λ x.
                  All (λ c. occurrences x (key ∷ keys) ≤ get_or (increment (row_cells key) t) c 0)
                    (row_cells x))
                (eq_of_bytes_eq key k same) own
          counted k (inr other) low up own =
              All-map (λ c. occurrences k keys ≤ get_or t c 0)
                (λ c. occurrences k (key ∷ keys) ≤ get_or (increment (row_cells key) t) c 0)
                (λ c h. let u = up c in rw other (omega arith)) (row_cells k) low

  zeros_length : (t : List ℕ) → length (map zeroed t) ≡ length t
  zeros_length [] = refl
  zeros_length (v ∷ t) = ap suc (zeros_length t)

  zeros_get : (t : List ℕ) (d : ℕ) → get_or (map zeroed t) d 0 ≡ 0
  zeros_get [] d = refl
  zeros_get (v ∷ t) zero = refl
  zeros_get (v ∷ t) (suc d) = zeros_get t d

  All-everywhere : (P : ℕ → Type 0) → ((c : ℕ) → P c) → (cs : List ℕ) → All P cs
  All-everywhere P h [] = tt
  All-everywhere P h (c ∷ cs) = (h c, All-everywhere P h cs)

  pub Covers-clear : (t : List ℕ) (keys : List Bytes) → Covers t keys → Covers (map zeroed t) []
  unfolding occurrences
  Covers-clear t keys (size, bounds) = (
    zeros_length t ∙ size,
    λ room. (
      λ d. let z = zeros_get t d in grind arith,
      λ key. All-everywhere (λ c. 0 ≤ get_or (map zeroed t) c 0) (λ c. omega arith) (row_cells key),
    ),
  )

  zero_get : (n d : ℕ) → ◌≡◌ {A = ℕ} (get_or (replicate {A = ℕ} n 0) d 0) 0
  zero_get zero d = refl
  zero_get (suc n) zero = refl
  zero_get (suc n) (suc d) = zero_get n d

  pub Covers-zeros : Covers (replicate (width * depth) 0) []
  unfolding occurrences
  Covers-zeros = (
    length-replicate (width * depth) 0,
    λ room. (
      λ d. let z = zero_get (width * depth) d in grind arith,
      λ key.
          All-everywhere (λ c. 0 ≤ get_or (replicate (width * depth) 0) c 0) (λ c. omega arith)
            (row_cells key),
    ),
  )
