-- ===== src/Sextant/RecentKeys/Indexed.antt =====
-- pkg/sextant/keys.go against a queue of distinct keys without an index.
use mathlib.Core.Path.{subst}
use cachet.Base.Int.{ℤ, pos, negsuc, leb_ℤ, pos_part}
use cachet.Base.Assoc.{lookup, insert, remove, lookup-insert, lookup-remove}
use cachet.Sextant.RecentKeys.{RecentKeys, new_recent_keys, reindex, append_key, drop_oldest, touch}
use cachet.Base.{
  ℕ, suc, ◌+◌, ◌≤◌, ◌<◌, ◌≡◌, refl, sym, ap, ◌∙◌, inl, inr, true, false, Option, none, some, List,
  [], ◌∷◌, ◌++◌, arith, leb, if◌then◌else◌, Bool-cases, length, drop, length-append, Bytes,
  bytes_eq, eq_of_bytes_eq, bytes_eq_iff,
}

abbrev later : Option ℕ → Option ℕ
later none = none
later (some i) = some (suc i)

-- The first place of a key.
unfoldable pub position : Bytes → List Bytes → Option ℕ
position k [] = none
position k (a ∷ keys) = let rest = position k keys in if bytes_eq a k then some 0 else later rest

abbrev pub Distinct : List Bytes → Type 0
Distinct [] = Unit
Distinct (a ∷ keys) = (position a keys ≡ none) × Distinct keys

-- The index holds the place of every key and no other.
pub record IsIndexed (r : RecentKeys) : Type 0 where
  pub places : (k : Bytes) → lookup k r.index ≡ position k r.keys
  pub distinct : Distinct r.keys
  pub positive : 0 < r.capacity
  pub bounded : length r.keys ≤ r.capacity

abbrev placed : ℕ → Option ℕ → Option ℕ → Option ℕ
placed i none found = found
placed i (some j) found = some (i + j)

lookup-reindex :
    (i : ℕ) (keys : List Bytes) (m : List (Bytes × ℕ)) (k : Bytes)
    → Distinct keys
    → lookup k (reindex i keys m) ≡ placed i (position k keys) (lookup k m)
unfolding reindex position
lookup-reindex i [] m k d = refl
lookup-reindex i (a ∷ keys) m k (new_, d) = elim (Bool-cases (bytes_eq a k)) [
  | inl same ↦
      let absent : position k keys ≡ none =
        subst (λ x. position x keys ≡ none) (eq_of_bytes_eq a k same) new_ in
      lookup-reindex (i + 1) keys (insert a i m) k d
      ∙ rw (absent, lookup-insert a k i m, same) (ap some (omega arith))
  | inr apart ↦
      lookup-reindex (i + 1) keys (insert a i m) k d
      ∙ rw (lookup-insert a k i m, apart) (shifted (position k keys) (lookup k m))
]
  where
    shifted : (p q : Option ℕ) → placed (i + 1) p q ≡ placed i (later p) q
    shifted none q = refl
    shifted (some j) q = ap some (omega arith)

position-append :
    (k b : Bytes) (keys : List Bytes)
    → position k (keys ++ b ∷ []) ≡ elim (position k keys) [
      | none ↦ if bytes_eq b k then some (length keys) else none
      | some j ↦ some j
    ]
unfolding position
position-append k b [] = ground arith
position-append k b (a ∷ keys) = ground (arith, position-append k b keys)

position_old :
    (k b : Bytes) (keys : List Bytes)
    → bytes_eq b k ≡ false
    → position k (keys ++ b ∷ []) ≡ position k keys
position_old k b keys apart = at (position k keys) (position-append k b keys)
  where
    at :
        (p : Option ℕ)
        → position k (keys ++ b ∷ [])
          ≡ elim p [ none ↦ if bytes_eq b k then some (length keys) else none | some j ↦ some j ]
        → position k (keys ++ b ∷ []) ≡ p
    at none e = e ∙ rw apart refl
    at (some j) e = e

position_new :
    (k b : Bytes) (keys : List Bytes)
    → position k keys ≡ none
    → bytes_eq b k ≡ true
    → position k (keys ++ b ∷ []) ≡ some (length keys)
position_new k b keys absent same = position-append k b keys ∙ rw (absent, same) refl

Distinct-append :
    (b : Bytes) (keys : List Bytes)
    → position b keys ≡ none
    → Distinct keys
    → Distinct (keys ++ b ∷ [])
unfolding position
Distinct-append b [] h d = (refl, tt)
Distinct-append b (a ∷ keys) h (new_, d) =
    let apart : bytes_eq a b ≡ false = ground arith in
    let turned : bytes_eq b a ≡ false = ground (arith, bytes_eq_iff a b, bytes_eq_iff b a) in
    let rest : position b keys ≡ none = ground arith in
    (position_old a b keys turned ∙ new_, Distinct-append b keys rest d)

Distinct-head : (a : Bytes) (keys : List Bytes) → Distinct (a ∷ keys) → position a keys ≡ none
Distinct-head a keys d = d.0

IsIndexed-append :
    (r : RecentKeys) (key : Bytes)
    → ((k : Bytes) → lookup k r.index ≡ position k r.keys)
    → Distinct r.keys
    → length r.keys < r.capacity
    → position key r.keys ≡ none
    → IsIndexed (append_key r key)
IsIndexed-append r key places distinct room absent = record {
  places = λ k. lookup-insert key k (length r.keys) r.index ∙ (elim (Bool-cases (bytes_eq key k)) [
    | inl same ↦
        let gone : position k r.keys ≡ none =
          subst (λ x. position x r.keys ≡ none) (eq_of_bytes_eq key k same) absent in
        rw same (sym (position_new k key r.keys gone same))
    | inr apart ↦ rw apart (places k ∙ sym (position_old k key r.keys apart))
  ]);
  distinct = Distinct-append key r.keys absent distinct;
  positive = omega arith;
  bounded = rw (length-append r.keys (key ∷ [])) (omega arith);
}

drop_places :
    (r : RecentKeys) (a : Bytes) (keys : List Bytes)
    → ((k : Bytes) → lookup k r.index ≡ position k (a ∷ keys))
    → Distinct (a ∷ keys)
    → (k : Bytes) → lookup k (reindex 0 keys (remove a r.index)) ≡ position k keys
unfolding position
drop_places r a keys places (new_, d) k =
    lookup-reindex 0 keys (remove a r.index) k d ∙ (elim (Bool-cases (bytes_eq a k)) [
      | inl same ↦
          let absent : position k keys ≡ none =
            subst (λ x. position x keys ≡ none) (eq_of_bytes_eq a k same) new_ in
          rw (absent, lookup-remove a k r.index, same) refl
      | inr apart ↦
          let found : lookup k r.index ≡ later (position k keys) = places k ∙ rw apart refl in
          rw (lookup-remove a k r.index, apart, found) (first (position k keys))
    ])
  where
    first : (p : Option ℕ) → placed 0 p (later p) ≡ p
    first none = refl
    first (some j) = ap some (omega arith)

-- The queue that the keys are: a new key goes to its end, and the oldest leaves when it is full.
abbrev pub queued_at : ℕ → List Bytes → Bytes → Option ℕ → List Bytes
queued_at capacity keys key (some i) = keys
queued_at capacity keys key none =
    (if leb capacity (length keys) then drop 1 keys else keys) ++ key ∷ []

unfoldable pub queued : ℕ → List Bytes → Bytes → List Bytes
queued capacity keys key = queued_at capacity keys key (position key keys)

unfoldable pub touch_all : RecentKeys → List Bytes → RecentKeys
touch_all r [] = r
touch_all r (k ∷ ks) = touch_all (touch r k) ks

unfoldable pub queue_all : ℕ → List Bytes → List Bytes → List Bytes
queue_all capacity keys [] = keys
queue_all capacity keys (k ∷ ks) = queue_all capacity (queued capacity keys k) ks

abbrev Kept : RecentKeys → Bytes → RecentKeys → Type 0
Kept r key t = IsIndexed t × (t.capacity ≡ r.capacity) × (t.keys ≡ queued r.capacity r.keys key)

touch_full :
    (r : RecentKeys) (key : Bytes) (keys : List Bytes)
    → r.keys ≡ keys
    → IsIndexed r
    → position key keys ≡ none
    → leb r.capacity (length keys) ≡ true
    → IsIndexed (append_key (drop_oldest r keys) key)
      × ((append_key (drop_oldest r keys) key).keys ≡ drop 1 keys ++ key ∷ [])
unfolding position
touch_full r key [] e h absent full = let p = h.positive in absurd (ground arith)
touch_full r key (a ∷ keys) e h absent full =
    let gone : position key keys ≡ none = ground arith in
    let d = subst Distinct e h.distinct in
    let n = subst (λ l. length l ≤ r.capacity) e h.bounded in
    (
      IsIndexed-append (drop_oldest r (a ∷ keys)) key
          (drop_places r a keys (λ k. h.places k ∙ ap (position k) e) d) d.1 (omega arith) gone,
      refl,
    )

queued_old :
    (capacity : ℕ) (keys : List Bytes) (key : Bytes) {i : ℕ}
    → position key keys ≡ some i
    → queued capacity keys key ≡ keys
unfolding queued
queued_old capacity keys key e = ap (queued_at capacity keys key) e

queued_full :
    (capacity : ℕ) (keys : List Bytes) (key : Bytes)
    → position key keys ≡ none
    → leb capacity (length keys) ≡ true
    → queued capacity keys key ≡ drop 1 keys ++ key ∷ []
unfolding queued
queued_full capacity keys key e full = ap (queued_at capacity keys key) e ∙ rw full refl

queued_room :
    (capacity : ℕ) (keys : List Bytes) (key : Bytes)
    → position key keys ≡ none
    → leb capacity (length keys) ≡ false
    → queued capacity keys key ≡ keys ++ key ∷ []
unfolding queued
queued_room capacity keys key e room = ap (queued_at capacity keys key) e ∙ rw room refl

touch-Kept : (r : RecentKeys) (key : Bytes) → IsIndexed r → Kept r key (touch r key)
unfolding touch
touch-Kept r key h = at (position key r.keys) refl
  where
    at : (p : Option ℕ) → position key r.keys ≡ p → Kept r key (touch r key)
    at (some i) e = rw (h.places key, e) (h, refl, sym (queued_old r.capacity r.keys key e))
    at none e =
        rw (h.places key, e)
          (elim (Bool-cases (leb r.capacity (length r.keys))) [
            | inl full ↦
                let t = touch_full r key r.keys refl h e full in
                rw full
                  (t.0, kept_capacity r.keys, t.1 ∙ sym (queued_full r.capacity r.keys key e full))
            | inr room ↦ rw room (
              IsIndexed-append r key h.places h.distinct (ground arith) e,
              refl,
              sym (queued_room r.capacity r.keys key e room),
            )
          ])
      where
        kept_capacity :
            (keys : List Bytes) → (append_key (drop_oldest r keys) key).capacity ≡ r.capacity
        kept_capacity [] = refl
        kept_capacity (a ∷ keys) = refl

all_kept :
    (ks : List Bytes) (r : RecentKeys)
    → IsIndexed r
    → IsIndexed (touch_all r ks) × ((touch_all r ks).keys ≡ queue_all r.capacity r.keys ks)
unfolding touch_all queue_all
all_kept [] r h = (h, refl)
all_kept (k ∷ ks) r h =
    let (kept, same, keys) = touch-Kept r k h in
    let (last, rest) = all_kept ks (touch r k) kept in
    (
      last,
      rest
          ∙ ap (λ c. queue_all c (touch r k).keys ks) same
          ∙ ap (λ l. queue_all r.capacity l ks) keys,
    )

-- Whatever keys are written, a new list is the bounded queue of distinct keys, its index holds the place
-- of every key and no other, and it never exceeds its capacity.
pub touch_all-queue_all :
    (capacity : ℤ) (ks : List Bytes)
    → let r = new_recent_keys capacity in
      IsIndexed (touch_all r ks) × ((touch_all r ks).keys ≡ queue_all r.capacity [] ks)
unfolding new_recent_keys position lookup
touch_all-queue_all capacity ks = all_kept ks (new_recent_keys capacity) (record {
  places = λ k. refl;
  distinct = tt;
  positive = positive_capacity capacity;
  bounded = omega arith;
})
  where
    positive_capacity : (c : ℤ) → 0 < (if leb_ℤ c (pos 0) then 10000 else pos_part c)
    positive_capacity (pos n) = ground arith
    positive_capacity (negsuc n) = ground arith
