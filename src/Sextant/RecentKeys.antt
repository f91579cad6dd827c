-- ===== src/Sextant/RecentKeys.antt =====
-- pkg/sextant/keys.go: the bounded list of the keys written last. The choice of `math/rand` is a
-- parameter.
pub mod Indexed
use cachet.Base.Int.{ℤ, pos, leb_ℤ, pos_part}
use cachet.Base.Assoc.{lookup, insert, remove}
use cachet.Base.{
  ℕ, zero, suc, ◌+◌, ◌-◌, ◌*◌, ◌/◌, ◌%◌, ◌^◌, ◌≤◌, ◌<◌, min, max, bit_and, bit_or, bit_xor, ◌≡◌,
  refl, sym, ap, ◌∙◌, ◌≢◌, ◌↔◌, ◌⊎◌, inl, inr, Bool, true, false, not, ◌&&◌, ◌||◌, Option, none,
  some, List, [], ◌∷◌, ◌++◌, map, append_assoc, append-nil, arith, ltb, leb, ◌==◌, if◌then◌else◌,
  ltb→lt, lt→ltb, le→ltb, leb→le, le→leb, ==_iff, ==_refl, tests, Bool-cases, Option-cases, &&_true,
  length, get_elem?, get_or, set, take, drop, replicate, All, length-append, take_append,
  drop_append, length-replicate, All-append, Bytes, IsByte, ascii, bytes_eq, bytes_lt, bytes_le,
  eq_of_bytes_eq, bytes_eq_refl, bytes_eq_iff, bytes_eq_ne, Result, ok, err, ◌>>=◌, ◌>>◌, require,
}

pub record RecentKeys : Type 0 where
  pub capacity : ℕ
  pub keys : List Bytes
  pub index : List (Bytes × ℕ)

unfoldable pub new_recent_keys : ℤ → RecentKeys
new_recent_keys capacity = record {
  capacity = if leb_ℤ capacity (pos 0) then 10000 else pos_part capacity;
  keys = [];
  index = [];
}

-- The loop that writes the places of the keys again.
unfoldable pub reindex : ℕ → List Bytes → List (Bytes × ℕ) → List (Bytes × ℕ)
reindex i [] index = index
reindex i (k ∷ keys) index = reindex (i + 1) keys (insert k i index)

abbrev pub append_key : RecentKeys → Bytes → RecentKeys
append_key r key = record {
  capacity = r.capacity;
  keys = r.keys ++ key ∷ [];
  index = insert key (length r.keys) r.index;
}

-- An empty list has no oldest key, where Go panics: the capacity is positive.
abbrev pub drop_oldest : RecentKeys → List Bytes → RecentKeys
drop_oldest r [] = r
drop_oldest r (oldest ∷ keys) = record {
  capacity = r.capacity;
  keys = keys;
  index = reindex 0 keys (remove oldest r.index);
}

abbrev pub touch_new : RecentKeys → Bytes → RecentKeys
touch_new r key =
    append_key (if leb r.capacity (length r.keys) then drop_oldest r r.keys else r) key

abbrev pub touch_at : RecentKeys → Bytes → Option ℕ → RecentKeys
touch_at r key (some i) = r
touch_at r key none = touch_new r key

unfoldable pub touch : RecentKeys → Bytes → RecentKeys
touch r key = touch_at r key (lookup key r.index)

unfoldable pub next : (ℕ → ℕ) → RecentKeys → Option Bytes
next int_n r = if length r.keys == 0 then none else some (get_or r.keys (int_n (length r.keys)) [])
