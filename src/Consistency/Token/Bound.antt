-- ===== src/Consistency/Token/Bound.antt =====
-- pkg/consistency/session.go: the cap on a session's watermarks, and which of them is evicted.
use cachet.Base.Int.{ℤ, pos, negsuc}
use cachet.Base.Assoc.{lookup, remove, length-insert, length-remove-lt}
use cachet.Consistency.Token.{
  Watermark, Token, mark, new_token, find_oldest, drop_shard, evict_oldest, make_room, put,
  advance_locked, advance, version_of, watermark, is_present, degraded, merge,
}
use cachet.Consistency.Token.Advance.{IsValid, KeptOrDegraded, put-degraded, put_kept}
use cachet.Base.{
  ℕ, zero, suc, ◌+◌, ◌%◌, ◌^◌, ◌≤◌, ◌<◌, ◌≡◌, refl, sym, ◌∙◌, ◌≢◌, ◌⊎◌, inl, inr, true, false,
  Option, none, some, List, [], ◌∷◌, arith, ltb, leb, if◌then◌else◌, Bool-cases, length, Bytes,
  bytes_eq, eq_of_bytes_eq, bytes_eq_refl,
}

-- The loop ends with an entry of the list, or with the one it started from.
found_in :
    (m : List (Bytes × Watermark)) (k : Bytes) (u : ℕ) (r : Bytes) (n : ℕ)
    → find_oldest m (some (k, u)) ≡ some (r, n)
    → bytes_eq k r ≡ false
    → lookup r m ≢ none
unfolding find_oldest lookup
found_in [] k u r n e other = absurd (ground (arith, bytes_eq_refl r, bytes_eq_refl k))
found_in ((i, x) ∷ m) k u r n e other = ground (arith, found_in m i x.used r n, found_in m k u r n)

found_least :
    (m : List (Bytes × Watermark)) (k : Bytes) (u : ℕ) (r : Bytes) (n : ℕ)
    → find_oldest m (some (k, u)) ≡ some (r, n)
    → n ≤ u
unfolding find_oldest
found_least [] k u r n e = ground arith
found_least ((i, x) ∷ m) k u r n e =
    ground (arith, found_least m i x.used r n, found_least m k u r n)

found_below :
    (m : List (Bytes × Watermark)) (k : Bytes) (u : ℕ) (r : Bytes) (n : ℕ) (j : Bytes)
    (w : Watermark)
    → find_oldest m (some (k, u)) ≡ some (r, n)
    → lookup j m ≡ some w
    → n ≤ w.used
unfolding find_oldest lookup
found_below [] k u r n j w e h = absurd (ground arith)
found_below ((i, x) ∷ m) k u r n j w e h = ground (
  arith,
  found_below m i x.used r n j w,
  found_below m k u r n j w,
  found_least m i x.used r n,
  found_least m k u r n,
)

found_some : (m : List (Bytes × Watermark)) (k : Bytes) (u : ℕ) → find_oldest m (some (k, u)) ≢ none
unfolding find_oldest
found_some [] k u e = ground arith
found_some ((i, x) ∷ m) k u e = ground (arith, found_some m i x.used, found_some m k u)

oldest_in :
    (m : List (Bytes × Watermark)) (r : Bytes) (n : ℕ)
    → find_oldest m none ≡ some (r, n)
    → lookup r m ≢ none
unfolding find_oldest lookup
oldest_in [] r n e = absurd (ground arith)
oldest_in ((i, x) ∷ m) r n e = ground (arith, found_in m i x.used r n)

oldest-none : (m : List (Bytes × Watermark)) → find_oldest m none ≡ none → length m ≡ 0
unfolding find_oldest
oldest-none [] e = refl
oldest-none ((i, x) ∷ m) e = absurd (found_some m i x.used e)

drop_room :
    (t : Token) (o : Option (Bytes × ℕ))
    → find_oldest t.entries none ≡ o
    → 0 < t.max_shards
    → length t.entries ≤ t.max_shards
    → ((drop_shard t o).max_shards ≡ t.max_shards)
      × (length (drop_shard t o).entries < t.max_shards)
unfolding drop_shard
drop_room t none e cap le = let z = oldest-none t.entries e in (refl, omega arith)
drop_room t (some (r, n)) e cap le = (refl, present (lookup r t.entries) refl)
  where
    present :
        (o : Option Watermark) → lookup r t.entries ≡ o → length (remove r t.entries) < t.max_shards
    present none h = absurd (oldest_in t.entries r n e h)
    present (some w) h = omega (arith, length-remove-lt r t.entries {v = w} h)

make_room_room :
    (t : Token)
    → 0 < t.max_shards
    → length t.entries ≤ t.max_shards
    → ((make_room t).max_shards ≡ t.max_shards) × (length (make_room t).entries < t.max_shards)
unfolding make_room evict_oldest
make_room_room t cap le = elim (Bool-cases (leb t.max_shards (length t.entries))) [
  | inl full ↦ rw full (drop_room t (find_oldest t.entries none) refl cap le)
  | inr room ↦ rw room (refl, ground arith)
]

-- The shards after an eviction: those that have a watermark are not among the dropped ones.
abbrev Apart : Token → Bytes → Type 0
Apart t shard = degraded t shard ≡ true → watermark t shard ≡ none

kept-Apart : (t u : Token) (j : Bytes) → KeptOrDegraded t u j → Apart t j → Apart u j
kept-Apart t u j (inl (w, d)) apart lost = w ∙ apart (sym d ∙ lost)
kept-Apart t u j (inr (w, d)) apart lost = w

put_bound :
    (t : Token) (shard : Bytes) (v stamp : ℕ) (o : Option Watermark)
    → lookup shard t.entries ≡ o
    → 0 < t.max_shards
    → length t.entries ≤ t.max_shards
    → ((put t shard v stamp o).max_shards ≡ t.max_shards)
      × (length (put t shard v stamp o).entries ≤ t.max_shards)
unfolding put
put_bound t shard v stamp none e cap le =
    let room = make_room_room t cap le in
    let more = length-insert shard (mark v stamp) (make_room t).entries in
    (room.0, ground (arith, more, room.1))
put_bound t shard v stamp (some cur) e cap le =
    let w = mark (if ltb cur.version v then v else cur.version) stamp in
    (refl, rw (length-insert shard w t.entries) (rw e le))

put-Apart :
    (t : Token) (shard : Bytes) (v stamp : ℕ) (o : Option Watermark)
    → lookup shard t.entries ≡ o
    → Apart t shard
    → Apart (put t shard v stamp o) shard
unfolding put degraded is_present watermark version_of
put-Apart t shard v stamp none e apart lost = absurd (ground (arith, put-degraded t shard v stamp))
put-Apart t shard v stamp (some cur) e apart lost = absurd (ground (arith, apart))

put-IsValid :
    (t : Token) (shard : Bytes) (v stamp : ℕ)
    → IsValid t
    → IsValid (put t shard v stamp (lookup shard t.entries))
put-IsValid t shard v stamp (cap, (le, apart)) =
    let o = lookup shard t.entries in
    let bound = put_bound t shard v stamp o refl cap le in
    (
      ground (arith, bound.0),
      (ground (arith, bound.0, bound.1), λ j. at_shard j (Bool-cases (bytes_eq shard j))),
    )
  where
    at_shard :
        (j : Bytes)
        → (bytes_eq shard j ≡ true) ⊎ (bytes_eq shard j ≡ false)
        → Apart (put t shard v stamp (lookup shard t.entries)) j
    at_shard j (inl same) =
        rw (sym (eq_of_bytes_eq shard j same))
          (put-Apart t shard v stamp (lookup shard t.entries) refl (apart shard))
    at_shard j (inr other) =
        kept-Apart t (put t shard v stamp (lookup shard t.entries)) j
          (put_kept t shard v stamp (lookup shard t.entries) j other) (apart j)

advance-IsValid : (t : Token) (shard : Bytes) (v : ℕ) → IsValid t → IsValid (advance t shard v)
unfolding advance advance_locked
advance-IsValid t [] v valid = valid
advance-IsValid t (c ∷ shard) v valid = put-IsValid t (c ∷ shard) v ((t.seq + 1) % 2 ^ 64) valid

empty-IsValid :
    (n : ℕ) → 0 < n → IsValid (record { max_shards = n; seq = 0; entries = []; evicted = [] })
unfolding degraded watermark lookup is_present version_of
empty-IsValid n live = (live, (omega arith, λ shard lost. refl))

pub merge-IsValid : (t : Token) (other : List (Bytes × ℕ)) → IsValid t → IsValid (merge t other)
unfolding merge
merge-IsValid t [] valid = valid
merge-IsValid t ((shard, v) ∷ other) valid =
    merge-IsValid (advance t shard v) other (advance-IsValid t shard v valid)

pub new_token-IsValid : (n : ℤ) → IsValid (new_token n)
unfolding new_token
new_token-IsValid (pos zero) = empty-IsValid 64 (omega arith)
new_token-IsValid (pos (suc n)) = empty-IsValid (suc n) (omega arith)
new_token-IsValid (negsuc n) = empty-IsValid 64 (omega arith)

-- Whatever cap a session token is made with, and whatever tokens of other sessions are then merged
-- into it, it carries at most its positive cap of watermarks, and a shard whose watermark was
-- dropped to stay within it has none.
pub merge-new_token : (n : ℤ) (other : List (Bytes × ℕ)) → IsValid (merge (new_token n) other)
merge-new_token n other = merge-IsValid (new_token n) other (new_token-IsValid n)
