-- ===== src/Consistency/Token.antt =====
-- pkg/consistency/session.go: a session's position, its watermark on each shard it has touched. A
-- map is an association list, whose order is the order in which `range` goes through it.
pub mod Advance
pub mod Bound
use cachet.Base.Int.{ℤ, pos, negsuc}
use cachet.Base.Assoc.{lookup, insert, remove}
use cachet.Base.{
  ℕ, zero, suc, ◌+◌, ◌-◌, ◌*◌, ◌/◌, ◌%◌, ◌^◌, ◌≤◌, ◌<◌, min, max, bit_and, bit_or, bit_xor, ◌≡◌,
  refl, sym, ap, ◌∙◌, ◌≢◌, ◌↔◌, ◌⊎◌, inl, inr, Bool, true, false, not, ◌&&◌, ◌||◌, Option, none,
  some, List, [], ◌∷◌, ◌++◌, map, append_assoc, append-nil, arith, ltb, leb, ◌==◌, if◌then◌else◌,
  ltb→lt, lt→ltb, le→ltb, leb→le, le→leb, ==_iff, ==_refl, tests, Bool-cases, Option-cases, &&_true,
  length, get_elem?, get_or, set, take, drop, replicate, All, length-append, take_append,
  drop_append, length-replicate, All-append, Bytes, IsByte, ascii, bytes_eq, bytes_lt, bytes_le,
  eq_of_bytes_eq, bytes_eq_refl, bytes_eq_iff, bytes_eq_ne, Result, ok, err, ◌>>=◌, ◌>>◌, require,
}

abbrev pub default_max_session_shards : ℕ
default_max_session_shards = 64

pub record Watermark : Type 0 where
  pub version : ℕ
  pub used : ℕ

pub record Token : Type 0 where
  pub max_shards : ℕ
  pub seq : ℕ
  pub entries : List (Bytes × Watermark)
  pub evicted : List (Bytes × Unit {0})

abbrev empty_token : ℕ → Token
empty_token n = record { max_shards = n; seq = 0; entries = []; evicted = [] }

unfoldable pub new_token : ℤ → Token
new_token (pos zero) = empty_token default_max_session_shards
new_token (pos (suc n)) = empty_token (suc n)
new_token (negsuc n) = empty_token default_max_session_shards

-- The loop of `evictOldestLocked`, with the shard and the stamp found so far.
unfoldable pub find_oldest : List (Bytes × Watermark) → Option (Bytes × ℕ) → Option (Bytes × ℕ)
find_oldest [] found = found
find_oldest ((shard, w) ∷ m) none = find_oldest m (some (shard, w.used))
find_oldest ((shard, w) ∷ m) (some (oldest, stamp)) =
    find_oldest m (if ltb w.used stamp then some (shard, w.used) else some (oldest, stamp))

unfoldable pub drop_shard : Token → Option (Bytes × ℕ) → Token
drop_shard t none = t
drop_shard t (some (oldest, stamp)) = record {
  max_shards = t.max_shards;
  seq = t.seq;
  entries = remove oldest t.entries;
  evicted = insert oldest tt t.evicted;
}

unfoldable pub evict_oldest : Token → Token
evict_oldest t = drop_shard t (find_oldest t.entries none)

unfoldable pub make_room : Token → Token
make_room t = if leb t.max_shards (length t.entries) then evict_oldest t else t

abbrev pub mark : ℕ → ℕ → Watermark
mark v stamp = record { version = v; used = stamp }

unfoldable pub put : Token → Bytes → ℕ → ℕ → Option Watermark → Token
put t shard v stamp (some cur) = record {
  max_shards = t.max_shards;
  seq = stamp;
  entries = insert shard (mark (if ltb cur.version v then v else cur.version) stamp) t.entries;
  evicted = t.evicted;
}
put t shard v stamp none =
    let roomy = make_room t in
    record {
      max_shards = roomy.max_shards;
      seq = stamp;
      entries = insert shard (mark v stamp) roomy.entries;
      evicted = remove shard roomy.evicted;
    }

unfoldable pub advance_locked : Token → Bytes → ℕ → Token
advance_locked t shard v = put t shard v ((t.seq + 1) % 2 ^ 64) (lookup shard t.entries)

unfoldable pub advance : Token → Bytes → ℕ → Token
advance t [] v = t
advance t (c ∷ shard) v = advance_locked t (c ∷ shard) v

unfoldable pub version_of : Option Watermark → Option ℕ
version_of none = none
version_of (some w) = some w.version

unfoldable pub watermark : Token → Bytes → Option ℕ
watermark t shard = version_of (lookup shard t.entries)

unfoldable pub is_present : Option (Unit {0}) → Bool
is_present none = false
is_present (some u) = true

unfoldable pub degraded : Token → Bytes → Bool
degraded t shard = is_present (lookup shard t.evicted)

unfoldable pub merge : Token → List (Bytes × ℕ) → Token
merge t [] = t
merge t ((shard, v) ∷ other) = merge (advance t shard v) other

unfoldable pub watermarks : Token → List (Bytes × ℕ)
watermarks t = map (λ e. (e.0, (e.1).version)) t.entries
