-- ===== src/Consistency/Token/Advance.antt =====
-- pkg/consistency/session.go: what advancing a session's position keeps, and what it evicts.
use cachet.Base.Assoc.{lookup, lookup-insert, lookup-remove}
use cachet.Consistency.Token.{
  Watermark, Token, mark, find_oldest, drop_shard, evict_oldest, make_room, put, advance_locked,
  advance, version_of, watermark, is_present, degraded,
}
use cachet.Base.{
  ℕ, ◌+◌, ◌%◌, ◌^◌, ◌≤◌, ◌<◌, max, ◌≡◌, refl, ap, ◌∙◌, ◌≢◌, ◌⊎◌, inl, inr, true, false, Option,
  none, some, [], ◌∷◌, arith, ltb, leb, if◌then◌else◌, Bool-cases, length, Bytes, bytes_eq,
  bytes_eq_refl, bytes_eq_ne,
}

-- The cap is positive and holds, and a shard whose watermark was dropped has none.
abbrev pub IsValid : Token → Type 0
IsValid t =
    (0 < t.max_shards)
    × ((length t.entries ≤ t.max_shards)
        × ((shard : Bytes) → degraded t shard ≡ true → watermark t shard ≡ none))

abbrev pub raised : Option ℕ → ℕ → ℕ
raised none v = v
raised (some cur) v = max cur v

put-watermark :
    (t : Token) (shard : Bytes) (v stamp : ℕ) (o : Option Watermark)
    → watermark (put t shard v stamp o) shard ≡ some (raised (version_of o) v)
unfolding watermark put version_of
put-watermark t shard v stamp none =
    rw (lookup-insert shard shard (mark v stamp) (make_room t).entries)
      (rw (bytes_eq_refl shard) refl)
put-watermark t shard v stamp (some cur) =
    let w = mark (if ltb cur.version v then v else cur.version) stamp in
    rw (lookup-insert shard shard w t.entries) (rw (bytes_eq_refl shard) (ground arith))

-- Advancing a shard's watermark sets it to the higher of its position and the version, or to the
-- version where the session has none.
pub watermark-advance :
    (t : Token) (shard : Bytes) (v : ℕ)
    → shard ≢ []
    → watermark (advance t shard v) shard ≡ some (raised (watermark t shard) v)
unfolding advance advance_locked watermark
watermark-advance t [] v named = absurd (named refl)
watermark-advance t (c ∷ shard) v named =
    put-watermark t (c ∷ shard) v ((t.seq + 1) % 2 ^ 64) (lookup (c ∷ shard) t.entries)

-- A shard of the second token is as in the first, or it has lost its watermark and says so.
abbrev pub KeptOrDegraded : Token → Token → Bytes → Type 0
KeptOrDegraded t u shard =
    ((watermark u shard ≡ watermark t shard) × (degraded u shard ≡ degraded t shard))
    ⊎ ((watermark u shard ≡ none) × (degraded u shard ≡ true))

drop_kept :
    (t : Token) (o : Option (Bytes × ℕ)) (shard : Bytes) → KeptOrDegraded t (drop_shard t o) shard
unfolding drop_shard watermark version_of degraded is_present
drop_kept t none shard = inl (refl, refl)
drop_kept t (some (oldest, stamp)) shard = elim (Bool-cases (bytes_eq oldest shard)) [
  | inl same ↦ inr (
    rw (lookup-remove oldest shard t.entries) (rw same refl),
    rw (lookup-insert oldest shard tt t.evicted) (rw same refl),
  )
  | inr other ↦ inl (
    rw (lookup-remove oldest shard t.entries) (rw other refl),
    rw (lookup-insert oldest shard tt t.evicted) (rw other refl),
  )
]

make_room_kept : (t : Token) (shard : Bytes) → KeptOrDegraded t (make_room t) shard
unfolding make_room evict_oldest
make_room_kept t shard = elim (Bool-cases (leb t.max_shards (length t.entries))) [
  | inl full ↦ rw full (drop_kept t (find_oldest t.entries none) shard)
  | inr room ↦ rw room (inl (refl, refl))
]

pub put_kept :
    (t : Token) (shard : Bytes) (v stamp : ℕ) (o : Option Watermark) (j : Bytes)
    → bytes_eq shard j ≡ false
    → KeptOrDegraded t (put t shard v stamp o) j
unfolding put watermark version_of degraded is_present
put_kept t shard v stamp none j other =
    rw (lookup-insert shard j (mark v stamp) (make_room t).entries)
      (rw (lookup-remove shard j (make_room t).evicted) (rw other (make_room_kept t j)))
put_kept t shard v stamp (some cur) j other =
    let w = mark (if ltb cur.version v then v else cur.version) stamp in
    rw (lookup-insert shard j w t.entries) (rw other (inl (refl, refl)))

-- Advancing one shard leaves each other shard as it was, or drops its watermark and reports it as
-- degraded.
pub advance-KeptOrDegraded :
    (t : Token) (shard : Bytes) (v : ℕ) (j : Bytes)
    → shard ≢ j
    → KeptOrDegraded t (advance t shard v) j
unfolding advance advance_locked
advance-KeptOrDegraded t [] v j other = inl (refl, refl)
advance-KeptOrDegraded t (c ∷ shard) v j other =
    put_kept t (c ∷ shard) v ((t.seq + 1) % 2 ^ 64) (lookup (c ∷ shard) t.entries) j
      (bytes_eq_ne (c ∷ shard) j other)

-- A shard whose watermark was dropped is not degraded after the next advance.
pub put-degraded :
    (t : Token) (shard : Bytes) (v stamp : ℕ) → degraded (put t shard v stamp none) shard ≡ false
unfolding put degraded is_present
put-degraded t shard v stamp =
    rw (lookup-remove shard shard (make_room t).evicted) (rw (bytes_eq_refl shard) refl)

none_of_version : (o : Option Watermark) → version_of o ≡ none → o ≡ none
unfolding version_of
none_of_version none h = refl
none_of_version (some w) h = ground arith

lookup-none : (t : Token) (shard : Bytes) → watermark t shard ≡ none → lookup shard t.entries ≡ none
unfolding watermark
lookup-none t shard h = none_of_version (lookup shard t.entries) h

advance-known :
    (t : Token) (shard : Bytes) (v : ℕ)
    → shard ≢ []
    → lookup shard t.entries ≡ none
    → degraded (advance t shard v) shard ≡ false
unfolding advance advance_locked
advance-known t [] v named gone = absurd (named refl)
advance-known t (c ∷ shard) v named gone =
    rw gone (put-degraded t (c ∷ shard) v ((t.seq + 1) % 2 ^ 64))

-- A session that was degraded on a shard, and then advances to any version there, holds exactly
-- that version and is degraded no longer: a position it had proved before the eviction, however
-- high, is forgotten.
pub advance-degraded :
    (t : Token) (shard : Bytes) (v : ℕ)
    → IsValid t
    → shard ≢ []
    → degraded t shard ≡ true
    → (watermark (advance t shard v) shard ≡ some v) × (degraded (advance t shard v) shard ≡ false)
advance-degraded t shard v valid named lost =
    let gone = valid.1.1 shard lost in
    (
      watermark-advance t shard v named ∙ ap (λ o. some (raised o v)) gone,
      advance-known t shard v named (lookup-none t shard gone),
    )
