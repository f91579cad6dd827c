-- ===== src/Consistency/Tests.antt =====
-- Concrete sessions and requirements, and the theorems at them.
use cachet.Base.Int.{ℤ, pos, negsuc}
use cachet.Base.Assoc.{lookup, insert, remove}
use cachet.Consistency.Level.{session, bounded, negative_bound, validate}
use cachet.Consistency.Level.Wire.{to_wire, requirement_from_wire}
use cachet.Consistency.Level.Coherent.{requirement_from_wire-to_wire}
use cachet.Consistency.Token.{
  Token, new_token, advance, advance_locked, put, find_oldest, make_room, evict_oldest, drop_shard,
  watermark, version_of, degraded, is_present, merge,
}
use cachet.Consistency.Token.Advance.{
  IsValid, KeptOrDegraded, raised, watermark-advance, advance-KeptOrDegraded, advance-degraded,
}
use cachet.Consistency.Token.Bound.{merge-new_token, merge-IsValid, new_token-IsValid}
use cachet.Base.{
  ℕ, ◌≡◌, refl, ◌≢◌, Bool, true, false, none, some, List, [], ◌∷◌, arith, Bytes, ascii, bytes_eq,
  ok, err,
}

-- A session with room for one shard that has written on two.
abbrev two_writes : List (Bytes × ℕ)
two_writes = (ascii "a", 9) ∷ (ascii "b", 4) ∷ []

abbrev small : Token
small = merge (new_token (pos 1)) two_writes

small-IsValid : IsValid small
small-IsValid = merge-IsValid (new_token (pos 1)) two_writes (new_token-IsValid (pos 1))

watermark_kept : watermark small (ascii "b") ≡ some 4
unfolding watermark version_of lookup merge advance advance_locked put insert remove find_oldest
    make_room evict_oldest drop_shard new_token bytes_eq
watermark_kept = refl

watermark_lost : degraded small (ascii "a") ≡ true
unfolding degraded is_present lookup merge advance advance_locked put insert remove find_oldest
    make_room evict_oldest drop_shard new_token bytes_eq
watermark_lost = refl

negative : validate (record { level = bounded; staleness_bound = negsuc 4 }) ≡ err negative_bound
unfolding validate
negative = refl

named_a : ascii "a" ≢ []
named_a e = ground arith

apart : ascii "a" ≢ ascii "b"
apart e = ground arith

watermark-advance_example :
    watermark (advance small (ascii "a") 3) (ascii "a")
    ≡ some (raised (watermark small (ascii "a")) 3)
watermark-advance_example = watermark-advance small (ascii "a") 3 named_a

advance-KeptOrDegraded_example : KeptOrDegraded small (advance small (ascii "a") 3) (ascii "b")
advance-KeptOrDegraded_example = advance-KeptOrDegraded small (ascii "a") 3 (ascii "b") apart

advance-degraded_example :
    (watermark (advance small (ascii "a") 3) (ascii "a") ≡ some 3)
    × (degraded (advance small (ascii "a") 3) (ascii "a") ≡ false)
advance-degraded_example = advance-degraded small (ascii "a") 3 small-IsValid named_a watermark_lost

merge-new_token_example : IsValid (merge (new_token (pos 1)) two_writes)
merge-new_token_example = merge-new_token (pos 1) two_writes

-- Durations as their nanoseconds.
abbrev valid_duration : ℤ → Bool
valid_duration d = true

abbrev nanoseconds : ℤ → ℤ
nanoseconds d = d

requirement_from_wire-to_wire_example :
    (requirement_from_wire valid_duration nanoseconds (to_wire session) none
      ≡ ok (record { level = session; staleness_bound = pos 0 }))
    × (requirement_from_wire valid_duration nanoseconds (to_wire session) (some (pos 0))
        ≡ ok (record { level = session; staleness_bound = pos 0 }))
requirement_from_wire-to_wire_example =
    requirement_from_wire-to_wire valid_duration nanoseconds session (pos 0) refl refl
