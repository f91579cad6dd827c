-- ===== src/Cdc/Tests.antt =====
-- A concrete tailer, and the theorem at it.
use cachet.Cdc.{
  Position, before, new_tailer, freeze, set_position, save_if_dirty, delivered, out_of_time,
  next_backoff, invalidate_from, invalidate,
}
use cachet.Cdc.Checkpointed.{
  Event, reached, changed, saving, saved_all, settled, Among, saved_all-settled,
}
use cachet.Base.{◌≡◌, refl, true, List, [], ◌∷◌, All, ascii, bytes_eq, bytes_lt}

abbrev first : Position
first = record { file = ascii "bin.000001"; offset = 4 }

abbrev second : Position
second = record { file = ascii "bin.000002"; offset = 3 }

first_before : before first second ≡ true
unfolding before bytes_eq bytes_lt
first_before = refl

abbrev events : List Event
events =
    reached first
    ∷ changed 1 (delivered true)
    ∷ saving
    ∷ changed 6 out_of_time
    ∷ reached second
    ∷ saving
    ∷ []

saved_first : saved_all events new_tailer ≡ first ∷ first ∷ []
unfolding saved_all save_if_dirty set_position freeze invalidate invalidate_from next_backoff
    bytes_eq
saved_first = refl

waits_capped :
    (invalidate 6 out_of_time new_tailer).0
    ≡ 100000000 ∷ 200000000 ∷ 400000000 ∷ 800000000 ∷ 1600000000 ∷ 2000000000 ∷ []
unfolding invalidate invalidate_from next_backoff freeze
waits_capped = refl

saved_all-settled_example : All (λ p. Among p (settled events)) (saved_all events new_tailer)
saved_all-settled_example = saved_all-settled events
