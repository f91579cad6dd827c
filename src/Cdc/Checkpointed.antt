-- ===== src/Cdc/Checkpointed.antt =====
-- internal/cdc/tailer.go: the saved position never passes a change that was not delivered.
use mathlib.Core.Path.{subst}
use cachet.Cdc.{
  Position, Tailer, new_tailer, freeze, set_position, save_if_dirty, Ending, delivered, out_of_time,
  cancelled, ended, next_backoff, invalidate_from, invalidate, initial_invalidate_backoff,
}
use cachet.Base.{
  ℕ, zero, suc, ◌≡◌, refl, sym, ap, ◌∙◌, ◌⊎◌, inl, inr, Bool, true, false, not, ◌||◌, Option, none,
  some, List, [], ◌∷◌, arith, if◌then◌else◌, Bool-cases, All, bytes_eq, bytes_eq_refl,
}

-- What a tailer goes through: a position that is reached, the invalidation of a changed row, a save.
pub data Event : Type 0 where
  reached : Position → Event
  changed : (failures : ℕ) (ending : Ending) → Event
  saving : Event

abbrev pub step : Event → Tailer → Option Position × Tailer
step (reached p) t = (none, set_position p t)
step (changed failures ending) t = (none, (invalidate failures ending t).1.1)
step saving t = save_if_dirty t

abbrev pub and_saved : Option Position → List Position → List Position
and_saved none saved = saved
and_saved (some p) saved = p ∷ saved

-- The positions that are saved.
unfoldable pub saved_all : List Event → Tailer → List Position
saved_all [] t = []
saved_all (e ∷ events) t = and_saved (step e t).0 (saved_all events (step e t).1)

abbrev pub is_delivered : Ending → Bool
is_delivered (delivered applied) = true
is_delivered out_of_time = false
is_delivered cancelled = false

-- The positions that are reached before the first change that is not delivered.
unfoldable pub settled : List Event → List Position
settled [] = []
settled (reached p ∷ events) = p ∷ settled events
settled (changed failures ending ∷ events) =
    let rest = settled events in if is_delivered ending then rest else []
settled (saving ∷ events) = settled events

abbrev pub Among : Position → List Position → Type 0
Among p [] = ⊥
Among p (q ∷ l) = (p ≡ q) ⊎ Among p l

invalidate_from-ended :
    (failures backoff : ℕ) (ending : Ending) (t : Tailer)
    → (invalidate_from failures ending backoff t).1 ≡ ended ending t
unfolding invalidate_from
invalidate_from-ended zero backoff ending t = refl
invalidate_from-ended (suc failures) backoff ending t =
    invalidate_from-ended failures (next_backoff backoff) ending t

-- Where a save may go.
abbrev allowed : Tailer → List Event → List Position
allowed t events = if t.frozen then t.frozen_at ∷ [] else t.position ∷ settled events

abbrev IsSafe : Tailer → List Event → Position → Type 0
IsSafe t events p = (bytes_eq p.file [] ≡ false) × Among p (allowed t events)

All-Among :
    (l m saved : List Position)
    → ((p : Position) → Among p l → Among p m)
    → All (λ p. (bytes_eq p.file [] ≡ false) × Among p l) saved
    → All (λ p. (bytes_eq p.file [] ≡ false) × Among p m) saved
All-Among l m [] h k = tt
All-Among l m (p ∷ saved) h k = ((k.0.0, h p k.0.1), All-Among l m saved h k.1)

Among-reached :
    (t : Tailer) (p q : Position) (l : List Position)
    → Among q (if t.frozen then t.frozen_at ∷ [] else p ∷ l)
    → Among q (if t.frozen then t.frozen_at ∷ [] else t.position ∷ p ∷ l)
Among-reached t p q l = either t.frozen
  where
    either :
        (b : Bool)
        → Among q (if b then t.frozen_at ∷ [] else p ∷ l)
        → Among q (if b then t.frozen_at ∷ [] else t.position ∷ p ∷ l)
    either true h = h
    either false h = inr h

Among-freeze :
    (t : Tailer) (q : Position) (events : List Event)
    → Among q (allowed (freeze t) events)
    → Among q (if t.frozen then t.frozen_at ∷ [] else t.position ∷ [])
unfolding freeze
Among-freeze t q events h = elim (Bool-cases t.frozen) [
  | inl done ↦ rw done (subst (λ l. Among q l) (frozen_path done) h)
  | inr live ↦ rw live (subst (λ l. Among q l) (live_path live) h)
]
  where
    frozen_path : t.frozen ≡ true → allowed (freeze t) events ≡ t.frozen_at ∷ []
    frozen_path e = rw e refl

    live_path : t.frozen ≡ false → allowed (freeze t) events ≡ t.position ∷ []
    live_path e = rw e refl

saved-IsSafe :
    (t : Tailer) (events : List Event) (rest : List Position)
    → All (IsSafe t events) rest
    → All (IsSafe t events) (and_saved (save_if_dirty t).0 rest)
unfolding save_if_dirty
saved-IsSafe t events rest h =
    elim (Bool-cases
      (not t.dirty || bytes_eq (if t.frozen then t.frozen_at else t.position).file [])) [
        | inl skip ↦ rw skip h
        | inr save ↦ rw save ((ground arith, head t.frozen), h)
      ]
  where
    head :
        (b : Bool)
        → Among
            (if b then t.frozen_at else t.position)
            (if b then t.frozen_at ∷ [] else t.position ∷ settled events)
    head true = inl refl
    head false = inl refl

all-IsSafe : (events : List Event) (t : Tailer) → All (IsSafe t events) (saved_all events t)
unfolding saved_all settled invalidate set_position save_if_dirty
all-IsSafe [] t = tt
all-IsSafe (reached p ∷ events) t =
    All-Among (allowed (set_position p t) events) (allowed t (reached p ∷ events))
      (saved_all events (set_position p t)) (λ q h. Among-reached t p q (settled events) h)
      (all-IsSafe events (set_position p t))
all-IsSafe (changed failures ending ∷ events) t =
    subst (λ u. All (IsSafe t (changed failures ending ∷ events)) (saved_all events u.1))
      (sym (invalidate_from-ended failures initial_invalidate_backoff ending t))
      (at ending (λ u. all-IsSafe events u))
  where
    at :
        (ending : Ending)
        → ((u : Tailer) → All (IsSafe u events) (saved_all events u))
        → All (IsSafe t (changed failures ending ∷ events)) (saved_all events (ended ending t).1)
    at (delivered applied) more = more t
    at out_of_time more =
        All-Among (allowed (freeze t) events) (allowed t (changed failures out_of_time ∷ events))
          (saved_all events (freeze t)) (λ q h. Among-freeze t q events h) (more (freeze t))
    at cancelled more =
        All-Among (allowed (freeze t) events) (allowed t (changed failures cancelled ∷ events))
          (saved_all events (freeze t)) (λ q h. Among-freeze t q events h) (more (freeze t))
all-IsSafe (saving ∷ events) t =
    saved-IsSafe t (saving ∷ events) (saved_all events (save_if_dirty t).1)
      (all-IsSafe events (save_if_dirty t).1)

-- Every position that a new tailer saves was reached before the first change whose invalidation was not
-- delivered: a restart from any checkpoint replays that change.
pub saved_all-settled :
    (events : List Event) → All (λ p. Among p (settled events)) (saved_all events new_tailer)
saved_all-settled events = drop_first (saved_all events new_tailer) (all-IsSafe events new_tailer)
  where
    drop_first :
        (saved : List Position)
        → All (IsSafe new_tailer events) saved
        → All (λ p. Among p (settled events)) saved
    drop_first [] h = tt
    drop_first (p ∷ saved) ((named, inr deep), h) = (deep, drop_first saved h)
    drop_first (p ∷ saved) ((named, inl first), h) = absurd (
        let bad : false ≡ true =
          sym named ∙ ap (λ q. bytes_eq q.file []) first ∙ bytes_eq_refl [] in
        ground arith)
