-- ===== src/Storage/Hlc/Order.antt =====
-- The order in which a clock issues and reads versions, over any sequence of its calls.
use cachet.Base.Int.{ℤ, pos, negsuc}
use cachet.Base.{
  ℕ, ◌+◌, ◌≤◌, ◌<◌, ◌≡◌, ap, ◌∙◌, inl, inr, Option, none, some, List, [], ◌∷◌, ◌++◌, arith,
  Option-cases, All,
}
use cachet.Storage.Hlc.{
  Clock, physical_millis, logical, advance_logical, next, raise_floor, now, observe,
}
use cachet.Storage.Hlc.Pack.{new_version_sum, logical_lem}

pub data Call : Type 0 where
  next_call : ℤ → Call
  now_call : ℤ → Call
  observe_call : ℕ → Call

pub data Event : Type 0 where
  issued : ℕ → Event
  read : ℕ → Event
  observed : ℕ → Event

abbrev pub version : Event → ℕ
version (issued v) = v
version (read v) = v
version (observed v) = v

abbrev tag : (ℕ → Event) → Option (ℕ × Clock) → Option (Event × Clock)
tag f none = none
tag f (some (v, c)) = some (f v, c)

unfoldable pub step : Call → Clock → Option (Event × Clock)
step (next_call wall) c = tag issued (next wall c)
step (now_call wall) c = tag read (now wall c)
step (observe_call v) c = some (observed v, observe v c)

abbrev joined : Event → Option (List Event × Clock) → Option (List Event × Clock)
joined e none = none
joined e (some (es, d)) = some (e ∷ es, d)

-- The calls in the order in which they hold the clock's mutex; a panic ends the run.
unfoldable pub run : List Call → Clock → Option (List Event × Clock)
run [] c = some ([], c)
run (call ∷ calls) c = elim (step call c) [ none ↦ none | some (e, d) ↦ joined e (run calls d) ]

advance_logical_above :
    (c : Clock) {v : ℕ} {d : Clock} → advance_logical c ≡ some (v, d) → (c.last < v) × (d.last ≡ v)
unfolding advance_logical
advance_logical_above c h = ground (
  arith,
  logical_lem c.last,
  new_version_sum (physical_millis c.last + 1) 0,
  new_version_sum (physical_millis c.last) (logical c.last + 1),
)

next_above :
    (wall : ℤ) (c : Clock) {v : ℕ} {d : Clock}
    → next wall c ≡ some (v, d)
    → (c.last < v) × (d.last ≡ v)
unfolding next physical_millis
next_above (pos w) c {v} {d} h =
    ground (arith, advance_logical_above c {v = v} {d = d}, new_version_sum w 0)
next_above (negsuc w) c {v} {d} h = ground (arith, advance_logical_above c {v = v} {d = d})

now_above :
    (wall : ℤ) (c : Clock) {v : ℕ} {d : Clock}
    → now wall c ≡ some (v, d)
    → (c.last ≤ v) × (d.last ≡ v)
unfolding now raise_floor
now_above wall c h = ground arith

observe_above : (v : ℕ) (c : Clock) → (c.last ≤ (observe v c).last) × (v ≤ (observe v c).last)
unfolding observe
observe_above v c = ground arith

tag-eq-some :
    (f : ℕ → Event) (o : Option (ℕ × Clock)) {e : Event} {d : Clock}
    → tag f o ≡ some (e, d)
    → (v : ℕ) × (o ≡ some (v, d)) × (e ≡ f v)
tag-eq-some f none h = cc
tag-eq-some f (some (v, c)) h = (v, ground arith, ground arith)

-- What an event promises about a version that was issued or observed before it.
abbrev pub Follows : Event → ℕ → Type 0
Follows (issued v) w = w < v
Follows (read v) w = w ≤ v
Follows (observed v) w = Unit

-- No call lowers the clock's last version; each event stands at most at the new one, and above
-- the old one as it promises.
step_floor :
    (call : Call) (c : Clock) {e : Event} {d : Clock}
    → step call c ≡ some (e, d)
    → (c.last ≤ d.last) × (version e ≤ d.last) × Follows e c.last
unfolding step
step_floor (next_call wall) c h =
    let (v, called, e) = tag-eq-some issued (next wall c) h in
    let (above, last) = next_above wall c called in rw e (omega arith, omega arith, above)
step_floor (now_call wall) c h =
    let (v, called, e) = tag-eq-some read (now wall c) h in
    let (above, last) = now_above wall c called in rw e (omega arith, omega arith, above)
step_floor (observe_call v) c {e} {d} h =
    let same : observed v ≡ e = ground arith in
    let last : observe v c ≡ d = ground arith in
    let (floor, seen) = observe_above v c in rw (← same, ← last) (floor, seen, tt)

Follows-le : (e : Event) {v w : ℕ} → v ≤ w → Follows e w → Follows e v
Follows-le (issued x) h f = omega arith
Follows-le (read x) h f = omega arith
Follows-le (observed x) h f = tt

joined-eq-some :
    (e' : Event) (o : Option (List Event × Clock)) {e : Event} {es : List Event} {d : Clock}
    → joined e' o ≡ some (e ∷ es, d)
    → (e' ≡ e) × (o ≡ some (es, d))
joined-eq-some e' none h = cc
joined-eq-some e' (some (es, d)) h = (ground arith, ground arith)

run-nil : (c : Clock) (e : Event) (es : List Event) (d : Clock) → run [] c ≡ some (e ∷ es, d) → ⊥
unfolding run
run-nil c e es d h = ground arith

-- A run that takes a step and goes on, taken apart.
run-cons :
    (call : Call) (calls : List Call) (c : Clock) (e : Event) (es : List Event) (d : Clock)
    → run (call ∷ calls) c ≡ some (e ∷ es, d)
    → (c1 : Clock) × (step call c ≡ some (e, c1)) × (run calls c1 ≡ some (es, d))
unfolding run
run-cons call calls c e es d h = elim (Option-cases (step call c)) [
  | inl stuck ↦ absurd (ground arith)
  | inr ((e', c1), stepped) ↦
      let joins : joined e' (run calls c1) ≡ some (e ∷ es, d) = ground arith in
      let (same, rest) = joined-eq-some e' (run calls c1) joins in
      (c1, stepped ∙ ap (λ x. some (x, c1)) same, rest)
]

module _ (e : Event) (after : List Event) (d : Clock) where
  floor_before :
      (calls : List Call) (c : Clock) (before : List Event)
      → run calls c ≡ some (before ++ e ∷ after, d)
      → Follows e c.last
  floor_before [] c [] h = absurd (run-nil c e after d h)
  floor_before [] c (b ∷ before) h = absurd (run-nil c b (before ++ e ∷ after) d h)
  floor_before (call ∷ calls) c [] h =
      let (c1, stepped, rest) = run-cons call calls c e after d h in (step_floor call c stepped).2
  floor_before (call ∷ calls) c (b ∷ before) h =
      let (c1, stepped, rest) = run-cons call calls c b (before ++ e ∷ after) d h in
      Follows-le e (step_floor call c stepped).0 (floor_before calls c1 before rest)

  -- In a run of a clock's `Next`, `Now` and `Observe` calls, in the order in which they hold its
  -- mutex and with any readings of the wall clock, also backwards ones: a version that `Next`
  -- issues is above every version that was issued, read or observed before it, and a version that
  -- `Now` reads is at least every such version.
  pub run-Follows :
      (calls : List Call) (c : Clock) (before : List Event)
      → run calls c ≡ some (before ++ e ∷ after, d)
      → All (λ b. Follows e (version b)) before
  run-Follows calls c [] h = tt
  run-Follows [] c (b ∷ before) h = absurd (run-nil c b (before ++ e ∷ after) d h)
  run-Follows (call ∷ calls) c (b ∷ before) h =
      let (c1, stepped, rest) = run-cons call calls c b (before ++ e ∷ after) d h in
      (
        Follows-le e (step_floor call c stepped).1 (floor_before calls c1 before rest),
        run-Follows calls c1 before rest,
      )
