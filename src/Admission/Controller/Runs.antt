-- ===== src/Admission/Controller/Runs.antt =====
-- internal/admission/controller.go: a run of decisions against the list of states of Recency.
use mathlib.Core.Path.{subst}
use cachet.Base.Float.{Float}
use cachet.Base.Int.{ℤ, pos, negsuc, leb_ℤ, pos_part}
use cachet.Base.Assoc.{lookup}
use cachet.Admission.Sketch.{Sketch, counts}
use cachet.Admission.Policy.{PolicyOptions, Decision, differs}
use cachet.Admission.Controller.{
  KeyState, Element, write_state, Tracked, state_locked, with_state, Controller, new_controller,
  decision_on, decided_state, explained, counted_explain, explain,
}
use cachet.Admission.Controller.Linked.{address_of, Apart, IsLinked}
use cachet.Admission.Controller.Recency.{touched, values, Found}
use cachet.Admission.Controller.Explained.{state_locked-Found}
use cachet.Base.{
  ℕ, ◌≤◌, ◌<◌, ◌≡◌, refl, sym, ap, ◌∙◌, inl, inr, Option, none, some, List, [], ◌∷◌, arith,
  if◌then◌else◌, ==_refl, Bool-cases, length, Bytes, bytes_eq,
}

pub data Call : Type 0 where
  call : (key : Bytes) (early later now : ℤ) → Call

-- One decision of the reference on what the sketch counted.
abbrev pub decided_on :
    (float : Float)
    → PolicyOptions float
    → Bytes
    → ℕ × ℕ
    → ℤ
    → KeyState × List KeyState
    → List KeyState
decided_on float p key seen now (s, states) = decided_state float p key seen now s ∷ states

write-first :
    (e : Element) (behind : List Element) (s : KeyState) (t : Tracked)
    → t.order ≡ e ∷ behind
    → (with_state t e s).order ≡ (record { address = e.address; value = s }) ∷ behind
unfolding write_state
write-first e behind s t first = ap (write_state e.address s) first ∙ rw (==_refl e.address) refl

IsLinked-with_state :
    (t : Tracked) (e : Element) (behind : List Element) (s : KeyState)
    → IsLinked t
    → t.order ≡ e ∷ behind
    → s.state_key ≡ e.value.state_key
    → IsLinked (with_state t e s)
unfolding address_of
IsLinked-with_state t e behind s h first same =
    let x : Element = record { address = e.address; value = s } in
    let written = write-first e behind s t first in
    let apart : Apart t.fresh_address (e ∷ behind) = subst (Apart t.fresh_address) first h.apart in
    record {
      addresses = λ k.
          h.addresses k
          ∙ ap (address_of k) first
          ∙ ap (λ j. if bytes_eq j k then some e.address else address_of k behind) (sym same)
          ∙ ap (address_of k) (sym written);
      apart = subst (Apart t.fresh_address) (sym written) (
          let (key, addr, low, rest) = apart in
          (subst (λ j. address_of j behind ≡ none) (sym same) key, addr, low, rest));
    }

module _ (float : Float) where
  decided_key :
      (p : PolicyOptions float) (key : Bytes) (seen : ℕ × ℕ) (now : ℤ) (s : KeyState)
      → (decided_state float p key seen now s).state_key ≡ s.state_key
  decided_key p key seen now s =
      elim (Bool-cases (differs (decision_on float p key seen now s).admit s.admitted)) [
        | inl change ↦ rw change refl
        | inr stay ↦ rw stay refl
      ]

module _ (float : Float) (policy : PolicyOptions float) (bound : ℕ) where
  abbrev counted_states :
      List KeyState → Bytes → ℤ → Option ((ℕ × ℕ) × Sketch) → Option (Sketch × List KeyState)
  counted_states states key now none = none
  counted_states states key now (some (seen, sketch)) =
      some (sketch, decided_on float policy key seen now (touched bound states key now))

  abbrev and_then :
      (Sketch → List KeyState → Option (Sketch × List KeyState))
      → Option (Sketch × List KeyState)
      → Option (Sketch × List KeyState)
  and_then f none = none
  and_then f (some (sketch, states)) = f sketch states

  -- The states after a sequence of decisions, on the sketch and the list alone.
  unfoldable pub states_all : List Call → Sketch → List KeyState → Option (Sketch × List KeyState)
  states_all [] sketch states = some (sketch, states)
  states_all (call key early later now ∷ calls) sketch states =
      and_then (states_all calls) (counted_states states key now (counts sketch key early later))

  abbrev left_over :
      Option (Decision float × Controller float)
      → (Controller float → Option (Controller float))
      → Option (Controller float)
  left_over none f = none
  left_over (some (d, c)) f = f c

  unfoldable pub explain_all : List Call → Controller float → Option (Controller float)
  unfolding explain
  explain_all [] c = some c
  explain_all (call key early later now ∷ calls) c =
      left_over (explain float c key early later now) (explain_all calls)

  -- The sketch and the states of a controller, where it has not failed.
  abbrev pub seen_states : Option (Controller float) → Option (Sketch × List KeyState)
  seen_states none = none
  seen_states (some c) = some (c.sketch, values c.tracked.order)

  pub record IsKept (c : Controller float) : Type 0 where
    pub linked_map : IsLinked c.tracked
    pub within_bound : length c.tracked.order ≤ bound
    pub same_bound : c.bound ≡ bound
    pub same_policy : c.policy ≡ policy

  abbrev pub AllKept : Option (Controller float) → Type 0
  AllKept none = Unit
  AllKept (some c) = IsKept c

  abbrev Outcome : Type 0
  Outcome = Option (Decision float × Controller float)

  abbrev seen_outcome : Outcome → Option (Sketch × List KeyState)
  seen_outcome none = none
  seen_outcome (some (d, c)) = some (c.sketch, values c.tracked.order)

  abbrev KeptOutcome : Outcome → Type 0
  KeptOutcome none = Unit
  KeptOutcome (some (d, c)) = IsKept c

  -- The step of a controller whose bound and policy are those of the section.
  step_at :
      (c : Controller float) (key : Bytes) (now : ℤ) (seen : ℕ × ℕ) (sketch : Sketch)
      (f : Found bound c.tracked key now)
      → IsKept c
      → KeptOutcome (explained float c key sketch seen now (some (f.element, f.next)))
        × (seen_outcome (explained float c key sketch seen now (some (f.element, f.next)))
            ≡ some (
              sketch,
              decided_on float policy key seen now (touched bound (values c.tracked.order) key now),
            ))
  step_at c key now seen sketch f k =
      let s = decided_state float c.policy key seen now f.element.value in
      let written = write-first f.element f.behind s f.next f.first in
      let same_length = ap (λ l. length l) (f.first) in
      (
        record {
          linked_map =
              IsLinked-with_state f.next f.element f.behind s f.linked f.first
                (decided_key float c.policy key seen now f.element.value);
          within_bound =
              subst (λ l. length l ≤ bound) (sym written)
                (subst (λ l. length l ≤ bound) f.first f.within);
          same_bound = k.same_bound;
          same_policy = k.same_policy;
        },
        ap (λ l. some (sketch, l))
            (ap values written
              ∙ ap (λ p. decided_state float p key seen now f.element.value ∷ values f.behind)
                  k.same_policy
              ∙ ap (λ v. decided_state float policy key seen now v ∷ values f.behind) f.same_state
              ∙ ap
                  (λ l.
                    decided_state float policy key seen now
                      (touched bound (values c.tracked.order) key now).0
                    ∷ l)
                  f.same_behind),
      )

  step_counted :
      (c : Controller float) (key : Bytes) (now : ℤ) (o : Option ((ℕ × ℕ) × Sketch))
      → 0 < bound
      → IsKept c
      → KeptOutcome (counted_explain float c key now o)
        × (seen_outcome (counted_explain float c key now o)
            ≡ counted_states (values c.tracked.order) key now o)
  step_counted c key now none positive k = (tt, refl)
  step_counted c key now (some (seen, sketch)) positive k =
      let f = state_locked-Found bound c.tracked key now positive k.linked_map k.within_bound in
      subst
        (λ o.
          KeptOutcome (explained float c key sketch seen now o)
          × (seen_outcome (explained float c key sketch seen now o)
              ≡ some (
                sketch,
                decided_on float policy key seen now
                    (touched bound (values c.tracked.order) key now),
              )))
        (sym (ap (λ b. state_locked b c.tracked key now) k.same_bound ∙ f.returns))
        (step_at c key now seen sketch f k)

  all_states :
      (calls : List Call) (c : Controller float)
      → 0 < bound
      → IsKept c
      → AllKept (explain_all calls c)
        × (seen_states (explain_all calls c) ≡ states_all calls c.sketch (values c.tracked.order))
  unfolding explain_all states_all explain
  all_states [] c positive k = (k, refl)
  all_states (call key early later now ∷ calls) c positive k =
      let o = counts c.sketch key early later in
      let (kept, same) = step_counted c key now o positive k in
      go (counted_explain float c key now o) kept same (λ d k'. all_states calls d positive k')
    where
      go :
          (r : Outcome)
          → KeptOutcome r
          → seen_outcome r
            ≡ counted_states (values c.tracked.order) key now (counts c.sketch key early later)
          → ((d : Controller float)
              → IsKept d
              → AllKept (explain_all calls d)
                × (seen_states (explain_all calls d)
                    ≡ states_all calls d.sketch (values d.tracked.order)))
          → AllKept (left_over r (explain_all calls))
            × (seen_states (left_over r (explain_all calls))
                ≡ and_then (states_all calls) (
                    counted_states
                      (values c.tracked.order)
                      key
                      now
                      (counts c.sketch key early later)))
      go none kept same more = (tt, ap (and_then (states_all calls)) same)
      go (some (d, c')) kept same more =
          let (all, eq) = more c' kept in (all, eq ∙ ap (and_then (states_all calls)) same)

-- A new controller's decisions on any keys leave the sketch and the states that the plain list gives, most
-- recent first: the list and the map stay linked, so a decision fails only where the sketch does, and a
-- controller tracks no more keys than its bound.
pub explain_all-states_all :
    (float : Float) (sketch : Option Sketch) (p : PolicyOptions float) (states_tracked start : ℤ)
    (calls : List Call)
    → let c = new_controller float sketch p states_tracked start in
      (seen_states float p c.bound (explain_all float p c.bound calls c)
        ≡ states_all float p c.bound calls c.sketch [])
      × AllKept float p c.bound (explain_all float p c.bound calls c)
unfolding new_controller lookup address_of
explain_all-states_all float sketch p states_tracked start calls =
    let c = new_controller float sketch p states_tracked start in
    let (kept, same) = all_states float p c.bound calls c (positive_bound states_tracked) (record {
      linked_map = record { addresses = λ k. refl; apart = tt };
      within_bound = omega arith;
      same_bound = refl;
      same_policy = refl;
    }) in
    (same, kept)
  where
    positive_bound : (n : ℤ) → 0 < (if leb_ℤ n (pos 0) then 100000 else pos_part n)
    positive_bound (pos n) = ground arith
    positive_bound (negsuc n) = ground arith
