-- ===== src/Admission/Controller.antt =====
-- internal/admission/controller.go: the admission state of the keys that were decided last. An element of
-- container/list has an address, and the map by key holds addresses, so that a decision writes to the
-- element that the list holds. `none` is a panic of the sketch, or an address that the list does not hold.
pub mod Linked
pub mod Recency
pub mod Explained
pub mod Runs
use cachet.Base.Float.{Float}
use cachet.Base.Int.{ℤ, pos, leb_ℤ, pos_part}
use cachet.Base.Assoc.{lookup, insert, remove}
use cachet.Admission.Sketch.{SketchOptions, Sketch, new_sketch, counts, record_access}
use cachet.Admission.Policy.{Time, PolicyOptions, State, Decision, differs, decide}
use cachet.Base.{
  ℕ, zero, suc, ◌+◌, ◌-◌, ◌*◌, ◌/◌, ◌%◌, ◌^◌, ◌≤◌, ◌<◌, min, max, bit_and, bit_or, bit_xor, ◌≡◌,
  refl, sym, ap, ◌∙◌, ◌≢◌, ◌↔◌, ◌⊎◌, inl, inr, Bool, true, false, not, ◌&&◌, ◌||◌, Option, none,
  some, List, [], ◌∷◌, ◌++◌, map, append_assoc, append-nil, arith, ltb, leb, ◌==◌, if◌then◌else◌,
  ltb→lt, lt→ltb, le→ltb, leb→le, le→leb, ==_iff, ==_refl, tests, Bool-cases, Option-cases, &&_true,
  length, get_elem?, get_or, set, take, drop, replicate, All, length-append, take_append,
  drop_append, length-replicate, All-append, Bytes, IsByte, ascii, bytes_eq, bytes_lt, bytes_le,
  eq_of_bytes_eq, bytes_eq_refl, bytes_eq_iff, bytes_eq_ne, Result, ok, err, ◌>>=◌, ◌>>◌, require,
}

abbrev pub default_states_tracked : ℕ
default_states_tracked = 100000

pub record KeyState : Type 0 where
  pub state_key : Bytes
  pub admitted : Bool
  pub since : Time

pub record Element : Type 0 where
  pub address : ℕ
  pub value : KeyState

abbrev pub no_options : SketchOptions
no_options = record {
  width_option = pos 0;
  depth_option = pos 0;
  window_option = pos 0;
  buckets_option = pos 0;
}

abbrev sketch_or_new : ℤ → Option Sketch → Sketch
sketch_or_new start none = new_sketch no_options start
sketch_or_new start (some s) = s

unfoldable pub find_element : ℕ → List Element → Option Element
find_element a [] = none
find_element a (e ∷ order) =
    let rest = find_element a order in if e.address == a then some e else rest

-- `order.Remove`
unfoldable pub remove_element : ℕ → List Element → List Element
remove_element a [] = []
remove_element a (e ∷ order) =
    let rest = remove_element a order in if e.address == a then order else e ∷ rest

-- `order.Back`
unfoldable pub back : List Element → Option Element
back [] = none
back (e ∷ []) = some e
back (e ∷ f ∷ order) = back (f ∷ order)

-- A write to the state behind an address.
unfoldable pub write_state : ℕ → KeyState → List Element → List Element
write_state a s [] = []
write_state a s (e ∷ order) =
    let rest = write_state a s order in
    if e.address == a then (record { address = a; value = s }) ∷ order else e ∷ rest

-- The order of the states, the map by key, and the address of the next element.
pub record Tracked : Type 0 where
  pub order : List Element
  pub by_key : List (Bytes × ℕ)
  pub fresh_address : ℕ

abbrev pub moved : Tracked → ℕ → Option Element → Option (Element × Tracked)
moved t a none = none
moved t a (some e) = some (
  e,
  record {
    order = e ∷ remove_element a t.order;
    by_key = t.by_key;
    fresh_address = t.fresh_address;
  },
)

abbrev pub without_back : Tracked → Option Element → Tracked
without_back t none = t
without_back t (some old) = record {
  order = remove_element old.address t.order;
  by_key = remove old.value.state_key t.by_key;
  fresh_address = t.fresh_address;
}

abbrev pub pushed : Tracked → KeyState → Element × Tracked
pushed t s =
    let e : Element = record { address = t.fresh_address; value = s } in
    (
      e,
      record {
        order = e ∷ t.order;
        by_key = insert s.state_key t.fresh_address t.by_key;
        fresh_address = t.fresh_address + 1;
      },
    )

abbrev pub new_state : Bytes → ℤ → KeyState
new_state key now = record { state_key = key; admitted = true; since = some now }

abbrev pub state_at : ℕ → Tracked → Bytes → ℤ → Option ℕ → Option (Element × Tracked)
state_at bound t key now (some a) = moved t a (find_element a t.order)
state_at bound t key now none = some (
    pushed (if leb bound (length t.order) then without_back t (back t.order) else t)
      (new_state key now))

-- `stateLocked`
unfoldable pub state_locked : ℕ → Tracked → Bytes → ℤ → Option (Element × Tracked)
state_locked bound t key now = state_at bound t key now (lookup key t.by_key)

abbrev pub with_state : Tracked → Element → KeyState → Tracked
with_state t e s = record {
  order = write_state e.address s t.order;
  by_key = t.by_key;
  fresh_address = t.fresh_address;
}

module _ (float : Float) where
  pub record Controller : Type 0 where
    pub sketch : Sketch
    pub policy : PolicyOptions float
    pub bound : ℕ
    pub tracked : Tracked

  unfoldable pub new_controller : Option Sketch → PolicyOptions float → ℤ → ℤ → Controller
  new_controller sketch policy states_tracked start = record {
    sketch = sketch_or_new start sketch;
    policy = policy;
    bound =
        if leb_ℤ states_tracked (pos 0) then default_states_tracked else pos_part states_tracked;
    tracked = record { order = []; by_key = []; fresh_address = 0 };
  }

  -- The decision on a state, and the state after it.
  abbrev pub decision_on : PolicyOptions float → Bytes → ℕ × ℕ → ℤ → KeyState → Decision float
  decision_on p key seen now s = decide float p (record {
    key = key;
    reads = seen.0;
    writes = seen.1;
    admitted = s.admitted;
    since = s.since;
    now = now;
  })

  abbrev pub decided_state : PolicyOptions float → Bytes → ℕ × ℕ → ℤ → KeyState → KeyState
  decided_state p key seen now s =
      let d = decision_on p key seen now s in
      if differs d.admit s.admitted
      then record { state_key = s.state_key; admitted = d.admit; since = some now }
      else s

  abbrev pub explained :
      Controller
      → Bytes
      → Sketch
      → ℕ × ℕ
      → ℤ
      → Option (Element × Tracked)
      → Option (Decision float × Controller)
  explained c key sketch seen now none = none
  explained c key sketch seen now (some (e, t)) = some (
    decision_on c.policy key seen now e.value,
    record {
      sketch = sketch;
      policy = c.policy;
      bound = c.bound;
      tracked = with_state t e (decided_state c.policy key seen now e.value);
    },
  )

  abbrev pub counted_explain :
      Controller → Bytes → ℤ → Option ((ℕ × ℕ) × Sketch) → Option (Decision float × Controller)
  counted_explain c key now none = none
  counted_explain c key now (some (seen, sketch)) =
      explained c key sketch seen now (state_locked c.bound c.tracked key now)

  -- `Explain`: the sketch reads the clock first, at `early` and, where its window is over, at `later`.
  unfoldable pub explain : Controller → Bytes → ℤ → ℤ → ℤ → Option (Decision float × Controller)
  explain c key early later now = counted_explain c key now (counts c.sketch key early later)

  abbrev recorded_in : Controller → Option Sketch → Option Controller
  recorded_in c none = none
  recorded_in c (some s) =
      some (record { sketch = s; policy = c.policy; bound = c.bound; tracked = c.tracked })

  -- `RecordRead` and `RecordWrite`
  unfoldable pub record_in : Controller → Bytes → Bool → ℤ → ℤ → Option Controller
  record_in c key is_read now later = recorded_in c (record_access c.sketch key is_read now later)

  unfoldable pub tracked_keys : Controller → ℕ
  tracked_keys c = length c.tracked.order
