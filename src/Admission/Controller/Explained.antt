-- ===== src/Admission/Controller/Explained.antt =====
-- internal/admission/controller.go: every decision against the list of states of Recency.
use mathlib.Core.Path.{subst}
use cachet.Base.Int.{ℤ}
use cachet.Base.Assoc.{lookup-insert}
use cachet.Admission.Controller.{
  KeyState, Element, find_element, remove_element, back, Tracked, moved, without_back, pushed,
  new_state, state_at, state_locked,
}
use cachet.Admission.Controller.Linked.{
  address_of, IsLinked, address_none_remove, Apart-remove_element, find-remove_element,
  address_of-remove_element, own_address, found_element, found_back, length-remove_element,
  Apart-grows, find_fresh,
}
use cachet.Admission.Controller.Recency.{
  drop_last, touched_at, touched, values, drop_state-values, find_state-values, find_state-none,
  length-values, drop_last-values, back-some, IsLinked-without_back, Found,
}
use cachet.Base.{
  ℕ, ◌≤◌, ◌<◌, ◌≡◌, refl, sym, ap, ◌∙◌, inl, inr, Bool, true, false, Option, none, some, List, [],
  ◌∷◌, arith, leb, if◌then◌else◌, Bool-cases, length, Bytes, bytes_eq, eq_of_bytes_eq,
  bytes_eq_refl,
}

Found-moved :
    (bound : ℕ) (t : Tracked) (key : Bytes) (now : ℤ) (a : ℕ)
    → IsLinked t
    → length t.order ≤ bound
    → address_of key t.order ≡ some a
    → Found bound t key now
unfolding state_locked touched address_of
Found-moved bound t key now a h le f =
    let n = t.fresh_address in
    let (e, held, is) = found_element n a key t.order h.apart f in
    let (gone, at, low) = find-remove_element n a t.order e h.apart held in
    let size = length-remove_element a t.order e held in
    let old = find_state-values n a key t.order e h.apart f held in
    record {
      element = e;
      behind = remove_element a t.order;
      next = record { order = e ∷ remove_element a t.order; by_key = t.by_key; fresh_address = n };
      returns = ap (state_at bound t key now) (h.addresses key ∙ f) ∙ ap (moved t a) held;
      first = refl;
      linked = record {
        addresses = λ k.
            h.addresses k
            ∙ either e k (bytes_eq e.value.state_key k) refl at
                (own_address n a t.order e h.apart held)
            ∙ sym (
                ap (λ o. if bytes_eq e.value.state_key k then some e.address else o)
                  (address_of-remove_element n a k t.order e h.apart held));
        apart = (
          address_of-remove_element n a e.value.state_key t.order e h.apart held
              ∙ rw (bytes_eq_refl e.value.state_key) refl,
          subst (λ b. find_element b (remove_element a t.order) ≡ none) (sym at) gone,
          low,
          Apart-remove_element n a t.order h.apart,
        );
      };
      within = omega arith;
      same_state = sym (ap (λ o. (touched_at bound (values t.order) key now o).0) old);
      same_behind =
          drop_state-values n a key t.order h.apart f
          ∙ sym (ap (λ o. (touched_at bound (values t.order) key now o).1) old);
    }
  where
    either :
        (e : Element) (k : Bytes) (b : Bool)
        → bytes_eq e.value.state_key k ≡ b
        → e.address ≡ a
        → address_of e.value.state_key t.order ≡ some a
        → address_of k t.order
          ≡ (if b then some e.address else if b then none else address_of k t.order)
    either e k true same at own =
        subst (λ j. address_of j t.order ≡ some e.address) (eq_of_bytes_eq e.value.state_key k same)
          (own ∙ ap some (sym at))
    either e k false same at own = refl

-- The new element in front of a list that has room.
IsLinked-pushed :
    (t : Tracked) (s : KeyState)
    → IsLinked t
    → address_of s.state_key t.order ≡ none
    → IsLinked (pushed t s).1
unfolding address_of
IsLinked-pushed t s h absent = record {
  addresses = λ k.
      lookup-insert s.state_key k t.fresh_address t.by_key
      ∙ ap (λ o. if bytes_eq s.state_key k then some t.fresh_address else o) (h.addresses k);
  apart = (
    absent,
    find_fresh t.fresh_address t.fresh_address t.order (omega arith) h.apart,
    omega arith,
    Apart-grows t.fresh_address t.order h.apart,
  );
}

-- The list before the new element, and what the reference keeps.
abbrev Room : ℕ → Tracked → Bytes → Tracked → Type 0
Room bound t key u =
    IsLinked u
    × (address_of key u.order ≡ none)
    × (length u.order < bound)
    × (values u.order ≡ (
        if leb bound (length (values t.order)) then drop_last (values t.order) else values t.order))

room :
    (bound : ℕ) (t : Tracked) (key : Bytes)
    → 0 < bound
    → IsLinked t
    → length t.order ≤ bound
    → address_of key t.order ≡ none
    → Room bound t key (if leb bound (length t.order) then without_back t (back t.order) else t)
room bound t key positive h le absent = elim (Bool-cases (leb bound (length t.order))) [
  | inr free ↦ rw (free, length-values t.order, free) (h, absent, ground arith, refl)
  | inl full ↦ rw (full, length-values t.order, full) (some_back t.order refl full)
]
  where
    some_back :
        (order : List Element)
        → t.order ≡ order
        → leb bound (length t.order) ≡ true
        → IsLinked (without_back t (back t.order))
          × (address_of key (without_back t (back t.order)).order ≡ none)
          × (length (without_back t (back t.order)).order < bound)
          × (values (without_back t (back t.order)).order ≡ drop_last (values t.order))
    some_back [] e full =
        absurd (let z = subst (λ l. leb bound (length l) ≡ true) e full in ground arith)
    some_back (x ∷ order) e full =
        let (y, made) = back-some x order in
        let old : back t.order ≡ some y = ap back e ∙ made in
        let held = found_back t.fresh_address t.order y h.apart old in
        let size = length-remove_element y.address t.order y held in
        subst
          (λ o.
            IsLinked (without_back t o)
            × (address_of key (without_back t o).order ≡ none)
            × (length (without_back t o).order < bound)
            × (values (without_back t o).order ≡ drop_last (values t.order)))
          (sym old)
          (
            IsLinked-without_back t y h old,
            address_none_remove key y.address t.order absent,
            omega arith,
            drop_last-values t.fresh_address t.order y h.apart old,
          )

Found-new :
    (bound : ℕ) (t : Tracked) (key : Bytes) (now : ℤ)
    → 0 < bound
    → IsLinked t
    → length t.order ≤ bound
    → address_of key t.order ≡ none
    → Found bound t key now
unfolding state_locked touched
Found-new bound t key now positive h le absent =
    let u = if leb bound (length t.order) then without_back t (back t.order) else t in
    let (linked, free, short, kept) = room bound t key positive h le absent in
    let old = find_state-none key t.order absent in
    record {
      element = (pushed u (new_state key now)).0;
      behind = u.order;
      next = (pushed u (new_state key now)).1;
      returns = ap (state_at bound t key now) (h.addresses key ∙ absent);
      first = refl;
      linked = IsLinked-pushed u (new_state key now) linked free;
      within = omega arith;
      same_state = sym (ap (λ o. (touched_at bound (values t.order) key now o).0) old);
      same_behind = kept ∙ sym (ap (λ o. (touched_at bound (values t.order) key now o).1) old);
    }

pub state_locked-Found :
    (bound : ℕ) (t : Tracked) (key : Bytes) (now : ℤ)
    → 0 < bound
    → IsLinked t
    → length t.order ≤ bound
    → Found bound t key now
state_locked-Found bound t key now positive h le = at (address_of key t.order) refl
  where
    at : (o : Option ℕ) → address_of key t.order ≡ o → Found bound t key now
    at none e = Found-new bound t key now positive h le e
    at (some a) e = Found-moved bound t key now a h le e
