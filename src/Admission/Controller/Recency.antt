-- ===== src/Admission/Controller/Recency.antt =====
-- internal/admission/controller.go against a list of states without addresses and without a map, the most
-- recent first.
use mathlib.Core.Path.{subst}
use cachet.Base.Int.{ℤ}
use cachet.Base.Assoc.{lookup-remove}
use cachet.Admission.Controller.{
  KeyState, Element, find_element, remove_element, back, Tracked, without_back, new_state,
  state_locked,
}
use cachet.Admission.Controller.Linked.{
  address_of, Apart, IsLinked, Apart-remove_element, address_of-remove_element, found_element,
  found_back,
}
use cachet.Base.{
  ℕ, suc, ◌≤◌, ◌≡◌, refl, sym, ap, ◌∙◌, inl, inr, true, Option, none, some, List, [], ◌∷◌, map,
  arith, leb, ◌==◌, if◌then◌else◌, ==_refl, Bool-cases, length, Bytes, bytes_eq,
}

unfoldable pub find_state : Bytes → List KeyState → Option KeyState
find_state k [] = none
find_state k (s ∷ states) =
    let rest = find_state k states in if bytes_eq s.state_key k then some s else rest

unfoldable pub drop_state : Bytes → List KeyState → List KeyState
drop_state k [] = []
drop_state k (s ∷ states) =
    let rest = drop_state k states in if bytes_eq s.state_key k then states else s ∷ rest

-- All but the last.
unfoldable pub drop_last : List KeyState → List KeyState
drop_last [] = []
drop_last (s ∷ []) = []
drop_last (s ∷ t ∷ states) = s ∷ drop_last (t ∷ states)

-- The state of a key and the states behind it: a key that has none takes the place of the oldest when
-- the list is full.
abbrev pub touched_at : ℕ → List KeyState → Bytes → ℤ → Option KeyState → KeyState × List KeyState
touched_at bound states key now (some s) = (s, drop_state key states)
touched_at bound states key now none =
    (new_state key now, if leb bound (length states) then drop_last states else states)

unfoldable pub touched : ℕ → List KeyState → Bytes → ℤ → KeyState × List KeyState
touched bound states key now = touched_at bound states key now (find_state key states)

abbrev pub values : List Element → List KeyState
values order = map (λ e. e.value) order

pub drop_state-values :
    (n a : ℕ) (k : Bytes) (order : List Element)
    → Apart n order
    → address_of k order ≡ some a
    → values (remove_element a order) ≡ drop_state k (values order)
unfolding address_of remove_element drop_state
drop_state-values n a k [] h f = absurd (ground arith)
drop_state-values n a k (x ∷ order) (key, addr, low, rest) f =
    elim (Bool-cases (bytes_eq x.value.state_key k)) [
      | inl own ↦ let same : (x.address == a) ≡ true = ground arith in rw (own, same) refl
      | inr foreign ↦
          let deep : address_of k order ≡ some a = ground arith in
          let (e, held, is) = found_element n a k order rest deep in
          elim (Bool-cases (x.address == a)) [
            | inl same ↦
                let at : x.address ≡ a = ground arith in
                let gone : find_element a order ≡ none =
                  subst (λ b. find_element b order ≡ none) at addr in
                absurd (ground arith)
            | inr other ↦
                rw (foreign, other)
                  (ap (λ l. x.value ∷ l) (drop_state-values n a k order rest deep))
          ]
    ]

pub find_state-values :
    (n a : ℕ) (k : Bytes) (order : List Element) (e : Element)
    → Apart n order
    → address_of k order ≡ some a
    → find_element a order ≡ some e
    → find_state k (values order) ≡ some e.value
unfolding address_of find_element find_state
find_state-values n a k [] e h f g = absurd (ground arith)
find_state-values n a k (x ∷ order) e (key, addr, low, rest) f g =
    elim (Bool-cases (bytes_eq x.value.state_key k)) [
      | inl own ↦
          let same : (x.address == a) ≡ true = ground arith in
          let is : x ≡ e = ground arith in rw own (ap (λ y. some y.value) is)
      | inr foreign ↦
          let deep : address_of k order ≡ some a = ground arith in
          elim (Bool-cases (x.address == a)) [
            | inl same ↦
                let at : x.address ≡ a = ground arith in
                let gone : find_element a order ≡ none =
                  subst (λ b. find_element b order ≡ none) at addr in
                let (y, held, is) = found_element n a k order rest deep in absurd (ground arith)
            | inr other ↦
                let held : find_element a order ≡ some e = ground arith in
                rw foreign (find_state-values n a k order e rest deep held)
          ]
    ]

pub find_state-none :
    (k : Bytes) (order : List Element)
    → address_of k order ≡ none
    → find_state k (values order) ≡ none
unfolding address_of find_state
find_state-none k [] h = refl
find_state-none k (x ∷ order) h = ground (arith, find_state-none k order)

pub length-values : (order : List Element) → length (values order) ≡ length order
length-values [] = refl
length-values (e ∷ order) = ap suc (length-values order)

pub drop_last-values :
    (n : ℕ) (order : List Element) (e : Element)
    → Apart n order
    → back order ≡ some e
    → values (remove_element e.address order) ≡ drop_last (values order)
unfolding back remove_element drop_last
drop_last-values n [] e h f = absurd (ground arith)
drop_last-values n (x ∷ []) e h f =
    let is : x ≡ e = ground arith in
    subst (λ y. values (remove_element y.address (x ∷ [])) ≡ []) is (rw (==_refl x.address) refl)
drop_last-values n (x ∷ y ∷ order) e (key, addr, low, rest) f =
    let held = found_back n (y ∷ order) e rest f in
    elim (Bool-cases (x.address == e.address)) [
      | inl same ↦
          let at : x.address ≡ e.address = ground arith in
          let gone = subst (λ b. find_element b (y ∷ order) ≡ none) at addr in absurd (ground arith)
      | inr other ↦ rw other (ap (λ l. x.value ∷ l) (drop_last-values n (y ∷ order) e rest f))
    ]

pub back-some : (x : Element) (order : List Element) → (e : Element) × (back (x ∷ order) ≡ some e)
unfolding back
back-some x [] = (x, refl)
back-some x (y ∷ order) = back-some y order

pub IsLinked-without_back :
    (t : Tracked) (e : Element)
    → IsLinked t
    → back t.order ≡ some e
    → IsLinked (without_back t (some e))
IsLinked-without_back t e h f =
    let held = found_back t.fresh_address t.order e h.apart f in
    record {
      addresses = λ k.
          lookup-remove e.value.state_key k t.by_key
          ∙ ap (λ o. if bytes_eq e.value.state_key k then none else o) (h.addresses k)
          ∙ sym (address_of-remove_element t.fresh_address e.address k t.order e h.apart held);
      apart = Apart-remove_element t.fresh_address e.address t.order h.apart;
    }

-- What `stateLocked` gives: the element stands first, and the rest is what the reference keeps.
pub record Found (bound : ℕ) (t : Tracked) (key : Bytes) (now : ℤ) : Type 0 where
  pub element : Element
  pub behind : List Element
  pub next : Tracked
  pub returns : state_locked bound t key now ≡ some (element, next)
  pub first : next.order ≡ element ∷ behind
  pub linked : IsLinked next
  pub within : length next.order ≤ bound
  pub same_state : element.value ≡ (touched bound (values t.order) key now).0
  pub same_behind : values behind ≡ (touched bound (values t.order) key now).1
