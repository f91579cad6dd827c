-- ===== src/Admission/Controller/Linked.antt =====
-- internal/admission/controller.go: the list of the states and the map by key agree.
use mathlib.Core.Path.{subst}
use cachet.Base.Assoc.{lookup}
use cachet.Admission.Controller.{Element, find_element, remove_element, back, Tracked}
use cachet.Base.{
  ℕ, ◌+◌, ◌≤◌, ◌<◌, ◌≡◌, refl, sym, ap, ◌∙◌, ◌≢◌, inl, inr, true, false, Option, none, some, List,
  [], ◌∷◌, arith, ◌==◌, if◌then◌else◌, ==_refl, Bool-cases, length, Bytes, bytes_eq, eq_of_bytes_eq,
  bytes_eq_refl,
}

-- The address of the first element of a key.
unfoldable pub address_of : Bytes → List Element → Option ℕ
address_of k [] = none
address_of k (e ∷ order) =
    let rest = address_of k order in if bytes_eq e.value.state_key k then some e.address else rest

-- No two elements have a key or an address in common, and the addresses are below a bound.
abbrev pub Apart : ℕ → List Element → Type 0
Apart n [] = Unit
Apart n (e ∷ order) =
    (address_of e.value.state_key order ≡ none)
    × (find_element e.address order ≡ none)
    × (e.address < n)
    × Apart n order

-- The map holds the address of every key's element and no other.
pub record IsLinked (t : Tracked) : Type 0 where
  pub addresses : (k : Bytes) → lookup k t.by_key ≡ address_of k t.order
  pub apart : Apart t.fresh_address t.order

pub find_none_remove :
    (a b : ℕ) (order : List Element)
    → find_element b order ≡ none
    → find_element b (remove_element a order) ≡ none
unfolding find_element remove_element
find_none_remove a b [] h = refl
find_none_remove a b (e ∷ order) h = ground (arith, find_none_remove a b order)

pub address_none_remove :
    (k : Bytes) (a : ℕ) (order : List Element)
    → address_of k order ≡ none
    → address_of k (remove_element a order) ≡ none
unfolding address_of remove_element
address_none_remove k a [] h = refl
address_none_remove k a (e ∷ order) h = ground (arith, address_none_remove k a order)

pub Apart-remove_element :
    (n a : ℕ) (order : List Element) → Apart n order → Apart n (remove_element a order)
unfolding remove_element
Apart-remove_element n a [] h = tt
Apart-remove_element n a (e ∷ order) (key, addr, low, rest) = elim (Bool-cases (e.address == a)) [
  | inl same ↦ rw same rest
  | inr other ↦
      subst (λ l. Apart n l) (sym (kept other))
        (
          address_none_remove e.value.state_key a order key,
          find_none_remove a e.address order addr,
          low,
          Apart-remove_element n a order rest,
        )
]
  where
    kept :
        (e.address == a) ≡ false
        → (if e.address == a then order else e ∷ remove_element a order)
          ≡ e ∷ remove_element a order
    kept h = rw h refl

-- Where the list holds an address, its element is gone after a removal.
pub find-remove_element :
    (n a : ℕ) (order : List Element) (e : Element)
    → Apart n order
    → find_element a order ≡ some e
    → (find_element a (remove_element a order) ≡ none) × (e.address ≡ a) × (e.address < n)
unfolding find_element remove_element
find-remove_element n a [] e h f = absurd (ground arith)
find-remove_element n a (x ∷ order) e (key, addr, low, rest) f =
    elim (Bool-cases (x.address == a)) [
      | inl same ↦
          let is : x ≡ e = ground arith in
          let at : x.address ≡ a = ground arith in
          (
            rw same (subst (λ b. find_element b order ≡ none) at addr),
            sym (ap (λ y. y.address) is) ∙ at,
            subst (λ y. y.address < n) is low,
          )
      | inr other ↦
          let held : find_element a order ≡ some e = ground arith in
          let (gone, at, below) = find-remove_element n a order e rest held in
          (gone_path other ∙ gone, at, below)
    ]
  where
    gone_path :
        (x.address == a) ≡ false
        → find_element a (if x.address == a then order else x ∷ remove_element a order)
          ≡ find_element a (remove_element a order)
    gone_path h = rw (h, h) refl

pub address_of-remove_element :
    (n a : ℕ) (k : Bytes) (order : List Element) (e : Element)
    → Apart n order
    → find_element a order ≡ some e
    → address_of k (remove_element a order)
      ≡ (if bytes_eq e.value.state_key k then none else address_of k order)
unfolding address_of find_element remove_element
address_of-remove_element n a k [] e h f = absurd (ground arith)
address_of-remove_element n a k (x ∷ order) e (key, addr, low, rest) f =
    elim (Bool-cases (x.address == a)) [
      | inl same ↦
          let is : x ≡ e = ground arith in
          elim (Bool-cases (bytes_eq x.value.state_key k)) [
            | inl own ↦
                let absent : address_of k order ≡ none =
                  subst (λ j. address_of j order ≡ none) (eq_of_bytes_eq x.value.state_key k own)
                    key in
                here same
                ∙ absent
                ∙ sym (
                    ap
                      (λ y.
                        if bytes_eq y.value.state_key k
                        then none
                        else (if bytes_eq x.value.state_key k
                            then some x.address
                            else address_of k order))
                      (sym is)
                    ∙ rw own refl)
            | inr foreign ↦
                here same
                ∙ sym (
                    ap
                      (λ y.
                        if bytes_eq y.value.state_key k
                        then none
                        else (if bytes_eq x.value.state_key k
                            then some x.address
                            else address_of k order))
                      (sym is)
                    ∙ rw foreign refl)
          ]
      | inr other ↦
          let held : find_element a order ≡ some e = ground arith in
          let rest_eq = address_of-remove_element n a k order e rest held in
          there other ∙ (elim (Bool-cases (bytes_eq x.value.state_key k)) [
            | inl own ↦
                let (found, at) = key_of order e a rest held in
                let foreign : bytes_eq e.value.state_key k ≡ false = differs_key own key found in
                rw (own, foreign) refl
            | inr foreign ↦ rw foreign rest_eq
          ])
    ]
  where
    here :
        (x.address == a) ≡ true
        → address_of k (if x.address == a then order else x ∷ remove_element a order)
          ≡ address_of k order
    here h = rw h refl

    there :
        (x.address == a) ≡ false
        → address_of k (if x.address == a then order else x ∷ remove_element a order) ≡ (
            if bytes_eq x.value.state_key k
            then some x.address
            else address_of k (remove_element a order))
    there h = rw h refl

    key_of :
        (l : List Element) (y : Element) (b : ℕ)
        → Apart n l
        → find_element b l ≡ some y
        → (address_of y.value.state_key l ≢ none) × Unit {0}
    key_of [] y b h f = absurd (ground arith)
    key_of (z ∷ l) y b (zk, za, zl, zr) f = elim (Bool-cases (z.address == b)) [
      | inl same ↦
          let is : z ≡ y = ground arith in
          (
            subst (λ w. address_of w.value.state_key (z ∷ l) ≢ none) is
                (λ bad. let r = bytes_eq_refl z.value.state_key in ground arith),
            tt,
          )
      | inr other ↦
          let held : find_element b l ≡ some y = ground arith in
          let (deep, u) = key_of l y b zr held in (λ bad. deep (ground arith), tt)
    ]

    differs_key :
        bytes_eq x.value.state_key k ≡ true
        → address_of x.value.state_key order ≡ none
        → address_of e.value.state_key order ≢ none
        → bytes_eq e.value.state_key k ≡ false
    differs_key own absent found = elim (Bool-cases (bytes_eq e.value.state_key k)) [
      | inl same ↦
          let one : x.value.state_key ≡ k = eq_of_bytes_eq x.value.state_key k own in
          let two : e.value.state_key ≡ k = eq_of_bytes_eq e.value.state_key k same in
          absurd (found (ap (λ j. address_of j order) (two ∙ sym one) ∙ absent))
      | inr foreign ↦ foreign
    ]

-- An element that the list holds is the first one of its key.
pub own_address :
    (n a : ℕ) (order : List Element) (e : Element)
    → Apart n order
    → find_element a order ≡ some e
    → address_of e.value.state_key order ≡ some a
unfolding address_of find_element
own_address n a [] e h f = absurd (ground arith)
own_address n a (x ∷ order) e (key, addr, low, rest) f = elim (Bool-cases (x.address == a)) [
  | inl same ↦
      let is : x ≡ e = ground arith in
      let at : x.address ≡ a = ground arith in
      subst (λ y. address_of y.value.state_key (x ∷ order) ≡ some a) is
        (rw (bytes_eq_refl x.value.state_key) (ap some at))
  | inr other ↦
      let held : find_element a order ≡ some e = ground arith in
      let deep = own_address n a order e rest held in
      elim (Bool-cases (bytes_eq x.value.state_key e.value.state_key)) [
        | inl own ↦
            let gone : address_of e.value.state_key order ≡ none =
              subst (λ j. address_of j order ≡ none)
                (eq_of_bytes_eq x.value.state_key e.value.state_key own) key in
            absurd (ground arith)
        | inr foreign ↦ rw foreign deep
      ]
]

pub found_element :
    (n a : ℕ) (k : Bytes) (order : List Element)
    → Apart n order
    → address_of k order ≡ some a
    → (e : Element) × (find_element a order ≡ some e) × (e.value.state_key ≡ k)
unfolding address_of find_element
found_element n a k [] h f = absurd (ground arith)
found_element n a k (x ∷ order) (key, addr, low, rest) f =
    elim (Bool-cases (bytes_eq x.value.state_key k)) [
      | inl own ↦
          let at : x.address ≡ a = ground arith in
          let same : (x.address == a) ≡ true = ground arith in
          (x, rw same refl, eq_of_bytes_eq x.value.state_key k own)
      | inr foreign ↦
          let deep : address_of k order ≡ some a = ground arith in
          let (e, held, is) = found_element n a k order rest deep in
          elim (Bool-cases (x.address == a)) [
            | inl same ↦
                let at : x.address ≡ a = ground arith in
                let gone : find_element a order ≡ none =
                  subst (λ b. find_element b order ≡ none) at addr in
                absurd (ground arith)
            | inr other ↦ (e, rw other held, is)
          ]
    ]

pub found_back :
    (n : ℕ) (order : List Element) (e : Element)
    → Apart n order
    → back order ≡ some e
    → find_element e.address order ≡ some e
unfolding find_element back
found_back n [] e h f = absurd (ground arith)
found_back n (x ∷ []) e h f =
    let is : x ≡ e = ground arith in
    subst (λ y. find_element y.address (x ∷ []) ≡ some y) is (rw (==_refl x.address) refl)
found_back n (x ∷ y ∷ order) e (key, addr, low, rest) f =
    let deep = found_back n (y ∷ order) e rest f in
    elim (Bool-cases (x.address == e.address)) [
      | inl same ↦
          let at : x.address ≡ e.address = ground arith in
          let gone = subst (λ b. find_element b (y ∷ order) ≡ none) at addr in absurd (ground arith)
      | inr other ↦ rw other deep
    ]

pub length-remove_element :
    (a : ℕ) (order : List Element) (e : Element)
    → find_element a order ≡ some e
    → length (remove_element a order) + 1 ≡ length order
unfolding find_element remove_element
length-remove_element a [] e f = absurd (ground arith)
length-remove_element a (x ∷ order) e f = ground (arith, length-remove_element a order e)

pub Apart-grows : (n : ℕ) (order : List Element) → Apart n order → Apart (n + 1) order
Apart-grows n [] h = tt
Apart-grows n (e ∷ order) (key, addr, low, rest) =
    (key, addr, omega arith, Apart-grows n order rest)

pub find_fresh :
    (n m : ℕ) (order : List Element) → n ≤ m → Apart n order → find_element m order ≡ none
unfolding find_element
find_fresh n m [] le h = refl
find_fresh n m (e ∷ order) le (key, addr, low, rest) =
    let deep = find_fresh n m order le rest in ground arith
