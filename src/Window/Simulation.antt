-- ===== src/Window/Simulation.antt =====
-- Two windows over the same times, whose buckets are related one by one, stay related.
use mathlib.Core.Path.{subst}
use cachet.Base.Int.{ℤ, pos, negsuc, ◌+ℤ◌, ◌-ℤ◌}
use cachet.Window.{Window, modify, clear_next, clear_steps, roll_steps, roll_elapsed, roll}
use cachet.Base.{
  ℕ, zero, suc, ◌+◌, ◌*◌, ◌/◌, ◌%◌, ◌≡◌, refl, sym, ap, inl, inr, Option, none, some, List, [], ◌∷◌,
  map, ltb, leb, ◌==◌, Bool-cases, length,
}

module _ {A B : Type 0} (R : A → B → Type 0) where
  abbrev pub AllPairs : List A → List B → Type 0
  AllPairs [] [] = Unit
  AllPairs [] (b ∷ bs) = ⊥
  AllPairs (a ∷ as') [] = ⊥
  AllPairs (a ∷ as') (b ∷ bs) = R a b × AllPairs as' bs

  -- The same head and start, and related buckets.
  abbrev pub Related : Window A → Window B → Type 0
  Related v w = (v.head ≡ w.head) × ((v.head_start ≡ w.head_start) × AllPairs v.buckets w.buckets)

  abbrev pub RelatedOption : Option (Window A) → Option (Window B) → Type 0
  RelatedOption none none = Unit
  RelatedOption none (some w) = ⊥
  RelatedOption (some v) none = ⊥
  RelatedOption (some v) (some w) = Related v w

  pub length-AllPairs : (as' : List A) (bs : List B) → AllPairs as' bs → length as' ≡ length bs
  length-AllPairs [] [] h = refl
  length-AllPairs [] (b ∷ bs) h = absurd h
  length-AllPairs (a ∷ as') [] h = absurd h
  length-AllPairs (a ∷ as') (b ∷ bs) h = ap suc (length-AllPairs as' bs h.1)

  pub AllPairs-modify :
      (f : A → A) (g : B → B)
      → ((a : A) (b : B) → R a b → R (f a) (g b))
      → (i : ℕ) (as' : List A) (bs : List B) → AllPairs as' bs
      → AllPairs (modify i f as') (modify i g bs)
  unfolding modify
  AllPairs-modify f g keep i [] [] h = h
  AllPairs-modify f g keep i [] (b ∷ bs) h = absurd h
  AllPairs-modify f g keep i (a ∷ as') [] h = absurd h
  AllPairs-modify f g keep zero (a ∷ as') (b ∷ bs) h = (keep a b h.0, h.1)
  AllPairs-modify f g keep (suc i) (a ∷ as') (b ∷ bs) h =
      (h.0, AllPairs-modify f g keep i as' bs h.1)

  module _ (f : A → A) (g : B → B) (keep : (a : A) (b : B) → R a b → R (f a) (g b)) where
    AllPairs-map : (as' : List A) (bs : List B) → AllPairs as' bs → AllPairs (map f as') (map g bs)
    AllPairs-map [] [] h = h
    AllPairs-map [] (b ∷ bs) h = absurd h
    AllPairs-map (a ∷ as') [] h = absurd h
    AllPairs-map (a ∷ as') (b ∷ bs) h = (keep a b h.0, AllPairs-map as' bs h.1)

    Related-clear_next :
        (v : Window A) (w : Window B) → Related v w → Related (clear_next f v) (clear_next g w)
    Related-clear_next v w (head, (start, pairs)) =
        let n = length-AllPairs v.buckets w.buckets pairs in
        rw (head, n)
          (
            refl,
            (
              start,
              AllPairs-modify f g keep ((w.head + 1) % length w.buckets) v.buckets w.buckets pairs,
            ),
          )

    Related-clear_steps :
        (n : ℕ) (v : Window A) (w : Window B)
        → Related v w
        → Related (clear_steps f n v) (clear_steps g n w)
    unfolding clear_steps
    Related-clear_steps zero v w h = h
    Related-clear_steps (suc n) v w h =
        Related-clear_steps n (clear_next f v) (clear_next g w) (Related-clear_next v w h)

    Related-roll_steps :
        (slice : ℕ) (later : ℤ) (n : ℕ) (v : Window A) (w : Window B)
        → Related v w
        → RelatedOption (roll_steps f slice later n v) (roll_steps g slice later n w)
    unfolding roll_steps
    Related-roll_steps slice later n v w (head, (start, pairs)) =
        let len = length-AllPairs v.buckets w.buckets pairs in
        elim (Bool-cases (slice == 0)) [
          | inl stuck ↦ rw stuck tt
          | inr runs ↦
              rw (runs, len)
                (elim (Bool-cases (leb (length w.buckets) (n / slice))) [
                  | inl gone ↦ rw gone (refl, (refl, AllPairs-map v.buckets w.buckets pairs))
                  | inr part ↦
                      let next = Related-clear_steps (n / slice) v w (head, (start, pairs)) in
                      rw part (next.0, (ap (λ t. t +ℤ pos (n / slice * slice)) start, next.1.1))
                ])
        ]

    Related-roll_elapsed :
        (slice : ℕ) (later elapsed : ℤ) (v : Window A) (w : Window B)
        → Related v w
        → RelatedOption
            (roll_elapsed f slice later elapsed v)
            (roll_elapsed g slice later elapsed w)
    Related-roll_elapsed slice later (negsuc n) v w h = h
    Related-roll_elapsed slice later (pos n) v w h = elim (Bool-cases (ltb n slice)) [
      | inl early ↦ rw early h
      | inr late ↦ rw late (Related-roll_steps slice later n v w h)
    ]

    pub Related-roll :
        (slice : ℕ) (now later : ℤ) (v : Window A) (w : Window B)
        → Related v w
        → RelatedOption (roll f slice now later v) (roll g slice now later w)
    unfolding roll
    Related-roll slice now later v w h =
        subst
          (λ t.
            RelatedOption (roll_elapsed f slice later (now -ℤ t) v)
              (roll_elapsed g slice later (now -ℤ w.head_start) w))
          (sym h.1.0) (Related-roll_elapsed slice later (now -ℤ w.head_start) v w h)
