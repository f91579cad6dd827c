-- ===== src/Window/Invariant.antt =====
-- What clearing a bucket keeps, and clearing all of them, rolling a window keeps.
use mathlib.Core.Path.{subst}
use cachet.Base.Int.{ℤ, pos, negsuc, ◌-ℤ◌}
use cachet.Window.{Window, modify, clear_next, clear_steps, roll_steps, roll_elapsed, roll}
use cachet.Base.{
  ℕ, zero, suc, ◌+◌, ◌/◌, ◌%◌, ◌<◌, ◌≡◌, refl, inl, inr, false, some, List, map, arith, ltb, leb,
  ◌==◌, Bool-cases, length,
}

module _ {A : Type 0} (clear : A → A) (P : List A → Type 0)
    (keep_one : (i : ℕ) (bs : List A) → P bs → P (modify i clear bs))
    (keep_all : (bs : List A) → P bs → P (map clear bs)) where
  kept_steps : (n : ℕ) (w : Window A) → P w.buckets → P (clear_steps clear n w).buckets
  unfolding clear_steps
  kept_steps zero w h = h
  kept_steps (suc n) w h =
      kept_steps n (clear_next clear w) (keep_one ((w.head + 1) % length w.buckets) w.buckets h)

  kept_roll_steps :
      (slice : ℕ) (later : ℤ) (n : ℕ) (v w : Window A)
      → P v.buckets
      → roll_steps clear slice later n v ≡ some w
      → P w.buckets
  unfolding roll_steps
  kept_roll_steps slice later n v w h e = elim (Bool-cases (slice == 0)) [
    | inl stuck ↦ absurd (ground arith)
    | inr runs ↦ elim (Bool-cases (leb (length v.buckets) (n / slice))) [
      | inl gone ↦
          let same : map clear v.buckets ≡ w.buckets = ground arith in
          subst P same (keep_all v.buckets h)
      | inr part ↦
          let same : (clear_steps clear (n / slice) v).buckets ≡ w.buckets = ground arith in
          subst P same (kept_steps (n / slice) v h)
    ]
  ]

  kept_roll_elapsed :
      (slice : ℕ) (later elapsed : ℤ) (v w : Window A)
      → P v.buckets
      → roll_elapsed clear slice later elapsed v ≡ some w
      → P w.buckets
  kept_roll_elapsed slice later (negsuc n) v w h e =
      let same : v.buckets ≡ w.buckets = ground arith in subst P same h
  kept_roll_elapsed slice later (pos n) v w h e = elim (Bool-cases (ltb n slice)) [
    | inl early ↦ let same : v.buckets ≡ w.buckets = ground arith in subst P same h
    | inr late ↦
        let rolled : roll_steps clear slice later n v ≡ some w = ground arith in
        kept_roll_steps slice later n v w h rolled
  ]

  pub kept_roll :
      (slice : ℕ) (now later : ℤ) (v w : Window A)
      → P v.buckets
      → roll clear slice now later v ≡ some w
      → P w.buckets
  unfolding roll
  kept_roll slice now later v w h e = kept_roll_elapsed slice later (now -ℤ v.head_start) v w h e

-- A window with a positive slice always rolls.
module _ {A : Type 0} (clear : A → A) where
  some_steps :
      (slice : ℕ) (later : ℤ) (n : ℕ) (v : Window A)
      → 0 < slice
      → (w : Window A) × (roll_steps clear slice later n v ≡ some w)
  unfolding roll_steps
  some_steps slice later n v positive =
      let nonzero : (slice == 0) ≡ false = ground arith in
      rw nonzero (elim (Bool-cases (leb (length v.buckets) (n / slice))) [
        | inl gone ↦ rw gone (_, refl)
        | inr part ↦ rw part (_, refl)
      ])

  some_elapsed :
      (slice : ℕ) (later elapsed : ℤ) (v : Window A)
      → 0 < slice
      → (w : Window A) × (roll_elapsed clear slice later elapsed v ≡ some w)
  some_elapsed slice later (negsuc n) v positive = (v, refl)
  some_elapsed slice later (pos n) v positive = elim (Bool-cases (ltb n slice)) [
    | inl early ↦ rw early (v, refl)
    | inr late ↦ rw late (some_steps slice later n v positive)
  ]

  pub roll-some :
      (slice : ℕ) (now later : ℤ) (v : Window A)
      → 0 < slice
      → (w : Window A) × (roll clear slice now later v ≡ some w)
  unfolding roll
  roll-some slice now later v positive = some_elapsed slice later (now -ℤ v.head_start) v positive
