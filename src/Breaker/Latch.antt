-- ===== src/Breaker/Latch.antt =====
-- internal/breaker/breaker.go: a breaker whose options ask for no minimum of requests.
use cachet.Base.Float.{Float}
use cachet.Base.Int.{ℤ, pos, negsuc, pos_part, ◌+ℤ◌, ◌-ℤ◌}
use cachet.Window.{Window, modify, restart, clear_steps, roll_elapsed, roll_steps, roll}
use cachet.Window.Invariant.{kept_roll}
use cachet.Breaker.{
  Error, integer_divide_by_zero, Bucket, empty_bucket, clear_bucket, count, Options, Breaker, check,
  new, fresh, with_window, roll_locked, shed_rate_of, shed_locked, allow,
}
use cachet.Base.{
  ℕ, zero, suc, ◌*◌, ◌/◌, ◌<◌, ◌≡◌, refl, inl, inr, Bool, true, false, Option, none, some, List, [],
  ◌∷◌, map, arith, ltb, leb, ◌==◌, if◌then◌else◌, Bool-cases, length, replicate, All, Result, ok,
  err, ◌>>=◌,
}

abbrev pub IsIdle : Window Bucket → Type 0
IsIdle w = All (λ b. b ≡ empty_bucket) w.buckets

idle_modify :
    (i : ℕ) (bs : List Bucket)
    → All (λ b. b ≡ empty_bucket) bs
    → All (λ b. b ≡ empty_bucket) (modify i clear_bucket bs)
unfolding modify
idle_modify i [] h = h
idle_modify zero (b ∷ bs) h = (refl, h.1)
idle_modify (suc i) (b ∷ bs) h = (h.0, idle_modify i bs h.1)

pub cleared : (bs : List Bucket) → All (λ b. b ≡ empty_bucket) (map clear_bucket bs)
cleared [] = tt
cleared (b ∷ bs) = (refl, cleared bs)

IsIdle-roll :
    (slice : ℕ) (now later : ℤ) (v w : Window Bucket)
    → IsIdle v
    → roll clear_bucket slice now later v ≡ some w
    → IsIdle w
IsIdle-roll slice now later v w h e =
    kept_roll clear_bucket (λ bs. All (λ b. b ≡ empty_bucket) bs) idle_modify (λ bs all. cleared bs)
      slice now later v w h e

runs_elapsed :
    (slice : ℕ) (later elapsed : ℤ) (v : Window Bucket)
    → 0 < slice
    → (w : Window Bucket) × (roll_elapsed clear_bucket slice later elapsed v ≡ some w)
unfolding roll_steps
runs_elapsed slice later (negsuc n) v live = (v, refl)
runs_elapsed slice later (pos n) v live =
    let divides : (slice == 0) ≡ false = ground arith in
    elim (Bool-cases (ltb n slice)) [
      | inl early ↦ (v, rw early refl)
      | inr late ↦ elim (Bool-cases (leb (length v.buckets) (n / slice))) [
        | inl gone ↦ (
          record { buckets = map clear_bucket v.buckets; head = 0; head_start = later },
          rw (late, divides, gone) refl,
        )
        | inr partly ↦ (
          restart clear_bucket (v.head_start +ℤ pos (n / slice * slice))
              (clear_steps clear_bucket (n / slice) v),
          rw (late, divides, partly) refl,
        )
      ]
    ]

-- A slice of at least one nanosecond divides.
runs_roll :
    (slice : ℕ) (now later : ℤ) (v : Window Bucket)
    → 0 < slice
    → (w : Window Bucket) × (roll clear_bucket slice now later v ≡ some w)
unfolding roll
runs_roll slice now later v live = runs_elapsed slice later (now -ℤ v.head_start) v live

pub count_idle : (bs : List Bucket) → All (λ b. b ≡ empty_bucket) bs → count bs ≡ empty_bucket
unfolding count
count_idle [] h = refl
count_idle (b ∷ bs) h = rw (h.0, count_idle bs h.1) refl

module _ (float : Float) where
  open float use {
    F, zero_f, one, of_nat, sub, mul, div, lt, le, le_of_nan, lt_of_nan, sub_nan, div_nan, mul_nan,
    zero_div_zero, refl_right, refl_left,
  }

  pub record Call : Type 0 where
    pub now : ℤ
    pub later : ℤ
    pub random : F

  -- The answers of a sequence of `Allow` calls.
  unfoldable pub allow_all : Breaker float → List Call → Result Error (List Bool)
  unfolding allow
  allow_all b [] = ok []
  allow_all b (c ∷ calls) =
      allow float b c.now c.later c.random >>= λ r. allow_all r.1 calls >>= λ rest. ok (r.0 ∷ rest)

  abbrev scaled : Options float → F
  scaled o =
      mul (div (sub (div (of_nat 0) (of_nat 0)) o.failure_floor) (sub one o.failure_floor))
        o.max_shed

  scaled_nan : (o : Options float) → le (scaled o) (scaled o) ≡ false
  scaled_nan o =
      let q = div (of_nat 0) (of_nat 0) in
      let d = sub q o.failure_floor in
      let e = div d (sub one o.failure_floor) in
      mul_nan e o.max_shed
        (div_nan d (sub one o.failure_floor) (sub_nan q o.failure_floor (zero_div_zero q)))

  shed_rate_of-idle :
      (o : Options float) → o.min_requests ≡ pos 0 → shed_rate_of float o empty_bucket ≡ scaled o
  unfolding shed_rate_of
  shed_rate_of-idle o e =
      rw (e, zero_div_zero o.failure_floor, lt_of_nan o.max_shed (scaled o) (scaled_nan o)) refl

  le-nan : (a s : F) → le s s ≡ false → le a s ≡ false
  le-nan a s h = elim (Bool-cases (le a s)) [
    | inl ordered ↦ absurd (ground (arith, refl_right a s))
    | inr unordered ↦ unordered
  ]

  abbrev answer : Breaker float → F → Window Bucket → Bool × Breaker float
  answer b random w =
      let p = shed_rate_of float b.opts (count w.buckets) in
      (if le p zero_f then true else le p random, with_window float b w)

  answer_shut :
      (b : Breaker float) (random : F) (w : Window Bucket)
      → b.opts.min_requests ≡ pos 0
      → IsIdle w
      → (answer b random w).0 ≡ false
  answer_shut b random w e idle =
      let n = scaled_nan b.opts in
      rw
        (
          count_idle w.buckets idle,
          shed_rate_of-idle b.opts e,
          le_of_nan (scaled b.opts) zero_f n,
          le_of_nan (scaled b.opts) random n,
        )
        refl

  allow_rolled :
      (b : Breaker float) (now later : ℤ) (random : F) (o : Option (Window Bucket))
      → roll clear_bucket b.bucketed now later b.live ≡ o
      → allow float b now later random
        ≡ elim o [ none ↦ err integer_divide_by_zero | some w ↦ ok (answer b random w) ]
  unfolding allow shed_locked roll_locked
  allow_rolled b now later random none e = rw e refl
  allow_rolled b now later random (some w) e = rw e refl

  shut_from :
      (b : Breaker float) (calls : List Call)
      → b.opts.min_requests ≡ pos 0
      → 0 < b.bucketed
      → IsIdle b.live
      → allow_all b calls ≡ ok (replicate (length calls) false)
  unfolding allow_all
  shut_from b [] e slice idle = refl
  shut_from b (c ∷ calls) e slice idle =
      let (w, rolled) = runs_roll b.bucketed c.now c.later b.live slice in
      let next = IsIdle-roll b.bucketed c.now c.later b.live w idle rolled in
      let rest = shut_from (with_window float b w) calls e slice next in
      rw
        (
          allow_rolled b c.now c.later c.random (some w) rolled,
          rest,
          answer_shut b c.random w e next,
        )
        refl

  idle_replicate : (n : ℕ) → All (λ b. b ≡ empty_bucket) (replicate n empty_bucket)
  idle_replicate zero = tt
  idle_replicate (suc n) = (refl, idle_replicate n)

  -- A breaker that asks for no minimum of requests latches shut: for options without one that pass
  -- the checks and give a bucket a nanosecond at least, `New` succeeds, and any sequence of `Allow`
  -- calls runs and lets no request through, at any times and whatever the random source returns,
  -- since an empty window has the failure rate 0/0.
  pub allow_all-new :
      (o : Options float) (start : ℤ) (calls : List Call)
      → check float o ≡ ok tt
      → o.min_requests ≡ pos 0
      → 0 < pos_part o.window / pos_part o.bucket_count
      → (new float o start ≡ ok (fresh float o start))
        × (allow_all (fresh float o start) calls ≡ ok (replicate (length calls) false))
  unfolding new
  allow_all-new o start calls accepted e slice = (
    rw accepted refl,
    shut_from (fresh float o start) calls e slice (idle_replicate (pos_part o.bucket_count)),
  )
