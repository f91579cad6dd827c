-- ===== src/Breaker/Shed.antt =====
-- internal/breaker/breaker.go: the shed fraction is capped, and follows the failure rate.
use cachet.Base.Float.{Float}
use cachet.Base.Int.{pos, ltb_ℤ}
use cachet.Breaker.{Bucket, Options, check, shed_rate_of}
use cachet.Base.{
  ◌+◌, ◌^◌, ◌<◌, ◌≡◌, refl, ◌⊎◌, inl, inr, Bool, true, false, arith, if◌then◌else◌, Bool-cases, ok,
}

module _ (float : Float) where
  open float use {
    F, zero_f, one, of_nat, sub, mul, div, lt, le, lt_irrefl, le_of_lt, le_trans, lt_of_lt_of_le,
    refl_left, refl_right, le_of_not_lt, lt_of_not_le, zero_refl, one_refl, ratio_unit, sub_pos,
    sub_unit, sub_mono, div_unit, mul_unit,
  }

  abbrev pub IsNumber : F → Type 0
  IsNumber a = le a a ≡ true

  clamp : F → F → F
  clamp m s = if lt m s then m else s

  clamp_between :
      (m s : F)
      → le zero_f m ≡ true
      → le zero_f s ≡ true
      → (le zero_f (clamp m s) ≡ true) × (le (clamp m s) m ≡ true)
  unfolding clamp
  clamp_between m s hm hs = elim (Bool-cases (lt m s)) [
    | inl above ↦ rw above (hm, refl_right zero_f m hm)
    | inr within ↦
        rw within (hs, le_of_not_lt s m (refl_right zero_f s hs) (refl_right zero_f m hm) within)
  ]

  -- What is shed at a failure rate.
  at_rate : Options float → F → F
  at_rate o r =
      if le r o.failure_floor
      then zero_f
      else clamp o.max_shed (mul (div (sub r o.failure_floor) (sub one o.failure_floor)) o.max_shed)

  pub record Accepted (o : Options float) : Type 0 where
    pub floor_not_negative : lt o.failure_floor zero_f ≡ false
    pub floor_below_one : le one o.failure_floor ≡ false
    pub shed_not_negative : lt o.max_shed zero_f ≡ false
    pub shed_below_one : le one o.max_shed ≡ false

  Accepted-check : (o : Options float) → check float o ≡ ok tt → Accepted o
  unfolding check
  Accepted-check o h = ground arith

  shed_rate_of-at_rate :
      (o : Options float) (c : Bucket)
      → shed_rate_of float o c ≡ (
          if ltb_ℤ (pos (c.successes + c.failures)) o.min_requests
          then zero_f
          else at_rate o (div (of_nat c.failures) (of_nat (c.successes + c.failures))))
  unfolding shed_rate_of at_rate clamp
  shed_rate_of-at_rate o c = refl

  -- A number from zero to below one.
  abbrev IsFraction : F → Type 0
  IsFraction a = (le zero_f a ≡ true) × (lt a one ≡ true)

  fraction : (a : F) → IsNumber a → lt a zero_f ≡ false → le one a ≡ false → IsFraction a
  fraction a number low high =
      (le_of_not_lt zero_f a zero_refl number low, lt_of_not_le one a one_refl number high)

  -- The share of the way from the floor to one is between zero and one.
  way_unit :
      (f r : F)
      → IsFraction f
      → lt f r ≡ true
      → le r one ≡ true
      → (le zero_f (div (sub r f) (sub one f)) ≡ true) × (le (div (sub r f) (sub one f)) one ≡ true)
  way_unit f r low above high =
      let near = le_of_lt f r above in
      div_unit (sub r f) (sub one f) (sub_unit f r low.0 near high).0
        (sub_mono f r one low.0 near high one_refl) (sub_pos f one low.0 low.1 one_refl)
        (sub_unit f one low.0 (le_of_lt f one low.1) one_refl).1

  at_rate_between :
      (o : Options float) (r : F)
      → IsFraction o.failure_floor
      → IsFraction o.max_shed
      → le zero_f r ≡ true
      → le r one ≡ true
      → (le zero_f (at_rate o r) ≡ true) × (le (at_rate o r) o.max_shed ≡ true)
  unfolding at_rate
  at_rate_between o r floor shed low high = elim (Bool-cases (le r o.failure_floor)) [
    | inl within ↦ rw within (zero_refl, shed.0)
    | inr above ↦
        let number = refl_right zero_f o.failure_floor floor.0 in
        let beyond = lt_of_not_le r o.failure_floor (refl_right zero_f r low) number above in
        let way = way_unit o.failure_floor r floor beyond high in
        rw above (
          clamp_between o.max_shed
            (mul (div (sub r o.failure_floor) (sub one o.failure_floor)) o.max_shed) shed.0
            (mul_unit (div (sub r o.failure_floor) (sub one o.failure_floor)) o.max_shed way.0 way.1
              shed.0 (le_of_lt o.max_shed one shed.1)).0)
  ]

  abbrev rate : Bucket → F
  rate c = div (of_nat c.failures) (of_nat (c.successes + c.failures))

  abbrev guarded : Options float → Bucket → F → Bool → F
  guarded o c shed few = if few then zero_f else shed

  at_rate_zero :
      (o : Options float) (r : F)
      → IsNumber o.failure_floor
      → IsNumber r
      → (lt o.failure_floor r ≡ true) ⊎ (at_rate o r ≡ zero_f)
  unfolding at_rate
  at_rate_zero o r floor number = elim (Bool-cases (le r o.failure_floor)) [
    | inl low ↦ inr (rw low refl)
    | inr high ↦ inl (lt_of_not_le r o.failure_floor number floor high)
  ]

  below_one : (a m : F) → le a m ≡ true → lt m one ≡ true → lt a one ≡ true
  below_one a m h below = elim (Bool-cases (le one a)) [
    | inl above ↦ absurd (
        let same = lt_of_lt_of_le m one m below (le_trans one a m above h) in
        let irrefl = lt_irrefl m in ground arith)
    | inr within ↦ lt_of_not_le one a one_refl (refl_left a m h) within
  ]

  -- The rate of a window with enough requests for a positive minimum.
  rate_unit :
      (o : Options float) (c : Bucket)
      → ltb_ℤ (pos 0) o.min_requests ≡ true
      → c.successes + c.failures < 2 ^ 63
      → ltb_ℤ (pos (c.successes + c.failures)) o.min_requests ≡ false
      → (le zero_f (rate c) ≡ true) × (le (rate c) one ≡ true)
  rate_unit o c least word enough =
      ratio_unit c.failures (c.successes + c.failures) (omega arith) (ground arith) word

  -- What a breaker sheds is capped and needs evidence: under options that it accepts, with a floor and
  -- a maximum that are not NaN and a positive minimum of requests, and whatever the window has counted
  -- (below 2^63), the shed fraction is a number from zero to the maximum and below one, and unless it
  -- is zero there are at least as many requests as the minimum and the failure rate is above the floor.
  pub shed_rate_of-capped :
      (o : Options float) (c : Bucket)
      → check float o ≡ ok tt
      → IsNumber o.failure_floor
      → IsNumber o.max_shed
      → ltb_ℤ (pos 0) o.min_requests ≡ true
      → c.successes + c.failures < 2 ^ 63
      → let shed = shed_rate_of float o c in
        (le zero_f shed ≡ true)
        × (le shed o.max_shed ≡ true)
        × (lt shed one ≡ true)
        × ((shed ≡ zero_f)
            ⊎ ((ltb_ℤ (pos (c.successes + c.failures)) o.min_requests ≡ false)
                × (lt o.failure_floor (rate c) ≡ true)))
  shed_rate_of-capped o c h floor_number shed_number least word =
      rw (shed_rate_of-at_rate o c)
        (at_count (ltb_ℤ (pos (c.successes + c.failures)) o.min_requests) refl)
    where
      accepted : Accepted o
      accepted = Accepted-check o h

      shed : IsFraction o.max_shed
      shed = fraction o.max_shed shed_number accepted.shed_not_negative accepted.shed_below_one

      floor : IsFraction o.failure_floor
      floor =
          fraction o.failure_floor floor_number accepted.floor_not_negative accepted.floor_below_one

      at_count :
          (few : Bool)
          → ltb_ℤ (pos (c.successes + c.failures)) o.min_requests ≡ few
          → (le zero_f (guarded o c (at_rate o (rate c)) few) ≡ true)
            × (le (guarded o c (at_rate o (rate c)) few) o.max_shed ≡ true)
            × (lt (guarded o c (at_rate o (rate c)) few) one ≡ true)
            × ((guarded o c (at_rate o (rate c)) few ≡ zero_f)
                ⊎ ((ltb_ℤ (pos (c.successes + c.failures)) o.min_requests ≡ false)
                    × (lt o.failure_floor (rate c) ≡ true)))
      at_count true e = (zero_refl, shed.0, below_one zero_f o.max_shed shed.0 shed.1, inl refl)
      at_count false e =
          let unit = rate_unit o c least word e in
          let (low, high) = at_rate_between o (rate c) floor shed unit.0 unit.1 in
          (
            low,
            high,
            below_one (at_rate o (rate c)) o.max_shed high shed.1,
            elim (at_rate_zero o (rate c) floor_number (refl_right zero_f (rate c) unit.0)) [
              | inl above ↦ inr (e, above)
              | inr zero_rate ↦ inl zero_rate
            ],
          )
