-- ===== src/Sextant/Verifier/Sound.antt =====
-- pkg/sextant/verifier.go: what stands behind a violation that is reported.
use mathlib.Core.Path.{subst}
use cachet.Base.Int.{ℤ, pos, negsuc, leb_ℤ, ◌-ℤ◌, saturated}
use cachet.Base.Assoc.{lookup}
use cachet.Sextant.Difference.{Difference}
use cachet.Sextant.Classify.{Violation, classify, classify_lem, duration}
use cachet.Sextant.Verifier.{
  Error, Entry, State, Verifier, Sampled, forget, remembered, since_or, first_seen_behind,
  observation, classified, located, compare, judged, compared, peeked, asked, check, observe_clean,
}
use cachet.Sextant.Verifier.Streak.{
  seen_behind, by_shard, by_judged, by_diff, by_entry, by_state, event_of, IsNotCaughtUp, HasStreak,
  check-Marked,
}
use cachet.Base.{
  ◌≡◌, refl, ap, ◌∙◌, ◌⊎◌, inl, inr, Bool, true, false, Option, none, some, List, [], ◌∷◌, arith,
  All, Bytes, Result, ok, err,
}

abbrev Same : Verifier → Verifier → Type 0
Same v w = (w.tier ≡ v.tier) × (w.bound ≡ v.bound)

self_zero : (a : ℤ) → saturated (a -ℤ a) ≡ pos 0
unfolding saturated ◌-ℤ◌
self_zero (pos n) = ground arith
self_zero (negsuc n) = ground arith

module _ {Trace : Type 0} where
  unfoldable pub check_all : Verifier → List (Sampled Trace) → Verifier
  unfolding check
  check_all v [] = v
  check_all v (a ∷ checks) = check_all (check v a).left checks

  pub check-Same : (v : Verifier) (a : Sampled Trace) → Same v (check v a).left
  unfolding check forget first_seen_behind observe_clean
  check-Same v a = on_state a.state_answer
    where
      on_class :
          (w : Verifier) (o : Option (Violation Trace)) → Same v w → Same v (classified w a o).left
      on_class w none s = s
      on_class w (some x) s = s

      on_found : (o : Option ℤ) → Same v (remembered v a.sampled_key a.read_at o)
      on_found none = (refl, refl)
      on_found (some since) = (refl, refl)

      on_shard : (diff : Difference) (r : Result Error Bytes) → Same v (located v a diff r).left
      on_shard diff (err e) = (refl, refl)
      on_shard diff (ok shard) =
          let found = lookup a.sampled_key v.behind_since in
          on_class (remembered v a.sampled_key a.read_at found)
            (classify (observation a shard diff (since_or a.read_at found)) v.bound)
            (on_found found)

      on_judged : (diff : Difference) (b : Bool) → Same v (judged v a diff b).left
      on_judged diff false = (refl, refl)
      on_judged diff true = on_shard diff a.shard_answer

      on_diff : (r : Result Error Difference) → Same v (compared v a r).left
      on_diff (err e) = (refl, refl)
      on_diff (ok diff) = on_judged diff diff.is_behind

      on_entry : (s : Option State) (r : Result Error (Option Entry)) → Same v (peeked v a s r).left
      on_entry s (err e) = (refl, refl)
      on_entry none (ok entry) = (refl, refl)
      on_entry (some s) (ok none) = (refl, refl)
      on_entry (some s) (ok (some entry)) = on_diff (compare v.tier entry s)

      on_state : (r : Result Error (Option State)) → Same v (asked v a r).left
      on_state (err e) = (refl, refl)
      on_state (ok s) = on_entry s a.entry_answer

  abbrev Late : Verifier → Sampled Trace → Type 0
  Late v a =
      (event_of v.tier a ≡ seen_behind)
      × (leb_ℤ (saturated (a.read_at -ℤ since_or a.read_at (lookup a.sampled_key v.behind_since)))
            (duration v.bound)
          ≡ false)

  reported-Late :
      (v : Verifier) (a : Sampled Trace) (x : Violation Trace)
      → (check v a).reported ≡ some x
      → Late v a
  unfolding check event_of forget first_seen_behind observe_clean
  reported-Late v a x h = on_state a.state_answer refl h
    where
      on_class :
          (w : Verifier) (o : Option (Violation Trace))
          → (classified w a o).reported ≡ some x
          → o ≡ some x
      on_class w none h = h
      on_class w (some y) h = h

      on_shard :
          (diff : Difference) (r : Result Error Bytes)
          → event_of v.tier a ≡ by_shard r
          → (located v a diff r).reported ≡ some x
          → Late v a
      on_shard diff (err e) ev h = absurd (ground arith)
      on_shard diff (ok shard) ev h =
          let found = lookup a.sampled_key v.behind_since in
          let made =
            on_class (remembered v a.sampled_key a.read_at found)
              (classify (observation a shard diff (since_or a.read_at found)) v.bound) h in
          elim (classify_lem (observation a shard diff (since_or a.read_at found)) v.bound) [
            | inl (is_none, why) ↦ absurd (ground arith)
            | inr (y, is_some, stale, late, ev1, st1, se1, bo1) ↦ (ev, late)
          ]

      on_judged :
          (diff : Difference) (b : Bool)
          → event_of v.tier a ≡ by_judged a b
          → (judged v a diff b).reported ≡ some x
          → Late v a
      on_judged diff false ev h = absurd (ground arith)
      on_judged diff true ev h = on_shard diff a.shard_answer ev h

      on_diff :
          (r : Result Error Difference)
          → event_of v.tier a ≡ by_diff a r
          → (compared v a r).reported ≡ some x
          → Late v a
      on_diff (err e) ev h = absurd (ground arith)
      on_diff (ok diff) ev h = on_judged diff diff.is_behind ev h

      on_entry :
          (s : Option State) (r : Result Error (Option Entry))
          → event_of v.tier a ≡ by_entry v.tier a s r
          → (peeked v a s r).reported ≡ some x
          → Late v a
      on_entry s (err e) ev h = absurd (ground arith)
      on_entry none (ok entry) ev h = absurd (ground arith)
      on_entry (some s) (ok none) ev h = absurd (ground arith)
      on_entry (some s) (ok (some entry)) ev h = on_diff (compare v.tier entry s) ev h

      on_state :
          (r : Result Error (Option State))
          → event_of v.tier a ≡ by_state v.tier a r
          → (asked v a r).reported ≡ some x
          → Late v a
      on_state (err e) ev h = absurd (ground arith)
      on_state (ok s) ev h = on_entry s a.entry_answer ev h

  all-Same : (checks : List (Sampled Trace)) (v : Verifier) → Same v (check_all v checks)
  unfolding check_all
  all-Same [] v = (refl, refl)
  all-Same (a ∷ checks) v =
      let (t, b) = check-Same v a in
      let (t', b') = all-Same checks (check v a).left in (t' ∙ t, b' ∙ b)

  all_marked :
      (checks : List (Sampled Trace)) (v : Verifier) (key : Bytes) (t : ℤ)
      → lookup key (check_all v checks).behind_since ≡ some t
      → ((lookup key v.behind_since ≡ some t) × All (IsNotCaughtUp v.tier key) checks)
        ⊎ HasStreak v.tier key t checks
  unfolding check_all
  all_marked [] v key t h = inl (h, tt)
  all_marked (a ∷ checks) v key t h =
      let same = (check-Same v a).0 in
      elim (subst
        (λ tier.
          ((lookup key (check v a).left.behind_since ≡ some t)
            × All (IsNotCaughtUp tier key) checks)
          ⊎ HasStreak tier key t checks)
        same (all_marked checks (check v a).left key t h)) [
          | inr (before, first, later, e, k1, k2, k3, k4) ↦
              inr (a ∷ before, first, later, ap (λ l. a ∷ l) e, k1, k2, k3, k4)
          | inl (held, clear) ↦ elim (check-Marked v a key t held) [
            | inl (had, kept) ↦ inl (had, (kept, clear))
            | inr (is_key, ev, at) ↦ inr ([], a, checks, refl, is_key, ev, at, clear)
          ]
        ]

  -- A verifier that starts with no key behind and whose bound is not negative reports a violation only
  -- of a key that this check shows behind, that an earlier check showed behind longer ago than the bound,
  -- and that no check in between showed caught up.
  pub reported-streak :
      (v : Verifier) (checks : List (Sampled Trace)) (a : Sampled Trace) (x : Violation Trace)
      → v.behind_since ≡ []
      → leb_ℤ (pos 0) (duration v.bound) ≡ true
      → (check (check_all v checks) a).reported ≡ some x
      → (t : ℤ) × HasStreak v.tier a.sampled_key t checks
        × (event_of v.tier a ≡ seen_behind)
        × (leb_ℤ (saturated (a.read_at -ℤ t)) (duration v.bound) ≡ false)
  unfolding lookup
  reported-streak v checks a x empty sound h =
      let w = check_all v checks in
      let (st, sb) = all-Same checks v in
      let (ev, late) = reported-Late w a x h in
      on_found (lookup a.sampled_key w.behind_since) refl
        (subst
          (λ b.
            leb_ℤ
              (saturated (a.read_at -ℤ since_or a.read_at (lookup a.sampled_key w.behind_since)))
              (duration b)
            ≡ false)
          sb late)
        (subst (λ tier. event_of tier a ≡ seen_behind) st ev)
    where
      on_found :
          (o : Option ℤ)
          → lookup a.sampled_key (check_all v checks).behind_since ≡ o
          → leb_ℤ (saturated (a.read_at -ℤ since_or a.read_at o)) (duration v.bound) ≡ false
          → event_of v.tier a ≡ seen_behind
          → (t : ℤ) × HasStreak v.tier a.sampled_key t checks
            × (event_of v.tier a ≡ seen_behind)
            × (leb_ℤ (saturated (a.read_at -ℤ t)) (duration v.bound) ≡ false)
      on_found none e late ev = absurd (
          let z = subst (λ d. leb_ℤ d (duration v.bound) ≡ false) (self_zero a.read_at) late in
          ground arith)
      on_found (some t) e late ev = elim (all_marked checks v a.sampled_key t e) [
        | inr streak ↦ (t, streak, ev, late)
        | inl (had, clear) ↦
            absurd
              (let gone = subst (λ m. lookup a.sampled_key m ≡ some t) empty had in ground arith)
      ]
