-- ===== src/Sextant/Verifier/Streak.antt =====
-- pkg/sextant/verifier.go: since when a key has been behind, against the checks that were made.
use cachet.Base.Int.{ℤ}
use cachet.Base.Assoc.{lookup, insert, remove, lookup-insert, lookup-remove}
use cachet.Sextant.Difference.{Tier, Difference}
use cachet.Sextant.Classify.{Violation, classify}
use cachet.Sextant.Verifier.{
  Error, Entry, State, Verifier, Sampled, forget, remembered, since_or, first_seen_behind,
  observation, classified, located, compare, judged, compared, peeked, asked, check, observe_clean,
}
use cachet.Base.{
  ◌≡◌, refl, sym, ◌∙◌, ◌≢◌, ◌⊎◌, inl, inr, Bool, true, false, Option, none, some, List, ◌∷◌, ◌++◌,
  arith, Bool-cases, All, Bytes, bytes_eq, eq_of_bytes_eq, Result, ok, err,
}

pub data Event : Type 0 where
  caught_up seen_behind not_seen : Event

abbrev pub by_shard : Result Error Bytes → Event
by_shard (err e) = not_seen
by_shard (ok shard) = seen_behind

behind_ne : (e : Event) → e ≡ seen_behind → e ≢ caught_up
behind_ne e h k = absurd (ground arith)

seen_ne : (e : Event) → e ≡ not_seen → e ≢ caught_up
seen_ne e h k = absurd (ground arith)

module _ {Trace : Type 0} where
  abbrev pub by_judged : Sampled Trace → Bool → Event
  by_judged a false = caught_up
  by_judged a true = by_shard a.shard_answer

  abbrev pub by_diff : Sampled Trace → Result Error Difference → Event
  by_diff a (err e) = not_seen
  by_diff a (ok diff) = by_judged a diff.is_behind

  abbrev pub by_entry : Tier → Sampled Trace → Option State → Result Error (Option Entry) → Event
  by_entry tier a s (err e) = not_seen
  by_entry tier a none (ok entry) = caught_up
  by_entry tier a (some s) (ok none) = caught_up
  by_entry tier a (some s) (ok (some entry)) = by_diff a (compare tier entry s)

  abbrev pub by_state : Tier → Sampled Trace → Result Error (Option State) → Event
  by_state tier a (err e) = not_seen
  by_state tier a (ok s) = by_entry tier a s a.entry_answer

  -- What a check shows of its key, at a tier.
  unfoldable pub event_of : Tier → Sampled Trace → Event
  event_of tier a = by_state tier a a.state_answer

  abbrev pub IsNotCaughtUp : Tier → Bytes → Sampled Trace → Type 0
  IsNotCaughtUp tier key a = (bytes_eq a.sampled_key key ≡ false) ⊎ (event_of tier a ≢ caught_up)

  -- A check at `t` showed the key behind, and no later one showed it caught up.
  abbrev pub HasStreak : Tier → Bytes → ℤ → List (Sampled Trace) → Type 0
  HasStreak tier key t checks =
      (before : List (Sampled Trace)) × (first : Sampled Trace) × (later : List (Sampled Trace))
      × (checks ≡ before ++ first ∷ later)
      × (first.sampled_key ≡ key)
      × (event_of tier first ≡ seen_behind)
      × (first.read_at ≡ t)
      × All (IsNotCaughtUp tier key) later

  -- What a check leaves for a key whose entry is at `since`.
  abbrev pub Marked : Tier → Bytes → Sampled Trace → Option ℤ → ℤ → Type 0
  Marked tier key a since t =
      ((since ≡ some t) × IsNotCaughtUp tier key a)
      ⊎ ((a.sampled_key ≡ key) × (event_of tier a ≡ seen_behind) × (a.read_at ≡ t))

  forget-Marked :
      (v : Verifier) (a : Sampled Trace) (key : Bytes) (t : ℤ)
      → lookup key (remove a.sampled_key v.behind_since) ≡ some t
      → Marked v.tier key a (lookup key v.behind_since) t
  forget-Marked v a key t h = elim (Bool-cases (bytes_eq a.sampled_key key)) [
    | inl same ↦
        let gone : lookup key (remove a.sampled_key v.behind_since) ≡ none =
          lookup-remove a.sampled_key key v.behind_since ∙ rw same refl in
        absurd (ground arith)
    | inr apart ↦
        let kept : lookup key (remove a.sampled_key v.behind_since) ≡ lookup key v.behind_since =
          lookup-remove a.sampled_key key v.behind_since ∙ rw apart refl in
        inl (sym kept ∙ h, inl apart)
  ]

  behind-Marked :
      (v : Verifier) (a : Sampled Trace) (key : Bytes) (t : ℤ) (found : Option ℤ)
      → event_of v.tier a ≡ seen_behind
      → lookup key (remembered v a.sampled_key a.read_at found).behind_since ≡ some t
      → Marked v.tier key a (lookup key v.behind_since) t
  behind-Marked v a key t (some since) e h = inl (h, inr (behind_ne (event_of v.tier a) e))
  behind-Marked v a key t none e h = elim (Bool-cases (bytes_eq a.sampled_key key)) [
    | inl same ↦
        let here : lookup key (insert a.sampled_key a.read_at v.behind_since) ≡ some a.read_at =
          lookup-insert a.sampled_key key a.read_at v.behind_since ∙ rw same refl in
        inr (eq_of_bytes_eq a.sampled_key key same, e, ground arith)
    | inr apart ↦
        let kept : lookup key (insert a.sampled_key a.read_at v.behind_since)
            ≡ lookup key v.behind_since =
          lookup-insert a.sampled_key key a.read_at v.behind_since ∙ rw apart refl in
        inl (sym kept ∙ h, inl apart)
  ]

  pub check-Marked :
      (v : Verifier) (a : Sampled Trace) (key : Bytes) (t : ℤ)
      → lookup key (check v a).left.behind_since ≡ some t
      → Marked v.tier key a (lookup key v.behind_since) t
  unfolding check event_of forget first_seen_behind observe_clean
  check-Marked v a key t h = on_state a.state_answer refl h
    where
      unseen :
          event_of v.tier a ≡ not_seen
          → lookup key v.behind_since ≡ some t
          → Marked v.tier key a (lookup key v.behind_since) t
      unseen e h = inl (h, inr (seen_ne (event_of v.tier a) e))

      on_class :
          (w : Verifier) (o : Option (Violation Trace))
          → lookup key (classified w a o).left.behind_since ≡ some t
          → lookup key w.behind_since ≡ some t
      on_class w none h = h
      on_class w (some x) h = h

      on_shard :
          (diff : Difference) (r : Result Error Bytes)
          → event_of v.tier a ≡ by_shard r
          → lookup key (located v a diff r).left.behind_since ≡ some t
          → Marked v.tier key a (lookup key v.behind_since) t
      on_shard diff (err e) ev h = unseen ev h
      on_shard diff (ok shard) ev h =
          let found = lookup a.sampled_key v.behind_since in
          behind-Marked v a key t found ev (
            on_class (remembered v a.sampled_key a.read_at found)
              (classify (observation a shard diff (since_or a.read_at found)) v.bound) h)

      on_judged :
          (diff : Difference) (b : Bool)
          → event_of v.tier a ≡ by_judged a b
          → lookup key (judged v a diff b).left.behind_since ≡ some t
          → Marked v.tier key a (lookup key v.behind_since) t
      on_judged diff false ev h = forget-Marked v a key t h
      on_judged diff true ev h = on_shard diff a.shard_answer ev h

      on_diff :
          (r : Result Error Difference)
          → event_of v.tier a ≡ by_diff a r
          → lookup key (compared v a r).left.behind_since ≡ some t
          → Marked v.tier key a (lookup key v.behind_since) t
      on_diff (err e) ev h = unseen ev h
      on_diff (ok diff) ev h = on_judged diff diff.is_behind ev h

      on_entry :
          (s : Option State) (r : Result Error (Option Entry))
          → event_of v.tier a ≡ by_entry v.tier a s r
          → lookup key (peeked v a s r).left.behind_since ≡ some t
          → Marked v.tier key a (lookup key v.behind_since) t
      on_entry s (err e) ev h = unseen ev h
      on_entry none (ok entry) ev h = forget-Marked v a key t h
      on_entry (some s) (ok none) ev h = forget-Marked v a key t h
      on_entry (some s) (ok (some entry)) ev h = on_diff (compare v.tier entry s) ev h

      on_state :
          (r : Result Error (Option State))
          → event_of v.tier a ≡ by_state v.tier a r
          → lookup key (asked v a r).left.behind_since ≡ some t
          → Marked v.tier key a (lookup key v.behind_since) t
      on_state (err e) ev h = unseen ev h
      on_state (ok s) ev h = on_entry s a.entry_answer ev h
