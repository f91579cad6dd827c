-- ===== src/Sextant/Slo/Rolling.antt =====
-- pkg/sextant/slo.go against a history that forgets nothing.
use mathlib.Core.Path.{subst}
use cachet.Base.Float.{Float}
use cachet.Base.Int.{ℤ, pos, leb_ℤ, ◌-ℤ◌, ◌≤ℤ◌, -ℤ_parts}
use cachet.Consistency.Level.{Level, strong}
use cachet.Sextant.Classify.{same_level}
use cachet.Sextant.Slo.{
  Sample, Slo, new_slo, find_level, or_empty, stored, observe, keep_after, report_on, report_found,
  report,
}
use cachet.Sextant.Slo.Stored.{eq_of_same_level, stored-with_samples, added, stored-observe}
use cachet.Sextant.Slo.Figure.{is_recent, keep_after-filter, Figure, report_on-Figure}
use cachet.Base.Sort.{filter}
use cachet.Base.{
  ◌≡◌, refl, sym, ap, ◌∙◌, inl, inr, Bool, Option, none, some, List, [], ◌∷◌, ◌++◌, append_assoc,
  append-nil, arith, if◌then◌else◌, Bool-cases, All,
}

keep_after-append :
    (c : ℤ) (xs ys : List Sample) → keep_after c (xs ++ ys) ≡ keep_after c xs ++ keep_after c ys
unfolding keep_after
keep_after-append c [] ys = refl
keep_after-append c (x ∷ xs) ys = ground (arith, keep_after-append c xs ys)

keep_after-twice :
    (c d : ℤ) (xs : List Sample) → c ≤ℤ d → keep_after d (keep_after c xs) ≡ keep_after d xs
unfolding keep_after
keep_after-twice c d [] h = refl
keep_after-twice c d (x ∷ xs) h = ground (arith, keep_after-twice c d xs h)

-- A report keeps what a later cutoff keeps.
stored-report :
    (float : Float) (log_10 negate : float.F → float.F) (s : Slo) (l j : Level) (now d : ℤ)
    → now -ℤ s.window ≤ℤ d
    → keep_after d (stored j (report float log_10 negate s l now).1) ≡ keep_after d (stored j s)
unfolding report
stored-report float log_10 negate s l j now d h = at (find_level l s.levels) refl
  where
    at :
        (o : Option (List Sample))
        → find_level l s.levels ≡ o
        → keep_after d (stored j (report_found float log_10 negate s l now o).1)
          ≡ keep_after d (stored j s)
    at none e = refl
    at (some samples) e =
        ap (keep_after d) (stored-with_samples s l j (keep_after (now -ℤ s.window) samples))
        ∙ elim (Bool-cases (same_level l j)) [
          | inl same ↦
              let held : samples ≡ stored j s =
                ap or_empty (sym e) ∙ ap (λ k. stored k s) (eq_of_same_level l j same) in
              rw same (keep_after-twice (now -ℤ s.window) d samples h ∙ ap (keep_after d) held)
          | inr apart ↦ rw apart refl
        ]

pub data Use : Type 0 where
  use_observe : (level : Level) (seen_at : ℤ) (violation : Bool) → Use
  use_report : (level : Level) (now : ℤ) → Use

-- Every sample of a level, whatever was reported in between.
abbrev pub sample_of : Level → Use → List Sample
sample_of j (use_observe l seen_at violation) = added j l seen_at violation
sample_of j (use_report l now) = []

unfoldable pub history : Level → List Use → List Sample
history j [] = []
history j (u ∷ us) = sample_of j u ++ history j us

abbrev pub IsBefore : ℤ → Use → Type 0
IsBefore now (use_observe l seen_at violation) = Unit
IsBefore now (use_report l then_) = then_ ≤ℤ now

module _ (float : Float) (log_10 negate : float.F → float.F) where
  abbrev pub use_once : Slo → Use → Slo
  use_once s (use_observe l seen_at violation) = observe s l seen_at violation
  use_once s (use_report l now) = (report float log_10 negate s l now).1

  unfoldable pub use_all : Slo → List Use → Slo
  use_all s [] = s
  use_all s (u ∷ us) = use_all (use_once s u) us

  window-once : (s : Slo) (u : Use) → (use_once s u).window ≡ s.window
  unfolding observe report
  window-once s (use_observe l seen_at violation) = elim (Bool-cases (same_level l strong)) [
    | inl bypass ↦ rw bypass refl
    | inr cached ↦ rw cached refl
  ]
  window-once s (use_report l now) = at (find_level l s.levels)
    where
      at :
          (o : Option (List Sample))
          → (report_found float log_10 negate s l now o).1.window ≡ s.window
      at none = refl
      at (some samples) = refl

  once_kept :
      (s : Slo) (u : Use) (j : Level) (now : ℤ)
      → IsBefore now u
      → keep_after (now -ℤ s.window) (stored j (use_once s u))
        ≡ keep_after (now -ℤ s.window) (stored j s) ++ keep_after (now -ℤ s.window) (sample_of j u)
  unfolding keep_after
  once_kept s (use_observe l seen_at violation) j now h =
      ap (keep_after (now -ℤ s.window)) (stored-observe s l j seen_at violation)
      ∙ keep_after-append (now -ℤ s.window) (stored j s) (added j l seen_at violation)
  once_kept s (use_report l then_) j now h =
      stored-report float log_10 negate s l j then_ (now -ℤ s.window)
        (omega (arith, -ℤ_parts then_ s.window, -ℤ_parts now s.window))
      ∙ sym (append-nil (keep_after (now -ℤ s.window) (stored j s)))

  all_kept :
      (us : List Use) (s : Slo) (j : Level) (now : ℤ)
      → All (IsBefore now) us
      → ((use_all s us).window ≡ s.window)
        × (keep_after (now -ℤ s.window) (stored j (use_all s us))
            ≡ keep_after (now -ℤ s.window) (stored j s)
              ++ keep_after (now -ℤ s.window) (history j us))
  unfolding use_all history keep_after
  all_kept [] s j now h = (refl, sym (append-nil (keep_after (now -ℤ s.window) (stored j s))))
  all_kept (u ∷ us) s j now h =
      let w = window-once s u in
      let c = now -ℤ s.window in
      let (rw_, rk) = all_kept us (use_once s u) j now h.1 in
      let rest =
        subst
          (λ x.
            keep_after (now -ℤ x) (stored j (use_all (use_once s u) us))
            ≡ keep_after (now -ℤ x) (stored j (use_once s u))
              ++ keep_after (now -ℤ x) (history j us))
          w rk in
      (
        rw_ ∙ w,
        rest
            ∙ ap (λ l. l ++ keep_after c (history j us)) (once_kept s u j now h.0)
            ∙ append_assoc (keep_after c (stored j s)) (keep_after c (sample_of j u))
                (keep_after c (history j us))
            ∙ ap (λ l. keep_after c (stored j s) ++ l)
                (sym (keep_after-append c (sample_of j u) (history j us))),
      )

  pub report_of_found :
      (s : Slo) (l : Level) (now : ℤ) (o : Option (List Sample))
      → (report_found float log_10 negate s l now o).0
        ≡ report_on float log_10 negate l (keep_after (now -ℤ s.window) (or_empty o))
  unfolding report_on keep_after
  report_of_found s l now none = refl
  report_of_found s l now (some samples) = refl

  -- The window in force: the one that was asked for, or a minute for one that is not positive.
  abbrev pub window_in_force : ℤ → ℤ
  window_in_force window = if leb_ℤ window (pos 0) then pos 60000000000 else window

  -- A report gives the figure of the samples of its level whose window has not passed, when no report
  -- was later: it counts them all and those that are violations, its consistency is the share of the
  -- samples that are none, its nines are those of that share or, without a violation, those that more
  -- than three samples support, and it is known exactly if there are samples, and zero otherwise.
  -- Neither what was observed for other levels or for STRONG nor what was reported before makes a
  -- difference.
  pub report-history :
      (window : ℤ) (us : List Use) (l : Level) (now : ℤ)
      → All (IsBefore now) us
      → Figure float log_10 negate l
          (filter (is_recent (window_in_force window) now) (history l us))
          (report float log_10 negate (use_all (new_slo window) us) l now).0
  unfolding report new_slo find_level keep_after
  report-history window us l now h =
      let s = use_all (new_slo window) us in
      let (w, k) = all_kept us (new_slo window) l now h in
      let recent =
        ap (λ x. keep_after (now -ℤ x) (stored l s)) w
        ∙ k
        ∙ keep_after-filter (window_in_force window) now (history l us) in
      subst
        (Figure float log_10 negate l
          (filter (is_recent (window_in_force window) now) (history l us)))
        (sym (
          report_of_found s l now (find_level l s.levels)
          ∙ ap (report_on float log_10 negate l) recent))
        (report_on-Figure float log_10 negate l
          (filter (is_recent (window_in_force window) now) (history l us)))
