-- ===== src/Sextant/Slo/Stored.antt =====
-- pkg/sextant/slo.go: the samples that are stored for a level.
use mathlib.Core.Path.{subst}
use cachet.Base.Int.{ℤ, pos, negsuc, leb_ℤ}
use cachet.Consistency.Level.{Level, session, strong, bounded, eventual, other}
use cachet.Sextant.Classify.{same_level}
use cachet.Sextant.Slo.{Sample, Slo, find_level, put_level, or_empty, stored, with_samples, observe}
use cachet.Base.{
  ◌≡◌, refl, sym, ap, ◌∙◌, inl, inr, Bool, true, false, some, List, [], ◌∷◌, ◌++◌, append-nil,
  arith, if◌then◌else◌, Bool-cases,
}

eq_of_leb : (m n : ℤ) → leb_ℤ m n ≡ true → leb_ℤ n m ≡ true → m ≡ n
eq_of_leb (pos m) (pos n) h k = let e : m ≡ n = ground arith in ap pos e
eq_of_leb (pos m) (negsuc n) h k = absurd (ground arith)
eq_of_leb (negsuc m) (pos n) h k = absurd (ground arith)
eq_of_leb (negsuc m) (negsuc n) h k = let e : m ≡ n = ground arith in ap negsuc e

pub eq_of_same_level : (a b : Level) → same_level a b ≡ true → a ≡ b
unfolding same_level
eq_of_same_level session session h = refl
eq_of_same_level strong strong h = refl
eq_of_same_level bounded bounded h = refl
eq_of_same_level eventual eventual h = refl
eq_of_same_level (other m) (other n) h = ap other (eq_of_leb m n (ground arith) (ground arith))
eq_of_same_level session strong h = absurd (ground arith)
eq_of_same_level session bounded h = absurd (ground arith)
eq_of_same_level session eventual h = absurd (ground arith)
eq_of_same_level session (other n) h = absurd (ground arith)
eq_of_same_level strong session h = absurd (ground arith)
eq_of_same_level strong bounded h = absurd (ground arith)
eq_of_same_level strong eventual h = absurd (ground arith)
eq_of_same_level strong (other n) h = absurd (ground arith)
eq_of_same_level bounded session h = absurd (ground arith)
eq_of_same_level bounded strong h = absurd (ground arith)
eq_of_same_level bounded eventual h = absurd (ground arith)
eq_of_same_level bounded (other n) h = absurd (ground arith)
eq_of_same_level eventual session h = absurd (ground arith)
eq_of_same_level eventual strong h = absurd (ground arith)
eq_of_same_level eventual bounded h = absurd (ground arith)
eq_of_same_level eventual (other n) h = absurd (ground arith)
eq_of_same_level (other m) session h = absurd (ground arith)
eq_of_same_level (other m) strong h = absurd (ground arith)
eq_of_same_level (other m) bounded h = absurd (ground arith)
eq_of_same_level (other m) eventual h = absurd (ground arith)

pub same_level_refl : (a : Level) → same_level a a ≡ true
unfolding same_level
same_level_refl session = refl
same_level_refl strong = refl
same_level_refl bounded = refl
same_level_refl eventual = refl
same_level_refl (other n) = ground arith

pub find_level-put_level :
    (l j : Level) (samples : List Sample) (levels : List (Level × List Sample))
    → find_level j (put_level l samples levels)
      ≡ (if same_level l j then some samples else find_level j levels)
unfolding find_level put_level
find_level-put_level l j samples [] = refl
find_level-put_level l j samples ((k, old) ∷ levels) =
    let rest = find_level-put_level l j samples levels in
    elim (Bool-cases (same_level k l)) [
      | inl same ↦
          let e = eq_of_same_level k l same in
          subst
            (λ x.
              find_level j (
                if same_level k l
                then (k, samples) ∷ levels
                else (k, old) ∷ put_level l samples levels)
              ≡ (if same_level x j
                  then some samples
                  else if same_level k j
                  then some old
                  else find_level j levels))
            e (rw same (ground arith))
      | inr apart ↦ rw apart (elim (Bool-cases (same_level k j)) [
        | inl held ↦
            let e = eq_of_same_level k j held in
            let turned : same_level l j ≡ false =
              ne l j (subst (λ x. same_level x l ≡ false) e apart) in
            rw (held, turned) refl
        | inr free ↦ rw free rest
      ])
    ]
  where
    ne : (a b : Level) → same_level b a ≡ false → same_level a b ≡ false
    ne a b h = elim (Bool-cases (same_level a b)) [
      | inl same ↦ absurd (
          let r = subst (λ x. same_level x a ≡ false) (sym (eq_of_same_level a b same)) h in
          let s = same_level_refl a in ground arith)
      | inr apart ↦ apart
    ]

pub stored-with_samples :
    (s : Slo) (l j : Level) (samples : List Sample)
    → stored j (with_samples s l samples) ≡ (if same_level l j then samples else stored j s)
stored-with_samples s l j samples =
    ap or_empty (find_level-put_level l j samples s.levels) ∙ either (same_level l j)
  where
    either :
        (b : Bool)
        → or_empty (if b then some samples else find_level j s.levels)
          ≡ (if b then samples else stored j s)
    either true = refl
    either false = refl

-- What an observation adds to the samples of a level.
abbrev pub added : Level → Level → ℤ → Bool → List Sample
added j l seen_at violation =
    if same_level l strong
    then []
    else if same_level l j
    then (record { seen_at = seen_at; violation = violation }) ∷ []
    else []

pub stored-observe :
    (s : Slo) (l j : Level) (seen_at : ℤ) (violation : Bool)
    → stored j (observe s l seen_at violation) ≡ stored j s ++ added j l seen_at violation
unfolding observe
stored-observe s l j seen_at violation = elim (Bool-cases (same_level l strong)) [
  | inl bypass ↦ rw bypass (sym (append-nil (stored j s)))
  | inr cached ↦ rw cached (
      stored-with_samples s l j
        (stored l s ++ (record { seen_at = seen_at; violation = violation }) ∷ [])
      ∙ elim (Bool-cases (same_level l j)) [
        | inl same ↦ rw same (
            ap (λ k. stored k s ++ (record { seen_at = seen_at; violation = violation }) ∷ [])
              (eq_of_same_level l j same))
        | inr apart ↦ rw apart (sym (append-nil (stored j s)))
      ])
]
