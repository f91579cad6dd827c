-- ===== src/Cache/Register/Guard.antt =====
-- A version that a register guards is one that no later state of it falls below.
use cachet.Cache.Register.{
  Row, Register, fill_wins, apply_fill, tombstone_wins, apply_tombstone, Fits, IsCoherent,
}
use cachet.Base.{ℕ, ◌≤◌, ◌≡◌, inl, inr, true, false, Option, none, some, arith, Bool-cases}

abbrev pub GuardsAt : ℕ → Option Row → Option ℕ → Type 0
GuardsAt w none none = ⊥
GuardsAt w none (some t) = w ≤ t
GuardsAt w (some r) m = w ≤ r.version

abbrev pub Guards : ℕ → Register → Type 0
Guards w s = GuardsAt w s.value s.marker

won_fill :
    (w : ℕ) (v : Option Row) (m : Option ℕ) (r : Row)
    → GuardsAt w v m
    → fill_wins (record { value = v; marker = m }) r.version r.fill ≡ true
    → w ≤ r.version
unfolding fill_wins
won_fill w none none r g wins = absurd g
won_fill w none (some t) r g wins = ground arith
won_fill w (some q) none r g wins = ground arith
won_fill w (some q) (some t) r g wins = ground arith

won_tombstone :
    (w : ℕ) (v : Option Row) (m : Option ℕ) (x : ℕ)
    → GuardsAt w v m
    → tombstone_wins (record { value = v; marker = m }) x ≡ true
    → w ≤ x
unfolding tombstone_wins
won_tombstone w none none x g wins = absurd g
won_tombstone w none (some t) x g wins = ground arith
won_tombstone w (some q) none x g wins = ground arith
won_tombstone w (some q) (some t) x g wins = ground arith

lost_tombstone :
    (v : Option Row) (m : Option ℕ) (x : ℕ)
    → Fits v m
    → tombstone_wins (record { value = v; marker = m }) x ≡ false
    → GuardsAt x v m
unfolding tombstone_wins
lost_tombstone none none x h loses = ground arith
lost_tombstone none (some t) x h loses = ground arith
lost_tombstone (some q) none x h loses = ground arith
lost_tombstone (some q) (some t) x h loses = ground arith

loses_below :
    (w : ℕ) (v : Option Row) (m : Option ℕ) (x : ℕ)
    → GuardsAt w v m
    → x ≤ w
    → tombstone_wins (record { value = v; marker = m }) x ≡ false
unfolding tombstone_wins
loses_below w none none x g h = absurd g
loses_below w none (some t) x g h = ground arith
loses_below w (some q) m x g h = ground arith

pub Guards-apply_fill : (w : ℕ) (s : Register) (r : Row) → Guards w s → Guards w (apply_fill s r)
unfolding apply_fill
Guards-apply_fill w s r g = elim (Bool-cases (fill_wins s r.version r.fill)) [
  | inl wins ↦ rw wins (won_fill w s.value s.marker r g wins)
  | inr loses ↦ rw loses g
]

pub Guards-apply_tombstone :
    (w : ℕ) (s : Register) (x : ℕ) → Guards w s → Guards w (apply_tombstone s x)
unfolding apply_tombstone
Guards-apply_tombstone w s x g = elim (Bool-cases (tombstone_wins s x)) [
  | inl wins ↦ rw wins (won_tombstone w s.value s.marker x g wins)
  | inr loses ↦ rw loses g
]

-- A tombstone's version is guarded from then on, whether it won or lost.
pub apply_tombstone-Guards : (s : Register) (x : ℕ) → IsCoherent s → Guards x (apply_tombstone s x)
unfolding apply_tombstone
apply_tombstone-Guards s x h = elim (Bool-cases (tombstone_wins s x)) [
  | inl wins ↦ rw wins (omega arith)
  | inr loses ↦ rw loses (lost_tombstone s.value s.marker x h loses)
]

-- An invalidation at or below a guarded version is refused.
pub tombstone-below-Guards :
    (w : ℕ) (s : Register) (x : ℕ) → Guards w s → x ≤ w → tombstone_wins s x ≡ false
tombstone-below-Guards w s x g h = loses_below w s.value s.marker x g h
