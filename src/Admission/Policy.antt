-- ===== src/Admission/Policy.antt =====
-- internal/admission/policy.go: whether a key is worth caching, by its reads per write. Times and
-- durations are in nanoseconds, `none` is the zero time, and a reason keeps the values that its text
-- shows. Numbers of 64-bit floats are a parameter.
pub mod Hysteresis
use cachet.Base.Float.{Float}
use cachet.Base.Int.{ℤ, pos, negsuc, leb_ℤ, ltb_ℤ, ◌-ℤ◌}
use cachet.Base.{
  ℕ, zero, suc, ◌+◌, ◌-◌, ◌*◌, ◌/◌, ◌%◌, ◌^◌, ◌≤◌, ◌<◌, min, max, bit_and, bit_or, bit_xor, ◌≡◌,
  refl, sym, ap, ◌∙◌, ◌≢◌, ◌↔◌, ◌⊎◌, inl, inr, Bool, true, false, not, ◌&&◌, ◌||◌, Option, none,
  some, List, [], ◌∷◌, ◌++◌, map, append_assoc, append-nil, arith, ltb, leb, ◌==◌, if◌then◌else◌,
  ltb→lt, lt→ltb, le→ltb, leb→le, le→leb, ==_iff, ==_refl, tests, Bool-cases, Option-cases, &&_true,
  length, get_elem?, get_or, set, take, drop, replicate, All, length-append, take_append,
  drop_append, length-replicate, All-append, Bytes, IsByte, ascii, bytes_eq, bytes_lt, bytes_le,
  eq_of_bytes_eq, bytes_eq_refl, bytes_eq_iff, bytes_eq_ne, Result, ok, err, ◌>>=◌, ◌>>◌, require,
}

abbrev pub Time : Type 0
Time = Option ℤ

pub data Error : Type 0 where
  admit_ratio_not_positive evict_ratio_not_positive inverts_the_hysteresis_band min_dwell_negative :
      Error

abbrev pub differs : Bool → Bool → Bool
differs true b = not b
differs false b = b

module _ (float : Float) where
  open float use {F, zero_f, infinity, of_nat, div, lt, le}

  pub record PolicyOptions : Type 0 where
    pub admit_ratio : F
    pub evict_ratio : F
    pub min_samples : ℕ
    pub min_dwell : ℤ
    pub default_admit : Bool

  pub record State : Type 0 where
    pub key : Bytes
    pub reads : ℕ
    pub writes : ℕ
    pub admitted : Bool
    pub since : Time
    pub now : ℤ

  pub data Reason : Type 0 where
    below_samples : (total least : ℕ) → Reason
    held_for : (held : ℤ) (dwell : ℤ) (ratio : F) → Reason
    at_or_above_admit : (ratio threshold : F) → Reason
    below_evict : (ratio threshold : F) → Reason
    inside_band : (ratio low high : F) → Reason

  pub record Decision : Type 0 where
    pub decided : Bytes
    pub admit : Bool
    pub decided_ratio : F
    pub reason : Reason

  -- `NewPolicy`: its policy is the options that it keeps.
  unfoldable pub new_policy : PolicyOptions → PolicyOptions
  new_policy o =
      let admit = if le o.admit_ratio zero_f then of_nat 20 else o.admit_ratio in
      record {
        admit_ratio = admit;
        evict_ratio =
            if le o.evict_ratio zero_f || lt admit o.evict_ratio
            then div admit (of_nat 2)
            else o.evict_ratio;
        min_samples = if o.min_samples == 0 then 20 else o.min_samples;
        min_dwell = if ltb_ℤ o.min_dwell (pos 0) then pos 0 else o.min_dwell;
        default_admit = o.default_admit;
      }

  unfoldable pub new_policy_checked : PolicyOptions → Result Error PolicyOptions
  new_policy_checked o =
      if le o.admit_ratio zero_f
      then err admit_ratio_not_positive
      else if le o.evict_ratio zero_f
      then err evict_ratio_not_positive
      else if lt o.admit_ratio o.evict_ratio
      then err inverts_the_hysteresis_band
      else if ltb_ℤ o.min_dwell (pos 0)
      then err min_dwell_negative
      else ok (new_policy o)

  unfoldable pub ratio_of : ℕ → ℕ → F
  ratio_of reads writes =
      if writes == 0
      then if reads == 0 then zero_f else infinity
      else div (of_nat reads) (of_nat writes)

  abbrev pub decision : State → Bool → Reason → Decision
  decision s admit reason = record {
    decided = s.key;
    admit = admit;
    decided_ratio = ratio_of s.reads s.writes;
    reason = reason;
  }

  -- The switch on the thresholds.
  unfoldable pub by_threshold : PolicyOptions → State → F → Decision
  by_threshold p s ratio =
      if not s.admitted && le p.admit_ratio ratio
      then decision s true (at_or_above_admit ratio p.admit_ratio)
      else if s.admitted && lt ratio p.evict_ratio
      then decision s false (below_evict ratio p.evict_ratio)
      else decision s s.admitted (inside_band ratio p.evict_ratio p.admit_ratio)

  unfoldable pub after_dwell : PolicyOptions → State → F → Time → Decision
  after_dwell p s ratio none = by_threshold p s ratio
  after_dwell p s ratio (some since) =
      let held = s.now -ℤ since in
      if ltb_ℤ (pos 0) p.min_dwell && ltb_ℤ held p.min_dwell
      then decision s s.admitted (held_for held p.min_dwell ratio)
      else by_threshold p s ratio

  -- The sum is a uint32.
  unfoldable pub decide : PolicyOptions → State → Decision
  decide p s =
      let total = (s.reads + s.writes) % 2 ^ 32 in
      if ltb total p.min_samples
      then decision s p.default_admit (below_samples total p.min_samples)
      else after_dwell p s (ratio_of s.reads s.writes) s.since
