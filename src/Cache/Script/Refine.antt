-- ===== src/Cache/Script/Refine.antt =====
-- The scripts implement the register.
use cachet.Cache.Version.{
  encode_version, bytes_lt-encode_version, bytes_eq-encode_version, bytes_le-encode_version,
}
use cachet.Cache.Register.{
  Row, older_than_marker, fresher, above_value, above_marker, fill_wins, tombstone_wins, Fits,
}
use cachet.Cache.Script.{
  Verdict, apply, reject, older_than, not_newer_than, refresh_verdict, present_verdict,
  fill_verdict, tombstone_verdict,
}
use cachet.Base.{
  ℕ, ◌^◌, ◌<◌, ◌≡◌, refl, Bool, true, false, not, Option, none, some, arith, ltb, Bytes,
}

abbrev pub encoded_version : Option ℕ → Option Bytes
encoded_version none = none
encoded_version (some v) = some (encode_version v)

abbrev pub version_text : Option Row → Option Bytes
version_text none = none
version_text (some r) = some (encode_version r.version)

abbrev pub decided : Bool → Verdict
decided true = apply
decided false = reject

-- 64 bits, where there is a number.
abbrev pub IsWord : Option ℕ → Type 0
IsWord none = Unit {0}
IsWord (some v) = v < 2 ^ 64

abbrev pub IsWordRow : Option Row → Type 0
IsWordRow none = Unit {0}
IsWordRow (some r) = (r.version < 2 ^ 64) × (r.fill < 2 ^ 64)

marker-IsWord : (v : Option Row) (m : Option ℕ) → Fits v m → IsWord m
marker-IsWord none none h = tt
marker-IsWord none (some t) h = h
marker-IsWord (some r) none h = tt
marker-IsWord (some r) (some t) h = omega arith

pub value-IsWordRow : (v : Option Row) (m : Option ℕ) → Fits v m → IsWordRow v
value-IsWordRow none m h = tt
value-IsWordRow (some r) none h = h
value-IsWordRow (some r) (some t) h = (h.0, h.1)

-- The stored fill version goes with the stored row.
abbrev pub FillText : Option Row → Option Bytes → Type 0
FillText none fv = Unit {0}
FillText (some r) fv = fv ≡ some (encode_version r.fill)

-- On encoded versions the tests on text are the tests on numbers.
module _ (x f : ℕ) (hx : x < 2 ^ 64) (hf : f < 2 ^ 64) where
  older_than-eq :
      (m : Option ℕ)
      → IsWord m
      → older_than (encode_version x) (encoded_version m) ≡ older_than_marker x m
  older_than-eq none h = refl
  older_than-eq (some t) h = bytes_lt-encode_version x t hx h

  refresh_verdict-eq :
      (r : Row) (fv : Option Bytes)
      → r.fill < 2 ^ 64
      → fv ≡ some (encode_version r.fill)
      → refresh_verdict (encode_version f) fv ≡ decided (ltb r.fill f)
  refresh_verdict-eq r fv h e = rw (e, bytes_le-encode_version f r.fill hf h) (ground arith)

  present_verdict-eq :
      (v : Option Row) (fv : Option Bytes)
      → IsWordRow v
      → FillText v fv
      → present_verdict (version_text v) fv (encode_version x) (encode_version f)
        ≡ decided (fresher x f v)
  present_verdict-eq none fv h e = refl
  present_verdict-eq (some r) fv h e =
      rw
        (
          bytes_lt-encode_version x r.version hx h.0,
          bytes_eq-encode_version x r.version hx h.0,
          refresh_verdict-eq r fv h.1 e,
        )
        (ground arith)

  not_newer_than-value :
      (v : Option Row)
      → IsWordRow v
      → not_newer_than (encode_version x) (version_text v) ≡ not (above_value x v)
  not_newer_than-value none h = refl
  not_newer_than-value (some r) h = rw (bytes_le-encode_version x r.version hx h.0) (ground arith)

  not_newer_than-marker :
      (m : Option ℕ)
      → IsWord m
      → not_newer_than (encode_version x) (encoded_version m) ≡ not (above_marker x m)
  not_newer_than-marker none h = refl
  not_newer_than-marker (some t) h = rw (bytes_le-encode_version x t hx h) (ground arith)

  pub fill_verdict-decided :
      (v : Option Row) (m : Option ℕ) (fv : Option Bytes)
      → Fits v m
      → FillText v fv
      → fill_verdict (version_text v) fv (encoded_version m) (encode_version x) (encode_version f)
        ≡ decided (fill_wins (record { value = v; marker = m }) x f)
  unfolding fill_verdict fill_wins
  fill_verdict-decided v m fv h e =
      rw (older_than-eq m (marker-IsWord v m h), present_verdict-eq v fv (value-IsWordRow v m h) e)
        (ground arith)

  pub tombstone_verdict-decided :
      (v : Option Row) (m : Option ℕ)
      → Fits v m
      → tombstone_verdict (version_text v) (encoded_version m) (encode_version x)
        ≡ decided (tombstone_wins (record { value = v; marker = m }) x)
  unfolding tombstone_verdict tombstone_wins
  tombstone_verdict-decided v m h =
      rw
        (
          not_newer_than-value v (value-IsWordRow v m h),
          not_newer_than-marker m (marker-IsWord v m h),
        )
        (ground arith)
