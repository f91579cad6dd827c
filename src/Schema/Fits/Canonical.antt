-- ===== src/Schema/Fits/Canonical.antt =====
-- internal/schema/key.go: the texts that `fits` accepts are the canonical ones of the column's type.
use cachet.Base.Int.{ℤ, pos, negsuc}
use cachet.Base.Decimal.{
  format_uint, parse_uint, parse_uint-format_uint, format_uint-digits, format_uint_nonempty,
  IsDigit,
}
use cachet.Schema.Fits.{
  ColumnType, uint_8, uint_32, uint_64, int_64, string, bytes, text, other_type, format_int,
  below_cutoff, negated, parse_int, same_text, same_uint, same_int, fits,
}
use cachet.Base.{
  ℕ, zero, suc, ◌^◌, ◌≤◌, ◌<◌, ◌≡◌, refl, ◌∙◌, ◌↔◌, false, Option, none, some, [], ◌∷◌, arith, ◌==◌,
  length, All, Bytes, bytes_eq_refl, bytes_eq_iff, ok,
}

abbrev pub InRange : ℤ → Type 0
InRange (pos n) = n < 2 ^ 63
InRange (negsuc n) = n < 2 ^ 63

abbrev pub IsUint : ℕ → Bytes → Type 0
IsUint bits s = (v : ℕ) × ((v < 2 ^ bits) × (s ≡ format_uint v))

abbrev pub IsInt : Bytes → Type 0
IsInt s = (v : ℤ) × (InRange v × (s ≡ format_int v))

abbrev pub IsCanonical : ColumnType → Bytes → Type 0
IsCanonical uint_8 s = IsUint 8 s
IsCanonical uint_32 s = IsUint 32 s
IsCanonical uint_64 s = IsUint 64 s
IsCanonical int_64 s = IsInt s
IsCanonical string s = Unit
IsCanonical bytes s = Unit
IsCanonical text s = Unit
IsCanonical (other_type name) s = ⊥

same_text-eq : (s t : Bytes) → same_text s t ≡ ok tt → s ≡ t
same_text-eq s t h = ground (arith, bytes_eq_iff s t)

parse_uint_lt : (bits : ℕ) (s : Bytes) (v : ℕ) → parse_uint bits s ≡ some v → v < 2 ^ bits
unfolding parse_uint
parse_uint_lt bits [] v h = absurd (ground arith)
parse_uint_lt bits (c ∷ s) v h = ground arith

IsUint-fits :
    (bits : ℕ) (s : Bytes) (o : Option ℕ)
    → parse_uint bits s ≡ o
    → same_uint s o ≡ ok tt
    → IsUint bits s
IsUint-fits bits s none e h = absurd (ground arith)
IsUint-fits bits s (some v) e h = (v, (parse_uint_lt bits s v e, same_text-eq s (format_uint v) h))

fits_of_uint :
    (bits : ℕ) (s : Bytes)
    → 2 ^ bits ≤ 10 ^ 20
    → IsUint bits s
    → same_uint s (parse_uint bits s) ≡ ok tt
fits_of_uint bits s small (v, (lt, e)) =
    rw e (
      rw (parse_uint-format_uint bits v (omega arith) lt) (rw (bytes_eq_refl (format_uint v)) refl))

InRange-below_cutoff : (o : Option ℕ) (v : ℤ) → below_cutoff o ≡ some v → InRange v
InRange-below_cutoff none v h = absurd (ground arith)
InRange-below_cutoff (some u) (pos n) h = ground arith
InRange-below_cutoff (some u) (negsuc n) h = ground arith

InRange-negated : (o : Option ℕ) (v : ℤ) → negated o ≡ some v → InRange v
InRange-negated none v h = absurd (ground arith)
InRange-negated (some zero) (pos n) h = ground arith
InRange-negated (some zero) (negsuc n) h = ground arith
InRange-negated (some (suc u)) (pos n) h = ground arith
InRange-negated (some (suc u)) (negsuc n) h = ground arith

InRange-parse_int : (s : Bytes) (v : ℤ) → parse_int s ≡ some v → InRange v
unfolding parse_int
InRange-parse_int [] v h = absurd (ground arith)
InRange-parse_int (c ∷ s) v h = ground (
  arith,
  InRange-negated (parse_uint 64 s) v,
  InRange-below_cutoff (parse_uint 64 s) v,
  InRange-below_cutoff (parse_uint 64 (c ∷ s)) v,
)

IsInt-fits : (s : Bytes) (o : Option ℤ) → parse_int s ≡ o → same_int s o ≡ ok tt → IsInt s
IsInt-fits s none e h = absurd (ground arith)
IsInt-fits s (some v) e h = (v, (InRange-parse_int s v e, same_text-eq s (format_int v) h))

parse_int_digits :
    (s : Bytes) → All IsDigit s → 0 < length s → parse_int s ≡ below_cutoff (parse_uint 64 s)
unfolding parse_int
parse_int_digits [] h l = absurd (omega arith)
parse_int_digits (c ∷ s) h l =
    let minus : (c == b'-') ≡ false = ground arith in
    let plus : (c == b'+') ≡ false = ground arith in rw (minus, plus) refl

parse_int-format_int : (v : ℤ) → InRange v → parse_int (format_int v) ≡ some v
unfolding format_int parse_int
parse_int-format_int (pos n) h =
    parse_int_digits (format_uint n) (format_uint-digits n) (format_uint_nonempty n)
    ∙ rw (parse_uint-format_uint 64 n (omega arith) (omega arith)) (ground arith)
parse_int-format_int (negsuc n) h =
    rw (parse_uint-format_uint 64 (suc n) (omega arith) (omega arith)) (ground arith)

fits_of_int : (s : Bytes) → IsInt s → same_int s (parse_int s) ≡ ok tt
fits_of_int s (v, (range, e)) =
    rw e (rw (parse_int-format_int v range) (rw (bytes_eq_refl (format_int v)) refl))

-- The text of a key's value fits an integer column exactly if it is the canonical decimal text,
-- without sign, padding or leading zeros where strconv writes none, of a number in the column's
-- range; every text fits a column of strings, bytes or text, and none fits an unknown type.
pub fits-IsCanonical : (t : ColumnType) (s : Bytes) → (fits t s ≡ ok tt) ↔ IsCanonical t s
unfolding fits
fits-IsCanonical uint_8 s = (IsUint-fits 8 s (parse_uint 8 s) refl, fits_of_uint 8 s (omega arith))
fits-IsCanonical uint_32 s =
    (IsUint-fits 32 s (parse_uint 32 s) refl, fits_of_uint 32 s (omega arith))
fits-IsCanonical uint_64 s =
    (IsUint-fits 64 s (parse_uint 64 s) refl, fits_of_uint 64 s (omega arith))
fits-IsCanonical int_64 s = (IsInt-fits s (parse_int s) refl, fits_of_int s)
fits-IsCanonical string s = (λ h. tt, λ h. refl)
fits-IsCanonical bytes s = (λ h. tt, λ h. refl)
fits-IsCanonical text s = (λ h. tt, λ h. refl)
fits-IsCanonical (other_type name) s = (λ h. absurd (ground arith), λ h. absurd h)
