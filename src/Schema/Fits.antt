-- ===== src/Schema/Fits.antt =====
-- internal/schema/key.go: which texts are values of a primary key column, and strconv's reading and
-- writing of signed integers.
pub mod Canonical
use cachet.Base.Int.{ℤ, pos, negsuc}
use cachet.Base.Decimal.{format_uint, parse_uint}
use cachet.Base.{
  ℕ, zero, suc, ◌+◌, ◌-◌, ◌*◌, ◌/◌, ◌%◌, ◌^◌, ◌≤◌, ◌<◌, min, max, bit_and, bit_or, bit_xor, ◌≡◌,
  refl, sym, ap, ◌∙◌, ◌≢◌, ◌↔◌, ◌⊎◌, inl, inr, Bool, true, false, not, ◌&&◌, ◌||◌, Option, none,
  some, List, [], ◌∷◌, ◌++◌, map, append_assoc, append-nil, arith, ltb, leb, ◌==◌, if◌then◌else◌,
  ltb→lt, lt→ltb, le→ltb, leb→le, le→leb, ==_iff, ==_refl, tests, Bool-cases, Option-cases, &&_true,
  length, get_elem?, get_or, set, take, drop, replicate, All, length-append, take_append,
  drop_append, length-replicate, All-append, Bytes, IsByte, ascii, bytes_eq, bytes_lt, bytes_le,
  eq_of_bytes_eq, bytes_eq_refl, bytes_eq_iff, bytes_eq_ne, Result, ok, err, ◌>>=◌, ◌>>◌, require,
}

-- `other_type` is a text that names no column type.
pub data ColumnType : Type 0 where
  uint_8 uint_32 uint_64 int_64 string bytes text : ColumnType
  other_type : Bytes → ColumnType

pub data Error : Type 0 where
  not_of_type not_a_key_type : Error

unfoldable pub format_int : ℤ → Bytes
format_int (pos n) = format_uint n
format_int (negsuc n) = b'-' ∷ format_uint (suc n)

abbrev pub below_cutoff : Option ℕ → Option ℤ
below_cutoff none = none
below_cutoff (some u) = if ltb u (2 ^ 63) then some (pos u) else none

abbrev negative : ℕ → ℤ
negative zero = pos zero
negative (suc n) = negsuc n

abbrev pub negated : Option ℕ → Option ℤ
negated none = none
negated (some u) = if ltb (2 ^ 63) u then none else some (negative u)

-- `strconv.ParseInt(s, 10, 64)`; `none` is its error
unfoldable pub parse_int : Bytes → Option ℤ
parse_int [] = none
parse_int (c ∷ s) =
    if c == b'-'
    then negated (parse_uint 64 s)
    else if c == b'+'
    then below_cutoff (parse_uint 64 s)
    else below_cutoff (parse_uint 64 (c ∷ s))

abbrev pub same_text : Bytes → Bytes → Result Error (Unit {0})
same_text s t = if bytes_eq s t then ok tt else err not_of_type

abbrev pub same_uint : Bytes → Option ℕ → Result Error (Unit {0})
same_uint s none = err not_of_type
same_uint s (some v) = same_text s (format_uint v)

abbrev pub same_int : Bytes → Option ℤ → Result Error (Unit {0})
same_int s none = err not_of_type
same_int s (some v) = same_text s (format_int v)

unfoldable pub fits : ColumnType → Bytes → Result Error (Unit {0})
fits uint_8 s = same_uint s (parse_uint 8 s)
fits uint_32 s = same_uint s (parse_uint 32 s)
fits uint_64 s = same_uint s (parse_uint 64 s)
fits int_64 s = same_int s (parse_int s)
fits string s = ok tt
fits bytes s = ok tt
fits text s = ok tt
fits (other_type name) s = err not_a_key_type
