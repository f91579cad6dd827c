-- ===== src/Schema/Value.antt =====
-- internal/schema/row.go: the value of one column, and its reading as an unsigned integer.
pub mod Unsigned
use cachet.Base.Decimal.{is_digit}
use cachet.Base.{
  ℕ, zero, suc, ◌+◌, ◌-◌, ◌*◌, ◌/◌, ◌%◌, ◌^◌, ◌≤◌, ◌<◌, min, max, bit_and, bit_or, bit_xor, ◌≡◌,
  refl, sym, ap, ◌∙◌, ◌≢◌, ◌↔◌, ◌⊎◌, inl, inr, Bool, true, false, not, ◌&&◌, ◌||◌, Option, none,
  some, List, [], ◌∷◌, ◌++◌, map, append_assoc, append-nil, arith, ltb, leb, ◌==◌, if◌then◌else◌,
  ltb→lt, lt→ltb, le→ltb, leb→le, le→leb, ==_iff, ==_refl, tests, Bool-cases, Option-cases, &&_true,
  length, get_elem?, get_or, set, take, drop, replicate, All, length-append, take_append,
  drop_append, length-replicate, All-append, Bytes, IsByte, ascii, bytes_eq, bytes_lt, bytes_le,
  eq_of_bytes_eq, bytes_eq_refl, bytes_eq_iff, bytes_eq_ne, Result, ok, err, ◌>>=◌, ◌>>◌, require,
}

pub record Value : Type 0 where
  pub bytes : Bytes
  pub is_null : Bool

pub data Error : Type 0 where
  null_value empty_value not_unsigned overflow : Error

-- The loop of `Uint64`, whose multiplication and addition wrap.
unfoldable pub uint_loop : ℕ → Bytes → Result Error ℕ
uint_loop u [] = ok u
uint_loop u (c ∷ s) =
    let next = (u * 10 + (c - b'0')) % 2 ^ 64 in
    let rest = uint_loop next s in
    if not (is_digit c) then err not_unsigned else if ltb next u then err overflow else rest

unfoldable pub uint_64 : Value → Result Error ℕ
uint_64 v =
    let parsed = uint_loop 0 v.bytes in
    if v.is_null then err null_value else if length v.bytes == 0 then err empty_value else parsed
