-- ===== src/Schema/Tests.antt =====
-- Texts of concrete keys, and the theorems at them.
use cachet.Base.Decimal.{decimal_loop, parse_uint, format_uint, parse_digits}
use cachet.Schema.Value.{uint_64, uint_loop, not_unsigned, overflow}
use cachet.Schema.Fits.{int_64, not_of_type, fits, parse_int, format_int}
use cachet.Schema.Fits.Canonical.{IsCanonical, fits-IsCanonical}
use cachet.Schema.Value.Unsigned.{text, uint_64-format_uint, uint_64-modulo}
use cachet.Schema.Key.{
  malformed_key, truncated_escape, invalid_table, key_string, parse_key, valid_identifier, escape,
  unescape, unescape_all, unescape_loop, split, cut, contains, hex_val, hex_digit, is_escaped,
  join_nibbles, write_values, all_name_bytes, parse_parts,
}
use cachet.Schema.Key.Roundtrip.{key, parse_key-key_string, key_string-injective}
use cachet.Base.{
  ℕ, ◌%◌, ◌^◌, ◌≡◌, refl, ◌↔◌, true, some, [], ◌∷◌, ◌++◌, arith, All, Bytes, IsByte, ascii,
  bytes_eq, ok, err,
}

abbrev table : Bytes
table = ascii "entities"

abbrev value : Bytes
value = ascii "a:b%" ++ 10 ∷ []

abbrev other_value : Bytes
other_value = ascii "7"

valid : valid_identifier table ≡ true
unfolding valid_identifier all_name_bytes
valid = refl

key_text : key_string (key table (value ∷ other_value ∷ [])) ≡ ascii "entities:a%3Ab%25%0A:7"
unfolding key_string write_values escape is_escaped hex_digit
key_text = refl

malformed : parse_key (ascii "entities") ≡ err malformed_key
unfolding parse_key parse_parts cut
malformed = refl

truncated : parse_key (ascii "t:a%3") ≡ err truncated_escape
unfolding parse_key parse_parts cut split unescape_all unescape unescape_loop contains
    valid_identifier all_name_bytes join_nibbles hex_val
truncated = refl

digit_first : parse_key (ascii "1t:a") ≡ err invalid_table
unfolding parse_key parse_parts cut valid_identifier all_name_bytes split unescape_all unescape
    unescape_loop contains
digit_first = refl

value-bytes : All IsByte value
value-bytes = (omega arith, (omega arith, (omega arith, (omega arith, (omega arith, tt)))))

values-bytes : All (λ w. All IsByte w) (other_value ∷ [])
values-bytes = ((omega arith, tt), tt)

parse_key-key_string_example :
    parse_key (key_string (key table (value ∷ other_value ∷ [])))
    ≡ ok (key table (value ∷ other_value ∷ []))
parse_key-key_string_example =
    parse_key-key_string table value (other_value ∷ []) valid value-bytes values-bytes

key_string-injective_example :
    key table (value ∷ other_value ∷ []) ≡ key table (value ∷ other_value ∷ [])
key_string-injective_example =
    key_string-injective table value (other_value ∷ []) table value (other_value ∷ []) valid
      value-bytes values-bytes valid value-bytes values-bytes refl

not_a_number : uint_64 (text (ascii "1x")) ≡ err not_unsigned
unfolding uint_64 uint_loop
not_a_number = refl

too_large : uint_64 (text (ascii "18446744073709551616")) ≡ err overflow
unfolding uint_64 uint_loop
too_large = refl

-- This number is above 2^64, and it is accepted as another one.
wrapped : uint_64 (text (ascii "29999999999999999999")) ≡ ok 11553255926290448383
unfolding uint_64 uint_loop
wrapped = refl

uint_64-format_uint_example : uint_64 (text (format_uint 1234567)) ≡ ok 1234567
uint_64-format_uint_example = uint_64-format_uint 1234567 (omega arith)

uint_64-modulo_example :
    (x : ℕ) × ((parse_digits 0 (ascii "29999999999999999999") ≡ some x)
      × (11553255926290448383 ≡ x % 2 ^ 64))
uint_64-modulo_example = uint_64-modulo (ascii "29999999999999999999") 11553255926290448383 wrapped

padded : fits int_64 (ascii "-07") ≡ err not_of_type
unfolding fits parse_int format_int parse_uint parse_digits format_uint decimal_loop bytes_eq
padded = refl

fits-IsCanonical_example : (fits int_64 (ascii "-7") ≡ ok tt) ↔ IsCanonical int_64 (ascii "-7")
fits-IsCanonical_example = fits-IsCanonical int_64 (ascii "-7")
