-- ===== src/Schema/Key.antt =====
-- internal/schema/key.go: the name of a row, `<table>:<value>[:<value>…]` with escaped values, and the
-- identifier pattern of internal/schema/schema.go.
pub mod Escape
pub mod Roundtrip
use cachet.Base.{
  ℕ, zero, suc, ◌+◌, ◌-◌, ◌*◌, ◌/◌, ◌%◌, ◌^◌, ◌≤◌, ◌<◌, min, max, bit_and, bit_or, bit_xor, ◌≡◌,
  refl, sym, ap, ◌∙◌, ◌≢◌, ◌↔◌, ◌⊎◌, inl, inr, Bool, true, false, not, ◌&&◌, ◌||◌, Option, none,
  some, List, [], ◌∷◌, ◌++◌, map, append_assoc, append-nil, arith, ltb, leb, ◌==◌, if◌then◌else◌,
  ltb→lt, lt→ltb, le→ltb, leb→le, le→leb, ==_iff, ==_refl, tests, Bool-cases, Option-cases, &&_true,
  length, get_elem?, get_or, set, take, drop, replicate, All, length-append, take_append,
  drop_append, length-replicate, All-append, Bytes, IsByte, ascii, bytes_eq, bytes_lt, bytes_le,
  eq_of_bytes_eq, bytes_eq_refl, bytes_eq_iff, bytes_eq_ne, Result, ok, err, ◌>>=◌, ◌>>◌, require,
}

pub data Error : Type 0 where
  malformed_key invalid_table truncated_escape invalid_escape_digit : Error

pub record Key : Type 0 where
  pub table : Bytes
  pub values : List Bytes

abbrev pub hex_digits : Bytes
hex_digits = ascii "0123456789ABCDEF"

-- `hexDigits[n]`
unfoldable pub hex_digit : ℕ → ℕ
hex_digit n = get_or hex_digits n 0

abbrev in_class : ℕ → ℕ → ℕ → Bool
in_class low high c = leb low c && leb c high

unfoldable pub is_escaped : ℕ → Bool
is_escaped c = c == b':' || c == b'%' || ltb c 32 || c == 127

-- `writeEscaped`
unfoldable pub escape : Bytes → Bytes
escape [] = []
escape (c ∷ s) =
    let rest = escape s in
    if is_escaped c then b'%' ∷ hex_digit (c / 16) ∷ hex_digit (bit_and c 15) ∷ rest else c ∷ rest

unfoldable pub write_values : List Bytes → Bytes
write_values [] = []
write_values (v ∷ values) = b':' ∷ (escape v ++ write_values values)

-- `Key.String`
unfoldable pub key_string : Key → Bytes
key_string k = k.table ++ write_values k.values

unfoldable pub hex_val : ℕ → Result Error ℕ
hex_val c =
    if in_class b'0' b'9' c
    then ok (c - b'0')
    else if in_class b'A' b'F' c
    then ok (c - b'A' + 10)
    else if in_class b'a' b'f' c
    then ok (c - b'a' + 10)
    else err invalid_escape_digit

abbrev cons_ok : ℕ → Result Error Bytes → Result Error Bytes
cons_ok c r = r >>= λ s. ok (c ∷ s)

-- `hi<<4 | lo` on bytes, in front of what follows
unfoldable pub join_nibbles :
    Result Error ℕ → Result Error ℕ → Result Error Bytes → Result Error Bytes
join_nibbles high low rest = high >>= λ hi. low >>= λ lo. cons_ok (bit_or (hi * 16 % 256) lo) rest

-- The loop of `unescape`.
unfoldable pub unescape_loop : Bytes → Result Error Bytes
unescape_loop [] = ok []
unescape_loop (c ∷ []) = if c == b'%' then err truncated_escape else ok (c ∷ [])
unescape_loop (c ∷ d ∷ []) =
    let rest = unescape_loop (d ∷ []) in if c == b'%' then err truncated_escape else cons_ok c rest
unescape_loop (c ∷ d ∷ e ∷ s) =
    let escaped = join_nibbles (hex_val d) (hex_val e) (unescape_loop s) in
    let plain = cons_ok c (unescape_loop (d ∷ e ∷ s)) in if c == b'%' then escaped else plain

unfoldable pub contains : ℕ → Bytes → Bool
contains c [] = false
contains c (b ∷ s) = b == c || contains c s

unfoldable pub unescape : Bytes → Result Error Bytes
unescape s = let looped = unescape_loop s in if not (contains b'%' s) then ok s else looped

-- `strings.Cut(s, sep)` for a separator of one byte
unfoldable pub cut : ℕ → Bytes → Option (Bytes × Bytes)
cut sep [] = none
cut sep (c ∷ s) =
    let rest = cut sep s in
    if c == sep then some ([], s) else elim rest [ none ↦ none | some (a, b) ↦ some (c ∷ a, b) ]

abbrev cons_head : ℕ → List Bytes → List Bytes
cons_head c [] = (c ∷ []) ∷ []
cons_head c (p ∷ parts) = (c ∷ p) ∷ parts

-- `strings.Split(s, sep)` for a separator of one byte
unfoldable pub split : ℕ → Bytes → List Bytes
split sep [] = [] ∷ []
split sep (c ∷ s) = let rest = split sep s in if c == sep then [] ∷ rest else cons_head c rest

unfoldable pub unescape_all : List Bytes → Result Error (List Bytes)
unescape_all [] = ok []
unescape_all (p ∷ parts) = unescape p >>= λ v. unescape_all parts >>= λ values. ok (v ∷ values)

abbrev is_letter : ℕ → Bool
is_letter c = in_class b'A' b'Z' c || in_class b'a' b'z' c || c == b'_'

abbrev is_name_byte : ℕ → Bool
is_name_byte c = is_letter c || in_class b'0' b'9' c || c == b'$'

unfoldable pub all_name_bytes : Bytes → Bool
all_name_bytes [] = true
all_name_bytes (c ∷ s) = is_name_byte c && all_name_bytes s

-- `^[A-Za-z_][A-Za-z0-9_$]{0,63}$`
unfoldable pub valid_identifier : Bytes → Bool
valid_identifier [] = false
valid_identifier (c ∷ s) = is_letter c && all_name_bytes s && leb (length s) 63

unfoldable pub parse_parts : Option (Bytes × Bytes) → Result Error Key
parse_parts none = err malformed_key
parse_parts (some (table, rest)) =
    let parsed =
      unescape_all (split b':' rest) >>= λ values. ok (record { table = table; values = values }) in
    if not (valid_identifier table) then err invalid_table else parsed

unfoldable pub parse_key : Bytes → Result Error Key
parse_key s = parse_parts (cut b':' s)
