-- ===== src/Cache/Version.antt =====
-- internal/cache/version.go: a version as the fixed-width decimal text that the scripts compare.
use cachet.Base.Decimal.{
  format_uint, parse_uint, parse_digits, length-format_uint, parse_digits-format_uint,
  parse_digits-zeros, parse_uint-in_range, bytes_lt-eq-ltb,
}
use cachet.Base.{
  ℕ, ◌-◌, ◌^◌, ◌<◌, ◌≡◌, sym, ap, ◌∙◌, ◌↔◌, inl, inr, true, Option, some, ◌++◌, arith, ltb, leb,
  ◌==◌, ltb→lt, lt→ltb, Bool-cases, length, replicate, length-append, length-replicate, Bytes,
  bytes_eq, bytes_lt, bytes_le, bytes_eq_refl, bytes_eq_ne,
}

abbrev pub version_digits : ℕ
version_digits = 20

-- `%0*d`: zeros in front, up to the width.
unfoldable pub encode_version : ℕ → Bytes
encode_version v = let text = format_uint v in replicate (version_digits - length text) b'0' ++ text

-- `none` is `ErrCorruptEntry`.
unfoldable pub decode_version : Bytes → Option ℕ
decode_version s = parse_uint 64 s

pub length-encode_version : (v : ℕ) → length (encode_version v) ≡ version_digits
unfolding encode_version
length-encode_version v =
    let text = format_uint v in
    rw (length-append (replicate (20 - length text) b'0') text, length-replicate {A = ℕ})
      (omega (arith, length-format_uint v))

parse_encoded : (v : ℕ) → v < 10 ^ 20 → parse_digits 0 (encode_version v) ≡ some v
unfolding encode_version
parse_encoded v h =
    parse_digits-zeros (20 - length (format_uint v)) (format_uint v) ∙ parse_digits-format_uint v h

pub bytes_lt-encode_version :
    (v w : ℕ) → v < 2 ^ 64 → w < 2 ^ 64 → bytes_lt (encode_version v) (encode_version w) ≡ ltb v w
bytes_lt-encode_version v w hv hw =
    bytes_lt-eq-ltb 0 (encode_version v) (encode_version w)
      (length-encode_version v ∙ sym (length-encode_version w)) (parse_encoded v (omega arith))
      (parse_encoded w (omega arith))

-- The scripts compare the text of versions, and that is exactly the order of the versions, for
-- every 64-bit version.
pub encode_version-order :
    (v w : ℕ)
    → v < 2 ^ 64
    → w < 2 ^ 64
    → (bytes_lt (encode_version v) (encode_version w) ≡ true) ↔ (v < w)
encode_version-order v w hv hw = rw (bytes_lt-encode_version v w hv hw) (ltb→lt v w, lt→ltb v w)

-- A version that was encoded decodes to itself, for every 64-bit version.
pub decode_version-encode_version :
    (v : ℕ) → v < 2 ^ 64 → decode_version (encode_version v) ≡ some v
unfolding decode_version
decode_version-encode_version v h =
    parse_uint-in_range 64 (encode_version v) (omega (arith, length-encode_version v))
      (parse_encoded v (omega arith)) h

pub encode_version-injective :
    (v w : ℕ) → v < 2 ^ 64 → w < 2 ^ 64 → encode_version v ≡ encode_version w → v ≡ w
encode_version-injective v w hv hw e =
    let decoded : some v ≡ some w =
      sym (decode_version-encode_version v hv)
      ∙ ap decode_version e
      ∙ decode_version-encode_version w hw in
    ground arith

pub bytes_eq-encode_version :
    (v w : ℕ) → v < 2 ^ 64 → w < 2 ^ 64 → bytes_eq (encode_version v) (encode_version w) ≡ (v == w)
bytes_eq-encode_version v w hv hw = elim (Bool-cases (v == w)) [
  | inl same ↦ let e : v ≡ w = ground arith in rw same (rw e (bytes_eq_refl (encode_version w)))
  | inr apart ↦ rw apart (
      bytes_eq_ne (encode_version v) (encode_version w)
        λ e. let same : v ≡ w = encode_version-injective v w hv hw e in ground arith)
]

pub bytes_le-encode_version :
    (v w : ℕ) → v < 2 ^ 64 → w < 2 ^ 64 → bytes_le (encode_version v) (encode_version w) ≡ leb v w
unfolding bytes_le
bytes_le-encode_version v w hv hw =
    rw (bytes_lt-encode_version v w hv hw, bytes_eq-encode_version v w hv hw) (ground arith)
