-- ===== src/Schema/Key/Roundtrip.antt =====
-- internal/schema/key.go: parsing a key's text gives the key back, and no two keys share a text.
use cachet.Schema.Key.{
  Error, Key, escape, write_values, key_string, contains, cut, split, unescape_all, all_name_bytes,
  valid_identifier, parse_parts, parse_key,
}
use cachet.Schema.Key.Escape.{unescape-escape, contains-escape}
use cachet.Base.{
  ℕ, ◌≡◌, refl, sym, ap, ◌∙◌, true, false, some, List, [], ◌∷◌, ◌++◌, append-nil, arith, ◌==◌,
  ==_refl, All, Bytes, IsByte, Result, ok,
}

all_name_bytes-colon : (s : Bytes) → all_name_bytes s ≡ true → contains b':' s ≡ false
unfolding all_name_bytes contains
all_name_bytes-colon [] h = refl
all_name_bytes-colon (c ∷ s) h = ground (arith, all_name_bytes-colon s)

valid_identifier-colon : (s : Bytes) → valid_identifier s ≡ true → contains b':' s ≡ false
unfolding valid_identifier contains
valid_identifier-colon [] h = refl
valid_identifier-colon (c ∷ s) h = ground (arith, all_name_bytes-colon s)

cut-append : (sep : ℕ) (a b : Bytes) → contains sep a ≡ false → cut sep (a ++ sep ∷ b) ≡ some (a, b)
unfolding cut contains
cut-append sep [] b h = rw (==_refl sep) refl
cut-append sep (c ∷ a) b h =
    let other : (c == sep) ≡ false = ground arith in
    let rest : contains sep a ≡ false = ground arith in rw other (rw (cut-append sep a b rest) refl)

split-append :
    (sep : ℕ) (a b : Bytes) → contains sep a ≡ false → split sep (a ++ sep ∷ b) ≡ a ∷ split sep b
unfolding split contains
split-append sep [] b h = rw (==_refl sep) refl
split-append sep (c ∷ a) b h =
    let other : (c == sep) ≡ false = ground arith in
    let rest : contains sep a ≡ false = ground arith in
    rw other (rw (split-append sep a b rest) refl)

split_plain : (sep : ℕ) (a : Bytes) → contains sep a ≡ false → split sep a ≡ a ∷ []
unfolding split contains
split_plain sep [] h = refl
split_plain sep (c ∷ a) h =
    let other : (c == sep) ≡ false = ground arith in
    let rest : contains sep a ≡ false = ground arith in rw other (rw (split_plain sep a rest) refl)

AreBytes : List Bytes → Type 0
AreBytes values = All (λ v. All IsByte v) values

unescape_all-cons :
    (v : Bytes) (values : List Bytes) (parts : List Bytes)
    → All IsByte v
    → unescape_all parts ≡ ok values
    → unescape_all (escape v ∷ parts) ≡ ok (v ∷ values)
unfolding unescape_all
unescape_all-cons v values parts h e = rw (unescape-escape v h) (rw e refl)

-- What stands behind the first separator splits into the escaped values.
split-values :
    (v : Bytes) (values : List Bytes)
    → All IsByte v
    → AreBytes values
    → unescape_all (split b':' (escape v ++ write_values values)) ≡ ok (v ∷ values)
unfolding write_values AreBytes unescape_all
split-values v [] h hs =
    rw (append-nil (escape v))
      (rw (split_plain b':' (escape v) (contains-escape v h)) (unescape_all-cons v [] [] h refl))
split-values v (w ∷ values) h hs =
    rw (split-append b':' (escape v) (escape w ++ write_values values) (contains-escape v h)) (
      unescape_all-cons v (w ∷ values) (split b':' (escape w ++ write_values values)) h
        (split-values w values hs.0 hs.1))

abbrev pub key : Bytes → List Bytes → Key
key table values = record { table = table; values = values }

-- A key with a plain identifier as its table, and at least one value, is what parsing its text
-- gives, whatever bytes its values hold.
pub parse_key-key_string :
    (table v : Bytes) (values : List Bytes)
    → valid_identifier table ≡ true
    → All IsByte v
    → All (λ w. All IsByte w) values
    → parse_key (key_string (key table (v ∷ values))) ≡ ok (key table (v ∷ values))
unfolding parse_key parse_parts key_string write_values AreBytes
parse_key-key_string table v values named h hs =
    rw
      (cut-append b':' table (escape v ++ write_values values) (valid_identifier-colon table named))
      (rw named (rw (split-values v values h hs) refl))

ok-injective : {B : Type 0} (a b : B) → ◌≡◌ {A = Result Error B} (ok a) (ok b) → a ≡ b
ok-injective a b e = ground arith

-- Two keys of plain identifiers and at least one value each that have the same text are the same
-- key: no row's entry is read under another row's name.
pub key_string-injective :
    (table v : Bytes) (values : List Bytes) (table' v' : Bytes) (values' : List Bytes)
    → valid_identifier table ≡ true
    → All IsByte v
    → All (λ w. All IsByte w) values
    → valid_identifier table' ≡ true
    → All IsByte v'
    → All (λ w. All IsByte w) values'
    → key_string (key table (v ∷ values)) ≡ key_string (key table' (v' ∷ values'))
    → key table (v ∷ values) ≡ key table' (v' ∷ values')
key_string-injective table v values table' v' values' named h hs named' h' hs' same =
    ok-injective (key table (v ∷ values)) (key table' (v' ∷ values')) (
      sym (parse_key-key_string table v values named h hs)
      ∙ ap parse_key same
      ∙ parse_key-key_string table' v' values' named' h' hs')
