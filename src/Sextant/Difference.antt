-- ===== src/Sextant/Difference.antt =====
-- pkg/sextant/tier.go: what a tier can say about an entry. A tier is the text of its name.
use cachet.Base.{
  ℕ, Bool, true, false, not, ◌||◌, ltb, if◌then◌else◌, Bytes, ascii, bytes_eq, Result, ok, err,
}

abbrev pub Tier : Type 0
Tier = Bytes

abbrev pub tier_value : Tier
tier_value = ascii "value"

abbrev pub tier_version : Tier
tier_version = ascii "version"

abbrev pub tier_cachet : Tier
tier_cachet = ascii "cachet"

pub data Error : Type 0 where
  unknown_tier : Tier → Error

unfoldable pub valid : Tier → Bool
valid t = bytes_eq t tier_value || bytes_eq t tier_version || bytes_eq t tier_cachet

unfoldable pub compares_versions : Tier → Bool
compares_versions t = bytes_eq t tier_version || bytes_eq t tier_cachet

unfoldable pub parse_tier : Bytes → Result Error Tier
parse_tier s = if not (valid s) then err (unknown_tier s) else ok s

pub record Difference : Type 0 where
  pub is_behind : Bool
  pub fill_version : ℕ
  pub db_version : ℕ
  pub versions_known : Bool

unfoldable pub version_difference : ℕ → ℕ → Difference
version_difference fill db = record {
  is_behind = ltb fill db;
  fill_version = fill;
  db_version = db;
  versions_known = true;
}

unfoldable pub value_difference : Bool → Difference
value_difference equal = record {
  is_behind = not equal;
  fill_version = 0;
  db_version = 0;
  versions_known = false;
}
