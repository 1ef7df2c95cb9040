-- ===== src/Tablets/Versions/Parse.antt =====
-- `AppVersion`, `parse_app_version` and `parse_app_build`. A refusal (`AppVersionError`) is `none`,
-- and so is the plain ValueError that `int` raises for a numeral of more than 4300 digits.
use fire_dash_server.Prelude.{
  ℕ, ◌≤◌, ◌≡◌, refl, ap, ◌∙◌, true, ◌&&◌, Option, none, some, List, [], ◌∷◌, ◌++◌, arith, leb, ◌==◌,
  if◌then◌else◌, inl, inr, Bool-cases,
}
use fire_dash_server.Tablets.Models.{Text, AppVersion}
use fire_dash_server.Tablets.Versions.Decimal.{
  str, int, is_numeral, all_digits, int-str, is_numeral-str, all_digits-str,
}

abbrev pub max_component : ℕ
max_component = 2147483647

abbrev pub max_build : ℕ
max_build = 9223372036854775807

-- `f"{major}.{minor}.{patch}"`
unfoldable pub version_str : AppVersion → Text
version_str v = str v.major ++ (b'.' ∷ (str v.minor ++ (b'.' ∷ str v.patch)))

abbrev push : ℕ → List Text → List Text
push c [] = (c ∷ []) ∷ []
push c (part ∷ parts) = (c ∷ part) ∷ parts

-- The parts between the dots: the groups of the pattern, if there are three.
split_dots : Text → List Text
split_dots [] = [] ∷ []
split_dots (c ∷ cs) = let parts = split_dots cs in if c == b'.' then [] ∷ parts else push c parts

abbrev in_range : AppVersion → Option AppVersion
in_range v =
    if leb v.major max_component && leb v.minor max_component && leb v.patch max_component
    then some v
    else none

abbrev parse_parts : List Text → Option AppVersion
parse_parts (a ∷ b ∷ c ∷ []) =
    if is_numeral a && is_numeral b && is_numeral c
    then in_range (record { major = int a; minor = int b; patch = int c })
    else none
parse_parts _ = none

unfoldable pub parse_app_version : Text → Option AppVersion
unfolding split_dots
parse_app_version value = parse_parts (split_dots value)

-- Of a text; what `int` reads but is not the numeral of its value fails the comparison.
unfoldable pub parse_app_build : Text → Option ℕ
parse_app_build value =
    if is_numeral value && leb 1 (int value) && leb (int value) max_build
    then some (int value)
    else none

split_dots-digits :
    (xs ys : Text) → all_digits xs ≡ true → split_dots (xs ++ (b'.' ∷ ys)) ≡ xs ∷ split_dots ys
unfolding split_dots
split_dots-digits [] ys h = refl
split_dots-digits (x ∷ xs) ys h = elim (Bool-cases (x == b'.')) [
  | inl dot ↦ absurd (ground arith)
  | inr other ↦ rw (other, split_dots-digits xs ys (ground arith))
]

split_dots-digits_end : (xs : Text) → all_digits xs ≡ true → split_dots xs ≡ xs ∷ []
unfolding split_dots
split_dots-digits_end [] h = refl
split_dots-digits_end (x ∷ xs) h = elim (Bool-cases (x == b'.')) [
  | inl dot ↦ absurd (ground arith)
  | inr other ↦ rw (other, split_dots-digits_end xs (ground arith))
]

split_dots-version_str :
    (v : AppVersion) → split_dots (version_str v) ≡ str v.major ∷ str v.minor ∷ str v.patch ∷ []
unfolding version_str
split_dots-version_str v =
    split_dots-digits (str v.major) _ (all_digits-str v.major)
    ∙ ap (λ p. str v.major ∷ p)
        (split_dots-digits (str v.minor) _ (all_digits-str v.minor)
          ∙ ap (λ p. str v.minor ∷ p)
              (split_dots-digits_end (str v.patch) (all_digits-str v.patch)))

-- A version whose components fit is read back from the text that it is written as.
pub parse_app_version-version_str :
    (v : AppVersion)
    → v.major ≤ max_component
    → v.minor ≤ max_component
    → v.patch ≤ max_component
    → parse_app_version (version_str v) ≡ some v
unfolding parse_app_version
parse_app_version-version_str v h k l =
    rw
      (
        split_dots-version_str v,
        is_numeral-str v.major,
        is_numeral-str v.minor,
        is_numeral-str v.patch,
        int-str v.major,
        int-str v.minor,
        int-str v.patch,
      )
      (ground arith)

-- Whatever the text, an accepted version has three components, none above the greatest that fits
-- 31 bits.
pub parse_app_version_bounds :
    (value : Text) {v : AppVersion}
    → parse_app_version value ≡ some v
    → (v.major ≤ max_component) × (v.minor ≤ max_component) × (v.patch ≤ max_component)
unfolding parse_app_version
parse_app_version_bounds value h = ground arith

-- A build number from 1 to the greatest that fits 63 bits is read back, and 0 is refused.
pub parse_app_build-str :
    (n : ℕ) → n ≤ max_build → parse_app_build (str n) ≡ (if leb 1 n then some n else none)
unfolding parse_app_build
parse_app_build-str n h = rw (is_numeral-str n, int-str n) (ground arith)
