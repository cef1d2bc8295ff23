-- ===== src/Versions.antt =====
-- Semantic versions and the question whether one is newer (internal/updater/client.go: parseVersion,
-- validateVersionIdentifiers, compareVersion, comparePrerelease). Texts are bytes: a byte above 127 is
-- refused where its rune is.
pub mod Comparison
pub mod Numbers
pub mod Identifiers
pub mod Newer
pub mod Printed
pub mod Pieces
pub mod RoundTrip
pub mod Decision
pub mod Ordered
use passfs.Prelude.{
  ℕ, Bool, true, false, not, ◌&&◌, ◌||◌, Option, none, some, List, [], ◌∷◌, Bytes, ◌==◌,
  nat_equality, list_equality, list_beq, if◌then◌else◌, is_empty, leb, ltb, all,
}
use passfs.Error.{Error, message}
use passfs.Result.{Result, ok, err}
use passfs.Path.{split}
use passfs.Versions.Comparison.{Sign, less, equal, greater, or_then, compare_nat, lex}
use passfs.Versions.Numbers.{is_digit, parse_uint, has_leading_zero}

pub record SemanticVersion : Type 0 where
  pub major : ℕ
  pub minor : ℕ
  pub patch : ℕ
  pub prerelease : Bytes

abbrev pub is_identifier_byte : ℕ → Bool
is_identifier_byte c =
    is_digit c || leb b'a' c && leb c b'z' || leb b'A' c && leb c b'Z' || c == b'-'

-- One identifier of validateVersionIdentifiers; `strict` is rejectNumericLeadingZero.
abbrev pub is_valid_identifier : Bool → Bytes → Bool
is_valid_identifier strict s =
    not (is_empty s)
    && all is_identifier_byte s
    && not (strict && all is_digit s && has_leading_zero s)

abbrev pub dot_byte : ℕ
dot_byte = b'.'

unfoldable pub validate_version_identifiers : Bytes → Bool → Option Error
validate_version_identifiers value strict =
    if is_empty value || not (all (is_valid_identifier strict) (split dot_byte value))
    then some message
    else none

-- strings.IndexByte and the two slices at it.
unfoldable pub cut : ℕ → Bytes → Option (Bytes × Bytes)
cut c [] = none
cut c (x ∷ s) =
    let rest = cut c s in
    if x == c then some ([], s) else elim rest [ none ↦ none | some (a, b) ↦ some (x ∷ a, b) ]

abbrev pub parse_number : Bytes → Result ℕ
parse_number part =
    if is_empty part || has_leading_zero part
    then err message
    else elim (parse_uint part) [ none ↦ err message | some n ↦ ok n ]

abbrev pub with_numbers : Bytes → Result ℕ → Result ℕ → Result ℕ → Result SemanticVersion
with_numbers pre (ok a) (ok b) (ok c) =
    ok (record { major = a; minor = b; patch = c; prerelease = pre })
with_numbers pre (ok a) (ok b) (err e) = err message
with_numbers pre (ok a) (err e) z = err message
with_numbers pre (err e) y z = err message

abbrev pub parse_core : Bytes → List Bytes → Result SemanticVersion
parse_core pre (a ∷ b ∷ c ∷ []) =
    with_numbers pre (parse_number a) (parse_number b) (parse_number c)
parse_core pre _ = err message

abbrev pub checked_prerelease : Bytes → Bytes → Option Error → Result SemanticVersion
checked_prerelease core pre (some e) = err message
checked_prerelease core pre none = parse_core pre (split dot_byte core)

abbrev pub parse_prerelease : Bytes → Option (Bytes × Bytes) → Result SemanticVersion
parse_prerelease core none = parse_core [] (split dot_byte core)
parse_prerelease core (some (before, pre)) =
    checked_prerelease before pre (validate_version_identifiers pre true)

abbrev pub without_build : Bytes → Option Error → Result SemanticVersion
without_build core (some e) = err message
without_build core none = parse_prerelease core (cut b'-' core)

abbrev pub parse_build : Bytes → Option (Bytes × Bytes) → Result SemanticVersion
parse_build value none = parse_prerelease value (cut b'-' value)
parse_build value (some (core, build)) =
    without_build core (validate_version_identifiers build false)

unfoldable pub parse_version : Bytes → Result SemanticVersion
unfolding validate_version_identifiers cut parse_uint
parse_version value = parse_build value (cut b'+' value)

-- Two identifiers that differ: numbers are below words; ParseUint takes numbers of 64 bits only.
abbrev pub compare_parsed : Bytes → Bytes → Option ℕ → Option ℕ → Sign
compare_parsed l r (some m) (some n) = if ltb m n then less else greater
compare_parsed l r (some m) none = less
compare_parsed l r none (some n) = greater
compare_parsed l r none none = lex compare_nat l r

abbrev pub compare_identifier : Bytes → Bytes → Sign
compare_identifier l r = compare_parsed l r (parse_uint l) (parse_uint r)

unfoldable pub compare_identifiers : List Bytes → List Bytes → Sign
unfolding lex parse_uint list_beq
compare_identifiers [] [] = equal
compare_identifiers [] (r ∷ rs) = less
compare_identifiers (l ∷ ls) [] = greater
compare_identifiers (l ∷ ls) (r ∷ rs) =
    let rest = compare_identifiers ls rs in if l == r then rest else compare_identifier l r

unfoldable pub compare_prerelease : Bytes → Bytes → Sign
unfolding compare_identifiers
compare_prerelease left right = compare_identifiers (split dot_byte left) (split dot_byte right)

-- A version without a prerelease is above those with one.
abbrev pub compare_prereleases : Bytes → Bytes → Sign
compare_prereleases l r =
    if l == r
    then equal
    else if is_empty l
    then greater
    else if is_empty r
    then less
    else compare_prerelease l r

unfoldable pub compare_version : SemanticVersion → SemanticVersion → Sign
unfolding compare_prerelease list_beq
compare_version left right = or_then (compare_nat left.major right.major) (
    or_then (compare_nat left.minor right.minor) (
      or_then (compare_nat left.patch right.patch)
        (compare_prereleases left.prerelease right.prerelease)))
