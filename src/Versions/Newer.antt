-- ===== src/Versions/Newer.antt =====
-- Printing a version, its normal form, and the question of the updater
-- (internal/updater/client.go: NormalizeVersion, IsNewer; %d of fmt.Sprintf).
use passfs.Prelude.{
  ℕ, zero, suc, ◌+◌, ◌/◌, ◌%◌, Bool, true, false, [], ◌∷◌, ◌++◌, Bytes, ◌==◌, nat_equality,
  if◌then◌else◌, is_empty,
}
use mathlib.Core.List.{reverse}
use passfs.Result.{Result, ok, err}
use passfs.Objects.{trim_space}
use passfs.Versions.{SemanticVersion, parse_version, compare_version, dot_byte}
use passfs.Versions.Comparison.{Sign, less, equal, greater}

-- The decimal digits of a number, the last one first; 20 are enough for 64 bits.
unfoldable pub digits_of : ℕ → ℕ → Bytes
digits_of zero n = []
digits_of (suc rounds) n =
    let rest = digits_of rounds (n / 10) in (48 + n % 10) ∷ (if n / 10 == 0 then [] else rest)

unfoldable pub print_uint : ℕ → Bytes
unfolding digits_of
print_uint n = reverse (digits_of 20 n)

abbrev pub print_core : SemanticVersion → Bytes
print_core v =
    print_uint v.major ++ (dot_byte ∷ print_uint v.minor ++ (dot_byte ∷ print_uint v.patch))

abbrev pub print_version : SemanticVersion → Bytes
print_version v =
    if is_empty v.prerelease then print_core v else print_core v ++ (b'-' ∷ v.prerelease)

-- strings.TrimPrefix(s, "v")
abbrev pub trim_v : Bytes → Bytes
trim_v [] = []
trim_v (c ∷ s) = if c == b'v' then s else c ∷ s

-- What NormalizeVersion reads: the text without the space around it and without a leading v.
abbrev pub version_text : Bytes → Bytes
version_text value = trim_v (trim_space value)

abbrev pub printed : Result SemanticVersion → Result Bytes
printed (ok v) = ok (print_version v)
printed (err e) = err e

unfoldable pub normalize_version : Bytes → Result Bytes
unfolding parse_version print_uint trim_space
normalize_version value = printed (parse_version (version_text value))

-- parseVersion with its error dropped; beside an error it gives a version that is never asked for.
abbrev pub parsed_or_zero : Result SemanticVersion → SemanticVersion
parsed_or_zero (ok v) = v
parsed_or_zero (err e) = record { major = 0; minor = 0; patch = 0; prerelease = [] }

abbrev pub is_greater : Sign → Bool
is_greater greater = true
is_greater equal = false
is_greater less = false

abbrev pub newer_of : Result Bytes → Result Bytes → Result Bool
newer_of (err e) r = err e
newer_of (ok a) (err e) = err e
newer_of (ok a) (ok b) = ok (
    is_greater
      (compare_version (parsed_or_zero (parse_version a)) (parsed_or_zero (parse_version b))))

unfoldable pub is_newer : Bytes → Bytes → Result Bool
unfolding normalize_version compare_version
is_newer candidate current = newer_of (normalize_version candidate) (normalize_version current)
