-- ===== src/Examples/Releases.antt =====
-- Versions: the theorems of Versions at releases, and tests of the comparison.
use passfs.Prelude.{◌≡◌, refl, codes, true, false}
use passfs.Result.{ok, err}
use passfs.Path.{split}
use passfs.Error.{message}
use passfs.Objects.{trim_space}
use passfs.Versions.{
  SemanticVersion, parse_version, compare_version, compare_prerelease, compare_identifiers,
}
use passfs.Versions.Comparison.{greater}
use passfs.Versions.Newer.{print_uint, print_version, normalize_version, is_newer}
use passfs.Versions.RoundTrip.{parse_version-print_version}
use passfs.Versions.Decision.{is_newer_lem}

abbrev beta : SemanticVersion
beta = record { major = 1; minor = 2; patch = 10; prerelease = codes "beta.2" }

parse_version-print_version_example : parse_version (print_version beta) ≡ ok beta
unfolding parse_version split
parse_version-print_version_example =
    parse_version-print_version (codes "1.2.10-beta.2+build.7") beta refl

is_newer_lem_example :
    (is_newer (codes "v1.2.10") (codes "1.2.10-beta.2") ≡ ok true)
    × (is_newer (codes " 1.2.10-beta.x") (codes "v1.2.10") ≡ ok false)
    × (is_newer (codes "1.2.10-beta.2") (codes "v1.2.10") ≡ ok false)
unfolding is_newer normalize_version parse_version split compare_version compare_identifiers
    print_uint trim_space
is_newer_lem_example =
    is_newer_lem (codes "v1.2.10") (codes " 1.2.10-beta.x") (codes "1.2.10-beta.2") refl refl

-- A version that is not one is an error.
refused_candidate : is_newer (codes "1.2") (codes "1.2.0") ≡ err message
unfolding is_newer normalize_version parse_version split trim_space
refused_candidate = refl

-- A leading zero is refused.
leading_zero : parse_version (codes "1.02.3") ≡ err message
unfolding parse_version split
leading_zero = refl

-- A number of 65 bits in a prerelease counts as a word.
wide_number :
    compare_prerelease (codes "99999999999999999999") (codes "100000000000000000000") ≡ greater
unfolding compare_prerelease split compare_identifiers
wide_number = refl
