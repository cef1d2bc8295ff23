-- ===== src/Versions/Decision.antt =====
-- Whether a release is newer, as an order on the texts (internal/updater/client.go: IsNewer).
use passfs.Prelude.{◌≡◌, refl, sym, ap, ◌∙◌, true, false, Bytes}
use passfs.Result.{Result, ok, err}
use passfs.Versions.{SemanticVersion, parse_version, compare_version}
use passfs.Versions.Comparison.{Sign, less, equal, greater, flip}
use passfs.Versions.Newer.{
  version_text, print_version, printed, normalize_version, parsed_or_zero, is_greater, newer_of,
  is_newer,
}
use passfs.Versions.RoundTrip.{parse_version-print_version}
use passfs.Versions.Ordered.{compare_version-flip, compare_version_trans}

-- Both texts are read: IsNewer compares the two versions, printed and read again.
is_newer-compare_version :
    (s t : Bytes) (v w : SemanticVersion)
    → parse_version (version_text s) ≡ ok v
    → parse_version (version_text t) ≡ ok w
    → is_newer s t ≡ ok (is_greater (compare_version v w))
unfolding is_newer normalize_version
is_newer-compare_version s t v w h k =
    ap (λ r. newer_of (printed r) (printed (parse_version (version_text t)))) h
    ∙ ap (λ r. newer_of (ok (print_version v)) (printed r)) k
    ∙ ap
        (λ r. ok (
          is_greater (
            compare_version (parsed_or_zero r) (parsed_or_zero (parse_version (print_version w))))))
        (parse_version-print_version (version_text s) v h)
    ∙ ap (λ r. ok (is_greater (compare_version v (parsed_or_zero r))))
        (parse_version-print_version (version_text t) w k)

-- Both texts are read, and the first version is above the second.
abbrev IsNewer : Bytes → Bytes → Type 0
IsNewer s t =
    (v : SemanticVersion) × (w : SemanticVersion) × (parse_version (version_text s) ≡ ok v)
    × (parse_version (version_text t) ≡ ok w)
    × (compare_version v w ≡ greater)

is_newer-IsNewer : (s t : Bytes) → is_newer s t ≡ ok true → IsNewer s t
is_newer-IsNewer s t h =
    known (parse_version (version_text s)) (parse_version (version_text t)) refl refl
  where
    known :
        (x y : Result SemanticVersion)
        → parse_version (version_text s) ≡ x
        → parse_version (version_text t) ≡ y
        → IsNewer s t
    known (ok v) (ok w) e f =
        (v, w, e, f, above (compare_version v w) (sym (is_newer-compare_version s t v w e f) ∙ h))
      where
        above : (c : Sign) → ok (is_greater c) ≡ ok true → c ≡ greater
        above greater k = refl
        above equal k = absurd (cc k)
        above less k = absurd (cc k)
    known (err x) y e f = absurd (refused (sym h))
      where
        refused : ok true ≡ is_newer s t → ⊥
        refused k =
            unfold is_newer normalize_version in
            cc (k ∙ ap (λ r. newer_of (printed r) (printed (parse_version (version_text t)))) e)
    known (ok v) (err y) e f = absurd (refused (sym h))
      where
        refused : ok true ≡ is_newer s t → ⊥
        refused k =
            unfold is_newer normalize_version in
            cc (
              k
              ∙ ap (λ r. newer_of (printed r) (printed (parse_version (version_text t)))) e
              ∙ ap (λ r. newer_of (ok (print_version v)) (printed r)) f)

-- A release that is newer than a second one, which is newer than a third, is newer than the third; and
-- neither the second nor the third is newer than the first.
pub is_newer_lem :
    (s t u : Bytes)
    → is_newer s t ≡ ok true
    → is_newer t u ≡ ok true
    → (is_newer s u ≡ ok true) × (is_newer t s ≡ ok false) × (is_newer u s ≡ ok false)
is_newer_lem s t u h k = known (is_newer-IsNewer s t h) (is_newer-IsNewer t u k)
  where
    known :
        IsNewer s t
        → IsNewer t u
        → (is_newer s u ≡ ok true) × (is_newer t s ≡ ok false) × (is_newer u s ≡ ok false)
    known (a, b, p, q, m) (b2, c, q2, r, n) = (
      is_newer-compare_version s u a c p r ∙ ap (λ x. ok (is_greater x)) up,
      is_newer-compare_version t s b a q p ∙ ap (λ x. ok (is_greater x)) below,
      is_newer-compare_version u s c a r p ∙ ap (λ x. ok (is_greater x)) last,
    )
      where
        same : b2 ≡ b
        same = cc (sym q2 ∙ q)

        below : compare_version b a ≡ less
        below = compare_version-flip (version_text s) (version_text t) a b p q ∙ ap flip m

        next : compare_version c b ≡ less
        next =
            compare_version-flip (version_text t) (version_text u) b c q r
            ∙ ap flip (ap (λ x. compare_version x c) (sym same) ∙ n)

        last : compare_version c a ≡ less
        last =
            compare_version_trans (version_text u) (version_text t) (version_text s) c b a r q p
              next below

        up : compare_version a c ≡ greater
        up = compare_version-flip (version_text u) (version_text s) c a r p ∙ ap flip last
