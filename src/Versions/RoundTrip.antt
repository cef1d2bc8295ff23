-- ===== src/Versions/RoundTrip.antt =====
-- A version that was read is printed as a text that reads as the same version
-- (internal/updater/client.go: parseVersion, NormalizeVersion).
use passfs.Prelude.{
  ℕ, ◌<◌, ◌^◌, ◌≡◌, refl, sym, ap, ◌∙◌, subst, Bool, true, false, not, ◌||◌, Option, some, none,
  ltb, ltb→lt, List, [], ◌∷◌, ◌++◌, Bytes, if◌then◌else◌, is_empty, all, ◌⊎◌, inl, inr,
}
use passfs.Error.{Error, message}
use passfs.Result.{Result, ok, err}
use passfs.Path.{split}
use passfs.Versions.{
  SemanticVersion, cut, dot_byte, validate_version_identifiers, parse_number, with_numbers,
  parse_core, parse_prerelease, parse_build, parse_version, checked_prerelease, without_build,
}
use passfs.Versions.Numbers.{is_digit, value_of, parse_uint, has_leading_zero}
use passfs.Versions.Newer.{print_uint, print_core, print_version}
use passfs.Versions.Printed.{parse_number-print_uint, print_digits}
use passfs.Versions.Pieces.{
  lacks, cut-append, cut_lacking, split-append, split_lacking, lacks-append, others_lack,
  prerelease_lacks_plus,
}
use mathlib.Core.List.{reverse}

-- The versions that parse_version gives: numbers of 64 bits, and no prerelease or a valid one.
abbrev pub IsAccepted : SemanticVersion → Type 0
IsAccepted v =
    (v.major < 2 ^ 64)
    × (v.minor < 2 ^ 64)
    × (v.patch < 2 ^ 64)
    × ((v.prerelease ≡ []) ⊎ (validate_version_identifiers v.prerelease true ≡ none))

parse_uint_bound : (s : Bytes) (n : ℕ) → parse_uint s ≡ some n → n < 2 ^ 64
unfolding parse_uint
parse_uint_bound s n h =
    known (is_empty s || not (all is_digit s)) (ltb (value_of (reverse s)) (2 ^ 64)) refl h
  where
    known :
        (a c : Bool)
        → ltb (value_of (reverse s)) (2 ^ 64) ≡ c
        → (if◌then◌else◌ {A = Option ℕ} a none (if c then some (value_of (reverse s)) else none))
          ≡ some n
        → n < 2 ^ 64
    known true c e k = absurd (cc k)
    known false false e k = absurd (cc k)
    known false true e k = subst (λ m. m < 2 ^ 64) (cc k) (ltb→lt (value_of (reverse s)) (2 ^ 64) e)

parse_number_bound : (s : Bytes) (n : ℕ) → parse_number s ≡ ok n → n < 2 ^ 64
parse_number_bound s n h = known (is_empty s || has_leading_zero s) (parse_uint s) refl h
  where
    known :
        (a : Bool) (r : Option ℕ)
        → parse_uint s ≡ r
        → (if◌then◌else◌ {A = Result ℕ} a
            (err message)
            (elim r [ none ↦ err message | some m ↦ ok m ]))
          ≡ ok n
        → n < 2 ^ 64
    known true r e k = absurd (cc k)
    known false none e k = absurd (cc k)
    known false (some m) e k = parse_uint_bound s n (e ∙ cc k)

parse_core-IsAccepted :
    (pre : Bytes) (ws : List Bytes) (v : SemanticVersion)
    → (pre ≡ []) ⊎ (validate_version_identifiers pre true ≡ none)
    → parse_core pre ws ≡ ok v
    → IsAccepted v
parse_core-IsAccepted pre [] v q h = absurd (cc h)
parse_core-IsAccepted pre (a ∷ []) v q h = absurd (cc h)
parse_core-IsAccepted pre (a ∷ b ∷ []) v q h = absurd (cc h)
parse_core-IsAccepted pre (a ∷ b ∷ c ∷ d ∷ ws) v q h = absurd (cc h)
parse_core-IsAccepted pre (a ∷ b ∷ c ∷ []) v q h =
    known (parse_number a) (parse_number b) (parse_number c) refl refl refl h
  where
    known :
        (x y z : Result ℕ)
        → parse_number a ≡ x
        → parse_number b ≡ y
        → parse_number c ≡ z
        → with_numbers pre x y z ≡ ok v
        → IsAccepted v
    known (ok x) (ok y) (ok z) e f g k =
        subst IsAccepted (cc k)
          (parse_number_bound a x e, parse_number_bound b y f, parse_number_bound c z g, q)
    known (ok x) (ok y) (err z) e f g k = absurd (cc k)
    known (ok x) (err y) z e f g k = absurd (cc k)
    known (err x) y z e f g k = absurd (cc k)

parse_prerelease-IsAccepted :
    (core : Bytes) (cut_at : Option (Bytes × Bytes)) (v : SemanticVersion)
    → parse_prerelease core cut_at ≡ ok v
    → IsAccepted v
parse_prerelease-IsAccepted core none v h =
    parse_core-IsAccepted [] (split dot_byte core) v (inl refl) h
parse_prerelease-IsAccepted core (some (before, pre)) v h =
    known (validate_version_identifiers pre true) refl h
  where
    known :
        (o : Option Error)
        → validate_version_identifiers pre true ≡ o
        → checked_prerelease before pre o ≡ ok v
        → IsAccepted v
    known none e k = parse_core-IsAccepted pre (split dot_byte before) v (inr e) k
    known (some x) e k = absurd (cc k)

pub parse_version-IsAccepted :
    (s : Bytes) (v : SemanticVersion) → parse_version s ≡ ok v → IsAccepted v
unfolding parse_version
parse_version-IsAccepted s v h = known (cut b'+' s) h
  where
    built : (core : Bytes) (o : Option Error) → without_build core o ≡ ok v → IsAccepted v
    built core none k = parse_prerelease-IsAccepted core (cut b'-' core) v k
    built core (some e) k = absurd (cc k)

    known : (o : Option (Bytes × Bytes)) → parse_build s o ≡ ok v → IsAccepted v
    known none k = parse_prerelease-IsAccepted s (cut b'-' s) v k
    known (some (core, build)) k = built core (validate_version_identifiers build false) k

print_uint-lacks : (c n : ℕ) → is_digit c ≡ false → lacks c (print_uint n) ≡ true
print_uint-lacks c n h = others_lack is_digit c (print_uint n) h (print_digits n)

print_core-lacks :
    (c : ℕ) (v : SemanticVersion)
    → is_digit c ≡ false
    → lacks c (dot_byte ∷ []) ≡ true
    → lacks c (print_core v) ≡ true
print_core-lacks c v n d =
    lacks-append c (print_uint v.major)
      (dot_byte ∷ print_uint v.minor ++ (dot_byte ∷ print_uint v.patch))
      (print_uint-lacks c v.major n)
      (lacks-append c (dot_byte ∷ []) (print_uint v.minor ++ (dot_byte ∷ print_uint v.patch)) d (
        lacks-append c (print_uint v.minor) (dot_byte ∷ print_uint v.patch)
          (print_uint-lacks c v.minor n)
          (lacks-append c (dot_byte ∷ []) (print_uint v.patch) d (print_uint-lacks c v.patch n))))

parse_core-print_core :
    (v : SemanticVersion)
    → IsAccepted v
    → parse_core v.prerelease (split dot_byte (print_core v)) ≡ ok v
parse_core-print_core v (a, b, c, q) =
    ap (parse_core v.prerelease) pieces
    ∙ cc (
      parse_number-print_uint v.major a,
      parse_number-print_uint v.minor b,
      parse_number-print_uint v.patch c,
    )
  where
    pieces :
        split dot_byte (print_core v)
        ≡ print_uint v.major ∷ print_uint v.minor ∷ print_uint v.patch ∷ []
    pieces =
        split-append dot_byte (print_uint v.major)
          (print_uint v.minor ++ (dot_byte ∷ print_uint v.patch))
          (print_uint-lacks dot_byte v.major refl)
        ∙ ap (print_uint v.major ∷◌) (
            split-append dot_byte (print_uint v.minor) (print_uint v.patch)
              (print_uint-lacks dot_byte v.minor refl)
            ∙ ap (print_uint v.minor ∷◌) (
                split_lacking dot_byte (print_uint v.patch)
                  (print_uint-lacks dot_byte v.patch refl)))

-- A text without a plus sign has no build part.
unbuilt : (t : Bytes) → lacks b'+' t ≡ true → parse_version t ≡ parse_prerelease t (cut b'-' t)
unfolding parse_version
unbuilt t h = ap (parse_build t) (cut_lacking b'+' t h)

print_plain :
    (v : SemanticVersion)
    → IsAccepted v
    → v.prerelease ≡ []
    → parse_version (print_version v) ≡ ok v
print_plain v h e =
    ap
      (λ p.
        parse_version (if is_empty p then print_core v else print_core v ++ (b'-' ∷ v.prerelease)))
      e
    ∙ unbuilt (print_core v) (print_core-lacks b'+' v refl refl)
    ∙ ap (parse_prerelease (print_core v))
        (cut_lacking b'-' (print_core v) (print_core-lacks b'-' v refl refl))
    ∙ ap (λ p. parse_core p (split dot_byte (print_core v))) (sym e)
    ∙ parse_core-print_core v h

print_marked :
    (v : SemanticVersion)
    → IsAccepted v
    → is_empty v.prerelease ≡ false
    → validate_version_identifiers v.prerelease true ≡ none
    → parse_version (print_version v) ≡ ok v
print_marked v h e valid =
    ap (λ b. parse_version (if b then print_core v else marked)) e
    ∙ unbuilt marked (
        lacks-append b'+' (print_core v) (b'-' ∷ v.prerelease) (print_core-lacks b'+' v refl refl) (
          lacks-append b'+' (b'-' ∷ []) v.prerelease refl
            (prerelease_lacks_plus v.prerelease valid)))
    ∙ ap (parse_prerelease marked)
        (cut-append b'-' (print_core v) v.prerelease (print_core-lacks b'-' v refl refl))
    ∙ ap (checked_prerelease (print_core v) v.prerelease) valid
    ∙ parse_core-print_core v h
  where
    marked : Bytes
    marked = print_core v ++ (b'-' ∷ v.prerelease)

pub print_version-IsRead :
    (v : SemanticVersion) → IsAccepted v → parse_version (print_version v) ≡ ok v
print_version-IsRead v h = known v.prerelease refl h.3
  where
    known :
        (p : Bytes)
        → v.prerelease ≡ p
        → (v.prerelease ≡ []) ⊎ (validate_version_identifiers v.prerelease true ≡ none)
        → parse_version (print_version v) ≡ ok v
    known p e (inl q) = print_plain v h q
    known [] e (inr q) = print_plain v h e
    known (c ∷ p) e (inr q) = print_marked v h (ap is_empty e) q

-- A text that is read as a version: printing the version and reading it again gives the same version.
pub parse_version-print_version :
    (s : Bytes) (v : SemanticVersion)
    → parse_version s ≡ ok v
    → parse_version (print_version v) ≡ ok v
parse_version-print_version s v h = print_version-IsRead v (parse_version-IsAccepted s v h)
