-- ===== src/Versions/Ordered.antt =====
-- The comparison of versions is a total order (internal/updater/client.go: compareVersion,
-- comparePrerelease).
use passfs.Prelude.{
  ℕ, ◌≡◌, ◌≢◌, refl, sym, ap, ◌∙◌, subst, Bool, true, false, not, ◌||◌, Option, none, some, List,
  [], ◌∷◌, Bytes, ◌==◌, nat_equality, list_equality, list_beq, if◌then◌else◌, is_empty, all, arith,
  ==→eq, ==→ne, map, All,
}
use passfs.Error.{Error, message}
use passfs.Result.{Result, ok, err}
use passfs.Path.{split}
use passfs.Versions.{
  SemanticVersion, is_valid_identifier, dot_byte, compare_prerelease, compare_prereleases,
  compare_version, validate_version_identifiers, cut, parse_number, with_numbers, parse_core,
  checked_prerelease, parse_prerelease, without_build, parse_build, parse_version,
}
use passfs.Versions.Comparison.{
  Sign, less, equal, greater, flip, or_then, compare_nat, IsOrder, compare_nat-IsOrder, lex,
  lex-IsOrder, self, pairwise, pairwise-IsOrder, topped, topped-IsOrder,
}
use passfs.Versions.Identifiers.{
  Key, compare_key, compare_key-IsOrder, key, IsIdentifier, compare_identifiers-keys,
}

keys_of : Bytes → Option (List Key)
keys_of [] = none
keys_of (c ∷ s) = some (map key (split dot_byte (c ∷ s)))

-- A prerelease that was accepted.
abbrev pub IsPrerelease : Bytes → Type 0
IsPrerelease [] = Unit
IsPrerelease (c ∷ s) = All IsIdentifier (split dot_byte (c ∷ s))

keys-IsOrder : IsOrder (topped (lex compare_key))
keys-IsOrder = topped-IsOrder (lex compare_key) (lex-IsOrder compare_key compare_key-IsOrder)

compare_prereleases-keys :
    (l r : Bytes)
    → IsPrerelease l
    → IsPrerelease r
    → compare_prereleases l r ≡ topped (lex compare_key) (keys_of l) (keys_of r)
unfolding keys_of compare_prerelease list_beq
compare_prereleases-keys l r h k = known (l == r) refl (filled l r h k)
  where
    differing : Bytes → Bytes → Sign
    differing a b =
        if is_empty a then greater else if is_empty b then less else compare_prerelease a b

    filled :
        (a b : Bytes)
        → IsPrerelease a
        → IsPrerelease b
        → a ≢ b
        → differing a b ≡ topped (lex compare_key) (keys_of a) (keys_of b)
    filled [] [] p q n = absurd (n refl)
    filled [] (y ∷ b) p q n = refl
    filled (x ∷ a) [] p q n = refl
    filled (x ∷ a) (y ∷ b) p q n =
        compare_identifiers-keys (split dot_byte (x ∷ a)) (split dot_byte (y ∷ b)) p q

    known :
        (b : Bool)
        → (l == r) ≡ b
        → (l ≢ r → differing l r ≡ topped (lex compare_key) (keys_of l) (keys_of r))
        → compare_prereleases l r ≡ topped (lex compare_key) (keys_of l) (keys_of r)
    known true e later =
        ap (λ b. if b then equal else differing l r) e
        ∙ sym (
            ap (λ x. topped (lex compare_key) (keys_of l) (keys_of x)) (sym (==→eq l r e))
            ∙ self (topped (lex compare_key)) keys-IsOrder (keys_of l))
    known false e later = ap (λ b. if b then equal else differing l r) e ∙ later (==→ne l r e)

abbrev VersionKey : Type 0
VersionKey = ℕ × (ℕ × (ℕ × Option (List Key)))

abbrev compare_keys : VersionKey → VersionKey → Sign
compare_keys =
    pairwise compare_nat (pairwise compare_nat (pairwise compare_nat (topped (lex compare_key))))

compare_keys-IsOrder : IsOrder compare_keys
compare_keys-IsOrder = pairwise-IsOrder compare_nat _ compare_nat-IsOrder (
    pairwise-IsOrder compare_nat _ compare_nat-IsOrder
      (pairwise-IsOrder compare_nat _ compare_nat-IsOrder keys-IsOrder))

abbrev version_key : SemanticVersion → VersionKey
version_key v = (v.major, (v.minor, (v.patch, keys_of v.prerelease)))

compare_version-keys :
    (a b : SemanticVersion)
    → IsPrerelease a.prerelease
    → IsPrerelease b.prerelease
    → compare_version a b ≡ compare_keys (version_key a) (version_key b)
unfolding compare_version
compare_version-keys a b h k =
    ap
      (λ s.
        or_then (compare_nat a.major b.major)
          (or_then (compare_nat a.minor b.minor) (or_then (compare_nat a.patch b.patch) s)))
      (compare_prereleases-keys a.prerelease b.prerelease h k)

-- The prerelease of a version that was parsed was accepted.
parse_version-IsPrerelease :
    (s : Bytes) (a : SemanticVersion) → parse_version s ≡ ok a → IsPrerelease a.prerelease
unfolding parse_version
parse_version-IsPrerelease s a h = at_build (cut b'+' s) h
  where
    at_numbers :
        (pre : Bytes) (x y z : Result ℕ)
        → IsPrerelease pre
        → with_numbers pre x y z ≡ ok a
        → IsPrerelease a.prerelease
    at_numbers pre (ok x) (ok y) (ok z) p k = subst IsPrerelease (cc k) p
    at_numbers pre (ok x) (ok y) (err e) p k = absurd (cc k)
    at_numbers pre (ok x) (err e) z p k = absurd (cc k)
    at_numbers pre (err e) y z p k = absurd (cc k)

    at_core :
        (pre : Bytes) (ps : List Bytes)
        → IsPrerelease pre
        → parse_core pre ps ≡ ok a
        → IsPrerelease a.prerelease
    at_core pre [] p k = absurd (cc k)
    at_core pre (x ∷ []) p k = absurd (cc k)
    at_core pre (x ∷ y ∷ []) p k = absurd (cc k)
    at_core pre (x ∷ y ∷ z ∷ []) p k =
        at_numbers pre (parse_number x) (parse_number y) (parse_number z) p k
    at_core pre (x ∷ y ∷ z ∷ w ∷ ps) p k = absurd (cc k)

    all_valid : (ws : List Bytes) → all (is_valid_identifier true) ws ≡ true → All IsIdentifier ws
    all_valid [] q = tt
    all_valid (w ∷ ws) q = (ground (arith, q), all_valid ws (ground (arith, q)))

    accepted : (pre : Bytes) → validate_version_identifiers pre true ≡ none → IsPrerelease pre
    accepted [] q = tt
    accepted (c ∷ pre) q = all_valid (split dot_byte (c ∷ pre)) (
        valid (all (is_valid_identifier true) (split dot_byte (c ∷ pre)))
          (unfold validate_version_identifiers in q))
      where
        valid :
            (b : Bool)
            → (if◌then◌else◌ {A = Option Error} (false || not b) (some message) none) ≡ none
            → b ≡ true
        valid true q = refl
        valid false q = absurd (cc q)

    at_checked :
        (core pre : Bytes) (o : Option Error)
        → validate_version_identifiers pre true ≡ o
        → checked_prerelease core pre o ≡ ok a
        → IsPrerelease a.prerelease
    at_checked core pre (some e) i k = absurd (cc k)
    at_checked core pre none i k = at_core pre (split dot_byte core) (accepted pre i) k

    at_prerelease :
        (core : Bytes) (o : Option (Bytes × Bytes))
        → parse_prerelease core o ≡ ok a
        → IsPrerelease a.prerelease
    at_prerelease core none k = at_core [] (split dot_byte core) tt k
    at_prerelease core (some (before, pre)) k = at_checked before pre _ refl k

    at_valid :
        (core : Bytes) (o : Option Error) → without_build core o ≡ ok a → IsPrerelease a.prerelease
    at_valid core (some e) k = absurd (cc k)
    at_valid core none k = at_prerelease core (cut b'-' core) k

    at_build : (o : Option (Bytes × Bytes)) → parse_build s o ≡ ok a → IsPrerelease a.prerelease
    at_build none k = at_prerelease s (cut b'-' s) k
    at_build (some (core, build)) k = at_valid core (validate_version_identifiers build false) k

-- Versions that were parsed: comparing them in the other order gives the opposite result.
pub compare_version-flip :
    (s t : Bytes) (a b : SemanticVersion)
    → parse_version s ≡ ok a
    → parse_version t ≡ ok b
    → compare_version b a ≡ flip (compare_version a b)
compare_version-flip s t a b h k =
    let p = parse_version-IsPrerelease s a h in
    let q = parse_version-IsPrerelease t b k in
    compare_version-keys b a q p
    ∙ compare_keys-IsOrder.flips (version_key a) (version_key b)
    ∙ ap flip (sym (compare_version-keys a b p q))

-- Versions that were parsed: one below a second that is below a third is below the third.
pub compare_version_trans :
    (s t u : Bytes) (a b c : SemanticVersion)
    → parse_version s ≡ ok a
    → parse_version t ≡ ok b
    → parse_version u ≡ ok c
    → compare_version a b ≡ less
    → compare_version b c ≡ less
    → compare_version a c ≡ less
compare_version_trans s t u a b c h k l m n =
    let p = parse_version-IsPrerelease s a h in
    let q = parse_version-IsPrerelease t b k in
    let r = parse_version-IsPrerelease u c l in
    compare_version-keys a c p r
    ∙ compare_keys-IsOrder.trans (version_key a) (version_key b) (version_key c)
        (sym (compare_version-keys a b p q) ∙ m) (sym (compare_version-keys b c q r) ∙ n)
