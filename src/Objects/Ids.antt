-- ===== src/Objects/Ids.antt =====
-- Normal forms of object identifiers (internal/passfs/objects.go: normalizeObjectID).
use passfs.Prelude.{
  ℕ, ◌≡◌, refl, Bool, true, false, ◌&&◌, [], ◌∷◌, Bytes, slash, arith, ltb, ◌==◌, nat_equality,
  if◌then◌else◌, all, All, ap, Bool-cases, inl, inr, ◌∙◌, subst,
}
use mathlib.Core.List.{reverse, reverse-reverse}
use passfs.Result.{Result, ok, err}
use passfs.Error.{message}
use passfs.Token.{is_hex_digit}
use passfs.Path.Laws.{All-reverse}
use passfs.Objects.{
  dash, is_space, trim_start, is_pair, is_triple, trim_space, lower, to_lower, without_dashes,
  is_object_id, normalize_object_id,
}

-- What holds of each byte of an identifier: it is no space, no separator, and below 128.
abbrev pub IsPlain : ℕ → Type 0
IsPlain c =
    (is_space c ≡ false) × ((c == slash) ≡ false) × ((c == b'.') ≡ false) × (ltb c 128 ≡ true)

hex-IsPlain : (c : ℕ) → is_hex_digit c ≡ true → IsPlain c
hex-IsPlain c h = (ground arith, ground arith, ground arith, ground arith)

digits-IsPlain : (s : Bytes) → all is_hex_digit (without_dashes s) ≡ true → All IsPlain s
unfolding without_dashes
digits-IsPlain [] h = tt
digits-IsPlain (c ∷ s) h = elim (Bool-cases (c == dash)) [
  | inl d ↦ ((ground arith, ground arith, ground arith, ground arith), digits-IsPlain s (rw d at h))
  | inr n ↦ both (is_hex_digit c) refl (rw n at h) (digits-IsPlain s)
]
  where
    both :
        (b : Bool)
        → is_hex_digit c ≡ b
        → (b && all is_hex_digit (without_dashes s)) ≡ true
        → (all is_hex_digit (without_dashes s) ≡ true → All IsPlain s)
        → All IsPlain (c ∷ s)
    both true e k later = (hex-IsPlain c e, later k)
    both false e k later = absurd (cc k)

object_id-IsPlain : (s : Bytes) → is_object_id s ≡ true → All IsPlain s
object_id-IsPlain s h = digits-IsPlain s (ground arith)

low_pair : (back : Bool) (c d : ℕ) → ltb c 128 ≡ true → ltb d 128 ≡ true → is_pair back c d ≡ false
low_pair true c d h k = ground arith
low_pair false c d h k = ground arith

low_triple :
    (back : Bool) (c d e : ℕ) → ltb c 128 ≡ true → ltb e 128 ≡ true → is_triple back c d e ≡ false
low_triple true c d e h k = ground arith
low_triple false c d e h k = ground arith

trim_start-plain : (back : Bool) (s : Bytes) → All IsPlain s → trim_start back s ≡ s
unfolding trim_start
trim_start-plain back [] h = refl
trim_start-plain back (c ∷ []) h = rw h.0.0
trim_start-plain back (c ∷ d ∷ []) h = cc (h.0.0, low_pair back c d h.0.3 h.1.0.3)
trim_start-plain back (c ∷ d ∷ e ∷ s) h =
    cc (h.0.0, low_pair back c d h.0.3 h.1.0.3, low_triple back c d e h.0.3 h.1.1.0.3)

trim_space-plain : (s : Bytes) → All IsPlain s → trim_space s ≡ s
unfolding trim_space
trim_space-plain s h =
    ap (λ t. reverse (trim_start true (reverse t))) (trim_start-plain false s h)
    ∙ ap reverse (trim_start-plain true (reverse s) (All-reverse IsPlain s h))
    ∙ reverse-reverse s

lower-lower : (c : ℕ) → lower (lower c) ≡ lower c
lower-lower c = ground arith

to_lower-to_lower : (s : Bytes) → to_lower (to_lower s) ≡ to_lower s
unfolding to_lower
to_lower-to_lower [] = refl
to_lower-to_lower (c ∷ s) = rw (lower-lower c, to_lower-to_lower s)

-- A normalized identifier passes the tests, is plain and in lower case.
pub normalized :
    (value id : Bytes)
    → normalize_object_id value ≡ ok id
    → (is_object_id id ≡ true) × All IsPlain id × (to_lower id ≡ id)
unfolding normalize_object_id
normalized value id h = known (is_object_id s) refl h
  where
    s : Bytes
    s = to_lower (trim_space value)

    known :
        (b : Bool)
        → is_object_id s ≡ b
        → ◌≡◌ {A = Result Bytes} (if b then ok s else err message) (ok id)
        → (is_object_id id ≡ true) × All IsPlain id × (to_lower id ≡ id)
    known true e k =
        let same : s ≡ id = cc k in
        (
          subst (λ x. is_object_id x ≡ true) same e,
          object_id-IsPlain id (subst (λ x. is_object_id x ≡ true) same e),
          subst (λ x. to_lower x ≡ x) same (to_lower-to_lower (trim_space value)),
        )
    known false e k = absurd (cc k)

-- Normalizing a normalized identifier changes nothing.
pub normalize_idem :
    (value id : Bytes) → normalize_object_id value ≡ ok id → normalize_object_id id ≡ ok id
unfolding normalize_object_id
normalize_idem value id h =
    let (valid, plain, low) = normalized value id h in
    rw (trim_space-plain id plain) (rw low (rw valid))
