-- ===== src/Versions/Identifiers.antt =====
-- The identifiers of a prerelease in their order (internal/updater/client.go: comparePrerelease).
use passfs.Prelude.{
  ℕ, ◌≡◌, ◌≢◌, refl, sym, ap, ◌∙◌, Bool, true, false, Option, none, some, List, [], ◌∷◌, Bytes,
  ◌==◌, nat_equality, list_equality, if◌then◌else◌, ltb, arith, ◌⊎◌, inl, inr, ==→eq, ==→ne, map,
  All,
}
use passfs.Versions.{is_valid_identifier, compare_parsed, compare_identifier, compare_identifiers}
use passfs.Versions.Comparison.{
  Sign, less, equal, greater, flip, or_then, compare_nat, IsOrder, compare_nat-IsOrder, lex,
  lex-IsOrder, self,
}
use passfs.Versions.Numbers.{parse_uint, has_leading_zero, parse_uint-injective, parsed}

-- What an identifier counts as: a number, or a word.
abbrev pub Key : Type 0
Key = ℕ ⊎ Bytes

pub compare_key : Key → Key → Sign
compare_key (inl m) (inl n) = compare_nat m n
compare_key (inl m) (inr t) = less
compare_key (inr s) (inl n) = greater
compare_key (inr s) (inr t) = lex compare_nat s t

words-IsOrder : IsOrder (lex compare_nat)
words-IsOrder = lex-IsOrder compare_nat compare_nat-IsOrder

pub compare_key-IsOrder : IsOrder compare_key
unfolding compare_key
compare_key-IsOrder = record { flips = flips; same = same; trans = trans }
  where
    flips : (a b : Key) → compare_key b a ≡ flip (compare_key a b)
    flips (inl m) (inl n) = compare_nat-IsOrder.flips m n
    flips (inl m) (inr t) = refl
    flips (inr s) (inl n) = refl
    flips (inr s) (inr t) = words-IsOrder.flips s t

    same : (a b : Key) → compare_key a b ≡ equal → a ≡ b
    same (inl m) (inl n) h = ap inl (compare_nat-IsOrder.same m n h)
    same (inl m) (inr t) h = absurd (cc h)
    same (inr s) (inl n) h = absurd (cc h)
    same (inr s) (inr t) h = ap inr (words-IsOrder.same s t h)

    trans : (a b c : Key) → compare_key a b ≡ less → compare_key b c ≡ less → compare_key a c ≡ less
    trans (inl a) (inl b) (inl c) h k = compare_nat-IsOrder.trans a b c h k
    trans (inl a) (inl b) (inr c) h k = refl
    trans (inl a) (inr b) (inl c) h k = absurd (cc k)
    trans (inl a) (inr b) (inr c) h k = refl
    trans (inr a) (inl b) c h k = absurd (cc h)
    trans (inr a) (inr b) (inl c) h k = absurd (cc k)
    trans (inr a) (inr b) (inr c) h k = words-IsOrder.trans a b c h k

key_of : Bytes → Option ℕ → Key
key_of s (some n) = inl n
key_of s none = inr s

pub key : Bytes → Key
key s = key_of s (parse_uint s)

-- An identifier of a prerelease that was accepted.
abbrev pub IsIdentifier : Bytes → Type 0
IsIdentifier s = is_valid_identifier true s ≡ true

digits_fit :
    (s : Bytes) (n : ℕ) → IsIdentifier s → parse_uint s ≡ some n → has_leading_zero s ≡ false
digits_fit s n h p = ground (arith, h, (parsed s n p).1)

key-injective : (s t : Bytes) → IsIdentifier s → IsIdentifier t → key s ≡ key t → s ≡ t
unfolding key key_of
key-injective s t h k e = known (parse_uint s) (parse_uint t) refl refl e
  where
    known : (x y : Option ℕ) → parse_uint s ≡ x → parse_uint t ≡ y → key_of s x ≡ key_of t y → s ≡ t
    known (some m) (some n) p q f =
        let same : m ≡ n = cc f in
        parse_uint-injective s t n (digits_fit s m h p) (digits_fit t n k q) (p ∙ ap some same) q
    known (some m) none p q f = absurd (cc f)
    known none (some n) p q f = absurd (cc f)
    known none none p q f = cc f

-- Identifiers that differ are compared by their keys.
compare_identifier-key :
    (s t : Bytes)
    → IsIdentifier s
    → IsIdentifier t
    → s ≢ t
    → compare_identifier s t ≡ compare_key (key s) (key t)
unfolding key key_of compare_key
compare_identifier-key s t h k n = known (parse_uint s) (parse_uint t) refl refl
  where
    known :
        (x y : Option ℕ)
        → parse_uint s ≡ x
        → parse_uint t ≡ y
        → compare_parsed s t x y ≡ compare_key (key_of s x) (key_of t y)
    known (some a) (some b) p q = differ (λ e.
        n (parse_uint-injective s t b (digits_fit s a h p) (digits_fit t b k q) (p ∙ ap some e) q))
      where
        differ : a ≢ b → (if ltb a b then less else greater) ≡ compare_nat a b
        differ d = ground (arith, d)
    known (some a) none p q = refl
    known none (some b) p q = refl
    known none none p q = refl

-- The comparison of identifier lists is that of the lists of their keys.
pub compare_identifiers-keys :
    (ls rs : List Bytes)
    → All IsIdentifier ls
    → All IsIdentifier rs
    → compare_identifiers ls rs ≡ lex compare_key (map key ls) (map key rs)
unfolding compare_identifiers lex
compare_identifiers-keys [] [] h k = refl
compare_identifiers-keys [] (r ∷ rs) h k = refl
compare_identifiers-keys (l ∷ ls) [] h k = refl
compare_identifiers-keys (l ∷ ls) (r ∷ rs) h k =
    known (l == r) refl (compare_identifiers-keys ls rs h.1 k.1)
  where
    step : Bool → Sign
    step b = if b then compare_identifiers ls rs else compare_identifier l r

    differ :
        (s : Sign)
        → compare_key (key l) (key r) ≡ s
        → l ≢ r
        → or_then s (lex compare_key (map key ls) (map key rs)) ≡ s
    differ less e n = refl
    differ greater e n = refl
    differ equal e n =
        absurd (n (key-injective l r h.0 k.0 (compare_key-IsOrder.same (key l) (key r) e)))

    known :
        (b : Bool)
        → (l == r) ≡ b
        → compare_identifiers ls rs ≡ lex compare_key (map key ls) (map key rs)
        → step (l == r)
          ≡ or_then (compare_key (key l) (key r)) (lex compare_key (map key ls) (map key rs))
    known true e rest =
        ap step e
        ∙ rest
        ∙ sym (
            ap (λ s. or_then s (lex compare_key (map key ls) (map key rs)))
              (ap (λ x. compare_key (key l) (key x)) (sym (==→eq l r e))
                ∙ self compare_key compare_key-IsOrder (key l)))
    known false e rest =
        ap step e
        ∙ compare_identifier-key l r h.0 k.0 (==→ne l r e)
        ∙ sym (differ (compare_key (key l) (key r)) refl (==→ne l r e))
