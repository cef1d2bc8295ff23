-- ===== src/Versions/Numbers.antt =====
-- Decimal numbers of 64 bits (strconv.ParseUint in base 10), and that one without a leading zero is
-- written in one way.
use passfs.Prelude.{
  is_empty, Option, none, some, ℕ, ◌+◌, ◌-◌, ◌*◌, ◌^◌, ◌<◌, ◌≡◌, ◌≢◌, refl, sym, ap, ◌∙◌, subst,
  Bool, true, false, not, ◌&&◌, ◌||◌, Option, none, some, [], ◌∷◌, ◌++◌, Bytes, leb, ltb,
  if◌then◌else◌, arith, all, is_empty, ◌==◌, nat_equality, ◌⊎◌, inl, inr, Bool-cases, ==→eq, ==→ne,
}
use mathlib.Core.List.{reverse-reverse, reverse, reverse-append}

abbrev pub is_digit : ℕ → Bool
is_digit c = leb b'0' c && leb c b'9'

-- The value of digits, the last one first.
unfoldable pub value_of : Bytes → ℕ
value_of [] = 0
value_of (c ∷ s) = (c - 48) + 10 * value_of s

unfoldable pub parse_uint : Bytes → Option ℕ
unfolding value_of
parse_uint s =
    if is_empty s || not (all is_digit s)
    then none
    else if ltb (value_of (reverse s)) (2 ^ 64)
    then some (value_of (reverse s))
    else none

-- More than one digit, the first of them a zero.
abbrev pub has_leading_zero : Bytes → Bool
has_leading_zero [] = false
has_leading_zero (c ∷ []) = false
has_leading_zero (c ∷ d ∷ s) = c == b'0'

-- The top digit of a number with its last digit first is no zero.
abbrev pub IsTopped : Bytes → Type 0
IsTopped [] = Unit
IsTopped (c ∷ []) = c ≢ 48
IsTopped (c ∷ d ∷ s) = IsTopped (d ∷ s)

IsTopped-tail : (c : ℕ) (s : Bytes) → IsTopped (c ∷ s) → IsTopped s
IsTopped-tail c [] h = tt
IsTopped-tail c (d ∷ s) h = h

IsTopped-append : (s : Bytes) (c : ℕ) → c ≢ 48 → IsTopped (s ++ (c ∷ []))
IsTopped-append [] c h = h
IsTopped-append (d ∷ []) c h = h
IsTopped-append (d ∷ e ∷ s) c h = IsTopped-append (e ∷ s) c h

topped_positive :
    (c : ℕ) (s : Bytes) → all is_digit (c ∷ s) ≡ true → IsTopped (c ∷ s) → 0 < value_of (c ∷ s)
unfolding value_of
topped_positive c [] d h = ground (arith, h)
topped_positive c (e ∷ s) d h =
    let rest : 0 < value_of (e ∷ s) = topped_positive e s (ground (arith, d)) h in omega arith

tail_digits : (c : ℕ) (s : Bytes) → all is_digit (c ∷ s) ≡ true → all is_digit s ≡ true
tail_digits c s h = ground (arith, h)

head_digit : (c : ℕ) (s : Bytes) → all is_digit (c ∷ s) ≡ true → is_digit c ≡ true
head_digit c s h = ground (arith, h)

split_value :
    (c d a b : ℕ)
    → is_digit c ≡ true
    → is_digit d ≡ true
    → (c - 48) + 10 * a ≡ (d - 48) + 10 * b
    → (c ≡ d) × (a ≡ b)
split_value c d a b p q e = (ground arith, ground arith)

value_of-injective :
    (s t : Bytes)
    → all is_digit s ≡ true
    → all is_digit t ≡ true
    → IsTopped s
    → IsTopped t
    → value_of s ≡ value_of t
    → s ≡ t
unfolding value_of
value_of-injective [] [] p q h k e = refl
value_of-injective [] (d ∷ t) p q h k e =
    let more : 0 < value_of (d ∷ t) = topped_positive d t q k in absurd (omega arith)
value_of-injective (c ∷ s) [] p q h k e =
    let more : 0 < value_of (c ∷ s) = topped_positive c s p h in absurd (omega arith)
value_of-injective (c ∷ s) (d ∷ t) p q h k e =
    let (same, rest) =
      split_value c d (value_of s) (value_of t) (head_digit c s p) (head_digit d t q) e in
    ap (λ x. x ∷ s) same
    ∙ ap (d ∷◌) (
        value_of-injective s t (tail_digits c s p) (tail_digits d t q) (IsTopped-tail c s h)
          (IsTopped-tail d t k) rest)

all-append :
    (s t : Bytes) → all is_digit s ≡ true → all is_digit t ≡ true → all is_digit (s ++ t) ≡ true
all-append [] t h k = k
all-append (c ∷ s) t h k = ground (arith, h, all-append s t (tail_digits c s h) k)

pub all-reverse : (s : Bytes) → all is_digit s ≡ true → all is_digit (reverse s) ≡ true
all-reverse [] h = refl
all-reverse (c ∷ s) h =
    ap (all is_digit) (reverse-append (c ∷ []) s)
    ∙ all-append (reverse s) (c ∷ []) (all-reverse s (tail_digits c s h)) (ground (arith, h))

-- A number without a leading zero, its last digit first: a lone zero, or one with a top digit.
zero_or_IsTopped :
    (c : ℕ) (s : Bytes)
    → has_leading_zero (c ∷ s) ≡ false
    → (c ∷ s ≡ 48 ∷ []) ⊎ IsTopped (reverse (c ∷ s))
zero_or_IsTopped c s h = elim (Bool-cases (c == 48)) [
  | inl e ↦ lone s h e
  | inr n ↦ inr (
      subst IsTopped (sym (reverse-append (c ∷ []) s))
        (IsTopped-append (reverse s) c (==→ne c 48 n)))
]
  where
    lone :
        (s : Bytes)
        → has_leading_zero (c ∷ s) ≡ false
        → (c == 48) ≡ true
        → (c ∷ s ≡ 48 ∷ []) ⊎ IsTopped (reverse (c ∷ s))
    lone [] k e = inl (ap (λ x. x ∷ []) (==→eq c 48 e))
    lone (d ∷ s) k e = absurd (cc (e, k))

-- What a parsed text is: digits, at least one, with that value.
pub parsed :
    (s : Bytes) (n : ℕ)
    → parse_uint s ≡ some n
    → (is_empty s ≡ false) × (all is_digit s ≡ true) × (value_of (reverse s) ≡ n)
unfolding parse_uint
parsed s n h = known (is_empty s) (all is_digit s) (ltb (value_of (reverse s)) (2 ^ 64)) refl refl h
  where
    known :
        (a b c : Bool)
        → is_empty s ≡ a
        → all is_digit s ≡ b
        → (if◌then◌else◌ {A = Option ℕ}
            (a || not b)
            none
            (if c then some (value_of (reverse s)) else none))
          ≡ some n
        → (is_empty s ≡ false) × (all is_digit s ≡ true) × (value_of (reverse s) ≡ n)
    known true b c p q k = absurd (cc k)
    known false false c p q k = absurd (cc k)
    known false true false p q k = absurd (cc k)
    known false true true p q k = (p, q, cc k)

same_reverse : (s t : Bytes) → reverse s ≡ reverse t → s ≡ t
same_reverse s t e = sym (reverse-reverse s) ∙ ap reverse e ∙ reverse-reverse t

-- Two texts without a leading zero that are the same number are the same text.
pub parse_uint-injective :
    (s t : Bytes) (n : ℕ)
    → has_leading_zero s ≡ false
    → has_leading_zero t ≡ false
    → parse_uint s ≡ some n
    → parse_uint t ≡ some n
    → s ≡ t
parse_uint-injective [] t n h k p q = absurd (cc (parsed [] n p).0)
parse_uint-injective (c ∷ s) [] n h k p q = absurd (cc (parsed [] n q).0)
parse_uint-injective (c ∷ s) (d ∷ t) n h k p q =
    known (zero_or_IsTopped c s h) (zero_or_IsTopped d t k)
  where
    same_value : value_of (reverse (c ∷ s)) ≡ value_of (reverse (d ∷ t))
    same_value = (parsed (c ∷ s) n p).2 ∙ sym (parsed (d ∷ t) n q).2

    -- A lone zero is worth less than a number with a top digit.
    below : (r : Bytes) → all is_digit r ≡ true → IsTopped r → value_of r ≡ 0 → r ≡ []
    below [] a b e = refl
    below (x ∷ r) a b e =
        let more : 0 < value_of (x ∷ r) = topped_positive x r a b in absurd (omega arith)

    not_empty : (x : ℕ) (r : Bytes) → reverse (x ∷ r) ≢ []
    not_empty x r e = absurd (cc (same_reverse (x ∷ r) [] e))

    zero_value : (x : ℕ) (r : Bytes) → x ∷ r ≡ 48 ∷ [] → value_of (reverse (x ∷ r)) ≡ 0
    zero_value x r e = ap (λ y. value_of (reverse y)) e ∙ lone
      where
        lone : value_of (48 ∷ []) ≡ 0
        lone = unfold value_of in refl

    known :
        (c ∷ s ≡ 48 ∷ []) ⊎ IsTopped (reverse (c ∷ s))
        → (d ∷ t ≡ 48 ∷ []) ⊎ IsTopped (reverse (d ∷ t))
        → c ∷ s ≡ d ∷ t
    known (inl e) (inl f) = e ∙ sym f
    known (inl e) (inr f) = absurd (
        not_empty d t (
          below (reverse (d ∷ t)) (all-reverse (d ∷ t) (parsed (d ∷ t) n q).1) f
            (sym same_value ∙ zero_value c s e)))
    known (inr e) (inl f) = absurd (
        not_empty c s (
          below (reverse (c ∷ s)) (all-reverse (c ∷ s) (parsed (c ∷ s) n p).1) e
            (same_value ∙ zero_value d t f)))
    known (inr e) (inr f) = same_reverse (c ∷ s) (d ∷ t) (
        value_of-injective (reverse (c ∷ s)) (reverse (d ∷ t))
          (all-reverse (c ∷ s) (parsed (c ∷ s) n p).1) (all-reverse (d ∷ t) (parsed (d ∷ t) n q).1)
          e f same_value)
