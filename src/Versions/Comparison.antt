-- ===== src/Versions/Comparison.antt =====
-- What a comparison of Go gives, -1, 0 or 1, and the orders that come from one (cmp, strings.Compare).
use passfs.Prelude.{
  Option, none, some, ◌⊎◌, inl, inr, ℕ, ◌≡◌, refl, sym, ap, ◌∙◌, List, [], ◌∷◌, ltb, if◌then◌else◌,
  arith,
}

pub data Sign : Type 0 where
  less equal greater : Sign

abbrev pub flip : Sign → Sign
flip less = greater
flip equal = equal
flip greater = less

-- The first comparison, or the second one where the first finds no difference.
abbrev pub or_then : Sign → Sign → Sign
or_then equal s = s
or_then less s = less
or_then greater s = greater

abbrev pub compare_nat : ℕ → ℕ → Sign
compare_nat a b = if ltb a b then less else if ltb b a then greater else equal

-- A comparison of a total order.
pub record IsOrder {ℓ} {A : Type ℓ} (f : A → A → Sign) : Type ℓ where
  pub flips : (a b : A) → f b a ≡ flip (f a b)
  pub same : (a b : A) → f a b ≡ equal → a ≡ b
  pub trans : (a b c : A) → f a b ≡ less → f b c ≡ less → f a c ≡ less

pub compare_nat-IsOrder : IsOrder compare_nat
compare_nat-IsOrder = record {
  flips = λ a b. ground arith;
  same = λ a b h. ground arith;
  trans = λ a b c h k. ground arith;
}

-- Lists by their first difference; a list is above what it begins with.
unfoldable pub lex {ℓ} : {A : Type ℓ} → (A → A → Sign) → List A → List A → Sign
lex f [] [] = equal
lex f [] (y ∷ ys) = less
lex f (x ∷ xs) [] = greater
lex f (x ∷ xs) (y ∷ ys) = or_then (f x y) (lex f xs ys)

flip-or_then : (s t : Sign) → or_then (flip s) (flip t) ≡ flip (or_then s t)
flip-or_then less t = refl
flip-or_then equal t = refl
flip-or_then greater t = refl

module _ {ℓ} {A : Type ℓ} (f : A → A → Sign) (o : IsOrder f) where
  pub self : (a : A) → f a a ≡ equal
  self a = known (f a a) refl (o.flips a a)
    where
      known : (s : Sign) → f a a ≡ s → f a a ≡ flip (f a a) → f a a ≡ equal
      known equal e h = e
      known less e h = absurd (cc (sym e ∙ h ∙ ap flip e))
      known greater e h = absurd (cc (sym e ∙ h ∙ ap flip e))

  lex_flips : (xs ys : List A) → lex f ys xs ≡ flip (lex f xs ys)
  unfolding lex
  lex_flips [] [] = refl
  lex_flips [] (y ∷ ys) = refl
  lex_flips (x ∷ xs) [] = refl
  lex_flips (x ∷ xs) (y ∷ ys) =
      ap (λ s. or_then s (lex f ys xs)) (o.flips x y)
      ∙ ap (or_then (flip (f x y))) (lex_flips xs ys)
      ∙ flip-or_then (f x y) (lex f xs ys)

  lex-same : (xs ys : List A) → lex f xs ys ≡ equal → xs ≡ ys
  unfolding lex
  lex-same [] [] h = refl
  lex-same [] (y ∷ ys) h = absurd (cc h)
  lex-same (x ∷ xs) [] h = absurd (cc h)
  lex-same (x ∷ xs) (y ∷ ys) h = known (f x y) refl h (lex-same xs ys)
    where
      known :
          (s : Sign)
          → f x y ≡ s
          → or_then s (lex f xs ys) ≡ equal
          → (lex f xs ys ≡ equal → xs ≡ ys)
          → x ∷ xs ≡ y ∷ ys
      known less e k later = absurd (cc k)
      known greater e k later = absurd (cc k)
      known equal e k later = ap (λ z. z ∷ xs) (o.same x y e) ∙ ap (y ∷◌) (later k)

  lex_trans : (xs ys zs : List A) → lex f xs ys ≡ less → lex f ys zs ≡ less → lex f xs zs ≡ less
  unfolding lex
  lex_trans [] [] zs h k = absurd (cc h)
  lex_trans [] (y ∷ ys) [] h k = absurd (cc k)
  lex_trans [] (y ∷ ys) (z ∷ zs) h k = refl
  lex_trans (x ∷ xs) [] zs h k = absurd (cc h)
  lex_trans (x ∷ xs) (y ∷ ys) [] h k = absurd (cc k)
  lex_trans (x ∷ xs) (y ∷ ys) (z ∷ zs) h k =
      known (f x y) (f y z) refl refl h k (lex_trans xs ys zs)
    where
      at :
          {s : Sign}
          → f x z ≡ s
          → or_then s (lex f xs zs) ≡ less
          → or_then (f x z) (lex f xs zs) ≡ less
      at e p = ap (λ s. or_then s (lex f xs zs)) e ∙ p

      known :
          (s t : Sign)
          → f x y ≡ s
          → f y z ≡ t
          → or_then s (lex f xs ys) ≡ less
          → or_then t (lex f ys zs) ≡ less
          → (lex f xs ys ≡ less → lex f ys zs ≡ less → lex f xs zs ≡ less)
          → or_then (f x z) (lex f xs zs) ≡ less
      known greater t e d p q later = absurd (cc p)
      known less greater e d p q later = absurd (cc q)
      known equal greater e d p q later = absurd (cc q)
      known less less e d p q later = at (o.trans x y z e d) refl
      known less equal e d p q later = at (ap (f x) (sym (o.same y z d)) ∙ e) refl
      known equal less e d p q later = at (ap (λ a. f a z) (o.same x y e) ∙ d) refl
      known equal equal e d p q later = at (ap (λ a. f a z) (o.same x y e) ∙ d) (later p q)

  pub lex-IsOrder : IsOrder (lex f)
  lex-IsOrder = record { flips = lex_flips; same = lex-same; trans = lex_trans }

-- Two comparisons, one after the other.
abbrev pub pairwise {ℓ κ} :
    {A : Type ℓ} {B : Type κ} → (A → A → Sign) → (B → B → Sign) → A × B → A × B → Sign
pairwise f g x y = or_then (f x.0 y.0) (g x.1 y.1)

-- A comparison with a greatest value added.
abbrev pub topped {ℓ} : {A : Type ℓ} → (A → A → Sign) → Option A → Option A → Sign
topped f none none = equal
topped f none (some b) = greater
topped f (some a) none = less
topped f (some a) (some b) = f a b

pub topped-IsOrder {ℓ} : {A : Type ℓ} (f : A → A → Sign) → IsOrder f → IsOrder (topped f)
topped-IsOrder {A = A} f o = record { flips = flips; same = same; trans = trans }
  where
    flips : (a b : Option A) → topped f b a ≡ flip (topped f a b)
    flips none none = refl
    flips none (some b) = refl
    flips (some a) none = refl
    flips (some a) (some b) = o.flips a b

    same : (a b : Option A) → topped f a b ≡ equal → a ≡ b
    same none none h = refl
    same none (some b) h = absurd (cc h)
    same (some a) none h = absurd (cc h)
    same (some a) (some b) h = ap some (o.same a b h)

    trans : (a b c : Option A) → topped f a b ≡ less → topped f b c ≡ less → topped f a c ≡ less
    trans none none c h k = absurd (cc h)
    trans none (some b) c h k = absurd (cc h)
    trans (some a) none none h k = absurd (cc k)
    trans (some a) none (some c) h k = absurd (cc k)
    trans (some a) (some b) none h k = refl
    trans (some a) (some b) (some c) h k = o.trans a b c h k

or_then-equal : (s t : Sign) → or_then s t ≡ equal → (s ≡ equal) × (t ≡ equal)
or_then-equal equal t h = (refl, h)
or_then-equal less t h = absurd (cc h)
or_then-equal greater t h = absurd (cc h)

-- A difference below: in the first comparison, or in the second one where the first finds none.
or_then-less : (s t : Sign) → or_then s t ≡ less → (s ≡ less) ⊎ ((s ≡ equal) × (t ≡ less))
or_then-less less t h = inl refl
or_then-less equal t h = inr (refl, h)
or_then-less greater t h = absurd (cc h)

pub pairwise-IsOrder {ℓ κ} :
    {A : Type ℓ} {B : Type κ} (f : A → A → Sign) (g : B → B → Sign)
    → IsOrder f
    → IsOrder g
    → IsOrder (pairwise f g)
pairwise-IsOrder {A = A} {B = B} f g o p = record { flips = flips; same = same; trans = trans }
  where
    flips : (x y : A × B) → pairwise f g y x ≡ flip (pairwise f g x y)
    flips x y =
        ap (λ s. or_then s (g y.1 x.1)) (o.flips x.0 y.0)
        ∙ ap (or_then (flip (f x.0 y.0))) (p.flips x.1 y.1)
        ∙ flip-or_then (f x.0 y.0) (g x.1 y.1)

    same : (x y : A × B) → pairwise f g x y ≡ equal → x ≡ y
    same x y h =
        let (a, b) = or_then-equal (f x.0 y.0) (g x.1 y.1) h in
        ap (λ z. (z, x.1)) (o.same x.0 y.0 a) ∙ ap (λ z. (y.0, z)) (p.same x.1 y.1 b)

    first : (x z : A × B) → f x.0 z.0 ≡ less → pairwise f g x z ≡ less
    first x z e = ap (λ s. or_then s (g x.1 z.1)) e

    joined :
        (x y z : A × B)
        → (f x.0 y.0 ≡ less) ⊎ ((f x.0 y.0 ≡ equal) × (g x.1 y.1 ≡ less))
        → (f y.0 z.0 ≡ less) ⊎ ((f y.0 z.0 ≡ equal) × (g y.1 z.1 ≡ less))
        → pairwise f g x z ≡ less
    joined x y z (inl a) (inl b) = first x z (o.trans x.0 y.0 z.0 a b)
    joined x y z (inl a) (inr b) = first x z (ap (f x.0) (sym (o.same y.0 z.0 b.0)) ∙ a)
    joined x y z (inr a) (inl b) = first x z (ap (λ t. f t z.0) (o.same x.0 y.0 a.0) ∙ b)
    joined x y z (inr a) (inr b) =
        ap (λ s. or_then s (g x.1 z.1)) (ap (λ t. f t z.0) (o.same x.0 y.0 a.0) ∙ b.0)
        ∙ p.trans x.1 y.1 z.1 a.1 b.1

    trans :
        (x y z : A × B)
        → pairwise f g x y ≡ less
        → pairwise f g y z ≡ less
        → pairwise f g x z ≡ less
    trans x y z h k =
        joined x y z (or_then-less (f x.0 y.0) (g x.1 y.1) h)
          (or_then-less (f y.0 z.0) (g y.1 z.1) k)
