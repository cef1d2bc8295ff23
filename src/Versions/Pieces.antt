-- ===== src/Versions/Pieces.antt =====
-- Where a text is cut: the pieces strings.Cut and strings.Split give of a printed version, and what an
-- accepted prerelease is made of (internal/updater/client.go: parseVersion, validateVersionIdentifiers).
use passfs.Prelude.{
  ℕ, ◌≡◌, ◌≢◌, refl, sym, ap, ◌∙◌, Bool, true, false, not, ◌&&◌, ◌||◌, Option, some, none, List, [],
  ◌∷◌, ◌++◌, Bytes, ◌==◌, nat_equality, if◌then◌else◌, is_empty, all, arith, Bool-cases, inl, inr,
  ==→eq, ==_refl,
}
use passfs.Error.{Error, message}
use passfs.Path.{split, cons_head}
use passfs.Versions.{
  cut, dot_byte, is_valid_identifier, is_identifier_byte, validate_version_identifiers,
}
use passfs.Versions.Numbers.{is_digit, has_leading_zero}

abbrev pub lacks : ℕ → Bytes → Bool
lacks c s = all (λ x. not (x == c)) s

all_head {ℓ} :
    {A : Type ℓ} → (p : A → Bool) (x : A) (xs : List A) → all p (x ∷ xs) ≡ true → p x ≡ true
all_head p x xs h = elim (Bool-cases (p x)) [ inl e ↦ e | inr n ↦ absurd (cc (h, n)) ]

all_tail {ℓ} :
    {A : Type ℓ} → (p : A → Bool) (x : A) (xs : List A) → all p (x ∷ xs) ≡ true → all p xs ≡ true
all_tail p x xs h = elim (Bool-cases (p x)) [ inl e ↦ cc (h, e) | inr n ↦ absurd (cc (h, n)) ]

head_differs : (c x : ℕ) (s : Bytes) → lacks c (x ∷ s) ≡ true → (x == c) ≡ false
head_differs c x s h = elim (Bool-cases (x == c)) [ inl e ↦ absurd (cc (h, e)) | inr n ↦ n ]

tail_lacks : (c x : ℕ) (s : Bytes) → lacks c (x ∷ s) ≡ true → lacks c s ≡ true
tail_lacks c x s h = ground (arith, h)

pub cut-append : (c : ℕ) (a b : Bytes) → lacks c a ≡ true → cut c (a ++ (c ∷ b)) ≡ some (a, b)
unfolding cut
cut-append c [] b h = cc (==_refl c)
cut-append c (x ∷ a) b h = cc (head_differs c x a h, cut-append c a b (tail_lacks c x a h))

pub cut_lacking : (c : ℕ) (a : Bytes) → lacks c a ≡ true → cut c a ≡ none
unfolding cut
cut_lacking c [] h = refl
cut_lacking c (x ∷ a) h = cc (head_differs c x a h, cut_lacking c a (tail_lacks c x a h))

pub split_lacking : (c : ℕ) (a : Bytes) → lacks c a ≡ true → split c a ≡ a ∷ []
unfolding split
split_lacking c [] h = refl
split_lacking c (x ∷ a) h = cc (head_differs c x a h, split_lacking c a (tail_lacks c x a h))

pub split-append : (c : ℕ) (a b : Bytes) → lacks c a ≡ true → split c (a ++ (c ∷ b)) ≡ a ∷ split c b
unfolding split
split-append c [] b h = cc (==_refl c)
split-append c (x ∷ a) b h = cc (head_differs c x a h, split-append c a b (tail_lacks c x a h))

pub lacks-append :
    (c : ℕ) (a b : Bytes) → lacks c a ≡ true → lacks c b ≡ true → lacks c (a ++ b) ≡ true
lacks-append c [] b h k = k
lacks-append c (x ∷ a) b h k = cc (head_differs c x a h, lacks-append c a b (tail_lacks c x a h) k)

-- A text of bytes of one kind lacks a byte that is not of that kind.
pub others_lack :
    (p : ℕ → Bool) (c : ℕ) (s : Bytes) → p c ≡ false → all p s ≡ true → lacks c s ≡ true
others_lack p c [] n h = refl
others_lack p c (x ∷ s) n h = elim (Bool-cases (x == c)) [
  | inl e ↦ absurd (refused (sym (ap p (==→eq x c e)) ∙ all_head p x s h))
  | inr m ↦ cc (m, others_lack p c s n (all_tail p x s h))
]
  where
    refused : p c ≢ true
    refused e = absurd (cc (e, n))

lacks_cons : (c x : ℕ) (s : Bytes) → (x == c) ≡ false → lacks c s ≡ true → lacks c (x ∷ s) ≡ true
lacks_cons c x s n h = cc (n, h)

-- A byte is put before the first piece.
cons_head-lacks :
    (c x : ℕ) (s : Bytes) (ws : List Bytes)
    → (all (lacks c) ws ≡ true → lacks c s ≡ true)
    → all (lacks c) (cons_head x ws) ≡ true
    → lacks c (x ∷ s) ≡ true
cons_head-lacks c x s [] ih h =
    lacks_cons c x s (head_differs c x [] (all_head (lacks c) (x ∷ []) [] h)) (ih refl)
cons_head-lacks c x s (w ∷ ws) ih h =
    lacks_cons c x s (head_differs c x w first)
      (ih (cc (tail_lacks c x w first, all_tail (lacks c) (x ∷ w) ws h)))
  where
    first : lacks c (x ∷ w) ≡ true
    first = all_head (lacks c) (x ∷ w) ws h

-- Texts whose pieces lack a byte, which is not the separator, lack it too.
pub split-lacks :
    (c d : ℕ) (s : Bytes) → (d == c) ≡ false → all (lacks c) (split d s) ≡ true → lacks c s ≡ true
unfolding split
split-lacks c d [] n h = refl
split-lacks c d (x ∷ s) n h = known (x == d) refl (split-lacks c d s n) h
  where
    known :
        (b : Bool)
        → (x == d) ≡ b
        → (all (lacks c) (split d s) ≡ true → lacks c s ≡ true)
        → all (lacks c) (if b then [] ∷ split d s else cons_head x (split d s)) ≡ true
        → lacks c (x ∷ s) ≡ true
    known true e ih k = lacks_cons c x s (ap (λ y. y == c) (==→eq x d e) ∙ n) (ih k)
    known false e ih k = cons_head-lacks c x s (split d s) ih k

-- What is accepted as a prerelease has no plus sign.
pub prerelease_lacks_plus :
    (s : Bytes) → validate_version_identifiers s true ≡ none → lacks b'+' s ≡ true
unfolding validate_version_identifiers
prerelease_lacks_plus s h = split-lacks b'+' dot_byte s refl (pieces (split dot_byte s) valid)
  where
    valid : all (is_valid_identifier true) (split dot_byte s) ≡ true
    valid = accepted (is_empty s) (all (is_valid_identifier true) (split dot_byte s)) h
      where
        accepted :
            (a b : Bool)
            → (if◌then◌else◌ {A = Option Error} (a || not b) (some message) none) ≡ none
            → b ≡ true
        accepted true b k = absurd (cc k)
        accepted false true k = refl
        accepted false false k = absurd (cc k)

    pieces :
        (ws : List Bytes) → all (is_valid_identifier true) ws ≡ true → all (lacks b'+') ws ≡ true
    pieces [] k = refl
    pieces (w ∷ ws) k = cc (
      others_lack is_identifier_byte b'+' w refl (
          bytes (is_empty w) (all is_identifier_byte w)
            (all_head (is_valid_identifier true) w ws k)),
      pieces ws (all_tail (is_valid_identifier true) w ws k),
    )
      where
        bytes :
            (a b : Bool)
            → (not a && b && not (true && all is_digit w && has_leading_zero w)) ≡ true
            → b ≡ true
        bytes true b k = absurd (cc k)
        bytes false true k = refl
        bytes false false k = absurd (cc k)
