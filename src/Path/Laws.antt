-- ===== src/Path/Laws.antt =====
-- Cleaned paths: their elements, and that cleaning twice is cleaning once.
use passfs.Prelude.{
  ==→ne, ne→==, ℕ, ◌≡◌, refl, sym, ap, ◌≢◌, ◌⊎◌, inl, inr, Bool, true, false, List, [], ◌∷◌, ◌++◌,
  Bytes, slash, ◌==◌, nat_equality, list_equality, list_beq, All, All-append, arith, Bool-cases,
}
use mathlib.Core.List.{reverse, reverse-append, append-nil}
use passfs.Path.Clean.{
  split, join, clean_step, clean_loop, components, clean, dot, dotdot, is_abs, pop, render,
  cons_head,
}

-- No slash in it.
abbrev pub IsFlat : Bytes → Type 0
IsFlat = All (λ c. c ≢ slash)

-- An element that `clean` keeps as it is.
abbrev pub IsName : Bytes → Type 0
IsName w = (w ≢ []) × (w ≢ dot) × IsFlat w

-- What the loop keeps: names, with ".." only at the start of a path that is not absolute.
abbrev pub IsStack : Bool → List Bytes → Type 0
IsStack rooted [] = Unit
IsStack rooted (w ∷ ws) =
    ((w ≡ dotdot) × (rooted ≡ false) × All (λ u. u ≡ dotdot) ws)
    ⊎ ((w ≢ dotdot) × IsName w × IsStack rooted ws)

cons_head-IsFlat :
    (x : ℕ) (ws : List Bytes) → x ≢ slash → All IsFlat ws → All IsFlat (cons_head x ws)
cons_head-IsFlat x [] n h = ((n, tt), tt)
cons_head-IsFlat x (w ∷ ws) n h = ((n, h.0), h.1)

pub split-IsFlat : (p : Bytes) → All IsFlat (split slash p)
unfolding split
split-IsFlat [] = (tt, tt)
split-IsFlat (x ∷ xs) = elim (Bool-cases (x == slash)) [
  | inl e ↦ rw e (tt, split-IsFlat xs)
  | inr e ↦ rw e (cons_head-IsFlat x (split slash xs) (ground arith) (split-IsFlat xs))
]

All-ups-IsStack : (ws : List Bytes) → All (λ u. u ≡ dotdot) ws → IsStack false ws
All-ups-IsStack [] h = tt
All-ups-IsStack (w ∷ ws) h = inl (h.0, refl, h.1)

dotdot-IsName : IsName dotdot
dotdot-IsName = ((λ p. cc), (λ p. cc), ((omega arith), ((omega arith), tt)))

pop-IsStack : (rooted : Bool) (ws : List Bytes) → IsStack rooted ws → IsStack rooted (pop rooted ws)
unfolding list_beq
pop-IsStack true [] h = tt
pop-IsStack false [] h = inl (refl, refl, tt)
pop-IsStack rooted (w ∷ ws) (inl h) = rw h.0 (inl (refl, h.1, (refl, h.2)))
pop-IsStack rooted (w ∷ ws) (inr h) = rw (ne→== w dotdot h.0) h.2

clean_step-IsStack :
    (rooted : Bool) (out : List Bytes) (w : Bytes)
    → IsFlat w
    → IsStack rooted out
    → IsStack rooted (clean_step rooted out w)
unfolding clean_step
clean_step-IsStack rooted out w f h = elim (Bool-cases (w == [])) [
  | inl e ↦ rw e h
  | inr n ↦ rw n (elim (Bool-cases (w == dot)) [
    | inl e ↦ rw e h
    | inr m ↦ rw m (elim (Bool-cases (w == dotdot)) [
      | inl e ↦ rw e (pop-IsStack rooted out h)
      | inr k ↦ rw k (inr (==→ne w dotdot k, (==→ne w [] n, ==→ne w dot m, f), h))
    ])
  ])
]

pub clean_loop-IsStack :
    (rooted : Bool) (out ws : List Bytes)
    → All IsFlat ws
    → IsStack rooted out
    → IsStack rooted (clean_loop rooted out ws)
unfolding clean_loop
clean_loop-IsStack rooted out [] f h = h
clean_loop-IsStack rooted out (w ∷ ws) f h =
    clean_loop-IsStack rooted (clean_step rooted out w) ws f.1
      (clean_step-IsStack rooted out w f.0 h)

pub clean_loop-append :
    (rooted : Bool) (out xs ys : List Bytes)
    → clean_loop rooted out (xs ++ ys) ≡ clean_loop rooted (clean_loop rooted out xs) ys
unfolding clean_loop
clean_loop-append rooted out [] ys = refl
clean_loop-append rooted out (x ∷ xs) ys = clean_loop-append rooted (clean_step rooted out x) xs ys

-- A name is pushed.
pub clean_step-name :
    (rooted : Bool) (out : List Bytes) (w : Bytes)
    → IsName w
    → w ≢ dotdot
    → clean_step rooted out w ≡ w ∷ out
unfolding clean_step
clean_step-name rooted out w n d = rw (ne→== w [] n.0, ne→== w dot n.1, ne→== w dotdot d)

clean_step-ups :
    (ups : List Bytes) → All (λ u. u ≡ dotdot) ups → clean_step false ups dotdot ≡ dotdot ∷ ups
unfolding clean_step list_beq
clean_step-ups [] h = refl
clean_step-ups (u ∷ us) h = rw h.0

clean_step-head :
    (rooted : Bool) (w : Bytes) (ws : List Bytes)
    → IsStack rooted (w ∷ ws)
    → clean_step rooted ws w ≡ w ∷ ws
clean_step-head rooted w ws (inl h) = rw (h.0, h.1) (clean_step-ups ws h.2)
clean_step-head rooted w ws (inr h) = clean_step-name rooted ws w h.1 h.0

IsStack-tail :
    (rooted : Bool) (w : Bytes) (ws : List Bytes) → IsStack rooted (w ∷ ws) → IsStack rooted ws
IsStack-tail rooted w ws (inl h) = rw h.1 (All-ups-IsStack ws h.2)
IsStack-tail rooted w ws (inr h) = h.2

-- Running the loop on what it kept changes nothing.
pub clean_loop-reverse :
    (rooted : Bool) (out : List Bytes)
    → IsStack rooted out
    → clean_loop rooted [] (reverse out) ≡ out
unfolding clean_loop
clean_loop-reverse rooted [] h = refl
clean_loop-reverse rooted (w ∷ ws) h = rw (reverse-append (w ∷ []) ws) (
    rw (clean_loop-append rooted [] (reverse ws) (w ∷ [])) (
      rw (clean_loop-reverse rooted ws (IsStack-tail rooted w ws h))
        (clean_step-head rooted w ws h)))

IsFlat-split_join :
    (w : Bytes) (rest : Bytes) → IsFlat w → split slash (w ++ (slash ∷ rest)) ≡ w ∷ split slash rest
unfolding split
IsFlat-split_join [] rest h = refl
IsFlat-split_join (x ∷ xs) rest h = rw (IsFlat-split_join xs rest h.1) (rw (ne→== x slash h.0))

split_single : (w : Bytes) → IsFlat w → split slash w ≡ w ∷ []
unfolding split
split_single [] h = refl
split_single (x ∷ xs) h = rw (split_single xs h.1) (rw (ne→== x slash h.0))

-- Splitting undoes joining.
pub split-join :
    (w : Bytes) (ws : List Bytes) → All IsFlat (w ∷ ws) → split slash (join slash (w ∷ ws)) ≡ w ∷ ws
unfolding join
split-join w [] h = split_single w h.0
split-join w (v ∷ ws) h =
    rw (IsFlat-split_join w (join slash (v ∷ ws)) h.0)
      (ap (λ (r : List Bytes). w ∷ r) (split-join v ws h.1))

IsStack-names : (rooted : Bool) (ws : List Bytes) → IsStack rooted ws → All IsName ws
IsStack-names rooted [] h = tt
IsStack-names rooted (w ∷ ws) (inl h) =
    (rw h.0 dotdot-IsName, IsStack-names false ws (All-ups-IsStack ws h.2))
IsStack-names rooted (w ∷ ws) (inr h) = (h.1, IsStack-names rooted ws h.2)

pub All-reverse {ℓ κ} : {A : Type ℓ} (P : A → Type κ) (xs : List A) → All P xs → All P (reverse xs)
All-reverse P [] h = tt
All-reverse P (x ∷ xs) h =
    rw (reverse-append (x ∷ []) xs)
      (All-append P (reverse xs) (x ∷ []) (All-reverse P xs h.1) (h.0, tt))

unfoldable pub loop : Bytes → List Bytes
loop p = clean_loop (is_abs p) [] (split slash p)

pub loop-IsStack : (p : Bytes) → IsStack (is_abs p) (loop p)
unfolding loop
loop-IsStack p = clean_loop-IsStack (is_abs p) [] (split slash p) (split-IsFlat p) tt

pub components-loop : (p : Bytes) → components p ≡ reverse (loop p)
unfolding components loop
components-loop p = refl

-- The elements of a cleaned path are names.
pub components-names : (p : Bytes) → All IsName (components p)
components-names p =
    rw (components-loop p)
      (All-reverse IsName (loop p) (IsStack-names (is_abs p) (loop p) (loop-IsStack p)))

pub All-IsName-IsFlat : (ws : List Bytes) → All IsName ws → All IsFlat ws
All-IsName-IsFlat [] h = tt
All-IsName-IsFlat (w ∷ ws) h = (h.0.2, All-IsName-IsFlat ws h.1)

pub is_abs-name : (w rest : Bytes) → IsName w → is_abs (w ++ rest) ≡ false
is_abs-name [] rest n = absurd (n.0 refl)
is_abs-name (x ∷ xs) rest n = ne→== x slash n.2.0

is_abs-render :
    (rooted : Bool) (ws : List Bytes) → All IsName ws → is_abs (render rooted ws) ≡ rooted
unfolding join
is_abs-render true ws h = refl
is_abs-render false [] h = refl
is_abs-render false (w ∷ []) h = rw (← append-nil w) (is_abs-name w [] h.0)
is_abs-render false (w ∷ v ∷ ws) h = is_abs-name w (slash ∷ join slash (v ∷ ws)) h.0

pub is_abs-clean : (p : Bytes) → is_abs (clean p) ≡ is_abs p
unfolding clean
is_abs-clean p = is_abs-render (is_abs p) (components p) (components-names p)

-- What the loop makes of a cleaned path's text is what it makes of the elements.
clean_loop-render :
    (rooted : Bool) (out ws : List Bytes)
    → All IsName ws
    → clean_loop rooted out (split slash (render rooted ws)) ≡ clean_loop rooted out ws
clean_loop-render true out [] h = unfold clean_loop clean_step split join list_beq in refl
clean_loop-render true out (w ∷ ws) h = rw (split_slash (join slash (w ∷ ws))) (
    rw (split-join w ws (All-IsName-IsFlat (w ∷ ws) h))
      (unfold clean_loop clean_step list_beq in refl))
  where
    split_slash : (r : Bytes) → split slash (slash ∷ r) ≡ [] ∷ split slash r
    split_slash r = unfold split in refl
clean_loop-render false out [] h = unfold clean_loop clean_step split list_beq in refl
clean_loop-render false out (w ∷ ws) h = rw (split-join w ws (All-IsName-IsFlat (w ∷ ws) h))

-- Cleaning a path does not change its elements.
pub components-clean : (p : Bytes) → components (clean p) ≡ components p
components-clean p = rw (components-loop (clean p)) (rw (loop_clean p) (rw (components-loop p)))
  where
    loop_clean : (q : Bytes) → loop (clean q) ≡ loop q
    loop_clean q =
        unfold loop in
        rw (is_abs-clean q) (
          unfold clean in
          rw (clean_loop-render (is_abs q) [] (components q) (components-names q)) (
            unfold components in
            clean_loop-reverse (is_abs q) (clean_loop (is_abs q) [] (split slash q))
              (unfold loop in loop-IsStack q)))

-- Cleaning twice is cleaning once, so a metadata key is its own key.
pub clean-clean : (p : Bytes) → clean (clean p) ≡ clean p
clean-clean p = rw (clean_lem (clean p), is_abs-clean p, components-clean p) (sym (clean_lem p))
  where
    clean_lem : (q : Bytes) → clean q ≡ render (is_abs q) (components q)
    clean_lem q = unfold clean in refl
