-- ===== src/Path/Child.antt =====
-- The path of a name in a directory, however the directory is written (filepath.Join, filepath.Clean).
use passfs.Prelude.{
  ap, sym, ◌∙◌, ◌≡◌, ◌≢◌, refl, List, [], ◌∷◌, ◌++◌, Bytes, slash, nat_equality, ◌==◌, Bool-cases,
  inl, inr, ℕ,
}
use mathlib.Core.List.{reverse, reverse-append}
use passfs.Path.Clean.{split, cons_head, join, clean_loop, components, clean, is_abs, render}
use passfs.Path.Laws.{
  IsFlat, clean_step-name, clean_loop-append, split-join, components-clean, is_abs-clean,
}
use passfs.Path.Names.{IsProperName}

cons_head-append :
    (x : ℕ) (ws vs : List Bytes) → ws ≢ [] → cons_head x (ws ++ vs) ≡ cons_head x ws ++ vs
cons_head-append x [] vs n = absurd (n refl)
cons_head-append x (w ∷ ws) vs n = refl

split_cons : (c : ℕ) (p : Bytes) → split c p ≢ []
unfolding split
split_cons c [] = λ e. cc e
split_cons c (x ∷ p) = elim (Bool-cases (x == c)) [
  | inl e ↦ rw e (λ f. cc f)
  | inr e ↦ rw e (head (split c p))
]
  where
    head : (ws : List Bytes) → cons_head x ws ≢ []
    head [] = λ f. cc f
    head (w ∷ ws) = λ f. cc f

pub split-append : (p q : Bytes) → split slash (p ++ (slash ∷ q)) ≡ split slash p ++ split slash q
unfolding split
split-append [] q = refl
split-append (x ∷ p) q = elim (Bool-cases (x == slash)) [
  | inl e ↦ rw e (ap ([] ∷◌) (split-append p q))
  | inr e ↦ rw e (
      ap (cons_head x) (split-append p q)
      ∙ cons_head-append x (split slash p) (split slash q) (split_cons slash p))
]

split_flat : (w : Bytes) → IsFlat w → split slash w ≡ w ∷ []
split_flat w f = unfold join in split-join w [] (f, tt)

pub is_abs-append : (p q : Bytes) → p ≢ [] → is_abs (p ++ q) ≡ is_abs p
is_abs-append [] q n = absurd (n refl)
is_abs-append (x ∷ p) q n = refl

-- The elements of a name in a directory: the directory's, and the name.
pub components-child :
    (p w : Bytes)
    → p ≢ []
    → IsProperName w
    → components (p ++ (slash ∷ w)) ≡ components p ++ (w ∷ [])
unfolding components
components-child p w n h =
    ap (λ b. reverse (clean_loop b [] (split slash (p ++ (slash ∷ w)))))
      (is_abs-append p (slash ∷ w) n)
    ∙ ap (λ r. reverse (clean_loop (is_abs p) [] r))
        (split-append p w ∙ ap (split slash p ++◌) (split_flat w h.0.2))
    ∙ ap reverse (clean_loop-append (is_abs p) [] (split slash p) (w ∷ []) ∙ step)
    ∙ reverse-append (w ∷ []) (clean_loop (is_abs p) [] (split slash p))
  where
    step :
        clean_loop (is_abs p) (clean_loop (is_abs p) [] (split slash p)) (w ∷ [])
        ≡ w ∷ clean_loop (is_abs p) [] (split slash p)
    step =
        unfold clean_loop in
        clean_step-name (is_abs p) (clean_loop (is_abs p) [] (split slash p)) w h.0 h.1

-- A cleaned child, from the directory's root mark and elements.
clean_child :
    (p w : Bytes)
    → p ≢ []
    → IsProperName w
    → clean (p ++ (slash ∷ w)) ≡ render (is_abs p) (components p ++ (w ∷ []))
unfolding clean
clean_child p w n h =
    ap (λ b. render b (components (p ++ (slash ∷ w)))) (is_abs-append p (slash ∷ w) n)
    ∙ ap (render (is_abs p)) (components-child p w n h)

-- A name in a directory that is written in any way is the name in the cleaned one.
pub clean-child :
    (p d w : Bytes)
    → p ≢ []
    → d ≢ []
    → IsProperName w
    → clean p ≡ clean d
    → clean (p ++ (slash ∷ w)) ≡ clean (d ++ (slash ∷ w))
clean-child p d w n m h e =
    clean_child p w n h
    ∙ ap (λ b. render b (components p ++ (w ∷ [])))
        (sym (is_abs-clean p) ∙ ap is_abs e ∙ is_abs-clean d)
    ∙ ap (λ ws. render (is_abs d) (ws ++ (w ∷ [])))
        (sym (components-clean p) ∙ ap components e ∙ components-clean d)
    ∙ sym (clean_child d w m h)
