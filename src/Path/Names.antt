-- ===== src/Path/Names.antt =====
-- Paths put together of plain names are already clean (filepath.Clean).
use passfs.Prelude.{
  sym, ap, ◌∙◌, subst, ◌≡◌, ◌≢◌, refl, Bool, false, List, [], ◌∷◌, ◌++◌, Bytes, slash, All,
  nat_equality, list_equality,
}
use mathlib.Core.List.{reverse, reverse-append, append-nil, append_assoc, reverse-reverse}
use passfs.Path.Clean.{join, clean_loop, components, clean, dotdot, is_abs, render}
use passfs.Path.Laws.{IsName, clean_step-name, split-join, All-IsName-IsFlat, is_abs-name}

-- A name that is not "..".
abbrev pub IsProperName : Bytes → Type 0
IsProperName w = IsName w × (w ≢ dotdot)

All-names : (ws : List Bytes) → All IsProperName ws → All IsName ws
All-names [] h = tt
All-names (w ∷ ws) h = (h.0.0, All-names ws h.1)

clean_loop-names :
    (rooted : Bool) (out ws : List Bytes)
    → All IsProperName ws
    → clean_loop rooted out ws ≡ reverse ws ++ out
unfolding clean_loop
clean_loop-names rooted out [] h = refl
clean_loop-names rooted out (w ∷ ws) h =
    ap (λ o. clean_loop rooted o ws) (clean_step-name rooted out w h.0.0 h.0.1)
    ∙ clean_loop-names rooted (w ∷ out) ws h.1
    ∙ (sym (append_assoc (reverse ws) (w ∷ []) out)
        ∙ ap (λ (r : List Bytes). r ++ out) (sym (reverse-append (w ∷ []) ws)))

join-is_abs : (w : Bytes) (ws : List Bytes) → IsName w → is_abs (join slash (w ∷ ws)) ≡ false
unfolding join
join-is_abs w [] n = subst (λ x. is_abs x ≡ false) (append-nil w) (is_abs-name w [] n)
join-is_abs w (v ∷ ws) n = is_abs-name w (slash ∷ join slash (v ∷ ws)) n

pub components-join :
    (w : Bytes) (ws : List Bytes)
    → All IsProperName (w ∷ ws)
    → components (join slash (w ∷ ws)) ≡ w ∷ ws
unfolding components
components-join w ws h =
    ap (λ r. reverse (clean_loop (is_abs (join slash (w ∷ ws))) [] r))
      (split-join w ws (All-IsName-IsFlat (w ∷ ws) (All-names (w ∷ ws) h)))
    ∙ ap reverse (
        clean_loop-names (is_abs (join slash (w ∷ ws))) [] (w ∷ ws) h
        ∙ append-nil (reverse (w ∷ ws)))
    ∙ reverse-reverse (w ∷ ws)

pub clean-join :
    (w : Bytes) (ws : List Bytes)
    → All IsProperName (w ∷ ws)
    → clean (join slash (w ∷ ws)) ≡ join slash (w ∷ ws)
unfolding clean
clean-join w ws h =
    ap (λ b. render b (components (join slash (w ∷ ws)))) (join-is_abs w ws h.0.0)
    ∙ ap (render false) (components-join w ws h)
