-- ===== src/Path/Within.antt =====
-- The paths that a volume opens stay below its root (internal/passfs/volume.go:
-- validateRelativePath, directoryPath; internal/passfs/path.go: PathWithin).
use passfs.Prelude.{
  Option-cases, ==_refl, ◌≡◌, refl, sym, ◌≢◌, ◌⊎◌, inl, inr, Bool, true, false, ◌||◌, none, List,
  [], ◌∷◌, ◌++◌, Bytes, slash, ◌==◌, nat_equality, list_equality, list_beq, All, All-append, arith,
  Bool-cases, ==→eq,
}
use mathlib.Core.List.{reverse-reverse, append-nil, reverse, reverse-append, append_assoc}
use passfs.Path.Clean.{join, clean_loop, components, clean, dot, dotdot, is_abs, render}
use passfs.Path.Child.{split-append}
use passfs.Path.Laws.{
  components-clean, components-names, clean_loop-append, All-IsName-IsFlat, is_abs-clean,
  split-join, IsName, IsStack, clean_step-name, components-loop, loop, loop-IsStack,
}
use passfs.Path.{
  some, Error, ok, directory_path, path_within, clean_step, join_path, ℕ, split, has_prefix,
  validate_relative_path,
}

-- An element other than "..".
abbrev pub IsBelow : Bytes → Type 0
IsBelow w = w ≢ dotdot

reverse-ups :
    (ws : List Bytes)
    → All (λ u. u ≡ dotdot) ws
    → (rest : List Bytes) × (reverse (dotdot ∷ ws) ≡ dotdot ∷ rest)
reverse-ups [] h = ([], refl)
reverse-ups (w ∷ ws) h =
    let (rest, e) = reverse-ups ws h.1 in
    (rest ++ dotdot ∷ [], rw (h.0, reverse-append (dotdot ∷ []) (dotdot ∷ ws)) (rw e))

-- Either no element of a cleaned path is "..", or the first one is.
ups_first :
    (rooted : Bool) (out : List Bytes)
    → IsStack rooted out
    → All IsBelow out ⊎ ((rest : List Bytes) × (rooted ≡ false) × (reverse out ≡ dotdot ∷ rest))
ups_first rooted [] h = inl tt
ups_first rooted (w ∷ ws) (inl h) = let (rest, e) = reverse-ups ws h.2 in inr (rest, h.1, rw h.0 e)
ups_first rooted (w ∷ ws) (inr h) = elim (ups_first rooted ws h.2) [
  | inl k ↦ inl (h.0, k)
  | inr (rest, f, e) ↦ inr (rest ++ w ∷ [], f, rw (reverse-append (w ∷ []) ws) (rw e))
]

-- The test of validateRelativePath for an escaping path.
escapes : Bytes → Bool
escapes cleaned = cleaned == dotdot || has_prefix cleaned (dotdot ++ (slash ∷ []))

escapes-dotdot : (rest : List Bytes) → escapes (render false (dotdot ∷ rest)) ≡ true
unfolding escapes has_prefix join list_beq
escapes-dotdot [] = refl
escapes-dotdot (w ∷ ws) = refl

All-reverse-IsBelow : (ws : List Bytes) → All IsBelow ws → All IsBelow (reverse ws)
All-reverse-IsBelow [] h = tt
All-reverse-IsBelow (w ∷ ws) h =
    rw (reverse-append (w ∷ []) ws)
      (All-append IsBelow (reverse ws) (w ∷ []) (All-reverse-IsBelow ws h.1) (h.0, tt))

components-IsBelow : (p : Bytes) → escapes (clean p) ≡ false → All IsBelow (components p)
unfolding clean
components-IsBelow p h = elim (ups_first (is_abs p) (loop p) (loop-IsStack p)) [
  | inl k ↦ rw (components-loop p) (All-reverse-IsBelow (loop p) k)
  | inr (rest, f, e) ↦ cc (rw (components-loop p, f, e) at h, escapes-dotdot rest)
]

escapes-dot : escapes dot ≡ false
unfolding escapes has_prefix list_beq
escapes-dot = refl

clean-small : (r : Bytes) → (r == [] || r == dot) ≡ true → clean r ≡ dot
unfolding list_beq
clean-small [] h = unfold clean components in refl
clean-small (x ∷ []) h = rw (==→eq x b'.' (ground arith)) (unfold clean components in refl)
clean-small (x ∷ y ∷ r) h = absurd (ground arith)

not_escapes_of_valid : (r : Bytes) → validate_relative_path r ≡ none → escapes (clean r) ≡ false
unfolding validate_relative_path
not_escapes_of_valid r h = elim (Bool-cases (r == [] || r == dot)) [
  | inl e ↦ rw (clean-small r e) escapes-dot
  | inr n ↦ unfold escapes in ground arith
]

not_abs_of_valid : (r : Bytes) → validate_relative_path r ≡ none → is_abs r ≡ false
unfolding validate_relative_path
not_abs_of_valid r h = elim (Bool-cases (r == [] || r == dot)) [
  | inl e ↦ small r e
  | inr n ↦ ground arith
]
  where
    small : (q : Bytes) → (q == [] || q == dot) ≡ true → is_abs q ≡ false
    small [] e = refl
    small (x ∷ []) e = unfold list_beq in ground arith
    small (x ∷ y ∷ q) e = absurd (unfold list_beq in ground arith)

-- A validated path is relative, and none of its cleaned elements is "..".
pub validate_relative_path-IsBelow :
    (r : Bytes) → validate_relative_path r ≡ none → All IsBelow (components r) × (is_abs r ≡ false)
validate_relative_path-IsBelow r h =
    (components-IsBelow r (not_escapes_of_valid r h), not_abs_of_valid r h)

clean_loop-below :
    (rooted : Bool) (out ws : List Bytes)
    → All IsName ws
    → All IsBelow ws
    → clean_loop rooted out ws ≡ reverse ws ++ out
unfolding clean_loop
clean_loop-below rooted out [] n b = refl
clean_loop-below rooted out (w ∷ ws) n b = rw (clean_step-name rooted out w n.0 b.0) (
    rw (clean_loop-below rooted (w ∷ out) ws n.1 b.1)
      (rw (reverse-append (w ∷ []) ws) (sym (append_assoc (reverse ws) (w ∷ []) out))))

-- What the loop makes of a relative cleaned path's text: its elements, pushed in order.
clean_loop-relative :
    (rooted : Bool) (out ws : List Bytes)
    → All IsName ws
    → All IsBelow ws
    → clean_loop rooted out (split slash (render false ws)) ≡ reverse ws ++ out
clean_loop-relative rooted out [] n b = unfold clean_loop clean_step split list_beq in refl
clean_loop-relative rooted out (w ∷ ws) n b =
    rw (split-join w ws (All-IsName-IsFlat (w ∷ ws) n)) (clean_loop-below rooted out (w ∷ ws) n b)

-- The elements of `root/relative` are those of the root, then those of the relative path.
pub components-join_path :
    (x : ℕ) (a r : Bytes)
    → is_abs r ≡ false
    → All IsBelow (components r)
    → components (join_path (x ∷ a) (clean r)) ≡ components (x ∷ a) ++ components r
components-join_path x a r f b =
    unfold join_path in
    rw (components-clean ((x ∷ a) ++ (slash ∷ clean r))) (
      rw (components-loop ((x ∷ a) ++ (slash ∷ clean r)), components-loop (x ∷ a))
        (rw (loop_join) (
          rw (
            reverse-append (reverse (components r)) (loop (x ∷ a)),
            reverse-reverse (components r),
          ))))
  where
    loop_join : loop ((x ∷ a) ++ (slash ∷ clean r)) ≡ reverse (components r) ++ loop (x ∷ a)
    loop_join =
        unfold loop in
        rw
          (
            split-append (x ∷ a) (clean r),
            clean_loop-append (x == slash) [] (split slash (x ∷ a)) (split slash (clean r)),
          )
          (unfold clean in
            rw f (
              clean_loop-relative (x == slash) (clean_loop (x == slash) [] (split slash (x ∷ a)))
                (components r) (components-names r) b))

has_prefix-append : (a b : Bytes) → has_prefix (a ++ b) a ≡ true
unfolding has_prefix
has_prefix-append [] b = refl
has_prefix-append (x ∷ a) b = rw (==_refl x) (has_prefix-append a b)

join-append :
    (w v : Bytes) (ws vs : List Bytes)
    → join slash ((w ∷ ws) ++ (v ∷ vs)) ≡ join slash (w ∷ ws) ++ (slash ∷ join slash (v ∷ vs))
unfolding join
join-append w v [] vs = refl
join-append w v (u ∷ ws) vs =
    rw (join-append u v ws vs)
      (sym (append_assoc w (slash ∷ join slash (u ∷ ws)) (slash ∷ join slash (v ∷ vs))))

is_abs-join_path : (x : ℕ) (a b : Bytes) → is_abs (join_path (x ∷ a) b) ≡ (x == slash)
unfolding join_path
is_abs-join_path x a b = is_abs-clean ((x ∷ a) ++ (slash ∷ b))

prefix_of_elements :
    (rooted : Bool) (ws vs : List Bytes)
    → ws ≢ []
    → (render rooted ws == render rooted (ws ++ vs)
        || has_prefix (render rooted (ws ++ vs)) (render rooted ws ++ (slash ∷ [])))
      ≡ true
prefix_of_elements rooted [] vs h = absurd (h refl)
prefix_of_elements rooted (w ∷ ws) [] h = rw (append-nil ws, ==_refl (render rooted (w ∷ ws)))
prefix_of_elements rooted (w ∷ ws) (v ∷ vs) h =
    let longer : has_prefix (render rooted ((w ∷ ws) ++ (v ∷ vs)))
          (render rooted (w ∷ ws) ++ (slash ∷ []))
        ≡ true =
      extend rooted in
    ground (arith, longer)
  where
    regroup : (t : Bytes) (r : Bytes) → t ++ (slash ∷ r) ≡ (t ++ (slash ∷ [])) ++ r
    regroup t r = sym (append_assoc t (slash ∷ []) r)

    extend :
        (b : Bool)
        → has_prefix (render b ((w ∷ ws) ++ (v ∷ vs))) (render b (w ∷ ws) ++ (slash ∷ [])) ≡ true
    extend true =
        rw (join-append w v ws vs, regroup (slash ∷ join slash (w ∷ ws)) (join slash (v ∷ vs)))
          (has_prefix-append ((slash ∷ join slash (w ∷ ws)) ++ (slash ∷ [])) (join slash (v ∷ vs)))
    extend false =
        rw (join-append w v ws vs, regroup (join slash (w ∷ ws)) (join slash (v ∷ vs)))
          (has_prefix-append (join slash (w ∷ ws) ++ (slash ∷ [])) (join slash (v ∷ vs)))

path_within-elements :
    (root p : Bytes) (vs : List Bytes)
    → is_abs p ≡ is_abs root
    → components p ≡ components root ++ vs
    → components root ≢ []
    → path_within root p ≡ true
unfolding path_within clean
path_within-elements root p vs f e h =
    rw (f, e) (prefix_of_elements (is_abs root) (components root) vs h)

rejected :
    (root r p : Bytes) (e : Error)
    → validate_relative_path r ≡ some e
    → directory_path root r ≡ ok p
    → ⊥
unfolding directory_path
rejected root r p e v h = ground arith

-- The directory that a volume opens for a virtual path lies in the volume's root: it has the
-- root's elements and then the path's, none of them "..", and PathWithin accepts it. The root is
-- a non-empty path other than "/" and ".".
pub directory_path_within :
    (x : ℕ) (a r p : Bytes)
    → directory_path (x ∷ a) r ≡ ok p
    → components (x ∷ a) ≢ []
    → (components p ≡ components (x ∷ a) ++ components r)
      × All IsBelow (components r)
      × (path_within (x ∷ a) p ≡ true)
unfolding directory_path
directory_path_within x a r p h n = elim (Option-cases (validate_relative_path r)) [
  | inr (e, v) ↦ absurd (rejected (x ∷ a) r p e v h)
  | inl v ↦
      let (b, f) = validate_relative_path-IsBelow r v in
      let q : join_path (x ∷ a) (clean r) ≡ p = ground arith in
      let c : components p ≡ components (x ∷ a) ++ components r =
        rw (← q) (components-join_path x a r f b) in
      (
        c,
        b,
        path_within-elements (x ∷ a) p (components r) (rw (← q) (is_abs-join_path x a (clean r))) c
            n,
      )
]
