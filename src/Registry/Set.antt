-- ===== src/Registry/Set.antt =====
-- The registry is a set of handles (internal/passfs/volume.go: registerOpenHandle,
-- unregisterOpenHandle).
use passfs.Prelude.{
  ◌≡◌, refl, ap, ◌∙◌, ℕ, Bool, true, false, not, ◌&&◌, ◌||◌, none, List, [], ◌∷◌, Bytes, ◌==◌,
  nat_equality, list_equality, if◌then◌else◌, is_empty, is_some, arith, ==→eq, ==_refl, Bool-cases,
  inl, inr,
}
use passfs.Table.{lookup, insert, delete, lookup-insert, lookup-delete}
use passfs.Registry.{
  Registered, Handles, Registry, handles_of, register_open_handle, unregister_open_handle,
}

-- What the registry says of a handle, and one of its calls.
abbrev pub is_registered : Bytes → ℕ → Registry → Bool
is_registered key h t = is_some (lookup h (handles_of (lookup key t)))

pub data Change : Type 0 where
  opens : Bytes → ℕ → Registered → Change
  closes : Bytes → ℕ → Change

unfoldable pub change : Change → Registry → Registry
unfolding register_open_handle unregister_open_handle
change (opens key h r) t = register_open_handle key h r t
change (closes key h) t = unregister_open_handle key h t

unfoldable pub changes : List Change → Registry → Registry
unfolding change
changes [] t = t
changes (c ∷ cs) t = changes cs (change c t)

-- What a set of pairs of a key and a handle would say instead, which was asked `known` at first.
unfoldable pub was_opened : Bytes → ℕ → List Change → Bool → Bool
was_opened key h [] known = known
was_opened key h (opens k i r ∷ cs) known = was_opened key h cs (k == key && i == h || known)
was_opened key h (closes k i ∷ cs) known = was_opened key h cs (not (k == key && i == h) && known)

opens-registered :
    (key k : Bytes) (h i : ℕ) (r : Registered) (t : Registry)
    → is_registered key h (register_open_handle k i r t)
      ≡ (k == key && i == h || is_registered key h t)
unfolding register_open_handle
opens-registered key k h i r t = elim (Bool-cases (k == key)) [
  | inl e ↦ rw (==→eq k key e) (
      ground (
        arith,
        lookup-insert key key (insert i r (handles_of (lookup key t))) t,
        lookup-insert i h r (handles_of (lookup key t)),
        ==_refl key,
      ))
  | inr n ↦ ground (arith, lookup-insert k key (insert i r (handles_of (lookup k t))) t, n)
]

lookup_gone : (h : ℕ) (hs : Handles) → is_empty hs ≡ true → lookup h hs ≡ none
unfolding lookup
lookup_gone h [] e = refl
lookup_gone h (x ∷ hs) e = absurd (cc e)

closes-registered :
    (key k : Bytes) (h i : ℕ) (t : Registry)
    → is_registered key h (unregister_open_handle k i t)
      ≡ (not (k == key && i == h) && is_registered key h t)
unfolding unregister_open_handle
closes-registered key k h i t = known (is_empty left) refl
  where
    left : Handles
    left = delete i (handles_of (lookup k t))

    gone :
        (k == key) ≡ true
        → is_some (lookup h left) ≡ (not (k == key && i == h) && is_registered key h t)
    gone e =
        rw (==→eq k key e)
          (ground (arith, lookup-delete i h (handles_of (lookup key t)), ==_refl key))

    known :
        (b : Bool)
        → is_empty left ≡ b
        → is_registered key h (if b then delete k t else insert k left t)
          ≡ (not (k == key && i == h) && is_registered key h t)
    known true e = elim (Bool-cases (k == key)) [
      | inl s ↦ ground (arith, lookup-delete k key t, s, gone s, lookup_gone h left e)
      | inr n ↦ ground (arith, lookup-delete k key t, n)
    ]
    known false e = elim (Bool-cases (k == key)) [
      | inl s ↦ ground (arith, lookup-insert k key left t, s, gone s)
      | inr n ↦ ground (arith, lookup-insert k key left t, n)
    ]

-- After any openings and closings, the registry knows just the handles that a set of pairs of a key and a
-- handle would hold: those whose last change was an opening, or that it knew before and that had none.
pub changes-was_opened :
    (key : Bytes) (h : ℕ) (cs : List Change) (t : Registry)
    → is_registered key h (changes cs t) ≡ was_opened key h cs (is_registered key h t)
unfolding changes was_opened
changes-was_opened key h [] t = refl
changes-was_opened key h (opens k i r ∷ cs) t =
    changes-was_opened key h cs (register_open_handle k i r t)
    ∙ ap (was_opened key h cs) (opens-registered key k h i r t)
changes-was_opened key h (closes k i ∷ cs) t =
    changes-was_opened key h cs (unregister_open_handle k i t)
    ∙ ap (was_opened key h cs) (closes-registered key k h i t)
