-- ===== src/Registry/Choice.antt =====
-- Which open handle gets a change by path (internal/passfs/volume.go: writableOpenHandle).
use passfs.Prelude.{
  ◌≢◌, ==→ne, ◌≡◌, ◌⊎◌, refl, sym, ap, ◌∙◌, subst, ℕ, Bool, true, false, ◌&&◌, ◌||◌, Option, some,
  [], ◌∷◌, Bytes, ◌==◌, nat_equality, list_equality, if◌then◌else◌, any, length, arith, ==→eq,
  ==_refl, inl, inr,
}
use passfs.Table.{lookup}
use passfs.Process.{Machine}
use passfs.Registry.{
  Registered, Handles, Registry, handles_of, candidates, is_related, only, first_related,
  writable_open_handle,
}

-- A handle `h` that may write and whose owner passes a test.
abbrev pub is_choice : (ℕ → Bool) → ℕ → ℕ × Registered → Bool
is_choice test h (i, r) = i == h && r.writable && test r.pid

chosen : (a b c d : Bool) → a ≡ true → b ≡ true → c ≡ true → (a && b && c || d) ≡ true
chosen a b c d p q r = ground arith

passed : (a b c d : Bool) → d ≡ true → (a && b && c || d) ≡ true
passed a b c d p = ground arith

first_related_lem :
    (m : Machine) (owner h : ℕ) (hs : Handles)
    → first_related m owner (candidates hs) ≡ some h
    → any (is_choice (is_related m owner) h) hs ≡ true
unfolding first_related candidates
first_related_lem m owner h [] e = absurd (cc e)
first_related_lem m owner h ((i, r) ∷ hs) e =
    known r.writable (is_related m owner r.pid) refl refl e (first_related_lem m owner h hs)
  where
    picked : Option ℕ → Bool → Option ℕ
    picked rest x = if x then some i else rest

    known :
        (b c : Bool)
        → r.writable ≡ b
        → is_related m owner r.pid ≡ c
        → first_related m owner
            (if◌then◌else◌ {A = Handles} b ((i, r) ∷ candidates hs) (candidates hs))
          ≡ some h
        → (first_related m owner (candidates hs) ≡ some h
            → any (is_choice (is_related m owner) h) hs ≡ true)
        → (i == h && r.writable && is_related m owner r.pid
            || any (is_choice (is_related m owner) h) hs)
          ≡ true
    known false c p q k later = passed (i == h) r.writable (is_related m owner r.pid) _ (later k)
    known true false p q k later =
        passed (i == h) r.writable (is_related m owner r.pid) _
          (later (sym (ap (picked (first_related m owner (candidates hs))) q) ∙ k))
    known true true p q k later =
        let same : some i ≡ some h =
          sym (ap (picked (first_related m owner (candidates hs))) q) ∙ k in
        let mine : i ≡ h = cc same in
        chosen (i == h) r.writable (is_related m owner r.pid) _
          (subst (λ x. (i == x) ≡ true) mine (==_refl i)) p q

only_lem :
    (h : ℕ) (hs : Handles)
    → only (candidates hs) ≡ some h
    → (length (candidates hs) ≡ 1) × (any (is_choice (λ pid. true) h) hs ≡ true)
unfolding candidates
only_lem h [] e = absurd (cc e)
only_lem h ((i, r) ∷ hs) e = known r.writable (candidates hs) refl refl e (only_lem h hs)
  where
    known :
        (b : Bool) (cs : Handles)
        → r.writable ≡ b
        → candidates hs ≡ cs
        → only (if◌then◌else◌ {A = Handles} b ((i, r) ∷ cs) cs) ≡ some h
        → (only (candidates hs) ≡ some h
            → (length (candidates hs) ≡ 1) × (any (is_choice (λ pid. true) h) hs ≡ true))
        → (length (if◌then◌else◌ {A = Handles} r.writable ((i, r) ∷ candidates hs) (candidates hs))
            ≡ 1)
          × ((i == h && r.writable && true || any (is_choice (λ pid. true) h) hs) ≡ true)
    known false cs p q k later =
        let (one, there) = later (ap only q ∙ k) in
        (
          ap (λ b. length (if◌then◌else◌ {A = Handles} b ((i, r) ∷ candidates hs) (candidates hs)))
                p
              ∙ one,
          passed (i == h) r.writable true _ there,
        )
    known true (c ∷ cs) p q k later = absurd (cc k)
    known true [] p q k later =
        let mine : i ≡ h = cc k in
        (
          ap (λ b. length (if◌then◌else◌ {A = Handles} b ((i, r) ∷ candidates hs) (candidates hs)))
                p
              ∙ ap (λ (x : Handles). length ((i, r) ∷ x)) q,
          chosen (i == h) r.writable true _ (subst (λ x. (i == x) ≡ true) mine (==_refl i)) p refl,
        )

-- The handle that a change of attributes by path is given to is registered for that key and may write.
-- If the caller is known, its owner is the caller, above it or below it; for an unknown caller, it is the
-- only one that may write.
pub writable_open_handle_lem :
    (m : Machine) (key : Bytes) (owner h : ℕ) (t : Registry)
    → writable_open_handle m key owner t ≡ some h
    → ((owner ≢ 0) × (any (is_choice (is_related m owner) h) (handles_of (lookup key t)) ≡ true))
      ⊎ ((owner ≡ 0)
          × (length (candidates (handles_of (lookup key t))) ≡ 1)
          × (any (is_choice (λ pid. true) h) (handles_of (lookup key t)) ≡ true))
unfolding writable_open_handle
writable_open_handle_lem m key owner h t e = known (owner == 0) refl e
  where
    hs : Handles
    hs = handles_of (lookup key t)

    known :
        (b : Bool)
        → (owner == 0) ≡ b
        → (if◌then◌else◌ {A = Option ℕ} b
            (only (candidates hs))
            (first_related m owner (candidates hs)))
          ≡ some h
        → ((owner ≢ 0) × (any (is_choice (is_related m owner) h) hs ≡ true))
          ⊎ ((owner ≡ 0)
              × (length (candidates hs) ≡ 1)
              × (any (is_choice (λ pid. true) h) hs ≡ true))
    known true p k = inr (==→eq owner 0 p, (only_lem h hs k).0, (only_lem h hs k).1)
    known false p k = inl (==→ne owner 0 p, first_related_lem m owner h hs k)
