-- ===== src/Meta/Loaded.antt =====
-- What the repair of the metadata at load time guarantees (internal/passfs/metadata_migration.go:
-- reconcileMetadata; volume.go: loadMetadata), whatever the metadata was before.
use passfs.Prelude.{
  subst, ℕ, ◌≡◌, refl, sym, ap, ◌∙◌, Bool, true, false, not, none, [], ◌∷◌, Bytes, ◌==◌,
  nat_equality, list_equality, if◌then◌else◌, arith, ==→eq, ==_refl, Bool-cases, inl, inr,
}
use passfs.Table.{Table, lookup, insert, delete, lookup-delete}
use passfs.FileMeta.{FileMeta}
use passfs.Meta.Disk.{Metadata, has, time_or_zero}
use passfs.Meta.Merge.{has-insert}
use passfs.Meta.Sound.{Covers, Covers-delete, IsSound}
use passfs.Meta.Reconcile.{adopt_objects, retain, unmark, reconcile}
use passfs.Meta.Reconcile.Loops.{adopted, before_prune, loops}

pub lookup-retain :
    {V : Type 0} (files : Table Bytes FileMeta) (k : Bytes) (t : Table Bytes V)
    → lookup k (retain files t) ≡ (if has k files then lookup k t else none)
unfolding retain lookup
lookup-retain files k [] = ground arith
lookup-retain files k ((j, v) ∷ t) = elim (Bool-cases (j == k)) [
  | inl same ↦
      rw (==→eq j k same) (rw (==_refl k) (ground (arith, lookup-retain files k t, ==_refl k)))
  | inr other ↦ ground (arith, lookup-retain files k t)
]

retain-Covers :
    {V : Type 0} (files : Table Bytes FileMeta) (t : Table Bytes V) → Covers (retain files t) files
retain-Covers files t k i = known (has k files) refl
  where
    known : (b : Bool) → has k files ≡ b → has k files ≡ true
    known true e = e
    known false e = ground (arith, lookup-retain files k t, i)

unmark-Covers :
    {V : Type 0} (m : Table Bytes V) (o : Table Bytes ℕ) (f : Table Bytes FileMeta)
    → Covers o f
    → Covers (unmark m o) f
unfolding unmark
unmark-Covers [] o f c = c
unmark-Covers ((j, v) ∷ m) o f c =
    unmark-Covers m _ f (known (not (time_or_zero (lookup j o) == 0)))
  where
    known : (b : Bool) → Covers (if b then delete j o else o) f
    known true = Covers-delete j o f c
    known false = c

-- An entry whose mark is off stays so.
unmark_keeps :
    {V : Type 0} (m : Table Bytes V) (o : Table Bytes ℕ) (k : Bytes)
    → time_or_zero (lookup k o) ≡ 0
    → time_or_zero (lookup k (unmark m o)) ≡ 0
unfolding unmark
unmark_keeps [] o k h = h
unmark_keeps ((j, v) ∷ m) o k h = unmark_keeps m _ k (known (not (time_or_zero (lookup j o) == 0)))
  where
    known : (b : Bool) → time_or_zero (lookup k (if b then delete j o else o)) ≡ 0
    known true = ground (arith, lookup-delete j k o, h)
    known false = h

unmark_lem :
    {V : Type 0} (m : Table Bytes V) (o : Table Bytes ℕ) (k : Bytes)
    → has k m ≡ true
    → time_or_zero (lookup k (unmark m o)) ≡ 0
unfolding unmark lookup
unmark_lem [] o k h = ground arith
unmark_lem ((j, v) ∷ m) o k h = elim (Bool-cases (j == k)) [
  | inl same ↦ unmark_keeps m _ k (known same (time_or_zero (lookup j o) == 0) refl)
  | inr other ↦ unmark_lem m _ k (ground arith)
]
  where
    known :
        (j == k) ≡ true
        → (b : Bool) → (time_or_zero (lookup j o) == 0) ≡ b
        → time_or_zero (lookup k (if not b then delete j o else o)) ≡ 0
    known same false e = ground (arith, lookup-delete j k o, same)
    known same true e = rw (sym (==→eq j k same)) (==→eq (time_or_zero (lookup j o)) 0 e)

adopted_keeps :
    (now : ℕ) (j : Bytes) (meta : FileMeta) (s : Metadata × Bool) (k : Bytes)
    → has k s.0.files ≡ true
    → has k (adopted now j meta s).0.files ≡ true
adopted_keeps now j meta s k h = known (has j s.0.files)
  where
    known :
        (c : Bool)
        → has k
            (if◌then◌else◌ {A = Metadata × Bool} c s (
              record s.0 { files = insert j meta s.0.files; orphaned = insert j now s.0.orphaned },
              true,
            )).0.files
          ≡ true
    known true = h
    known false = ground (arith, has-insert j k meta s.0.files, h)

adopted_file :
    (now : ℕ) (j : Bytes) (meta : FileMeta) (s : Metadata × Bool)
    → has j (adopted now j meta s).0.files ≡ true
adopted_file now j meta s = known (has j s.0.files) refl
  where
    known :
        (c : Bool)
        → has j s.0.files ≡ c
        → has j
            (if◌then◌else◌ {A = Metadata × Bool} c s (
              record s.0 { files = insert j meta s.0.files; orphaned = insert j now s.0.orphaned },
              true,
            )).0.files
          ≡ true
    known true e = e
    known false e =
        has-insert j j meta s.0.files ∙ ap (λ x. if x then true else has j s.0.files) (==_refl j)

-- Adopting objects loses no file.
adopt_keeps :
    (now : ℕ) (actual : Table Bytes FileMeta) (s : Metadata × Bool) (k : Bytes)
    → has k s.0.files ≡ true
    → has k (adopt_objects now actual s).0.files ≡ true
unfolding adopt_objects
adopt_keeps now [] s k h = h
adopt_keeps now ((j, meta) ∷ actual) s k h =
    adopt_keeps now actual (adopted now j meta s) k (adopted_keeps now j meta s k h)

adopt_objects_lem :
    (now : ℕ) (actual : Table Bytes FileMeta) (s : Metadata × Bool) (k : Bytes)
    → has k actual ≡ true
    → has k (adopt_objects now actual s).0.files ≡ true
unfolding adopt_objects lookup
adopt_objects_lem now [] s k h = ground arith
adopt_objects_lem now ((j, meta) ∷ actual) s k h = elim (Bool-cases (j == k)) [
  | inl same ↦ adopt_keeps now actual (adopted now j meta s) k (
      subst (λ x. has x (adopted now j meta s).0.files ≡ true) (==→eq j k same)
        (adopted_file now j meta s))
  | inr other ↦ adopt_objects_lem now actual (adopted now j meta s) k (ground arith)
]

abbrev IsCurrent : Metadata → Type 0
IsCurrent m = (m.version ≡ 3) × (m.displaced_links ≡ [])

-- Whatever the metadata `m` was: the repaired one has version 3 and no displaced links, a file for
-- every object of the disk, links, orphans, recovery entries and legacy targets of its files only,
-- and no orphan mark on an entry in recovery.
pub reconcile_lem :
    (now : ℕ) (actual : Table Bytes FileMeta) (m : Metadata)
    → ((reconcile now actual m).0.version ≡ 3)
      × ((reconcile now actual m).0.displaced_links ≡ [])
      × Covers actual (reconcile now actual m).0.files
      × IsSound (reconcile now actual m).0
      × ((k : Bytes)
          → has k (reconcile now actual m).0.recovery ≡ true
          → time_or_zero (lookup k (reconcile now actual m).0.orphaned) ≡ 0)
unfolding reconcile
reconcile_lem now actual m = (
  current.0,
  current.1,
  λ k h. adopt_objects_lem now actual _ k h,
  (
    retain-Covers _ _,
    unmark-Covers
        (retain (before_prune now actual m).0.files (before_prune now actual m).0.recovery)
        (retain (before_prune now actual m).0.files (before_prune now actual m).0.orphaned)
        (before_prune now actual m).0.files (retain-Covers _ _),
    retain-Covers _ _,
    retain-Covers _ _,
  ),
  λ k h.
      unmark_lem (retain (before_prune now actual m).0.files (before_prune now actual m).0.recovery)
        _ k h,
)
  where
    current : IsCurrent (before_prune now actual m).0
    current =
        loops IsCurrent (λ k meta m p. p) (λ k m h p. p) (λ now k m p. p) now actual m (refl, refl)
