-- ===== src/Meta/Unchanged.antt =====
-- A repair that reports no change made none (internal/passfs/metadata_migration.go: reconcileMetadata).
use passfs.Prelude.{
  ℕ, ◌≡◌, ◌≤◌, refl, sym, ap, ◌∙◌, Bool, true, false, not, ◌||◌, [], ◌∷◌, Bytes, ltb, ◌==◌,
  nat_equality, list_equality, if◌then◌else◌, arith, ==→eq, length, is_empty,
}
use passfs.Table.{Table, insert}
use passfs.FileMeta.{FileMeta, stable_inode}
use passfs.Objects.{object_id_from_storage_path}
use passfs.Meta.Disk.{Metadata, RecoveryEntry, has}
use passfs.Meta.Reconcile.{
  drop_entry, is_object_key, reconcile_file, reconcile_files, adopt_objects, retain, unmark,
  same_length, reconcile, prune,
}
use passfs.Meta.Reconcile.Loops.{adopted, before_prune}
use passfs.Meta.Shrinking.{retain_shorter, retain_same, unmark_shorter, unmark_same}

-- Metadata that is not marked as changed is still `m`.
abbrev IsTraced : Metadata → Metadata × Bool → Type 0
IsTraced m s = s.1 ≡ false → s.0 ≡ m

file-IsTraced :
    (m : Metadata) (actual : Table Bytes FileMeta) (k : Bytes) (meta : FileMeta)
    (s : Metadata × Bool)
    → IsTraced m s
    → IsTraced m (reconcile_file actual k meta s)
unfolding reconcile_file
file-IsTraced m actual k meta s p =
    known (has k actual) (is_object_key (object_id_from_storage_path k)) (ltb meta.inode 2)
  where
    known :
        (b c d : Bool)
        → IsTraced m (
            if◌then◌else◌ {A = Metadata × Bool}
              (not b)
              (if c then s else (drop_entry k s.0, true))
              (if d
                then (
                  record s.0 {
                    files = insert k (record meta { inode = stable_inode k }) s.0.files;
                  },
                  true,
                )
                else s))
    known true c true h = absurd (ground (arith, h))
    known true c false h = p h
    known false true d h = p h
    known false false d h = absurd (ground (arith, h))

files-IsTraced :
    (m : Metadata) (actual files : Table Bytes FileMeta) (s : Metadata × Bool)
    → IsTraced m s
    → IsTraced m (reconcile_files actual files s)
unfolding reconcile_files
files-IsTraced m actual [] s p = p
files-IsTraced m actual ((k, meta) ∷ files) s p =
    files-IsTraced m actual files (reconcile_file actual k meta s)
      (file-IsTraced m actual k meta s p)

adopted-IsTraced :
    (m : Metadata) (now : ℕ) (k : Bytes) (meta : FileMeta) (s : Metadata × Bool)
    → IsTraced m s
    → IsTraced m (adopted now k meta s)
adopted-IsTraced m now k meta s p = known (has k s.0.files)
  where
    known :
        (b : Bool)
        → IsTraced m (
            if◌then◌else◌ {A = Metadata × Bool} b s (
              record s.0 { files = insert k meta s.0.files; orphaned = insert k now s.0.orphaned },
              true,
            ))
    known true h = p h
    known false h = absurd (ground (arith, h))

adopt-IsTraced :
    (m : Metadata) (now : ℕ) (actual : Table Bytes FileMeta) (s : Metadata × Bool)
    → IsTraced m s
    → IsTraced m (adopt_objects now actual s)
unfolding adopt_objects
adopt-IsTraced m now [] s p = p
adopt-IsTraced m now ((k, meta) ∷ actual) s p =
    adopt-IsTraced m now actual (adopted now k meta s) (adopted-IsTraced m now k meta s p)

start-IsTraced :
    (m : Metadata)
    → IsTraced m (
      record m { version = 3; displaced_links = [] },
      not (m.version == 3) || not (is_empty m.displaced_links),
    )
start-IsTraced m h = known (m.version == 3) refl m.displaced_links refl h
  where
    known :
        (b : Bool)
        → (m.version == 3) ≡ b
        → (d : Table Bytes Bytes) → m.displaced_links ≡ d
        → (not b || not (is_empty d)) ≡ false
        → record m { version = 3; displaced_links = [] } ≡ m
    known true e [] f i =
        ap (λ v. record m { version = v; displaced_links = [] }) (sym (==→eq m.version 3 e))
        ∙ ap (λ d. record m { displaced_links = d }) (sym f)
    known true e (x ∷ d) f i = absurd (ground (arith, i))
    known false e d f i = absurd (ground (arith, i))

before_prune-IsTraced :
    (m : Metadata) (now : ℕ) (actual : Table Bytes FileMeta)
    → IsTraced m (before_prune now actual m)
before_prune-IsTraced m now actual =
    adopt-IsTraced m now actual _ (files-IsTraced m actual m.files _ (start-IsTraced m))

-- The four parts that the last loops leave.
rebuilt :
    (m : Metadata) (links legacy : Table Bytes Bytes) (orphaned : Table Bytes ℕ)
    (recovery : Table Bytes RecoveryEntry)
    → links ≡ m.links
    → orphaned ≡ m.orphaned
    → recovery ≡ m.recovery
    → legacy ≡ m.legacy_targets
    → record m { links = links; orphaned = orphaned; recovery = recovery; legacy_targets = legacy }
      ≡ m
rebuilt m links legacy orphaned recovery l o r g =
    ap
      (λ x. record m {
        links = x;
        orphaned = orphaned;
        recovery = recovery;
        legacy_targets = legacy;
      })
      l
    ∙ ap (λ x. record m { orphaned = x; recovery = recovery; legacy_targets = legacy }) o
    ∙ ap (λ x. record m { recovery = x; legacy_targets = legacy }) r
    ∙ ap (λ x. record m { legacy_targets = x }) g

none_changed :
    (a b c d e : Bool)
    → (a || not b || not c || not d || not e) ≡ false
    → (a ≡ false) × (b ≡ true) × (c ≡ true) × (d ≡ true) × (e ≡ true)
none_changed a b c d e h = ground (arith, h)

squeezed : {a b c : ℕ} → a ≤ b → b ≤ c → a ≡ c → (a ≡ b) × (b ≡ c)
squeezed h k e = (omega arith, omega arith)

prune-IsTraced : (m : Metadata) (s : Metadata × Bool) → IsTraced m s → IsTraced m (prune s)
prune-IsTraced m s p h =
    rebuilt s.0 _ _ _ _ (retain_same f s.0.links (==→eq (length links) (length s.0.links) same.1))
      (unmark_same recovery orphaned marks.0 ∙ retain_same f s.0.orphaned marks.1)
      (retain_same f s.0.recovery (==→eq (length recovery) (length s.0.recovery) same.3))
      (retain_same f s.0.legacy_targets (==→eq (length legacy) (length s.0.legacy_targets) same.4))
    ∙ p same.0
  where
    f : Table Bytes FileMeta
    f = s.0.files

    links : Table Bytes Bytes
    links = retain s.0.files s.0.links

    legacy : Table Bytes Bytes
    legacy = retain s.0.files s.0.legacy_targets

    recovery : Table Bytes RecoveryEntry
    recovery = retain s.0.files s.0.recovery

    orphaned : Table Bytes ℕ
    orphaned = retain s.0.files s.0.orphaned

    same :
        (s.1 ≡ false)
        × (same_length links s.0.links ≡ true)
        × (same_length (unmark recovery orphaned) s.0.orphaned ≡ true)
        × (same_length recovery s.0.recovery ≡ true)
        × (same_length legacy s.0.legacy_targets ≡ true)
    same = none_changed _ _ _ _ _ h

    marks :
        (length (unmark recovery orphaned) ≡ length orphaned)
        × (length orphaned ≡ length s.0.orphaned)
    marks =
        squeezed (unmark_shorter recovery orphaned) (retain_shorter s.0.files s.0.orphaned)
          (==→eq (length (unmark recovery orphaned)) (length s.0.orphaned) same.2)

-- If the repair reports no change, it has made none.
pub reconcile_unchanged :
    (now : ℕ) (actual : Table Bytes FileMeta) (m : Metadata)
    → (reconcile now actual m).1 ≡ false
    → (reconcile now actual m).0 ≡ m
unfolding reconcile
reconcile_unchanged now actual m =
    prune-IsTraced m (before_prune now actual m) (before_prune-IsTraced m now actual)
