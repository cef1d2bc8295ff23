-- ===== src/Meta/Reconcile/Loops.antt =====
-- The two first loops of the repair, round by round (internal/passfs/metadata_migration.go:
-- reconcileMetadata).
use passfs.Prelude.{
  is_empty, ℕ, ◌≡◌, refl, Bool, true, false, not, ◌||◌, [], ◌∷◌, Bytes, ltb, ◌==◌, nat_equality,
  list_equality, if◌then◌else◌,
}
use passfs.Table.{Table, insert}
use passfs.FileMeta.{FileMeta, stable_inode}
use passfs.Objects.{object_id_from_storage_path}
use passfs.Meta.Disk.{Metadata, has}
use passfs.Meta.Reconcile.{
  drop_entry, reconcile_file, is_object_key, adopt_objects, reconcile_files,
}

-- What the loop over the objects makes of one of them.
abbrev pub adopted : ℕ → Bytes → FileMeta → Metadata × Bool → Metadata × Bool
adopted now j meta s = if has j s.0.files then s else (
  record s.0 { files = insert j meta s.0.files; orphaned = insert j now s.0.orphaned },
  true,
)

-- A property of the metadata that each round of a loop keeps.
module _ (P : Metadata → Type 0) where
  files_loop :
      ((actual : Table Bytes FileMeta) (k : Bytes) (meta : FileMeta) (s : Metadata × Bool)
        → P s.0
        → P (reconcile_file actual k meta s).0)
      → (actual files : Table Bytes FileMeta) (s : Metadata × Bool) → P s.0
      → P (reconcile_files actual files s).0
  unfolding reconcile_files
  files_loop step actual [] s p = p
  files_loop step actual ((k, meta) ∷ files) s p =
      files_loop step actual files (reconcile_file actual k meta s) (step actual k meta s p)

  adopt_loop :
      ((now : ℕ) (k : Bytes) (meta : FileMeta) (s : Metadata × Bool)
        → P s.0
        → P (adopted now k meta s).0)
      → (now : ℕ) (actual : Table Bytes FileMeta) (s : Metadata × Bool) → P s.0
      → P (adopt_objects now actual s).0
  unfolding adopt_objects
  adopt_loop step now [] s p = p
  adopt_loop step now ((k, meta) ∷ actual) s p =
      adopt_loop step now actual (adopted now k meta s) (step now k meta s p)

  -- One round of the first loop: the file is dropped, gets an inode, or stays.
  files_round :
      (actual : Table Bytes FileMeta) (k : Bytes) (meta : FileMeta) (s : Metadata × Bool)
      → P s.0
      → (is_object_key (object_id_from_storage_path k) ≡ false → P (drop_entry k s.0))
      → P (record s.0 { files = insert k (record meta { inode = stable_inode k }) s.0.files })
      → P (reconcile_file actual k meta s).0
  unfolding reconcile_file
  files_round actual k meta s same dropped numbered =
      known (has k actual) (is_object_key (object_id_from_storage_path k)) (ltb meta.inode 2)
        dropped
    where
      known :
          (b c d : Bool)
          → (c ≡ false → P (drop_entry k s.0))
          → P
              (if◌then◌else◌ {A = Metadata × Bool}
                (not b)
                (if c then s else (drop_entry k s.0, true))
                (if d
                  then (
                    record s.0 {
                      files = insert k (record meta { inode = stable_inode k }) s.0.files;
                    },
                    true,
                  )
                  else s)).0
      known true c true h = numbered
      known true c false h = same
      known false true d h = same
      known false false d h = h refl

  adopt_round :
      (now : ℕ) (k : Bytes) (meta : FileMeta) (s : Metadata × Bool)
      → P s.0
      → P (record s.0 { files = insert k meta s.0.files; orphaned = insert k now s.0.orphaned })
      → P (adopted now k meta s).0
  adopt_round now k meta s same new = known (has k s.0.files)
    where
      known :
          (b : Bool)
          → P
              (if◌then◌else◌ {A = Metadata × Bool} b s (
                record s.0 {
                  files = insert k meta s.0.files;
                  orphaned = insert k now s.0.orphaned;
                },
                true,
              )).0
      known true = same
      known false = new

-- The metadata before its last loops.
abbrev pub before_prune : ℕ → Table Bytes FileMeta → Metadata → Metadata × Bool
before_prune now actual m = adopt_objects now actual (
    reconcile_files actual m.files (
      record m { version = 3; displaced_links = [] },
      not (m.version == 3) || not (is_empty m.displaced_links),
    ))

-- A property of the metadata that both loops keep.
pub loops :
    (P : Metadata → Type 0)
    → ((k : Bytes) (meta : FileMeta) (m : Metadata)
        → P m
        → P (record m { files = insert k meta m.files }))
    → ((k : Bytes) (m : Metadata)
        → is_object_key (object_id_from_storage_path k) ≡ false
        → P m
        → P (drop_entry k m))
    → ((now : ℕ) (k : Bytes) (m : Metadata)
        → P m
        → P (record m { orphaned = insert k now m.orphaned }))
    → (now : ℕ) (actual : Table Bytes FileMeta) (m : Metadata)
    → P (record m { version = 3; displaced_links = [] })
    → P (before_prune now actual m).0
loops P put drop mark now actual m p =
    adopt_loop P (λ now k meta s q. adopt_round P now k meta s q (mark now k _ (put k meta s.0 q)))
      now actual _
      (files_loop P
        (λ actual k meta s q. files_round P actual k meta s q (λ h. drop k s.0 h q) (put k _ s.0 q))
        actual m.files _ p)
