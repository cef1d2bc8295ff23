-- ===== src/Meta/Loading.antt =====
-- loadMetadata as a whole: what it returns is sound, and is what the disk holds
-- (internal/passfs/volume.go: loadMetadata; metadata_migration.go: reconcileMetadata).
use passfs.Prelude.{
  some, ◌&&◌, ℕ, ◌≡◌, refl, sym, Bool, true, false, not, Option, none, Bytes, ◌==◌, nat_equality,
  list_equality, if◌then◌else◌, arith, List,
}
use passfs.Error.{wrap, message, Error}
use passfs.Result.{Result, ok, err}
use passfs.Table.{Table}
use passfs.FileMeta.{FileMeta}
use passfs.Meta.Disk.{
  valid_recovery, read_metadata, with_lock, join_release, Metadata, Io, Save, save_metadata, saved,
  not_saved, saved_but,
}
use passfs.Meta.Sound.{IsSound}
use passfs.Meta.Loaded.{reconcile_lem}
use passfs.Meta.Reconcile.{
  load_read, load_metadata, ObjectsRoot, DirectoryEntry, reconcile_objects, reconcile_entries,
  reconcile_root, reconcile_metadata, save_reconciled, objects_of,
}
use passfs.Meta.Unchanged.{reconcile_unchanged}

-- What the repair reports of the metadata `m`: sound metadata, the same one if it has not changed.
abbrev IsRepaired : Metadata → Result (Metadata × Bool) → Type 0
IsRepaired m (err e) = Unit
IsRepaired m (ok (next, changed)) = IsSound next × (changed ≡ false → next ≡ m)

reconcile_metadata-IsRepaired :
    (now : ℕ) (root : ObjectsRoot) (m : Metadata) → IsRepaired m (reconcile_metadata now root m)
unfolding reconcile_metadata
reconcile_metadata-IsRepaired now root m = at_root root.is_directory
  where
    at_objects : (r : Result (Table Bytes FileMeta)) → IsRepaired m (reconcile_objects now m r)
    at_objects (err e) = tt
    at_objects (ok actual) = ((reconcile_lem now actual m).3, reconcile_unchanged now actual m)

    at_entries : (r : Result (List DirectoryEntry)) → IsRepaired m (reconcile_entries now m r)
    at_entries (err e) = tt
    at_entries (ok entries) = at_objects (objects_of entries)

    at_root : (r : Result Bool) → IsRepaired m (reconcile_root now root m r)
    at_root (err e) = tt
    at_root (ok false) = tt
    at_root (ok true) = at_entries root.entries

-- An end without an error has metadata that is sound and is on the disk.
abbrev IsLoaded : Option Error × (Metadata × Metadata) → Type 0
IsLoaded (e, (disk, m)) = e ≡ none → IsSound m × (disk ≡ m)

saved-IsLoaded :
    (io : Io) (m : Metadata) (r : Result (Metadata × Bool))
    → IsRepaired m r
    → IsLoaded (save_reconciled io m m r)
saved-IsLoaded io m (err e) p = λ h. absurd (ground (arith, h))
saved-IsLoaded io m (ok (next, false)) p = λ h. (p.0, sym (p.1 refl))
saved-IsLoaded io m (ok (next, true)) p = at_save io.save
  where
    at_save :
        (save : Save) → IsLoaded (let (e, after) = save_metadata save next m in (e, (after, next)))
    at_save saved = λ h. (p.0, refl)
    at_save (not_saved e) = λ h. absurd (ground (arith, h))
    at_save (saved_but e) = λ h. absurd (ground (arith, h))

read-IsLoaded :
    (io : Io) (now : ℕ) (root : ObjectsRoot) (empty disk : Metadata)
    → (disk.version == 1) ≡ false
    → IsLoaded (load_read io now root empty (read_metadata io disk))
unfolding read_metadata
read-IsLoaded io now root empty disk v = at_read io.read
  where
    -- The tests of readMetadata on the format.
    at_tests :
        (b c : Bool)
        → IsLoaded (
            load_read io now root empty (
              if b
              then (err message, disk)
              else if c
              then (ok disk, disk)
              else (err message, disk)))
    at_tests true c h = absurd (ground (arith, h))
    at_tests false true h = saved-IsLoaded io disk _ (reconcile_metadata-IsRepaired now root disk) h
    at_tests false false h = absurd (ground (arith, h))

    at_format :
        (b : Bool)
        → b ≡ false
        → (rest : Result Metadata × Metadata) → IsLoaded (load_read io now root empty rest)
        → IsLoaded (load_read io now root empty (if b then io.migrate disk else rest))
    at_format true e rest p = absurd (ground (arith, e))
    at_format false e rest p = p

    at_read :
        (o : Option Error)
        → IsLoaded (
            load_read io now root empty (elim o [
              | some e ↦ (err (wrap e), disk)
              | none ↦
                  if disk.version == 1
                  then io.migrate disk
                  else if not (disk.version == 2) && not (disk.version == 3)
                  then (err message, disk)
                  else if valid_recovery disk.recovery
                  then (ok disk, disk)
                  else (err message, disk)
            ]))
    at_read (some e) = λ h. absurd (ground (arith, h))
    at_read none = at_format (disk.version == 1) v _ (
        at_tests (not (disk.version == 2) && not (disk.version == 3))
          (valid_recovery disk.recovery))

lock-IsLoaded :
    (io : Io) (a : Metadata × Metadata) (x : Option Error × (Metadata × Metadata))
    → IsLoaded x
    → IsLoaded (with_lock io a x)
unfolding with_lock
lock-IsLoaded io a (e, s) p = at_lock io.lock
  where
    at_release :
        (o u : Option Error)
        → (o ≡ none → IsSound s.1 × (s.0 ≡ s.1))
        → IsLoaded (join_release o u, s)
    at_release none none q h = q refl
    at_release none (some f) q h = absurd (ground (arith, h))
    at_release (some f) none q h = absurd (ground (arith, h))
    at_release (some f) (some g) q h = absurd (ground (arith, h))

    at_lock :
        (o : Option Error)
        → IsLoaded (elim o [ some f ↦ (some (wrap f), a) | none ↦ (join_release e io.unlock, s) ])
    at_lock (some f) = λ h. absurd (ground (arith, h))
    at_lock none = at_release e io.unlock p

-- Loading metadata of format 2 or 3 without an error, whatever the metadata `disk` and the
-- objects' directory hold: the metadata that it returns is the one that is on the disk then, and its
-- links, orphans, recovery entries and legacy targets all belong to its files.
pub load_metadata-IsSound :
    (io : Io) (now : ℕ) (root : ObjectsRoot) (empty disk : Metadata)
    → (disk.version == 1) ≡ false
    → (load_metadata io now root empty disk).0 ≡ none
    → IsSound (load_metadata io now root empty disk).1.1
      × ((load_metadata io now root empty disk).1.0 ≡ (load_metadata io now root empty disk).1.1)
unfolding load_metadata
load_metadata-IsSound io now root empty disk v h =
    lock-IsLoaded io (disk, empty) _ (read-IsLoaded io now root empty disk v) h
