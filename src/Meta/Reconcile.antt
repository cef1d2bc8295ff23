-- ===== src/Meta/Reconcile.antt =====
-- Repairing the metadata when a volume is loaded (internal/passfs/metadata_migration.go:
-- reconcileMetadata; volume.go: loadMetadata). A nil map and an empty one are the same here, except
-- for displacedLinks, which no version writes as an empty map.
pub mod Loops
use passfs.Prelude.{
  ◌-◌, ℕ, Bool, true, false, not, ◌&&◌, ◌||◌, Option, none, some, List, [], ◌∷◌, Bytes, ltb, ◌==◌,
  nat_equality, list_equality, if◌then◌else◌, length, take, drop, is_empty,
}
use passfs.Error.{Error, message, wrap}
use passfs.Result.{Result, ok, err}
use passfs.Table.{Table, lookup, insert, delete}
use passfs.Path.{metadata_key, encrypted_suffix}
use passfs.FileMeta.{FileMeta, stable_inode}
use passfs.Objects.{normalize_object_id, object_storage_path, object_id_from_storage_path}
use passfs.Meta.Disk.{Metadata, Io, has, time_or_zero, with_lock, read_metadata, save_metadata}

-- An entry of the objects' directory: its name, whether it is a regular file, and its modification
-- time, which entry.Info may fail to give.
pub record DirectoryEntry : Type 0 where
  pub name : Bytes
  pub is_regular : Bool
  pub modified : Result ℕ

abbrev pub has_suffix : Bytes → Bytes → Bool
has_suffix s t = drop (length s - length t) s == t

abbrev pub trim_suffix : Bytes → Bytes → Bytes
trim_suffix s t = if has_suffix s t then take (length s - length t) s else s

abbrev ok_or_none {ℓ} : {A : Type ℓ} → Result A → Option A
ok_or_none (ok a) = some a
ok_or_none (err e) = none

-- The storage path of an entry that is an encrypted object.
unfoldable pub entry_storage : DirectoryEntry → Option Bytes
unfolding normalize_object_id object_storage_path
entry_storage e =
    if e.is_regular && has_suffix e.name encrypted_suffix
    then ok_or_none (object_storage_path (trim_suffix e.name encrypted_suffix))
    else none

-- The metadata of an object that has none: mode 0600.
abbrev pub found_meta : Bytes → ℕ → FileMeta
found_meta key modified = record {
  size = 0;
  mode = 384;
  mtime = modified;
  atime = modified;
  inode = stable_inode key;
}

-- One round of the loop over the directory: actual[key] is set.
abbrev pub add_object :
    Option Bytes → Result ℕ → Table Bytes FileMeta → Result (Table Bytes FileMeta)
add_object none modified m = ok m
add_object (some storage) (err e) m = err e
add_object (some storage) (ok modified) m =
    ok (insert (metadata_key storage) (found_meta (metadata_key storage) modified) m)

unfoldable pub add_objects :
    List DirectoryEntry → Table Bytes FileMeta → Result (Table Bytes FileMeta)
unfolding entry_storage
add_objects [] m = ok m
add_objects (e ∷ es) m = elim (add_object (entry_storage e) e.modified m) [
  | err x ↦ err x
  | ok n ↦ add_objects es n
]

-- The loop over the directory.
unfoldable pub objects_of : List DirectoryEntry → Result (Table Bytes FileMeta)
unfolding add_objects
objects_of es = add_objects es []

abbrev pub drop_entry : Bytes → Metadata → Metadata
drop_entry key m = record m {
  files = delete key m.files;
  links = delete key m.links;
  orphaned = delete key m.orphaned;
  recovery = delete key m.recovery;
  legacy_targets = delete key m.legacy_targets;
}

abbrev pub is_object_key : Result Bytes → Bool
is_object_key (ok id) = true
is_object_key (err e) = false

-- One file of the metadata: a missing ciphertext keeps its record if the key is that of an object.
unfoldable pub reconcile_file :
    Table Bytes FileMeta → Bytes → FileMeta → Metadata × Bool → Metadata × Bool
unfolding object_id_from_storage_path
reconcile_file actual key meta (m, changed) =
    if not (has key actual)
    then (if is_object_key (object_id_from_storage_path key)
        then (m, changed)
        else (drop_entry key m, true))
    else if ltb meta.inode 2
    then (record m { files = insert key (record meta { inode = stable_inode key }) m.files }, true)
    else (m, changed)

-- The first loop ranges over the files as they were when it began.
unfoldable pub reconcile_files :
    Table Bytes FileMeta → Table Bytes FileMeta → Metadata × Bool → Metadata × Bool
unfolding reconcile_file
reconcile_files actual [] s = s
reconcile_files actual ((key, meta) ∷ files) s =
    reconcile_files actual files (reconcile_file actual key meta s)

-- An object without metadata gets some, and is an orphan.
unfoldable pub adopt_objects : ℕ → Table Bytes FileMeta → Metadata × Bool → Metadata × Bool
adopt_objects now [] s = s
adopt_objects now ((key, meta) ∷ actual) (m, changed) = adopt_objects now actual (
    if has key m.files
    then (m, changed)
    else (record m { files = insert key meta m.files; orphaned = insert key now m.orphaned }, true))

-- The entries whose key has a file.
unfoldable pub retain : {V : Type 0} → Table Bytes FileMeta → Table Bytes V → Table Bytes V
retain files [] = []
retain files ((key, v) ∷ m) =
    let rest = retain files m in if has key files then (key, v) ∷ rest else rest

-- The orphan mark of an entry in recovery is taken off.
unfoldable pub unmark : {V : Type 0} → Table Bytes V → Table Bytes ℕ → Table Bytes ℕ
unmark [] orphaned = orphaned
unmark ((key, v) ∷ m) orphaned =
    unmark m
      (if not (time_or_zero (lookup key orphaned) == 0) then delete key orphaned else orphaned)

abbrev pub same_length : {V : Type 0} → Table Bytes V → Table Bytes V → Bool
same_length m n = length m == length n

-- The last four loops, over the links, the orphans, the recovery entries and the legacy targets.
abbrev pub prune : Metadata × Bool → Metadata × Bool
prune (m, changed) =
    let links = retain m.files m.links in
    let orphaned = retain m.files m.orphaned in
    let recovery = retain m.files m.recovery in
    let unmarked = unmark recovery orphaned in
    let legacy_targets = retain m.files m.legacy_targets in
    (
      record m {
        links = links;
        orphaned = unmarked;
        recovery = recovery;
        legacy_targets = legacy_targets;
      },
      changed
          || not (same_length links m.links)
          || not (same_length unmarked m.orphaned)
          || not (same_length recovery m.recovery)
          || not (same_length legacy_targets m.legacy_targets),
    )

unfoldable pub reconcile : ℕ → Table Bytes FileMeta → Metadata → Metadata × Bool
unfolding reconcile_files adopt_objects retain unmark
reconcile now actual m = prune (
    adopt_objects now actual (
      reconcile_files actual m.files (
        record m { version = 3; displaced_links = [] },
        not (m.version == 3) || not (is_empty m.displaced_links),
      )))

-- What the file system says of the objects' directory: its Lstat, whether it is a directory, and its
-- entries.
pub record ObjectsRoot : Type 0 where
  pub is_directory : Result Bool
  pub entries : Result (List DirectoryEntry)

abbrev pub reconcile_objects :
    ℕ → Metadata → Result (Table Bytes FileMeta) → Result (Metadata × Bool)
reconcile_objects now m (err e) = err e
reconcile_objects now m (ok actual) = ok (reconcile now actual m)

abbrev pub reconcile_entries :
    ℕ → Metadata → Result (List DirectoryEntry) → Result (Metadata × Bool)
reconcile_entries now m (err e) = err e
reconcile_entries now m (ok entries) = reconcile_objects now m (objects_of entries)

abbrev pub reconcile_root : ℕ → ObjectsRoot → Metadata → Result Bool → Result (Metadata × Bool)
reconcile_root now root m (err e) = err e
reconcile_root now root m (ok false) = err message
reconcile_root now root m (ok true) = reconcile_entries now m root.entries

-- reconcileMetadata: the metadata, and whether it has changed.
unfoldable pub reconcile_metadata : ℕ → ObjectsRoot → Metadata → Result (Metadata × Bool)
unfolding reconcile objects_of
reconcile_metadata now root m = reconcile_root now root m root.is_directory

-- What loadMetadata makes under the lock: its error, the disk, and the metadata that it returns.
abbrev pub save_reconciled :
    Io → Metadata → Metadata → Result (Metadata × Bool) → Option Error × (Metadata × Metadata)
save_reconciled io disk m (err e) = (some (wrap e), (disk, m))
save_reconciled io disk m (ok (next, false)) = (none, (disk, next))
save_reconciled io disk m (ok (next, true)) =
    let (e, after) = save_metadata io.save next disk in (e, (after, next))

abbrev pub load_read :
    Io
    → ℕ
    → ObjectsRoot
    → Metadata
    → Result Metadata × Metadata
    → Option Error × (Metadata × Metadata)
load_read io now root empty (err e, disk) = (some e, (disk, empty))
load_read io now root empty (ok m, disk) = save_reconciled io disk m (reconcile_metadata now root m)

-- loadMetadata; `empty` stands for the metadata returned beside an error, which no caller reads.
unfoldable pub load_metadata :
    Io → ℕ → ObjectsRoot → Metadata → Metadata → Option Error × (Metadata × Metadata)
unfolding with_lock reconcile_metadata
load_metadata io now root empty disk =
    with_lock io (disk, empty) (load_read io now root empty (read_metadata io disk))
