-- ===== src/Storage.antt =====
-- The transactions that replace and remove an encrypted file (internal/passfs/volume.go:
-- persistFile, rollbackPersistedFile, removeProtectedFileLocked, restoreRemovedFile). The faults of
-- the file system are arguments.
use passfs.Prelude.{
  ℕ, ◌+◌, ◌≡◌, Bool, true, false, not, Option, none, some, List, [], ◌∷◌, Bytes, ltb, ◌==◌,
  nat_equality, if◌then◌else◌, length,
}
use passfs.Error.{enoent, Error, message, errno, eio, file_too_large, wrap, join, not_exist}
use passfs.FileMeta.{FileMeta}
use passfs.Meta.{Io, Store, set_file_meta, remove_file_meta}
pub mod Replaced
pub mod Removed

-- What is at a path: a regular file with its encrypted content, or something else.
pub data Node : Type 0 where
  regular : Bytes → Node
  other_node : Node

-- The encrypted path, the temporary file of the transaction beside it, and the metadata.
pub record Vault : Type 0 where
  pub stored : Option Node
  pub temporary : Option Node
  pub store : Store

-- The faults of one run of persistFile: before the temporary file is there (the path, its directory,
-- os.CreateTemp), while it is written (from Chmod to Close, with what it then holds), a Lstat that fails with another error
-- than not-exist, the move into place, its sync, the metadata, the rollback's move and sync, the
-- removal of the previous file, the last sync, and the deferred removal of the temporary file.
pub record Faults : Type 0 where
  pub prepare : Option Error
  pub write : Option (Error × Bytes)
  pub stat : Option Error
  pub move : Option Error
  pub sync : Option Error
  pub metadata : Io
  pub rollback : Option Error
  pub rollback_sync : Option Error
  pub clean_up : Option Error
  pub last_sync : Option Error
  pub deferred : Bool

abbrev pub or_no_error : Option Error → Option Error → Option Error
or_no_error none later = later
or_no_error (some e) later = some (wrap e)

abbrev pub joined : Error → Option Error → Error
joined e none = wrap e
joined e (some f) = join e f

-- exchangePaths where there was a file, renameNoReplace where there was none.
abbrev pub move_in : Vault → Vault
move_in v = record v { stored = v.temporary; temporary = v.stored }

-- The move of rollbackPersistedFile: the exchange again, or the removal of the new file.
abbrev pub put_back : Option Node → Vault → Vault
put_back (some previous) v = record v { stored = some previous; temporary = v.stored }
put_back none v = record v { stored = none }

abbrev pub move_back : Vault → Vault
move_back v = put_back v.temporary v

-- rollbackPersistedFile
unfoldable pub rollback_persisted_file : Faults → Vault → Option Error × Vault
rollback_persisted_file f v = elim f.rollback [
  | some e ↦ (some (wrap e), v)
  | none ↦ (or_no_error f.rollback_sync none, move_back v)
]

abbrev pub rolled_back : Error → Option Error × Vault → Option Error × Vault
rolled_back e (rollback, v) = (some (joined e rollback), v)

-- What persistFile does after the metadata is saved.
abbrev pub removed_previous : Faults → Vault → Option Error → Option Error × Vault
removed_previous f v (some e) = (some (wrap e), v)
removed_previous f v none = (f.last_sync, record v { temporary = none })

abbrev pub clean_up_previous : Faults → Option Node → Vault → Option Error × Vault
clean_up_previous f none v = (f.last_sync, v)
clean_up_previous f (some previous) v = removed_previous f v f.clean_up

abbrev pub after_metadata : Faults → Vault → Option Error × Store → Option Error × Vault
after_metadata f v (none, s) = clean_up_previous f v.temporary (record v { store = s })
after_metadata f v (some e, s) = rolled_back e (rollback_persisted_file f (record v { store = s }))

abbrev pub publish_moved : Faults → ℕ → ℕ → Bytes → FileMeta → Vault → Option Error × Vault
publish_moved f now fresh key meta v = elim f.sync [
  | some e ↦ rolled_back e (rollback_persisted_file f v)
  | none ↦ after_metadata f v (set_file_meta f.metadata now fresh key meta v.store)
]

abbrev pub move_and_publish : Faults → ℕ → ℕ → Bytes → FileMeta → Vault → Option Error × Vault
move_and_publish f now fresh key meta v = elim f.move [
  | some e ↦ (some e, v)
  | none ↦ publish_moved f now fresh key meta (move_in v)
]

-- The size and, where it was 0, the time that persistFile records.
abbrev pub recorded_meta : ℕ → Bytes → FileMeta → FileMeta
recorded_meta now content meta = record meta {
  size = length content;
  mtime = if meta.mtime == 0 then now else meta.mtime;
}

-- What the Lstat of the path finds decides between an exchange, a rename and an error.
abbrev pub replace_stored :
    Faults → ℕ → ℕ → Bytes → FileMeta → Option Node → Vault → Option Error × Vault
replace_stored f now fresh key meta (some other_node) v = (some (errno eio), v)
replace_stored f now fresh key meta _ v = move_and_publish f now fresh key meta v

abbrev pub stat_stored : Faults → ℕ → ℕ → Bytes → FileMeta → Vault → Option Error × Vault
stat_stored f now fresh key meta v = elim f.stat [
  | some e ↦ (some e, v)
  | none ↦ replace_stored f now fresh key meta v.stored v
]

-- `defer os.Remove(tempPath)`
abbrev pub finish : Faults → Option Error × Vault → Option Error × Vault
finish f (e, v) = (e, if f.deferred then record v { temporary = none } else v)

-- persistFile from the writing of the temporary file on.
abbrev pub persist_temporary :
    Bytes → Faults → ℕ → ℕ → Bytes → FileMeta → Vault → Option Error × Vault
persist_temporary sealed f now fresh key meta v = elim f.write [
  | some (e, partial) ↦ (some e, record v { temporary = some (regular partial) })
  | none ↦ stat_stored f now fresh key meta (record v { temporary = some (regular sealed) })
]

-- persistFile. `seal` is age.Encrypt to the volume's recipient, `now` the clock and `fresh` the inode
-- that newVirtualInode would give.
unfoldable pub persist_file :
    (Bytes → Bytes) → ℕ → Faults → ℕ → ℕ → Bytes → Bytes → FileMeta → Vault → Option Error × Vault
unfolding rollback_persisted_file
persist_file seal max f now fresh key content meta v =
    if ltb max (length content) then (some file_too_large, v) else elim f.prepare [
      | some e ↦ (some e, v)
      | none ↦
          finish f
            (persist_temporary (seal content) f now fresh key (recorded_meta now content meta) v)
    ]

-- The faults of one run of removeProtectedFileLocked: before the rename (the path, its Lstat, the
-- temporary name), the rename, its sync, the metadata, the removal, the metadata that is put back, the
-- rename back and its sync, and the last sync.
pub record RemovalFaults : Type 0 where
  pub prepare : Option Error
  pub rename : Option Error
  pub sync : Option Error
  pub metadata : Io
  pub remove : Option Error
  pub metadata_back : Io
  pub restore : Option Error
  pub restore_sync : Option Error
  pub last_sync : Option Error

-- restoreRemovedFile
abbrev pub restore_removed_file : RemovalFaults → Vault → Option Error × Vault
restore_removed_file f v = elim f.restore [
  | some e ↦ (some (wrap e), v)
  | none ↦ (or_no_error f.restore_sync none, record v { stored = v.temporary; temporary = none })
]

abbrev pub restored : Error → Option Error × Vault → Option Error × Vault
restored e (f, v) = (some (joined e f), v)

-- The metadata is put back before the file.
abbrev pub restored_with_meta :
    RemovalFaults → Error → Vault → Option Error × Store → Option Error × Vault
restored_with_meta f e v (meta_error, s) =
    restored (joined e meta_error) (restore_removed_file f (record v { store = s }))

abbrev pub remove_temporary :
    RemovalFaults → ℕ → ℕ → Bytes → FileMeta → Vault → Option Error × Vault
remove_temporary f now fresh key meta v = elim f.remove [
  | some e ↦ restored_with_meta f e v (set_file_meta f.metadata_back now fresh key meta v.store)
  | none ↦ (f.last_sync, record v { temporary = none })
]

abbrev pub after_unlisted :
    RemovalFaults → ℕ → ℕ → Bytes → FileMeta → Vault → Option Error × Store → Option Error × Vault
after_unlisted f now fresh key meta v (none, s) =
    remove_temporary f now fresh key meta (record v { store = s })
after_unlisted f now fresh key meta v (some e, s) =
    restored e (restore_removed_file f (record v { store = s }))

abbrev pub unlist : RemovalFaults → ℕ → ℕ → Bytes → FileMeta → Vault → Option Error × Vault
unlist f now fresh key meta v = elim f.sync [
  | some e ↦ restored e (restore_removed_file f v)
  | none ↦ after_unlisted f now fresh key meta v (remove_file_meta f.metadata key v.store)
]

abbrev pub rename_away : RemovalFaults → ℕ → ℕ → Bytes → FileMeta → Vault → Option Error × Vault
rename_away f now fresh key meta v = elim f.rename [
  | some e ↦ (some e, v)
  | none ↦ unlist f now fresh key meta (record v { stored = none; temporary = v.stored })
]

abbrev pub remove_stored :
    RemovalFaults → ℕ → ℕ → Bytes → FileMeta → Option Node → Vault → Option Error × Vault
remove_stored f now fresh key meta none v = (some (errno enoent), v)
remove_stored f now fresh key meta (some other_node) v = (some (errno eio), v)
remove_stored f now fresh key meta (some (regular content)) v = rename_away f now fresh key meta v

-- removeProtectedFileLocked; `meta` is what fileMeta gives, and `temporary` is empty before it.
unfoldable pub remove_protected_file_locked :
    RemovalFaults → ℕ → ℕ → Bytes → FileMeta → Vault → Option Error × Vault
remove_protected_file_locked f now fresh key meta v = elim f.prepare [
  | some e ↦ (some e, v)
  | none ↦ remove_stored f now fresh key meta v.stored v
]
