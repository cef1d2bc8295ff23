-- ===== src/Meta/Updates.antt =====
-- The changes of the metadata (internal/passfs/volume.go: setFileMeta, removeFileMeta,
-- setLinkSource, markLinkOrphan, clearLinkOrphan, markLinkRecovery). A pathname is given by its metadata key.
use passfs.Prelude.{
  ℕ, Bool, true, false, not, ◌&&◌, ◌||◌, Option, none, some, ◌==◌, nat_equality, list_equality,
  Bytes, ltb, leb, if◌then◌else◌, is_empty,
}
use passfs.Error.{Error, message, not_exist}
use passfs.Result.{Result, ok, err}
use passfs.Table.{lookup, insert, delete}
use passfs.Path.{clean, is_abs}
use passfs.FileMeta.{FileMeta, permissions}
use passfs.Meta.Disk.{
  RecoveryState, other_state, RecoveryEntry, Metadata, Io, Store, has, text_or_empty, time_or_zero,
  update_metadata,
}

abbrev inode_of : Option FileMeta → ℕ
inode_of none = 0
inode_of (some meta) = meta.inode

-- The inode that setFileMeta records: the one given, else the one on record, else the fresh one.
abbrev pub chosen_inode : ℕ → ℕ → ℕ → ℕ
chosen_inode given current fresh =
    if ltb given 2 then (if leb 2 current then current else fresh) else given

unfoldable pub put_file_meta : ℕ → ℕ → Bytes → FileMeta → Metadata → Metadata
put_file_meta now fresh key meta m =
    let inode = chosen_inode meta.inode (inode_of (lookup key m.files)) fresh in
    record m {
      files = insert key (record meta { mode = permissions meta.mode; inode = inode }) m.files;
      orphaned =
          if not (has key m.files) && is_empty (text_or_empty (lookup key m.links))
          then insert key now m.orphaned
          else m.orphaned;
    }

-- deleteFileMetadata
unfoldable pub delete_file_metadata : Bytes → Metadata → Metadata
delete_file_metadata key m = record m {
  files = delete key m.files;
  links = delete key m.links;
  orphaned = delete key m.orphaned;
  recovery = delete key m.recovery;
  legacy_targets = delete key m.legacy_targets;
  displaced_links = delete key m.displaced_links;
}

unfoldable pub put_link_source : Bytes → Bytes → Metadata → Result Metadata
put_link_source key source m =
    if not (has key m.files)
    then err not_exist
    else ok (record m {
      links = insert key source m.links;
      orphaned = delete key m.orphaned;
      recovery = delete key m.recovery;
      legacy_targets = delete key m.legacy_targets;
    })

unfoldable pub put_orphan : Bytes → ℕ → Metadata → Result Metadata
put_orphan key now m =
    if not (has key m.files)
    then err not_exist
    else ok (record m {
      orphaned =
          if time_or_zero (lookup key m.orphaned) == 0
          then insert key now m.orphaned
          else m.orphaned;
    })

unfoldable pub drop_orphan : Bytes → Metadata → Metadata
drop_orphan key m = record m {
  orphaned = delete key m.orphaned;
  recovery = delete key m.recovery;
  legacy_targets = delete key m.legacy_targets;
}

abbrev entry_path : Option RecoveryEntry → Bytes → Bytes
entry_path none path = path
entry_path (some entry) path = if is_empty entry.path then path else entry.path

-- The path of a new recovery entry: that of the entry before it, or the link's.
abbrev pub recovery_path : Bytes → Metadata → Bytes
recovery_path key m = entry_path (lookup key m.recovery) (text_or_empty (lookup key m.links))

unfoldable pub put_recovery : Bytes → RecoveryState → Bytes → ℕ → Metadata → Result Metadata
put_recovery key state reason now m =
    if not (has key m.files)
    then err not_exist
    else let path = recovery_path key m in
      if is_empty path || not (is_abs path)
      then err message
      else ok (record m {
        recovery =
            insert key
              (record { path = clean path; state = state; reason = reason; observed = now })
              m.recovery;
        orphaned = delete key m.orphaned;
        legacy_targets = delete key m.legacy_targets;
      })

unfoldable pub set_file_meta : Io → ℕ → ℕ → Bytes → FileMeta → Store → Option Error × Store
set_file_meta io now fresh key meta s =
    update_metadata io (λ m. ok (put_file_meta now fresh key meta m)) s

unfoldable pub remove_file_meta : Io → Bytes → Store → Option Error × Store
remove_file_meta io key s = update_metadata io (λ m. ok (delete_file_metadata key m)) s

-- `source` is what ResolvePathEntry gives.
unfoldable pub set_link_source : Io → Bytes → Result Bytes → Store → Option Error × Store
set_link_source io key (err e) s = (some e, s)
set_link_source io key (ok source) s = update_metadata io (put_link_source key (clean source)) s

unfoldable pub mark_link_orphan : Io → Bytes → ℕ → Store → Option Error × Store
mark_link_orphan io key now s =
    if time_or_zero (lookup key s.memory.orphaned) == 0
    then update_metadata io (put_orphan key now) s
    else (none, s)

abbrev has_state : Option RecoveryEntry → Bool
has_state none = false
has_state (some entry) = elim entry.state [ other_state name ↦ not (is_empty name) | _ ↦ true ]

unfoldable pub clear_link_orphan : Io → Bytes → Store → Option Error × Store
clear_link_orphan io key s =
    if (time_or_zero (lookup key s.memory.orphaned) == 0)
      && is_empty (text_or_empty (lookup key s.memory.legacy_targets))
      && not (has_state (lookup key s.memory.recovery))
    then (none, s)
    else update_metadata io (λ m. ok (drop_orphan key m)) s

unfoldable pub mark_link_recovery :
    Io → Bytes → RecoveryState → Bytes → ℕ → Store → Option Error × Store
mark_link_recovery io key (other_state name) reason now s = (some message, s)
mark_link_recovery io key state reason now s =
    update_metadata io (put_recovery key state reason now) s
