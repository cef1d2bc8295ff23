-- ===== src/Meta.antt =====
-- The metadata of a vault: protected files, their project-side links, orphans and recovery entries,
-- on disk and in memory (internal/passfs/volume.go, the state under metadataMu; metadata_lock.go).
mod Disk
mod Updates
pub mod Reconcile
pub mod Loaded
pub mod Kept
pub mod Shrinking
pub mod Unchanged
pub mod Loading
pub mod Reading
pub mod Merge
pub mod Atomic
pub mod Sound
pub mod Runs
unfoldable pub use Disk.{
  with_lock, read_metadata, advance, merge_access, drop_flushed, update_metadata, refresh_metadata,
  record_file_access, flush_access_times, flush_in_background, valid_recovery, new_virtual_inode,
}
pub use Disk.{
  RecoveryState, trash, conflict, other_state, RecoveryEntry, Metadata, Save, saved, not_saved,
  saved_but, Io, Store, has, text_or_empty, time_or_zero, minute,
}
unfoldable pub use Updates.{
  put_file_meta, delete_file_metadata, put_link_source, put_orphan, drop_orphan, put_recovery,
  set_file_meta, remove_file_meta, set_link_source, mark_link_orphan, clear_link_orphan,
  mark_link_recovery,
}
