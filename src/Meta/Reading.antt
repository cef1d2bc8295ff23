-- ===== src/Meta/Reading.antt =====
-- The record of one file, read again from the disk where it is missing in memory
-- (internal/passfs/volume.go: fileMeta).
use passfs.Prelude.{list_equality, nat_equality, ℕ, Option, none, some, Bytes}
use passfs.Error.{Error}
use passfs.Table.{lookup}
use passfs.Path.{metadata_key}
use passfs.FileMeta.{FileMeta}
use passfs.Meta.Disk.{Io, Store, refresh_metadata}

-- What stands for a file without a record: mode 0600, with the times and the inode of its ciphertext.
abbrev pub default_meta : ℕ → ℕ → FileMeta
default_meta modified inode = record {
  size = 0;
  mode = 384;
  mtime = modified;
  atime = modified;
  inode = inode;
}

abbrev pub meta_or : FileMeta → Option FileMeta → FileMeta
meta_or d none = d
meta_or d (some meta) = meta

abbrev pub after_refresh : Bytes → FileMeta → Option Error × Store → FileMeta × Store
after_refresh key d (some e, s) = (d, s)
after_refresh key d (none, s) = (meta_or d (lookup key s.memory.files), s)

abbrev pub or_refreshed : Io → Bytes → FileMeta → Store → Option FileMeta → FileMeta × Store
or_refreshed io key d s (some meta) = (meta, s)
or_refreshed io key d s none = after_refresh key d (refresh_metadata io s)

-- fileMeta; `modified` and `inode` are those of the ciphertext's os.FileInfo, or of the clock and the path
-- where there is none.
unfoldable pub file_meta : Io → Bytes → ℕ → ℕ → Store → FileMeta × Store
unfolding refresh_metadata
file_meta io relative modified inode s =
    or_refreshed io (metadata_key relative) (default_meta modified inode) s
      (lookup (metadata_key relative) s.memory.files)
