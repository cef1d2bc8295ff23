-- ===== src/FileMeta.antt =====
-- The metadata of one protected file and the attributes shown for it (internal/passfs/volume.go:
-- FileMeta, inodeFromFileMeta; filesystem.go: stableInode, fileAttributes; internal/fsapi:
-- Attributes, SetAttributes). Times are nanoseconds from the Unix epoch, never before it.
use passfs.Prelude.{
  ℕ, ◌+◌, ◌*◌, ◌/◌, ◌%◌, ◌^◌, ◌≤◌, Option, [], ◌∷◌, Bytes, ltb, leb, ◌==◌, nat_equality,
  if◌then◌else◌, arith,
}
use Prim.Native.Nat.{bit_xor}
use passfs.Path.{clean}

pub record FileMeta : Type 0 where
  pub size : ℕ  -- uint64
  pub mode : ℕ  -- uint32
  pub mtime : ℕ
  pub atime : ℕ
  pub inode : ℕ  -- uint64

pub data ItemType : Type 0 where
  type_file type_directory : ItemType

pub record Attributes : Type 0 where
  pub type : ItemType
  pub inode : ℕ
  pub parent_inode : ℕ
  pub size : ℕ
  pub blocks : ℕ
  pub mode : ℕ
  pub uid : ℕ
  pub gid : ℕ
  pub link_count : ℕ
  pub access_time : ℕ
  pub change_time : ℕ
  pub modify_time : ℕ
  pub birth_time : ℕ

-- A pointer field that is nil is `none`.
pub record SetAttributes : Type 0 where
  pub size : Option ℕ
  pub mode : Option ℕ
  pub uid : Option ℕ
  pub gid : Option ℕ
  pub access_time : Option ℕ
  pub modify_time : Option ℕ

-- `m & 0o777`
abbrev pub permissions : ℕ → ℕ
permissions m = m % 512

-- fnv.New64a
abbrev fnv_offset : ℕ
fnv_offset = 14695981039346656037

abbrev fnv_prime : ℕ
fnv_prime = 1099511628211

unfoldable pub fnv_hash : ℕ → Bytes → ℕ
fnv_hash h [] = h
fnv_hash h (b ∷ bs) = fnv_hash ((bit_xor h b * fnv_prime) % 2 ^ 64) bs

-- `inode += 2` on the two values that are not inodes
abbrev pub above_one : ℕ → ℕ
above_one inode = if ltb inode 2 then inode + 2 else inode

unfoldable pub stable_inode : Bytes → ℕ
stable_inode relative = above_one (fnv_hash fnv_offset (clean relative))

unfoldable pub inode_from_file_meta : FileMeta → Bytes → ℕ
inode_from_file_meta meta relative = if leb 2 meta.inode then meta.inode else stable_inode relative

-- The parent's inode is left at its zero value. A zero MTime shows the time of the call, `now`; a zero ATime shows the modification time.
unfoldable pub file_attributes : ℕ → FileMeta → ℕ → ℕ → ℕ → Attributes
file_attributes now meta uid gid inode =
    let mod_time = if meta.mtime == 0 then now else meta.mtime in
    record {
      type = type_file;
      inode = inode;
      parent_inode = 0;
      size = meta.size;
      blocks = (meta.size + 511) / 512;
      mode = permissions meta.mode;
      uid = uid;
      gid = gid;
      link_count = 1;
      access_time = if meta.atime == 0 then mod_time else meta.atime;
      change_time = mod_time;
      modify_time = mod_time;
      birth_time = mod_time;
    }

-- No file is shown with the inode 0 or 1.
pub inode_from_file_meta-ge :
    (meta : FileMeta) (relative : Bytes) → 2 ≤ inode_from_file_meta meta relative
unfolding inode_from_file_meta stable_inode
inode_from_file_meta-ge meta relative = ground arith
