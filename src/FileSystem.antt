-- ===== src/FileSystem.antt =====
-- The file system that the adapters mount (internal/passfs/filesystem.go): looking up, listing, opening,
-- creating and removing objects under the one directory by-id.
pub mod Reserved
pub mod Changes
pub mod Settings
pub mod Confined
pub mod Children
pub mod Created
pub mod Listed
pub mod Sessions
use passfs.Prelude.{
  ℕ, ◌+◌, ◌/◌, Bool, true, false, not, ◌&&◌, ◌||◌, Option, none, some, List, [], ◌∷◌, Bytes, codes,
  slash, ◌==◌, nat_equality, list_equality, list_beq, if◌then◌else◌, is_some,
}
use passfs.Error.{
  Error, Errno, success, einval, eperm, enoent, enotdir, eisdir, ebusy, message, errno_from_error,
}
use passfs.Result.{Result, ok, err}
use passfs.Path.{
  clean, dot, join_path, validate_relative_path, validate_name, encrypted_suffix, has_prefix, split,
}
use passfs.FileMeta.{
  ItemType, type_file, type_directory, FileMeta, Attributes, SetAttributes, stable_inode,
  inode_from_file_meta, file_attributes,
}
use passfs.Handle.{OpenFile}
use passfs.Opening.{Source, Flags, Opening, virtual_type, open_file, create_file}
use passfs.Objects.{
  normalize_object_id, objects_directory, namespace_directory, storage_path, virtual_object_id,
}
use passfs.Meta.Reconcile.{has_suffix, trim_suffix}
use passfs.FileSystem.Reserved.{is_reserved_path}

-- What an os.FileInfo of a directory tells.
pub record DirectoryInfo : Type 0 where
  pub modified : ℕ
  pub size : ℕ
  pub permissions : ℕ
  pub inode : ℕ  -- what inodeFromFileInfo gives

-- fsapi.Entry has one field.
abbrev pub NodeEntry : Type 0
NodeEntry = Attributes

pub record ListedEntry : Type 0 where
  pub name : Bytes
  pub entry : NodeEntry

-- A result, or the errno that the call ends with.
pub data Reply {ℓ} (A : Type ℓ) : Type ℓ where
  given : A → Reply A
  failed : Errno → Reply A

-- One entry of os.ReadDir: its name, whether it is regular, and the error of its Info.
pub record RawEntry : Type 0 where
  pub name : Bytes
  pub is_regular : Bool
  pub failure : Option Error

-- What the file system uses of its volume besides what an open uses. The state `V` stands for the disk and
-- the volume; `remove` is removeProtectedFileLocked, run under the namespace lock that `try_lock` may find
-- taken, and the sessions' functions take the storage path, the token and the caller. `writable_handle` is
-- writableOpenHandle, and `put_handle` replaces that handle. Of an os.Stat only the modification time is
-- used; `set_file_meta` is setFileMeta.
pub record Backend (V : Type 0) : Type 0 where
  pub source : Source V
  pub uid : ℕ
  pub gid : ℕ
  pub process_uid : ℕ
  pub process_gid : ℕ
  pub directory_info : Bytes → V → DirectoryInfo
  pub lstat_objects : V → Result DirectoryInfo
  pub read_dir : V → Result (List RawEntry)
  pub try_lock : V → Bool
  pub remove : Bytes → V → Option Error × V
  pub begin_edit : Bytes → Bytes → ℕ → V → Option Error × V
  pub end_edit : Bytes → Bytes → ℕ → V → Option Error × V
  pub begin_encrypt : Bytes → ℕ → V → Option Error × V
  pub end_encrypt : Bytes → ℕ → V → Option Error × V
  pub writable_handle : Bytes → ℕ → V → Option OpenFile
  pub put_handle : OpenFile → V → V
  pub chmod : Bytes → ℕ → V → Option Error × V
  pub stat : Bytes → V → Result ℕ
  pub chtimes : Bytes → ℕ → ℕ → V → Option Error × V
  pub set_file_meta : Bytes → FileMeta → V → Option Error × V

abbrev pub child_of : Bytes → Bytes → Option Error → Result Bytes
child_of parent name (some e) = err e
child_of parent name none = if not (parent == []) then ok (join_path parent name) else ok name

unfoldable pub child_path : Bytes → Bytes → Result Bytes
unfolding list_beq
child_path parent name = child_of parent name (validate_name name)

-- What Lookup lets through: the root, the directory by-id and the paths of objects.
unfoldable pub is_visible : Bytes → Bool
unfolding list_beq
is_visible relative =
    not (is_some (validate_relative_path relative))
    && not (is_reserved_path relative)
    && (clean relative == dot
        || clean relative == namespace_directory
        || is_some (virtual_object_id (clean relative)))

abbrev pub root_inode : ℕ
root_inode = stable_inode (codes "/")

abbrev pub namespace_inode : ℕ
namespace_inode = stable_inode namespace_directory

-- parentInode, whose error is always nil
unfoldable pub parent_inode : Bytes → ℕ → ℕ
unfolding list_beq
parent_inode relative own =
    if relative == [] || relative == dot
    then own
    else if clean relative == namespace_directory
    then root_inode
    else namespace_inode

module _ {V : Type 0} (b : Backend V) where
  abbrev pub directory_attributes : DirectoryInfo → ℕ → Attributes
  directory_attributes info inode = record {
    type = type_directory;
    inode = inode;
    parent_inode = 0;
    size = info.size;
    blocks = (info.size + 511) / 512;
    mode = info.permissions;
    uid = b.process_uid;
    gid = b.process_gid;
    link_count = 1;
    access_time = info.modified;
    change_time = info.modified;
    modify_time = info.modified;
    birth_time = info.modified;
  }

  abbrev pub shown_file : ℕ → Bytes → V → Attributes
  shown_file now storage v =
      let meta = b.source.file_meta storage v in
      file_attributes now meta b.uid b.gid (inode_from_file_meta meta storage)

  abbrev pub directory_inode : Bytes → ℕ
  directory_inode relative =
      if clean relative == namespace_directory then namespace_inode else root_inode

  abbrev pub as_entry : Bytes → Attributes → NodeEntry
  as_entry relative attributes = record attributes {
    parent_inode = parent_inode relative attributes.inode;
  }

  abbrev pub look_typed : ℕ → Bytes → V → Result Bool → Reply NodeEntry
  look_typed now relative v (err e) = failed (errno_from_error (some e))
  look_typed now relative v (ok true) = given (
      as_entry relative (
        directory_attributes (b.directory_info (storage_path relative) v)
          (directory_inode relative)))
  look_typed now relative v (ok false) =
      given (as_entry relative (shown_file now (storage_path relative) v))

  -- Lookup; `now` is the clock. An invalid, a reserved and an unknown path all end with ENOENT.
  unfoldable pub look_up : ℕ → Bytes → V → Reply NodeEntry
  unfolding is_visible parent_inode storage_path
  look_up now relative v =
      if is_visible relative
      then look_typed now relative v (virtual_type b.source (storage_path relative) v)
      else failed enoent

  -- The state after a Lookup.
  abbrev pub looked_typed : Bytes → V → Result Bool → V
  looked_typed storage v (ok false) = b.source.after_file_meta storage v
  looked_typed storage v _ = v

  unfoldable pub looked_up : Bytes → V → V
  unfolding is_visible storage_path
  looked_up relative v =
      if is_visible relative
      then looked_typed (storage_path relative) v (virtual_type b.source (storage_path relative) v)
      else v

  -- Whether an entry of the objects' directory is an object.
  abbrev pub is_object_entry : RawEntry → Bool
  is_object_entry e =
      e.is_regular
      && has_suffix e.name encrypted_suffix
      && (elim (normalize_object_id (trim_suffix e.name encrypted_suffix)) [
        | ok id ↦ true
        | err f ↦ false
      ])

  abbrev pub entry_place : RawEntry → Bytes
  entry_place e = join_path objects_directory (trim_suffix e.name encrypted_suffix)

  abbrev pub listed_entry : ℕ → ℕ → RawEntry → V → ListedEntry
  listed_entry now parent e v = record {
    name = trim_suffix e.name encrypted_suffix;
    entry = record (shown_file now (entry_place e) v) { parent_inode = parent };
  }

  abbrev pub add_listed : ListedEntry → Reply (List ListedEntry) × V → Reply (List ListedEntry) × V
  add_listed d (failed n, v) = (failed n, v)
  add_listed d (given es, v) = (given (d ∷ es), v)

  unfoldable pub list_entries : ℕ → ℕ → List RawEntry → V → Reply (List ListedEntry) × V
  unfolding normalize_object_id
  list_entries now parent [] v = (given [], v)
  list_entries now parent (e ∷ es) v =
      let rest = list_entries now parent es v in
      let later = list_entries now parent es (b.source.after_file_meta (entry_place e) v) in
      elim e.failure [
        | some x ↦ (failed (errno_from_error (some x)), v)
        | none ↦ if is_object_entry e then add_listed (listed_entry now parent e v) later else rest
      ]

  abbrev pub list_read : ℕ → V → Result (List RawEntry) → Reply (List ListedEntry) × V
  list_read now v (err e) = (failed (errno_from_error (some e)), v)
  list_read now v (ok es) = list_entries now (b.directory_info objects_directory v).inode es v

  abbrev pub list_typed : ℕ → V → Result Bool → Reply (List ListedEntry) × V
  list_typed now v (err e) = (failed (errno_from_error (some e)), v)
  list_typed now v (ok false) = (failed enotdir, v)
  list_typed now v (ok true) = list_read now v (b.read_dir v)

  abbrev pub list_root : Result DirectoryInfo → Reply (List ListedEntry)
  list_root (err e) = failed (errno_from_error (some e))
  list_root (ok info) = given (
      record {
        name = namespace_directory;
        entry = record (directory_attributes info namespace_inode) { parent_inode = root_inode };
      }
      ∷ [])

  -- ReadDirectory: the reply and the state after it. An object's Info is asked for before its fileMeta.
  unfoldable pub read_directory : ℕ → Bytes → V → Reply (List ListedEntry) × V
  unfolding list_beq list_entries
  read_directory now relative v =
      if is_some (validate_relative_path relative)
      then (failed einval, v)
      else if clean relative == dot
      then (list_root (b.lstat_objects v), v)
      else if not (clean relative == namespace_directory)
      then (failed enotdir, v)
      else list_typed now v (virtual_type b.source objects_directory v)
