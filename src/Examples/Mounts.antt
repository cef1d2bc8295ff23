-- ===== src/Examples/Mounts.antt =====
-- The mounted file system and its identifiers: the theorems of Objects and FileSystem at a small volume.
use passfs.Prelude.{
  nat_equality, list_equality, ◌==◌, ℕ, ◌+◌, ◌^◌, ◌≡◌, ◌⊎◌, refl, true, false, none, [], ◌∷◌, ◌++◌,
  codes, Bytes, if◌then◌else◌,
}
use passfs.Error.{is_not_exist, errno, enoent}
use passfs.Result.{Result, ok, err}
use passfs.Path.{
  clean, components, join, has_prefix, join_path, validate_relative_path, validate_name,
  directory_path, encrypted_path,
}
use passfs.FileMeta.{inode_from_file_meta, type_file, FileMeta, file_attributes}
use passfs.Handle.{shown, OpenFile}
use passfs.Opening.{
  take_locks, nothing_held, Source, Flags, Kind, directory, regular_file, virtual_type,
  finish_file_open, new_meta,
}
use passfs.Objects.{
  normalize_object_id, object_storage_path, object_id_from_storage_path, storage_path,
  virtual_object_id, trim_space, to_lower, without_dashes,
}
use passfs.Objects.Storage.{object_path, object_id-storage_path, LeadsTo}
use passfs.FileSystem.{
  ListedEntry, read_directory, Backend, NodeEntry, looked_up, look_up, child_path, namespace_inode,
}
use passfs.FileSystem.Reserved.{is_reserved_path}
use passfs.FileSystem.Changes.{open_node, create, unlink, handle_volume, with_errno}
use passfs.FileSystem.Confined.{IsPlace, open_node-confined, unlink-confined}
use passfs.FileSystem.Created.{create_lem}
use passfs.FileSystem.Listed.{read_directory-child_path}

abbrev id : Bytes
id = codes "0123abcd-0000-4000-8000-0123456789ab"

abbrev new_id : Bytes
new_id = codes "9123abcd-0000-4000-8000-0123456789ab"

object_id-storage_path_example :
    object_id_from_storage_path (object_path id)
    ≡ normalize_object_id (codes " 0123ABCD-0000-4000-8000-0123456789ab")
unfolding object_storage_path normalize_object_id trim_space to_lower without_dashes join_path clean
    components join
object_id-storage_path_example =
    object_id-storage_path (codes " 0123ABCD-0000-4000-8000-0123456789ab") (object_path id) refl

abbrev note : FileMeta
note = record { size = 3; mode = 384; mtime = 10; atime = 10; inode = 2 ^ 63 + 5 }

-- One object is on the disk.
abbrev kind_of : Bytes → Result Kind
kind_of path =
    if path == codes "/vault/objects"
    then ok directory
    else if path == codes "/vault/objects/" ++ (id ++ codes ".age")
    then ok regular_file
    else err (errno enoent)

abbrev source : Source ℕ
source = record {
  root = codes "/vault";
  max_file_size = 100;
  lstat = λ path v. kind_of path;
  file_meta = λ path v. note;
  after_file_meta = λ path v. v;
  authorize = λ path operation v. (none, v + 1);
  decrypt = λ path operation v. (ok (codes "abc"), v + 1);
  record_access = λ path at v. v;
  persist = λ path content meta v. (none, v + 10);
}

abbrev backend : Backend ℕ
backend = record {
  source = source;
  uid = 501;
  gid = 20;
  process_uid = 501;
  process_gid = 20;
  directory_info = λ path v. record { modified = 5; size = 96; permissions = 448; inode = 77 };
  lstat_objects = λ v. ok (record { modified = 5; size = 96; permissions = 448; inode = 77 });
  read_dir = λ v. ok (record { name = id ++ codes ".age"; is_regular = true; failure = none } ∷ []);
  try_lock = λ v. true;
  remove = λ path v. (none, v + 100);
  begin_edit = λ path token pid v. (none, v + 1000);
  end_edit = λ path token pid v. (none, v + 2000);
  begin_encrypt = λ token pid v. (none, v + 3000);
  end_encrypt = λ token pid v. (none, v + 4000);
  writable_handle = λ path pid v. none;
  put_handle = λ h v. v;
  chmod = λ path mode v. (none, v);
  stat = λ path v. ok 5;
  chtimes = λ path a m v. (none, v);
  set_file_meta = λ path meta v. (none, v);
}

abbrev flags : Flags
flags = record { writable = true; truncate = false; exclusive = true; append = false }

abbrev object : Bytes
object = codes "by-id/" ++ id

-- The handle that an open of the object gives.
abbrev handle : OpenFile
handle =
    (finish_file_open source (object_path id) flags (codes "abc") (record note { atime = 30 }) false
      (take_locks nothing_held)).0

open_node-confined_example : IsPlace object (object_path id) × (true ≡ true) × (false ≡ false)
unfolding file_attributes open_node look_up looked_up validate_relative_path clean components join
    has_prefix is_reserved_path virtual_object_id directory_path join_path is_not_exist
    encrypted_path
open_node-confined_example = open_node-confined backend 30 31 object flags 0 handle refl

abbrev new_handle : OpenFile
new_handle =
    (finish_file_open source (object_path new_id) flags [] (new_meta 420 9 40) false
      (take_locks nothing_held)).0

abbrev new_entry : NodeEntry
new_entry = record (shown (handle_volume backend) 31 new_handle) { parent_inode = namespace_inode }

create_lem_example :
    ((i : Bytes) × (normalize_object_id new_id ≡ ok i) × (object_path new_id ≡ object_path i))
    × (true ≡ true)
    × (false ≡ false)
    × (new_entry.parent_inode ≡ namespace_inode)
    × (new_entry
        ≡ record (shown (handle_volume backend) 31 new_handle) { parent_inode = namespace_inode })
unfolding create look_up looked_up validate_relative_path clean components join has_prefix
    is_reserved_path virtual_object_id directory_path join_path is_not_exist encrypted_path
    normalize_object_id trim_space to_lower without_dashes storage_path child_path validate_name
create_lem_example =
    create_lem backend 9 40 30 31 (codes "./by-id/") new_id flags 420 0 new_entry new_handle refl

abbrev listed : ListedEntry
listed = record {
  name = id;
  entry = record (file_attributes 31 note 501 20 (2 ^ 63 + 5)) { parent_inode = 77 };
}

read_directory-child_path_example :
    ((i : Bytes) × (normalize_object_id id ≡ ok i) × (storage_path object ≡ object_path i))
    × (listed.entry.type ≡ type_file)
    × (listed.entry.parent_inode ≡ 77)
unfolding read_directory validate_relative_path clean components join has_prefix directory_path
    join_path is_not_exist normalize_object_id trim_space to_lower without_dashes virtual_type
    inode_from_file_meta child_path validate_name
read_directory-child_path_example =
    read_directory-child_path backend 31 (codes "by-id/.") 0 (listed ∷ []) 0 listed object refl refl
      refl refl

abbrev mark : Bytes
mark = codes "begin:00112233445566778899aabbccddeeff"

unlink-confined_example :
    ((unlink backend (codes "by-id") id 0).1 ≡ 0)
    ⊎ ((relative : Bytes) × (child_path (codes "by-id") id ≡ ok relative)
        × (is_reserved_path relative ≡ false)
        × LeadsTo relative (storage_path relative)
        × (true ≡ true)
        × (virtual_type source (storage_path relative) 0 ≡ ok false)
        × (unlink backend (codes "by-id") id 0
            ≡ with_errno (backend.remove (storage_path relative) 0)))
unlink-confined_example = unlink-confined backend (codes "by-id") id 0
