-- ===== src/FileSystem/Changes.antt =====
-- Opening, creating and removing an object of the mounted file system (internal/passfs/filesystem.go:
-- Open, Create, MakeDirectory, Unlink, RemoveDirectory, Rename). Each call gives its reply and the state
-- after it.
use passfs.Prelude.{
  ℕ, Bool, true, false, not, Option, none, some, Bytes, ◌==◌, nat_equality, list_equality,
  if◌then◌else◌,
}
use passfs.Error.{Error, Errno, einval, eperm, enotdir, eisdir, ebusy, errno_from_error}
use passfs.Result.{Result, ok, err}
use passfs.Path.{clean}
use passfs.FileMeta.{Attributes, type_file, type_directory}
use passfs.Handle.{Volume, OpenFile, attributes, close}
use passfs.Opening.{Flags, Opening, virtual_type, open_file, create_file}
use passfs.Objects.{normalize_object_id, namespace_directory, storage_path}
use passfs.FileSystem.{Backend, NodeEntry, looked_up, Reply, given, failed, child_path, look_up}
use passfs.FileSystem.Reserved.{is_reserved_path}

abbrev pub reply_of {ℓ} : {A : Type ℓ} → Result A → Reply A
reply_of (ok a) = given a
reply_of (err e) = failed (errno_from_error (some e))

abbrev pub with_errno : {V : Type 0} → Option Error × V → Errno × V
with_errno (e, v) = (errno_from_error e, v)

module _ {V : Type 0} (b : Backend V) where
  -- The volume as the handles see it.
  abbrev pub handle_volume : Volume V
  handle_volume = record {
    max_file_size = b.source.max_file_size;
    uid = b.uid;
    gid = b.gid;
    persist = b.source.persist;
  }

  abbrev pub from_opening : Opening V → Reply OpenFile × V
  from_opening o = (reply_of o.result, o.after)

  abbrev pub open_found : ℕ → ℕ → Bytes → Flags → V → Reply NodeEntry → Reply OpenFile × V
  open_found accessed now relative flags v (failed n) = (failed n, v)
  open_found accessed now relative flags v (given e) = elim e.type [
    | type_directory ↦ (failed eisdir, v)
    | type_file ↦ from_opening (open_file b.source (storage_path relative) flags accessed now v)
  ]

  -- Open
  unfoldable pub open_node : ℕ → ℕ → Bytes → Flags → V → Reply OpenFile × V
  unfolding look_up looked_up open_file
  open_node accessed now relative flags v =
      open_found accessed now relative flags (looked_up b relative v) (look_up b now relative v)

  abbrev pub entry_of : ℕ → Attributes → NodeEntry
  entry_of parent a = record a { parent_inode = parent }

  -- The attributes of the new handle, which is closed if it has none.
  abbrev pub created_with :
      ℕ → OpenFile → V → Option Attributes × Errno → Reply (NodeEntry × OpenFile) × V
  created_with parent h v (some a, n) = (given (entry_of parent a, h), v)
  created_with parent h v (none, n) = (failed n, (close handle_volume h v).volume_after)

  abbrev pub created_object : ℕ → ℕ → Opening V → Reply (NodeEntry × OpenFile) × V
  created_object now parent o = elim o.result [
    | err e ↦ (failed (errno_from_error (some e)), o.after)
    | ok h ↦ created_with parent h o.after (attributes handle_volume now h)
  ]

  abbrev pub create_child :
      ℕ → ℕ → ℕ → ℕ → ℕ → Flags → ℕ → V → Result Bytes → Reply (NodeEntry × OpenFile) × V
  create_child fresh created_at accessed now parent flags mode v (err e) = (failed einval, v)
  create_child fresh created_at accessed now parent flags mode v (ok relative) =
      if is_reserved_path relative
      then (failed eperm, v)
      else created_object now parent
          (create_file b.source (storage_path relative) flags mode fresh created_at accessed now v)

  abbrev pub create_in :
      ℕ
      → ℕ
      → ℕ
      → ℕ
      → Bytes
      → Bytes
      → Flags
      → ℕ
      → V
      → Reply NodeEntry
      → Reply (NodeEntry × OpenFile) × V
  create_in fresh created_at accessed now parent name flags mode v (failed n) = (failed n, v)
  create_in fresh created_at accessed now parent name flags mode v (given e) = elim e.type [
    | type_file ↦ (failed enotdir, v)
    | type_directory ↦
        create_child fresh created_at accessed now e.inode flags mode v (child_path parent name)
  ]

  abbrev pub create_named :
      ℕ
      → ℕ
      → ℕ
      → ℕ
      → Bytes
      → Bytes
      → Flags
      → ℕ
      → V
      → Result Bytes
      → Reply (NodeEntry × OpenFile) × V
  create_named fresh created_at accessed now parent name flags mode v (err e) = (failed einval, v)
  create_named fresh created_at accessed now parent name flags mode v (ok id) =
      create_in fresh created_at accessed now parent name flags mode (looked_up b parent v)
        (look_up b now parent v)

  -- Create
  unfoldable pub create :
      ℕ → ℕ → ℕ → ℕ → Bytes → Bytes → Flags → ℕ → V → Reply (NodeEntry × OpenFile) × V
  unfolding look_up looked_up create_file normalize_object_id attributes close
  create fresh created_at accessed now parent name flags mode v =
      if not (clean parent == namespace_directory)
      then (failed eperm, v)
      else create_named fresh created_at accessed now parent name flags mode v
          (normalize_object_id name)

  -- MakeDirectory, RemoveDirectory and Rename
  abbrev pub make_directory : Bytes → Bytes → ℕ → V → Reply NodeEntry × V
  make_directory parent name mode v = (failed eperm, v)

  abbrev pub remove_directory : Bytes → Bytes → V → Errno × V
  remove_directory parent name v = (eperm, v)

  abbrev pub rename_node : Bytes → Bytes → Bytes → Bytes → ℕ → V → Errno × V
  rename_node old_parent old_name new_parent new_name flags v = (eperm, v)

  abbrev pub unlink_typed : Bytes → V → Result Bool → Errno × V
  unlink_typed storage v (err e) = (errno_from_error (some e), v)
  unlink_typed storage v (ok true) = (eisdir, v)
  unlink_typed storage v (ok false) = with_errno (b.remove storage v)

  abbrev pub unlink_child : V → Result Bytes → Errno × V
  unlink_child v (err e) = (einval, v)
  unlink_child v (ok relative) =
      if is_reserved_path relative
      then (eperm, v)
      else if not (b.try_lock v)
      then (ebusy, v)
      else unlink_typed (storage_path relative) v (virtual_type b.source (storage_path relative) v)

  -- Unlink
  unfoldable pub unlink : Bytes → Bytes → V → Errno × V
  unfolding child_path storage_path virtual_type
  unlink parent name v = unlink_child v (child_path parent name)
