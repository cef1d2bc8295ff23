-- ===== src/FileSystem/Settings.antt =====
-- Attributes and the session marks of the mounted file system (internal/passfs/filesystem.go:
-- GetAttributes, SetAttributes, SetExtendedAttribute, setEditSession, setEncryptSession).
use passfs.Prelude.{
  ℕ, Bool, true, false, not, ◌||◌, Option, none, some, [], Bytes, codes, ◌==◌, nat_equality,
  list_equality, list_beq, if◌then◌else◌, is_some,
}
use passfs.Error.{Error, Errno, success, einval, eperm, enotsup, errno_from_error}
use passfs.Result.{Result, ok, err}
use passfs.Path.{directory_path, encrypted_path}
use passfs.FileMeta.{
  FileMeta, ItemType, type_file, type_directory, Attributes, SetAttributes, permissions,
  inode_from_file_meta, file_attributes,
}
use passfs.Handle.{OpenFile, flush, close}
use passfs.Handle
use passfs.Opening.{Flags, Opening, open_file}
use passfs.Objects.{storage_path}
use passfs.Token.{Operation, begin, finish, parse_session_command}
use passfs.FileSystem.{Backend, NodeEntry, looked_up, Reply, given, failed, look_up}
use passfs.FileSystem.Changes.{handle_volume, with_errno}

-- The names of the marks in the Linux build.
abbrev pub edit_session_marker : Bytes
edit_session_marker = codes "user.passfs.edit-session"

abbrev pub encrypt_session_marker : Bytes
encrypt_session_marker = codes "user.passfs.encrypt-session"

-- O_RDWR alone
abbrev pub read_write : Flags
read_write = record { writable = true; truncate = false; exclusive = false; append = false }

abbrev pub given_or : {A : Type 0} → A → Option A → A
given_or a none = a
given_or a (some x) = x

abbrev pub masked_or : ℕ → Option ℕ → ℕ
masked_or mode none = mode
masked_or mode (some m) = permissions m

-- A nil pointer or the volume's own value.
abbrev pub is_foreign : Option ℕ → ℕ → Bool
is_foreign none own = false
is_foreign (some x) own = not (x == own)

module _ {V : Type 0} (b : Backend V) where
  abbrev pub attributes_of : Reply NodeEntry → Reply Attributes
  attributes_of (given e) = given e
  attributes_of (failed n) = failed n

  abbrev pub handle_reply : Option Attributes × Errno → Reply Attributes
  handle_reply (some a, n) = given a
  handle_reply (none, n) = failed n

  -- GetAttributes; without a handle the state after it is that of the lookup.
  unfoldable pub get_attributes : ℕ → Bytes → Option OpenFile → V → Reply Attributes
  unfolding look_up looked_up Handle.attributes
  get_attributes now relative none v = attributes_of (look_up b now relative v)
  get_attributes now relative (some h) v = handle_reply (Handle.attributes (handle_volume b) now h)

  abbrev pub change_mode : Bytes → Option ℕ → V → Option Error × V
  change_mode path none v = (none, v)
  change_mode path (some mode) v = b.chmod path (permissions mode) v

  abbrev pub set_both : Bytes → SetAttributes → V → Result ℕ → Option Error × V
  set_both path input v (err e) = (some e, v)
  set_both path input v (ok modified) =
      b.chtimes path (given_or modified input.access_time) (given_or modified input.modify_time) v

  abbrev pub set_times : Bytes → SetAttributes → V → Option Error × V
  set_times path input v =
      if is_some input.modify_time || is_some input.access_time
      then set_both path input v (b.stat path v)
      else (none, v)

  abbrev pub after_times : ℕ → Bytes → Option Error × V → Reply Attributes × V
  after_times now relative (some e, v) = (failed (errno_from_error (some e)), v)
  after_times now relative (none, v) = (get_attributes now relative none v, looked_up b relative v)

  abbrev pub after_mode :
      ℕ → Bytes → Bytes → SetAttributes → Option Error × V → Reply Attributes × V
  after_mode now relative path input (some e, v) = (failed (errno_from_error (some e)), v)
  after_mode now relative path input (none, v) = after_times now relative (set_times path input v)

  abbrev pub set_directory : ℕ → Bytes → SetAttributes → V → Result Bytes → Reply Attributes × V
  set_directory now relative input v (err e) = (failed (errno_from_error (some e)), v)
  set_directory now relative input v (ok path) =
      after_mode now relative path input (change_mode path input.mode v)

  -- A call on an open handle, which the state gets back.
  abbrev pub set_open : ℕ → OpenFile → SetAttributes → V → Reply Attributes × V
  set_open now h input v =
      let (g, a, n) = Handle.set_attributes (handle_volume b) now h input in
      (handle_reply (a, n), b.put_handle g v)

  abbrev pub close_after : Reply Attributes → OpenFile → V → Reply Attributes × V
  close_after reply h v = (reply, (close (handle_volume b) h v).volume_after)

  abbrev pub after_flush : Attributes → OpenFile × Errno × V → Reply Attributes × V
  after_flush a (h, success, v) = close_after (given a) h v
  after_flush a (h, n, v) = close_after (failed n) h v

  abbrev pub after_resize : V → OpenFile × Option Attributes × Errno → Reply Attributes × V
  after_resize v (h, none, n) = close_after (failed n) h v
  after_resize v (h, some a, n) = after_flush a (flush (handle_volume b) h v)

  abbrev pub resize_opened : ℕ → SetAttributes → Opening V → Reply Attributes × V
  resize_opened now input o = elim o.result [
    | err e ↦ (failed (errno_from_error (some e)), o.after)
    | ok h ↦ after_resize o.after (Handle.set_attributes (handle_volume b) now h input)
  ]

  abbrev pub with_input : SetAttributes → FileMeta → FileMeta
  with_input input meta = record meta {
    mode = masked_or meta.mode input.mode;
    mtime = given_or meta.mtime input.modify_time;
    atime = given_or meta.atime input.access_time;
  }

  abbrev pub after_meta : ℕ → Bytes → FileMeta → Option Error × V → Reply Attributes × V
  after_meta now storage meta (some e, v) = (failed (errno_from_error (some e)), v)
  after_meta now storage meta (none, v) =
      (given (file_attributes now meta b.uid b.gid (inode_from_file_meta meta storage)), v)

  abbrev pub set_stored : ℕ → Bytes → SetAttributes → V → Result ℕ → Reply Attributes × V
  set_stored now storage input v (err e) = (failed (errno_from_error (some e)), v)
  set_stored now storage input v (ok modified) =
      let meta = with_input input (b.source.file_meta storage v) in
      after_meta now storage meta
        (b.set_file_meta storage meta (b.source.after_file_meta storage v))

  abbrev pub set_encrypted : ℕ → Bytes → SetAttributes → V → Result Bytes → Reply Attributes × V
  set_encrypted now storage input v (err e) = (failed (errno_from_error (some e)), v)
  set_encrypted now storage input v (ok path) = set_stored now storage input v (b.stat path v)

  abbrev pub set_file : ℕ → ℕ → Bytes → SetAttributes → V → Option OpenFile → Reply Attributes × V
  set_file accessed now storage input v (some h) = set_open now h input v
  set_file accessed now storage input v none =
      if is_some input.size
      then resize_opened now input (open_file b.source storage read_write accessed now v)
      else set_encrypted now storage input v (encrypted_path b.source.root storage)

  abbrev pub set_found :
      ℕ → ℕ → ℕ → Bytes → SetAttributes → V → Reply NodeEntry → Reply Attributes × V
  set_found accessed now pid relative input v (failed n) = (failed n, v)
  set_found accessed now pid relative input v (given e) = elim e.type [
    | type_directory ↦
        set_directory now relative input v (directory_path b.source.root (storage_path relative))
    | type_file ↦
        set_file accessed now (storage_path relative) input v
          (b.writable_handle (storage_path relative) pid v)
  ]

  -- SetAttributes without a handle; with one it is the handle's own.
  unfoldable pub set_node_attributes : ℕ → ℕ → ℕ → Bytes → SetAttributes → V → Reply Attributes × V
  unfolding look_up looked_up Handle.set_attributes get_attributes open_file close flush
  set_node_attributes accessed now pid relative input v =
      if is_foreign input.uid b.uid
      then (failed eperm, v)
      else if is_foreign input.gid b.gid
      then (failed eperm, v)
      else set_found accessed now pid relative input (looked_up b relative v)
          (look_up b now relative v)

  -- The command of a mark and its caller, who must be known.
  abbrev pub commanded :
      ℕ → V → (Operation → Bytes → Option Error × V) → Result (Operation × Bytes) → Errno × V
  commanded pid v run (err e) = (einval, v)
  commanded pid v run (ok (operation, token)) =
      if pid == 0 then (eperm, v) else with_errno (run operation token)

  abbrev pub edit_command : ℕ → Bytes → V → Operation → Bytes → Option Error × V
  edit_command pid storage v begin token = b.begin_edit storage token pid v
  edit_command pid storage v finish token = b.end_edit storage token pid v

  abbrev pub encrypt_command : ℕ → V → Operation → Bytes → Option Error × V
  encrypt_command pid v begin token = b.begin_encrypt token pid v
  encrypt_command pid v finish token = b.end_encrypt token pid v

  unfoldable pub set_edit_session : ℕ → Bytes → Bytes → V → Errno × V
  set_edit_session pid relative value v =
      commanded pid v (edit_command pid (storage_path relative) v) (parse_session_command value)

  unfoldable pub set_encrypt_session : ℕ → Bytes → V → Errno × V
  set_encrypt_session pid value v =
      commanded pid v (encrypt_command pid v) (parse_session_command value)

  abbrev pub set_mark : ℕ → Bytes → Bytes → Bytes → V → ItemType → Errno × V
  set_mark pid relative name value v type =
      if name == encrypt_session_marker
      then (elim type [
        | type_file ↦ (eperm, v)
        | type_directory ↦
            if not (relative == []) then (eperm, v) else set_encrypt_session pid value v
      ])
      else if name == edit_session_marker
      then (elim type [
        | type_directory ↦ (einval, v)
        | type_file ↦ set_edit_session pid relative value v
      ])
      else (enotsup, v)

  abbrev pub set_found_mark : ℕ → Bytes → Bytes → Bytes → V → Reply NodeEntry → Errno × V
  set_found_mark pid relative name value v (failed n) = (n, v)
  set_found_mark pid relative name value v (given e) = set_mark pid relative name value v e.type

  -- SetExtendedAttribute
  unfoldable pub set_extended_attribute : ℕ → ℕ → Bytes → Bytes → Bytes → V → Errno × V
  unfolding look_up looked_up set_edit_session set_encrypt_session list_beq
  set_extended_attribute now pid relative name value v =
      set_found_mark pid relative name value (looked_up b relative v) (look_up b now relative v)
