-- ===== src/Opening.antt =====
-- Opening and creating a protected file (internal/passfs/file_handle.go: openFile, createFile,
-- loadExistingFile, finishFileOpen; volume.go: virtualType, decryptFileWithIdentity).
use passfs.Prelude.{
  ℕ, ◌+◌, ◌≡◌, Bool, true, false, not, ◌&&◌, Option, none, some, List, [], Bytes, codes, ltb,
  if◌then◌else◌, length, take,
}
use passfs.Prelude.Int.{ℤ, pos, negsuc, wrap_int64}
use passfs.Error.{
  Error, message, errno, eio, eisdir, eexist, eacces, file_too_large, is_not_exist, wrap,
}
use passfs.Result.{Result, ok, err}
use passfs.FileMeta.{FileMeta, permissions}
use passfs.Path.{validate_relative_path, directory_path, encrypted_path}
use passfs.Handle.{OpenFile}
pub mod Opened
pub mod Named

-- The metadata of a new file.
abbrev pub new_meta : ℕ → ℕ → ℕ → FileMeta
new_meta mode fresh created_at = record {
  size = 0;
  mode = permissions mode;
  mtime = created_at;
  atime = created_at;
  inode = fresh;
}

-- What an Lstat finds.
pub data Kind : Type 0 where
  directory regular_file other_kind : Kind

-- What an open uses of its volume: the root, os.Lstat, what `fileMeta`
-- gives and the volume after it (where the path has no record, it reads the metadata again), `authorize` for an operation, the
-- opening of the encrypted file and its decryption, the recording of an access, `persistFile`.
pub record Source (V : Type 0) : Type 0 where
  pub root : Bytes
  pub max_file_size : ℕ
  pub lstat : Bytes → V → Result Kind
  pub file_meta : Bytes → V → FileMeta
  pub after_file_meta : Bytes → V → V
  pub authorize : Bytes → Bytes → V → Option Error × V
  pub decrypt : Bytes → Bytes → V → Result Bytes × V
  pub record_access : Bytes → ℕ → V → V
  pub persist : Bytes → Bytes → FileMeta → V → Option Error × V

-- The bits that the code reads of the open flags; `writable` is an access mode of O_WRONLY or O_RDWR.
pub record Flags : Type 0 where
  pub writable : Bool
  pub truncate : Bool
  pub exclusive : Bool
  pub append : Bool

-- io.ReadAll of io.LimitReader(reader, n): nothing where n is not positive.
abbrev pub limit_read : ℤ → Bytes → Bytes
limit_read (pos n) content = take n content
limit_read (negsuc n) content = []

-- The end of decryptFileWithIdentity: max + 1 bytes at most are read, and more than max refused. The
-- sum is an int64.
unfoldable pub limited : ℕ → Result Bytes → Result Bytes
limited max (err e) = err e
limited max (ok content) =
    let read = limit_read (wrap_int64 (max + 1)) content in
    if ltb max (length read) then err file_too_large else ok read

module _ {V : Type 0} (s : Source V) where
  abbrev pub encrypted_type : Result Kind → Result Bool
  encrypted_type (err e) = err e
  encrypted_type (ok regular_file) = ok false
  encrypted_type (ok _) = err (errno eio)

  abbrev pub at_encrypted : Result Bytes → V → Result Bool
  at_encrypted (err e) v = err e
  at_encrypted (ok path) v = encrypted_type (s.lstat path v)

  abbrev pub at_kind : Bytes → Result Kind → V → Result Bool
  at_kind relative (ok directory) v = ok true
  at_kind relative (ok other_kind) v = err (errno eio)
  at_kind relative (ok regular_file) v = at_encrypted (encrypted_path s.root relative) v
  at_kind relative (err e) v =
      if is_not_exist e then at_encrypted (encrypted_path s.root relative) v else err e

  abbrev pub at_directory : Bytes → Result Bytes → V → Result Bool
  at_directory relative (err e) v = err e
  at_directory relative (ok path) v = at_kind relative (s.lstat path v) v

  -- virtualType: whether the path is a directory.
  unfoldable pub virtual_type : Bytes → V → Result Bool
  virtual_type relative v = at_directory relative (directory_path s.root relative) v

  abbrev pub Loaded : Type 0
  Loaded = Result (Bytes × (FileMeta × Bool)) × V

  -- With O_TRUNC: the file is emptied, and dirty.
  abbrev pub truncated : ℕ → FileMeta → Option Error × V → Loaded
  truncated now meta (some e, v) = (err e, v)
  truncated now meta (none, v) = (ok ([], (record meta { size = 0; mtime = now }, true)), v)

  abbrev pub decrypted : Bytes → ℕ → FileMeta → Result Bytes × V → Loaded
  decrypted relative accessed meta (err e, v) = (err e, v)
  decrypted relative accessed meta (ok content, v) = (
    ok (content, (record meta { size = length content }, false)),
    s.record_access relative accessed v,
  )

  abbrev pub apply_limit : Result Bytes × V → Result Bytes × V
  apply_limit (r, v) = (limited s.max_file_size r, v)

  -- loadExistingFile: the content, the metadata and the dirty mark.
  unfoldable pub load_existing_file : Bytes → Flags → ℕ → ℕ → V → Loaded
  unfolding limited
  load_existing_file relative flags accessed now v =
      let meta = record (s.file_meta relative v) { atime = accessed } in
      let w = s.after_file_meta relative v in
      if flags.truncate
      then (if not flags.writable
          then (err (errno eacces), w)
          else truncated now meta (s.authorize relative (codes "truncate") w))
      else decrypted relative accessed meta (
          apply_limit
            (s.decrypt relative (if flags.writable then codes "read/write" else codes "read") w))

-- What an open leaves: its result, the volume, whether the namespace lock and the path lock that it
-- took are still held, and whether a handle was registered.
pub record Opening (V : Type 0) : Type 0 where
  pub result : Result OpenFile
  pub after : V
  pub namespace_held : Bool
  pub path_held : Bool
  pub registered : Bool

-- The locks that a call holds, and whether a handle of it is registered.
pub record Holding : Type 0 where
  pub namespace_held : Bool
  pub path_held : Bool
  pub registered : Bool

abbrev pub nothing_held : Holding
nothing_held = record { namespace_held = false; path_held = false; registered = false }

-- namespaceMu.RLock and acquirePathLock
abbrev pub take_locks : Holding → Holding
take_locks x = record x { namespace_held = true; path_held = true }

-- The deferred functions, by the values of pathLockHeld and success at the return.
abbrev pub run_deferred : Bool → Bool → Holding → Holding
run_deferred path_lock_held success x = record x {
  path_held = if path_lock_held then false else x.path_held;
  namespace_held = if success then x.namespace_held else false;
}

module _ {V : Type 0} (s : Source V) where
  -- finishFileOpen: a writable handle gets the function that gives the namespace lock back; for another
  -- one it is given back here. The handle is registered.
  abbrev pub finish_file_open :
      Bytes → Flags → Bytes → FileMeta → Bool → Holding → OpenFile × Holding
  finish_file_open relative flags content meta dirty x = (
    record {
      relative = relative;
      content = content;
      meta = meta;
      writable = flags.writable;
      append = flags.append;
      dirty = dirty;
      released = false;
      append_candidate = negsuc 0;
      pending_writes = 0;
      unlock = flags.writable;
      unlock_path = true;
    },
    record x {
      namespace_held = if flags.writable then x.namespace_held else false;
      registered = true;
    },
  )

  abbrev pub leave : Result OpenFile → V → Holding → Opening V
  leave r v x = record {
    result = r;
    after = v;
    namespace_held = x.namespace_held;
    path_held = x.path_held;
    registered = x.registered;
  }

  -- A return with an error while both locks are held.
  abbrev pub refused : Error → V → Opening V
  refused e v = leave (err e) v (run_deferred true false (take_locks nothing_held))

  -- The return with a handle: pathLockHeld is false by then, success true.
  abbrev pub handed_out : OpenFile × Holding → V → Opening V
  handed_out (h, x) v = leave (ok h) v (run_deferred false true x)

  abbrev pub opened : Bytes → Flags → Loaded s → Opening V
  opened relative flags (err e, v) = refused e v
  opened relative flags (ok (content, (meta, dirty)), v) =
      handed_out (finish_file_open relative flags content meta dirty (take_locks nothing_held)) v

  abbrev pub open_typed : Bytes → Flags → ℕ → ℕ → V → Result Bool → Opening V
  open_typed relative flags accessed now v (err e) = refused e v
  open_typed relative flags accessed now v (ok true) = refused (errno eisdir) v
  open_typed relative flags accessed now v (ok false) =
      opened relative flags (load_existing_file s relative flags accessed now v)

  -- Before the locks are taken.
  abbrev pub if_valid_path : Option Error → V → Opening V → Opening V
  if_valid_path (some e) v rest = leave (err e) v nothing_held
  if_valid_path none v rest = rest

  -- openFile; `accessed` and `now` are the clock at its two readings.
  unfoldable pub open_file : Bytes → Flags → ℕ → ℕ → V → Opening V
  unfolding virtual_type load_existing_file
  open_file relative flags accessed now v =
      if_valid_path (validate_relative_path relative) v
        (open_typed relative flags accessed now v (virtual_type s relative v))

  abbrev pub created : Bytes → Flags → FileMeta → Option Error × V → Opening V
  created relative flags meta (some e, v) = refused e v
  created relative flags meta (none, v) =
      handed_out (finish_file_open relative flags [] meta false (take_locks nothing_held)) v

  abbrev pub persist_new : Bytes → Flags → FileMeta → Option Error × V → Opening V
  persist_new relative flags meta (some e, v) = refused e v
  persist_new relative flags meta (none, v) =
      created relative flags meta (s.persist relative [] meta v)

  abbrev pub create_typed : Bytes → Flags → ℕ → ℕ → ℕ → ℕ → ℕ → V → Result Bool → Opening V
  create_typed relative flags mode fresh created_at accessed now v (ok true) =
      refused (errno eisdir) v
  create_typed relative flags mode fresh created_at accessed now v (ok false) =
      if flags.exclusive
      then refused (errno eexist) v
      else opened relative flags (load_existing_file s relative flags accessed now v)
  create_typed relative flags mode fresh created_at accessed now v (err e) =
      if not (is_not_exist e)
      then refused e v
      else persist_new relative flags (new_meta mode fresh created_at)
          (s.authorize relative (codes "create") v)

  -- createFile; `fresh` is what newVirtualInode gives.
  unfoldable pub create_file : Bytes → Flags → ℕ → ℕ → ℕ → ℕ → ℕ → V → Opening V
  unfolding virtual_type load_existing_file
  create_file relative flags mode fresh created_at accessed now v =
      if_valid_path (validate_relative_path relative) v (
        create_typed relative flags mode fresh created_at accessed now v
          (virtual_type s relative v))
