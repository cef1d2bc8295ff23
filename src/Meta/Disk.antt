-- ===== src/Meta/Disk.antt =====
-- The metadata record, its copy on disk, and the ways it is read and replaced
-- (internal/passfs/volume.go: Metadata, readMetadata, refreshMetadata, updateMetadataLocked,
-- recordFileAccess and the flushes; metadata_lock.go: withMetadataFileLock).
use passfs.Prelude.{
  ℕ, ◌+◌, ◌-◌, ◌*◌, ◌^◌, Bool, true, false, not, ◌&&◌, ◌||◌, Option, none, some, [], ◌∷◌, ◌==◌,
  nat_equality, list_equality, Bytes, ltb, leb, if◌then◌else◌, is_empty, is_some,
}
use passfs.Error.{Error, message, wrap, join}
use passfs.Result.{Result, ok, err}
use passfs.Table.{Table, lookup, insert, delete}
use passfs.Path.{is_abs}
use passfs.FileMeta.{FileMeta, stable_inode}

pub data RecoveryState : Type 0 where
  trash conflict : RecoveryState
  other_state : Bytes → RecoveryState

pub record RecoveryEntry : Type 0 where
  pub path : Bytes
  pub state : RecoveryState
  pub reason : Bytes
  pub observed : ℕ

pub record Metadata : Type 0 where
  pub version : ℕ
  pub files : Table Bytes FileMeta
  pub links : Table Bytes Bytes
  pub orphaned : Table Bytes ℕ
  pub recovery : Table Bytes RecoveryEntry
  pub legacy_targets : Table Bytes Bytes
  pub displaced_links : Table Bytes Bytes

-- `_, ok := m[key]`
abbrev pub has : {V : Type 0} → Bytes → Table Bytes V → Bool
has key m = is_some (lookup key m)

-- `m[key]`, the zero value for a key that is not there
abbrev pub text_or_empty : Option Bytes → Bytes
text_or_empty none = []
text_or_empty (some t) = t

abbrev pub time_or_zero : Option ℕ → ℕ
time_or_zero none = 0
time_or_zero (some t) = t

-- saveMetadata: WriteFileAtomic may fail before the file is replaced, or after it, when the
-- directory cannot be synced.
pub data Save : Type 0 where
  saved : Save
  not_saved saved_but : Error → Save

-- How the file system answers one locked action on the metadata file: the opening and taking of
-- the lock, the reading, the saving, and the release of the lock. `migrate` is
-- migrateLegacyMetadata, which saves what it makes: its result and the disk that it leaves.
pub record Io : Type 0 where
  pub lock : Option Error
  pub read : Option Error
  pub save : Save
  pub unlock : Option Error
  pub migrate : Metadata → Result Metadata × Metadata

-- The metadata file, the volume's copy of it, the access times that are not yet saved, and whether
-- the timer that saves them is running.
pub record Store : Type 0 where
  pub disk : Metadata
  pub memory : Metadata
  pub pending : Table Bytes ℕ
  pub timer : Bool

-- errors.Join of an action's error and the release's
abbrev pub join_release : Option Error → Option Error → Option Error
join_release none none = none
join_release none (some f) = some (wrap f)
join_release (some e) none = some (wrap e)
join_release (some e) (some f) = some (join e (wrap f))

abbrev pub release {ℓ} : {A : Type ℓ} → Option Error → Option Error × A → Option Error × A
release unlock (e, a) = (join_release e unlock, a)

-- withMetadataFileLock; `a` is the state that the action leaves alone when it does not run.
unfoldable pub with_lock {ℓ} : {A : Type ℓ} → Io → A → Option Error × A → Option Error × A
with_lock io a action = elim io.lock [
  | some e ↦ (some (wrap e), a)
  | none ↦ release io.unlock action
]

abbrev is_state : RecoveryState → Bool
is_state trash = true
is_state conflict = true
is_state (other_state name) = false

unfoldable pub valid_recovery : Table Bytes RecoveryEntry → Bool
valid_recovery [] = true
valid_recovery ((key, entry) ∷ m) =
    is_state entry.state && not (is_empty entry.path) && is_abs entry.path && valid_recovery m

-- readMetadata of the metadata on disk: format 1 is migrated, 2 and 3 are read. The result, and the
-- disk after it.
unfoldable pub read_metadata : Io → Metadata → Result Metadata × Metadata
read_metadata io disk = elim io.read [
  | some e ↦ (err (wrap e), disk)
  | none ↦
      if disk.version == 1
      then io.migrate disk
      else if not (disk.version == 2) && not (disk.version == 3)
      then (err message, disk)
      else if valid_recovery disk.recovery
      then (ok disk, disk)
      else (err message, disk)
]

-- One pending access time moves a file's forward, never back.
unfoldable pub advance : Bytes → ℕ → Table Bytes FileMeta → Table Bytes FileMeta
advance key accessed files = elim (lookup key files) [
  | none ↦ files
  | some meta ↦
      if ltb meta.atime accessed then insert key (record meta { atime = accessed }) files else files
]

unfoldable pub merge_access : Table Bytes ℕ → Table Bytes FileMeta → Table Bytes FileMeta
merge_access [] files = files
merge_access ((key, accessed) ∷ pending) files = merge_access pending (advance key accessed files)

-- The loop over the flushed times: an entry that has not moved on since is dropped.
unfoldable pub drop_flushed : Table Bytes ℕ → Table Bytes ℕ → Table Bytes ℕ
drop_flushed [] pending = pending
drop_flushed ((key, flushed) ∷ m) pending =
    drop_flushed m
      (if leb (time_or_zero (lookup key pending)) flushed then delete key pending else pending)

abbrev pub merged : Store → Metadata → Metadata
merged s current = record current { files = merge_access s.pending current.files }

-- The disk after saveMetadata, and its error.
abbrev pub save_metadata : Save → Metadata → Metadata → Option Error × Metadata
save_metadata saved next disk = (none, next)
save_metadata (not_saved e) next disk = (some e, disk)
save_metadata (saved_but e) next disk = (some e, next)

-- What the action under the file lock leaves: its error and the disk.
abbrev pub save_changed :
    Io → Store → Metadata → Result Metadata → Option Error × (Metadata × Metadata)
save_changed io s disk (err e) = (some e, (disk, s.memory))
save_changed io s disk (ok next) =
    let (e, after) = save_metadata io.save next disk in (e, (after, next))

abbrev pub change_read :
    Io
    → (Metadata → Result Metadata)
    → Store
    → Result Metadata × Metadata
    → Option Error × (Metadata × Metadata)
change_read io change s (err e, disk) = (some e, (disk, s.memory))
change_read io change s (ok current, disk) = save_changed io s disk (change (merged s current))

abbrev pub locked_update :
    Io → (Metadata → Result Metadata) → Store → Option Error × (Metadata × Metadata)
locked_update io change s = change_read io change s (read_metadata io s.disk)

abbrev pub publish : Store → Option Error × (Metadata × Metadata) → Option Error × Store
publish s (some e, (disk, next)) = (some e, record s { disk = disk })
publish s (none, (disk, next)) =
    let pending = drop_flushed s.pending s.pending in
    (
      none,
      record s {
        disk = disk;
        memory = next;
        pending = pending;
        timer = s.timer && not (is_empty pending);
      },
    )

-- updateMetadataLocked
unfoldable pub update_metadata : Io → (Metadata → Result Metadata) → Store → Option Error × Store
unfolding with_lock
update_metadata io change s =
    publish s (with_lock io (s.disk, s.memory) (locked_update io change s))

-- What refreshMetadata leaves once the lock is released, or could not be.
abbrev pub refreshed : Store → Metadata → Option Error → Option Error × Store
refreshed s current none = (none, record s { memory = merged s current })
refreshed s current (some e) = (some (wrap e), s)

abbrev pub refresh_read : Io → Store → Result Metadata × Metadata → Option Error × Store
refresh_read io s (err e, disk) = (join_release (some e) io.unlock, record s { disk = disk })
refresh_read io s (ok current, disk) = refreshed (record s { disk = disk }) current io.unlock

abbrev pub refresh_locked : Io → Store → Option Error → Option Error × Store
refresh_locked io s none = refresh_read io s (read_metadata io s.disk)
refresh_locked io s (some e) = (some (wrap e), s)

-- refreshMetadata
unfoldable pub refresh_metadata : Io → Store → Option Error × Store
refresh_metadata io s = refresh_locked io s io.lock

-- accessTimeMinimumAdvance, in nanoseconds
abbrev pub minute : ℕ
minute = 60 * 10 ^ 9

unfoldable pub record_file_access : Bytes → ℕ → Store → Store
record_file_access key accessed s = elim (lookup key s.memory.files) [
  | none ↦ s
  | some meta ↦
      if leb accessed meta.atime || ltb (accessed - meta.atime) minute then s else record s {
        memory = record s.memory {
          files = insert key (record meta { atime = accessed }) s.memory.files;
        };
        pending = insert key accessed s.pending;
        timer = true;
      }
]

-- FlushAccessTimes
unfoldable pub flush_access_times : Io → Store → Option Error × Store
flush_access_times io s =
    if is_empty s.pending
    then (none, record s { timer = false })
    else update_metadata io (λ m. ok m) (record s { timer = false })

abbrev pub rearm : Option Error × Store → Store
rearm (none, s) = s
rearm (some e, s) = record s { timer = s.timer || not (is_empty s.pending) }

-- flushAccessTimesInBackground
unfoldable pub flush_in_background : Io → Store → Store
flush_in_background io s =
    if is_empty s.pending
    then record s { timer = false }
    else rearm (update_metadata io (λ m. ok m) (record s { timer = false }))

-- newVirtualInode: eight random bytes with the top bit set, or, without them, the hash of a text
-- made of the path and the clock.
unfoldable pub new_virtual_inode : Option ℕ → Bytes → ℕ
new_virtual_inode none text = stable_inode text
new_virtual_inode (some random) text = if ltb random (2 ^ 63) then random + 2 ^ 63 else random
