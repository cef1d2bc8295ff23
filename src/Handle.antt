-- ===== src/Handle.antt =====
-- An open protected file (internal/passfs/file_handle.go: OpenFile). The plaintext is held in
-- memory and written back, encrypted, by a flush.
pub mod Content
pub mod Writes
pub mod Invariant
pub mod Lifecycle
pub mod Releases
pub mod Append
use passfs.Prelude.{
  inl, ◌⊎◌, inr, ℕ, ◌+◌, ◌-◌, ◌≡◌, Bool, true, false, not, ◌&&◌, ◌||◌, Option, none, some, List, [],
  ◌∷◌, ◌++◌, Bytes, ltb, leb, ◌==◌, nat_equality, if◌then◌else◌, length, take, drop, replicate, map,
}
use passfs.Prelude.Int.{ℤ, pos, negsuc, int_beq, int_ltb, wrap_int64}
use passfs.Error.{Errno, success, ebadf, einval, efbig, eperm, Error, errno_from_error}
use passfs.FileMeta.{
  FileMeta, Attributes, SetAttributes, permissions, inode_from_file_meta, file_attributes,
}

-- What the handle uses of its volume: the limits, the owner, and `persistFile`, which returns its
-- error (`none` is nil) and the volume that it leaves.
pub record Volume (V : Type 0) : Type 0 where
  pub max_file_size : ℕ  -- int64
  pub uid : ℕ
  pub gid : ℕ
  pub persist : Bytes → Bytes → FileMeta → V → Option Error × V

-- `unlock` and `unlock_path` say that the function of that name is not nil.
pub record OpenFile : Type 0 where
  pub relative : Bytes
  pub content : Bytes  -- data
  pub meta : FileMeta
  pub writable : Bool
  pub append : Bool
  pub dirty : Bool
  pub released : Bool
  pub append_candidate : ℤ  -- appendCandidateOffset
  pub pending_writes : ℕ
  pub unlock : Bool
  pub unlock_path : Bool

-- copy(destination, f.data[offset:]): the bytes copied and the errno
unfoldable pub read : OpenFile → ℕ → ℤ → Bytes × Errno
read f room (negsuc o) = ([], if f.released then ebadf else einval)
read f room (pos o) =
    if f.released
    then ([], ebadf)
    else if leb (length f.content) o
    then ([], success)
    else (take room (drop o f.content), success)

-- f.data grown by zeros to `end`, if it is shorter
abbrev pub grow : ℕ → Bytes → Bytes
grow end content =
    if ltb (length content) end then content ++ replicate (end - length content) 0 else content

-- copy(f.data[offset:end], data) after growing
unfoldable pub write_at : Bytes → ℕ → Bytes → Bytes
write_at content offset input =
    let end = offset + length input in
    let grown = grow end content in take offset grown ++ (input ++ drop end grown)

-- The offset that a write really uses, and the candidate that it leaves for the next one.
-- `workaround` is the constant concurrentAppendWorkaround: true on macOS, false on Linux.
unfoldable pub place : Bool → OpenFile → Bool → ℤ → ℤ × ℤ
place workaround f overlapping offset =
    let size = pos (length f.content) in
    if f.append
    then (size, f.append_candidate)
    else if not workaround
    then (offset, f.append_candidate)
    else if overlapping && int_beq offset f.append_candidate && int_ltb offset size
    then (size, f.append_candidate)
    else if int_beq offset size
    then (offset, offset)
    else (offset, negsuc 0)

-- The file with the input stored, its size and time set.
unfoldable pub stored : ℕ → OpenFile → Bytes → ℕ → OpenFile
stored now f input offset =
    let content = write_at f.content offset input in
    record f {
      content = content;
      meta = record f.meta { size = length content; mtime = now };
      dirty = true;
    }

-- The part of Write that stores the bytes, at an offset that is not negative.
unfoldable pub store : ℕ → ℕ → OpenFile → Bytes → ℕ → OpenFile × ℕ × Errno
store max now f input offset =
    let end = wrap_int64 (offset + length input) in
    if ltb max offset
    then (f, 0, efbig)
    else if int_ltb end (pos offset) || int_ltb (pos max) end
    then (f, 0, efbig)
    else (stored now f input offset, length input, success)

abbrev pub store_at : ℕ → ℕ → OpenFile → Bytes → ℤ → OpenFile × ℕ × Errno
store_at max now f input (negsuc o) = (f, 0, efbig)
store_at max now f input (pos o) = store max now f input o

-- Write between f.mu.Lock() and its unlocking.
unfoldable pub write_locked : Bool → ℕ → ℕ → OpenFile → Bool → Bytes → ℤ → OpenFile × ℕ × Errno
write_locked workaround max now f overlapping input offset =
    if f.released
    then (f, 0, ebadf)
    else if not f.writable
    then (f, 0, ebadf)
    else let (at, candidate) = place workaround f overlapping offset in
      store_at max now (record f { append_candidate = candidate }) input at

-- f.pendingWrites.Add(1) > 1, and the deferred Add(-1)
unfoldable pub begin_write : OpenFile → OpenFile × Bool
begin_write f = (record f { pending_writes = f.pending_writes + 1 }, ltb 1 (f.pending_writes + 1))

unfoldable pub end_write : OpenFile → OpenFile
end_write f = record f { pending_writes = f.pending_writes - 1 }

-- Write, when no other write runs meanwhile.
unfoldable pub write : Bool → ℕ → ℕ → OpenFile → Bytes → ℤ → OpenFile × ℕ × Errno
unfolding begin_write end_write
write workaround max now f input offset =
    let (f', overlapping) = begin_write f in
    let (g, count, errno) = write_locked workaround max now f' overlapping input offset in
    (end_write g, count, errno)

-- What Close leaves: `unregistered` and the two `ran` fields say which calls it made after it
-- had let go of the handle's own mutex.
pub record Closed (V : Type 0) : Type 0 where
  pub file : OpenFile
  pub errno : Errno
  pub volume_after : V
  pub unregistered : Bool
  pub ran_unlock_path : Bool
  pub ran_unlock : Bool

-- wipe and cut, or grow by zeros
abbrev pub resize : ℕ → Bytes → Bytes
resize size content = if ltb size (length content) then take size content else grow size content

abbrev pub differs : Option ℕ → ℕ → Bool
differs none own = false
differs (some n) own = not (n == own)

-- The three last blocks of SetAttributes: each sets its field where one is given.
unfoldable pub set_mode : Option ℕ → OpenFile → OpenFile
set_mode none f = f
set_mode (some m) f = record f { meta = record f.meta { mode = permissions m }; dirty = true }

unfoldable pub set_modify_time : Option ℕ → OpenFile → OpenFile
set_modify_time none f = f
set_modify_time (some t) f = record f { meta = record f.meta { mtime = t }; dirty = true }

unfoldable pub set_access_time : Option ℕ → OpenFile → OpenFile
set_access_time none f = f
set_access_time (some t) f = record f { meta = record f.meta { atime = t }; dirty = true }

module _ {V : Type 0} (volume : Volume V) where
  -- The error of `persist` decides whether the dirty mark goes.
  abbrev pub after_persist : OpenFile → Option Error × V → OpenFile × Option Error × V
  after_persist f (some e, v) = (f, some e, v)
  after_persist f (none, v) =
      (record f { meta = record f.meta { size = length f.content }; dirty = false }, none, v)

  -- Without the handle's own path lock the code holds a temporary one around `persist`.
  unfoldable pub flush_locked : OpenFile → V → OpenFile × Option Error × V
  flush_locked f v =
      if not f.dirty
      then (f, none, v)
      else after_persist f (volume.persist f.relative f.content f.meta v)

  unfoldable pub flush : OpenFile → V → OpenFile × Errno × V
  unfolding flush_locked
  flush f v =
      if f.released
      then (f, ebadf, v)
      else let (g, err, v') = flush_locked f v in (g, errno_from_error err, v')

  unfoldable pub close : OpenFile → V → Closed V
  unfolding flush_locked
  close f v =
      if f.released
      then record {
        file = f;
        errno = success;
        volume_after = v;
        unregistered = false;
        ran_unlock_path = false;
        ran_unlock = false;
      }
      else let (g, err, v') = flush_locked f v in
        record {
          file = record g { content = []; released = true; unlock = false; unlock_path = false };
          errno = errno_from_error err;
          volume_after = v';
          unregistered = true;
          ran_unlock_path = g.unlock_path;
          ran_unlock = g.unlock;
        }

  -- The attributes of the open file, at its size in memory.
  unfoldable pub shown : ℕ → OpenFile → Attributes
  shown now f =
      let meta = record f.meta { size = length f.content } in
      file_attributes now meta volume.uid volume.gid (inode_from_file_meta meta f.relative)

  -- No attributes stand for the zero value that goes with an errno.
  unfoldable pub attributes : ℕ → OpenFile → Option Attributes × Errno
  unfolding shown
  attributes now f = if f.released then (none, ebadf) else (some (shown now f), success)

  -- The block on the size: `inr` is the errno with which the call ends.
  unfoldable pub set_size : ℕ → Option ℕ → OpenFile → OpenFile ⊎ Errno
  set_size now none f = inl f
  set_size now (some size) f =
      if not f.writable
      then inr ebadf
      else if ltb volume.max_file_size size
      then inr efbig
      else inl (record f {
        content = resize size f.content;
        meta = record f.meta { size = size; mtime = now };
        dirty = true;
      })

  abbrev pub set_rest : SetAttributes → OpenFile → OpenFile
  set_rest input f =
      set_access_time input.access_time (set_modify_time input.modify_time (set_mode input.mode f))

  abbrev pub finish_set :
      ℕ → OpenFile → SetAttributes → OpenFile ⊎ Errno → OpenFile × Option Attributes × Errno
  finish_set now f input (inr errno) = (f, none, errno)
  finish_set now f input (inl g) = let h = set_rest input g in (h, some (shown now h), success)

  unfoldable pub set_attributes :
      ℕ → OpenFile → SetAttributes → OpenFile × Option Attributes × Errno
  unfolding shown set_mode set_modify_time set_access_time set_size
  set_attributes now f input =
      if f.released
      then (f, none, ebadf)
      else if differs input.uid volume.uid
      then (f, none, eperm)
      else if differs input.gid volume.gid
      then (f, none, eperm)
      else finish_set now f input (set_size now input.size f)
