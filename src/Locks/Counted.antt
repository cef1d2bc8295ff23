-- ===== src/Locks/Counted.antt =====
-- The users of a path lock are counted (internal/passfs/volume.go: acquirePathLock, tryPathLock,
-- registerPathLockUser, unregisterPathLockUser).
use passfs.Prelude.{
  ◌+◌, ◌≡◌, ◌<◌, Bool, true, false, some, List, [], ◌∷◌, Bytes, nat_equality, list_equality,
  if◌then◌else◌,
}
use passfs.Table.{lookup}
use passfs.Locks.{
  unregister_path_lock_user, Entry, Locks, register_path_lock_user, take_path_lock,
  release_path_lock, try_path_lock,
}

-- Every user waits, holds or leaves, and a writer excludes readers.
abbrev pub IsCounted : Entry → Type 0
IsCounted e =
    (e.users ≡ e.waiting + (e.readers + ((if e.writing then 1 else 0) + e.leaving)))
    × (0 < e.users)
    × (e.writing ≡ true → e.readers ≡ 0)

abbrev pub Counted : Locks → Type 0
Counted t = (key : Bytes) (e : Entry) → lookup key t ≡ some e → IsCounted e

if-Counted : (b : Bool) (t u : Locks) → Counted t → Counted u → Counted (if b then t else u)
if-Counted true t u h k = h
if-Counted false t u h k = k

-- What callers do with the lock of one path.
pub data LockStep : Type 0 where
  registers unregisters : Bytes → LockStep
  takes releases tries : Bytes → Bool → LockStep

unfoldable pub lock_step : Locks → LockStep → Locks
lock_step t (registers key) = register_path_lock_user key t
lock_step t (unregisters key) = unregister_path_lock_user key t
lock_step t (takes key writable) = take_path_lock key writable t
lock_step t (releases key writable) = release_path_lock key writable t
lock_step t (tries key writable) = (try_path_lock key writable t).1

unfoldable pub lock_steps : Locks → List LockStep → Locks
lock_steps t [] = t
lock_steps t (x ∷ xs) = lock_steps (lock_step t x) xs
