-- ===== src/Locks.antt =====
-- The read-write locks of the virtual paths (internal/passfs/volume.go: acquirePathLock, tryPathLock,
-- registerPathLockUser, unregisterPathLockUser), one step for each critical section of the table's mutex
-- and one for each operation of an entry's RWMutex. An entry lives in the table while it has a user, so
-- that the pointer that a user keeps is the table's entry. Go's RWMutex is given by its holders. Two
-- fields count what the code has no counter for: `waiting` the registered users that do not hold the mutex
-- yet, `leaving` those that have given it back, or failed to get it, and have not unregistered.
use passfs.Prelude.{
  ◌∙◌, suc, ℕ, ◌+◌, ◌-◌, ◌≡◌, ◌<◌, refl, Bool, true, false, not, ◌&&◌, ◌||◌, Option, none, some,
  List, [], ◌∷◌, Bytes, arith, ltb, ◌==◌, nat_equality, list_equality, list_beq, if◌then◌else◌,
  Bool-cases, inl, inr, ==→eq, sym, subst,
}
use passfs.Table.{Table, lookup, insert, delete}
pub mod Counted

pub record Entry : Type 0 where
  pub users : ℕ
  pub waiting : ℕ
  pub readers : ℕ
  pub writing : Bool
  pub leaving : ℕ

abbrev pub Locks : Type 0
Locks = Table Bytes Entry

abbrev pub entry_or_new : Option Entry → Entry
entry_or_new (some e) = e
entry_or_new none = record { users = 0; waiting = 0; readers = 0; writing = false; leaving = 0 }

-- registerPathLockUser
unfoldable pub register_path_lock_user : Bytes → Locks → Locks
register_path_lock_user key t =
    let e = entry_or_new (lookup key t) in
    insert key (record e { users = e.users + 1; waiting = e.waiting + 1 }) t

-- unregisterPathLockUser, by a user that is leaving
abbrev pub unregister_entry : Bytes → Option Entry → Locks → Locks
unregister_entry key none t = t
unregister_entry key (some e) t =
    if not (ltb 0 e.leaving)
    then t
    else if e.users - 1 == 0
    then delete key t
    else insert key (record e { users = e.users - 1; leaving = e.leaving - 1 }) t

unfoldable pub unregister_path_lock_user : Bytes → Locks → Locks
unregister_path_lock_user key t = unregister_entry key (lookup key t) t

-- Whether the mutex can be taken now.
abbrev pub is_free : Bool → Entry → Bool
is_free writable e = not e.writing && (not writable || e.readers == 0)

abbrev pub hold : Bool → Entry → Entry
hold true e = record e { waiting = e.waiting - 1; writing = true }
hold false e = record e { waiting = e.waiting - 1; readers = e.readers + 1 }

-- A registered user takes the mutex, as soon as it can.
abbrev pub take_entry : Bytes → Bool → Option Entry → Locks → Locks
take_entry key writable none t = t
take_entry key writable (some e) t =
    if ltb 0 e.waiting && is_free writable e then insert key (hold writable e) t else t

unfoldable pub take_path_lock : Bytes → Bool → Locks → Locks
take_path_lock key writable t = take_entry key writable (lookup key t) t

-- The first step of the function that acquirePathLock returns, called by a holder: mutex.Unlock or
-- mutex.RUnlock. The second one is unregister_path_lock_user.
abbrev pub release_entry : Bytes → Bool → Option Entry → Locks → Locks
release_entry key writable none t = t
release_entry key true (some e) t =
    if e.writing then insert key (record e { writing = false; leaving = e.leaving + 1 }) t else t
release_entry key false (some e) t =
    if ltb 0 e.readers
    then insert key (record e { readers = e.readers - 1; leaving = e.leaving + 1 }) t
    else t

unfoldable pub release_path_lock : Bytes → Bool → Locks → Locks
release_path_lock key writable t = release_entry key writable (lookup key t) t

-- mutex.TryLock or mutex.TryRLock of tryPathLock, whose caller has registered; where it fails, the
-- caller goes on to unregister.
abbrev pub try_entry : Bytes → Bool → Option Entry → Locks → Bool × Locks
try_entry key writable none t = (false, t)
try_entry key writable (some e) t =
    if not (ltb 0 e.waiting)
    then (false, t)
    else if is_free writable e
    then (true, insert key (hold writable e) t)
    else (false, insert key (record e { waiting = e.waiting - 1; leaving = e.leaving + 1 }) t)

unfoldable pub try_path_lock : Bytes → Bool → Locks → Bool × Locks
try_path_lock key writable t = try_entry key writable (lookup key t) t
