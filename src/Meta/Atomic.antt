-- ===== src/Meta/Atomic.antt =====
-- What a successful and a failed update of the metadata leave (internal/passfs/volume.go:
-- updateMetadataLocked, FlushAccessTimes).
use passfs.Prelude.{
  ap, sym, inr, ◌⊎◌, inl, is_some, ◌≡◌, refl, Bool, true, false, not, ◌&&◌, Option, none, some, [],
}
use passfs.Error.{Error, wrap}
use passfs.Result.{Result, ok, err}
use passfs.Meta.Disk.{
  change_read, save_changed, Metadata, Save, saved, not_saved, saved_but, Io, Store, with_lock,
  read_metadata, update_metadata, merged, publish, save_metadata, release, locked_update,
}
use passfs.Meta.Merge.{drop_flushed_all}

-- An error that comes after the replacement of the metadata file: the directory of the new file
-- could not be synced, or the lock not released.
abbrev late : Save → Option Error → Bool
late (saved_but e) unlock = true
late _ unlock = is_some unlock

-- The metadata that an update of `s` saves.
abbrev pub Changed : Io → (Metadata → Result Metadata) → Store → Metadata → Type 0
Changed io change s next =
    (current : Metadata) × ((read_metadata io s.disk).0 ≡ ok current)
    × (change (merged s current) ≡ ok next)

-- The outcome of an update that succeeded: disk and memory hold the changed metadata and nothing
-- waits to be saved.
abbrev pub Published : Io → (Metadata → Result Metadata) → Store → Store → Type 0
Published io change s t =
    Changed io change s t.memory × (t.disk ≡ t.memory) × (t.pending ≡ []) × (t.timer ≡ false)

-- The outcome of one that failed: memory, pending times and timer are as before, and so is the
-- disk, but for a migration by the read, unless the error came after the replacement of the file.
abbrev pub Unpublished : Io → (Metadata → Result Metadata) → Store → Store → Type 0
Unpublished io change s t =
    (t.memory ≡ s.memory)
    × (t.pending ≡ s.pending)
    × (t.timer ≡ s.timer)
    × (((t.disk ≡ s.disk) ⊎ (t.disk ≡ (read_metadata io s.disk).1))
        ⊎ ((late io.save io.unlock ≡ true) × Changed io change s t.disk))

abbrev pub Outcome : Io → (Metadata → Result Metadata) → Store → Option Error × Store → Type 0
Outcome io change s (none, t) = Published io change s t
Outcome io change s (some e, t) = Unpublished io change s t

module _ (io : Io) (change : Metadata → Result Metadata) (s : Store) where
  at_save :
      (unlock : Option Error) (save : Save) (current next disk : Metadata)
      → io.unlock ≡ unlock
      → io.save ≡ save
      → read_metadata io s.disk ≡ (ok current, disk)
      → change (merged s current) ≡ ok next
      → Outcome io change s (
          publish s
            (release unlock (let (e, after) = save_metadata save next disk in (e, (after, next)))))
  at_save none saved current next disk u v r c = (
    (current, ap (λ x. x.0) r, c),
    refl,
    drop_flushed_all s.pending,
    rw (drop_flushed_all s.pending) (off s.timer),
  )
    where
      off : (b : Bool) → (b && not true) ≡ false
      off true = refl
      off false = refl
  at_save none (not_saved e) current next disk u v r c =
      (refl, refl, refl, inl (inr (sym (ap (λ x. x.1) r))))
  at_save (some f) (not_saved e) current next disk u v r c =
      (refl, refl, refl, inl (inr (sym (ap (λ x. x.1) r))))
  at_save (some f) saved current next disk u v r c =
      (refl, refl, refl, inr (rw (v, u) refl, (current, ap (λ x. x.0) r, c)))
  at_save none (saved_but e) current next disk u v r c =
      (refl, refl, refl, inr (rw v refl, (current, ap (λ x. x.0) r, c)))
  at_save (some f) (saved_but e) current next disk u v r c =
      (refl, refl, refl, inr (rw v refl, (current, ap (λ x. x.0) r, c)))

  at_error :
      (unlock : Option Error) (e : Error) (disk : Metadata)
      → disk ≡ (read_metadata io s.disk).1
      → Outcome io change s (publish s (release unlock (some e, (disk, s.memory))))
  at_error none e disk r = (refl, refl, refl, inl (inr r))
  at_error (some f) e disk r = (refl, refl, refl, inl (inr r))

  at_change :
      (current disk : Metadata) (o : Result Metadata)
      → read_metadata io s.disk ≡ (ok current, disk)
      → change (merged s current) ≡ o
      → Outcome io change s (publish s (release io.unlock (save_changed io s disk o)))
  at_change current disk (err e) r c = at_error io.unlock e disk (sym (ap (λ x. x.1) r))
  at_change current disk (ok next) r c = at_save io.unlock io.save current next disk refl refl r c

  at_read :
      (x : Result Metadata × Metadata)
      → read_metadata io s.disk ≡ x
      → Outcome io change s (publish s (release io.unlock (change_read io change s x)))
  at_read (err e, disk) r = at_error io.unlock e disk (sym (ap (λ x. x.1) r))
  at_read (ok current, disk) r = at_change current disk (change (merged s current)) r refl

  at_lock :
      (o : Option Error)
      → Outcome io change s (
          publish s (elim o [
            | some e ↦ (some (wrap e), (s.disk, s.memory))
            | none ↦ release io.unlock (locked_update io change s)
          ]))
  at_lock (some e) = (refl, refl, refl, inl (inl refl))
  at_lock none = at_read (read_metadata io s.disk) refl

-- An update either saves the changed metadata, publishes it in memory and leaves no access time
-- pending, or reports an error and leaves memory, the pending times and the timer as they were. A
-- failed update also leaves the disk as it was, or as a migration of format 1 by the read left it,
-- unless the error came after the replacement of the metadata file: the disk then may hold the
-- changed metadata.
pub update_metadata-AllOrNothing :
    (io : Io) (change : Metadata → Result Metadata) (s : Store)
    → Outcome io change s (update_metadata io change s)
unfolding update_metadata with_lock
update_metadata-AllOrNothing io change s = at_lock io change s io.lock
