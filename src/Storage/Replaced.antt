-- ===== src/Storage/Replaced.antt =====
-- What persistFile leaves at the encrypted path and in the metadata (internal/passfs/volume.go:
-- persistFile, rollbackPersistedFile).
use passfs.Prelude.{
  sym, ℕ, ◌≡◌, ◌⊎◌, inl, inr, refl, Bool, true, false, Option, none, some, Bytes, ltb,
  if◌then◌else◌, length, is_some,
}
use passfs.Error.{Error, file_too_large, wrap}
use passfs.Result.{ok}
use passfs.FileMeta.{FileMeta}
use passfs.Meta.{Store, set_file_meta, put_file_meta}
use passfs.Meta.Atomic.{Outcome, Published, update_metadata-AllOrNothing}
use passfs.Storage.{
  or_no_error, Node, regular, other_node, Vault, Faults, rollback_persisted_file, rolled_back,
  clean_up_previous, after_metadata, move_in, move_back, put_back, or_no_error, removed_previous,
  publish_moved, recorded_meta, replace_stored, stat_stored, finish, persist_temporary,
  persist_file,
}

-- The metadata of the new content is saved and published.
abbrev pub Saved : Faults → ℕ → ℕ → Bytes → FileMeta → Vault → Vault → Type 0
Saved f now fresh key meta v t =
    Published f.metadata (λ m. ok (put_file_meta now fresh key meta m)) v.store t.store

-- The path and the metadata in memory are as before.
abbrev pub Kept : Vault → Vault → Type 0
Kept v t = (t.stored ≡ v.stored) × (t.store.memory ≡ v.store.memory)

-- The new content is there although the metadata is not, since the rollback's move failed.
abbrev pub Stuck : Bytes → Faults → Vault → Vault → Type 0
Stuck sealed f v t =
    (t.stored ≡ some (regular sealed))
    × (t.store.memory ≡ v.store.memory)
    × (is_some f.rollback ≡ true)

-- The transaction is done but for the removal of the previous file or the last sync.
abbrev pub Late : Bytes → Faults → ℕ → ℕ → Bytes → FileMeta → Vault → Vault → Type 0
Late sealed f now fresh key meta v t =
    (t.stored ≡ some (regular sealed))
    × Saved f now fresh key meta v t
    × ((is_some f.clean_up ≡ true) ⊎ (is_some f.last_sync ≡ true))

abbrev pub PersistResult :
    Bytes → Faults → ℕ → ℕ → Bytes → FileMeta → Vault → Option Error × Vault → Type 0
PersistResult sealed f now fresh key meta v (none, t) =
    (t.stored ≡ some (regular sealed)) × (t.temporary ≡ none) × Saved f now fresh key meta v t
PersistResult sealed f now fresh key meta v (some e, t) =
    Kept v t ⊎ (Stuck sealed f v t ⊎ Late sealed f now fresh key meta v t)

module _ (sealed : Bytes) (f : Faults) (now fresh : ℕ) (key : Bytes) (meta : FileMeta)
    (v : Vault) where
  abbrev Leaves : Option Error × Vault → Type 0
  Leaves = PersistResult sealed f now fresh key meta v

  -- The vault after the move into place, with whatever metadata.
  abbrev moved : Store → Vault
  moved s = record { stored = some (regular sealed); temporary = v.stored; store = s }

  put_back-Kept :
      (o : Option Node) (s : Store)
      → v.stored ≡ o
      → s.memory ≡ v.store.memory
      → Kept v (put_back o (moved s))
  put_back-Kept none s h same = (sym h, same)
  put_back-Kept (some n) s h same = (sym h, same)

  rollback-Leaves :
      (e : Error) (s : Store)
      → s.memory ≡ v.store.memory
      → Leaves (rolled_back e (rollback_persisted_file f (moved s)))
  unfolding rollback_persisted_file
  rollback-Leaves e s same = at_rollback f.rollback refl
    where
      at_rollback :
          (o : Option Error)
          → f.rollback ≡ o
          → Leaves (
              rolled_back e (elim o as (λ x. Option Error × Vault) [
                | some r ↦ (some (wrap r), moved s)
                | none ↦ (or_no_error f.rollback_sync none, move_back (moved s))
              ]))
      at_rollback none h = inl (put_back-Kept v.stored s refl same)
      at_rollback (some r) h = inr (inl (refl, same, rw h refl))

  last_sync-Leaves :
      (o : Option Error) (s : Store)
      → f.last_sync ≡ o
      → Saved f now fresh key meta v (moved s)
      → Leaves (o, record (moved s) { temporary = none })
  last_sync-Leaves none s h saved = (refl, refl, saved)
  last_sync-Leaves (some e) s h saved = inr (inr (refl, saved, inr (rw h refl)))

  removed-Leaves :
      (o : Option Error) (n : Node) (s : Store)
      → f.clean_up ≡ o
      → Saved f now fresh key meta v (moved s)
      → Leaves (removed_previous f (record (moved s) { temporary = some n }) o)
  removed-Leaves none n s h saved = last_sync-Leaves f.last_sync s refl saved
  removed-Leaves (some e) n s h saved = inr (inr (refl, saved, inl (rw h refl)))

  clean_up-Leaves :
      (o : Option Node) (s : Store)
      → Saved f now fresh key meta v (moved s)
      → Leaves (clean_up_previous f o (record (moved s) { temporary = o }))
  clean_up-Leaves none s saved = last_sync-Leaves f.last_sync s refl saved
  clean_up-Leaves (some n) s saved = removed-Leaves f.clean_up n s refl saved

  metadata-Leaves :
      (x : Option Error × Store)
      → Outcome f.metadata (λ m. ok (put_file_meta now fresh key meta m)) v.store x
      → Leaves (after_metadata f (moved v.store) x)
  metadata-Leaves (none, s) saved = clean_up-Leaves v.stored s saved
  metadata-Leaves (some e, s) (same, pending, timer, disk) = rollback-Leaves e s same

  sync-Leaves :
      (o : Option Error)
      → Leaves (elim o as (λ x. Option Error × Vault) [
        | some e ↦ rolled_back e (rollback_persisted_file f (moved v.store))
        | none ↦
            after_metadata f (moved v.store) (set_file_meta f.metadata now fresh key meta v.store)
      ])
  unfolding set_file_meta
  sync-Leaves (some e) = rollback-Leaves e v.store refl
  sync-Leaves none = metadata-Leaves (set_file_meta f.metadata now fresh key meta v.store) (
      update_metadata-AllOrNothing f.metadata (λ m. ok (put_file_meta now fresh key meta m))
        v.store)

  -- The vault while the temporary file is there.
  abbrev written : Vault
  written = record v { temporary = some (regular sealed) }

  move-Leaves :
      (o : Option Error)
      → Leaves (elim o as (λ x. Option Error × Vault) [
        | some e ↦ (some e, written)
        | none ↦ publish_moved f now fresh key meta (move_in written)
      ])
  move-Leaves (some e) = inl (refl, refl)
  move-Leaves none = sync-Leaves f.sync

  replace-Leaves : (o : Option Node) → Leaves (replace_stored f now fresh key meta o written)
  replace-Leaves none = move-Leaves f.move
  replace-Leaves (some (regular c)) = move-Leaves f.move
  replace-Leaves (some other_node) = inl (refl, refl)

  stat-Leaves :
      (o : Option Error)
      → Leaves (elim o as (λ x. Option Error × Vault) [
        | some e ↦ (some e, written)
        | none ↦ replace_stored f now fresh key meta v.stored written
      ])
  stat-Leaves (some e) = inl (refl, refl)
  stat-Leaves none = replace-Leaves v.stored

  write-Leaves :
      (o : Option (Error × Bytes))
      → Leaves (elim o as (λ x. Option Error × Vault) [
        | some (e, partial) ↦ (some e, record v { temporary = some (regular partial) })
        | none ↦ stat_stored f now fresh key meta written
      ])
  write-Leaves (some (e, partial)) = inl (refl, refl)
  write-Leaves none = stat-Leaves f.stat

  finish-Leaves : (x : Option Error × Vault) → Leaves x → Leaves (finish f x)
  finish-Leaves (none, t) (stored, gone, saved) = when f.deferred
    where
      when : (b : Bool) → Leaves (none, if b then record t { temporary = none } else t)
      when true = (stored, refl, saved)
      when false = (stored, gone, saved)
  finish-Leaves (some e, t) l = when f.deferred
    where
      when : (b : Bool) → Leaves (some e, if b then record t { temporary = none } else t)
      when true = l
      when false = l

-- Whatever fails, persistFile either reports success, the new encrypted content stands at the path,
-- no temporary file is left and its metadata is saved and published; or it reports an error, and
-- then the path and the metadata in memory are as before, or the new content is in place and its
-- metadata saved but the previous file could not be removed or the directory not synced, or, where
-- the rollback's own move failed, the new content is in place with the old metadata. The path is
-- never left empty where there was a file.
pub persist_file-PersistResult :
    (seal : Bytes → Bytes) (max : ℕ) (f : Faults) (now fresh : ℕ) (key content : Bytes)
    (meta : FileMeta) (v : Vault)
    → PersistResult
        (seal content)
        f
        now
        fresh
        key
        (recorded_meta now content meta)
        v
        (persist_file seal max f now fresh key content meta v)
unfolding persist_file
persist_file-PersistResult seal max f now fresh key content meta v =
    at_size (ltb max (length content))
  where
    next : FileMeta
    next = recorded_meta now content meta

    at_prepare :
        (o : Option Error)
        → PersistResult
            (seal content)
            f
            now
            fresh
            key
            next
            v
            (elim o as (λ x. Option Error × Vault) [
              | some e ↦ (some e, v)
              | none ↦ finish f (persist_temporary (seal content) f now fresh key next v)
            ])
    at_prepare (some e) = inl (refl, refl)
    at_prepare none =
        finish-Leaves (seal content) f now fresh key next v
          (persist_temporary (seal content) f now fresh key next v)
          (write-Leaves (seal content) f now fresh key next v f.write)

    at_size :
        (b : Bool)
        → PersistResult (seal content) f now fresh key next v (
            if b then (some file_too_large, v) else elim f.prepare as (λ x. Option Error × Vault) [
              | some e ↦ (some e, v)
              | none ↦ finish f (persist_temporary (seal content) f now fresh key next v)
            ])
    at_size true = inl (refl, refl)
    at_size false = at_prepare f.prepare
