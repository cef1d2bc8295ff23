-- ===== src/Storage/Removed.antt =====
-- What removeProtectedFileLocked leaves of the file and its metadata (internal/passfs/volume.go:
-- removeProtectedFileLocked, restoreRemovedFile).
use passfs.Prelude.{ℕ, ◌≡◌, ◌⊎◌, inl, inr, refl, true, Option, none, some, Bytes, is_some}
use passfs.Error.{Error, wrap}
use passfs.Result.{ok}
use passfs.FileMeta.{FileMeta}
use passfs.Meta.{Store, set_file_meta, remove_file_meta, delete_file_metadata}
use passfs.Meta.Atomic.{Outcome, Published, update_metadata-AllOrNothing}
use passfs.Storage.{
  Node, regular, other_node, Vault, RemovalFaults, restore_removed_file, restored,
  restored_with_meta, after_unlisted, unlist, remove_stored, remove_protected_file_locked,
  or_no_error, joined,
}

-- The metadata without the file is saved and published.
abbrev pub Unlisted : RemovalFaults → Bytes → Vault → Vault → Type 0
Unlisted f key v t = Published f.metadata (λ m. ok (delete_file_metadata key m)) v.store t.store

-- The file is gone, and so is its metadata.
abbrev pub Gone : RemovalFaults → Bytes → Vault → Vault → Type 0
Gone f key v t = (t.stored ≡ none) × (t.temporary ≡ none) × Unlisted f key v t

-- The file is at its path, or still at the temporary one where the rename back failed.
abbrev pub Survives : RemovalFaults → Vault → Vault → Type 0
Survives f v t = (t.stored ≡ v.stored) ⊎ ((t.temporary ≡ v.stored) × (is_some f.restore ≡ true))

abbrev pub RemovalResult : RemovalFaults → Bytes → Vault → Option Error × Vault → Type 0
RemovalResult f key v (none, t) = Gone f key v t
RemovalResult f key v (some e, t) = Survives f v t ⊎ (Gone f key v t × (is_some f.last_sync ≡ true))

module _ (f : RemovalFaults) (now fresh : ℕ) (key : Bytes) (meta : FileMeta) (v : Vault) where
  abbrev Leaves : Option Error × Vault → Type 0
  Leaves = RemovalResult f key v

  -- The vault after the rename, with whatever metadata.
  abbrev moved : Store → Vault
  moved s = record { stored = none; temporary = v.stored; store = s }

  restore-Leaves : (e : Error) (s : Store) → Leaves (restored e (restore_removed_file f (moved s)))
  restore-Leaves e s = at_restore f.restore refl
    where
      at_restore :
          (o : Option Error)
          → f.restore ≡ o
          → Leaves (
              restored e (elim o as (λ x. Option Error × Vault) [
                | some r ↦ (some (wrap r), moved s)
                | none ↦ (
                  or_no_error f.restore_sync none,
                  record (moved s) { stored = v.stored; temporary = none },
                )
              ]))
      at_restore none h = inl (inl refl)
      at_restore (some r) h = inl (inr (refl, rw h refl))

  remove-Leaves :
      (o : Option Error) (s : Store)
      → Unlisted f key v (moved s)
      → Leaves (elim o as (λ x. Option Error × Vault) [
        | some e ↦
            restored_with_meta f e (moved s) (set_file_meta f.metadata_back now fresh key meta s)
        | none ↦ (f.last_sync, record (moved s) { temporary = none })
      ])
  remove-Leaves none s saved = at_sync f.last_sync refl
    where
      at_sync :
          (o : Option Error) → f.last_sync ≡ o → Leaves (o, record (moved s) { temporary = none })
      at_sync none h = (refl, refl, saved)
      at_sync (some e) h = inr ((refl, refl, saved), rw h refl)
  remove-Leaves (some e) s saved = at_meta (set_file_meta f.metadata_back now fresh key meta s)
    where
      at_meta : (x : Option Error × Store) → Leaves (restored_with_meta f e (moved s) x)
      at_meta (r, t) = restore-Leaves (joined e r) t

  unlisted-Leaves :
      (x : Option Error × Store)
      → Outcome f.metadata (λ m. ok (delete_file_metadata key m)) v.store x
      → Leaves (after_unlisted f now fresh key meta (moved v.store) x)
  unlisted-Leaves (none, s) saved = remove-Leaves f.remove s saved
  unlisted-Leaves (some e, s) o = restore-Leaves e s

  sync-Leaves :
      (o : Option Error)
      → Leaves (elim o as (λ x. Option Error × Vault) [
        | some e ↦ restored e (restore_removed_file f (moved v.store))
        | none ↦
            after_unlisted f now fresh key meta
              (moved v.store)
              (remove_file_meta f.metadata key v.store)
      ])
  unfolding remove_file_meta
  sync-Leaves (some e) = restore-Leaves e v.store
  sync-Leaves none =
      unlisted-Leaves (remove_file_meta f.metadata key v.store)
        (update_metadata-AllOrNothing f.metadata (λ m. ok (delete_file_metadata key m)) v.store)

  rename-Leaves :
      (o : Option Error)
      → Leaves (elim o as (λ x. Option Error × Vault) [
        | some e ↦ (some e, v)
        | none ↦ unlist f now fresh key meta (moved v.store)
      ])
  rename-Leaves (some e) = inl (inl refl)
  rename-Leaves none = sync-Leaves f.sync

  stored-Leaves : (o : Option Node) → Leaves (remove_stored f now fresh key meta o v)
  stored-Leaves none = inl (inl refl)
  stored-Leaves (some other_node) = inl (inl refl)
  stored-Leaves (some (regular c)) = rename-Leaves f.rename

-- Whatever fails, removeProtectedFileLocked either reports success, and the file and its metadata are
-- gone from disk and memory; or it reports an error, and then the encrypted file stands at its path
-- or, where the rename back failed too, at the temporary path, unless the removal was complete and
-- only the last sync failed.
pub remove_protected_file_locked-RemovalResult :
    (f : RemovalFaults) (now fresh : ℕ) (key : Bytes) (meta : FileMeta) (v : Vault)
    → RemovalResult f key v (remove_protected_file_locked f now fresh key meta v)
unfolding remove_protected_file_locked
remove_protected_file_locked-RemovalResult f now fresh key meta v = at_prepare f.prepare
  where
    at_prepare :
        (o : Option Error)
        → RemovalResult f key v (elim o as (λ x. Option Error × Vault) [
          | some e ↦ (some e, v)
          | none ↦ remove_stored f now fresh key meta v.stored v
        ])
    at_prepare (some e) = inl (inl refl)
    at_prepare none = stored-Leaves f now fresh key meta v v.stored
