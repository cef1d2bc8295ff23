-- ===== src/Examples/Vaults.antt =====
-- Vault metadata: the theorems of Meta at a small vault.
use passfs.Prelude.{
  nat_equality, list_equality, list_beq, ◌==◌, if◌then◌else◌, is_some, Bool, ◌+◌, ◌^◌, ◌≤◌, ◌≡◌,
  refl, true, false, some, none, [], ◌∷◌, codes,
}
use passfs.Error.{message}
use passfs.Result.{err}
use passfs.Table.{lookup}
use passfs.FileMeta.{FileMeta}
use passfs.Meta.{
  Metadata, saved, saved_but, Io, Store, has, time_or_zero, merge_access, update_metadata,
  put_orphan, trash,
}
use passfs.Meta.Merge.{atime_of, merge_access_lem}
use passfs.Meta.Atomic.{Outcome, update_metadata-AllOrNothing}
use passfs.Meta.Sound.{IsSound}
use passfs.Meta.Runs.{
  set_meta, mark_orphan, flush, mark_recovery, StoreIsSound, apply_all, apply_all-IsSound,
}

abbrev note : FileMeta
note = record { size = 3; mode = 384; mtime = 10; atime = 10; inode = 2 ^ 63 + 5 }

-- A vault with one linked file.
abbrev vault : Metadata
vault = record {
  version = 3;
  files = (codes "files/a", note) ∷ [];
  links = (codes "files/a", codes "/home/a") ∷ [];
  orphaned = [];
  recovery = [];
  legacy_targets = [];
  displaced_links = [];
}

abbrev store : Store
store = record { disk = vault; memory = vault; pending = (codes "files/a", 70) ∷ []; timer = true }

-- A file system on which all goes well, and one that fails after the replacement of the file.
abbrev working : Io
working = record {
  lock = none;
  read = none;
  save = saved;
  unlock = none;
  migrate = λ m. (err message, m);
}

abbrev failing : Io
failing = record working { save = saved_but message }

merge_access_lem_example :
    (has (codes "files/a") (merge_access store.pending vault.files) ≡ true)
    × (atime_of (lookup (codes "files/a") vault.files)
        ≤ atime_of (lookup (codes "files/a") (merge_access store.pending vault.files)))
    × (time_or_zero (lookup (codes "files/a") store.pending)
        ≤ atime_of (lookup (codes "files/a") (merge_access store.pending vault.files)))
unfolding lookup list_beq
merge_access_lem_example = merge_access_lem store.pending (codes "files/a") vault.files refl

update_metadata-AllOrNothing_example :
    Outcome failing
      (put_orphan (codes "files/a") 90)
      store
      (update_metadata failing (put_orphan (codes "files/a") 90) store)
update_metadata-AllOrNothing_example =
    update_metadata-AllOrNothing failing (put_orphan (codes "files/a") 90) store

apply_all-IsSound_example : StoreIsSound (
    apply_all
      ((failing, mark_orphan (codes "files/a") 90)
        ∷ (working, mark_recovery (codes "files/a") trash [] 95)
        ∷ (working, set_meta 99 7 (codes "files/b") note)
        ∷ (working, flush)
        ∷ [])
      store)
unfolding lookup list_beq
apply_all-IsSound_example =
    apply_all-IsSound
      ((failing, mark_orphan (codes "files/a") 90)
        ∷ (working, mark_recovery (codes "files/a") trash [] 95)
        ∷ (working, set_meta 99 7 (codes "files/b") note)
        ∷ (working, flush)
        ∷ [])
      store ((λ m h. (tt, h)), ((λ m h. (tt, h)), ((λ m h. (tt, h)), ((λ m h. (tt, h)), tt))))
      (sound, sound)
  where
    covered :
        (b : Bool)
        → is_some (if b then some (codes "/home/a") else none) ≡ true
        → is_some (if b then some note else none) ≡ true
    covered true h = refl
    covered false h = absurd (cc h)

    sound : IsSound vault
    sound = (
      λ k h. covered (codes "files/a" == k) h,
      λ k h. absurd (cc h),
      λ k h. absurd (cc h),
      λ k h. absurd (cc h),
    )
