-- ===== src/Examples/Storages.antt =====
-- Opening, replacing and removing a file: the theorems of Opening and Storage at a small vault.
use passfs.Prelude.{
  list_beq, nat_equality, list_equality, ℕ, ◌+◌, ◌-◌, ◌^◌, ◌≡◌, refl, true, false, some, none, [],
  ◌∷◌, codes, arith, if◌then◌else◌, ltb, length,
}
use passfs.Error.{message, errno, eio, file_too_large}
use passfs.Result.{ok, err}
use passfs.Table.{lookup, insert, delete}
use passfs.FileMeta.{FileMeta}
use passfs.Meta.{
  set_file_meta, remove_file_meta, update_metadata, with_lock, read_metadata, put_file_meta,
  delete_file_metadata, merge_access, drop_flushed, valid_recovery, Metadata, saved, Io,
}
use passfs.Storage.{
  regular, Vault, Faults, RemovalFaults, persist_file, recorded_meta, remove_protected_file_locked,
}
use passfs.Storage.Replaced.{PersistResult, persist_file-PersistResult}
use passfs.Storage.Removed.{RemovalResult, remove_protected_file_locked-RemovalResult}
use passfs.Opening.{Source, Flags, regular_file, open_file, create_file, limited}
use passfs.Opening.Opened.{Settled, limited_lem, open_file-Settled, create_file-Settled}

abbrev note : FileMeta
note = record { size = 3; mode = 384; mtime = 10; atime = 10; inode = 2 ^ 63 + 5 }

abbrev metadata : Metadata
metadata = record {
  version = 3;
  files = (codes "files/a", note) ∷ [];
  links = (codes "files/a", codes "/home/a") ∷ [];
  orphaned = [];
  recovery = [];
  legacy_targets = [];
  displaced_links = [];
}

abbrev vault : Vault
vault = record {
  stored = some (regular (codes "old"));
  temporary = none;
  store = record { disk = metadata; memory = metadata; pending = []; timer = false };
}

abbrev working : Io
working = record {
  lock = none;
  read = none;
  save = saved;
  unlock = none;
  migrate = λ m. (err message, m);
}

-- The metadata cannot be locked, and the rollback fails as well.
abbrev faults : Faults
faults = record {
  prepare = none;
  write = none;
  stat = none;
  move = none;
  sync = none;
  metadata = record working { lock = some (errno eio) };
  rollback = some (errno eio);
  rollback_sync = none;
  clean_up = none;
  last_sync = none;
  deferred = true;
}

-- The removal of the temporary file fails.
abbrev removal_faults : RemovalFaults
removal_faults = record {
  prepare = none;
  rename = none;
  sync = none;
  metadata = working;
  remove = some (errno eio);
  metadata_back = working;
  restore = none;
  restore_sync = none;
  last_sync = none;
}

abbrev source : Source ℕ
source = record {
  root = codes "/vault";
  max_file_size = 100;
  lstat = λ path v. ok regular_file;
  file_meta = λ path v. note;
  after_file_meta = λ path v. v;
  authorize = λ path operation v. (none, v + 1);
  decrypt = λ path operation v. (ok (codes "abc"), v + 1);
  record_access = λ path at v. v;
  persist = λ path content meta v. (none, v);
}

abbrev flags : Flags
flags = record { writable = true; truncate = false; exclusive = false; append = true }

persist_file-PersistResult_example :
    PersistResult
      (codes "sealed")
      faults
      20
      9
      (codes "files/a")
      (recorded_meta 20 (codes "new!") note)
      vault
      (persist_file
        (λ b. codes "sealed")
        100
        faults
        20
        9
        (codes "files/a")
        (codes "new!")
        note
        vault)
persist_file-PersistResult_example =
    persist_file-PersistResult (λ b. codes "sealed") 100 faults 20 9 (codes "files/a")
      (codes "new!") note vault

remove_protected_file_locked-RemovalResult_example :
    RemovalResult removal_faults
      (codes "files/a")
      vault
      (remove_protected_file_locked removal_faults 20 9 (codes "files/a") note vault)
remove_protected_file_locked-RemovalResult_example =
    remove_protected_file_locked-RemovalResult removal_faults 20 9 (codes "files/a") note vault

limited_lem_example :
    limited 2 (ok (codes "abc"))
    ≡ (if ltb 2 (length (codes "abc")) then err file_too_large else ok (codes "abc"))
limited_lem_example = limited_lem 2 (codes "abc") (omega arith)

open_file-Settled_example : Settled 100 (open_file source (codes "files/a") flags 20 21 0)
open_file-Settled_example = open_file-Settled source (codes "files/a") flags 20 21 0

create_file-Settled_example :
    Settled 100 (create_file source (codes "files/a") flags 384 9 19 20 21 0)
create_file-Settled_example = create_file-Settled source (codes "files/a") flags 384 9 19 20 21 0

-- With the greatest int64 as the limit, max + 1 is negative and every file is read as empty.
limited_greatest : limited (2 ^ 63 - 1) (ok (codes "abc")) ≡ ok []
unfolding limited
limited_greatest = refl

-- A removal whose last step fails puts the file and its metadata back, but not its link.
failed_removal_link :
    lookup
      (codes "files/a")
      (remove_protected_file_locked removal_faults 20 9
        (codes "files/a")
        note
        vault).1.store.memory.links
    ≡ none
unfolding remove_protected_file_locked set_file_meta remove_file_meta update_metadata with_lock
    read_metadata put_file_meta delete_file_metadata merge_access drop_flushed valid_recovery lookup
    insert delete list_beq
failed_removal_link = refl
