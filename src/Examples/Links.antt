-- ===== src/Examples/Links.antt =====
-- Protected links and the repair of the metadata: the theorems of Links and Meta.Reconcile at small inputs.
use passfs.Prelude.{
  ◌+◌, list_beq, nat_equality, list_equality, ◌==◌, ◌≡◌, refl, true, false, some, none, [], ◌∷◌,
  ◌++◌, codes, Bytes, if◌then◌else◌, ◌^◌, List,
}
use passfs.Error.{message}
use passfs.Result.{ok, err}
use passfs.Table.{insert, delete, Table, lookup, insert, delete}
use passfs.Path.{metadata_key, clean, components, join, has_prefix, join_path}
use passfs.FileMeta.{FileMeta}
use passfs.Objects.{
  normalize_object_id, object_id_from_storage_path, mounted_path_for_storage, trim_space, to_lower,
  without_dashes,
}
use passfs.Meta.{
  read_metadata, valid_recovery, Metadata, Io, saved, has, time_or_zero, valid_recovery,
  read_metadata,
}
use passfs.Meta.Sound.{Covers, IsSound}
use passfs.Meta.Reconcile.{ObjectsRoot, reconcile, load_metadata}
use passfs.Meta.Loaded.{reconcile_lem}
use passfs.Meta.Kept.{IsKept, reconcile_keeps}
use passfs.Meta.Loading.{load_metadata-IsSound}
use passfs.Links.Calls.{LinkRecord, ProtectedLink, World, source_of}
use passfs.Links.Targets.{target_matches_storage, object_id_from_opaque_target}
use passfs.Links.{sync_record, inspected}
use passfs.Links.Trash.{MayTrash, sync_record-MayTrash}
use passfs.Links.Sources.{MayMove, sync_record-MayMove}
use passfs.Links.Matching.{mounted_path-target_matches}

abbrev id : Bytes
id = codes "0123abcd-0000-4000-8000-0123456789ab"

abbrev key : Bytes
key = codes "objects/" ++ id

abbrev target : Bytes
target = codes "/mnt/by-id/" ++ id

mounted_path-target_matches_example : target_matches_storage target key ≡ true
unfolding mounted_path_for_storage object_id_from_storage_path clean components join has_prefix
    normalize_object_id trim_space to_lower without_dashes join_path
mounted_path-target_matches_example =
    mounted_path-target_matches (codes "/mnt/") key target refl refl

abbrev note : FileMeta
note = record { size = 3; mode = 384; mtime = 10; atime = 10; inode = 2 ^ 63 + 5 }

-- An object whose file is missing, a file of the old layout, and marks without a file.
abbrev broken : Metadata
broken = record {
  version = 2;
  files = (key, note) ∷ (codes "files/a", note) ∷ [];
  links = (key, codes "/home/a") ∷ (codes "files/b", codes "/home/b") ∷ [];
  orphaned = (codes "files/c", 8) ∷ [];
  recovery = [];
  legacy_targets = [];
  displaced_links = (codes "files/d", codes "/home/d") ∷ [];
}

abbrev new_key : Bytes
new_key = codes "objects/9123abcd-0000-4000-8000-0123456789ab"

abbrev actual : Table Bytes FileMeta
actual = (new_key, note) ∷ []

reconcile_lem_example :
    ((reconcile 50 actual broken).0.version ≡ 3)
    × ((reconcile 50 actual broken).0.displaced_links ≡ [])
    × Covers actual (reconcile 50 actual broken).0.files
    × IsSound (reconcile 50 actual broken).0
    × ((k : Bytes)
        → has k (reconcile 50 actual broken).0.recovery ≡ true
        → time_or_zero (lookup k (reconcile 50 actual broken).0.orphaned) ≡ 0)
reconcile_lem_example = reconcile_lem 50 actual broken

reconcile_keeps_example :
    IsKept key note (lookup key (reconcile 50 actual broken).0.files)
    × (lookup key (reconcile 50 actual broken).0.links ≡ lookup key broken.links)
unfolding object_id_from_storage_path clean components join has_prefix normalize_object_id
    trim_space to_lower without_dashes lookup list_beq
reconcile_keeps_example =
    reconcile_keeps 50 actual broken key note refl refl ((λ e. refl), ((λ e. refl), tt))

abbrev working : Io
working = record {
  lock = none;
  read = none;
  save = saved;
  unlock = none;
  migrate = λ m. (err message, m);
}

abbrev root : ObjectsRoot
root = record {
  is_directory = ok true;
  entries = ok (
      record {
        name = codes "9123abcd-0000-4000-8000-0123456789ab.age";
        is_regular = true;
        modified = ok 4;
      }
      ∷ []);
}

load_metadata-IsSound_example :
    IsSound (load_metadata working 50 root broken broken).1.1
    × ((load_metadata working 50 root broken broken).1.0
        ≡ (load_metadata working 50 root broken broken).1.1)
unfolding load_metadata list_beq read_metadata valid_recovery insert lookup metadata_key join_path
    components join has_prefix delete
load_metadata-IsSound_example = load_metadata-IsSound working 50 root broken broken refl refl

abbrev linked : LinkRecord
linked = record {
  relative = key;
  source_path = codes "/home/a";
  protected = true;
  orphaned_at = 5;
  recovery = false;
  legacy_target = [];
}

-- Nothing is at /home/a, and the link is at /home/b; the tracker knows of a link that is nowhere.
abbrev world : World (List Bytes)
world = record {
  has_tracker = true;
  inspect = λ path v.
      if path == codes "/home/b"
      then ok (record { exists = true; is_symlink = true; target = target })
      else ok (record { exists = false; is_symlink = false; target = [] });
  tracked = λ storage v. ok (some (codes "/home/a", false));
  find = λ source path v. (ok (codes "/home/b"), path ∷ v);
  exhausted = λ v. true;
  since = λ t v. 600000000;
  call = λ c v. (none, v);
}

sync_record-MayTrash_example : MayTrash world linked (codes "/mnt") []
unfolding sync_record mounted_path_for_storage object_id_from_storage_path clean components join
    has_prefix normalize_object_id trim_space to_lower without_dashes join_path
    target_matches_storage
sync_record-MayTrash_example = sync_record-MayTrash world linked (codes "/mnt") [] refl

sync_record-MayMove_example :
    (true ≡ true)
    × (false ≡ false)
    × ((expected : Bytes) × (link : ProtectedLink) × (inspected world
            (source_of (codes "/home/a"))
            []
          ≡ ok link)
        × MayMove
            (record world { has_tracker = false })
            linked
            (codes "/home/b")
            (source_of (codes "/home/a"))
            expected
            link
            [])
unfolding sync_record mounted_path_for_storage object_id_from_storage_path clean components join
    has_prefix normalize_object_id trim_space to_lower without_dashes join_path
    target_matches_storage object_id_from_opaque_target
sync_record-MayMove_example =
    sync_record-MayMove (record world { has_tracker = false }) linked (codes "/home/b")
      (codes "/mnt") [] refl
