-- ===== src/Links/Targets.antt =====
-- The targets of protected links (internal/passfs/objects.go: objectIDFromOpaqueTarget,
-- targetMatchesStorage).
use passfs.Prelude.{
  Bool, false, List, [], ◌∷◌, Bytes, ◌==◌, nat_equality, list_equality, list_beq, if◌then◌else◌,
}
use mathlib.Core.List.{reverse}
use passfs.Error.{message}
use passfs.Result.{Result, ok, err}
use passfs.Path.{clean, components, is_abs}
use passfs.Objects.{namespace_directory, normalize_object_id, object_id_from_storage_path}

-- The last element of an absolute path, filepath.Base, below the one that is the Base of its Dir.
abbrev pub id_of_elements : List Bytes → Result Bytes
id_of_elements [] = err message
id_of_elements (base ∷ []) = err message
id_of_elements (base ∷ directory ∷ rest) =
    if directory == namespace_directory then normalize_object_id base else err message

unfoldable pub object_id_from_opaque_target : Bytes → Result Bytes
unfolding list_beq components normalize_object_id
object_id_from_opaque_target target =
    if is_abs (clean target)
    then id_of_elements (reverse (components (clean target)))
    else err message

abbrev pub same_id : Result Bytes → Result Bytes → Bool
same_id (err e) r = false
same_id (ok a) (err e) = false
same_id (ok a) (ok b) = a == b

unfoldable pub target_matches_storage : Bytes → Bytes → Bool
unfolding object_id_from_opaque_target object_id_from_storage_path
target_matches_storage target storage =
    same_id (object_id_from_opaque_target target) (object_id_from_storage_path storage)
