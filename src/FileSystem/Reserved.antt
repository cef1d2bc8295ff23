-- ===== src/FileSystem/Reserved.antt =====
-- The names that the host's own bookkeeping uses (internal/passfs/filesystem.go:
-- reservedRootMetadataNames, isReservedFilesystemMetadataPath).
use passfs.Prelude.{
  Bool, false, ◌||◌, List, [], ◌∷◌, Bytes, codes, slash, ◌==◌, nat_equality, list_equality,
  list_beq, if◌then◌else◌, any,
}
use passfs.Path.{clean, dot, has_prefix, split, first_element}

abbrev pub reserved_root_names : List Bytes
reserved_root_names =
    codes ".DocumentRevisions-V100"
    ∷ codes ".Spotlight-V100"
    ∷ codes ".TemporaryItems"
    ∷ codes ".Trash"
    ∷ codes ".Trashes"
    ∷ codes ".fseventsd"
    ∷ codes ".metadata_never_index"
    ∷ codes ".metadata_never_index_unless_rootfs"
    ∷ codes ".vol"
    ∷ codes ".xdg-volume-info"
    ∷ codes "System Volume Information"
    ∷ codes "lost+found"
    ∷ []

abbrev pub is_reserved_name : Bytes → Bool
is_reserved_name name = name == codes ".DS_Store" || has_prefix name (codes "._")

-- isReservedFilesystemMetadataPath
unfoldable pub is_reserved_path : Bytes → Bool
unfolding list_beq
is_reserved_path relative =
    let components = split slash (clean relative) in
    if clean relative == dot || clean relative == []
    then false
    else any (λ name. first_element components == name) reserved_root_names
      || has_prefix (first_element components) (codes ".com.apple.timemachine.")
      || has_prefix (first_element components) (codes ".Trash-")
      || any is_reserved_name components
