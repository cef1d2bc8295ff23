-- ===== src/Path.antt =====
-- Paths: the `path/filepath` functions of Go's Unix build that the program uses, and the
-- program's own checks of them (internal/passfs/volume.go: metadataKey, validateRelativePath,
-- validateName, directoryPath, encryptedPath; internal/passfs/path.go: PathWithin).
mod Clean
pub mod Laws
pub mod Within
pub mod Names
pub mod Child
unfoldable pub use Clean.{split, join, clean_step, clean_loop, components, clean}
pub use Clean.{cons_head, dot, dotdot, is_abs, pop, render}
use passfs.Prelude.{
  ℕ, Bool, true, false, ◌&&◌, ◌||◌, Option, none, some, List, [], ◌∷◌, ◌++◌, Bytes, codes, slash,
  ◌==◌, nat_equality, list_equality, list_beq, any, if◌then◌else◌,
}
use passfs.Error.{Error, message}
use passfs.Result.{Result, ok, err}

-- strings.HasPrefix
unfoldable pub has_prefix : Bytes → Bytes → Bool
has_prefix s [] = true
has_prefix [] (x ∷ xs) = false
has_prefix (y ∷ ys) (x ∷ xs) = y == x && has_prefix ys xs

-- filepath.Join of two elements
unfoldable pub join_path : Bytes → Bytes → Bytes
unfolding list_beq
join_path [] b = if b == [] then [] else clean b
join_path (x ∷ a) b = clean ((x ∷ a) ++ (slash ∷ b))

-- config.go: internalDirName
abbrev pub internal_dir_name : Bytes
internal_dir_name = codes ".passfs"

-- volume.go: encryptedSuffix
abbrev pub encrypted_suffix : Bytes
encrypted_suffix = codes ".age"

-- filepath.ToSlash is the identity on Unix.
unfoldable pub metadata_key : Bytes → Bytes
unfolding list_beq clean
metadata_key relative = if relative == [] || relative == dot then [] else clean relative

abbrev pub first_element : List Bytes → Bytes
first_element [] = []
first_element (w ∷ ws) = w

-- `none` is the nil error.
unfoldable pub validate_relative_path : Bytes → Option Error
validate_relative_path relative =
    if relative == [] || relative == dot
    then none
    else if any (λ c. c == 0) relative
    then some message
    else if is_abs relative
    then some message
    else let cleaned = clean relative in
      if cleaned == dotdot || has_prefix cleaned (dotdot ++ (slash ∷ []))
      then some message
      else if first_element (split slash cleaned) == internal_dir_name
      then some message
      else none

unfoldable pub validate_name : Bytes → Option Error
unfolding list_beq
validate_name name =
    if name == []
      || name == dot
      || name == dotdot
      || any (λ c. c == 0) name
      || any (λ c. c == slash) name
    then some message
    else none

-- Volume.directoryPath and Volume.encryptedPath, over the volume's root.
unfoldable pub directory_path : Bytes → Bytes → Result Bytes
directory_path root relative = elim (validate_relative_path relative) [
  | some e ↦ err e
  | none ↦ ok (join_path root (clean relative))
]

unfoldable pub encrypted_path : Bytes → Bytes → Result Bytes
unfolding list_beq
encrypted_path root relative = elim (validate_relative_path relative) [
  | some e ↦ err e
  | none ↦
      if relative == [] || relative == dot
      then err message
      else ok (join_path root (clean relative ++ encrypted_suffix))
]

-- PathWithin
unfoldable pub path_within : Bytes → Bytes → Bool
path_within root path =
    clean root == clean path || has_prefix (clean path) (clean root ++ (slash ∷ []))
