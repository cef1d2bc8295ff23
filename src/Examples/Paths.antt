-- ===== src/Examples/Paths.antt =====
-- Paths: tests, and the theorems of Path at concrete paths.
use passfs.Prelude.{
  ◌≡◌, refl, ◌≢◌, true, false, some, none, [], ◌++◌, Bytes, codes, All, slash, list_beq,
}
use passfs.Error.{message}
use passfs.Result.{ok}
use passfs.Path.{
  clean, components, join, has_prefix, join_path, validate_relative_path, validate_name,
  directory_path, encrypted_path, path_within, metadata_key, is_abs,
}
use passfs.Path.Within.{IsBelow, directory_path_within, validate_relative_path-IsBelow}

clean_dots : clean (codes "/a/./b//../c/..") ≡ codes "/a"
unfolding clean components join list_beq
clean_dots = refl

clean_up : clean (codes "a/../../b/") ≡ codes "../b"
unfolding clean components join list_beq
clean_up = refl

escape_refused : validate_relative_path (codes "objects/../../x") ≡ some message
unfolding validate_relative_path clean components join list_beq has_prefix
escape_refused = refl

reserved_refused : validate_relative_path (codes "a/../.passfs/x") ≡ some message
unfolding validate_relative_path clean components join list_beq has_prefix
reserved_refused = refl

encrypted_example : encrypted_path (codes "/v") (codes "objects/x") ≡ ok (codes "/v/objects/x.age")
unfolding encrypted_path validate_relative_path join_path clean components join list_beq has_prefix
encrypted_example = refl

-- The root directory has no path below it, as PathWithin sees it.
within_root : path_within (codes "/") (codes "/etc") ≡ false
unfolding path_within clean components join list_beq has_prefix
within_root = refl

metadata_key_dot : metadata_key (codes ".") ≡ []
unfolding metadata_key list_beq
metadata_key_dot = refl

name_refused : validate_name (codes "a/b") ≡ some message
unfolding validate_name list_beq
name_refused = refl

abbrev inside : Bytes
inside = codes "objects/./x"

inside_valid : validate_relative_path inside ≡ none
unfolding validate_relative_path clean components join list_beq has_prefix
inside_valid = refl

opened : directory_path (codes "/v") inside ≡ ok (codes "/v/objects/x")
unfolding directory_path validate_relative_path join_path clean components join list_beq has_prefix
opened = refl

root_elements : components (codes "/v") ≢ []
unfolding components list_beq
root_elements = λ e. cc

validate_relative_path-IsBelow_example : All IsBelow (components inside) × (is_abs inside ≡ false)
validate_relative_path-IsBelow_example = validate_relative_path-IsBelow inside inside_valid

directory_path_within_example :
    (components (codes "/v/objects/x") ≡ components (codes "/v") ++ components inside)
    × All IsBelow (components inside)
    × (path_within (codes "/v") (codes "/v/objects/x") ≡ true)
directory_path_within_example =
    directory_path_within slash (codes "v") inside (codes "/v/objects/x") opened root_elements
