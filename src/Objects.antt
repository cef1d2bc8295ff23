-- ===== src/Objects.antt =====
-- Object identifiers, and the storage paths and mounted targets made of them
-- (internal/passfs/objects.go). Texts are bytes; strings.ToLower is that of ASCII, since no other letter's
-- lower case is a hexadecimal digit, and the text of an identifier has no other letters.
pub mod Ids
pub mod Storage
use passfs.Prelude.{
  ℕ, ◌+◌, ◌*◌, ◌/◌, ◌%◌, ◌-◌, Bool, true, false, not, ◌&&◌, ◌||◌, Option, none, some, List, [], ◌∷◌,
  ◌++◌, Bytes, codes, slash, ltb, leb, ◌==◌, nat_equality, list_equality, if◌then◌else◌, length,
  get_elem?, take, drop, any, all, map, is_empty,
}
use mathlib.Core.List.{reverse}
use passfs.Error.{message}
use passfs.Result.{Result, ok, err}
use passfs.Token.{is_hex_digit}
use passfs.Path.{clean, has_prefix, join_path, is_abs, dot}

abbrev pub dash : ℕ
dash = b'-'

-- The ASCII bytes that unicode.IsSpace takes: tab to carriage return, and the space.
abbrev pub is_space : ℕ → Bool
is_space c = c == 32 || leb 9 c && leb c 13

-- The spaces of two and of three bytes in UTF-8: U+0085 and U+00A0; U+1680, U+2000 to U+200A, U+2028,
-- U+2029, U+202F, U+205F and U+3000.
abbrev pub is_space_of_two : ℕ → ℕ → Bool
is_space_of_two c d = c == 194 && (d == 133 || d == 160)

abbrev pub is_space_of_three : ℕ → ℕ → ℕ → Bool
is_space_of_three c d e =
    c == 225 && d == 154 && e == 128
    || c == 226
      && (d == 128 && (leb 128 e && leb e 138 || e == 168 || e == 169 || e == 175)
          || d == 129 && e == 159)
    || c == 227 && d == 128 && e == 128

-- Two and three bytes in the order of the text, or against it.
abbrev pub is_pair : Bool → ℕ → ℕ → Bool
is_pair true c d = is_space_of_two d c
is_pair false c d = is_space_of_two c d

abbrev pub is_triple : Bool → ℕ → ℕ → ℕ → Bool
is_triple true c d e = is_space_of_three e d c
is_triple false c d e = is_space_of_three c d e

-- The spaces at the start of a text, or at the end of one that is given backwards.
unfoldable pub trim_start : Bool → Bytes → Bytes
trim_start back [] = []
trim_start back (c ∷ []) = if is_space c then [] else c ∷ []
trim_start back (c ∷ d ∷ []) = elim (is_space c) [
  | true ↦ trim_start back (d ∷ [])
  | false ↦ if is_pair back c d then [] else c ∷ d ∷ []
]
trim_start back (c ∷ d ∷ e ∷ s) = elim (is_space c) [
  | true ↦ trim_start back (d ∷ e ∷ s)
  | false ↦ elim (is_pair back c d) [
    | true ↦ trim_start back (e ∷ s)
    | false ↦ elim (is_triple back c d e) [ true ↦ trim_start back s | false ↦ c ∷ d ∷ e ∷ s ]
  ]
]

-- strings.TrimSpace
unfoldable pub trim_space : Bytes → Bytes
unfolding trim_start
trim_space s = reverse (trim_start true (reverse (trim_start false s)))

abbrev pub lower : ℕ → ℕ
lower c = if leb b'A' c && leb c b'Z' then c + 32 else c

-- strings.ToLower
unfoldable pub to_lower : Bytes → Bytes
to_lower [] = []
to_lower (c ∷ s) = lower c ∷ to_lower s

abbrev pub is_dash_at : Bytes → ℕ → Bool
is_dash_at s i = elim (get_elem? s i) [ some c ↦ c == dash | none ↦ false ]

-- strings.NewReplacer("-", "").Replace
unfoldable pub without_dashes : Bytes → Bytes
without_dashes [] = []
without_dashes (c ∷ s) = let rest = without_dashes s in if c == dash then rest else c ∷ rest

-- The tests of normalizeObjectID on the trimmed, lower-case text.
abbrev pub is_object_id : Bytes → Bool
is_object_id s =
    length s == 36
    && is_dash_at s 8
    && is_dash_at s 13
    && is_dash_at s 18
    && is_dash_at s 23
    && length (without_dashes s) == 32
    && all is_hex_digit (without_dashes s)

unfoldable pub normalize_object_id : Bytes → Result Bytes
unfolding to_lower trim_space without_dashes
normalize_object_id value =
    let s = to_lower (trim_space value) in if is_object_id s then ok s else err message

abbrev pub hex_digit : ℕ → ℕ
hex_digit n = if ltb n 10 then b'0' + n else b'a' + (n - 10)

-- hex.EncodeToString
unfoldable pub encode_hex : Bytes → Bytes
encode_hex [] = []
encode_hex (b ∷ s) = hex_digit (b / 16) ∷ hex_digit (b % 16) ∷ encode_hex s

unfoldable pub format_object_id : Bytes → Bytes
unfolding encode_hex
format_object_id value =
    let e = encode_hex value in
    take 8 e
    ++ (dash ∷ take 4 (drop 8 e))
    ++ (dash ∷ take 4 (drop 12 e))
    ++ (dash ∷ take 4 (drop 16 e))
    ++ (dash ∷ take 12 (drop 20 e))

abbrev set_byte : ℕ → (ℕ → ℕ) → Bytes → Bytes
set_byte i f s = take i s ++ elim (drop i s) [ [] ↦ [] | c ∷ rest ↦ f c ∷ rest ]

-- newObjectID from sixteen random bytes: value[6]&0x0f|0x40 and value[8]&0x3f|0x80.
unfoldable pub new_object_id : Bytes → Bytes
unfolding format_object_id
new_object_id random =
    format_object_id (set_byte 8 (λ b. b % 64 + 128) (set_byte 6 (λ b. b % 16 + 64) random))

abbrev pub objects_directory : Bytes
objects_directory = codes "objects"

abbrev pub namespace_directory : Bytes
namespace_directory = codes "by-id"

abbrev pub in_objects : Result Bytes → Result Bytes
in_objects (err e) = err e
in_objects (ok id) = ok (join_path objects_directory id)

unfoldable pub object_storage_path : Bytes → Result Bytes
unfolding normalize_object_id
object_storage_path id = in_objects (normalize_object_id id)

-- What follows the directory and its slash in a cleaned path.
abbrev pub below : Bytes → Bytes → Option Bytes
below directory p =
    if has_prefix p (directory ++ (slash ∷ [])) then some (drop (length directory + 1) p) else none

abbrev pub id_of_element : Option Bytes → Result Bytes
id_of_element none = err message
id_of_element (some w) = if any (λ c. c == slash) w then err message else normalize_object_id w

unfoldable pub object_id_from_storage_path : Bytes → Result Bytes
unfolding normalize_object_id
object_id_from_storage_path storage = id_of_element (below objects_directory (clean storage))

abbrev pub invalid_storage : Bytes
invalid_storage = join_path objects_directory (codes ".invalid")

abbrev pub storage_of_id : Result Bytes → Bytes
storage_of_id (ok id) = join_path objects_directory id
storage_of_id (err e) = invalid_storage

abbrev pub storage_below : Option Bytes → Bytes
storage_below none = invalid_storage
storage_below (some w) = storage_of_id (normalize_object_id w)

-- filesystem.go: storagePath
unfoldable pub storage_path : Bytes → Bytes
unfolding normalize_object_id
storage_path relative =
    let p = clean relative in
    if p == dot || p == namespace_directory
    then objects_directory
    else storage_below (below namespace_directory p)

abbrev pub id_below : Option Bytes → Option Bytes
id_below none = none
id_below (some w) = elim (normalize_object_id w) [ ok id ↦ some id | err e ↦ none ]

-- filesystem.go: virtualObjectID
unfoldable pub virtual_object_id : Bytes → Option Bytes
unfolding normalize_object_id
virtual_object_id relative = id_below (below namespace_directory (clean relative))

-- mountedObjectPath for an absolute mount point, which filepath.Abs only cleans.
abbrev pub in_mount : Bytes → Result Bytes → Result Bytes
in_mount mount (err e) = err e
in_mount mount (ok id) = ok (join_path (join_path (clean mount) namespace_directory) id)

unfoldable pub mounted_object_path : Bytes → Bytes → Result Bytes
unfolding normalize_object_id
mounted_object_path mount id = in_mount mount (normalize_object_id id)

abbrev pub mounted_for : Bytes → Result Bytes → Result Bytes
mounted_for mount (err e) = err e
mounted_for mount (ok id) = mounted_object_path mount id

unfoldable pub mounted_path_for_storage : Bytes → Bytes → Result Bytes
unfolding object_id_from_storage_path mounted_object_path
mounted_path_for_storage mount storage = mounted_for mount (object_id_from_storage_path storage)
