-- ===== src/Links/Matching.antt =====
-- The target of a protected link leads back to its object (internal/passfs/objects.go:
-- mountedPathForStorage, mountedObjectPath, targetMatchesStorage).
use passfs.Prelude.{
  ◌≡◌, ◌≢◌, refl, sym, ap, ◌∙◌, Bool, true, false, Option, none, some, List, [], ◌∷◌, ◌++◌, Bytes,
  slash, ◌==◌, ==_refl, nat_equality, list_equality, list_beq, if◌then◌else◌, any,
}
use mathlib.Core.List.{reverse, reverse-append}
use passfs.Error.{message}
use passfs.Result.{Result, ok, err}
use passfs.Path.{clean, components, is_abs, join_path}
use passfs.Path.Laws.{components-clean, is_abs-clean}
use passfs.Path.Names.{IsProperName}
use passfs.Path.Child.{components-child, is_abs-append}
use passfs.Objects.{
  namespace_directory, objects_directory, normalize_object_id, object_id_from_storage_path,
  id_of_element, below, in_mount, mounted_for, mounted_object_path, mounted_path_for_storage,
}
use passfs.Objects.Ids.{normalized, normalize_idem}
use passfs.Objects.Storage.{id-IsProperName}
use passfs.FileSystem.Children.{namespace-IsProperName}
use passfs.Links.Targets.{
  id_of_elements, object_id_from_opaque_target, same_id, target_matches_storage,
}

abs_filled : (p : Bytes) → is_abs p ≡ true → p ≢ []
abs_filled [] h = absurd (cc h)
abs_filled (x ∷ p) h = λ q. cc q

join_path-clean : (p w : Bytes) → p ≢ [] → join_path p w ≡ clean (p ++ (slash ∷ w))
unfolding join_path
join_path-clean [] w n = absurd (n refl)
join_path-clean (x ∷ p) w n = refl

-- A name joined to an absolute path: the result is absolute, and the name is its last element.
joined :
    (p w : Bytes)
    → is_abs p ≡ true
    → IsProperName w
    → (is_abs (join_path p w) ≡ true) × (components (join_path p w) ≡ components p ++ (w ∷ []))
joined p w a h =
    let n : p ≢ [] = abs_filled p a in
    (
      ap is_abs (join_path-clean p w n)
          ∙ is_abs-clean (p ++ (slash ∷ w))
          ∙ is_abs-append p (slash ∷ w) n
          ∙ a,
      ap components (join_path-clean p w n)
          ∙ components-clean (p ++ (slash ∷ w))
          ∙ components-child p w n h,
    )

-- The identifier of a storage path is in normal form.
storage_id_normal :
    (storage id : Bytes)
    → object_id_from_storage_path storage ≡ ok id
    → normalize_object_id id ≡ ok id
unfolding object_id_from_storage_path
storage_id_normal storage id h = at_below (below objects_directory (clean storage)) h
  where
    at_element :
        (w : Bytes) (c : Bool)
        → (if c then err message else normalize_object_id w) ≡ ok id
        → normalize_object_id id ≡ ok id
    at_element w true k = absurd (cc k)
    at_element w false k = normalize_idem w id k

    at_below : (o : Option Bytes) → id_of_element o ≡ ok id → normalize_object_id id ≡ ok id
    at_below none k = absurd (cc k)
    at_below (some w) k = at_element w (any (λ c. c == slash) w) k

last_elements :
    (cs : List Bytes) (id : Bytes)
    → id_of_elements (reverse ((cs ++ (namespace_directory ∷ [])) ++ (id ∷ [])))
      ≡ normalize_object_id id
unfolding list_beq
last_elements cs id = ap id_of_elements (
    reverse-append (cs ++ (namespace_directory ∷ [])) (id ∷ [])
    ∙ ap (id ∷◌) (reverse-append cs (namespace_directory ∷ [])))

opaque_id :
    (mount id : Bytes)
    → is_abs mount ≡ true
    → normalize_object_id id ≡ ok id
    → object_id_from_opaque_target (join_path (join_path (clean mount) namespace_directory) id)
      ≡ ok id
unfolding object_id_from_opaque_target
opaque_id mount id a n =
    let d : Bytes = join_path (clean mount) namespace_directory in
    let first =
      joined (clean mount) namespace_directory (is_abs-clean mount ∙ a) namespace-IsProperName in
    let second =
      joined d id first.0 (id-IsProperName id (normalized id id n).0 (normalized id id n).1) in
    ap
      (λ b.
        if b then id_of_elements (reverse (components (clean (join_path d id)))) else err message)
      (is_abs-clean (join_path d id) ∙ second.0)
    ∙ ap (λ ws. id_of_elements (reverse ws))
        (components-clean (join_path d id) ∙ second.1 ∙ ap (λ ws. ws ++ (id ∷ [])) first.1)
    ∙ last_elements (components (clean mount)) id
    ∙ n

-- The target that a protected link of the storage path gets, at an absolute mount point, is recognized as
-- the target of that storage path.
pub mounted_path-target_matches :
    (mount storage target : Bytes)
    → is_abs mount ≡ true
    → mounted_path_for_storage mount storage ≡ ok target
    → target_matches_storage target storage ≡ true
unfolding mounted_path_for_storage target_matches_storage mounted_object_path
mounted_path-target_matches mount storage target a h =
    at_id (object_id_from_storage_path storage) refl h
  where
    at_id :
        (r : Result Bytes)
        → object_id_from_storage_path storage ≡ r
        → mounted_for mount r ≡ ok target
        → same_id (object_id_from_opaque_target target) (object_id_from_storage_path storage) ≡ true
    at_id (err e) i k = absurd (cc k)
    at_id (ok id) i k =
        let n : normalize_object_id id ≡ ok id = storage_id_normal storage id i in
        let path : join_path (join_path (clean mount) namespace_directory) id ≡ target =
          cc (sym (ap (in_mount mount) n) ∙ k) in
        ap (λ r. same_id r (object_id_from_storage_path storage))
          (ap object_id_from_opaque_target (sym path) ∙ opaque_id mount id a n)
        ∙ ap (same_id (ok id)) i
        ∙ ==_refl id
