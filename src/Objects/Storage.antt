-- ===== src/Objects/Storage.antt =====
-- The storage path of an object and back, and where a virtual path leads
-- (internal/passfs/objects.go: objectStoragePath, objectIDFromStoragePath; filesystem.go: storagePath,
-- virtualObjectID).
use passfs.Prelude.{
  ◌≡◌, ◌≢◌, ◌⊎◌, inl, inr, refl, Bool, true, false, ◌||◌, Option, some, none, [], ◌∷◌, ◌++◌, Bytes,
  slash, arith, ◌==◌, nat_equality, list_equality, if◌then◌else◌, any, All, ap, sym, ◌∙◌, subst,
  ==→ne, ==→eq,
}
use passfs.Result.{Result, ok, err}
use passfs.Path.{join, clean, join_path, dot, dotdot, has_prefix}
use passfs.Path.Laws.{IsFlat}
use passfs.Path.Names.{IsProperName, clean-join}
use passfs.Objects.{
  is_object_id, normalize_object_id, objects_directory, namespace_directory, object_storage_path,
  in_objects, below, object_id_from_storage_path, storage_path, storage_below, storage_of_id,
  invalid_storage, virtual_object_id, id_below,
}
use passfs.Objects.Ids.{IsPlain, normalized, normalize_idem}

plain-IsFlat : (s : Bytes) → All IsPlain s → IsFlat s
plain-IsFlat [] h = tt
plain-IsFlat (c ∷ s) h = (==→ne c slash h.0.1, plain-IsFlat s h.1)

no_dot : (s : Bytes) → All IsPlain s → (s ≢ dot) × (s ≢ dotdot)
no_dot [] h = ((λ p. cc p), (λ p. cc p))
no_dot (c ∷ s) h = ((λ p. starts (cc p)), (λ p. starts (cc p)))
  where
    starts : c ≡ b'.' → ⊥
    starts e = ==→ne c b'.' h.0.2 e

flat_any : (s : Bytes) → All IsPlain s → any (λ c. c == slash) s ≡ false
flat_any [] h = refl
flat_any (c ∷ s) h = ground (arith, flat_any s h.1)

pub id-IsProperName : (w : Bytes) → is_object_id w ≡ true → All IsPlain w → IsProperName w
id-IsProperName [] v h = absurd (cc v)
id-IsProperName (c ∷ s) v h =
    (((λ p. cc p), (no_dot (c ∷ s) h).0, plain-IsFlat (c ∷ s) h), (no_dot (c ∷ s) h).1)

objects-IsProperName : IsProperName objects_directory
objects-IsProperName = (((λ p. cc p), (λ p. cc p), (omega arith)), (λ p. cc p))

-- The path of an object, written out.
abbrev pub object_path : Bytes → Bytes
object_path id = objects_directory ++ (slash ∷ id)

clean-object_path : (w : Bytes) → IsProperName w → clean (object_path w) ≡ object_path w
clean-object_path w n =
    unfold join in clean-join objects_directory (w ∷ []) (objects-IsProperName, (n, tt))

pub join-object_path : (w : Bytes) → IsProperName w → join_path objects_directory w ≡ object_path w
unfolding join_path
join-object_path w n = clean-object_path w n

pub object_id_of_path :
    (value id : Bytes)
    → normalize_object_id value ≡ ok id
    → object_id_from_storage_path (object_path id) ≡ ok id
unfolding object_id_from_storage_path has_prefix
object_id_of_path value id h =
    let (valid, plain, low) = normalized value id h in
    let same : clean (object_path id) ≡ object_path id =
      clean-object_path id (id-IsProperName id valid plain) in
    rw same (rw (flat_any id plain) (normalize_idem value id h))

-- The storage path of an object leads back to the normal form of the identifier it was made of.
pub object_id-storage_path :
    (value storage : Bytes)
    → object_storage_path value ≡ ok storage
    → object_id_from_storage_path storage ≡ normalize_object_id value
unfolding object_storage_path
object_id-storage_path value storage h = known (normalize_object_id value) refl h
  where
    known :
        (r : Result Bytes)
        → normalize_object_id value ≡ r
        → in_objects r ≡ ok storage
        → object_id_from_storage_path storage ≡ normalize_object_id value
    known (err e) n k = absurd (cc k)
    known (ok id) n k =
        let (valid, plain, low) = normalized value id n in
        let path : object_path id ≡ storage =
          sym (join-object_path id (id-IsProperName id valid plain)) ∙ cc k in
        subst (λ x. object_id_from_storage_path x ≡ normalize_object_id value) path
          (object_id_of_path value id n ∙ sym n)

-- Where a virtual path leads: to the objects' directory, to an object's own file, or to a name that no
-- object has.
abbrev pub LeadsTo : Bytes → Bytes → Type 0
LeadsTo relative storage =
    ((storage ≡ objects_directory)
      × ((clean relative ≡ dot) ⊎ (clean relative ≡ namespace_directory)))
    ⊎ (((id : Bytes) × (virtual_object_id relative ≡ some id)
          × (storage ≡ object_path id)
          × (object_id_from_storage_path storage ≡ ok id))
        ⊎ ((storage ≡ invalid_storage) × (virtual_object_id relative ≡ none)))

leads_id :
    (relative value : Bytes) (r : Result Bytes)
    → normalize_object_id value ≡ r
    → virtual_object_id relative ≡ elim r as (λ x. Option Bytes) [ ok id ↦ some id | err e ↦ none ]
    → LeadsTo relative (storage_of_id r)
leads_id relative value (err e) n v = inr (inr (refl, v))
leads_id relative value (ok id) n v =
    let (valid, plain, low) = normalized value id n in
    let path : join_path objects_directory id ≡ object_path id =
      join-object_path id (id-IsProperName id valid plain) in
    inr (
      inl (
        id,
        v,
        path,
        subst (λ x. object_id_from_storage_path x ≡ ok id) (sym path)
            (object_id_of_path value id n),
      ))

-- Every virtual path leads to the objects' directory, if it is the root or the namespace directory
-- itself, to the file of the object that it names, or, if it names none, to objects/.invalid.
pub storage_path-LeadsTo : (relative : Bytes) → LeadsTo relative (storage_path relative)
unfolding storage_path virtual_object_id
storage_path-LeadsTo relative =
    at_directory (clean relative == dot) (clean relative == namespace_directory) refl refl
  where
    at_below :
        (o : Option Bytes)
        → below namespace_directory (clean relative) ≡ o
        → LeadsTo relative (storage_below o)
    at_below none e = inr (inr (refl, ap id_below e))
    at_below (some w) e = leads_id relative w (normalize_object_id w) refl (ap id_below e)

    at_directory :
        (d n : Bool)
        → (clean relative == dot) ≡ d
        → (clean relative == namespace_directory) ≡ n
        → LeadsTo relative (
            if d || n
            then objects_directory
            else storage_below (below namespace_directory (clean relative)))
    at_directory true n e f = inl (refl, inl (==→eq (clean relative) dot e))
    at_directory false true e f = inl (refl, inr (==→eq (clean relative) namespace_directory f))
    at_directory false false e f = at_below (below namespace_directory (clean relative)) refl
