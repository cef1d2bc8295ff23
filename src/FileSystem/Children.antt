-- ===== src/FileSystem/Children.antt =====
-- The path of a child of the directory by-id, and the storage path that it leads to
-- (internal/passfs/filesystem.go: childPath, storagePath; volume.go: validateName).
use passfs.Prelude.{
  ◌≡◌, ◌≢◌, refl, sym, ap, ◌∙◌, Bool, true, false, not, ◌||◌, Option, none, some, Bytes, ◌==◌,
  slash, [], ◌∷◌, ◌++◌, nat_equality, list_equality, if◌then◌else◌, arith, any, ==→eq, ==→ne,
  list_beq,
}
use passfs.Error.{Error, message}
use passfs.Result.{Result, ok, err}
use passfs.Path.{clean, components, dot, dotdot, join, join_path, has_prefix, validate_name}
use passfs.Path.Laws.{IsFlat}
use passfs.Path.Names.{IsProperName, clean-join}
use passfs.Path.Child.{clean-child}
use passfs.Objects.{normalize_object_id, namespace_directory, storage_path, storage_of_id}
use passfs.Objects.Ids.{normalized}
use passfs.Objects.Storage.{object_path, join-object_path, id-IsProperName}
use passfs.FileSystem.{child_path}

flat : (w : Bytes) → any (λ c. c == slash) w ≡ false → IsFlat w
flat [] h = tt
flat (c ∷ w) h = (==→ne c slash (ground (arith, h)), flat w (ground (arith, h)))

-- A name that passes the tests of validateName.
pub validate_name-IsProperName : (w : Bytes) → validate_name w ≡ none → IsProperName w
unfolding validate_name
validate_name-IsProperName w h =
    known (w == []) (w == dot) (w == dotdot) (any (λ c. c == 0) w) (any (λ c. c == slash) w) refl
      refl refl refl h
  where
    known :
        (a b c d e : Bool)
        → (w == []) ≡ a
        → (w == dot) ≡ b
        → (w == dotdot) ≡ c
        → any (λ c. c == slash) w ≡ e
        → (if◌then◌else◌ {A = Option Error} (a || b || c || d || e) (some message) none) ≡ none
        → IsProperName w
    known true b c d e p q r s k = absurd (cc k)
    known false true c d e p q r s k = absurd (cc k)
    known false false true d e p q r s k = absurd (cc k)
    known false false false true e p q r s k = absurd (cc k)
    known false false false false true p q r s k = absurd (cc k)
    known false false false false false p q r s k =
        ((==→ne w [] p, ==→ne w dot q, flat w s), ==→ne w dotdot r)

clean_namespace : clean namespace_directory ≡ namespace_directory
unfolding clean components join
clean_namespace = refl

pub namespace-IsProperName : IsProperName namespace_directory
namespace-IsProperName = (((λ p. cc p), (λ p. cc p), (omega arith)), (λ p. cc p))

abbrev pub in_namespace : Bytes → Bytes
in_namespace name = namespace_directory ++ (slash ∷ name)

clean-in_namespace : (w : Bytes) → IsProperName w → clean (in_namespace w) ≡ in_namespace w
clean-in_namespace w h =
    unfold join in clean-join namespace_directory (w ∷ []) (namespace-IsProperName, (h, tt))

pub storage_path-in_namespace :
    (w : Bytes)
    → IsProperName w
    → storage_path (in_namespace w) ≡ storage_of_id (normalize_object_id w)
unfolding storage_path has_prefix list_beq
storage_path-in_namespace w h = rw (clean-in_namespace w h) refl

parent_named : clean [] ≢ namespace_directory
unfolding clean components
parent_named = λ p. cc p

parent_joins :
    (parent w : Bytes)
    → clean parent ≡ namespace_directory
    → IsProperName w
    → join_path parent w ≡ in_namespace w
unfolding join_path
parent_joins [] w e h = absurd (parent_named e)
parent_joins (x ∷ p) w e h =
    clean-child (x ∷ p) namespace_directory w (λ q. cc q) (λ q. cc q) h (e ∙ sym clean_namespace)
    ∙ clean-in_namespace w h

-- The child of the namespace directory, however that is written, is stored as the object that it names.
pub storage_path-child_path :
    (parent name relative id : Bytes)
    → clean parent ≡ namespace_directory
    → normalize_object_id name ≡ ok id
    → child_path parent name ≡ ok relative
    → storage_path relative ≡ object_path id
unfolding child_path
storage_path-child_path parent name relative id e n c =
    known (validate_name name) (parent == []) refl refl c
  where
    named :
        IsProperName name
        → join_path parent name ≡ relative
        → storage_path relative ≡ object_path id
    named h j =
        ap storage_path (sym j ∙ parent_joins parent name e h)
        ∙ storage_path-in_namespace name h
        ∙ ap storage_of_id n
        ∙ join-object_path id (id-IsProperName id (normalized name id n).0 (normalized name id n).1)

    empty : parent ≡ [] → ⊥
    empty p = parent_named (ap clean (sym p) ∙ e)

    known :
        (o : Option Error) (b : Bool)
        → validate_name name ≡ o
        → (parent == []) ≡ b
        → (elim o as (λ x. Result Bytes) [
          | some x ↦ err x
          | none ↦ if not b then ok (join_path parent name) else ok name
        ])
          ≡ ok relative
        → storage_path relative ≡ object_path id
    known (some x) b v p k = absurd (cc k)
    known none false v p k = named (validate_name-IsProperName name v) (cc k)
    known none true v p k = absurd (empty (==→eq parent [] p))
