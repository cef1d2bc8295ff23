-- ===== src/FileSystem/Listed.antt =====
-- What the listing of the directory by-id names (internal/passfs/filesystem.go: ReadDirectory).
use passfs.Prelude.{
  ◌≡◌, refl, ap, ◌∙◌, subst, Bool, true, false, not, ◌&&◌, Option, none, some, Bytes, List, [], ◌∷◌,
  ◌==◌, ◌⊎◌, inl, inr, nat_equality, list_equality, if◌then◌else◌, is_some, ℕ, zero, suc, get_elem?,
}
use passfs.Error.{Error, einval, enotdir, errno_from_error}
use passfs.Result.{Result, ok, err}
use passfs.Path.{clean, dot, encrypted_suffix, validate_relative_path}
use passfs.FileMeta.{type_file, file_attributes}
use passfs.Opening.{virtual_type}
use passfs.Objects.{normalize_object_id, objects_directory, namespace_directory, storage_path}
use passfs.Objects.Storage.{object_path}
use passfs.Meta.Reconcile.{has_suffix, trim_suffix}
use passfs.FileSystem.{
  Backend, ListedEntry, Reply, given, failed, RawEntry, child_path, is_object_entry, entry_place,
  listed_entry, add_listed, list_entries, list_read, list_typed, list_root, read_directory,
}
use passfs.FileSystem.Children.{storage_path-child_path}

module _ {V : Type 0} (b : Backend V) where
  -- The entry is an object's, and shown below the inode `parent`.
  abbrev IsListed : ℕ → ListedEntry → Type 0
  IsListed parent d =
      ((id : Bytes) × (normalize_object_id d.name ≡ ok id))
      × (d.entry.type ≡ type_file)
      × (d.entry.parent_inode ≡ parent)

  listed_entry-IsListed :
      (now parent : ℕ) (e : RawEntry) (v : V)
      → is_object_entry b e ≡ true
      → IsListed parent (listed_entry b now parent e v)
  unfolding file_attributes
  listed_entry-IsListed now parent e v h = (
    named (e.is_regular) (has_suffix e.name encrypted_suffix)
        (normalize_object_id (trim_suffix e.name encrypted_suffix)) refl h,
    refl,
    refl,
  )
    where
      named :
          (x y : Bool) (r : Result Bytes)
          → normalize_object_id (trim_suffix e.name encrypted_suffix) ≡ r
          → (x && y && (elim r as (λ z. Bool) [ ok id ↦ true | err f ↦ false ])) ≡ true
          → (id : Bytes) × (normalize_object_id (trim_suffix e.name encrypted_suffix) ≡ ok id)
      named x y (ok id) q k = (id, q)
      named true true (err f) q k = absurd (cc k)
      named true false (err f) q k = absurd (cc k)
      named false y (err f) q k = absurd (cc k)

  list_entries-IsListed :
      (now parent : ℕ) (raw : List RawEntry) (v : V) (es : List ListedEntry) (i : ℕ)
      (d : ListedEntry)
      → (list_entries b now parent raw v).0 ≡ given es
      → get_elem? es i ≡ some d
      → IsListed parent d
  unfolding list_entries
  list_entries-IsListed now parent [] v es i d h g = none_listed es i (given_eq h) g
    where
      given_eq : given [] ≡ given es → [] ≡ es
      given_eq p = cc p

      none_listed :
          (es : List ListedEntry) (i : ℕ) → [] ≡ es → get_elem? es i ≡ some d → IsListed parent d
      none_listed [] i p q = absurd (cc q)
      none_listed (x ∷ es) i p q = absurd (cc p)
  list_entries-IsListed now parent (e ∷ raw) v es i d h g =
      at_failure e.failure (is_object_entry b e) refl
        (λ w rest j. list_entries-IsListed now parent raw w rest j d) h
    where
      positioned :
          (x : ListedEntry) (rest es : List ListedEntry) (i : ℕ)
          → x ∷ rest ≡ es
          → get_elem? es i ≡ some d
          → (x ≡ d) ⊎ ((j : ℕ) × (get_elem? rest j ≡ some d))
      positioned x rest [] i p q = absurd (cc p)
      positioned x rest (y ∷ es) zero p q = inl (cc (p, q))
      positioned x rest (y ∷ es) (suc j) p q = inr (j, ap (λ ys. get_elem? ys j) (tails p) ∙ q)
        where
          tails : x ∷ rest ≡ y ∷ es → rest ≡ es
          tails p = cc p

      Later : V → Type 0
      Later w =
          (rest : List ListedEntry) (j : ℕ)
          → (list_entries b now parent raw w).0 ≡ given rest
          → get_elem? rest j ≡ some d
          → IsListed parent d

      added :
          (x : ListedEntry) (r : Reply (List ListedEntry) × V)
          → IsListed parent x
          → ((rest : List ListedEntry) (j : ℕ)
              → r.0 ≡ given rest
              → get_elem? rest j ≡ some d
              → IsListed parent d)
          → (add_listed b x r).0 ≡ given es
          → IsListed parent d
      added x (failed n, w) l ih k = absurd (cc k)
      added x (given rest, w) l ih k = elim (positioned x rest es i (same k) g) [
        | inl q ↦ subst (IsListed parent) q l
        | inr (j, q) ↦ ih rest j refl q
      ]
        where
          same : given (x ∷ rest) ≡ given es → x ∷ rest ≡ es
          same q = cc q

      at_failure :
          (f : Option Error) (c : Bool)
          → is_object_entry b e ≡ c
          → ((w : V) → Later w)
          → (elim f as (λ z. Reply (List ListedEntry) × V) [
            | some x ↦ (failed (errno_from_error (some x)), v)
            | none ↦
                if c
                then add_listed b
                    (listed_entry b now parent e v)
                    (list_entries b now parent raw (b.source.after_file_meta (entry_place b e) v))
                else list_entries b now parent raw v
          ]).0
            ≡ given es
          → IsListed parent d
      at_failure (some x) c o ih k = absurd (cc k)
      at_failure none true o ih k =
          added (listed_entry b now parent e v) _ (listed_entry-IsListed now parent e v o)
            (ih (b.source.after_file_meta (entry_place b e) v)) k
      at_failure none false o ih k = ih v es i k g

  read_directory-IsListed :
      (now : ℕ) (relative : Bytes) (v : V) (es : List ListedEntry) (i : ℕ) (d : ListedEntry)
      → clean relative ≡ namespace_directory
      → (read_directory b now relative v).0 ≡ given es
      → get_elem? es i ≡ some d
      → IsListed (b.directory_info objects_directory v).inode d
  unfolding read_directory
  read_directory-IsListed now relative v es i d n h g =
      at_clean (is_some (validate_relative_path relative)) (clean relative) n h
    where
      inode : ℕ
      inode = (b.directory_info objects_directory v).inode

      at_read : (r : Result (List RawEntry)) → (list_read b now v r).0 ≡ given es → IsListed inode d
      at_read (err e) k = absurd (cc k)
      at_read (ok raw) k = list_entries-IsListed now inode raw v es i d k g

      at_type : (r : Result Bool) → (list_typed b now v r).0 ≡ given es → IsListed inode d
      at_type (err e) k = absurd (cc k)
      at_type (ok false) k = absurd (cc k)
      at_type (ok true) k = at_read (b.read_dir v) k

      at_clean :
          (c : Bool) (p : Bytes)
          → p ≡ namespace_directory
          → (if◌then◌else◌ {A = Reply (List ListedEntry) × V} c
              (failed einval, v)
              (if p == dot
                then (list_root b (b.lstat_objects v), v)
                else if not (p == namespace_directory)
                then (failed enotdir, v)
                else list_typed b now v (virtual_type b.source objects_directory v))).0
            ≡ given es
          → IsListed inode d
      at_clean true p e k = absurd (cc k)
      at_clean false p e k = at_type (virtual_type b.source objects_directory v) (rw e at k)

  -- Each entry `d` of a listing of the directory by-id, however its path is written, is an object: where
  -- Create and Unlink make the path `path` of that directory and the entry's name, its storage path is the
  -- file of the object that the name is. The entry is shown as a file, and its parent's inode is the
  -- host's inode of the objects' directory.
  pub read_directory-child_path :
      (now : ℕ) (relative : Bytes) (v : V) (es : List ListedEntry) (i : ℕ) (d : ListedEntry)
      (path : Bytes)
      → clean relative ≡ namespace_directory
      → (read_directory b now relative v).0 ≡ given es
      → get_elem? es i ≡ some d
      → child_path relative d.name ≡ ok path
      → ((id : Bytes) × (normalize_object_id d.name ≡ ok id) × (storage_path path ≡ object_path id))
        × (d.entry.type ≡ type_file)
        × (d.entry.parent_inode ≡ (b.directory_info objects_directory v).inode)
  read_directory-child_path now relative v es i d path n h g c =
      let ((id, o), t, p) = read_directory-IsListed now relative v es i d n h g in
      ((id, o, storage_path-child_path relative d.name path id n o c), t, p)
