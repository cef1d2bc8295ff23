-- ===== src/Meta/Kept.antt =====
-- What the repair of the metadata at load time leaves alone (internal/passfs/metadata_migration.go:
-- reconcileMetadata).
use passfs.Prelude.{
  subst, ℕ, ◌<◌, ◌≡◌, ◌⊎◌, refl, sym, ap, ◌∙◌, Bool, true, false, not, ◌||◌, Option, none, some, [],
  ◌∷◌, Bytes, ◌==◌, All, ltb, ltb→lt, is_some, is_empty, nat_equality, list_equality, if◌then◌else◌,
  ==→eq, Bool-cases, inl, inr,
}
use passfs.Table.{Table, lookup, insert, lookup-insert, lookup-delete}
use passfs.FileMeta.{FileMeta, stable_inode}
use passfs.Objects.{object_id_from_storage_path}
use passfs.Meta.Disk.{Metadata, has}
use passfs.Meta.Reconcile.{
  drop_entry, is_object_key, reconcile_file, reconcile_files, adopt_objects, reconcile,
}
use passfs.Meta.Reconcile.Loops.{adopted, before_prune}
use passfs.Meta.Loaded.{lookup-retain}

-- The record `meta` of the file `k`, or the same with the stable inode where it had none.
abbrev pub IsKept : Bytes → FileMeta → Option FileMeta → Type 0
IsKept k meta o =
    (o ≡ some meta) ⊎ ((meta.inode < 2) × (o ≡ some (record meta { inode = stable_inode k })))

abbrev pub Keeps : Bytes → FileMeta → Option Bytes → Metadata → Type 0
Keeps k meta link m = IsKept k meta (lookup k m.files) × (lookup k m.links ≡ link)

-- A map has one record for the key.
abbrev pub IsOnly : Bytes → FileMeta → Table Bytes FileMeta → Type 0
IsOnly k meta t = All (λ e. e.0 ≡ k → e.1 ≡ meta) t

module _ (k : Bytes) (meta : FileMeta) (link : Option Bytes) where
  other_key :
      (j : Bytes)
      → is_object_key (object_id_from_storage_path k) ≡ true
      → is_object_key (object_id_from_storage_path j) ≡ false
      → (j == k) ≡ false
  other_key j o n = elim (Bool-cases (j == k)) [
    | inr e ↦ e
    | inl e ↦ clash (ap (λ x. is_object_key (object_id_from_storage_path x)) (==→eq j k e))
  ]
    where
      clash :
          is_object_key (object_id_from_storage_path j)
            ≡ is_object_key (object_id_from_storage_path k)
          → (j == k) ≡ false
      clash e = absurd (cc (e, o, n))

  dropped-Keeps :
      (j : Bytes) (m : Metadata)
      → (j == k) ≡ false
      → Keeps k meta link m
      → Keeps k meta link (drop_entry j m)
  dropped-Keeps j m n p = (
    subst (IsKept k meta)
        (sym (lookup-delete j k m.files ∙ ap (λ b. if b then none else lookup k m.files) n)) p.0,
    lookup-delete j k m.links ∙ ap (λ b. if b then none else lookup k m.links) n ∙ p.1,
  )

  numbered-Keeps :
      (j : Bytes) (x : FileMeta) (m : Metadata)
      → (j ≡ k → x ≡ meta)
      → x.inode < 2
      → Keeps k meta link m
      → Keeps k meta link
          (record m { files = insert j (record x { inode = stable_inode j }) m.files })
  numbered-Keeps j x m only low p = (known (j == k) refl, p.1)
    where
      numbered : FileMeta → ℕ → Option FileMeta
      numbered y i = some (record y { inode = i })

      next : FileMeta
      next = record x { inode = stable_inode j }

      known : (b : Bool) → (j == k) ≡ b → IsKept k meta (lookup k (insert j next m.files))
      known false e =
          subst (IsKept k meta)
            (sym (
              lookup-insert j k next m.files
              ∙ ap (λ b. if b then some next else lookup k m.files) e))
            p.0
      known true e =
          let same : j ≡ k = ==→eq j k e in
          let mine : x ≡ meta = only same in
          inr (
            subst (λ y. y.inode < 2) mine low,
            lookup-insert j k next m.files
                ∙ ap (λ b. if b then some next else lookup k m.files) e
                ∙ ap (λ (y : FileMeta). numbered y (stable_inode j)) mine
                ∙ ap (λ i. numbered meta (stable_inode i)) same,
          )

  file-Keeps :
      (actual : Table Bytes FileMeta) (j : Bytes) (x : FileMeta) (s : Metadata × Bool)
      → is_object_key (object_id_from_storage_path k) ≡ true
      → (j ≡ k → x ≡ meta)
      → Keeps k meta link s.0
      → Keeps k meta link (reconcile_file actual j x s).0
  unfolding reconcile_file
  file-Keeps actual j x s o only p =
      known (has j actual) (is_object_key (object_id_from_storage_path j)) (ltb x.inode 2) refl refl
    where
      known :
          (b c d : Bool)
          → is_object_key (object_id_from_storage_path j) ≡ c
          → ltb x.inode 2 ≡ d
          → Keeps k meta link
              (if◌then◌else◌ {A = Metadata × Bool}
                (not b)
                (if c then s else (drop_entry j s.0, true))
                (if d
                  then (
                    record s.0 { files = insert j (record x { inode = stable_inode j }) s.0.files },
                    true,
                  )
                  else s)).0
      known true c true e f = numbered-Keeps j x s.0 only (ltb→lt x.inode 2 f) p
      known true c false e f = p
      known false true d e f = p
      known false false d e f = dropped-Keeps j s.0 (other_key j o e) p

  files-Keeps :
      (actual files : Table Bytes FileMeta) (s : Metadata × Bool)
      → is_object_key (object_id_from_storage_path k) ≡ true
      → IsOnly k meta files
      → Keeps k meta link s.0
      → Keeps k meta link (reconcile_files actual files s).0
  unfolding reconcile_files
  files-Keeps actual [] s o h p = p
  files-Keeps actual ((j, x) ∷ files) s o h p =
      files-Keeps actual files (reconcile_file actual j x s) o h.1 (file-Keeps actual j x s o h.0 p)

  present : (t : Option FileMeta) → IsKept k meta t → is_some t ≡ true
  present none (inl e) = absurd (cc e)
  present none (inr (l, e)) = absurd (cc e)
  present (some x) p = refl

  adopted-Keeps :
      (now : ℕ) (j : Bytes) (x : FileMeta) (s : Metadata × Bool)
      → Keeps k meta link s.0
      → Keeps k meta link (adopted now j x s).0
  adopted-Keeps now j x s p = known (has j s.0.files) refl
    where
      new : Metadata
      new = record s.0 { files = insert j x s.0.files; orphaned = insert j now s.0.orphaned }

      other : has j s.0.files ≡ false → (j == k) ≡ false
      other n = elim (Bool-cases (j == k)) [
        | inr e ↦ e
        | inl e ↦ clash (ap (λ y. has y s.0.files) (==→eq j k e))
      ]
        where
          clash : has j s.0.files ≡ has k s.0.files → (j == k) ≡ false
          clash q = absurd (cc (q, n, present (lookup k s.0.files) p.0))

      known :
          (b : Bool)
          → has j s.0.files ≡ b
          → Keeps k meta link (if◌then◌else◌ {A = Metadata × Bool} b s (new, true)).0
      known true n = p
      known false n = (
        subst (IsKept k meta)
            (sym (
              lookup-insert j k x s.0.files
              ∙ ap (λ b. if b then some x else lookup k s.0.files) (other n)))
            p.0,
        p.1,
      )

  adopt-Keeps :
      (now : ℕ) (actual : Table Bytes FileMeta) (s : Metadata × Bool)
      → Keeps k meta link s.0
      → Keeps k meta link (adopt_objects now actual s).0
  unfolding adopt_objects
  adopt-Keeps now [] s p = p
  adopt-Keeps now ((j, x) ∷ actual) s p =
      adopt-Keeps now actual (adopted now j x s) (adopted-Keeps now j x s p)

-- A file `k` of the metadata `m` whose key is an object's keeps its record `meta`, the only one that the
-- map has for it, and its link, even while its ciphertext is missing from the disk; an inode below 2 may
-- have become the stable inode of the key.
pub reconcile_keeps :
    (now : ℕ) (actual : Table Bytes FileMeta) (m : Metadata) (k : Bytes) (meta : FileMeta)
    → is_object_key (object_id_from_storage_path k) ≡ true
    → lookup k m.files ≡ some meta
    → IsOnly k meta m.files
    → IsKept k meta (lookup k (reconcile now actual m).0.files)
      × (lookup k (reconcile now actual m).0.links ≡ lookup k m.links)
unfolding reconcile
reconcile_keeps now actual m k meta o h only = (
  kept.0,
  lookup-retain _ k _
      ∙ ap (λ b. if b then lookup k (before_prune now actual m).0.links else none)
          (present k meta (lookup k m.links) _ kept.0)
      ∙ kept.1,
)
  where
    start : Metadata × Bool
    start = (
      record m { version = 3; displaced_links = [] },
      not (m.version == 3) || not (is_empty m.displaced_links),
    )

    kept : Keeps k meta (lookup k m.links) (before_prune now actual m).0
    kept =
        adopt-Keeps k meta (lookup k m.links) now actual (reconcile_files actual m.files start)
          (files-Keeps k meta (lookup k m.links) actual m.files start o only (inl h, refl))
