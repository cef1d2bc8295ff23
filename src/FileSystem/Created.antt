-- ===== src/FileSystem/Created.antt =====
-- Where a created object is put, and what is shown of it (internal/passfs/filesystem.go: Create).
use passfs.Prelude.{
  ◌≡◌, ◌≢◌, refl, sym, ap, ◌∙◌, subst, Bool, true, false, not, Option, none, some, Bytes, ◌==◌,
  nat_equality, list_equality, if◌then◌else◌, ℕ, ==→eq,
}
use passfs.FileMeta.{file_attributes, Attributes, ItemType, type_file, type_directory}
use passfs.Error.{success, ebadf, enoent, eperm, enotdir, Errno, eperm, enotdir, errno_from_error}
use passfs.Result.{Result, ok, err}
use passfs.Path.{clean}
use passfs.Handle.{OpenFile, shown, attributes}
use passfs.Opening.{create_file, virtual_type, Flags, Opening, create_file, virtual_type}
use passfs.Opening.Named.{create_file-Gives, Gives, create_file-Gives}
use passfs.Objects.{normalize_object_id, namespace_directory, storage_path}
use passfs.Objects.Storage.{object_path}
use passfs.FileSystem.{
  look_typed, directory_inode, is_visible, root_inode, Backend, NodeEntry, looked_up, Reply, given,
  failed, look_up, look_typed, child_path, namespace_inode,
}
use passfs.FileSystem.Reserved.{is_reserved_path}
use passfs.FileSystem.Changes.{
  create_named, create_in, create_child, create, create, create_named, create_in, create_child,
  created_object, created_with, handle_volume,
}
use passfs.FileSystem.Reserved.{is_reserved_path}
use passfs.FileSystem.Children.{storage_path-child_path}

module _ {V : Type 0} (b : Backend V) where
  -- What a create in the namespace directory leaves: no file, or the object that the name is.
  abbrev Creates : ℕ → Bytes → Flags → Reply (NodeEntry × OpenFile) → Type 0
  Creates now name flags (failed n) = Unit
  Creates now name flags (given (e, h)) =
      ((id : Bytes) × (normalize_object_id name ≡ ok id) × (h.relative ≡ object_path id))
      × (h.writable ≡ flags.writable)
      × (h.released ≡ false)
      × (e.parent_inode ≡ namespace_inode)
      × (e ≡ record (shown (handle_volume b) now h) { parent_inode = namespace_inode })

  attributes_open :
      (now : ℕ) (h : OpenFile)
      → h.released ≡ false
      → attributes (handle_volume b) now h ≡ (some (shown (handle_volume b) now h), success)
  unfolding attributes
  attributes_open now h r =
      ap
        (λ (c : Bool).
          if◌then◌else◌ {A = Option Attributes × Errno} c (none, ebadf)
            (some (shown (handle_volume b) now h), success))
        r

  created_object-Creates :
      (now : ℕ) (name id : Bytes) (flags : Flags) (storage : Bytes) (o : Opening V)
      → normalize_object_id name ≡ ok id
      → storage ≡ object_path id
      → Gives storage flags o.result
      → Creates now name flags (created_object b now namespace_inode o).0
  created_object-Creates now name id flags storage o n s g = at_result o.result g
    where
      at_result :
          (r : Result OpenFile)
          → Gives storage flags r
          → Creates now name flags
              (elim r as (λ x. Reply (NodeEntry × OpenFile) × V) [
                | err e ↦ (failed (errno_from_error (some e)), o.after)
                | ok h ↦
                    created_with b namespace_inode h o.after (attributes (handle_volume b) now h)
              ]).0
      at_result (err e) g = tt
      at_result (ok h) g =
          subst (λ x. Creates now name flags (created_with b namespace_inode h o.after x).0)
            (sym (attributes_open now h g.2)) ((id, n, g.0 ∙ s), g.1, g.2, refl, refl)

  -- The inode that a lookup shows for a directory.
  look_up-directory_inode :
      (now : ℕ) (relative : Bytes) (v : V) (e : NodeEntry)
      → look_up b now relative v ≡ given e
      → e.type ≡ type_directory
      → e.inode ≡ directory_inode b relative
  unfolding look_up file_attributes
  look_up-directory_inode now relative v e h t =
      known (is_visible relative) (virtual_type b.source (storage_path relative) v) h
    where
      is_directory : (x y : NodeEntry) → x ≡ y → y.type ≡ type_directory → x.type ≡ type_directory
      is_directory x y p q = ap (λ z. z.type) p ∙ q

      known :
          (c : Bool) (r : Result Bool)
          → (if◌then◌else◌ {A = Reply NodeEntry} c (look_typed b now relative v r) (failed enoent))
            ≡ given e
          → e.inode ≡ directory_inode b relative
      known false r k = absurd (cc k)
      known true (err x) k = absurd (cc k)
      known true (ok true) k = sym (ap (λ z. z.inode) (entry_eq k))
        where
          entry_eq : {x : NodeEntry} → given x ≡ given e → x ≡ e
          entry_eq p = cc p
      known true (ok false) k = absurd (file_dir (is_directory _ e (entry_eq k) t))
        where
          entry_eq : {x : NodeEntry} → given x ≡ given e → x ≡ e
          entry_eq p = cc p

          file_dir : type_file ≢ type_directory
          file_dir = λ p. cc p

  create-Creates :
      (fresh created_at accessed now : ℕ) (parent name : Bytes) (flags : Flags) (mode : ℕ) (v : V)
      → Creates now name flags (create b fresh created_at accessed now parent name flags mode v).0
  unfolding create
  create-Creates fresh created_at accessed now parent name flags mode v =
      at_parent (clean parent == namespace_directory) refl
    where
      at_child :
          (w : V) (id : Bytes) (inode : ℕ) (c : Result Bytes)
          → child_path parent name ≡ c
          → normalize_object_id name ≡ ok id
          → clean parent ≡ namespace_directory
          → inode ≡ namespace_inode
          → Creates now name flags
              (create_child b fresh created_at accessed now inode flags mode w c).0
      at_child w id inode (err e) i n p q = tt
      at_child w id inode (ok relative) i n p q = reserved (is_reserved_path relative)
        where
          reserved :
              (r : Bool)
              → Creates now name flags
                  (if◌then◌else◌ {A = Reply (NodeEntry × OpenFile) × V} r
                    (failed eperm, w)
                    (created_object b now inode (
                      create_file b.source
                        (storage_path relative)
                        flags
                        mode
                        fresh
                        created_at
                        accessed
                        now
                        w))).0
          reserved true = tt
          reserved false =
              subst
                (λ x.
                  Creates now name flags
                    (created_object b now x (
                      create_file b.source (storage_path relative) flags mode fresh created_at
                        accessed now w)).0)
                (sym q)
                (created_object-Creates now name id flags (storage_path relative)
                  (create_file b.source (storage_path relative) flags mode fresh created_at accessed
                    now w)
                  n (storage_path-child_path parent name relative id p n i)
                  (create_file-Gives b.source (storage_path relative) flags mode fresh created_at
                    accessed now w))

      at_entry :
          (w : V) (id : Bytes) (e : NodeEntry) (t : ItemType)
          → e.type ≡ t
          → look_up b now parent v ≡ given e
          → normalize_object_id name ≡ ok id
          → clean parent ≡ namespace_directory
          → Creates now name flags
              (elim t as (λ x. Reply (NodeEntry × OpenFile) × V) [
                | type_file ↦ (failed enotdir, w)
                | type_directory ↦
                    create_child b fresh created_at accessed now e.inode flags mode w
                      (child_path parent name)
              ]).0
      at_entry w id e type_file i l n p = tt
      at_entry w id e type_directory i l n p =
          at_child w id e.inode (child_path parent name) refl n p (
            look_up-directory_inode now parent v e l i
            ∙ ap (λ x. if x == namespace_directory then namespace_inode else root_inode) p
            ∙ refl)

      at_look :
          (w : V) (id : Bytes) (r : Reply NodeEntry)
          → look_up b now parent v ≡ r
          → normalize_object_id name ≡ ok id
          → clean parent ≡ namespace_directory
          → Creates now name flags
              (create_in b fresh created_at accessed now parent name flags mode w r).0
      at_look w id (failed x) l n p = tt
      at_look w id (given e) l n p = at_entry w id e e.type refl l n p

      at_name :
          (r : Result Bytes)
          → normalize_object_id name ≡ r
          → clean parent ≡ namespace_directory
          → Creates now name flags
              (create_named b fresh created_at accessed now parent name flags mode v r).0
      at_name (err e) n p = tt
      at_name (ok id) n p = at_look (looked_up b parent v) id (look_up b now parent v) refl n p

      at_parent :
          (c : Bool)
          → (clean parent == namespace_directory) ≡ c
          → Creates now name flags
              (if◌then◌else◌ {A = Reply (NodeEntry × OpenFile) × V}
                (not c)
                (failed eperm, v)
                (create_named b fresh created_at accessed now parent name flags mode v
                  (normalize_object_id name))).0
      at_parent false p = tt
      at_parent true p =
          at_name (normalize_object_id name) refl (==→eq (clean parent) namespace_directory p)

  -- A create that succeeds with an entry and a handle: the name is an object identifier, the handle is on
  -- the file of the object with its normal form, open for writing just if the flags ask for it; the entry
  -- has the inode of the directory by-id as its parent's and the other attributes of the handle.
  pub create_lem :
      (fresh created_at accessed now : ℕ) (parent name : Bytes) (flags : Flags) (mode : ℕ) (v : V)
      (e : NodeEntry) (h : OpenFile)
      → (create b fresh created_at accessed now parent name flags mode v).0 ≡ given (e, h)
      → ((id : Bytes) × (normalize_object_id name ≡ ok id) × (h.relative ≡ object_path id))
        × (h.writable ≡ flags.writable)
        × (h.released ≡ false)
        × (e.parent_inode ≡ namespace_inode)
        × (e ≡ record (shown (handle_volume b) now h) { parent_inode = namespace_inode })
  create_lem fresh created_at accessed now parent name flags mode v e h k =
      subst (Creates now name flags) k
        (create-Creates fresh created_at accessed now parent name flags mode v)
