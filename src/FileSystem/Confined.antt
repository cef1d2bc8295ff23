-- ===== src/FileSystem/Confined.antt =====
-- Where a call of the mounted file system can lead: only to the objects' directory and to the file of the
-- object that the path names (internal/passfs/filesystem.go: Lookup, Open, Unlink).
use passfs.Prelude.{
  subst, ◌≡◌, ◌⊎◌, inl, inr, refl, sym, Bool, true, false, not, ◌||◌, none, some, Bytes, ◌==◌,
  nat_equality, list_equality, if◌then◌else◌, arith, ℕ,
}
use passfs.Error.{eperm, ebusy, Errno, enoent, eisdir, Errno}
use passfs.Result.{Result, ok, err}
use passfs.Path.{clean, dot}
use passfs.Path.Laws.{clean-clean}
use passfs.FileMeta.{ItemType, type_file, type_directory}
use passfs.Handle.{OpenFile}
use passfs.Opening.{Flags, open_file, virtual_type}
use passfs.Opening.Named.{Gives, open_file-Gives}
use passfs.Objects.{objects_directory, namespace_directory, storage_path, virtual_object_id}
use passfs.Objects.Storage.{object_path, LeadsTo, storage_path-LeadsTo}
use passfs.FileSystem.{
  child_path, Backend, NodeEntry, looked_up, Reply, given, failed, is_visible, look_up, look_typed,
  child_path,
}
use passfs.FileSystem.Changes.{
  unlink, unlink_child, unlink_typed, with_errno, reply_of, open_node, open_found, from_opening,
  unlink, unlink_child, unlink_typed, with_errno,
}
use passfs.FileSystem.Reserved.{is_reserved_path}

-- The objects' directory, or the file of the object that the path names.
abbrev pub IsPlace : Bytes → Bytes → Type 0
IsPlace relative storage =
    (storage ≡ objects_directory)
    ⊎ ((id : Bytes) × (virtual_object_id relative ≡ some id) × (storage ≡ object_path id))

virtual_object_id-clean : (p : Bytes) → virtual_object_id (clean p) ≡ virtual_object_id p
unfolding virtual_object_id
virtual_object_id-clean p = rw (clean-clean p)

storage_directory :
    (p : Bytes)
    → (clean p == dot || clean p == namespace_directory) ≡ true
    → storage_path p ≡ objects_directory
unfolding storage_path
storage_directory p h = rw h

pub is_visible-IsPlace :
    (relative : Bytes) → is_visible relative ≡ true → IsPlace relative (storage_path relative)
unfolding is_visible
is_visible-IsPlace relative h =
    known (clean relative == dot || clean relative == namespace_directory) refl
      (storage_path-LeadsTo relative)
  where
    named :
        (clean relative == dot || clean relative == namespace_directory) ≡ false
        → virtual_object_id relative ≡ none
        → ⊥
    named d n = ground (arith, h, d, virtual_object_id-clean relative, n)

    known :
        (b : Bool)
        → (clean relative == dot || clean relative == namespace_directory) ≡ b
        → LeadsTo relative (storage_path relative)
        → IsPlace relative (storage_path relative)
    known true d l = inl (storage_directory relative d)
    known false d (inl l) = inl l.0
    known false d (inr (inl (id, v, p, q))) = inr (id, v, p)
    known false d (inr (inr (p, n))) = absurd (named d n)

module _ {V : Type 0} (b : Backend V) where
  pub look_up-visible :
      (now : ℕ) (relative : Bytes) (v : V) (e : NodeEntry)
      → look_up b now relative v ≡ given e
      → is_visible relative ≡ true
  unfolding look_up
  look_up-visible now relative v e h = known (is_visible relative) refl h
    where
      known :
          (c : Bool)
          → is_visible relative ≡ c
          → (if◌then◌else◌ {A = Reply NodeEntry} c
              (look_typed b now relative v (virtual_type b.source (storage_path relative) v))
              (failed enoent))
            ≡ given e
          → is_visible relative ≡ true
      known true i k = i
      known false i k = absurd (cc k)

  -- What an open leaves: no handle, or one on a place of the volume.
  abbrev Opens : Bytes → Flags → Reply OpenFile → Type 0
  Opens relative flags (failed n) = Unit
  Opens relative flags (given h) =
      IsPlace relative h.relative × (h.writable ≡ flags.writable) × (h.released ≡ false)

  from_opening-Opens :
      (relative : Bytes) (flags : Flags) (r : Result OpenFile)
      → IsPlace relative (storage_path relative)
      → Gives (storage_path relative) flags r
      → Opens relative flags (reply_of r)
  from_opening-Opens relative flags (err e) p g = tt
  from_opening-Opens relative flags (ok h) p g = (subst (IsPlace relative) (sym g.0) p, g.1, g.2)

  open_node-Opens :
      (accessed now : ℕ) (relative : Bytes) (flags : Flags) (v : V)
      → Opens relative flags (open_node b accessed now relative flags v).0
  unfolding open_node
  open_node-Opens accessed now relative flags v = found (look_up b now relative v) refl
    where
      w : V
      w = looked_up b relative v

      typed :
          (t : ItemType)
          → IsPlace relative (storage_path relative)
          → Opens relative flags
              (elim t as (λ x. Reply OpenFile × V) [
                | type_directory ↦ (failed eisdir, w)
                | type_file ↦
                    from_opening b (open_file b.source (storage_path relative) flags accessed now w)
              ]).0
      typed type_directory p = tt
      typed type_file p =
          from_opening-Opens relative flags _ p
            (open_file-Gives b.source (storage_path relative) flags accessed now w)

      found :
          (r : Reply NodeEntry)
          → look_up b now relative v ≡ r
          → Opens relative flags (open_found b accessed now relative flags w r).0
      found (failed n) e = tt
      found (given x) e =
          typed x.type (is_visible-IsPlace relative (look_up-visible now relative v x e))

  -- An open that hands out a handle `h` has opened the objects' directory or the file of the object that
  -- the path names, for writing just if the flags ask for it, and the handle is not released.
  pub open_node-confined :
      (accessed now : ℕ) (relative : Bytes) (flags : Flags) (v : V) (h : OpenFile)
      → (open_node b accessed now relative flags v).0 ≡ given h
      → IsPlace relative h.relative × (h.writable ≡ flags.writable) × (h.released ≡ false)
  open_node-confined accessed now relative flags v h e =
      known (open_node b accessed now relative flags v).0
        (open_node-Opens accessed now relative flags v) e
    where
      known :
          (r : Reply OpenFile)
          → Opens relative flags r
          → r ≡ given h
          → IsPlace relative h.relative × (h.writable ≡ flags.writable) × (h.released ≡ false)
      known (failed n) o k = absurd (cc k)
      known (given g) o k =
          let same : g ≡ h = cc k in
          subst
            (λ x.
              IsPlace relative x.relative × (x.writable ≡ flags.writable) × (x.released ≡ false))
            same o

  -- An unlink leaves the state as it was, or has called the removal, under the namespace lock, of the file
  -- at the storage path of a child that is no name of the host's bookkeeping; that storage path is the
  -- objects' directory, the file of the object that the child names, or a name that no object has.
  pub unlink-confined :
      (parent name : Bytes) (v : V)
      → ((unlink b parent name v).1 ≡ v)
        ⊎ ((relative : Bytes) × (child_path parent name ≡ ok relative)
            × (is_reserved_path relative ≡ false)
            × LeadsTo relative (storage_path relative)
            × (b.try_lock v ≡ true)
            × (virtual_type b.source (storage_path relative) v ≡ ok false)
            × (unlink b parent name v ≡ with_errno (b.remove (storage_path relative) v)))
  unfolding unlink
  unlink-confined parent name v = child (child_path parent name) refl
    where
      Result_of : Result Bytes → Errno × V → Type 0
      Result_of c r =
          (r.1 ≡ v)
          ⊎ ((relative : Bytes) × (c ≡ ok relative)
              × (is_reserved_path relative ≡ false)
              × LeadsTo relative (storage_path relative)
              × (b.try_lock v ≡ true)
              × (virtual_type b.source (storage_path relative) v ≡ ok false)
              × (r ≡ with_errno (b.remove (storage_path relative) v)))

      typed :
          (relative : Bytes) (t : Result Bool)
          → virtual_type b.source (storage_path relative) v ≡ t
          → is_reserved_path relative ≡ false
          → b.try_lock v ≡ true
          → Result_of (ok relative) (unlink_typed b (storage_path relative) v t)
      typed relative (err e) i r l = inl refl
      typed relative (ok true) i r l = inl refl
      typed relative (ok false) i r l =
          inr (relative, refl, r, storage_path-LeadsTo relative, l, i, refl)

      guarded :
          (relative : Bytes) (r l : Bool)
          → is_reserved_path relative ≡ r
          → b.try_lock v ≡ l
          → Result_of (ok relative) (
              if r
              then (eperm, v)
              else if not l
              then (ebusy, v)
              else unlink_typed b
                  (storage_path relative)
                  v
                  (virtual_type b.source (storage_path relative) v))
      guarded relative true l i k = inl refl
      guarded relative false false i k = inl refl
      guarded relative false true i k = typed relative _ refl i k

      child : (c : Result Bytes) → child_path parent name ≡ c → Result_of c (unlink_child b v c)
      child (err e) i = inl refl
      child (ok relative) i = guarded relative _ _ refl refl
