-- ===== src/Opening/Named.antt =====
-- The file that an open or a create hands out is the one that it was asked for
-- (internal/passfs/file_handle.go: openFile, createFile, finishFileOpen).
use passfs.Prelude.{
  ℕ, ◌≡◌, refl, Bool, true, false, not, Option, none, some, [], Bytes, codes, if◌then◌else◌,
}
use passfs.Error.{Error, errno, eexist, is_not_exist}
use passfs.Result.{Result, ok, err}
use passfs.Handle.{OpenFile}
use passfs.Opening.{
  Source, Flags, new_meta, virtual_type, Loaded, load_existing_file, Opening, refused, opened,
  open_typed, if_valid_path, open_file, created, persist_new, create_typed, create_file,
}

-- A handle is open on the path, may write as the flags say, and has not been closed.
abbrev pub IsFor : Bytes → Flags → OpenFile → Type 0
IsFor relative flags h =
    (h.relative ≡ relative) × (h.writable ≡ flags.writable) × (h.released ≡ false)

abbrev pub Gives : Bytes → Flags → Result OpenFile → Type 0
Gives relative flags (err e) = Unit
Gives relative flags (ok h) = IsFor relative flags h

module _ {V : Type 0} (s : Source V) (relative : Bytes) (flags : Flags) where
  opened-Gives : (x : Loaded s) → Gives relative flags (opened s relative flags x).result
  opened-Gives (err e, v) = tt
  opened-Gives (ok (content, (meta, dirty)), v) = (refl, refl, refl)

  valid-Gives :
      (e : Option Error) (v : V) (o : Opening V)
      → Gives relative flags o.result
      → Gives relative flags (if_valid_path s e v o).result
  valid-Gives (some e) v o h = tt
  valid-Gives none v o h = h

  if-Gives :
      (b : Bool) (e : Error) (v : V) (o : Opening V)
      → Gives relative flags o.result
      → Gives relative flags (if b then refused s e v else o).result
  if-Gives true e v o h = tt
  if-Gives false e v o h = h

  pub open_file-Gives :
      (accessed now : ℕ) (v : V)
      → Gives relative flags (open_file s relative flags accessed now v).result
  unfolding open_file
  open_file-Gives accessed now v = valid-Gives _ v _ (typed (virtual_type s relative v))
    where
      typed :
          (r : Result Bool)
          → Gives relative flags (open_typed s relative flags accessed now v r).result
      typed (err e) = tt
      typed (ok true) = tt
      typed (ok false) = opened-Gives (load_existing_file s relative flags accessed now v)

  pub create_file-Gives :
      (mode fresh created_at accessed now : ℕ) (v : V)
      → Gives relative flags
          (create_file s relative flags mode fresh created_at accessed now v).result
  unfolding create_file
  create_file-Gives mode fresh created_at accessed now v =
      valid-Gives _ v _ (typed (virtual_type s relative v))
    where
      stored :
          (x : Option Error × V)
          → Gives relative flags
              (created s relative flags (new_meta mode fresh created_at) x).result
      stored (some e, v) = tt
      stored (none, v) = (refl, refl, refl)

      new :
          (x : Option Error × V)
          → Gives relative flags
              (persist_new s relative flags (new_meta mode fresh created_at) x).result
      new (some e, v) = tt
      new (none, v) = stored (s.persist relative [] (new_meta mode fresh created_at) v)

      typed :
          (r : Result Bool)
          → Gives relative flags
              (create_typed s relative flags mode fresh created_at accessed now v r).result
      typed (ok true) = tt
      typed (ok false) =
          if-Gives flags.exclusive (errno eexist) v _
            (opened-Gives (load_existing_file s relative flags accessed now v))
      typed (err e) =
          if-Gives (not (is_not_exist e)) e v _ (new (s.authorize relative (codes "create") v))
