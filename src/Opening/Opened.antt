-- ===== src/Opening/Opened.antt =====
-- What an open or a create hands out, and that its error paths give the locks back
-- (internal/passfs/file_handle.go: openFile, createFile; volume.go: decryptFileWithIdentity).
use passfs.Prelude.{
  zero, suc, ap, Bool-cases, inl, inr, ℕ, ◌+◌, ◌^◌, ◌<◌, ◌≤◌, ◌≡◌, refl, Bool, true, false, not,
  Option, none, some, [], ◌∷◌, Bytes, codes, ltb, if◌then◌else◌, length, take, arith,
}
use passfs.Prelude.Int.{pos, wrap_int64}
use passfs.Error.{Error, errno, eexist, eacces, file_too_large, is_not_exist}
use passfs.Result.{Result, ok, err}
use passfs.FileMeta.{FileMeta}
use passfs.Handle.{OpenFile}
use passfs.Handle.Invariant.{IsValid}
use passfs.Opening.{
  nothing_held, take_locks, Source, Flags, limited, new_meta, limit_read, virtual_type, Loaded,
  truncated, decrypted, apply_limit, load_existing_file, finish_file_open, Opening, refused,
  handed_out, opened, open_typed, if_valid_path, open_file, created, persist_new, create_typed,
  create_file,
}

take_all : (c : Bytes) (n : ℕ) → length c ≤ n → take n c ≡ c
take_all [] zero h = refl
take_all [] (suc n) h = refl
take_all (x ∷ c) zero h = absurd (omega arith)
take_all (x ∷ c) (suc n) h = ap (x ∷◌) (take_all c n (omega arith))

length-take_more : (c : Bytes) (n : ℕ) → n < length c → n < length (take (n + 1) c)
length-take_more [] n h = absurd (omega arith)
length-take_more (x ∷ c) zero h = omega arith
length-take_more (x ∷ c) (suc n) h = ground (arith, length-take_more c n (omega arith))

wrap_int64_small : (n : ℕ) → n < 2 ^ 63 → wrap_int64 n ≡ pos n
wrap_int64_small n h = ground arith

-- A decryption gives the whole content, or ErrFileTooLarge if that is longer than the limit, never a
-- part of it. The limit plus 1 is an int64 value.
pub limited_lem :
    (max : ℕ) (content : Bytes)
    → max + 1 < 2 ^ 63
    → limited max (ok content)
      ≡ (if ltb max (length content) then err file_too_large else ok content)
unfolding limited
limited_lem max content h =
    rw (wrap_int64_small (max + 1) h) (elim (Bool-cases (ltb max (length content))) [
      | inl long ↦ ground (arith, length-take_more content max (ground arith))
      | inr short ↦ rw (take_all content (max + 1) (ground arith)) refl
    ])

-- What an open leaves: an error gives both locks back and registers no handle; a handle is valid,
-- not released and registered, owns the locks that are still held, and owns the namespace lock just if
-- it may write.
abbrev pub Outcome : {V : Type 0} → ℕ → Opening V → Result OpenFile → Type 0
Outcome max o (err e) = (o.namespace_held ≡ false) × (o.path_held ≡ false) × (o.registered ≡ false)
Outcome max o (ok h) =
    IsValid max h
    × (h.released ≡ false)
    × (o.registered ≡ true)
    × (h.unlock ≡ h.writable)
    × (o.namespace_held ≡ h.unlock)
    × (o.path_held ≡ h.unlock_path)

abbrev pub Settled : {V : Type 0} → ℕ → Opening V → Type 0
Settled max o = Outcome max o o.result

module _ {V : Type 0} (s : Source V) where
  abbrev Small : Loaded s → Type 0
  Small (err e, v) = Unit
  Small (ok (content, (meta, dirty)), v) =
      (length content ≤ s.max_file_size) × (meta.size ≡ length content)

  handed_out-Settled :
      (relative : Bytes) (flags : Flags) (content : Bytes) (meta : FileMeta) (dirty : Bool) (v : V)
      → length content ≤ s.max_file_size
      → meta.size ≡ length content
      → Settled s.max_file_size (
          handed_out s
            (finish_file_open s relative flags content meta dirty (take_locks nothing_held))
            v)
  handed_out-Settled relative flags content meta dirty v fits sized = (
    record { fits = fits; sized = λ _. sized; let_go = λ p. cc p },
    refl,
    refl,
    refl,
    kept flags.writable,
    refl,
  )
    where
      kept : (w : Bool) → (if w then true else false) ≡ w
      kept true = refl
      kept false = refl

  opened-Settled :
      (relative : Bytes) (flags : Flags) (x : Loaded s)
      → Small x
      → Settled s.max_file_size (opened s relative flags x)
  opened-Settled relative flags (err e, v) h = (refl, refl, refl)
  opened-Settled relative flags (ok (content, (meta, dirty)), v) h =
      handed_out-Settled relative flags content meta dirty v h.0 h.1

  within-Small :
      (relative : Bytes) (accessed : ℕ) (meta : FileMeta) (c : Bytes) (v : V) (b : Bool)
      → ltb s.max_file_size (length c) ≡ b
      → Small (decrypted s relative accessed meta (if b then err file_too_large else ok c, v))
  within-Small relative accessed meta c v true h = tt
  within-Small relative accessed meta c v false h = (ground arith, refl)

  decrypted-Small :
      (relative : Bytes) (accessed : ℕ) (meta : FileMeta) (x : Result Bytes × V)
      → Small (decrypted s relative accessed meta (apply_limit s x))
  unfolding limited
  decrypted-Small relative accessed meta (err e, v) = tt
  decrypted-Small relative accessed meta (ok content, v) =
      within-Small relative accessed meta (limit_read (wrap_int64 (s.max_file_size + 1)) content) v
        _ refl

  if-Small : (b : Bool) (x y : Loaded s) → Small x → Small y → Small (if b then x else y)
  if-Small true x y h k = h
  if-Small false x y h k = k

  truncated-Small :
      (now : ℕ) (meta : FileMeta) (x : Option Error × V) → Small (truncated s now meta x)
  truncated-Small now meta (some e, v) = tt
  truncated-Small now meta (none, v) = (omega arith, refl)

  load-Small :
      (relative : Bytes) (flags : Flags) (accessed now : ℕ) (v : V)
      → Small (load_existing_file s relative flags accessed now v)
  unfolding load_existing_file
  load-Small relative flags accessed now v =
      if-Small flags.truncate _ _
        (if-Small (not flags.writable) (err (errno eacces), s.after_file_meta relative v) _ tt
          (truncated-Small now (record (s.file_meta relative v) { atime = accessed })
            (s.authorize relative (codes "truncate") (s.after_file_meta relative v))))
        (decrypted-Small relative accessed (record (s.file_meta relative v) { atime = accessed })
          (s.decrypt relative (if flags.writable then codes "read/write" else codes "read")
            (s.after_file_meta relative v)))

  if_valid-Settled :
      (e : Option Error) (v : V) (rest : Opening V)
      → Settled s.max_file_size rest
      → Settled s.max_file_size (if_valid_path s e v rest)
  if_valid-Settled (some e) v rest h = (refl, refl, refl)
  if_valid-Settled none v rest h = h

  refused-Settled :
      (b : Bool) (e : Error) (v : V) (rest : Opening V)
      → Settled s.max_file_size rest
      → Settled s.max_file_size (if b then refused s e v else rest)
  refused-Settled true e v rest h = (refl, refl, refl)
  refused-Settled false e v rest h = h

  open_typed-Settled :
      (relative : Bytes) (flags : Flags) (accessed now : ℕ) (v : V) (r : Result Bool)
      → Settled s.max_file_size (open_typed s relative flags accessed now v r)
  open_typed-Settled relative flags accessed now v (err e) = (refl, refl, refl)
  open_typed-Settled relative flags accessed now v (ok true) = (refl, refl, refl)
  open_typed-Settled relative flags accessed now v (ok false) =
      opened-Settled relative flags (load_existing_file s relative flags accessed now v)
        (load-Small relative flags accessed now v)

  persist_new-Settled :
      (relative : Bytes) (flags : Flags) (meta : FileMeta) (x : Option Error × V)
      → meta.size ≡ 0
      → Settled s.max_file_size (persist_new s relative flags meta x)
  persist_new-Settled relative flags meta (some e, v) z = (refl, refl, refl)
  persist_new-Settled relative flags meta (none, v) z = stored (s.persist relative [] meta v)
    where
      stored : (x : Option Error × V) → Settled s.max_file_size (created s relative flags meta x)
      stored (some e, v) = (refl, refl, refl)
      stored (none, v) = handed_out-Settled relative flags [] meta false v (omega arith) z

  create_typed-Settled :
      (relative : Bytes) (flags : Flags) (mode fresh created_at accessed now : ℕ) (v : V)
      (r : Result Bool)
      → Settled s.max_file_size
          (create_typed s relative flags mode fresh created_at accessed now v r)
  create_typed-Settled relative flags mode fresh created_at accessed now v (ok true) =
      (refl, refl, refl)
  create_typed-Settled relative flags mode fresh created_at accessed now v (ok false) =
      refused-Settled flags.exclusive (errno eexist) v
        (opened s relative flags (load_existing_file s relative flags accessed now v))
        (opened-Settled relative flags (load_existing_file s relative flags accessed now v)
          (load-Small relative flags accessed now v))
  create_typed-Settled relative flags mode fresh created_at accessed now v (err e) =
      refused-Settled (not (is_not_exist e)) e v
        (persist_new s relative flags (new_meta mode fresh created_at)
          (s.authorize relative (codes "create") v))
        (persist_new-Settled relative flags (new_meta mode fresh created_at)
          (s.authorize relative (codes "create") v) refl)

  -- openFile, whatever fails: an error gives the namespace and the path lock back and registers no
  -- handle; otherwise the handle is registered, not released, within the size limit and with its true
  -- size recorded, and the locks that are still held are those that it
  -- will give back, the namespace lock just if it may write.
  pub open_file-Settled :
      (relative : Bytes) (flags : Flags) (accessed now : ℕ) (v : V)
      → Settled s.max_file_size (open_file s relative flags accessed now v)
  unfolding open_file
  open_file-Settled relative flags accessed now v =
      if_valid-Settled _ v _
        (open_typed-Settled relative flags accessed now v (virtual_type s relative v))

  -- createFile, whatever fails, settles its locks and its handle in the same way: an error gives the
  -- namespace and the path lock back and registers no handle; otherwise the handle is registered, not
  -- released, within the size limit and with its true size recorded, and the locks that are still held
  -- are those that it will give back, the namespace lock just if it may write.
  pub create_file-Settled :
      (relative : Bytes) (flags : Flags) (mode fresh created_at accessed now : ℕ) (v : V)
      → Settled s.max_file_size (create_file s relative flags mode fresh created_at accessed now v)
  unfolding create_file
  create_file-Settled relative flags mode fresh created_at accessed now v = if_valid-Settled _ v _ (
      create_typed-Settled relative flags mode fresh created_at accessed now v
        (virtual_type s relative v))
