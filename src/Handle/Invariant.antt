-- ===== src/Handle/Invariant.antt =====
-- What holds of an open file between two calls (internal/passfs/file_handle.go).
use passfs.Prelude.{
  ℕ, ◌+◌, ◌^◌, ◌≤◌, ◌<◌, ◌≡◌, ◌⊎◌, not, inl, inr, refl, sym, Bool, true, false, Option, none, some,
  List, [], ◌∷◌, arith, Bytes, ltb, leb, if◌then◌else◌, length, length-take, Bool-cases,
}
use passfs.Prelude.Int.{ℤ, pos, negsuc}
use passfs.Error.{Error, Errno, ebadf, eperm, efbig, errno_from_error}
use passfs.FileMeta.{Attributes, SetAttributes}
use passfs.Handle.{
  differs, finish_set, after_persist, Volume, OpenFile, resize, place, stored, store_at,
  write_locked, write, flush_locked, flush, close, set_mode, set_modify_time, set_access_time,
  set_size, set_attributes,
}
use passfs.Handle.Content.{length-write_at, length-grow}
use passfs.Handle.Writes.{store_lem}

-- The file is in the limit, its size is the metadata's while it is open, and a released handle
-- holds no plaintext and no lock.
pub record IsValid (max : ℕ) (f : OpenFile) : Type 0 where
  pub fits : length f.content ≤ max
  pub sized : f.released ≡ false → f.meta.size ≡ length f.content
  pub let_go : f.released ≡ true → (f.content ≡ []) × (f.unlock ≡ false) × (f.unlock_path ≡ false)

stored-IsValid :
    (max now : ℕ) (f : OpenFile) (input : Bytes) (o : ℕ)
    → o + length input ≤ max
    → f.released ≡ false
    → IsValid max f
    → IsValid max (stored now f input o)
unfolding stored
stored-IsValid max now f input o h r v = record {
  fits = ground (arith, length-write_at f.content o input, v.fits);
  sized = λ _. refl;
  let_go = λ p. cc;
}

store_at-IsValid :
    (max now : ℕ) (f : OpenFile) (input : Bytes) (at : ℤ)
    → max < 2 ^ 63
    → length input < 2 ^ 63
    → f.released ≡ false
    → IsValid max f
    → IsValid max (store_at max now f input at).0
store_at-IsValid max now f input (negsuc o) m l r v = v
store_at-IsValid max now f input (pos o) m l r v =
    rw (store_lem max now f input o m l) (elim (Bool-cases (leb (o + length input) max)) [
      | inl e ↦ rw e (stored-IsValid max now f input o (ground arith) r v)
      | inr e ↦ rw e v
    ])

candidate-IsValid :
    (max : ℕ) (f : OpenFile) (c : ℤ)
    → IsValid max f
    → IsValid max (record f { append_candidate = c })
candidate-IsValid max f c v = record { fits = v.fits; sized = v.sized; let_go = v.let_go }

write_locked-IsValid :
    (workaround : Bool) (max now : ℕ) (f : OpenFile) (overlapping : Bool) (input : Bytes)
    (offset : ℤ)
    → max < 2 ^ 63
    → length input < 2 ^ 63
    → IsValid max f
    → IsValid max (write_locked workaround max now f overlapping input offset).0
unfolding write_locked
write_locked-IsValid workaround max now f overlapping input offset m l v =
    let (at, candidate) = place workaround f overlapping offset in
    let g : OpenFile = record f { append_candidate = candidate } in
    guarded f.released f.writable refl (store_at max now g input at)
      (λ r. store_at-IsValid max now g input at m l r (candidate-IsValid max f candidate v))
  where
    guarded :
        (r w : Bool)
        → f.released ≡ r
        → (rest : OpenFile × ℕ × Errno) → (f.released ≡ false → IsValid max rest.0)
        → IsValid max (if r then (f, 0, ebadf) else if not w then (f, 0, ebadf) else rest).0
    guarded true w e rest h = v
    guarded false false e rest h = v
    guarded false true e rest h = h e

write-IsValid :
    (workaround : Bool) (max now : ℕ) (f : OpenFile) (input : Bytes) (offset : ℤ)
    → max < 2 ^ 63
    → length input < 2 ^ 63
    → IsValid max f
    → IsValid max (write workaround max now f input offset).0
unfolding write
write-IsValid workaround max now f input offset m l v =
    let g : OpenFile = record f { pending_writes = f.pending_writes + 1 } in
    let overlapping : Bool = ltb 1 (f.pending_writes + 1) in
    let kept : IsValid max g = record { fits = v.fits; sized = v.sized; let_go = v.let_go } in
    let w : IsValid max (write_locked workaround max now g overlapping input offset).0 =
      write_locked-IsValid workaround max now g overlapping input offset m l kept in
    record { fits = w.fits; sized = w.sized; let_go = w.let_go }

set_mode-IsValid :
    (max : ℕ) (m : Option ℕ) (f : OpenFile) → IsValid max f → IsValid max (set_mode m f)
unfolding set_mode
set_mode-IsValid max none f v = v
set_mode-IsValid max (some m) f v = record { fits = v.fits; sized = v.sized; let_go = v.let_go }

set_modify_time-IsValid :
    (max : ℕ) (t : Option ℕ) (f : OpenFile) → IsValid max f → IsValid max (set_modify_time t f)
unfolding set_modify_time
set_modify_time-IsValid max none f v = v
set_modify_time-IsValid max (some t) f v = record {
  fits = v.fits;
  sized = v.sized;
  let_go = v.let_go;
}

set_access_time-IsValid :
    (max : ℕ) (t : Option ℕ) (f : OpenFile) → IsValid max f → IsValid max (set_access_time t f)
unfolding set_access_time
set_access_time-IsValid max none f v = v
set_access_time-IsValid max (some t) f v = record {
  fits = v.fits;
  sized = v.sized;
  let_go = v.let_go;
}

length-resize : (size : ℕ) (content : Bytes) → length (resize size content) ≡ size
length-resize size content = ground (arith, length-take size content, length-grow size content)

module _ {V : Type 0} (volume : Volume V) where
  abbrev max : ℕ
  max = volume.max_file_size

  after_persist-IsValid :
      (f : OpenFile) (r : Option Error × V)
      → IsValid max f
      → IsValid max (after_persist volume f r).0
  after_persist-IsValid f (some e, v) h = h
  after_persist-IsValid f (none, v) h = record {
    fits = h.fits;
    sized = λ _. refl;
    let_go = h.let_go;
  }

  flush_locked-IsValid :
      (f : OpenFile) (v : V) → IsValid max f → IsValid max (flush_locked volume f v).0
  unfolding flush_locked
  flush_locked-IsValid f v h = when (not f.dirty)
    where
      when :
          (b : Bool)
          → IsValid max
              (if b
                then (f, none, v)
                else after_persist volume f (volume.persist f.relative f.content f.meta v)).0
      when true = h
      when false = after_persist-IsValid f (volume.persist f.relative f.content f.meta v) h

  flush-IsValid : (f : OpenFile) (v : V) → IsValid max f → IsValid max (flush volume f v).0
  unfolding flush
  flush-IsValid f v h = when f.released
    where
      when :
          (b : Bool)
          → IsValid max
              (if◌then◌else◌ {A = OpenFile × Errno × V} b
                (f, ebadf, v)
                (let (g, err, v') = flush_locked volume f v in (g, errno_from_error err, v'))).0
      when true = h
      when false = flush_locked-IsValid f v h

  close-IsValid : (f : OpenFile) (v : V) → IsValid max f → IsValid max (close volume f v).file
  unfolding close
  close-IsValid f v h = elim (Bool-cases f.released) [
    | inl r ↦ record {
      fits = ground (arith, h.fits);
      sized = ground (arith, h.sized);
      let_go = ground (arith, h.let_go);
    }
    | inr r ↦ record { fits = ground arith; sized = ground arith; let_go = ground arith }
  ]

  abbrev Kept : OpenFile ⊎ Errno → Type 0
  Kept (inl g) = (IsValid max g) × (g.released ≡ false)
  Kept (inr e) = Unit

  resized :
      (now size : ℕ) (f : OpenFile)
      → size ≤ max
      → f.released ≡ false
      → Kept (
          inl (record f {
            content = resize size f.content;
            meta = record f.meta { size = size; mtime = now };
            dirty = true;
          }))
  resized now size f h r = (
    record {
      fits = omega (arith, length-resize size f.content);
      sized = λ _. sym (length-resize size f.content);
      let_go = λ p. cc;
    },
    r,
  )

  set_size-IsValid :
      (now : ℕ) (size : Option ℕ) (f : OpenFile)
      → IsValid max f
      → f.released ≡ false
      → Kept (set_size volume now size f)
  unfolding set_size
  set_size-IsValid now none f v r = (v, r)
  set_size-IsValid now (some size) f v r = checked f.writable (ltb max size) refl
    where
      checked :
          (w big : Bool)
          → ltb max size ≡ big
          → Kept (
              if not w
              then inr ebadf
              else if big
              then inr efbig
              else inl (record f {
                content = resize size f.content;
                meta = record f.meta { size = size; mtime = now };
                dirty = true;
              }))
      checked false big e = tt
      checked true true e = tt
      checked true false e = resized now size f (ground arith) r

  finish_set-IsValid :
      (now : ℕ) (f : OpenFile) (input : SetAttributes) (r : OpenFile ⊎ Errno)
      → IsValid max f
      → Kept r
      → IsValid max (finish_set volume now f input r).0
  finish_set-IsValid now f input (inr e) v k = v
  finish_set-IsValid now f input (inl g) v k =
      set_access_time-IsValid max input.access_time
        (set_modify_time input.modify_time (set_mode input.mode g))
        (set_modify_time-IsValid max input.modify_time (set_mode input.mode g)
          (set_mode-IsValid max input.mode g k.0))

  set_attributes-IsValid :
      (now : ℕ) (f : OpenFile) (input : SetAttributes)
      → IsValid max f
      → IsValid max (set_attributes volume now f input).0
  unfolding set_attributes
  set_attributes-IsValid now f input v =
      denied f.released (differs input.uid volume.uid) (differs input.gid volume.gid) refl
    where
      denied :
          (r u g : Bool)
          → f.released ≡ r
          → IsValid max
              (if◌then◌else◌ {A = OpenFile × Option Attributes × Errno} r
                (f, none, ebadf)
                (if u
                  then (f, none, eperm)
                  else if g
                  then (f, none, eperm)
                  else finish_set volume now f input (set_size volume now input.size f))).0
      denied true u g e = v
      denied false true g e = v
      denied false false true e = v
      denied false false false e =
          finish_set-IsValid now f input (set_size volume now input.size f) v
            (set_size-IsValid now input.size f v e)

  -- One call on the handle, with the reading of the clock that it makes.
  pub data Call : Type 0 where
    write_call : Bool → ℕ → (input : Bytes) → length input < 2 ^ 63 → ℤ → Call
    set_call : ℕ → SetAttributes → Call
    flush_call close_call : Call

  unfoldable pub step : OpenFile → V → Call → OpenFile × V
  step f v (write_call workaround now input h offset) =
      ((write workaround max now f input offset).0, v)
  step f v (set_call now input) = ((set_attributes volume now f input).0, v)
  step f v flush_call = let (g, errno, v') = flush volume f v in (g, v')
  step f v close_call = ((close volume f v).file, (close volume f v).volume_after)

  unfoldable pub run : OpenFile → V → List Call → OpenFile × V
  run f v [] = (f, v)
  run f v (c ∷ cs) = let (g, v') = step f v c in run g v' cs

  step-IsValid :
      (f : OpenFile) (v : V) (c : Call) → max < 2 ^ 63 → IsValid max f → IsValid max (step f v c).0
  unfolding step
  step-IsValid f v (write_call workaround now input h offset) m k =
      write-IsValid workaround max now f input offset m h k
  step-IsValid f v (set_call now input) m k = set_attributes-IsValid now f input k
  step-IsValid f v flush_call m k = flush-IsValid f v k
  step-IsValid f v close_call m k = close-IsValid f v k

  -- Whatever calls are made on a valid handle and however the volume answers them, the handle
  -- stays valid: its file never grows past the limit, its recorded size is the true one while it
  -- is open, and once released it holds neither plaintext nor a lock.
  pub run-IsValid :
      (f : OpenFile) (v : V) (cs : List Call)
      → volume.max_file_size < 2 ^ 63
      → IsValid volume.max_file_size f
      → IsValid volume.max_file_size (run f v cs).0
  unfolding run
  run-IsValid f v [] m k = k
  run-IsValid f v (c ∷ cs) m k =
      run-IsValid (step f v c).0 (step f v c).1 cs m (step-IsValid f v c m k)
