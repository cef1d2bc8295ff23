-- ===== src/Handle/Lifecycle.antt =====
-- Flush and Close (internal/passfs/file_handle.go), and what is left of a released handle.
use passfs.Prelude.{
  ℕ, ◌≡◌, ◌≢◌, ◌⊎◌, not, inl, inr, refl, sym, Bool, true, false, Option, none, some, [], arith,
  Bytes, if◌then◌else◌,
}
use passfs.Prelude.Int.{ℤ, pos, negsuc}
use passfs.Error.{Error, success, ebadf}
use passfs.FileMeta.{SetAttributes}
use passfs.Handle.{
  Volume, OpenFile, read, write_locked, write, attributes, after_persist, flush_locked, flush,
  close, set_attributes,
}

module _ {V : Type 0} (volume : Volume V) where
  -- A flush of an open handle: without the dirty mark it does not touch the volume; with it, the
  -- content is given to `persistFile`, and the mark goes exactly when that reports no error.
  pub flush_locked_lem :
      (f : OpenFile) (v : V)
      → let (g, err, v') = flush_locked volume f v in
        ((f.dirty ≡ false) × (g ≡ f) × (err ≡ none) × (v' ≡ v))
        ⊎ ((f.dirty ≡ true)
            × ((err, v') ≡ volume.persist f.relative f.content f.meta v)
            × (g.content ≡ f.content)
            × ((err ≡ none) × (g.dirty ≡ false) ⊎ (err ≢ none) × (g ≡ f)))
  unfolding flush_locked
  flush_locked_lem f v = when f.dirty refl (volume.persist f.relative f.content f.meta v) refl
    where
      when :
          (d : Bool)
          → f.dirty ≡ d
          → (p : Option Error × V) → volume.persist f.relative f.content f.meta v ≡ p
          → let (g, err, v') =
              if◌then◌else◌ {A = OpenFile × Option Error × V}
                (not d)
                (f, none, v)
                (after_persist volume f p) in
            ((f.dirty ≡ false) × (g ≡ f) × (err ≡ none) × (v' ≡ v))
            ⊎ ((f.dirty ≡ true)
                × ((err, v') ≡ volume.persist f.relative f.content f.meta v)
                × (g.content ≡ f.content)
                × ((err ≡ none) × (g.dirty ≡ false) ⊎ (err ≢ none) × (g ≡ f)))
      when false e p q = inl (e, refl, refl, refl)
      when true e (none, v') q = inr (e, sym q, refl, inl (refl, refl))
      when true e (some x, v') q = inr (e, sym q, refl, inr ((λ z. cc), refl))

  pub flush_locked-locks :
      (f : OpenFile) (v : V)
      → ((flush_locked volume f v).0.unlock ≡ f.unlock)
        × ((flush_locked volume f v).0.unlock_path ≡ f.unlock_path)
  unfolding flush_locked
  flush_locked-locks f v = when f.dirty (volume.persist f.relative f.content f.meta v)
    where
      when :
          (d : Bool) (p : Option Error × V)
          → let g =
              (if◌then◌else◌ {A = OpenFile × Option Error × V}
                (not d)
                (f, none, v)
                (after_persist volume f p)).0 in
            (g.unlock ≡ f.unlock) × (g.unlock_path ≡ f.unlock_path)
      when false p = (refl, refl)
      when true (none, v') = (refl, refl)
      when true (some x, v') = (refl, refl)

  close_released :
      (f : OpenFile) (v : V)
      → f.released ≡ true
      → let c = close volume f v in
        (c.file ≡ f)
        × (c.errno ≡ success)
        × (c.volume_after ≡ v)
        × (c.unregistered ≡ false)
        × (c.ran_unlock_path ≡ false)
        × (c.ran_unlock ≡ false)
  unfolding close
  close_released f v r = ground arith

  released-close : (f : OpenFile) (v : V) → (close volume f v).file.released ≡ true
  unfolding close
  released-close f v = ground arith

  -- A second Close gives nothing back again, so each lock is released once.
  pub close-close :
      (f : OpenFile) (v v' : V)
      → let c = close volume (close volume f v).file v' in
        (c.file ≡ (close volume f v).file)
        × (c.errno ≡ success)
        × (c.volume_after ≡ v')
        × (c.unregistered ≡ false)
        × (c.ran_unlock_path ≡ false)
        × (c.ran_unlock ≡ false)
  close-close f v v' = close_released (close volume f v).file v' (released-close f v)

  -- A released handle refuses every call but Close with EBADF; it stays as it is and the volume is
  -- not touched.
  pub released_refuses :
      (workaround : Bool) (now room : ℕ) (f : OpenFile) (v : V) (input : Bytes) (offset : ℤ)
      (change : SetAttributes)
      → f.released ≡ true
      → (read f room offset ≡ ([], ebadf))
        × (write workaround volume.max_file_size now f input offset ≡ (f, 0, ebadf))
        × (flush volume f v ≡ (f, ebadf, v))
        × (attributes volume now f ≡ (none, ebadf))
        × (set_attributes volume now f change ≡ (f, none, ebadf))
  unfolding read write write_locked flush attributes set_attributes
  released_refuses workaround now room f v input (pos o) change r =
      (ground arith, ground arith, ground arith, ground arith, ground arith)
  released_refuses workaround now room f v input (negsuc o) change r =
      (ground arith, ground arith, ground arith, ground arith, ground arith)
