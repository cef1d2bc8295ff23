-- ===== src/Handle/Releases.antt =====
-- The locks of a handle are given back once (internal/passfs/file_handle.go: Write, SetAttributes, Flush,
-- Close).
use passfs.Prelude.{
  ℕ, ◌+◌, ◌≡◌, refl, ap, ◌∙◌, subst, Bool, true, false, not, Option, none, some, List, [], ◌∷◌,
  Bytes, arith, if◌then◌else◌, ltb, inl, inr, ◌⊎◌,
}
use passfs.Prelude.Int.{ℤ, pos, negsuc}
use passfs.Error.{Errno, success, ebadf, efbig, eperm, errno_from_error}
use passfs.FileMeta.{SetAttributes, Attributes}
use passfs.Handle.{
  Closed, Volume, OpenFile, store, store_at, stored, place, write_locked, write, begin_write,
  end_write, flush_locked, flush, close, set_attributes, set_size, set_mode, set_modify_time,
  set_access_time, differs, finish_set, set_rest,
}
use passfs.Handle.Lifecycle.{flush_locked-locks}
use passfs.Handle.Invariant.{Call, write_call, set_call, flush_call, close_call, step, run}

-- The handle owns the same locks.
abbrev SameLocks : OpenFile → OpenFile → Type 0
SameLocks f g = (g.unlock ≡ f.unlock) × (g.unlock_path ≡ f.unlock_path)

store-SameLocks :
    (max now : ℕ) (f : OpenFile) (input : Bytes) (at : ℤ)
    → SameLocks f (store_at max now f input at).0
unfolding store stored
store-SameLocks max now f input (negsuc o) = (refl, refl)
store-SameLocks max now f input (pos o) = ground arith

write_locked-SameLocks :
    (workaround : Bool) (max now : ℕ) (f : OpenFile) (overlapping : Bool) (input : Bytes)
    (offset : ℤ)
    → SameLocks f (write_locked workaround max now f overlapping input offset).0
unfolding write_locked
write_locked-SameLocks workaround max now f overlapping input offset =
    let (at, candidate) = place workaround f overlapping offset in
    guarded f.released f.writable
      (store_at max now (record f { append_candidate = candidate }) input at)
      (store-SameLocks max now (record f { append_candidate = candidate }) input at)
  where
    guarded :
        (r w : Bool) (rest : OpenFile × ℕ × Errno)
        → SameLocks f rest.0
        → SameLocks f (if r then (f, 0, ebadf) else if not w then (f, 0, ebadf) else rest).0
    guarded true w rest h = (refl, refl)
    guarded false false rest h = (refl, refl)
    guarded false true rest h = h

write-SameLocks :
    (workaround : Bool) (max now : ℕ) (f : OpenFile) (input : Bytes) (offset : ℤ)
    → SameLocks f (write workaround max now f input offset).0
unfolding write begin_write end_write
write-SameLocks workaround max now f input offset =
    write_locked-SameLocks workaround max now (record f { pending_writes = f.pending_writes + 1 })
      (ltb 1 (f.pending_writes + 1)) input offset

set_mode-SameLocks : (o : Option ℕ) (f : OpenFile) → SameLocks f (set_mode o f)
unfolding set_mode
set_mode-SameLocks none f = (refl, refl)
set_mode-SameLocks (some m) f = (refl, refl)

set_modify-SameLocks : (o : Option ℕ) (f : OpenFile) → SameLocks f (set_modify_time o f)
unfolding set_modify_time
set_modify-SameLocks none f = (refl, refl)
set_modify-SameLocks (some m) f = (refl, refl)

set_access-SameLocks : (o : Option ℕ) (f : OpenFile) → SameLocks f (set_access_time o f)
unfolding set_access_time
set_access-SameLocks none f = (refl, refl)
set_access-SameLocks (some m) f = (refl, refl)

then_same : (f g h : OpenFile) → SameLocks f g → SameLocks g h → SameLocks f h
then_same f g h p q = (q.0 ∙ p.0, q.1 ∙ p.1)

inl_eq : {x y : OpenFile} → ◌≡◌ {A = OpenFile ⊎ Errno} (inl x) (inl y) → x ≡ y
inl_eq p = cc p

-- A size that is taken.
taken :
    (f h : OpenFile) (w l : Bool) (g : OpenFile)
    → SameLocks f h
    → (if◌then◌else◌ {A = OpenFile ⊎ Errno} w (inr ebadf) (if l then inr efbig else inl h)) ≡ inl g
    → SameLocks f g
taken f h true l g p e = absurd (cc e)
taken f h false true g p e = absurd (cc e)
taken f h false false g p e = subst (SameLocks f) (inl_eq e) p

plus_none : (a b : ℕ) → a ≡ b → 0 + a ≡ b
plus_none a b h = omega arith

module _ {V : Type 0} (volume : Volume V) where
  flush-SameLocks : (f : OpenFile) (v : V) → SameLocks f (flush volume f v).0
  unfolding flush
  flush-SameLocks f v = known f.released
    where
      known :
          (b : Bool)
          → SameLocks f
              (if◌then◌else◌ {A = OpenFile × Errno × V} b
                (f, ebadf, v)
                (let (g, err, w) = flush_locked volume f v in (g, errno_from_error err, w))).0
      known true = (refl, refl)
      known false = flush_locked-locks volume f v

  set_rest-SameLocks :
      (input : SetAttributes) (f : OpenFile) → SameLocks f (set_rest volume input f)
  set_rest-SameLocks input f =
      let g = set_mode input.mode f in
      let h = set_modify_time input.modify_time g in
      then_same f g (set_rest volume input f) (set_mode-SameLocks input.mode f) (
        then_same g h (set_rest volume input f) (set_modify-SameLocks input.modify_time g)
          (set_access-SameLocks input.access_time h))

  size-SameLocks :
      (now : ℕ) (f : OpenFile) (o : Option ℕ) (g : OpenFile)
      → set_size volume now o f ≡ inl g
      → SameLocks f g
  unfolding set_size
  size-SameLocks now f none g e = subst (SameLocks f) (inl_eq e) (refl, refl)
  size-SameLocks now f (some n) g e =
      taken f _ (not f.writable) (ltb volume.max_file_size n) g (refl, refl) e

  finish-SameLocks :
      (now : ℕ) (f : OpenFile) (input : SetAttributes)
      → SameLocks f (finish_set volume now f input (set_size volume now input.size f)).0
  finish-SameLocks now f input =
      finished (set_size volume now input.size f) (size-SameLocks now f input.size)
    where
      finished :
          (x : OpenFile ⊎ Errno)
          → ((g : OpenFile) → x ≡ inl g → SameLocks f g)
          → SameLocks f (finish_set volume now f input x).0
      finished (inl g) h =
          then_same f g (set_rest volume input g) (h g refl) (set_rest-SameLocks input g)
      finished (inr n) h = (refl, refl)

  set-SameLocks :
      (now : ℕ) (f : OpenFile) (input : SetAttributes)
      → SameLocks f (set_attributes volume now f input).0
  unfolding set_attributes
  set-SameLocks now f input =
      denied f.released (differs input.uid volume.uid) (differs input.gid volume.gid)
    where
      denied :
          (r u g : Bool)
          → SameLocks f
              (if◌then◌else◌ {A = OpenFile × Option Attributes × Errno} r
                (f, none, ebadf)
                (if u
                  then (f, none, eperm)
                  else if g
                  then (f, none, eperm)
                  else finish_set volume now f input (set_size volume now input.size f))).0
      denied true u g = (refl, refl)
      denied false true g = (refl, refl)
      denied false false true = (refl, refl)
      denied false false false = finish-SameLocks now f input

  abbrev pub one : Bool → ℕ
  one b = if b then 1 else 0

  -- How often the calls run the functions that give back the path lock and the namespace lock.
  abbrev pub step_path : OpenFile → V → Call volume → ℕ
  step_path f v close_call = one (close volume f v).ran_unlock_path
  step_path f v _ = 0

  abbrev pub step_namespace : OpenFile → V → Call volume → ℕ
  step_namespace f v close_call = one (close volume f v).ran_unlock
  step_namespace f v _ = 0

  unfoldable pub path_unlocks : OpenFile → V → List (Call volume) → ℕ
  path_unlocks f v [] = 0
  path_unlocks f v (c ∷ cs) =
      let (g, w) = step volume f v c in step_path f v c + path_unlocks g w cs

  unfoldable pub namespace_unlocks : OpenFile → V → List (Call volume) → ℕ
  namespace_unlocks f v [] = 0
  namespace_unlocks f v (c ∷ cs) =
      let (g, w) = step volume f v c in step_namespace f v c + namespace_unlocks g w cs

  -- Each call keeps the balance of a lock: what the handle owned before it is what the call gave back and
  -- what the handle owns after it.
  step-balance :
      (f : OpenFile) (v : V) (c : Call volume)
      → (step_path f v c + one (step volume f v c).0.unlock_path ≡ one f.unlock_path)
        × (step_namespace f v c + one (step volume f v c).0.unlock ≡ one f.unlock)
  unfolding step close
  step-balance f v (write_call workaround now input h offset) =
      let e = write-SameLocks workaround volume.max_file_size now f input offset in
      (plus_none _ _ (ap one e.1), plus_none _ _ (ap one e.0))
  step-balance f v (set_call now input) =
      let e = set-SameLocks now f input in (plus_none _ _ (ap one e.1), plus_none _ _ (ap one e.0))
  step-balance f v flush_call =
      let e = flush-SameLocks f v in (plus_none _ _ (ap one e.1), plus_none _ _ (ap one e.0))
  step-balance f v close_call = closed f.released
    where
      Balanced : Closed V → Type 0
      Balanced c =
          (one c.ran_unlock_path + one c.file.unlock_path ≡ one f.unlock_path)
          × (one c.ran_unlock + one c.file.unlock ≡ one f.unlock)

      plus_zero : (a b : ℕ) → a ≡ b → a + 0 ≡ b
      plus_zero a b h = omega arith

      closed :
          (b : Bool)
          → Balanced (
              if b
              then record {
                file = f;
                errno = success;
                volume_after = v;
                unregistered = false;
                ran_unlock_path = false;
                ran_unlock = false;
              }
              else let (g, err, w) = flush_locked volume f v in
                record {
                  file = record g {
                    content = [];
                    released = true;
                    unlock = false;
                    unlock_path = false;
                  };
                  errno = errno_from_error err;
                  volume_after = w;
                  unregistered = true;
                  ran_unlock_path = g.unlock_path;
                  ran_unlock = g.unlock;
                })
      closed true = (plus_none _ _ refl, plus_none _ _ refl)
      closed false =
          let e = flush_locked-locks volume f v in
          (plus_zero _ _ (ap one e.1), plus_zero _ _ (ap one e.0))

  -- Whatever calls are made on a handle and however the volume answers them, the path lock and the
  -- namespace lock that it owns are each given back once or still owned by it, and a lock that it does not
  -- own is never given back.
  pub run-releases :
      (f : OpenFile) (v : V) (cs : List (Call volume))
      → (path_unlocks f v cs + one (run volume f v cs).0.unlock_path ≡ one f.unlock_path)
        × (namespace_unlocks f v cs + one (run volume f v cs).0.unlock ≡ one f.unlock)
  unfolding run path_unlocks namespace_unlocks
  run-releases f v [] = (plus_none _ _ refl, plus_none _ _ refl)
  run-releases f v (c ∷ cs) =
      let g = step volume f v c in
      let (p, q) = step-balance f v c in
      let (r, t) = run-releases g.0 g.1 cs in (omega arith, omega arith)
