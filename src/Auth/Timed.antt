-- ===== src/Auth/Timed.antt =====
-- The authorization state through any sequence of calls, timers and process exits
-- (internal/passfs/volume.go).
use passfs.Prelude.{
  ℕ, ◌+◌, ◌<◌, ◌≡◌, refl, Bool, true, false, not, Option, none, some, ◌++◌, arith, ◌==◌,
  nat_equality, Bytes, if◌then◌else◌, is_empty,
}
use passfs.Result.{Result, ok, err}
use passfs.Table.{lookup, insert, delete}
use passfs.Process.{Machine, process_alive}
use passfs.Auth.State.{
  AuthKey, auth_key_equality, PromptRequest, Keys, Auth, authorization_key, request_identity,
  remove_expired, drop_if_unused, is_same_end, schedule_identity_expiry, expire_cached_identity,
  expire_process_round, grant,
}
use passfs.Auth.Sessions.{
  owned_by, Found, live_session, active_encrypt_identity, active_edit_identity, granted, use_grant,
  unlock_by_key, or_edit, or_encrypt, unlock_identity,
}
use passfs.Auth.Expiry.{
  IsTimed, delete-All, insert-All, insert-nonempty, remove_expired-IsTimed, schedule-IsTimed,
}

module _ {I : Type 0} where
  -- Only the grants, the timer and the cached identity matter.
  abbrev pub SameCache : Auth I → Auth I → Type 0
  SameCache s t =
      (t.authorized ≡ s.authorized)
      × (t.unlock_timer ≡ s.unlock_timer)
      × (t.cached_identity ≡ s.cached_identity)

  pub same-IsTimed : (s t : Auth I) → SameCache s t → IsTimed s → IsTimed t
  same-IsTimed s t e h = record {
    positive = rw e.0 h.positive;
    used = rw (e.0, e.2) h.used;
    covered = rw (e.0, e.1) h.covered;
  }

  pub expire-IsTimed : (now : ℕ) (s : Auth I) → IsTimed s → IsTimed (expire_cached_identity now s)
  unfolding expire_cached_identity
  expire-IsTimed now s h =
      let t : Auth I = remove_expired now s in
      let k : IsTimed t = remove_expired-IsTimed now s h in when t k (is_empty t.authorized) refl
    where
      when :
          (t : Auth I)
          → IsTimed t
          → (b : Bool) → is_empty t.authorized ≡ b
          → IsTimed (if b then record t { unlock_timer = none } else schedule_identity_expiry now t)
      when t k true e = record { positive = k.positive; used = k.used; covered = e }
      when t k false e = schedule-IsTimed now t k.positive k.used

  drop-authorized : (s : Auth I) → (drop_if_unused s).authorized ≡ s.authorized
  drop-authorized s = when (is_empty s.authorized)
    where
      when :
          (b : Bool)
          → (if b then record s { cached_identity = none } else s).authorized ≡ s.authorized
      when true = refl
      when false = refl

  drop-used :
      (s : Auth I)
      → is_empty (drop_if_unused s).authorized ≡ true
      → (drop_if_unused s).cached_identity ≡ none
  drop-used s = when (is_empty s.authorized) refl
    where
      when :
          (b : Bool)
          → is_empty s.authorized ≡ b
          → is_empty (if b then record s { cached_identity = none } else s).authorized ≡ true
          → (if b then record s { cached_identity = none } else s).cached_identity ≡ none
      when true e q = refl
      when false e q = cc

  pub process_round-IsTimed :
      (m : Machine) (now : ℕ) (key : AuthKey) (pid until : ℕ) (s : Auth I)
      → IsTimed s
      → IsTimed (expire_process_round m now key pid until s)
  unfolding expire_process_round
  process_round-IsTimed m now key pid until s h =
      when (not (is_same_end (lookup key s.authorized) until)) (process_alive m pid)
    where
      removed : Auth I
      removed = record s { authorized = delete key s.authorized }

      when :
          (a b : Bool)
          → IsTimed (
              if a
              then s
              else if b
              then s
              else schedule_identity_expiry now (drop_if_unused removed))
      when true b = h
      when false true = h
      when false false =
          schedule-IsTimed now (drop_if_unused removed)
            (rw (drop-authorized removed) (delete-All (λ g. 0 < g.1) key s.authorized h.positive))
            (drop-used removed)

  grant-IsTimed :
      (now : ℕ) (key : AuthKey) (i : I) (s : Auth I)
      → 0 < s.unlock_for
      → IsTimed s
      → IsTimed (grant now key i s)
  unfolding grant
  grant-IsTimed now key i s p h =
      let until : ℕ = now + s.unlock_for in
      schedule-IsTimed now
        (record s { cached_identity = some i; authorized = insert key until s.authorized })
        (insert-All (λ g. 0 < g.1) key until s.authorized (omega arith) h.positive)
        (λ e. cc (e, insert-nonempty key until s.authorized))

  use_grant-IsTimed :
      (now : ℕ) (key : AuthKey) (answer : Result I) (o : Option I) (s : Auth I)
      → 0 < s.unlock_for
      → IsTimed s
      → IsTimed (use_grant now key answer o s).1
  use_grant-IsTimed now key answer (some i) s p h = h
  use_grant-IsTimed now key (err e) none s p h = h
  use_grant-IsTimed now key (ok i) none s p h = grant-IsTimed now key i s p h

  unlock_for-remove_expired :
      (now : ℕ) (s : Auth I) → (remove_expired now s).unlock_for ≡ s.unlock_for
  unfolding remove_expired
  unlock_for-remove_expired now s = ground arith

  by_key-IsTimed :
      (now later : ℕ) (answer : Result I) (o : Option AuthKey) (s : Auth I)
      → IsTimed s
      → IsTimed (unlock_by_key now later answer o s).1
  by_key-IsTimed now later answer none s h = h
  by_key-IsTimed now later answer (some key) s h = when (s.unlock_for == 0) refl
    where
      t : Auth I
      t = remove_expired now s

      o : Option I
      o = granted now t.cached_identity (lookup key t.authorized)

      when :
          (b : Bool)
          → (s.unlock_for == 0) ≡ b
          → IsTimed (if b then (answer, s) else use_grant later key answer o t).1
      when true e = h
      when false e =
          use_grant-IsTimed later key answer o t
            (rw (unlock_for-remove_expired now s) (ground arith)) (remove_expired-IsTimed now s h)

  or_edit-IsTimed :
      (m : Machine) (now later : ℕ) (answer : Result I) (cache_key : Bytes) (pid : ℕ)
      (r : Option I × Auth I)
      → IsTimed r.1
      → IsTimed (or_edit m now later answer cache_key pid r).1
  or_edit-IsTimed m now later answer cache_key pid (some i, s) h = h
  or_edit-IsTimed m now later answer cache_key pid (none, s) h =
      by_key-IsTimed now later answer (authorization_key s.scope cache_key pid) s h

  or_encrypt-IsTimed :
      (m : Machine) (now later : ℕ) (answer : Result I) (cache_key : Bytes) (pid : ℕ)
      (r : Option I × Auth I)
      → IsTimed r.1
      → IsTimed (or_encrypt m now later answer cache_key pid r).1
  or_encrypt-IsTimed m now later answer cache_key pid (some i, s) h = h
  or_encrypt-IsTimed m now later answer cache_key pid (none, s) h =
      or_edit-IsTimed m now later answer cache_key pid (active_edit_identity m cache_key pid s) (
        unfold active_edit_identity in
        same-IsTimed s (active_edit_identity m cache_key pid s).1 (refl, refl, refl) h)

  pub unlock-IsTimed :
      (keys : Keys I) (m : Machine) (now later : ℕ) (cache_key : Bytes) (request : PromptRequest)
      (s : Auth I)
      → IsTimed s
      → IsTimed (unlock_identity keys m now later cache_key request s).1
  unfolding unlock_identity
  unlock-IsTimed keys m now later cache_key request s h =
      or_encrypt-IsTimed m now later (request_identity keys s.prompter request) cache_key
        request.pid (active_encrypt_identity m request.pid s)
        (unfold active_encrypt_identity in when (request.pid == 0))
    where
      found : Found I
      found = live_session m (owned_by request.pid) s.encrypt_sessions

      when :
          (b : Bool)
          → IsTimed
              (if◌then◌else◌ {A = Option I × Auth I} b
                (none, s)
                (
                  found.identity,
                  record s { encrypt_sessions = found.kept; closed = found.closed ++ s.closed },
                )).1
      when true = h
      when false =
          same-IsTimed s
            (record s { encrypt_sessions = found.kept; closed = found.closed ++ s.closed })
            (refl, refl, refl) h
