-- ===== src/Auth/Locked.antt =====
-- What Lock leaves for the requests after it (internal/passfs/volume.go: Lock, unlockIdentityForRequest).
use passfs.Prelude.{
  zero, suc, ℕ, ◌+◌, ◌≡◌, ◌≢◌, refl, sym, ap, ◌∙◌, Bool, true, false, not, Option, none, some, List,
  [], ◌∷◌, ◌++◌, ◌==◌, nat_equality, list_equality, Bytes, if◌then◌else◌, All, ltb, ne→==, is_empty,
  subst,
}
use passfs.Prelude.Int.{ℤ, pos, negsuc}
use passfs.Error.{Error, message}
use passfs.Result.{Result, ok, err}
use passfs.Table.{Table, lookup, delete}
use passfs.Process.{Machine, process_alive}
use passfs.Token.{validate_session_token}
use passfs.Auth.State.{
  UnlockScope, other_scope, AuthKey, auth_key_equality, PromptRequest, Prompter, Keys, Session,
  Auth, remove_expired, expire_cached_identity, expire_process_round, lock, authorization_key,
  grant, schedule_identity_expiry, drop_if_unused, is_same_end, latest, configure_authorization,
  configure_prompter, request_identity,
}
use passfs.Auth.Sessions.{
  owned_by, serves, sessions_of, edit_session, unlock_identity, ask_session,
  active_encrypt_identity, active_edit_identity, live_session, unlock_by_key, use_grant, granted,
  put_edit_sessions, end_edit_session, end_encrypt_session, monitor_edit_session,
  monitor_encrypt_session, end_found, exit_found, or_edit, or_encrypt,
}
use passfs.Auth.Expiry.{keep_live-All, delete-All, insert-All}
use passfs.Auth.Runs.{
  Event, unlocks, asks_session, adds_edit, adds_encrypt, ends_edit, ends_encrypt, exits_edit,
  exits_encrypt, timer_fires, ticks, locks, configures, changes_prompter, step, run,
}

-- An event that begins no session and asks for no identity under the key `k`, whatever the scope.
abbrev pub Spares : {I : Type 0} → AuthKey → Event I → Type 0
Spares k (unlocks m now later key request) =
    (scope : UnlockScope) → authorization_key scope key request.pid ≢ some k
Spares k (asks_session m now later key token pid request) =
    (scope : UnlockScope) → authorization_key scope key request.pid ≢ some k
Spares k (adds_edit key token pid i) = ⊥
Spares k (adds_encrypt token pid i) = ⊥
Spares k _ = Unit

no_grant : (k : AuthKey) (m : Table AuthKey ℕ) → All (λ g. g.0 ≢ k) m → lookup k m ≡ none
unfolding lookup
no_grant k [] h = refl
no_grant k ((j, u) ∷ m) h =
    ap (λ b. if b then some u else lookup k m) (ne→== j k h.0) ∙ no_grant k m h.1

module _ {I : Type 0} (keys : Keys I) (k : AuthKey) where
  -- No session runs, and there is no grant under `k`.
  record IsBare (s : Auth I) : Type 0 where
    grants : All (λ g. g.0 ≢ k) s.authorized
    edits : s.edit_sessions ≡ []
    encrypts : s.encrypt_sessions ≡ []

  lock-IsBare : (s : Auth I) → IsBare (lock s)
  unfolding lock
  lock-IsBare s = record { grants = tt; edits = refl; encrypts = refl }

  schedule-IsBare : (now : ℕ) (s : Auth I) → IsBare s → IsBare (schedule_identity_expiry now s)
  unfolding schedule_identity_expiry
  schedule-IsBare now s h = known (latest s.authorized == 0)
    where
      known :
          (b : Bool)
          → IsBare (
              if b then record s { unlock_timer = none; cached_identity = none } else record s {
                unlock_timer =
                    some (if ltb now (latest s.authorized) then latest s.authorized else now);
              })
      known true = record { grants = h.grants; edits = h.edits; encrypts = h.encrypts }
      known false = record { grants = h.grants; edits = h.edits; encrypts = h.encrypts }

  drop_if_unused-IsBare : (s : Auth I) → IsBare s → IsBare (drop_if_unused s)
  drop_if_unused-IsBare s h = known (is_empty s.authorized)
    where
      known : (b : Bool) → IsBare (if b then record s { cached_identity = none } else s)
      known true = record { grants = h.grants; edits = h.edits; encrypts = h.encrypts }
      known false = h

  remove_expired-IsBare : (now : ℕ) (s : Auth I) → IsBare s → IsBare (remove_expired now s)
  unfolding remove_expired
  remove_expired-IsBare now s h = drop_if_unused-IsBare _ (record {
    grants = keep_live-All (λ g. g.0 ≢ k) now s.authorized h.grants;
    edits = h.edits;
    encrypts = h.encrypts;
  })

  expire-IsBare : (now : ℕ) (s : Auth I) → IsBare s → IsBare (expire_cached_identity now s)
  unfolding expire_cached_identity
  expire-IsBare now s h = known (is_empty (remove_expired now s).authorized)
    where
      t : Auth I
      t = remove_expired now s

      b : IsBare t
      b = remove_expired-IsBare now s h

      known :
          (c : Bool)
          → IsBare (if c then record t { unlock_timer = none } else schedule_identity_expiry now t)
      known true = record { grants = b.grants; edits = b.edits; encrypts = b.encrypts }
      known false = schedule-IsBare now t b

  process_round-IsBare :
      (m : Machine) (now : ℕ) (key : AuthKey) (pid until : ℕ) (s : Auth I)
      → IsBare s
      → IsBare (expire_process_round m now key pid until s)
  unfolding expire_process_round
  process_round-IsBare m now key pid until s h =
      known (not (is_same_end (lookup key s.authorized) until)) (process_alive m pid)
    where
      rest : Auth I
      rest =
          schedule_identity_expiry now
            (drop_if_unused (record s { authorized = delete key s.authorized }))

      known : (b c : Bool) → IsBare (if b then s else if c then s else rest)
      known true c = h
      known false true = h
      known false false = schedule-IsBare now _ (
          drop_if_unused-IsBare _ (record {
            grants = delete-All (λ g. g.0 ≢ k) key s.authorized h.grants;
            edits = h.edits;
            encrypts = h.encrypts;
          }))

  no_encrypt :
      (m : Machine) (pid : ℕ) (s : Auth I)
      → s.encrypt_sessions ≡ []
      → active_encrypt_identity m pid s ≡ (none, s)
  unfolding active_encrypt_identity live_session
  no_encrypt m pid s e = known (pid == 0)
    where
      searched : Table Bytes (Session I) → Option I × Auth I
      searched t =
          let found = live_session m (owned_by pid) t in
          (
            found.identity,
            record s { encrypt_sessions = found.kept; closed = found.closed ++ s.closed },
          )

      known : (b : Bool) → (if b then (none, s) else searched s.encrypt_sessions) ≡ (none, s)
      known true = refl
      known false = ap searched e ∙ ap (λ t. (none, record s { encrypt_sessions = t })) (sym e)

  no_edit :
      (m : Machine) (cache_key : Bytes) (pid : ℕ) (s : Auth I)
      → s.edit_sessions ≡ []
      → active_edit_identity m cache_key pid s ≡ (none, s)
  unfolding active_edit_identity live_session put_edit_sessions lookup delete
  no_edit m cache_key pid s e =
      ap searched e ∙ ap (λ t. (none, record s { edit_sessions = t })) (sym e)
    where
      searched : Table Bytes (Table Bytes (Session I)) → Option I × Auth I
      searched t =
          let found = live_session m (serves m pid) (sessions_of (lookup cache_key t)) in
          (
            found.identity,
            record s {
              edit_sessions = put_edit_sessions cache_key found.kept t;
              closed = found.closed ++ s.closed;
            },
          )

  unlock-unlock_by_key :
      (m : Machine) (now later : ℕ) (cache_key : Bytes) (request : PromptRequest) (s : Auth I)
      → IsBare s
      → unlock_identity keys m now later cache_key request s
        ≡ unlock_by_key now later
            (request_identity keys s.prompter request)
            (authorization_key s.scope cache_key request.pid)
            s
  unfolding unlock_identity
  unlock-unlock_by_key m now later cache_key request s h =
      ap
        (λ r.
          or_encrypt m now later (request_identity keys s.prompter request) cache_key request.pid r)
        (no_encrypt m request.pid s h.encrypts)
      ∙ ap
          (λ r.
            or_edit m now later (request_identity keys s.prompter request) cache_key request.pid r)
          (no_edit m cache_key request.pid s h.edits)

  use_grant-IsBare :
      (now : ℕ) (key : AuthKey) (answer : Result I) (o : Option I) (s : Auth I)
      → key ≢ k
      → IsBare s
      → IsBare (use_grant now key answer o s).1
  unfolding grant
  use_grant-IsBare now key answer (some i) s n h = h
  use_grant-IsBare now key (err e) none s n h = h
  use_grant-IsBare now key (ok i) none s n h = schedule-IsBare now _ (record {
    grants = insert-All (λ g. g.0 ≢ k) key (now + s.unlock_for) s.authorized n h.grants;
    edits = h.edits;
    encrypts = h.encrypts;
  })

  by_key-IsBare :
      (now later : ℕ) (answer : Result I) (o : Option AuthKey) (s : Auth I)
      → o ≢ some k
      → IsBare s
      → IsBare (unlock_by_key now later answer o s).1
  by_key-IsBare now later answer none s n h = h
  by_key-IsBare now later answer (some key) s n h = known (s.unlock_for == 0)
    where
      t : Auth I
      t = remove_expired now s

      known :
          (b : Bool)
          → IsBare
              (if◌then◌else◌ {A = Result I × Auth I} b
                (answer, s)
                (use_grant later key answer
                  (granted now t.cached_identity (lookup key t.authorized))
                  t)).1
      known true = h
      known false =
          use_grant-IsBare later key answer _ t (λ e. n (ap some e)) (remove_expired-IsBare now s h)

  unlock-IsBare :
      (m : Machine) (now later : ℕ) (cache_key : Bytes) (request : PromptRequest) (s : Auth I)
      → ((scope : UnlockScope) → authorization_key scope cache_key request.pid ≢ some k)
      → IsBare s
      → IsBare (unlock_identity keys m now later cache_key request s).1
  unlock-IsBare m now later cache_key request s other h =
      subst (λ r. IsBare r.1) (sym (unlock-unlock_by_key m now later cache_key request s h))
        (by_key-IsBare now later (request_identity keys s.prompter request) _ s (other s.scope) h)

  by_key_prompts :
      (now later : ℕ) (answer : Result I) (s : Auth I)
      → IsBare s
      → (unlock_by_key now later answer (some k) s).0 ≡ answer
  by_key_prompts now later answer s h = known (s.unlock_for == 0)
    where
      t : Auth I
      t = remove_expired now s

      answered :
          (a : Result I) (c : Option I) (u : Option ℕ)
          → u ≡ none
          → (use_grant later k a (granted now c u) t).0 ≡ a
      answered (ok i) none u e = refl
      answered (err x) none u e = refl
      answered (ok i) (some j) none e = refl
      answered (err x) (some j) none e = refl
      answered a (some j) (some u) e = absurd (cc e)

      known :
          (b : Bool)
          → (if◌then◌else◌ {A = Result I × Auth I} b
              (answer, s)
              (use_grant later k answer
                (granted now t.cached_identity (lookup k t.authorized))
                t)).0
            ≡ answer
      known true = refl
      known false =
          answered answer t.cached_identity (lookup k t.authorized)
            (no_grant k t.authorized (remove_expired-IsBare now s h).grants)

  bare_prompts :
      (m : Machine) (now later : ℕ) (cache_key : Bytes) (request : PromptRequest) (s : Auth I)
      → authorization_key s.scope cache_key request.pid ≡ some k
      → IsBare s
      → (unlock_identity keys m now later cache_key request s).0
        ≡ request_identity keys s.prompter request
  bare_prompts m now later cache_key request s own h =
      ap (λ r. r.0) (unlock-unlock_by_key m now later cache_key request s h)
      ∙ ap (λ o. (unlock_by_key now later (request_identity keys s.prompter request) o s).0) own
      ∙ by_key_prompts now later (request_identity keys s.prompter request) s h

  ask-IsBare :
      (m : Machine) (now later : ℕ) (key token : Bytes) (pid : ℕ) (request : PromptRequest)
      (s : Auth I)
      → ((scope : UnlockScope) → authorization_key scope key request.pid ≢ some k)
      → IsBare s
      → IsBare (ask_session keys m now later key token pid request s).1
  unfolding ask_session
  ask-IsBare m now later key token pid request s other h =
      when (validate_session_token token) (pid == 0)
    where
      when :
          (o : Option Error) (b : Bool)
          → IsBare
              (elim o as (λ x. Result I × Auth I) [
                | some e ↦ (err e, s)
                | none ↦
                    if b then (err message, s) else unlock_identity keys m now later key request s
              ]).1
      when (some e) b = h
      when none true = h
      when none false = unlock-IsBare m now later key request s other h

  -- Without a session there is none to end.
  end_none-IsBare :
      (token : Bytes) (pid : ℕ) (s : Auth I) (drop : Session I → Auth I) (o : Option (Session I))
      → o ≡ none
      → IsBare s
      → IsBare (end_found token pid s drop o).1
  unfolding end_found
  end_none-IsBare token pid s drop (some x) e h = absurd (cc e)
  end_none-IsBare token pid s drop none e h = valid (validate_session_token token)
    where
      valid :
          (o : Option Error)
          → IsBare
              (elim o as (λ x. Option Error × Auth I) [ some e ↦ (some e, s) | none ↦ (none, s) ]).1
      valid (some e) = h
      valid none = h

  exit_none-IsBare :
      (pid : ℕ) (s : Auth I) (drop : Session I → Auth I) (o : Option (Session I))
      → o ≡ none
      → IsBare s
      → IsBare (exit_found pid s drop o)
  unfolding exit_found
  exit_none-IsBare pid s drop (some x) e h = absurd (cc e)
  exit_none-IsBare pid s drop none e h = h

  no_edit_session : (key token : Bytes) (s : Auth I) → IsBare s → edit_session key token s ≡ none
  unfolding lookup
  no_edit_session key token s h = ap (λ t. lookup token (sessions_of (lookup key t))) h.edits

  no_encrypt_session :
      (token : Bytes) (s : Auth I) → IsBare s → lookup token s.encrypt_sessions ≡ none
  unfolding lookup
  no_encrypt_session token s h = ap (lookup token) h.encrypts

  configure-IsBare :
      (max duration : ℤ) (scope : UnlockScope) (s : Auth I)
      → IsBare s
      → IsBare (configure_authorization max duration scope s).1
  unfolding configure_authorization
  configure-IsBare (negsuc n) duration scope s h = h
  configure-IsBare (pos zero) duration scope s h = h
  configure-IsBare (pos (suc n)) (negsuc d) scope s h = h
  configure-IsBare (pos (suc n)) (pos d) (other_scope name) s h = h
  configure-IsBare (pos (suc n)) (pos d) _ s h = record {
    grants = tt;
    edits = h.edits;
    encrypts = h.encrypts;
  }

  prompter-IsBare : (p : Prompter I) (s : Auth I) → IsBare s → IsBare (configure_prompter p s)
  unfolding configure_prompter
  prompter-IsBare p s h = record { grants = tt; edits = h.edits; encrypts = h.encrypts }

  step-IsBare : (s : Auth I) (e : Event I) → Spares k e → IsBare s → IsBare (step keys s e)
  unfolding step end_edit_session end_encrypt_session monitor_edit_session monitor_encrypt_session
  step-IsBare s (unlocks m now later key request) p h = unlock-IsBare m now later key request s p h
  step-IsBare s (asks_session m now later key token pid request) p h =
      ask-IsBare m now later key token pid request s p h
  step-IsBare s (adds_edit key token pid i) p h = absurd p
  step-IsBare s (adds_encrypt token pid i) p h = absurd p
  step-IsBare s (ends_edit key token pid) p h =
      end_none-IsBare token pid s _ _ (no_edit_session key token s h) h
  step-IsBare s (ends_encrypt token pid) p h =
      end_none-IsBare token pid s _ _ (no_encrypt_session token s h) h
  step-IsBare s (exits_edit key token pid) p h =
      exit_none-IsBare pid s _ _ (no_edit_session key token s h) h
  step-IsBare s (exits_encrypt token pid) p h =
      exit_none-IsBare pid s _ _ (no_encrypt_session token s h) h
  step-IsBare s (timer_fires now) p h = expire-IsBare now s h
  step-IsBare s (ticks m now key pid until) p h = process_round-IsBare m now key pid until s h
  step-IsBare s locks p h = lock-IsBare s
  step-IsBare s (configures max duration scope) p h = configure-IsBare max duration scope s h
  step-IsBare s (changes_prompter q) p h = prompter-IsBare q s h

  run-IsBare :
      (s : Auth I) (es : List (Event I)) → All (Spares k) es → IsBare s → IsBare (run keys s es)
  unfolding run
  run-IsBare s [] p h = h
  run-IsBare s (e ∷ es) p h = run-IsBare (step keys s e) es p.1 (step-IsBare s e p.0 h)

  -- After Lock and any further events that begin no session and ask for no identity under the key `k`,
  -- a request whose key is `k` is answered by the prompter: nothing that was unlocked before serves it.
  pub lock_prompts :
      (m : Machine) (now later : ℕ) (cache_key : Bytes) (request : PromptRequest) (s : Auth I)
      (es : List (Event I))
      → All (Spares k) es
      → authorization_key (run keys (lock s) es).scope cache_key request.pid ≡ some k
      → (unlock_identity keys m now later cache_key request (run keys (lock s) es)).0
        ≡ request_identity keys (run keys (lock s) es).prompter request
  lock_prompts m now later cache_key request s es p own =
      bare_prompts m now later cache_key request (run keys (lock s) es) own
        (run-IsBare (lock s) es p (lock-IsBare s))
