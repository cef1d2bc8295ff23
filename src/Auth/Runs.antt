-- ===== src/Auth/Runs.antt =====
-- The authorization state through any sequence of calls, timers and process exits
-- (internal/passfs/volume.go).
use passfs.Prelude.{
  subst, ℕ, zero, suc, ◌≤◌, ◌≡◌, refl, Bool, true, false, Option, none, some, List, [], ◌∷◌, arith,
  ◌==◌, nat_equality, list_equality, Bytes, if◌then◌else◌, All,
}
use passfs.Prelude.Int.{ℤ, pos, negsuc}
use passfs.Error.{Error, message, errno, eperm}
use passfs.Result.{Result, ok, err}
use passfs.Table.{Table, lookup}
use passfs.Process.{Machine}
use passfs.Token.{validate_session_token}
use passfs.Auth.State.{
  UnlockScope, other_scope, AuthKey, auth_key_equality, PromptRequest, Prompter, Keys, Session,
  Auth, keep_live, remove_expired, expire_cached_identity, expire_process_round, lock,
  configure_authorization, configure_prompter,
}
use passfs.Auth.Sessions.{
  edit_session, ask_session, end_found, exit_found, unlock_identity, add_edit_session,
  add_encrypt_session, end_edit_session, end_encrypt_session, monitor_edit_session,
  monitor_encrypt_session, drop_edit_session, drop_encrypt_session, is_owner,
}
use passfs.Auth.Expiry.{Covers, IsTimed, keep_live-ended}
use passfs.Auth.Timed.{same-IsTimed, expire-IsTimed, process_round-IsTimed, unlock-IsTimed}

-- One event: a critical section of a call of the volume (opening a session has two, and what runs between
-- them may be any events), a timer, a round of the process ticker, or a process exit. The
-- machine and the clocks are those of the event.
pub data Event (I : Type 0) : Type 0 where
  unlocks : Machine → ℕ → ℕ → Bytes → PromptRequest → Event I
  asks_session : Machine → ℕ → ℕ → Bytes → Bytes → ℕ → PromptRequest → Event I
  adds_edit : Bytes → Bytes → ℕ → I → Event I
  adds_encrypt : Bytes → ℕ → I → Event I
  ends_edit : Bytes → Bytes → ℕ → Event I
  ends_encrypt : Bytes → ℕ → Event I
  exits_edit : Bytes → Bytes → ℕ → Event I
  exits_encrypt : Bytes → ℕ → Event I
  timer_fires : ℕ → Event I
  ticks : Machine → ℕ → AuthKey → ℕ → ℕ → Event I
  locks : Event I
  configures : ℤ → ℤ → UnlockScope → Event I
  changes_prompter : Prompter I → Event I

module _ {I : Type 0} (keys : Keys I) where
  unfoldable pub step : Auth I → Event I → Auth I
  step s (unlocks m now later key request) = (unlock_identity keys m now later key request s).1
  step s (asks_session m now later key token pid request) =
      (ask_session keys m now later key token pid request s).1
  step s (adds_edit key token pid i) = (add_edit_session key token pid (ok i, s)).1
  step s (adds_encrypt token pid i) = (add_encrypt_session token pid (ok i, s)).1
  step s (ends_edit key token pid) = (end_edit_session key token pid s).1
  step s (ends_encrypt token pid) = (end_encrypt_session token pid s).1
  step s (exits_edit key token pid) = monitor_edit_session key token pid s
  step s (exits_encrypt token pid) = monitor_encrypt_session token pid s
  step s (timer_fires now) = expire_cached_identity now s
  step s (ticks m now key pid until) = expire_process_round m now key pid until s
  step s locks = lock s
  step s (configures max duration scope) = (configure_authorization max duration scope s).1
  step s (changes_prompter prompter) = configure_prompter prompter s

  unfoldable pub run : Auth I → List (Event I) → Auth I
  run s [] = s
  run s (e ∷ es) = run (step s e) es

  empty-IsTimed :
      (s : Auth I)
      → s.authorized ≡ []
      → s.unlock_timer ≡ none
      → s.cached_identity ≡ none
      → IsTimed s
  empty-IsTimed s a t c = record { positive = rw a tt; used = λ _. c; covered = rw (a, t) }

  add_edit-IsTimed :
      (key token : Bytes) (pid : ℕ) (r : Result I × Auth I)
      → IsTimed r.1
      → IsTimed (add_edit_session key token pid r).1
  unfolding add_edit_session
  add_edit-IsTimed key token pid (err e, s) h = h
  add_edit-IsTimed key token pid (ok i, s) h = same-IsTimed s _ (refl, refl, refl) h

  add_encrypt-IsTimed :
      (token : Bytes) (pid : ℕ) (r : Result I × Auth I)
      → IsTimed r.1
      → IsTimed (add_encrypt_session token pid r).1
  unfolding add_encrypt_session
  add_encrypt-IsTimed token pid (err e, s) h = h
  add_encrypt-IsTimed token pid (ok i, s) h = same-IsTimed s _ (refl, refl, refl) h

  ask-IsTimed :
      (m : Machine) (now later : ℕ) (key token : Bytes) (pid : ℕ) (request : PromptRequest)
      (s : Auth I)
      → IsTimed s
      → IsTimed (ask_session keys m now later key token pid request s).1
  unfolding ask_session
  ask-IsTimed m now later key token pid request s h = when (validate_session_token token) (pid == 0)
    where
      rest : Result I × Auth I
      rest = unlock_identity keys m now later key request s

      when :
          (o : Option Error) (b : Bool)
          → IsTimed (
              let r : Result I × Auth I = elim o [
                | some e ↦ (err e, s)
                | none ↦ if b then (err message, s) else rest
              ] in
              r.1)
      when (some e) b = h
      when none true = h
      when none false = unlock-IsTimed keys m now later key request s h

  end_found-IsTimed :
      (token : Bytes) (pid : ℕ) (s : Auth I) (drop : Session I → Auth I)
      (found : Option (Session I))
      → IsTimed s
      → ((x : Session I) → IsTimed (drop x))
      → IsTimed (end_found token pid s drop found).1
  unfolding end_found
  end_found-IsTimed token pid s drop found h k = valid (validate_session_token token) found
    where
      owned :
          (b : Bool) (x : Session I)
          → IsTimed
              (if◌then◌else◌ {A = Option Error × Auth I} b (none, drop x) (some (errno eperm), s)).1
      owned true x = k x
      owned false x = h

      valid :
          (o : Option Error) (l : Option (Session I))
          → IsTimed (
              let r : Option Error × Auth I = elim o [
                | some e ↦ (some e, s)
                | none ↦ elim l [
                  | none ↦ (none, s)
                  | some x ↦ if is_owner pid x then (none, drop x) else (some (errno eperm), s)
                ]
              ] in
              r.1)
      valid (some e) l = h
      valid none none = h
      valid none (some x) = owned (is_owner pid x) x

  exit_found-IsTimed :
      (pid : ℕ) (s : Auth I) (drop : Session I → Auth I) (found : Option (Session I))
      → IsTimed s
      → ((x : Session I) → IsTimed (drop x))
      → IsTimed (exit_found pid s drop found)
  unfolding exit_found
  exit_found-IsTimed pid s drop none h k = h
  exit_found-IsTimed pid s drop (some x) h k = when (x.owner_pid == pid)
    where
      when : (b : Bool) → IsTimed (if b then drop x else s)
      when true = k x
      when false = h

  drop_edit-IsTimed :
      (key token : Bytes) (s : Auth I)
      → IsTimed s
      → (x : Session I) → IsTimed (drop_edit_session key token x s)
  unfolding drop_edit_session
  drop_edit-IsTimed key token s h x = same-IsTimed s _ (refl, refl, refl) h

  drop_encrypt-IsTimed :
      (token : Bytes) (s : Auth I)
      → IsTimed s
      → (x : Session I) → IsTimed (drop_encrypt_session token x s)
  unfolding drop_encrypt_session
  drop_encrypt-IsTimed token s h x = same-IsTimed s _ (refl, refl, refl) h

  lock-IsTimed : (s : Auth I) → IsTimed (lock s)
  unfolding lock
  lock-IsTimed s = empty-IsTimed _ refl refl refl

  configure-IsTimed :
      (max duration : ℤ) (scope : UnlockScope) (s : Auth I)
      → IsTimed s
      → IsTimed (configure_authorization max duration scope s).1
  unfolding configure_authorization
  configure-IsTimed (negsuc n) duration scope s h = h
  configure-IsTimed (pos zero) duration scope s h = h
  configure-IsTimed (pos (suc n)) (negsuc d) scope s h = h
  configure-IsTimed (pos (suc n)) (pos d) (other_scope name) s h = h
  configure-IsTimed (pos (suc n)) (pos d) _ s h = empty-IsTimed _ refl refl refl

  prompter-IsTimed : (p : Prompter I) (s : Auth I) → IsTimed (configure_prompter p s)
  unfolding configure_prompter
  prompter-IsTimed p s = empty-IsTimed _ refl refl refl

  step-IsTimed : (s : Auth I) (e : Event I) → IsTimed s → IsTimed (step s e)
  unfolding step end_edit_session end_encrypt_session monitor_edit_session monitor_encrypt_session
  step-IsTimed s (unlocks m now later key request) h =
      unlock-IsTimed keys m now later key request s h
  step-IsTimed s (asks_session m now later key token pid request) h =
      ask-IsTimed m now later key token pid request s h
  step-IsTimed s (adds_edit key token pid i) h = add_edit-IsTimed key token pid (ok i, s) h
  step-IsTimed s (adds_encrypt token pid i) h = add_encrypt-IsTimed token pid (ok i, s) h
  step-IsTimed s (ends_edit key token pid) h =
      end_found-IsTimed token pid s (λ x. drop_edit_session key token x s)
        (edit_session key token s) h (drop_edit-IsTimed key token s h)
  step-IsTimed s (ends_encrypt token pid) h =
      end_found-IsTimed token pid s (λ x. drop_encrypt_session token x s)
        (lookup token s.encrypt_sessions) h (drop_encrypt-IsTimed token s h)
  step-IsTimed s (exits_edit key token pid) h =
      exit_found-IsTimed pid s (λ x. drop_edit_session key token x s) (edit_session key token s) h
        (drop_edit-IsTimed key token s h)
  step-IsTimed s (exits_encrypt token pid) h =
      exit_found-IsTimed pid s (λ x. drop_encrypt_session token x s)
        (lookup token s.encrypt_sessions) h (drop_encrypt-IsTimed token s h)
  step-IsTimed s (timer_fires now) h = expire-IsTimed now s h
  step-IsTimed s (ticks m now key pid until) h = process_round-IsTimed m now key pid until s h
  step-IsTimed s locks h = lock-IsTimed s
  step-IsTimed s (configures max duration scope) h = configure-IsTimed max duration scope s h
  step-IsTimed s (changes_prompter p) h = prompter-IsTimed p s

  -- From a state in which an identity is cached only beside a grant and the timer is set for the
  -- end of every grant or later, every sequence of calls, timers, ticks of the process watchers and
  -- process exits leads to such a state.
  pub run-IsTimed : (s : Auth I) (es : List (Event I)) → IsTimed s → IsTimed (run s es)
  unfolding run
  run-IsTimed s [] h = h
  run-IsTimed s (e ∷ es) h = run-IsTimed (step s e) es (step-IsTimed s e h)

All-ended :
    (t now : ℕ) (m : Table AuthKey ℕ) → t ≤ now → All (λ g. g.1 ≤ t) m → All (λ g. g.1 ≤ now) m
All-ended t now [] le h = tt
All-ended t now (g ∷ m) le h = (omega (arith, h.0), All-ended t now m le h.1)

module _ {I : Type 0} where
  covered_by :
      (s : Auth I) (t : ℕ) → IsTimed s → s.unlock_timer ≡ some t → All (λ g. g.1 ≤ t) s.authorized
  covered_by s t h e = subst (λ o. Covers o s.authorized) e h.covered

  -- While the state is timed, a cached identity has a timer that will drop it.
  pub cached_has_timer :
      (s : Auth I) (i : I)
      → IsTimed s
      → s.cached_identity ≡ some i
      → (t : ℕ) × (s.unlock_timer ≡ some t)
  cached_has_timer s i h c = cases s.unlock_timer refl h.covered
    where
      cases :
          (o : Option ℕ)
          → s.unlock_timer ≡ o
          → Covers o s.authorized
          → (t : ℕ) × (s.unlock_timer ≡ some t)
      cases (some t) e k = (t, e)
      cases none e k = absurd (cc (c, h.used k))

  -- In such a state, when the timer fires on time or late, the cached identity and every grant are
  -- gone, and no timer runs.
  pub timer_forgets :
      (s : Auth I) (t now : ℕ)
      → IsTimed s
      → s.unlock_timer ≡ some t
      → t ≤ now
      → ((expire_cached_identity now s).cached_identity ≡ none)
        × ((expire_cached_identity now s).authorized ≡ [])
        × ((expire_cached_identity now s).unlock_timer ≡ none)
  unfolding expire_cached_identity remove_expired
  timer_forgets s t now h e le =
      let ended : keep_live now s.authorized ≡ [] =
        keep_live-ended now s.authorized (All-ended t now s.authorized le (covered_by s t h e)) in
      ground (arith, ended)
