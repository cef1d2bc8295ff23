-- ===== src/Auth/Sessions.antt =====
-- Edit and encrypt sessions, and the way an identity is found or asked for
-- (internal/passfs/volume.go: unlockIdentityForRequest and the session functions).
use passfs.Prelude.{
  ℕ, ◌+◌, Bool, not, ◌||◌, Option, none, some, List, [], ◌∷◌, ◌++◌, ◌==◌, nat_equality,
  list_equality, Bytes, codes, ltb, if◌then◌else◌, is_empty,
}
use passfs.Error.{Error, message, errno, eperm}
use passfs.Result.{Result, ok, err}
use passfs.Table.{Table, lookup, insert, delete}
use passfs.Process.{Machine, process_alive, process_is_or_descends_from}
use passfs.Token.{validate_session_token}
use passfs.Auth.State.{
  AuthKey, auth_key_equality, PromptRequest, Keys, Session, Auth, authorization_key,
  request_identity, remove_expired, grant,
}

-- What one pass over a session map finds: the identity of the first session that is accepted,
-- the sessions that stay, and the channels closed on the way.
pub record Found (I : Type 0) : Type 0 where
  pub identity : Option I
  pub kept : Table Bytes (Session I)
  pub closed : List ℕ

abbrev pub encrypt_request : ℕ → PromptRequest
encrypt_request owner_pid = record {
  path = codes "multiple files";
  operation = codes "encrypt";
  pid = owner_pid;
}

module _ {I : Type 0} where
  -- The loops of activeEncryptIdentityLocked and activeEditIdentityLocked: the session of a dead
  -- process is closed and dropped, and the first one accepted ends the loop.
  unfoldable pub live_session : Machine → (Session I → Bool) → Table Bytes (Session I) → Found I
  live_session m accepts [] = record { identity = none; kept = []; closed = [] }
  live_session m accepts ((token, session) ∷ rest) =
      let later = live_session m accepts rest in
      if not (process_alive m session.owner_pid)
      then record later { closed = session.channel ∷ later.closed }
      else if accepts session
      then record { identity = some session.identity; kept = (token, session) ∷ rest; closed = [] }
      else record later { kept = (token, session) ∷ later.kept }

  abbrev pub owned_by : ℕ → Session I → Bool
  owned_by pid session = session.owner_pid == pid

  abbrev pub serves : Machine → ℕ → Session I → Bool
  serves m caller session = caller == 0 || process_is_or_descends_from m caller session.owner_pid

  unfoldable pub active_encrypt_identity : Machine → ℕ → Auth I → Option I × Auth I
  active_encrypt_identity m owner_pid s =
      if owner_pid == 0
      then (none, s)
      else let found = live_session m (owned_by owner_pid) s.encrypt_sessions in
        (
          found.identity,
          record s { encrypt_sessions = found.kept; closed = found.closed ++ s.closed },
        )

  -- The sessions of one file, written back; a file with none has no entry.
  unfoldable pub put_edit_sessions :
      Bytes
      → Table Bytes (Session I)
      → Table Bytes (Table Bytes (Session I))
      → Table Bytes (Table Bytes (Session I))
  put_edit_sessions key sessions m =
      if is_empty sessions then delete key m else insert key sessions m

  abbrev pub sessions_of : Option (Table Bytes (Session I)) → Table Bytes (Session I)
  sessions_of none = []
  sessions_of (some sessions) = sessions

  unfoldable pub active_edit_identity : Machine → Bytes → ℕ → Auth I → Option I × Auth I
  unfolding put_edit_sessions
  active_edit_identity m cache_key caller s =
      let found =
        live_session m (serves m caller) (sessions_of (lookup cache_key s.edit_sessions)) in
      (
        found.identity,
        record s {
          edit_sessions = put_edit_sessions cache_key found.kept s.edit_sessions;
          closed = found.closed ++ s.closed;
        },
      )

  -- The identity that a live grant gives.
  abbrev pub granted : ℕ → Option I → Option ℕ → Option I
  granted now (some i) (some until) = if ltb now until then some i else none
  granted now _ _ = none

  abbrev pub record_answer : ℕ → AuthKey → Result I → Auth I → Result I × Auth I
  record_answer now key (err e) s = (err e, s)
  record_answer now key (ok i) s = (ok i, grant now key i s)

  abbrev pub use_grant : ℕ → AuthKey → Result I → Option I → Auth I → Result I × Auth I
  use_grant now key answer (some i) s = (ok i, s)
  use_grant now key answer none s = record_answer now key answer s

  -- With a key and a positive duration the grants are looked at first; otherwise the prompter's
  -- answer is given on and nothing is recorded.
  abbrev pub unlock_by_key : ℕ → ℕ → Result I → Option AuthKey → Auth I → Result I × Auth I
  unlock_by_key now later answer none s = (answer, s)
  unlock_by_key now later answer (some key) s =
      if s.unlock_for == 0
      then (answer, s)
      else let t = remove_expired now s in
        use_grant later key answer (granted now t.cached_identity (lookup key t.authorized)) t

  abbrev pub or_edit :
      Machine → ℕ → ℕ → Result I → Bytes → ℕ → Option I × Auth I → Result I × Auth I
  or_edit m now later answer cache_key pid (some i, s) = (ok i, s)
  or_edit m now later answer cache_key pid (none, s) =
      unlock_by_key now later answer (authorization_key s.scope cache_key pid) s

  abbrev pub or_encrypt :
      Machine → ℕ → ℕ → Result I → Bytes → ℕ → Option I × Auth I → Result I × Auth I
  or_encrypt m now later answer cache_key pid (some i, s) = (ok i, s)
  or_encrypt m now later answer cache_key pid (none, s) =
      or_edit m now later answer cache_key pid (active_edit_identity m cache_key pid s)

  -- unlockIdentityForRequest. `now` is the clock before the prompt and `later` the clock after
  -- it. The prompter is a function, so that its answer, which the code asks for only where it
  -- needs one, is passed down.
  unfoldable pub unlock_identity :
      Keys I → Machine → ℕ → ℕ → Bytes → PromptRequest → Auth I → Result I × Auth I
  unlock_identity keys m now later cache_key request s =
      or_encrypt m now later (request_identity keys s.prompter request) cache_key request.pid
        (active_encrypt_identity m request.pid s)

  abbrev pub new_session : ℕ → I → Auth I → Session I
  new_session owner_pid identity s = record {
    identity = identity;
    owner_pid = owner_pid;
    channel = s.next_channel;
  }

  unfoldable pub add_edit_session : Bytes → Bytes → ℕ → Result I × Auth I → Option Error × Auth I
  add_edit_session cache_key token owner_pid (err e, s) = (some e, s)
  add_edit_session cache_key token owner_pid (ok i, s) =
      let sessions =
        insert token (new_session owner_pid i s) (sessions_of (lookup cache_key s.edit_sessions)) in
      (
        none,
        record s {
          edit_sessions = insert cache_key sessions s.edit_sessions;
          next_channel = s.next_channel + 1;
        },
      )

  -- The first part of both session openers: the checks, and the request for an identity, which is the
  -- first critical section.
  unfoldable pub ask_session :
      Keys I → Machine → ℕ → ℕ → Bytes → Bytes → ℕ → PromptRequest → Auth I → Result I × Auth I
  unfolding unlock_identity
  ask_session keys m now later cache_key token owner_pid request s =
      elim (validate_session_token token) [
        | some e ↦ (err e, s)
        | none ↦
            if owner_pid == 0
            then (err message, s)
            else unlock_identity keys m now later cache_key request s
      ]

  -- What other calls make of the state before the second critical section, which follows an identity.
  abbrev pub interrupted : (Auth I → Auth I) → Result I × Auth I → Result I × Auth I
  interrupted between (err e, s) = (err e, s)
  interrupted between (ok i, s) = (ok i, between s)

  unfoldable pub begin_edit_session :
      Keys I
      → Machine
      → ℕ
      → ℕ
      → Bytes
      → Bytes
      → ℕ
      → PromptRequest
      → (Auth I → Auth I)
      → Auth I
      → Option Error × Auth I
  unfolding add_edit_session ask_session
  begin_edit_session keys m now later cache_key token owner_pid request between s =
      add_edit_session cache_key token owner_pid
        (interrupted between (ask_session keys m now later cache_key token owner_pid request s))

  unfoldable pub add_encrypt_session : Bytes → ℕ → Result I × Auth I → Option Error × Auth I
  add_encrypt_session token owner_pid (err e, s) = (some e, s)
  add_encrypt_session token owner_pid (ok i, s) = (
    none,
    record s {
      encrypt_sessions = insert token (new_session owner_pid i s) s.encrypt_sessions;
      next_channel = s.next_channel + 1;
    },
  )

  -- The request has no file's key, so that nothing is cached for it.
  unfoldable pub begin_encrypt_session :
      Keys I → Machine → ℕ → ℕ → Bytes → ℕ → (Auth I → Auth I) → Auth I → Option Error × Auth I
  unfolding add_encrypt_session ask_session
  begin_encrypt_session keys m now later token owner_pid between s =
      add_encrypt_session token owner_pid (
        interrupted between
          (ask_session keys m now later [] token owner_pid (encrypt_request owner_pid) s))

  unfoldable pub drop_edit_session : Bytes → Bytes → Session I → Auth I → Auth I
  drop_edit_session cache_key token session s = record s {
    edit_sessions =
        put_edit_sessions cache_key (delete token (sessions_of (lookup cache_key s.edit_sessions)))
          s.edit_sessions;
    closed = session.channel ∷ s.closed;
  }

  unfoldable pub drop_encrypt_session : Bytes → Session I → Auth I → Auth I
  drop_encrypt_session token session s = record s {
    encrypt_sessions = delete token s.encrypt_sessions;
    closed = session.channel ∷ s.closed;
  }

  abbrev pub is_owner : ℕ → Session I → Bool
  is_owner owner_pid session = not (owner_pid == 0 || not (session.owner_pid == owner_pid))

  -- Ending a session by its token: an unknown token is no error, and only the owner may end it.
  unfoldable pub end_found :
      Bytes → ℕ → Auth I → (Session I → Auth I) → Option (Session I) → Option Error × Auth I
  end_found token owner_pid s drop found = elim (validate_session_token token) [
    | some e ↦ (some e, s)
    | none ↦ elim found [
      | none ↦ (none, s)
      | some session ↦
          if is_owner owner_pid session then (none, drop session) else (some (errno eperm), s)
    ]
  ]

  -- The end of a monitor whose process has exited.
  unfoldable pub exit_found : ℕ → Auth I → (Session I → Auth I) → Option (Session I) → Auth I
  exit_found owner_pid s drop found = elim found [
    | none ↦ s
    | some session ↦ if session.owner_pid == owner_pid then drop session else s
  ]

  abbrev pub edit_session : Bytes → Bytes → Auth I → Option (Session I)
  edit_session cache_key token s = lookup token (sessions_of (lookup cache_key s.edit_sessions))

  unfoldable pub end_edit_session : Bytes → Bytes → ℕ → Auth I → Option Error × Auth I
  unfolding drop_edit_session end_found
  end_edit_session cache_key token owner_pid s =
      end_found token owner_pid s (λ x. drop_edit_session cache_key token x s)
        (edit_session cache_key token s)

  unfoldable pub end_encrypt_session : Bytes → ℕ → Auth I → Option Error × Auth I
  unfolding drop_encrypt_session end_found
  end_encrypt_session token owner_pid s =
      end_found token owner_pid s (λ x. drop_encrypt_session token x s)
        (lookup token s.encrypt_sessions)

  -- monitorEditSession and monitorEncryptSession once waitForProcessExit has seen the exit.
  unfoldable pub monitor_edit_session : Bytes → Bytes → ℕ → Auth I → Auth I
  unfolding drop_edit_session exit_found
  monitor_edit_session cache_key token owner_pid s =
      exit_found owner_pid s (λ x. drop_edit_session cache_key token x s)
        (edit_session cache_key token s)

  unfoldable pub monitor_encrypt_session : Bytes → ℕ → Auth I → Auth I
  unfolding drop_encrypt_session exit_found
  monitor_encrypt_session token owner_pid s =
      exit_found owner_pid s (λ x. drop_encrypt_session token x s) (lookup token s.encrypt_sessions)
