-- ===== src/Auth/State.antt =====
-- The authorization state, its cache of grants and their expiry (internal/passfs/volume.go).
-- Times are nanoseconds from Go's zero time, so that 0 is the time of which IsZero holds.
use passfs.Prelude.{
  suc, ℕ, ◌+◌, ◌≡◌, Bool, true, false, not, Option, none, some, List, [], ◌∷◌, ◌++◌, arith,
  Equality, ◌==◌, nat_equality, list_equality, Bytes, ltb, if◌then◌else◌, is_empty, ◌↔◌,
}
use passfs.Prelude.Int.{ℤ, pos}
use passfs.Prelude.Eq.{list_beq_iff}
use passfs.Error.{Error, message, wrap}
use passfs.Result.{Result, ok, err}
use passfs.Table.{Table, lookup, insert, delete}
use passfs.Process.{Machine, process_alive}

pub data UnlockScope : Type 0 where
  once file process vault : UnlockScope
  other_scope : Bytes → UnlockScope

-- UnlockScope.Validate
unfoldable pub validate_scope : UnlockScope → Option Error
validate_scope (other_scope name) = some message
validate_scope _ = none

-- The texts "file:" + key, "process:" + pid and "vault"; the empty text is no key.
pub data AuthKey : Type 0 where
  file_key : Bytes → AuthKey
  process_key : ℕ → AuthKey
  vault_key : AuthKey

unfoldable pub auth_key_beq : AuthKey → AuthKey → Bool
auth_key_beq (file_key a) (file_key b) = a == b
auth_key_beq (process_key a) (process_key b) = a == b
auth_key_beq vault_key vault_key = true
auth_key_beq _ _ = false

pub auth_key_beq_iff : (a b : AuthKey) → (auth_key_beq a b ≡ true) ↔ (a ≡ b)
unfolding auth_key_beq
auth_key_beq_iff (file_key a) (file_key b) = ground (arith, list_beq_iff a b)
auth_key_beq_iff (process_key a) (process_key b) = ground arith
auth_key_beq_iff vault_key vault_key = ground arith
auth_key_beq_iff (file_key a) (process_key b) = ground arith
auth_key_beq_iff (file_key a) vault_key = ground arith
auth_key_beq_iff (process_key a) (file_key b) = ground arith
auth_key_beq_iff (process_key a) vault_key = ground arith
auth_key_beq_iff vault_key (file_key b) = ground arith
auth_key_beq_iff vault_key (process_key b) = ground arith

instance abbrev pub auth_key_equality : Equality AuthKey
auth_key_equality = record { beq = auth_key_beq; beq_iff = auth_key_beq_iff }

pub record PromptRequest : Type 0 where
  pub path : Bytes
  pub operation : Bytes
  pub pid : ℕ

-- An IdentityPrompter answers with an identity, which may be nil; of any other prompter the code
-- unlocks the private configuration, `unlock`, and parses it.
pub data Prompter (I : Type 0) : Type 0 where
  identity_prompter : (PromptRequest → Result (Option I)) → Prompter I
  passphrase_prompter : (PromptRequest → Result Bytes) → Prompter I

-- What the volume knows of age identities: the recipient text of one, the volume's own recipient,
-- and parsePrivateIdentity.
pub record Keys (I : Type 0) : Type 0 where
  pub recipient_of : I → Bytes
  pub recipient : Bytes
  pub parse_private : Bytes → Result I

-- `channel` numbers the `done` channel of the session.
pub record Session (I : Type 0) : Type 0 where
  pub identity : I
  pub owner_pid : ℕ
  pub channel : ℕ

-- `unlock_timer` is the time at which the timer fires, `closed` lists the channels that have been
-- closed, the last one first, and `next_channel` numbers the next one that is made.
pub record Auth (I : Type 0) : Type 0 where
  pub prompter : Prompter I
  pub max_file_size : ℕ
  pub unlock_for : ℕ
  pub scope : UnlockScope
  pub cached_identity : Option I
  pub authorized : Table AuthKey ℕ
  pub edit_sessions : Table Bytes (Table Bytes (Session I))
  pub encrypt_sessions : Table Bytes (Session I)
  pub unlock_timer : Option ℕ
  pub closed : List ℕ
  pub next_channel : ℕ

unfoldable pub authorization_key : UnlockScope → Bytes → ℕ → Option AuthKey
authorization_key scope [] owner_pid = none
authorization_key file (c ∷ cs) owner_pid = some (file_key (c ∷ cs))
authorization_key process (c ∷ cs) owner_pid =
    if owner_pid == 0 then none else some (process_key owner_pid)
authorization_key vault (c ∷ cs) owner_pid = some vault_key
authorization_key _ (c ∷ cs) owner_pid = none

-- The loop of removeExpiredAuthorizationsLocked: the grants that end after `now` stay.
unfoldable pub keep_live : ℕ → Table AuthKey ℕ → Table AuthKey ℕ
keep_live now [] = []
keep_live now ((k, until) ∷ m) =
    let rest = keep_live now m in if ltb now until then (k, until) ∷ rest else rest

-- The latest end of a grant, 0 if there is none.
unfoldable pub latest : Table AuthKey ℕ → ℕ
latest [] = 0
latest ((k, until) ∷ m) = let rest = latest m in if ltb rest until then until else rest

abbrev pub is_same_end : Option ℕ → ℕ → Bool
is_same_end none until = false
is_same_end (some t) until = t == until

module _ {I : Type 0} where
  abbrev pub check_identity : Keys I → Option I → Result I
  check_identity keys none = err message
  check_identity keys (some i) = if keys.recipient_of i == keys.recipient then ok i else err message

  abbrev pub check_answer : Keys I → Result (Option I) → Result I
  check_answer keys (err e) = err e
  check_answer keys (ok i) = check_identity keys i

  abbrev pub check_parsed : Keys I → Result I → Result I
  check_parsed keys (err e) = err (wrap e)
  check_parsed keys (ok i) = check_identity keys (some i)

  abbrev pub check_private : Keys I → Result Bytes → Result I
  check_private keys (err e) = err e
  check_private keys (ok contents) = check_parsed keys (keys.parse_private contents)

  unfoldable pub request_identity : Keys I → Prompter I → PromptRequest → Result I
  request_identity keys (identity_prompter ask) request = check_answer keys (ask request)
  request_identity keys (passphrase_prompter unlock) request = check_private keys (unlock request)

  abbrev pub drop_if_unused : Auth I → Auth I
  drop_if_unused s = if is_empty s.authorized then record s { cached_identity = none } else s

  unfoldable pub remove_expired : ℕ → Auth I → Auth I
  remove_expired now s = drop_if_unused (record s { authorized = keep_live now s.authorized })

  unfoldable pub schedule_identity_expiry : ℕ → Auth I → Auth I
  schedule_identity_expiry now s =
      let last = latest s.authorized in
      if last == 0
      then record s { unlock_timer = none; cached_identity = none }
      else record s { unlock_timer = some (if ltb now last then last else now) }

  -- The timer's function.
  unfoldable pub expire_cached_identity : ℕ → Auth I → Auth I
  expire_cached_identity now s =
      let t = remove_expired now s in
      if is_empty t.authorized
      then record t { unlock_timer = none }
      else schedule_identity_expiry now t

  -- One round of the ticker of expireProcessAuthorization.
  unfoldable pub expire_process_round : Machine → ℕ → AuthKey → ℕ → ℕ → Auth I → Auth I
  expire_process_round m now key owner_pid until s =
      if not (is_same_end (lookup key s.authorized) until)
      then s
      else if process_alive m owner_pid
      then s
      else schedule_identity_expiry now
          (drop_if_unused (record s { authorized = delete key s.authorized }))

  -- What unlockIdentityForRequest records after a prompt; `now` is the clock after the prompt.
  unfoldable pub grant : ℕ → AuthKey → I → Auth I → Auth I
  grant now key identity s = schedule_identity_expiry now (record s {
    cached_identity = some identity;
    authorized = insert key (now + s.unlock_for) s.authorized;
  })

  channels_of : Table Bytes (Session I) → List ℕ
  channels_of [] = []
  channels_of ((token, session) ∷ m) = session.channel ∷ channels_of m

  all_channels : Table Bytes (Table Bytes (Session I)) → List ℕ
  all_channels [] = []
  all_channels ((key, sessions) ∷ m) = channels_of sessions ++ all_channels m

  -- Volume.Lock
  unfoldable pub lock : Auth I → Auth I
  unfolding channels_of all_channels
  lock s = record s {
    unlock_timer = none;
    cached_identity = none;
    authorized = [];
    edit_sessions = [];
    encrypt_sessions = [];
    closed = channels_of s.encrypt_sessions ++ (all_channels s.edit_sessions ++ s.closed);
  }

  unfoldable pub set_authorization : ℕ → ℕ → UnlockScope → Auth I → Auth I
  set_authorization max unlock_for scope s = record s {
    unlock_timer = none;
    max_file_size = max;
    unlock_for = unlock_for;
    scope = scope;
    cached_identity = none;
    authorized = [];
  }

  -- ConfigureAuthorization: the size limit is positive and the duration not negative.
  unfoldable pub configure_authorization : ℤ → ℤ → UnlockScope → Auth I → Option Error × Auth I
  unfolding validate_scope set_authorization
  configure_authorization (pos (suc max)) (pos duration) scope s = elim (validate_scope scope) [
    | some e ↦ (some e, s)
    | none ↦ (none, set_authorization (suc max) duration scope s)
  ]
  configure_authorization max duration scope s = (some message, s)

  -- ConfigurePrompter with a prompter that is not nil.
  unfoldable pub configure_prompter : Prompter I → Auth I → Auth I
  configure_prompter prompter s = record s {
    unlock_timer = none;
    cached_identity = none;
    authorized = [];
    prompter = prompter;
  }
