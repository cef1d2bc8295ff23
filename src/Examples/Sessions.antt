-- ===== src/Examples/Sessions.antt =====
-- Authorization, session tokens and processes: the theorems of Auth, Token and Process at a small
-- volume.
use passfs.Prelude.{
  ◌⊎◌, List, list_beq, ◌≢◌, ◌-◌, ℕ, ◌<◌, ◌≡◌, refl, true, some, none, [], ◌∷◌, codes, arith, Bytes,
}
use passfs.Error.{message}
use passfs.Result.{ok, err}
use passfs.Table.{lookup, insert}
use passfs.Process.{
  Machine, process_is_or_descends_from, nth_parent, process_is_or_descends_from_lem,
}
use passfs.Token.{
  begin, session_value, parse_session_command, validate_session_token, parse-session_value,
}
use passfs.Auth.{
  grant, latest, UnlockScope, once, process, vault, other_scope, configure_prompter,
  schedule_identity_expiry, auth_key_beq, file, file_key, PromptRequest, Prompter,
  identity_prompter, Keys, Session, Auth, lock, request_identity, expire_cached_identity,
  unlock_identity, active_encrypt_identity, active_edit_identity, live_session, remove_expired,
  keep_live, authorization_key, end_edit_session, edit_session,
}
use passfs.Auth.Grants.{IsCovered, unlock_identity-IsCovered}
use passfs.Auth.Expiry.{IsTimed}
use passfs.Auth.Runs.{
  Event, changes_prompter, step, unlocks, timer_fires, locks, run, run-IsTimed, timer_forgets,
}
use passfs.Auth.Owners.{end_edit_owner}
use passfs.Auth.Locked.{lock_prompts}

-- Identities are numbers, and the volume's is 7.
abbrev keys : Keys ℕ
keys = record { recipient_of = λ i. i ∷ []; recipient = 7 ∷ []; parse_private = λ b. err message }

-- Process 3 is a child of 2, and 2 of 1.
abbrev machine : Machine
machine = record { signalled = λ pid. true; parent = λ pid. pid - 1 }

-- The process numbers of the descendant and the ancestor below.
abbrev reader : ℕ
reader = 3

abbrev shell : ℕ
shell = 1

abbrev refusing : Prompter ℕ
refusing = identity_prompter (λ r. err message)

abbrev answering : Prompter ℕ
answering = identity_prompter (λ r. ok (some 7))

abbrev request : PromptRequest
request = record { path = codes "files/a"; operation = codes "read"; pid = 3 }

abbrev token : Bytes
token = codes "00112233445566778899aabbccddeeff"

-- A volume that nobody has unlocked.
abbrev fresh : Prompter ℕ → Auth ℕ
fresh prompter = record {
  prompter = prompter;
  max_file_size = 100;
  unlock_for = 50;
  scope = file;
  cached_identity = none;
  authorized = [];
  edit_sessions = [];
  encrypt_sessions = [];
  unlock_timer = none;
  closed = [];
  next_channel = 1;
}

-- A volume with a grant for one file, which ends at 50.
abbrev granted_state : Auth ℕ
granted_state = record (fresh refusing) {
  cached_identity = some 7;
  authorized = (file_key (codes "files/a"), 50) ∷ [];
  unlock_timer = some 50;
}

abbrev session : Session ℕ
session = record { identity = 7; owner_pid = 2; channel = 0 }

-- One with an edit session of process 2.
abbrev edited : Auth ℕ
edited = record (fresh refusing) { edit_sessions = (codes "files/a", (token, session) ∷ []) ∷ [] }

unlock_identity-IsCovered_example : IsCovered machine 10 (codes "files/a") 3 7 granted_state
unfolding unlock_identity request_identity active_encrypt_identity active_edit_identity live_session
    remove_expired keep_live authorization_key auth_key_beq lookup list_beq
unlock_identity-IsCovered_example =
    unlock_identity-IsCovered keys machine 10 12 (codes "files/a") request granted_state message 7
      refl refl

run-IsTimed_example : IsTimed (
    run keys
      (fresh answering)
      (unlocks machine 10 12 (codes "files/a") request ∷ timer_fires 70 ∷ locks ∷ []))
run-IsTimed_example =
    run-IsTimed keys (fresh answering)
      (unlocks machine 10 12 (codes "files/a") request ∷ timer_fires 70 ∷ locks ∷ [])
      (record { positive = tt; used = λ e. refl; covered = refl })

-- A request for another file, which the prompter answers, after the lock.
abbrev later_events : List (Event ℕ)
later_events =
    changes_prompter answering
    ∷ unlocks machine 10 12 (codes "files/aa") request
    ∷ timer_fires 20
    ∷ []

other_file :
    (scope : UnlockScope)
    → authorization_key scope (codes "files/aa") 3 ≢ some (file_key (codes "files/a"))
unfolding authorization_key
other_file once = λ p. cc p
other_file file = λ p. cc p
other_file process = λ p. cc p
other_file vault = λ p. cc p
other_file (other_scope name) = λ p. cc p

lock_prompts_example :
    (unlock_identity keys machine 30 32
      (codes "files/a")
      request
      (run keys (lock granted_state) later_events)).0
    ≡ request_identity keys (run keys (lock granted_state) later_events).prompter request
unfolding run step lock configure_prompter authorization_key expire_cached_identity unlock_identity
    active_encrypt_identity active_edit_identity remove_expired schedule_identity_expiry keep_live
    live_session lookup request_identity list_beq grant latest insert
lock_prompts_example =
    lock_prompts keys (file_key (codes "files/a")) machine 30 32 (codes "files/a") request
      granted_state later_events (tt, (other_file, (tt, tt))) refl

end_edit_owner_example :
    (edit_session (codes "files/a") token (end_edit_session (codes "files/a") token 2 edited).1
      ≡ some session)
    ⊎ ((codes "files/a" ≡ codes "files/a")
        × (token ≡ token)
        × (◌≡◌ {A = ℕ} 2 2)
        × (◌≢◌ {A = ℕ} 2 0)
        × ((end_edit_session (codes "files/a") token 2 edited).0 ≡ none)
        × (edit_session
              (codes "files/a")
              token
              (end_edit_session (codes "files/a") token 2 edited).1
            ≡ none)
        × ((end_edit_session (codes "files/a") token 2 edited).1.closed ≡ 0 ∷ []))
unfolding lookup list_beq
end_edit_owner_example =
    end_edit_owner (codes "files/a") token 2 edited (codes "files/a") token session refl

process_is_or_descends_from_lem_example :
    (n : ℕ) × (n < 64) × (nth_parent machine n reader ≡ shell) × (reader ≢ 0) × (shell ≢ 0)
unfolding process_is_or_descends_from
process_is_or_descends_from_lem_example = process_is_or_descends_from_lem machine reader shell refl

parse-session_value_example : parse_session_command (session_value begin token) ≡ ok (begin, token)
unfolding validate_session_token
parse-session_value_example = parse-session_value begin token refl

timer_forgets_example :
    ((expire_cached_identity 50 granted_state).cached_identity ≡ none)
    × ((expire_cached_identity 50 granted_state).authorized ≡ [])
    × ((expire_cached_identity 50 granted_state).unlock_timer ≡ none)
timer_forgets_example =
    timer_forgets granted_state 50 50
      (record { positive = (omega arith, tt); used = λ e. cc e; covered = (omega arith, tt) }) refl
      (omega arith)
