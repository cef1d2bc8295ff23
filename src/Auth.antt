-- ===== src/Auth.antt =====
-- Who may use the volume's private identity without a new prompt (internal/passfs/volume.go: the
-- state under unlockMu). An identity may come from a running encrypt or edit session, from a
-- cached grant, or from the prompter.
mod State
mod Sessions
pub mod Grants
pub mod Expiry
pub mod Timed
pub mod Runs
pub mod Owners
pub mod Locked
unfoldable pub use State.{
  request_identity, authorization_key, keep_live, remove_expired, latest, schedule_identity_expiry,
  expire_cached_identity, expire_process_round, grant, lock, configure_authorization,
  configure_prompter, validate_scope, auth_key_beq,
}
pub use Sessions.{Found, edit_session}
pub use State.{
  UnlockScope, once, file, process, vault, other_scope, AuthKey, file_key, process_key, vault_key,
  auth_key_equality, PromptRequest, Prompter, identity_prompter, passphrase_prompter, Keys, Session,
  Auth,
}
unfoldable pub use Sessions.{
  live_session, active_encrypt_identity, active_edit_identity, put_edit_sessions, unlock_identity,
  ask_session, begin_edit_session, end_edit_session, begin_encrypt_session, end_encrypt_session,
  monitor_edit_session, monitor_encrypt_session,
}
