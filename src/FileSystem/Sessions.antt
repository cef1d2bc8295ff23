-- ===== src/FileSystem/Sessions.antt =====
-- The marks that begin and end a session (internal/passfs/filesystem.go: SetExtendedAttribute,
-- setEditSession, setEncryptSession; edit_session.go and encrypt_session.go: the values that are set).
use passfs.Prelude.{
  ◌≡◌, ◌≢◌, ◌⊎◌, ap, ◌∙◌, ℕ, none, Bytes, [], nat_equality, list_equality, if◌then◌else◌, ne→==,
}
use passfs.Error.{Error, Errno, eperm}
use passfs.Result.{Result, ok}
use passfs.FileMeta.{type_file}
use passfs.Objects.{storage_path}
use passfs.Token.{
  Operation, validate_session_token, parse_session_command, session_value, parse-session_value,
}
use passfs.FileSystem.{Backend, NodeEntry, looked_up, given, look_up}
use passfs.FileSystem.Changes.{with_errno}
use passfs.FileSystem.Settings.{
  edit_session_marker, edit_command, encrypt_command, commanded, set_edit_session,
  set_extended_attribute, set_found_mark, set_mark,
}

module _ {V : Type 0} (b : Backend V) where
  -- Setting the edit mark of a file to the value of an operation and a valid token, from a known process:
  -- the session of the file's storage path begins or ends with that token and that process as its owner.
  pub edit_session_marker_lem :
      (now pid : ℕ) (relative token : Bytes) (operation : Operation) (v : V) (e : NodeEntry)
      → look_up b now relative v ≡ given e
      → e.type ≡ type_file
      → validate_session_token token ≡ none
      → pid ≢ 0
      → set_extended_attribute b now pid relative edit_session_marker
          (session_value operation token)
          v
        ≡ with_errno
            (edit_command b pid (storage_path relative) (looked_up b relative v) operation token)
  unfolding set_extended_attribute set_edit_session
  edit_session_marker_lem now pid relative token operation v e l t k n =
      ap
        (set_found_mark b pid relative edit_session_marker (session_value operation token)
          (looked_up b relative v))
        l
      ∙ ap
          (set_mark b pid relative edit_session_marker (session_value operation token)
            (looked_up b relative v))
          t
      ∙ ap
          (commanded b pid (looked_up b relative v)
            (edit_command b pid (storage_path relative) (looked_up b relative v)))
          (parse-session_value operation token k)
      ∙ ap
          (λ c.
            if c
            then (eperm, (looked_up b relative v))
            else with_errno (
                edit_command b pid (storage_path relative) (looked_up b relative v) operation
                  token))
          (ne→== pid 0 n)

  -- A session's operation that a mark may have run.
  abbrev pub RunsSession : ℕ → Bytes → Bytes → V → Errno × V → Type 0
  RunsSession pid relative value v r =
      (operation : Operation) × (token : Bytes) × (parse_session_command value
        ≡ ok (operation, token))
      × (pid ≢ 0)
      × ((r ≡ with_errno (edit_command b pid (storage_path relative) v operation token))
          ⊎ ((relative ≡ []) × (r ≡ with_errno (encrypt_command b pid v operation token))))
