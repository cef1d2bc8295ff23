-- ===== src/Auth/Owners.antt =====
-- Who may end a session (internal/passfs/volume.go: endEditSession, endEncryptSession), and what an encrypt
-- session leaves behind (beginEncryptSession).
use passfs.Prelude.{
  ◌⊎◌, ◌∙◌, ap, subst, Option, Bool, true, false, ◌&&◌, if◌then◌else◌, ◌==◌, Bool-cases, inl, inr,
  ==→eq, refl, sym, ◌⊎◌, ◌∙◌, ap, subst, Option, Bool, true, false, ◌&&◌, if◌then◌else◌, ◌==◌,
  Bool-cases, inl, inr, ==→eq, refl, sym, ==_refl, ℕ, ◌≡◌, ◌≢◌, none, some, [], ◌∷◌, arith,
  nat_equality, list_equality, Bytes,
}
use passfs.Error.{Error, errno, eperm}
use passfs.Table.{lookup-insert, lookup-delete, Table, lookup, delete}
use passfs.Process.{Machine}
use passfs.Token.{validate_session_token}
use passfs.Auth.State.{auth_key_equality, Keys, Session, Auth, authorization_key}
use passfs.Auth.Sessions.{
  is_owner, sessions_of, put_edit_sessions, active_encrypt_identity, active_edit_identity,
  unlock_identity, ask_session, encrypt_request, drop_edit_session, edit_session, end_edit_session,
  end_encrypt_session,
}

module _ {I : Type 0} where
  -- Only the process that began an edit session may end it: with the session's valid token, for any
  -- other caller, the call fails with EPERM and nothing changes.
  pub end_edit_stranger :
      (cache_key token : Bytes) (pid : ℕ) (s : Auth I) (x : Session I)
      → validate_session_token token ≡ none
      → edit_session cache_key token s ≡ some x
      → x.owner_pid ≢ pid
      → end_edit_session cache_key token pid s ≡ (some (errno eperm), s)
  unfolding end_edit_session
  end_edit_stranger cache_key token pid s x v l n = ground arith

  -- The same for an encrypt session.
  pub end_encrypt_stranger :
      (token : Bytes) (pid : ℕ) (s : Auth I) (x : Session I)
      → validate_session_token token ≡ none
      → lookup token s.encrypt_sessions ≡ some x
      → x.owner_pid ≢ pid
      → end_encrypt_session token pid s ≡ (some (errno eperm), s)
  unfolding end_encrypt_session
  end_encrypt_stranger token pid s x v l n = ground arith

  sessions-put :
      (key : Bytes) (sessions : Table Bytes (Session I)) (m : Table Bytes (Table Bytes (Session I)))
      → sessions_of (lookup key (put_edit_sessions key sessions m)) ≡ sessions
  unfolding put_edit_sessions
  sessions-put key [] m = rw (lookup-delete key key m, ==_refl key)
  sessions-put key (x ∷ xs) m = rw (lookup-insert key key (x ∷ xs) m, ==_refl key)

  other_file :
      (cache_key key : Bytes) (sessions : Table Bytes (Session I))
      (m : Table Bytes (Table Bytes (Session I)))
      → (cache_key == key) ≡ false
      → lookup key (put_edit_sessions cache_key sessions m) ≡ lookup key m
  unfolding put_edit_sessions
  other_file cache_key key [] m n =
      lookup-delete cache_key key m ∙ ap (λ b. if b then none else lookup key m) n
  other_file cache_key key (x ∷ xs) m n =
      lookup-insert cache_key key (x ∷ xs) m ∙ ap (λ b. if b then some (x ∷ xs) else lookup key m) n

  edit_session-drop :
      (cache_key token key t : Bytes) (x : Session I) (s : Auth I)
      → edit_session key t (drop_edit_session cache_key token x s)
        ≡ (if cache_key == key && token == t then none else edit_session key t s)
  unfolding drop_edit_session
  edit_session-drop cache_key token key t x s = elim (Bool-cases (cache_key == key)) [
    | inl same ↦
        subst (λ y. edit_session y t after ≡ choice (cache_key == y) (edit_session y t s))
          (==→eq cache_key key same)
          (same_file ∙ sym (ap (λ b. choice b (edit_session cache_key t s)) (==_refl cache_key)))
    | inr other ↦
        ap (λ o. lookup t (sessions_of o)) (other_file cache_key key left s.edit_sessions other)
        ∙ sym (ap (λ b. choice b (edit_session key t s)) other)
  ]
    where
      left : Table Bytes (Session I)
      left = delete token (sessions_of (lookup cache_key s.edit_sessions))

      after : Auth I
      after = drop_edit_session cache_key token x s

      choice : Bool → Option (Session I) → Option (Session I)
      choice b o = if b && token == t then none else o

      same_file : edit_session cache_key t after ≡ choice true (edit_session cache_key t s)
      same_file =
          ap (lookup t) (sessions-put cache_key left s.edit_sessions)
          ∙ lookup-delete token t (sessions_of (lookup cache_key s.edit_sessions))

  -- Whatever the call of EndEditSession: an edit session `x` that ran before it still runs, the same, or
  -- it is the very session that the call names and the caller is its owner, a process that is known; then
  -- the call succeeds, the session is gone and its channel is closed.
  pub end_edit_owner :
      (cache_key token : Bytes) (pid : ℕ) (s : Auth I) (key t : Bytes) (x : Session I)
      → edit_session key t s ≡ some x
      → (edit_session key t (end_edit_session cache_key token pid s).1 ≡ some x)
        ⊎ ((key ≡ cache_key)
            × (t ≡ token)
            × (x.owner_pid ≡ pid)
            × (pid ≢ 0)
            × ((end_edit_session cache_key token pid s).0 ≡ none)
            × (edit_session key t (end_edit_session cache_key token pid s).1 ≡ none)
            × ((end_edit_session cache_key token pid s).1.closed ≡ x.channel ∷ s.closed))
  unfolding end_edit_session
  end_edit_owner cache_key token pid s key t x l =
      known (validate_session_token token) (edit_session cache_key token s) refl
    where
      Ended : Option Error × Auth I → Type 0
      Ended r =
          (edit_session key t r.1 ≡ some x)
          ⊎ ((key ≡ cache_key)
              × (t ≡ token)
              × (x.owner_pid ≡ pid)
              × (pid ≢ 0)
              × (r.0 ≡ none)
              × (edit_session key t r.1 ≡ none)
              × (r.1.closed ≡ x.channel ∷ s.closed))

      -- The session that is dropped is `y`.
      dropped :
          (y : Session I)
          → edit_session cache_key token s ≡ some y
          → y.owner_pid ≡ pid
          → pid ≢ 0
          → Ended (none, drop_edit_session cache_key token y s)
      dropped y e o n = elim (Bool-cases (cache_key == key && token == t)) [
        | inr other ↦ inl (after ∙ ap (λ b. if b then none else edit_session key t s) other ∙ l)
        | inl same ↦
            let file : cache_key ≡ key = ==→eq cache_key key (first _ _ same) in
            let mark : token ≡ t = ==→eq token t (second _ _ same) in
            let it : y ≡ x = found file mark in
            inr (
              sym file,
              sym mark,
              ap (λ z. z.owner_pid) (sym it) ∙ o,
              n,
              refl,
              after ∙ ap (λ b. if b then none else edit_session key t s) same,
              ap (λ z. z.channel ∷ s.closed) it,
            )
      ]
        where
          first : (a b : Bool) → (a && b) ≡ true → a ≡ true
          first a b h = ground (arith, h)

          second : (a b : Bool) → (a && b) ≡ true → b ≡ true
          second a b h = ground (arith, h)

          found : cache_key ≡ key → token ≡ t → y ≡ x
          found p q =
              cc (sym e ∙ ap (λ k. edit_session k token s) p ∙ ap (λ u. edit_session key u s) q ∙ l)

          after :
              edit_session key t (drop_edit_session cache_key token y s)
              ≡ (if cache_key == key && token == t then none else edit_session key t s)
          after = edit_session-drop cache_key token key t y s

      owned :
          (y : Session I) (b : Bool)
          → edit_session cache_key token s ≡ some y
          → is_owner pid y ≡ b
          → Ended (
              if◌then◌else◌ {A = Option Error × Auth I} b
                (none, drop_edit_session cache_key token y s)
                (some (errno eperm), s))
      owned y true e o = dropped y e (ground (arith, o)) (ground (arith, o))
      owned y false e o = inl l

      known :
          (o : Option Error) (f : Option (Session I))
          → edit_session cache_key token s ≡ f
          → Ended (elim o as (λ z. Option Error × Auth I) [
            | some e ↦ (some e, s)
            | none ↦ elim f as (λ z. Option Error × Auth I) [
              | none ↦ (none, s)
              | some y ↦
                  if is_owner pid y
                  then (none, drop_edit_session cache_key token y s)
                  else (some (errno eperm), s)
            ]
          ])
      known (some e) f q = inl l
      known none none q = inl l
      known none (some y) q = owned y (is_owner pid y) q refl

  -- Asking for the identity of an encrypt session, whether one is given or not, leaves the grants and the
  -- cached identity as they were: the prompt for it covers that session alone.
  pub ask_encrypt_no_grant :
      (keys : Keys I) (m : Machine) (now later : ℕ) (token : Bytes) (pid : ℕ) (s : Auth I)
      → ((ask_session keys m now later [] token pid (encrypt_request pid) s).1.authorized
          ≡ s.authorized)
        × ((ask_session keys m now later [] token pid (encrypt_request pid) s).1.cached_identity
            ≡ s.cached_identity)
  unfolding ask_session unlock_identity active_encrypt_identity active_edit_identity
      authorization_key
  ask_encrypt_no_grant keys m now later token pid s = ground arith
