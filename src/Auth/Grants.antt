-- ===== src/Auth/Grants.antt =====
-- When an identity is given out without a prompt (internal/passfs/volume.go:
-- unlockIdentityForRequest).
use passfs.Prelude.{
  ℕ, ◌<◌, ◌≡◌, ◌≢◌, ◌⊎◌, inl, inr, refl, Bool, true, false, Option, none, some, [], ◌∷◌, ◌++◌,
  arith, ◌==◌, nat_equality, list_equality, Bytes, ltb, if◌then◌else◌, Bool-cases, ltb→lt, ==→eq,
  ==→ne,
}
use passfs.Error.{Error}
use passfs.Result.{Result, ok, err}
use passfs.Table.{Table, lookup}
use passfs.Process.{Machine, process_alive}
use passfs.Auth.State.{
  AuthKey, auth_key_equality, PromptRequest, Keys, Session, Auth, authorization_key,
  request_identity, remove_expired, keep_live,
}
use passfs.Auth.Sessions.{
  Found, live_session, owned_by, serves, active_encrypt_identity, active_edit_identity, sessions_of,
  granted, use_grant, unlock_by_key, or_edit, or_encrypt, unlock_identity,
}

-- An entry of the map has the property.
abbrev pub Exists : {K V : Type 0} → (K → V → Type 0) → Table K V → Type 0
Exists P [] = ⊥
Exists P ((k, v) ∷ m) = P k v ⊎ Exists P m

keep_live-Exists :
    (now : ℕ) (k : AuthKey) (u : ℕ) (m : Table AuthKey ℕ)
    → lookup k (keep_live now m) ≡ some u
    → Exists (λ j t. (j ≡ k) × (now < t)) m
unfolding lookup keep_live
keep_live-Exists now k u [] h = cc
keep_live-Exists now k u ((j, t) ∷ m) h = elim (Bool-cases (ltb now t)) [
  | inr late ↦ inr (keep_live-Exists now k u m (rw late at h))
  | inl live ↦ elim (Bool-cases (j == k)) [
    | inl same ↦ inl (==→eq j k same, ltb→lt now t live)
    | inr other ↦ inr (keep_live-Exists now k u m (rw (live, other) at h))
  ]
]

module _ {I : Type 0} where
  -- A session of a living process that is accepted, with the identity.
  abbrev pub Gives : Machine → (Session I → Bool) → I → Bytes → Session I → Type 0
  Gives m accepts i token session =
      (process_alive m session.owner_pid ≡ true) × (accepts session ≡ true) × (session.identity ≡ i)

  live_session-Exists :
      (m : Machine) (accepts : Session I → Bool) (sessions : Table Bytes (Session I)) (i : I)
      → (live_session m accepts sessions).identity ≡ some i
      → Exists (Gives m accepts i) sessions
  unfolding live_session
  live_session-Exists m accepts [] i h = cc
  live_session-Exists m accepts ((token, session) ∷ rest) i h =
      elim (Bool-cases (process_alive m session.owner_pid)) [
        | inr dead ↦ inr (live_session-Exists m accepts rest i (rw dead at h))
        | inl alive ↦ elim (Bool-cases (accepts session)) [
          | inl yes_ ↦ inl (alive, yes_, ground arith)
          | inr no_ ↦ inr (live_session-Exists m accepts rest i (rw (alive, no_) at h))
        ]
      ]

  -- The grant that covers a request: recorded under the request's own key and not yet over.
  abbrev pub IsGranted : ℕ → Bytes → ℕ → I → Auth I → Type 0
  IsGranted now cache_key pid i s =
      (k : AuthKey) × (authorization_key s.scope cache_key pid ≡ some k)
      × (s.unlock_for ≢ 0)
      × Exists (λ j t. (j ≡ k) × (now < t)) s.authorized
      × (s.cached_identity ≡ some i)

  granted-some :
      (now : ℕ) (c : Option I) (u : Option ℕ) (i : I)
      → granted now c u ≡ some i
      → (c ≡ some i) × ((t : ℕ) × (u ≡ some t))
  granted-some now none u i h = cc
  granted-some now (some c) none i h = cc
  granted-some now (some c) (some t) i h = (ground arith, (t, refl))

  remove_expired-cached :
      (now : ℕ) (s : Auth I) (i : I)
      → (remove_expired now s).cached_identity ≡ some i
      → s.cached_identity ≡ some i
  unfolding remove_expired
  remove_expired-cached now s i h = ground arith

  authorized-remove_expired :
      (now : ℕ) (s : Auth I) → (remove_expired now s).authorized ≡ keep_live now s.authorized
  unfolding remove_expired
  authorized-remove_expired now s = ground arith

  record_answer-err :
      (now : ℕ) (k : AuthKey) (e : Error) (o : Option I) (s : Auth I) (i : I)
      → (use_grant now k (err e) o s).0 ≡ ok i
      → o ≡ some i
  record_answer-err now k e none s i h = cc
  record_answer-err now k e (some j) s i h = cc

  if_refused :
      (b : Bool) (e : Error) (s : Auth I) (rest : Result I × Auth I) (i : I)
      → (if b then (err e, s) else rest).0 ≡ ok i
      → (b ≡ false) × (rest.0 ≡ ok i)
  if_refused true e s rest i h = cc
  if_refused false e s rest i h = (refl, h)

  unlock_by_key-IsGranted :
      (now later : ℕ) (e : Error) (cache_key : Bytes) (pid : ℕ) (s : Auth I) (i : I)
      → (unlock_by_key now later (err e) (authorization_key s.scope cache_key pid) s).0 ≡ ok i
      → IsGranted now cache_key pid i s
  unlock_by_key-IsGranted now later e cache_key pid s i h =
      cases (authorization_key s.scope cache_key pid) refl h
    where
      cases :
          (o : Option AuthKey)
          → authorization_key s.scope cache_key pid ≡ o
          → (unlock_by_key now later (err e) o s).0 ≡ ok i
          → IsGranted now cache_key pid i s
      cases none q p = cc
      cases (some k) q p =
          let t : Auth I = remove_expired now s in
          let found : Option I = granted now t.cached_identity (lookup k t.authorized) in
          let (positive, used) =
            if_refused (s.unlock_for == 0) e s (use_grant later k (err e) found t) i p in
          let (cached, (u, entry)) =
            granted-some now t.cached_identity (lookup k t.authorized) i
              (record_answer-err later k e found t i used) in
          (
            k,
            q,
            ==→ne s.unlock_for 0 positive,
            keep_live-Exists now k u s.authorized (rw (authorized-remove_expired now s) at entry),
            remove_expired-cached now s i cached,
          )

  -- What gives a request an identity without the prompter: an encrypt session of the caller, an
  -- edit session of the file that serves the caller, or a grant.
  abbrev pub IsCovered : Machine → ℕ → Bytes → ℕ → I → Auth I → Type 0
  IsCovered m now cache_key pid i s =
      ((pid ≢ 0) × Exists (Gives m (owned_by pid) i) s.encrypt_sessions)
      ⊎ (Exists (Gives m (serves m pid) i) (sessions_of (lookup cache_key s.edit_sessions))
          ⊎ IsGranted now cache_key pid i s)

  or_edit-IsCovered :
      (m : Machine) (now later : ℕ) (e : Error) (cache_key : Bytes) (pid : ℕ) (s : Auth I) (i : I)
      → (or_edit m now later (err e) cache_key pid (active_edit_identity m cache_key pid s)).0
        ≡ ok i
      → Exists (Gives m (serves m pid) i) (sessions_of (lookup cache_key s.edit_sessions))
        ⊎ IsGranted now cache_key pid i s
  unfolding active_edit_identity
  or_edit-IsCovered m now later e cache_key pid s i h =
      cases
        (live_session m (serves m pid) (sessions_of (lookup cache_key s.edit_sessions))).identity
        refl (active_edit_identity m cache_key pid s).1 h (λ k. k)
    where
      cases :
          (o : Option I)
          → (live_session m
              (serves m pid)
              (sessions_of (lookup cache_key s.edit_sessions))).identity
            ≡ o
          → (t : Auth I) → (or_edit m now later (err e) cache_key pid (o, t)).0 ≡ ok i
          → (IsGranted now cache_key pid i t → IsGranted now cache_key pid i s)
          → Exists (Gives m (serves m pid) i) (sessions_of (lookup cache_key s.edit_sessions))
            ⊎ IsGranted now cache_key pid i s
      cases (some j) q t k back = inl (
          live_session-Exists m (serves m pid) (sessions_of (lookup cache_key s.edit_sessions)) i
            (cc (q, k)))
      cases none q t k back = inr (back (unlock_by_key-IsGranted now later e cache_key pid t i k))

  active_encrypt-zero :
      (m : Machine) (pid : ℕ) (s : Auth I)
      → (pid == 0) ≡ true
      → active_encrypt_identity m pid s ≡ (none, s)
  unfolding active_encrypt_identity
  active_encrypt-zero m pid s z = rw z

  active_encrypt-search :
      (m : Machine) (pid : ℕ) (s : Auth I)
      → (pid == 0) ≡ false
      → let found = live_session m (owned_by pid) s.encrypt_sessions in
        active_encrypt_identity m pid s ≡ (
          found.identity,
          record s { encrypt_sessions = found.kept; closed = found.closed ++ s.closed },
        )
  unfolding active_encrypt_identity
  active_encrypt-search m pid s n = rw n

  -- If the prompter refuses a request, an identity is given out for it only where an encrypt session of the calling
  -- process, an edit session of the file that serves it, or an unexpired grant recorded under the
  -- request's own key covers the request, and it is that session's or the cached identity.
  pub unlock_identity-IsCovered :
      (keys : Keys I) (m : Machine) (now later : ℕ) (cache_key : Bytes) (request : PromptRequest)
      (s : Auth I) (e : Error) (i : I)
      → request_identity keys s.prompter request ≡ err e
      → (unlock_identity keys m now later cache_key request s).0 ≡ ok i
      → IsCovered m now cache_key request.pid i s
  unfolding unlock_identity
  unlock_identity-IsCovered keys m now later cache_key request s e i refused h =
      elim (Bool-cases (pid == 0)) [
        | inl z ↦ cases none s (λ k. cc) (λ k. k) (rw (refused, active_encrypt-zero m pid s z) at h)
        | inr n ↦
            let found : Found I = live_session m (owned_by pid) s.encrypt_sessions in
            cases found.identity
              (record s { encrypt_sessions = found.kept; closed = found.closed ++ s.closed })
              (λ k. (==→ne pid 0 n, live_session-Exists m (owned_by pid) s.encrypt_sessions i k))
              (λ k. k) (rw (refused, active_encrypt-search m pid s n) at h)
      ]
    where
      pid : ℕ
      pid = request.pid

      Rest : Auth I → Type 0
      Rest t =
          Exists (Gives m (serves m pid) i) (sessions_of (lookup cache_key t.edit_sessions))
          ⊎ IsGranted now cache_key pid i t

      cases :
          (o : Option I) (t : Auth I)
          → (o ≡ some i → (pid ≢ 0) × Exists (Gives m (owned_by pid) i) s.encrypt_sessions)
          → (Rest t → Rest s)
          → (or_encrypt m now later (err e) cache_key pid (o, t)).0 ≡ ok i
          → IsCovered m now cache_key pid i s
      cases (some j) t first back k = inl (first (cc k))
      cases none t first back k = inr (back (or_edit-IsCovered m now later e cache_key pid t i k))
