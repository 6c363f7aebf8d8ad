-- ===== src/Identity/Sessions/Revocation.antt =====
-- Revoking all sessions of a user, as a password reset does, and revoking one session.
use omni_crm_backend.Prelude.{
  false, ℕ, ◌≡◌, ◌≢◌, ◌==◌, ◌&&◌, refl, String, arith, ok, All, first, some, inl, inr, Option-cases,
}
use omni_crm_backend.Prelude.RowLaws.{first_sound, All-of_first-none, All-map, All-update_where}
use omni_crm_backend.Identity.{AuthSession, Store, SessionStatus}
use omni_crm_backend.Identity.Sessions.{
  access_for, Library, Settings, Fresh, SessionPair, TokenClaims, validate_access_session,
  rotate_refresh_token, revoke_all_user_sessions, revoke_session,
}
use omni_crm_backend.Identity.Sessions.Inversion.{validate_sound, validate-All, rotate_inv}

closed :
    (now user_id : ℕ) (db : Store)
    → All
        (λ s. s.user_id ≡ user_id → s.status ≡ SessionStatus.revoked)
        (revoke_all_user_sessions now user_id db).auth_sessions
unfolding revoke_all_user_sessions
closed now user_id db =
    All-update_where (λ s. s.user_id ≡ user_id → s.status ≡ SessionStatus.revoked)
      (λ s. s.user_id == user_id)
      (λ s. record s { status = SessionStatus.revoked; revoked_at = some now }) (λ s _ _. refl)
      (λ s h e. absurd (ground arith)) db.auth_sessions

-- After all sessions of a user are revoked, no access token of the user is accepted.
pub revoke_all-validate :
    (now now' user_id : ℕ) (db : Store) (claims : TokenClaims)
    → claims.subject ≡ user_id
    → (s : AuthSession)
    → validate_access_session now' (revoke_all_user_sessions now user_id db) claims ≢ ok s
revoke_all-validate now now' user_id db claims mine s h =
    let row = validate_sound now' (revoke_all_user_sessions now user_id db) claims h in
    let gone =
      validate-All (λ s. s.user_id ≡ user_id → s.status ≡ SessionStatus.revoked) now'
        (revoke_all_user_sessions now user_id db) claims h (closed now user_id db) in
    cc (row.status, gone (cc (row.subject, mine)))

-- After all sessions of a user are revoked, no refresh token whose session is the user's is
-- exchanged.
pub revoke_all-rotate :
    (lib : Library) (settings : Settings) (now now' user_id : ℕ) (fresh : Fresh)
    (raw_token : String) (db : Store) {pair : SessionPair}
    (h : (rotate_refresh_token lib settings now' fresh raw_token
        (revoke_all_user_sessions now user_id db)).0
      ≡ ok pair)
    → (rotate_inv lib settings now' fresh raw_token
        (revoke_all_user_sessions now user_id db)
        h).session.user_id
      ≢ user_id
revoke_all-rotate lib settings now now' user_id fresh raw_token db h mine =
    let r =
      rotate_inv lib settings now' fresh raw_token (revoke_all_user_sessions now user_id db) h in
    revoke_all-validate now now' user_id db (access_for r.session) (unfold access_for in mine)
      r.valid.0 r.valid.1

closed_one :
    (now session_id user_id : ℕ) (db : Store)
    → All
        (λ s. s.id ≡ session_id → s.user_id ≡ user_id → s.status ≡ SessionStatus.revoked)
        (revoke_session now session_id user_id db).auth_sessions
unfolding revoke_session
closed_one now session_id user_id db =
    elim (Option-cases (first (λ s. s.id == session_id && s.user_id == user_id) db.auth_sessions)) [
      | inl e ↦
          rw (e, revoke_session)
            (All-map (λ s. (s.id == session_id && s.user_id == user_id) ≡ false)
              (λ s. s.id ≡ session_id → s.user_id ≡ user_id → s.status ≡ SessionStatus.revoked)
              (λ s h p q. absurd (ground arith)) db.auth_sessions
              (All-of_first-none (λ s. s.id == session_id && s.user_id == user_id) db.auth_sessions
                e))
      | inr (r, e) ↦
          let found =
            first_sound (λ s. s.id == session_id && s.user_id == user_id) db.auth_sessions e in
          rw (e, revoke_session)
            (All-update_where
              (λ s. s.id ≡ session_id → s.user_id ≡ user_id → s.status ≡ SessionStatus.revoked)
              (λ s. s.id == r.id)
              (λ s. record s { status = SessionStatus.revoked; revoked_at = some now })
              (λ s _ _ _. refl) (λ s h p q. absurd (ground (arith, found))) db.auth_sessions)
    ]

-- After a session of the user is revoked, no access token that names it is accepted.
pub revoke-validate :
    (now now' session_id user_id : ℕ) (db : Store) (claims : TokenClaims)
    → claims.session_id ≡ some session_id
    → claims.subject ≡ user_id
    → (s : AuthSession)
    → validate_access_session now' (revoke_session now session_id user_id db) claims ≢ ok s
revoke-validate now now' session_id user_id db claims names mine s h =
    let row = validate_sound now' (revoke_session now session_id user_id db) claims h in
    let gone =
      validate-All (λ s. s.id ≡ session_id → s.user_id ≡ user_id → s.status ≡ SessionStatus.revoked)
        now' (revoke_session now session_id user_id db) claims h
        (closed_one now session_id user_id db) in
    cc (row.status, gone (cc (row.session, names)) (cc (row.subject, mine)))
