-- ===== src/Identity/Credentials/SingleUse.antt =====
-- A mailed token works once, and a password reset ends the user's sessions.
use omni_crm_backend.Prelude.{
  ℕ, ◌≡◌, ◌≢◌, refl, String, true, false, inl, inr, Option, none, some, arith, ok, err, ◌==◌,
  ==_refl, first, Bool-cases,
}
use omni_crm_backend.Prelude.RowLaws.{first-update}
use omni_crm_backend.Identity.{User, Store, PasswordResetToken, AuthSession, is_active_user}
use omni_crm_backend.Identity.Sessions.{
  TokenClaims, validate_access_session, revoke_all_user_sessions,
}
use omni_crm_backend.Identity.Sessions.Revocation.{revoke_all-validate}
use omni_crm_backend.Identity.Credentials.{
  invalid_password_reset_token, reset_password, reset_token, reset_user, reset_written,
  with_password, by_reset_hash, is_spent,
}

-- What a reset that succeeds has found.
pub record IsDoneBy (hash_password sha256 : String → String) (now later : ℕ)
    (raw_token new_password : String) (db : Store) (u : User) : Type 0 where
  pub token : PasswordResetToken
  pub user : User
  pub found : first (by_reset_hash (sha256 raw_token)) db.password_reset_tokens ≡ some token
  pub live : is_spent now token.used_at token.expires_at ≡ false
  pub owner : first (λ u. u.id == token.user_id) db.users ≡ some user
  pub active : is_active_user user.status ≡ true
  pub same : with_password hash_password new_password user ≡ u
  pub written :
      (reset_password hash_password sha256 now later raw_token new_password db).1
      ≡ reset_written hash_password now later new_password token user db

module _ (hash_password sha256 : String → String) (now later : ℕ) (raw_token new_password : String)
    (db : Store) where
  user_inv :
      (t : PasswordResetToken) (o : Option User) {u : User}
      → (reset_user hash_password now later new_password t db o).0 ≡ ok u
      → (user : User) × (o ≡ some user)
        × (is_active_user user.status ≡ true)
        × (with_password hash_password new_password user ≡ u)
        × ((reset_user hash_password now later new_password t db o).1
            ≡ reset_written hash_password now later new_password t user db)
  unfolding reset_user
  user_inv t none h = absurd (cc)
  user_inv t (some user) h = elim (Bool-cases (is_active_user user.status)) [
    | inr e ↦ absurd (ground (arith, e))
    | inl e ↦ (user, refl, e, ground (arith, e), rw e refl)
  ]

  token_inv :
      (o : Option PasswordResetToken) {u : User}
      → (reset_token hash_password now later new_password db o).0 ≡ ok u
      → (t : PasswordResetToken) × (o ≡ some t)
        × (is_spent now t.used_at t.expires_at ≡ false)
        × ((reset_user hash_password now later new_password t db
              (first (λ u. u.id == t.user_id) db.users)).0
            ≡ ok u)
        × (reset_token hash_password now later new_password db o
            ≡ reset_user hash_password now later new_password t db
                (first (λ u. u.id == t.user_id) db.users))
  unfolding reset_token
  token_inv none h = absurd (cc)
  token_inv (some t) h = elim (Bool-cases (is_spent now t.used_at t.expires_at)) [
    | inl e ↦ absurd (ground (arith, e))
    | inr e ↦ (t, refl, e, rw e at h, rw e refl)
  ]

  pub reset_inv :
      {u : User}
      → (reset_password hash_password sha256 now later raw_token new_password db).0 ≡ ok u
      → IsDoneBy hash_password sha256 now later raw_token new_password db u
  unfolding reset_password
  reset_inv h =
      let (t, found, live, ran, step) =
        token_inv (first (by_reset_hash (sha256 raw_token)) db.password_reset_tokens) h in
      let (user, owner, active, same, written) =
        user_inv t (first (λ u. u.id == t.user_id) db.users) ran in
      record {
        token = t;
        user = user;
        found = found;
        live = live;
        owner = owner;
        active = active;
        same = same;
        written = rw step written;
      }

-- The token of a reset is found again, as used.
still_found :
    (hash_password : String → String) (now later : ℕ) (h new_password : String) (db : Store)
    (t : PasswordResetToken) (u : User)
    → first (by_reset_hash h) db.password_reset_tokens ≡ some t
    → first
        (by_reset_hash h)
        (reset_written hash_password now later new_password t u db).password_reset_tokens
      ≡ some (record t { used_at = some now })
unfolding reset_written revoke_all_user_sessions
still_found hash_password now later h new_password db t u found =
    rw
      (first-update (by_reset_hash h) (λ x. x.id == t.id) (λ x. record x { used_at = some now })
        (λ x. ground arith) db.password_reset_tokens)
      (rw found (rw (==_refl t.id)))

spent :
    (hash_password sha256 : String → String) (now now' later : ℕ) (raw_token new_password : String)
    (db : Store) (t : PasswordResetToken)
    → first (by_reset_hash (sha256 raw_token)) db.password_reset_tokens
      ≡ some (record t { used_at = some now })
    → reset_password hash_password sha256 now' later raw_token new_password db
      ≡ (err invalid_password_reset_token, db)
unfolding reset_password
spent hash_password sha256 now now' later raw_token new_password db t e = rw (e, reset_token) refl

-- A token that has reset a password resets none again.
pub reset-reset :
    (hash_password sha256 : String → String) (now later now' later' : ℕ)
    (raw_token new_password other : String) (db : Store) {u : User}
    → (reset_password hash_password sha256 now later raw_token new_password db).0 ≡ ok u
    → reset_password hash_password sha256 now' later' raw_token other
        (reset_password hash_password sha256 now later raw_token new_password db).1
      ≡ (
        err invalid_password_reset_token,
        (reset_password hash_password sha256 now later raw_token new_password db).1,
      )
reset-reset hash_password sha256 now later now' later' raw_token new_password other db h =
    let r = reset_inv hash_password sha256 now later raw_token new_password db h in
    let after = reset_written hash_password now later new_password r.token r.user db in
    rw (r.written) (
      spent hash_password sha256 now now' later' raw_token other after r.token (
        still_found hash_password now later (sha256 raw_token) new_password db r.token r.user
          r.found))

-- After a password is reset, no access token that the user had is accepted.
pub reset-validate :
    (hash_password sha256 : String → String) (now later now' : ℕ) (raw_token new_password : String)
    (db : Store) (claims : TokenClaims) {u : User}
    → (reset_password hash_password sha256 now later raw_token new_password db).0 ≡ ok u
    → claims.subject ≡ u.id
    → (s : AuthSession)
    → validate_access_session now'
        (reset_password hash_password sha256 now later raw_token new_password db).1
        claims
      ≢ ok s
reset-validate hash_password sha256 now later now' raw_token new_password db claims {u} h mine s =
    let r = reset_inv hash_password sha256 now later raw_token new_password db h in
    let own : claims.subject ≡ r.user.id = cc (mine, r.same) in
    rw (r.written) (unfold reset_written in revoke_all-validate later now' r.user.id _ claims own s)
