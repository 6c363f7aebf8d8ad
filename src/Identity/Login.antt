-- ===== src/Identity/Login.antt =====
-- app/api/v1/auth.py: the handlers of login, tenant selection, refresh, logout, password reset and
-- the second factor, over the services. A bearer or challenge token stands for itself by the claims
-- that `decode_token` reads from it: `none` is a header that is missing or a token that it refuses.
-- `User.last_login_at` is not in the model, since nothing reads it. `HttpError` is a status and a
-- code. The request's transaction is rolled back when a handler raises, except that
-- `rotate_refresh_token` has committed before it raises `RefreshReplay`.
pub mod Factors
pub mod Logout
mod Tests
use Prim.Native.String.{◌++◌ as ◌++ₜ◌}
use text.Mathlib.Text.{◌==◌ as str_eq}
use omni_crm_backend.Prelude.{
  ℕ, String, Bool, true, false, not, ◌&&◌, ◌||◌, Option, none, some, List, [], ◌∷◌, Outcome, ok,
  err, ◌==◌, is_none, minutes, if◌then◌else◌, first, select, update, insert,
}
use omni_crm_backend.Identity.{
  AuthSession, User, Membership, EmailOutbox, EmailStatus, Store, is_active_user, is_active_member,
}
use omni_crm_backend.Identity.Sessions.{
  Library, Settings, Fresh, SessionPair, SessionError, TokenClaims, issue_session_pair,
  validate_access_session, rotate_refresh_token, revoke_session, refresh_replay,
}
use omni_crm_backend.Identity.Credentials.{
  issue_password_reset_token, reset_password, verify_email_token,
}
use omni_crm_backend.Identity.Mfa.{
  MfaLibrary, MfaError, verify_mfa_factor, enroll_mfa, confirm_mfa, disable_mfa,
}
use omni_crm_backend.Tenancy.{CurrentIdentity}

pub data TokenPurpose : Type 0 where
  access mfa_challenge tenant_selection : TokenPurpose

pub record Claims : Type 0 where
  pub purpose : TokenPurpose
  pub claims : TokenClaims

pub data HttpError : Type 0 where
  invalid_credentials no_active_membership authentication_required : HttpError
  tenant_selection_denied refresh_replay_detected invalid_refresh_token : HttpError
  invalid_or_expired_token invalid_mfa_factor server_error : HttpError

pub data LoginResponse : Type 0 where
  authenticated : SessionPair → LoginResponse
  challenge : Claims → LoginResponse

abbrev pub challenge_claims : TokenPurpose → ℕ → Claims
challenge_claims purpose user_id = record {
  purpose = purpose;
  claims = record { subject = user_id; session_id = none; tenant_id = none; membership_id = none };
}

-- app/repositories/memberships.py, with active_only=True
abbrev pub active_of : ℕ → Membership → Bool
active_of user_id m = m.user_id == user_id && is_active_member m.status

abbrev pub list_memberships : ℕ → Store → List Membership
list_memberships user_id db = select (active_of user_id) db.memberships

abbrev pub get_membership : ℕ → ℕ → Store → Option Membership
get_membership user_id tenant_id db =
    first (λ m. m.user_id == user_id && (m.tenant_id == tenant_id && is_active_member m.status))
      db.memberships

abbrev pub active_email : String → User → Bool
active_email email u = str_eq u.email email && is_active_user u.status

-- What a handler gives that raises nothing, whatever the database is then.
abbrev pub answer : {A B : Type 0} → (A → B) → A × Store → Outcome HttpError B × Store
answer f (a, db) = (ok (f a), db)

-- `_claims_from_selection_or_access`
pub claims_from_selection_or_access : ℕ → Option Claims → Store → Option TokenClaims
claims_from_selection_or_access now none db = none
claims_from_selection_or_access now (some c) db = elim c.purpose [
  | TokenPurpose.access ↦ elim (validate_access_session now db c.claims) [
    | ok s ↦ some c.claims
    | err e ↦ none
  ]
  | TokenPurpose.tenant_selection ↦ some c.claims
  | TokenPurpose.mfa_challenge ↦ none
]

-- An `AttributeError` is caught nowhere.
refused : SessionError → HttpError
refused SessionError.refresh_replay = refresh_replay_detected
refused SessionError.attribute_error = server_error
refused _ = invalid_refresh_token

refreshed : Outcome SessionError SessionPair × Store → Outcome HttpError SessionPair × Store
unfolding refused
refreshed (ok pair, db) = (ok pair, db)
refreshed (err e, db) = (err (refused e), db)

-- app/api/dependencies.py
pub identity_of : Outcome SessionError AuthSession → Outcome HttpError CurrentIdentity
identity_of (err e) = err authentication_required
identity_of (ok s) = ok (record {
  user_id = s.user_id;
  tenant_id = some s.tenant_id;
  membership_id = some s.membership_id;
  session_id = some s.id;
})

pub identity_for : ℕ → Store → TokenClaims → TokenPurpose → Outcome HttpError CurrentIdentity
identity_for now db claims TokenPurpose.access = identity_of (validate_access_session now db claims)
identity_for now db claims _ = err authentication_required

pub require_current_identity : ℕ → Option Claims → Store → Outcome HttpError CurrentIdentity
require_current_identity now none db = err authentication_required
require_current_identity now (some c) db = identity_for now db c.claims c.purpose

-- The assertion of the handler holds of every identity that `require_current_identity` gives.
abbrev pub logout_session : ℕ → CurrentIdentity → Store → Option ℕ → Store
logout_session now identity db none = db
logout_session now identity db (some session_id) = revoke_session now session_id identity.user_id db

pub logout_of : ℕ → Store → Outcome HttpError CurrentIdentity → Outcome HttpError (Unit {0}) × Store
logout_of now db (err e) = (err e, db)
logout_of now db (ok identity) = (ok tt, logout_session now identity db identity.session_id)

pub logout : ℕ → Option Claims → Store → Outcome HttpError (Unit {0}) × Store
logout now credentials db = logout_of now db (require_current_identity now credentials db)

abbrev pub reset_url : String → String → String
reset_url base_url raw_token = base_url ++ₜ ("/reset-password?token=" ++ₜ raw_token)

abbrev pub reset_mail : ℕ → String → User → EmailOutbox
reset_mail id url u = record {
  id = id;
  tenant_id = none;
  user_id = some u.id;
  recipient = u.email;
  template = "reset_password";
  subject = "Restablece tu contraseña de Omni";
  text_body = "Restablece tu contraseña: " ++ₜ url;
  html_body = some ("<p><a href=\"" ++ₜ (url ++ₜ "\">Restablecer contraseña</a></p>"));
  status = EmailStatus.queued;
  attempts = 0;
  last_error = none;
  processing_started_at = none;
  sent_at = none;
}

module _ (lib : Library) (mfa : MfaLibrary) (settings : Settings) where
  -- The end of `login` and of `mfa_verify`, by how many active memberships there are.
  pub enter :
      ℕ
      → Fresh
      → User
      → HttpError
      → Store
      → List Membership
      → Outcome HttpError LoginResponse × Store
  enter now fresh u missing db [] = (err missing, db)
  enter now fresh u missing db (m ∷ []) =
      answer authenticated (issue_session_pair lib settings now fresh u.id m db)
  enter now fresh u missing db (m ∷ n ∷ rest) =
      (ok (challenge (challenge_claims tenant_selection u.id)), db)

  pub login_user :
      ℕ → Fresh → String → Store → Option User → Outcome HttpError LoginResponse × Store
  login_user now fresh password db none = (err invalid_credentials, db)
  login_user now fresh password db (some u) =
      if not (mfa.verify_password u.password_hash password)
      then (err invalid_credentials, db)
      else if u.mfa_enabled
      then (ok (challenge (challenge_claims mfa_challenge u.id)), db)
      else enter now fresh u no_active_membership db (list_memberships u.id db)

  -- `email` is normalised. The check against the dummy hash for an unknown user has no effect.
  pub login : ℕ → Fresh → String → String → Store → Outcome HttpError LoginResponse × Store
  login now fresh email password db =
      login_user now fresh password db (first (active_email email) db.users)

  pub select_of : ℕ → Fresh → ℕ → Store → Option Membership → Outcome HttpError SessionPair × Store
  select_of now fresh user_id db none = (err tenant_selection_denied, db)
  select_of now fresh user_id db (some m) =
      answer (λ pair. pair) (issue_session_pair lib settings now fresh user_id m db)

  pub select_tenant : ℕ → Fresh → ℕ → Option Claims → Store → Outcome HttpError SessionPair × Store
  select_tenant now fresh tenant_id credentials db =
      elim (claims_from_selection_or_access now credentials db) [
        | none ↦ (err tenant_selection_denied, db)
        | some claims ↦
            select_of now fresh claims.subject db (get_membership claims.subject tenant_id db)
      ]

  pub refresh : ℕ → Fresh → String → Store → Outcome HttpError SessionPair × Store
  unfolding refreshed
  refresh now fresh raw_token db =
      refreshed (rotate_refresh_token lib settings now fresh raw_token db)

  forgot : ℕ → ℕ → ℕ → String → String → Store → Option User → Store
  forgot now id mail_id raw_token base_url db none = db
  forgot now id mail_id raw_token base_url db (some u) =
      let db' = (issue_password_reset_token lib.sha256 now id raw_token u.id (minutes 30) db).1 in
      record db' {
        email_outbox =
            insert (reset_mail mail_id (reset_url base_url raw_token) u) db'.email_outbox;
      }

  -- The response is the same whether the user is there or not.
  pub forgot_password : ℕ → ℕ → ℕ → String → String → String → Store → Store
  unfolding forgot
  forgot_password now id mail_id raw_token base_url email db =
      forgot now id mail_id raw_token base_url db (first (active_email email) db.users)

  pub enter_or_refuse :
      ℕ → Fresh → User → Store → Store → List Membership → Outcome HttpError LoginResponse × Store
  enter_or_refuse now fresh u before db [] = (err invalid_mfa_factor, before)
  enter_or_refuse now fresh u before db (m ∷ rest) =
      enter now fresh u invalid_mfa_factor db (m ∷ rest)

  -- The end of `mfa_verify`, behind the check of the factor; `before` is what a rollback restores.
  pub verified :
      ℕ
      → Fresh
      → User
      → Store
      → Outcome MfaError Bool × Store
      → Outcome HttpError LoginResponse × Store
  verified now fresh u before (err e, db) = (err invalid_mfa_factor, before)
  verified now fresh u before (ok false, db) = (err invalid_mfa_factor, before)
  verified now fresh u before (ok true, db) =
      enter_or_refuse now fresh u before db (list_memberships u.id db)

  pub verify_user :
      ℕ → Fresh → String → Store → Option User → Outcome HttpError LoginResponse × Store
  verify_user now fresh code db none = (err invalid_mfa_factor, db)
  verify_user now fresh code db (some u) =
      verified now fresh u db (verify_mfa_factor mfa now u code db)

  pub verify_claims :
      ℕ → Fresh → String → ℕ → Store → TokenPurpose → Outcome HttpError LoginResponse × Store
  verify_claims now fresh code subject db TokenPurpose.mfa_challenge =
      verify_user now fresh code db
        (first (λ u. u.id == subject && is_active_user u.status) db.users)
  verify_claims now fresh code subject db _ = (err invalid_mfa_factor, db)

  pub mfa_verify :
      ℕ → Fresh → Option Claims → String → Store → Outcome HttpError LoginResponse × Store
  mfa_verify now fresh none code db = (err invalid_mfa_factor, db)
  mfa_verify now fresh (some c) code db = verify_claims now fresh code c.claims.subject db c.purpose
