-- ===== src/Identity.antt =====
-- The identity tables of app/models/identity.py and their rows. A UUID is a number: the code
-- only compares it. An instant is a number of microseconds in UTC, so `_as_utc` and
-- `_expiry_utc` are the identity. `Store` is the database, each table in the order of its rows.
pub mod Sessions
pub mod Sample
pub mod Credentials
pub mod Mfa
pub mod Invitations
pub mod Mail
pub mod Login
use omni_crm_backend.Prelude.{ℕ, String, Bool, true, false, Option, List}

pub data UserStatus : Type 0 where
  active inactive blocked : UserStatus

pub data Role : Type 0 where
  administrador supervisor agente_comercial : Role

pub data MembershipStatus : Type 0 where
  invited active inactive : MembershipStatus

pub data SessionStatus : Type 0 where
  active revoked : SessionStatus

pub data InvitationStatus : Type 0 where
  pending accepted revoked expired : InvitationStatus

pub data EmailStatus : Type 0 where
  queued processing sent failed unknown : EmailStatus

pub record User : Type 0 where
  pub id : ℕ
  pub name : String
  pub email : String
  pub password_hash : String
  pub mfa_enabled : Bool
  pub mfa_secret_encrypted : Option String
  pub status : UserStatus
  pub email_verified_at : Option ℕ

pub record Membership : Type 0 where
  pub id : ℕ
  pub tenant_id : ℕ
  pub user_id : ℕ
  pub role : Role
  pub status : MembershipStatus
  pub accepted_at : Option ℕ

pub record AuthSession : Type 0 where
  pub id : ℕ
  pub user_id : ℕ
  pub membership_id : ℕ
  pub tenant_id : ℕ
  pub status : SessionStatus
  pub expires_at : ℕ
  pub revoked_at : Option ℕ

pub record RefreshToken : Type 0 where
  pub id : ℕ
  pub session_id : ℕ
  pub family_id : ℕ
  pub parent_id : Option ℕ
  pub secret_hash : String
  pub expires_at : ℕ
  pub consumed_at : Option ℕ
  pub revoked_at : Option ℕ

pub record PasswordResetToken : Type 0 where
  pub id : ℕ
  pub user_id : ℕ
  pub token_hash : String
  pub expires_at : ℕ
  pub used_at : Option ℕ

pub record EmailVerificationToken : Type 0 where
  pub id : ℕ
  pub user_id : ℕ
  pub token_hash : String
  pub expires_at : ℕ
  pub used_at : Option ℕ

pub record MfaRecoveryCode : Type 0 where
  pub id : ℕ
  pub user_id : ℕ
  pub code_hash : String
  pub used_at : Option ℕ

pub record Invitation : Type 0 where
  pub id : ℕ
  pub tenant_id : ℕ
  pub email : String
  pub role : Role
  pub token_hash : String
  pub status : InvitationStatus
  pub invited_by_user_id : ℕ
  pub expires_at : ℕ

pub record EmailOutbox : Type 0 where
  pub id : ℕ
  pub tenant_id : Option ℕ
  pub user_id : Option ℕ
  pub recipient : String
  pub template : String
  pub subject : String
  pub text_body : String
  pub html_body : Option String
  pub status : EmailStatus
  pub attempts : ℕ
  pub last_error : Option String
  pub processing_started_at : Option ℕ
  pub sent_at : Option ℕ

pub record Store : Type 0 where
  pub users : List User
  pub memberships : List Membership
  pub auth_sessions : List AuthSession
  pub refresh_tokens : List RefreshToken
  pub password_reset_tokens : List PasswordResetToken
  pub email_verification_tokens : List EmailVerificationToken
  pub recovery_codes : List MfaRecoveryCode
  pub invitations : List Invitation
  pub email_outbox : List EmailOutbox

-- The tests `User.status == "active"`, `Membership.status == "active"` and so on.
abbrev pub is_active_user : UserStatus → Bool
is_active_user UserStatus.active = true
is_active_user _ = false

abbrev pub is_active_member : MembershipStatus → Bool
is_active_member MembershipStatus.active = true
is_active_member _ = false

abbrev pub is_active_session : SessionStatus → Bool
is_active_session SessionStatus.active = true
is_active_session _ = false

abbrev pub is_pending : InvitationStatus → Bool
is_pending InvitationStatus.pending = true
is_pending _ = false
