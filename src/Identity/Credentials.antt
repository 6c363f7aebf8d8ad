-- ===== src/Identity/Credentials.antt =====
-- app/services/password_reset.py and email_verification.py: the tokens that are sent by mail, each
-- of them used at most once. `sha256` and `hash_password` are library code; a fresh token is an
-- argument, and so is the second clock reading, that of `revoke_all_user_sessions`.
pub mod SingleUse
pub mod Fresh
mod Tests
use text.Mathlib.Text.{◌==◌ as str_eq}
use omni_crm_backend.Prelude.{
  ℕ, ◌+◌, String, Bool, true, false, not, ◌&&◌, ◌||◌, Option, none, some, List, Outcome, ok, err,
  leb, ◌==◌, is_some, if◌then◌else◌, first, update, insert,
}
use omni_crm_backend.Identity.{
  User, PasswordResetToken, EmailVerificationToken, Store, UserStatus, is_active_user,
}
use omni_crm_backend.Identity.Sessions.{revoke_all_user_sessions}

pub data TokenError : Type 0 where
  invalid_password_reset_token invalid_or_expired_token : TokenError

abbrev pub by_reset_hash : String → PasswordResetToken → Bool
by_reset_hash h t = str_eq t.token_hash h

abbrev pub by_verification_hash : String → EmailVerificationToken → Bool
by_verification_hash h t = str_eq t.token_hash h

module _ (sha256 : String → String) where
  unfoldable pub issue_password_reset_token : ℕ → ℕ → String → ℕ → ℕ → Store → String × Store
  issue_password_reset_token now id raw_token user_id lifetime db = (
    raw_token,
    record db {
      password_reset_tokens =
          insert
            (record {
              id = id;
              user_id = user_id;
              token_hash = sha256 raw_token;
              expires_at = now + lifetime;
              used_at = none;
            })
            db.password_reset_tokens;
    },
  )

  unfoldable pub issue_verification_token : ℕ → ℕ → String → ℕ → ℕ → Store → String × Store
  issue_verification_token now id raw_token user_id lifetime db = (
    raw_token,
    record db {
      email_verification_tokens =
          insert
            (record {
              id = id;
              user_id = user_id;
              token_hash = sha256 raw_token;
              expires_at = now + lifetime;
              used_at = none;
            })
            db.email_verification_tokens;
    },
  )

-- `token.used_at is not None`, then `expires_at <= now`
abbrev pub is_spent : ℕ → Option ℕ → ℕ → Bool
is_spent now used_at expires_at = is_some used_at || leb expires_at now

module _ (hash_password : String → String) where
  abbrev pub with_password : String → User → User
  with_password new_password u = record u { password_hash = hash_password new_password }

  -- The writes of a reset, of which the last is the revocation of the sessions.
  pub reset_written : ℕ → ℕ → String → PasswordResetToken → User → Store → Store
  reset_written now later new_password t u db = revoke_all_user_sessions later u.id (record db {
    users = update (λ x. x.id == u.id) (with_password new_password) db.users;
    password_reset_tokens =
        update (λ x. x.id == t.id) (λ x. record x { used_at = some now }) db.password_reset_tokens;
  })

  pub reset_user :
      ℕ → ℕ → String → PasswordResetToken → Store → Option User → Outcome TokenError User × Store
  reset_user now later new_password t db none = (err invalid_password_reset_token, db)
  reset_user now later new_password t db (some u) =
      if not (is_active_user u.status)
      then (err invalid_password_reset_token, db)
      else (ok (with_password new_password u), reset_written now later new_password t u db)

  pub reset_token :
      ℕ → ℕ → String → Store → Option PasswordResetToken → Outcome TokenError User × Store
  reset_token now later new_password db none = (err invalid_password_reset_token, db)
  reset_token now later new_password db (some t) =
      if is_spent now t.used_at t.expires_at
      then (err invalid_password_reset_token, db)
      else reset_user now later new_password t db (first (λ u. u.id == t.user_id) db.users)

  unfoldable pub reset_password :
      (String → String) → ℕ → ℕ → String → String → Store → Outcome TokenError User × Store
  unfolding reset_token reset_user reset_written
  reset_password sha256 now later raw_token new_password db =
      reset_token now later new_password db
        (first (by_reset_hash (sha256 raw_token)) db.password_reset_tokens)

abbrev pub verify_row : ℕ → User → User
verify_row now u = record u { email_verified_at = some now }

pub verify_user : ℕ → EmailVerificationToken → Store → Option User → Outcome TokenError User × Store
verify_user now t db none = (err invalid_or_expired_token, db)
verify_user now t db (some u) = (
  ok (verify_row now u),
  record db {
    email_verification_tokens =
        update (λ x. x.id == t.id) (λ x. record x { used_at = some now })
          db.email_verification_tokens;
    users = update (λ x. x.id == u.id) (verify_row now) db.users;
  },
)

pub verify_token : ℕ → Store → Option EmailVerificationToken → Outcome TokenError User × Store
verify_token now db none = (err invalid_or_expired_token, db)
verify_token now db (some t) =
    if is_spent now t.used_at t.expires_at
    then (err invalid_or_expired_token, db)
    else verify_user now t db (first (λ u. u.id == t.user_id) db.users)

unfoldable pub verify_email_token :
    (String → String) → ℕ → String → Store → Outcome TokenError User × Store
unfolding verify_token verify_user
verify_email_token sha256 now raw_token db =
    verify_token now db
      (first (by_verification_hash (sha256 raw_token)) db.email_verification_tokens)
