-- ===== src/Identity/Mfa.antt =====
-- app/services/mfa.py: the second factor. pyotp, Fernet, HMAC and Python's `str.strip().upper()` are
-- library code; `hash_code` stands for the HMAC of a normalised code, under the server's secret.
-- Fresh secrets and codes are arguments. An exception leaves the database as it was.
pub mod Passed
pub mod Recovery
mod Tests
use text.Mathlib.Text.{◌==◌ as str_eq}
use omni_crm_backend.Prelude.{
  ℕ, String, Bool, true, false, not, ◌&&◌, ◌||◌, Option, none, some, List, ◌++◌, map, Outcome, ok,
  err, ◌==◌, is_none, if◌then◌else◌, first, update, delete,
}
use omni_crm_backend.Identity.{User, MfaRecoveryCode, Store, is_active_user}

pub data MfaError : Type 0 where
  invalid_mfa_factor : MfaError

pub record MfaLibrary : Type 0 where
  pub encrypt : String → String
  pub decrypt : String → Option String
  pub totp_verify : ℕ → String → String → Bool
  pub provisioning_uri : String → String → String
  pub normalize_code : String → String
  pub hash_code : String → String
  pub verify_password : String → String → Bool

-- `not user.mfa_secret_encrypted` is the negation: neither None nor the empty text.
abbrev pub is_set : Option String → Bool
is_set none = false
is_set (some s) = not (str_eq s "")

abbrev pub is_user : ℕ → User → Bool
is_user user_id u = u.id == user_id && is_active_user u.status

abbrev pub owns_code : ℕ → MfaRecoveryCode → Bool
owns_code user_id c = c.user_id == user_id

abbrev pub usable : ℕ → String → MfaRecoveryCode → Bool
usable user_id h c = c.user_id == user_id && (str_eq c.code_hash h && is_none c.used_at)

module _ (lib : MfaLibrary) where
  abbrev pub hash_recovery_code : String → String
  hash_recovery_code code = lib.hash_code (lib.normalize_code code)

  abbrev pub decrypt_mfa_secret : String → Outcome MfaError String
  decrypt_mfa_secret ciphertext = elim (lib.decrypt ciphertext) [
    | none ↦ err invalid_mfa_factor
    | some secret ↦ ok secret
  ]

  -- The text that the database holds, where `is_set` has let it through.
  abbrev pub secret_of : Option String → Outcome MfaError String
  secret_of none = err invalid_mfa_factor
  secret_of (some ciphertext) = decrypt_mfa_secret ciphertext

  pub enroll_mfa : ℕ → String → Store → Outcome MfaError (String × String) × Store
  enroll_mfa user_id secret db = elim (first (is_user user_id) db.users) [
    | none ↦ (err invalid_mfa_factor, db)
    | some u ↦ if u.mfa_enabled then (err invalid_mfa_factor, db) else (
      ok (secret, lib.provisioning_uri secret u.email),
      record db {
        users =
            update (λ x. x.id == u.id)
              (λ x. record x {
                mfa_enabled = false;
                mfa_secret_encrypted = some (lib.encrypt secret);
              })
              db.users;
        recovery_codes = delete (owns_code u.id) db.recovery_codes;
      },
    )
  ]

  abbrev pub new_code : ℕ → ℕ × String → MfaRecoveryCode
  new_code user_id (id, code) = record {
    id = id;
    user_id = user_id;
    code_hash = hash_recovery_code code;
    used_at = none;
  }

  confirmed : ℕ → List (ℕ × String) → User → Store → Store
  confirmed now codes u db = record db {
    users = update (λ x. x.id == u.id) (λ x. record x { mfa_enabled = true }) db.users;
    recovery_codes = delete (owns_code u.id) db.recovery_codes ++ map (new_code u.id) codes;
  }

  confirm_with :
      ℕ
      → String
      → List (ℕ × String)
      → User
      → Store
      → Outcome MfaError String
      → Outcome MfaError (List String) × Store
  confirm_with now code codes u db (err e) = (err e, db)
  confirm_with now code codes u db (ok secret) =
      if lib.totp_verify now secret code
      then (ok (map (λ c. c.1) codes), confirmed now codes u db)
      else (err invalid_mfa_factor, db)

  -- `codes` are the ten codes that are drawn, each with the identifier of its row.
  pub confirm_mfa :
      ℕ → ℕ → String → List (ℕ × String) → Store → Outcome MfaError (List String) × Store
  unfolding confirm_with confirmed
  confirm_mfa now user_id code codes db = elim (first (is_user user_id) db.users) [
    | none ↦ (err invalid_mfa_factor, db)
    | some u ↦
        if u.mfa_enabled || not (is_set u.mfa_secret_encrypted)
        then (err invalid_mfa_factor, db)
        else confirm_with now code codes u db (secret_of u.mfa_secret_encrypted)
  ]

  abbrev pub use_code : ℕ → MfaRecoveryCode → MfaRecoveryCode
  use_code now c = record c { used_at = some now }

  recover : ℕ → User → String → Store → Outcome MfaError Bool × Store
  recover now u code db = elim (first (usable u.id (hash_recovery_code code)) db.recovery_codes) [
    | none ↦ (ok false, db)
    | some c ↦ (
      ok true,
      record db { recovery_codes = update (λ x. x.id == c.id) (use_code now) db.recovery_codes },
    )
  ]

  check_factor : ℕ → User → String → Store → Outcome MfaError String → Outcome MfaError Bool × Store
  check_factor now u code db (err e) = (err e, db)
  check_factor now u code db (ok secret) =
      if lib.totp_verify now secret code then (ok true, db) else recover now u code db

  unfoldable pub verify_mfa_factor : ℕ → User → String → Store → Outcome MfaError Bool × Store
  unfolding check_factor recover
  verify_mfa_factor now u code db =
      if not u.mfa_enabled || not (is_set u.mfa_secret_encrypted)
      then (ok false, db)
      else check_factor now u code db (secret_of u.mfa_secret_encrypted)

  -- The rows as they are once the factor has been checked; `before` is what a rollback restores.
  disable_rest : User → Store → Outcome MfaError Bool × Store → Outcome MfaError (Unit {0}) × Store
  disable_rest u before (err e, db) = (err e, before)
  disable_rest u before (ok false, db) = (err invalid_mfa_factor, before)
  disable_rest u before (ok true, db) = (
    ok tt,
    record db {
      users =
          update (λ x. x.id == u.id)
            (λ x. record x { mfa_enabled = false; mfa_secret_encrypted = none }) db.users;
      recovery_codes = delete (owns_code u.id) db.recovery_codes;
    },
  )

  pub disable_mfa : ℕ → ℕ → String → String → Store → Outcome MfaError (Unit {0}) × Store
  unfolding disable_rest
  disable_mfa now user_id password code db = elim (first (is_user user_id) db.users) [
    | none ↦ (err invalid_mfa_factor, db)
    | some u ↦
        if not (lib.verify_password u.password_hash password)
        then (err invalid_mfa_factor, db)
        else disable_rest u db (verify_mfa_factor now u code db)
  ]
