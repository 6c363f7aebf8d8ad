-- ===== src/Identity/Login/Tests.antt =====
-- The theorems on the handlers of app/api/v1/auth.py at concrete inputs.
use text.Mathlib.Text.{◌==◌ as str_eq}
use omni_crm_backend.Prelude.{◌≡◌, refl, true, some, [], ◌∷◌, ok, err, first, select}
use omni_crm_backend.Identity.{Store}
use omni_crm_backend.Identity.Sample.{ana, start, library, settings, fresh, membership}
use omni_crm_backend.Identity.Sessions.{SessionPair, issue_session_pair, validate_access_session}
use omni_crm_backend.Identity.Mfa.{MfaLibrary, verify_mfa_factor}
use omni_crm_backend.Identity.Login.{
  identity_of, identity_for, logout_of, Claims, TokenPurpose, authenticated, challenge_claims,
  login, login_user, enter, mfa_verify, verify_claims, verify_user, verified, enter_or_refuse,
  logout, require_current_identity, authentication_required,
}
use omni_crm_backend.Identity.Login.Factors.{PasswordOnly, TwoFactor, login_sound, mfa_verify_sound}
use omni_crm_backend.Identity.Login.Logout.{logout-require_current_identity}

abbrev mfa : MfaLibrary
mfa = record {
  encrypt = λ s. s;
  decrypt = λ s. some s;
  totp_verify = λ t secret code. str_eq secret code;
  provisioning_uri = λ secret name. name;
  normalize_code = λ s. s;
  hash_code = λ s. s;
  verify_password = λ h password. str_eq h password;
}

abbrev pair : SessionPair
pair = (issue_session_pair library settings 10 fresh 1 membership start).0

logged_in :
    (login library mfa settings 10 fresh "ana@example.com" "h" start).0 ≡ ok (authenticated pair)
unfolding login login_user enter first select
logged_in = refl

login_sound_example :
    PasswordOnly library mfa settings 10 fresh "ana@example.com" "h" start pair
      (login library mfa settings 10 fresh "ana@example.com" "h" start).1
login_sound_example =
    login_sound library mfa settings 10 fresh "ana@example.com" "h" start {pair = pair} logged_in

abbrev guarded : Store
guarded = record start {
  users = record ana { mfa_enabled = true; mfa_secret_encrypted = some "S" } ∷ [];
}

abbrev guarded_pair : SessionPair
guarded_pair = (issue_session_pair library settings 10 fresh 1 membership guarded).0

passed :
    (mfa_verify library mfa settings 10 fresh
      (some (challenge_claims TokenPurpose.mfa_challenge 1))
      "S"
      guarded).0
    ≡ ok (authenticated guarded_pair)
unfolding mfa_verify verify_claims verify_user verified enter_or_refuse enter first select
    verify_mfa_factor
passed = refl

mfa_verify_sound_example :
    (TokenPurpose.mfa_challenge ≡ TokenPurpose.mfa_challenge)
    × TwoFactor library mfa settings 10 fresh 1 "S" guarded guarded_pair
        (mfa_verify library mfa settings 10 fresh
          (some (challenge_claims TokenPurpose.mfa_challenge 1))
          "S"
          guarded).1
mfa_verify_sound_example =
    mfa_verify_sound library mfa settings 10 fresh (challenge_claims TokenPurpose.mfa_challenge 1)
      "S" guarded {pair = guarded_pair} passed

abbrev opened : Store
opened = (issue_session_pair library settings 10 fresh 1 membership start).1

abbrev bearer : Claims
bearer = record { purpose = TokenPurpose.access; claims = pair.access_token }

logged_out : (logout 20 (some bearer) opened).0 ≡ ok tt
unfolding logout logout_of require_current_identity identity_for identity_of validate_access_session
    issue_session_pair first
logged_out = refl

logout-require_current_identity_run :
    require_current_identity 30 (some bearer) (logout 20 (some bearer) opened).1
    ≡ err authentication_required
logout-require_current_identity_run =
    logout-require_current_identity 20 30 (some bearer) opened logged_out
