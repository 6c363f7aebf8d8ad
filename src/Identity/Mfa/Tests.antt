-- ===== src/Identity/Mfa/Tests.antt =====
-- The theorem on recovery codes at a concrete input.
use text.Mathlib.Text.{◌==◌ as str_eq}
use omni_crm_backend.Prelude.{
  ◌≤◌, ◌≡◌, refl, true, false, none, some, [], ◌∷◌, arith, ok, first, count,
}
use omni_crm_backend.Identity.{User, Store}
use omni_crm_backend.Identity.Sample.{ana, start}
use omni_crm_backend.Identity.Mfa.{MfaLibrary, verify_mfa_factor, hash_recovery_code, usable}
use omni_crm_backend.Identity.Mfa.Recovery.{verify-verify}

-- One-time passwords are never right here, so that only recovery codes are.
abbrev pub library : MfaLibrary
library = record {
  encrypt = λ s. s;
  decrypt = λ s. some s;
  totp_verify = λ t secret code. false;
  provisioning_uri = λ secret name. name;
  normalize_code = λ s. s;
  hash_code = λ s. s;
  verify_password = λ h password. str_eq h password;
}

abbrev ana_mfa : User
ana_mfa = record ana { mfa_enabled = true; mfa_secret_encrypted = some "S" }

abbrev database : Store
database = record start {
  users = ana_mfa ∷ [];
  recovery_codes = record { id = 7; user_id = 1; code_hash = "AAAA"; used_at = none } ∷ [];
}

one_code : count (usable 1 (hash_recovery_code library "AAAA")) database.recovery_codes ≤ 1
unfolding count
one_code = omega arith

accepted : (verify_mfa_factor library 20 ana_mfa "AAAA" database).0 ≡ ok true
unfolding verify_mfa_factor first
accepted = refl

verify-verify_run :
    verify_mfa_factor library 30 ana_mfa "AAAA"
      (verify_mfa_factor library 20 ana_mfa "AAAA" database).1
    ≡ (ok false, (verify_mfa_factor library 20 ana_mfa "AAAA" database).1)
verify-verify_run =
    verify-verify library "AAAA" (λ t secret. refl) ana_mfa 20 30 database one_code accepted
