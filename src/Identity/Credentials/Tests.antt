-- ===== src/Identity/Credentials/Tests.antt =====
-- The theorems on mailed tokens at concrete inputs.
use omni_crm_backend.Prelude.{none, ◌≡◌, ◌≢◌, refl, String, some, arith, ok, err, first, minutes}
use omni_crm_backend.Identity.{SessionStatus, AuthSession, Store}
use omni_crm_backend.Identity.Sample.{ana, start}
use omni_crm_backend.Identity.Sessions.{TokenClaims, validate_access_session}
use omni_crm_backend.Identity.Credentials.{
  issue_password_reset_token, issue_verification_token, reset_password, verify_email_token,
  verify_row, with_password, invalid_password_reset_token,
}
use omni_crm_backend.Identity.Credentials.SingleUse.{reset-reset, reset-validate}
use omni_crm_backend.Identity.Credentials.Fresh.{issue-reset, issue-verify}

abbrev digest : String → String
digest s = s

abbrev asked : Store
asked = (issue_password_reset_token digest 10 7 "tok" 1 (minutes 30) start).1

issue-reset_example :
    (reset_password digest digest 20 21 "tok" "new" asked).0 ≡ ok (with_password digest "new" ana)
unfolding first
issue-reset_example =
    issue-reset digest digest 10 20 21 7 1 (minutes 30) "tok" "new" start ana refl refl refl
      (omega arith)

issue-verify_run :
    (verify_email_token digest 20 "tok"
      (issue_verification_token digest 10 7 "tok" 1 (minutes 30) start).1).0
    ≡ ok (verify_row 20 ana)
unfolding first
issue-verify_run =
    issue-verify digest 10 20 7 1 (minutes 30) "tok" start ana refl refl (omega arith)

reset-reset_example :
    reset_password digest digest 30 31 "tok" "other"
      (reset_password digest digest 20 21 "tok" "new" asked).1
    ≡ (err invalid_password_reset_token, (reset_password digest digest 20 21 "tok" "new" asked).1)
reset-reset_example =
    reset-reset digest digest 20 21 30 31 "tok" "new" "other" asked
      {u = with_password digest "new" ana} issue-reset_example

abbrev bearer : TokenClaims
bearer = record { subject = 1; session_id = some 2; tenant_id = some 9; membership_id = some 5 }

abbrev opened : AuthSession
opened = record {
  id = 2;
  user_id = 1;
  membership_id = 5;
  tenant_id = 9;
  status = SessionStatus.active;
  expires_at = 100;
  revoked_at = none;
}

reset-validate_run :
    validate_access_session 30 (reset_password digest digest 20 21 "tok" "new" asked).1 bearer
    ≢ ok opened
reset-validate_run =
    reset-validate digest digest 20 21 30 "tok" "new" asked bearer
      {u = with_password digest "new" ana} issue-reset_example refl opened
