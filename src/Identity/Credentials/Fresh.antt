-- ===== src/Identity/Credentials/Fresh.antt =====
-- A token that has just been issued works until it expires.
use text.Mathlib.TextPositions.{eq_refl}
use omni_crm_backend.Prelude.{
  ℕ, ◌+◌, ◌≡◌, ◌<◌, String, true, false, none, some, arith, ok, ◌==◌, first,
}
use omni_crm_backend.Prelude.RowLaws.{first-append}
use omni_crm_backend.Identity.{User, Store, is_active_user}
use omni_crm_backend.Identity.Credentials.{
  issue_password_reset_token, issue_verification_token, reset_password, reset_token, reset_user,
  with_password, verify_email_token, verify_token, verify_user, verify_row, by_reset_hash,
  by_verification_hash, is_spent,
}

not_expired :
    (now now' lifetime : ℕ) → now' < now + lifetime → is_spent now' none (now + lifetime) ≡ false
not_expired now now' lifetime h = ground arith

-- A reset token whose hash is new sets the password of its active owner, if it comes in time.
pub issue-reset :
    (hash_password sha256 : String → String) (now now' later id user_id lifetime : ℕ)
    (raw_token new_password : String) (db : Store) (u : User)
    → first (by_reset_hash (sha256 raw_token)) db.password_reset_tokens ≡ none
    → first (λ x. x.id == user_id) db.users ≡ some u
    → is_active_user u.status ≡ true
    → now' < now + lifetime
    → (reset_password hash_password sha256 now' later raw_token new_password
        (issue_password_reset_token sha256 now id raw_token user_id lifetime db).1).0
      ≡ ok (with_password hash_password new_password u)
unfolding issue_password_reset_token reset_password reset_token reset_user
issue-reset hash_password sha256 now now' later id user_id lifetime raw_token new_password db u new
      owner active h =
    rw first-append (
      rw new (
        unfold first in
        rw (eq_refl (sha256 raw_token))
          (rw (not_expired now now' lifetime h) (rw owner (rw active)))))

-- A verification token whose hash is new verifies its owner's address, if it comes in time.
pub issue-verify :
    (sha256 : String → String) (now now' id user_id lifetime : ℕ) (raw_token : String) (db : Store)
    (u : User)
    → first (by_verification_hash (sha256 raw_token)) db.email_verification_tokens ≡ none
    → first (λ x. x.id == user_id) db.users ≡ some u
    → now' < now + lifetime
    → (verify_email_token sha256 now' raw_token
        (issue_verification_token sha256 now id raw_token user_id lifetime db).1).0
      ≡ ok (verify_row now' u)
unfolding issue_verification_token verify_email_token verify_token verify_user
issue-verify sha256 now now' id user_id lifetime raw_token db u new owner h = rw first-append (
    rw new (
      unfold first in
      rw (eq_refl (sha256 raw_token)) (rw (not_expired now now' lifetime h) (rw owner))))
