-- ===== src/Identity/Login/Logout.antt =====
-- What a logout leaves of the caller's access token.
use omni_crm_backend.Prelude.{
  ◌≢◌, ℕ, ◌≡◌, refl, Option, none, some, inl, inr, ok, err, Outcome-cases,
}
use omni_crm_backend.Identity.{Store, AuthSession}
use omni_crm_backend.Identity.Sessions.{TokenClaims, validate_access_session, revoke_session}
use omni_crm_backend.Identity.Sessions.Inversion.{validate_sound}
use omni_crm_backend.Identity.Sessions.Revocation.{revoke-validate}
use omni_crm_backend.Identity.Login.{
  Claims, TokenPurpose, authentication_required, require_current_identity, identity_for,
  identity_of, logout, logout_of,
}

identity_denied :
    (now : ℕ) (db : Store) (c : TokenClaims) (p : TokenPurpose)
    → ((s : AuthSession) → validate_access_session now db c ≢ ok s)
    → identity_for now db c p ≡ err authentication_required
unfolding identity_for identity_of
identity_denied now db c TokenPurpose.access none_valid =
    elim (Outcome-cases (validate_access_session now db c)) [
      | inl (e, h) ↦ rw h refl
      | inr (s, h) ↦ absurd (none_valid s h)
    ]
identity_denied now db c TokenPurpose.mfa_challenge none_valid = refl
identity_denied now db c TokenPurpose.tenant_selection none_valid = refl

ended :
    (now now' : ℕ) (c : TokenClaims) (p : TokenPurpose) (db : Store)
    → (logout_of now db (identity_for now db c p)).0 ≡ ok tt
    → identity_for now' (logout_of now db (identity_for now db c p)).1 c p
      ≡ err authentication_required
unfolding logout_of identity_for identity_of
ended now now' c TokenPurpose.access db h =
    elim (Outcome-cases (validate_access_session now db c)) [
      | inl (e, v) ↦
          (let h' : (logout_of now db (identity_of (err e))).0 ≡ ok tt = rw v at h in absurd (cc))
      | inr (s, v) ↦
          let row = validate_sound now db c v in
          rw v (
            identity_denied now' (revoke_session now s.id s.user_id db) c TokenPurpose.access
              (revoke-validate now now' s.id s.user_id db c row.session row.subject))
    ]
ended now now' c TokenPurpose.mfa_challenge db h = absurd (cc)
ended now now' c TokenPurpose.tenant_selection db h = absurd (cc)

-- After a logout, the access token that it came with authenticates no further request.
pub logout-require_current_identity :
    (now now' : ℕ) (credentials : Option Claims) (db : Store)
    → (logout now credentials db).0 ≡ ok tt
    → require_current_identity now' credentials (logout now credentials db).1
      ≡ err authentication_required
unfolding logout require_current_identity
logout-require_current_identity now now' none db h = refl
logout-require_current_identity now now' (some c) db h = ended now now' c.claims c.purpose db h
