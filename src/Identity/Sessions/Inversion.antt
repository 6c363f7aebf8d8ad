-- ===== src/Identity/Sessions/Inversion.antt =====
-- What a call of `rotate_refresh_token` or `validate_access_session` that succeeds has met.
use text.Mathlib.Text.{◌==◌ as str_eq}
use omni_crm_backend.Prelude.{
  All, ℕ, ◌<◌, ◌≡◌, refl, String, true, false, inl, inr, Option, none, some, arith, ok, leb, ◌==◌,
  first, Option-cases, Outcome-cases,
}
use omni_crm_backend.Identity.{AuthSession, RefreshToken, Store, SessionStatus}
use omni_crm_backend.Identity.Sessions.{
  Library, Settings, Fresh, SessionPair, TokenClaims, parse_refresh, access_for,
  validate_access_session, validate_ids, unexpired, matches_claims, joins_user, joins_membership,
  consume, live_branch, present, replay, rotate_refresh_token,
}
use omni_crm_backend.Prelude.RowLaws.{All-first, first_sound}

-- A session row that the claims may act for at `now`.
pub record Authorizes (now : ℕ) (db : Store) (claims : TokenClaims) (s : AuthSession) : Type 0 where
  pub session : claims.session_id ≡ some s.id
  pub subject : claims.subject ≡ s.user_id
  pub tenant : claims.tenant_id ≡ some s.tenant_id
  pub membership : claims.membership_id ≡ some s.membership_id
  pub status : s.status ≡ SessionStatus.active
  pub unexpired : now < s.expires_at
  pub user : joins_user db s ≡ true
  pub member : joins_membership db s ≡ true

matches_parts :
    (now : ℕ) (db : Store) (sub sid tid mid : ℕ) (s : AuthSession)
    → matches_claims db sub sid tid mid s ≡ true
    → now < s.expires_at
    → Authorizes now db
        (record {
          subject = sub;
          session_id = some sid;
          tenant_id = some tid;
          membership_id = some mid;
        })
        s
unfolding matches_claims
matches_parts now db sub sid tid mid s h e = ground arith

unexpired_inv :
    (now : ℕ) (o : Option AuthSession) {s : AuthSession}
    → unexpired now o ≡ ok s
    → (o ≡ some s) × (now < s.expires_at)
unfolding unexpired
unexpired_inv now o h = ground arith

ids :
    (now : ℕ) (db : Store) (sub : ℕ) (sid tid mid : Option ℕ) {s : AuthSession}
    → validate_ids now db sub sid tid mid ≡ ok s
    → Authorizes now db
        (record { subject = sub; session_id = sid; tenant_id = tid; membership_id = mid })
        s
unfolding validate_ids
ids now db sub (some sid) (some tid) (some mid) {s} h =
    let (found, later) =
      unexpired_inv now (first (matches_claims db sub sid tid mid) db.auth_sessions) h in
    matches_parts now db sub sid tid mid s
      (first_sound (matches_claims db sub sid tid mid) db.auth_sessions found) later
ids now db sub none tid mid h = absurd (cc)
ids now db sub (some sid) none mid h = absurd (cc)
ids now db sub (some sid) (some tid) none h = absurd (cc)

-- Claims that name an active, unexpired session of an active user and an active membership are
-- the only ones that are accepted, and what is returned is that session.
pub validate_sound :
    (now : ℕ) (db : Store) (claims : TokenClaims) {s : AuthSession}
    → validate_access_session now db claims ≡ ok s
    → Authorizes now db claims s
unfolding validate_access_session
validate_sound now db claims {s} h =
    ids now db claims.subject claims.session_id claims.tenant_id claims.membership_id h

-- The rows that a rotation which succeeds has found, and its tests.
pub record Rotates (lib : Library) (now : ℕ) (raw_token : String) (db : Store) : Type 0 where
  pub token_id : ℕ
  pub secret : String
  pub token : RefreshToken
  pub session : AuthSession
  pub parsed : parse_refresh lib raw_token ≡ ok (token_id, secret)
  pub found : first (λ t. t.id == token_id) db.refresh_tokens ≡ some token
  pub secret_ok : str_eq token.secret_hash (lib.sha256 secret) ≡ true
  pub unconsumed : token.consumed_at ≡ none
  pub unrevoked : token.revoked_at ≡ none
  pub unexpired : now < token.expires_at
  pub session_found : first (λ r. r.id == token.session_id) db.auth_sessions ≡ some session
  pub valid : (v : AuthSession) × (validate_access_session now db (access_for session) ≡ ok v)

module _ (lib : Library) (settings : Settings) (now : ℕ) (fresh : Fresh) (raw_token : String)
    (db : Store) where
  live_inv :
      (token : RefreshToken) (o : Option AuthSession) {pair : SessionPair}
      → (live_branch lib settings now fresh token db o).0 ≡ ok pair
      → (s : AuthSession) × (o ≡ some s)
        × ((v : AuthSession) × (validate_access_session now db (access_for s) ≡ ok v))
  unfolding live_branch
  live_inv token none h = absurd (cc)
  live_inv token (some s) h = elim (Outcome-cases (validate_access_session now db (access_for s))) [
    | inl (e, bad) ↦ absurd (ground (arith, bad))
    | inr (v, good) ↦ (s, refl, (v, good))
  ]

  present-none :
      (secret : String) {pair : SessionPair}
      → (present lib settings now fresh secret db none).0 ≡ ok pair
      → ⊥
  unfolding present
  present-none secret h = cc

  present_tests :
      (secret : String) (token : RefreshToken) {pair : SessionPair}
      → (present lib settings now fresh secret db (some token)).0 ≡ ok pair
      → (str_eq token.secret_hash (lib.sha256 secret) ≡ true)
        × (token.consumed_at ≡ none)
        × (token.revoked_at ≡ none)
        × (now < token.expires_at)
        × ((live_branch lib settings now fresh token db
              (first (λ r. r.id == token.session_id) db.auth_sessions)).0
            ≡ ok pair)
  unfolding present replay
  present_tests secret token h = ground arith

  pub rotate_inv :
      {pair : SessionPair}
      → (rotate_refresh_token lib settings now fresh raw_token db).0 ≡ ok pair
      → Rotates lib now raw_token db
  unfolding rotate_refresh_token
  rotate_inv {pair} h = elim (Outcome-cases (parse_refresh lib raw_token)) [
    | inl (e, bad) ↦ absurd (ground (arith, bad))
    | inr ((token_id, secret), parsed) ↦
        elim (Option-cases (first (λ t. t.id == token_id) db.refresh_tokens)) [
          | inl missing ↦
              absurd (present-none secret (rw missing at (rw (parsed, rotate_refresh_token) at h)))
          | inr (token, found) ↦
              let accepted : (present lib settings now fresh secret db (some token)).0 ≡ ok pair =
                rw found at (rw (parsed, rotate_refresh_token) at h) in
              let (secret_ok, unconsumed, unrevoked, unexpired, rest) =
                present_tests secret token accepted in
              let (s, session_found, valid) =
                live_inv token (first (λ r. r.id == token.session_id) db.auth_sessions) rest in
              record {
                token_id = token_id;
                secret = secret;
                token = token;
                session = s;
                parsed = parsed;
                found = found;
                secret_ok = secret_ok;
                unconsumed = unconsumed;
                unrevoked = unrevoked;
                unexpired = unexpired;
                session_found = session_found;
                valid = valid;
              }
        ]
  ]

  not_expired : (at e : ℕ) → at < e → leb e at ≡ false
  not_expired at e h = ground arith

  -- A rotation that meets the conditions writes what `consume` writes.
  pub rotate-eq-consume :
      (r : Rotates lib now raw_token db)
      → rotate_refresh_token lib settings now fresh raw_token db
        ≡ consume lib settings now fresh r.token db r.session
  unfolding rotate_refresh_token present live_branch
  rotate-eq-consume r =
      rw (r.parsed, rotate_refresh_token)
        (rw (r.found, present)
          (rw (r.secret_ok) (
            rw (r.unconsumed) (
              rw (r.unrevoked) (
                rw (not_expired now r.token.expires_at r.unexpired)
                  (rw (r.session_found, live_branch) (rw (r.valid.1, live_branch))))))))

-- The session that is accepted is a row of the table.
validate_ids-All {κ} :
    (P : AuthSession → Type κ) (now : ℕ) (db : Store) (sub : ℕ) (sid tid mid : Option ℕ)
    {s : AuthSession}
    → validate_ids now db sub sid tid mid ≡ ok s
    → All P db.auth_sessions
    → P s
unfolding validate_ids
validate_ids-All P now db sub (some sid) (some tid) (some mid) {s} h rows =
    All-first P (matches_claims db sub sid tid mid) db.auth_sessions rows
      (unexpired_inv now (first (matches_claims db sub sid tid mid) db.auth_sessions) h).0
validate_ids-All P now db sub none tid mid h rows = absurd (cc)
validate_ids-All P now db sub (some sid) none mid h rows = absurd (cc)
validate_ids-All P now db sub (some sid) (some tid) none h rows = absurd (cc)

pub validate-All {κ} :
    (P : AuthSession → Type κ) (now : ℕ) (db : Store) (claims : TokenClaims) {s : AuthSession}
    → validate_access_session now db claims ≡ ok s
    → All P db.auth_sessions
    → P s
unfolding validate_access_session
validate-All P now db claims h rows =
    validate_ids-All P now db claims.subject claims.session_id claims.tenant_id claims.membership_id
      h rows
