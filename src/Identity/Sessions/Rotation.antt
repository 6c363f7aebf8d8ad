-- ===== src/Identity/Sessions/Rotation.antt =====
-- What rotation does to the table of refresh tokens, call by call.
use text.Mathlib.Text.{◌==◌ as str_eq}
use omni_crm_backend.Prelude.{
  ℕ, ◌≡◌, refl, ap, ◌⊎◌, String, true, inl, inr, Option, none, some, arith, Outcome, ok, err, ◌==◌,
  is_some, first, Option-cases, Outcome-cases,
}
use omni_crm_backend.Identity.{AuthSession, RefreshToken, Store}
use omni_crm_backend.Identity.Sessions.{
  Library, Settings, Fresh, SessionPair, SessionError, parse_refresh, access_for,
  validate_access_session, consume, replay, present, live_branch, rotate_refresh_token,
}
use omni_crm_backend.Identity.Sessions.Inversion.{Rotates, rotate_inv, rotate-eq-consume}

-- A token that was presented and found to be consumed already.
pub record Replays (lib : Library) (raw_token : String) (db : Store) : Type 0 where
  pub token_id : ℕ
  pub secret : String
  pub token : RefreshToken
  pub session : AuthSession
  pub consumed : ℕ
  pub parsed : parse_refresh lib raw_token ≡ ok (token_id, secret)
  pub found : first (λ t. t.id == token_id) db.refresh_tokens ≡ some token
  pub secret_ok : str_eq token.secret_hash (lib.sha256 secret) ≡ true
  pub consumed_at : token.consumed_at ≡ some consumed
  pub session_found : first (λ r. r.id == token.session_id) db.auth_sessions ≡ some session

module _ (lib : Library) (settings : Settings) (now : ℕ) (fresh : Fresh) (raw_token : String)
    (db : Store) where
  pub rotate-eq-replay :
      (r : Replays lib raw_token db)
      → rotate_refresh_token lib settings now fresh raw_token db
        ≡ replay lib settings now r.token db (some r.session)
  unfolding rotate_refresh_token present
  rotate-eq-replay r =
      rw (r.parsed, rotate_refresh_token)
        (rw (r.found, present) (rw r.secret_ok (rw r.consumed_at (rw r.session_found))))

  -- The three things that a call can do to the database.
  pub data Effect (x : Outcome SessionError SessionPair × Store) : Type 0 where
    unchanged : (e : SessionError) → x ≡ (err e, db) → Effect x
    revokes :
        (r : Replays lib raw_token db)
        → x ≡ replay lib settings now r.token db (some r.session)
        → Effect x
    rotates :
        (r : Rotates lib now raw_token db)
        → x ≡ consume lib settings now fresh r.token db r.session
        → Effect x

  replay_failed :
      (token : RefreshToken) (o : Option AuthSession)
      → ((e : SessionError) × (replay lib settings now token db o ≡ (err e, db)))
        ⊎ ((s : AuthSession) × (o ≡ some s))
  unfolding replay
  replay_failed token none = inl (SessionError.attribute_error, refl)
  replay_failed token (some s) = inr (s, refl)

  live_failed :
      (token : RefreshToken) (o : Option AuthSession) {e : SessionError}
      → (live_branch lib settings now fresh token db o).0 ≡ err e
      → live_branch lib settings now fresh token db o ≡ (err e, db)
  unfolding live_branch consume
  live_failed token none h = ground arith
  live_failed token (some s) h =
      elim (Outcome-cases (validate_access_session now db (access_for s))) [
        | inl (e, bad) ↦ ground (arith, bad)
        | inr (v, good) ↦ absurd (ground (arith, good))
      ]

  present_failed :
      (secret : String) (token : RefreshToken) {e : SessionError}
      → (present lib settings now fresh secret db (some token)).0 ≡ err e
      → (present lib settings now fresh secret db (some token) ≡ (err e, db))
        ⊎ ((str_eq token.secret_hash (lib.sha256 secret) ≡ true)
            × (is_some token.consumed_at ≡ true))
  unfolding present
  present_failed secret token {e} h =
      ground
        (arith, live_failed token (first (λ r. r.id == token.session_id) db.auth_sessions) {e = e})

  some_of_is_some : {o : Option ℕ} → is_some o ≡ true → (n : ℕ) × (o ≡ some n)
  some_of_is_some {o} h = elim (Option-cases o) [
    | inl e ↦ absurd (cc (ap is_some e))
    | inr (n, e) ↦ (n, e)
  ]

  Effect-of_consumed :
      (token_id : ℕ) (secret : String) (token : RefreshToken)
      → parse_refresh lib raw_token ≡ ok (token_id, secret)
      → first (λ t. t.id == token_id) db.refresh_tokens ≡ some token
      → str_eq token.secret_hash (lib.sha256 secret) ≡ true
      → (consumed : ℕ) → token.consumed_at ≡ some consumed
      → Effect (rotate_refresh_token lib settings now fresh raw_token db)
  unfolding rotate_refresh_token present
  Effect-of_consumed token_id secret token parsed found secret_ok consumed at =
      elim (Option-cases (first (λ r. r.id == token.session_id) db.auth_sessions)) [
        | inl e ↦ unchanged SessionError.attribute_error (
            rw (parsed, rotate_refresh_token)
              (rw (found, present) (rw secret_ok (rw at (rw e (unfold replay in refl))))))
        | inr (s, e) ↦
            let r : Replays lib raw_token db = record {
              token_id = token_id;
              secret = secret;
              token = token;
              session = s;
              consumed = consumed;
              parsed = parsed;
              found = found;
              secret_ok = secret_ok;
              consumed_at = at;
              session_found = e;
            } in
            revokes r (rotate-eq-replay r)
      ]

  Effect-of_found :
      (token_id : ℕ) (secret : String) (o : Option RefreshToken) {e : SessionError}
      → parse_refresh lib raw_token ≡ ok (token_id, secret)
      → first (λ t. t.id == token_id) db.refresh_tokens ≡ o
      → (present lib settings now fresh secret db o).0 ≡ err e
      → Effect (rotate_refresh_token lib settings now fresh raw_token db)
  unfolding rotate_refresh_token
  Effect-of_found token_id secret none parsed found h =
      unchanged SessionError.invalid_refresh_token
        (rw (parsed, rotate_refresh_token) (rw found (unfold present in refl)))
  Effect-of_found token_id secret (some token) {e} parsed found h =
      elim (present_failed secret token h) [
        | inl same ↦ unchanged e (rw (parsed, rotate_refresh_token) (rw found same))
        | inr (secret_ok, consumed) ↦
            let (n, at) = some_of_is_some consumed in
            Effect-of_consumed token_id secret token parsed found secret_ok n at
      ]

  -- Every call leaves the database alone, or revokes a family, or consumes one token.
  pub rotate-Effect : Effect (rotate_refresh_token lib settings now fresh raw_token db)
  unfolding rotate_refresh_token
  rotate-Effect =
      elim (Outcome-cases (rotate_refresh_token lib settings now fresh raw_token db).0) [
        | inr (pair, h) ↦
            let r = rotate_inv lib settings now fresh raw_token db h in
            rotates r (rotate-eq-consume lib settings now fresh raw_token db r)
        | inl (e, h) ↦ elim (Outcome-cases (parse_refresh lib raw_token)) [
          | inl (e', bad) ↦ unchanged e' (rw (bad, rotate_refresh_token))
          | inr ((token_id, secret), parsed) ↦
              Effect-of_found token_id secret (first (λ t. t.id == token_id) db.refresh_tokens)
                parsed refl (rw (parsed, rotate_refresh_token) at h)
        ]
      ]
