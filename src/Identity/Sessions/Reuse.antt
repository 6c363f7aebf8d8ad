-- ===== src/Identity/Sessions/Reuse.antt =====
-- A refresh token is good for one rotation.
use omni_crm_backend.Prelude.{
  ℕ, ◌≡◌, refl, String, true, some, arith, ok, err, ◌==◌, first, All, ==_refl, is_some,
}
use omni_crm_backend.Prelude.RowLaws.{first-append, first-update, All-update_where}
use omni_crm_backend.Identity.{Store, SessionStatus}
use omni_crm_backend.Identity.Sessions.{
  Library, Settings, Fresh, SessionPair, consume, replay, rotate_refresh_token, refresh_replay,
  revoke_row, revoke_token,
}
use omni_crm_backend.Identity.Sessions.Inversion.{Rotates, rotate_inv, rotate-eq-consume}
use omni_crm_backend.Identity.Sessions.Rotation.{Replays, rotate-eq-replay}

-- Every token of the family is revoked.
abbrev pub IsDead : ℕ → Store → Type 0
IsDead family db = All (λ t. t.family_id ≡ family → is_some t.revoked_at ≡ true) db.refresh_tokens

module _ (lib : Library) (settings : Settings) where
  found_consumed :
      (now : ℕ) (fresh : Fresh) (raw_token : String) (db : Store) (r : Rotates lib now raw_token db)
      → first
          (λ t. t.id == r.token_id)
          (consume lib settings now fresh r.token db r.session).1.refresh_tokens
        ≡ some (record (r.token) { consumed_at = some now })
  unfolding consume
  found_consumed now fresh raw_token db r = rw first-append (
      rw
        (first-update (λ t. t.id == r.token_id) (λ t. t.id == r.token.id)
          (λ t. record t { consumed_at = some now }) (λ t. ground arith) db.refresh_tokens)
        (rw r.found (rw (==_refl r.token.id))))

  -- The token of a rotation that succeeded, presented again at any later time, is a replay.
  pub rotate-rotate :
      (now now' : ℕ) (fresh fresh' : Fresh) (raw_token : String) (db : Store) {pair : SessionPair}
      → (rotate_refresh_token lib settings now fresh raw_token db).0 ≡ ok pair
      → (rotate_refresh_token lib settings now' fresh' raw_token
          (rotate_refresh_token lib settings now fresh raw_token db).1).0
        ≡ err refresh_replay
  rotate-rotate now now' fresh fresh' raw_token db h =
      let r = rotate_inv lib settings now fresh raw_token db h in
      let db' = (consume lib settings now fresh r.token db r.session).1 in
      let again : Replays lib raw_token db' = record {
        token_id = r.token_id;
        secret = r.secret;
        token = record (r.token) { consumed_at = some now };
        session = r.session;
        consumed = now;
        parsed = r.parsed;
        found = found_consumed now fresh raw_token db r;
        secret_ok = r.secret_ok;
        consumed_at = refl;
        session_found = unfold consume in r.session_found;
      } in
      rw (rotate-eq-consume lib settings now fresh raw_token db r)
        (rw (rotate-eq-replay lib settings now' fresh' raw_token db' again) (unfold replay in refl))

  -- A replay raises, and leaves no usable token in the family and no usable row of the session.
  pub replay_revokes :
      (now : ℕ) (fresh : Fresh) (raw_token : String) (db : Store) (r : Replays lib raw_token db)
      → ((rotate_refresh_token lib settings now fresh raw_token db).0 ≡ err refresh_replay)
        × IsDead r.token.family_id (rotate_refresh_token lib settings now fresh raw_token db).1
        × All
            (λ s. s.id ≡ r.session.id → s.status ≡ SessionStatus.revoked)
            (rotate_refresh_token lib settings now fresh raw_token db).1.auth_sessions
  replay_revokes now fresh raw_token db r =
      rw (rotate-eq-replay lib settings now fresh raw_token db r) (
        unfold replay in refl,
        unfold replay in
            All-update_where _ (λ t. t.family_id == r.token.family_id)
              (revoke_token lib settings now) (λ t h e. refl) (λ t h e. absurd (ground arith))
              db.refresh_tokens,
        unfold replay in
            All-update_where _ (λ s. s.id == r.session.id) (revoke_row lib settings now)
              (λ s h e. refl) (λ s h e. absurd (ground arith)) db.auth_sessions,
      )
