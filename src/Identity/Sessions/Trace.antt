-- ===== src/Identity/Sessions/Trace.antt =====
-- The session operations as steps of the database, and what every history of them keeps.
use omni_crm_backend.Prelude.{
  ap, ◌∙◌, inl, inr, false, ◌&&◌, ==_refl, Option-cases, Bool, ◌∷◌, [], ℕ, ◌≤◌, ◌<◌, ◌≡◌, ◌≢◌, refl,
  String, true, some, arith, ok, ◌==◌, is_some, first, update, All, count,
}
use omni_crm_backend.Prelude.RowLaws.{
  count-pos_of_first, count-none_of_All, All-first, All-map, All-update, All-append, count-append,
  count-update_keep,
}
use omni_crm_backend.Identity.{RefreshToken, Membership, Store}
use omni_crm_backend.Identity.Sessions.{
  parse_refresh, Library, Settings, Fresh, SessionPair, consume, replay, rotate_refresh_token,
  issue_session_pair, revoke_session, revoke_all_user_sessions, new_refresh, replacement,
  revoke_token, owned_by, revoke_sessions_of,
}
use omni_crm_backend.Identity.Sessions.Inversion.{Rotates, rotate_inv}
use omni_crm_backend.Identity.Sessions.Rotation.{
  rotate-eq-replay, Replays, unchanged, revokes, rotates, rotate-Effect,
}
use omni_crm_backend.Identity.Sessions.Reuse.{replay_revokes, IsDead}
use omni_crm_backend.Identity.Sessions.Families.{
  live_count, rotate-live_count, issue-live_count, revoke-live_count, revoke_all-live_count,
}

module _ (lib : Library) (settings : Settings) where
  -- A call of one of the operations, at any time and with any arguments. `uuid4` gives a family
  -- that no token has.
  pub data Step (db : Store) : Store → Type 0 where
    issue :
        (now : ℕ) (fresh : Fresh) (user_id : ℕ) (m : Membership)
        → All (λ t. t.family_id ≢ fresh.family_id) db.refresh_tokens
        → Step db (issue_session_pair lib settings now fresh user_id m db).1
    rotate :
        (now : ℕ) (fresh : Fresh) (raw_token : String)
        → Step db (rotate_refresh_token lib settings now fresh raw_token db).1
    revoke : (now session_id user_id : ℕ) → Step db (revoke_session now session_id user_id db)
    revoke_all : (now user_id : ℕ) → Step db (revoke_all_user_sessions now user_id db)

  pub data Reach (db : Store) : Store → Type 0 where
    here : Reach db db
    next : {db' db'' : Store} → Reach db db' → Step db' db'' → Reach db db''

  Step-live_count :
      {db db' : Store}
      → Step db db'
      → (family : ℕ) → live_count family db ≤ 1
      → live_count family db' ≤ 1
  Step-live_count {db} (issue now fresh user_id m new) family h =
      issue-live_count lib settings now fresh user_id m db family new h
  Step-live_count {db} (rotate now fresh raw_token) family h =
      omega (arith, rotate-live_count lib settings now fresh raw_token db family)
  Step-live_count {db} (revoke now session_id user_id) family h =
      omega (arith, revoke-live_count now session_id user_id db family)
  Step-live_count {db} (revoke_all now user_id) family h =
      omega (arith, revoke_all-live_count now user_id db family)

  -- Through any history of the four operations, a family that has at most one usable refresh token
  -- keeps at most one, provided that each new session draws an unused family.
  pub Reach-live_count :
      {db db' : Store}
      → Reach db db'
      → (family : ℕ) → live_count family db ≤ 1
      → live_count family db' ≤ 1
  Reach-live_count here family h = h
  Reach-live_count (next r st) family h = Step-live_count st family (Reach-live_count r family h)

  -- A family that has been used and whose tokens are all revoked.
  pub record IsBurnt (family : ℕ) (db : Store) : Type 0 where
    pub known : 0 < count (λ t. t.family_id == family) db.refresh_tokens
    pub dead : IsDead family db

  -- A rotation that succeeds is of another family.
  rotates-ne :
      (now : ℕ) (raw_token : String) (db : Store) (family : ℕ)
      → IsDead family db
      → (r : Rotates lib now raw_token db) → r.token.family_id ≢ family
  rotates-ne now raw_token db family dead r e =
      let revoked : is_some r.token.revoked_at ≡ true =
        All-first (λ t. t.family_id ≡ family → is_some t.revoked_at ≡ true)
          (λ t. t.id == r.token_id) db.refresh_tokens dead r.found e in
      cc (r.unrevoked, revoked)

  abbrev of_family : ℕ → RefreshToken → Bool
  of_family family t = t.family_id == family

  abbrev Dead : ℕ → RefreshToken → Type 0
  Dead family t = t.family_id ≡ family → is_some t.revoked_at ≡ true

  rotate-IsBurnt :
      (now : ℕ) (fresh : Fresh) (raw_token : String) (db : Store) (family : ℕ)
      → IsBurnt family db
      → IsBurnt family (rotate_refresh_token lib settings now fresh raw_token db).1
  rotate-IsBurnt now fresh raw_token db family h =
      elim (rotate-Effect lib settings now fresh raw_token db) [
        | unchanged e same ↦ rw same h
        | revokes r same ↦ rw same (
            unfold replay in
            record {
              known =
                  rw
                    (count-update_keep (of_family family) (λ t. t.family_id == r.token.family_id)
                      (revoke_token lib settings now) (λ t. ground arith) db.refresh_tokens)
                    h.known;
              dead =
                  All-update (Dead family) (λ t. t.family_id == r.token.family_id)
                    (revoke_token lib settings now) (λ t _ _ _. refl) db.refresh_tokens h.dead;
            })
        | rotates r same ↦ rw same (
            unfold consume in
            record {
              known = rw count-append (
                  rw
                    (count-update_keep (of_family family) (λ t. t.id == r.token.id)
                      (λ t. record t { consumed_at = some now }) (λ t. ground arith)
                      db.refresh_tokens)
                    (omega (arith, h.known)));
              dead =
                  All-append (Dead family)
                    (update (λ t. t.id == r.token.id) (λ t. record t { consumed_at = some now })
                      db.refresh_tokens)
                    (replacement lib settings now fresh r.token r.session ∷ [])
                    (All-update (Dead family) (λ t. t.id == r.token.id)
                      (λ t. record t { consumed_at = some now }) (λ t _ d. d) db.refresh_tokens
                      h.dead)
                    (
                      (λ e.
                          absurd (
                            rotates-ne now raw_token db family h.dead r (unfold new_refresh in e))),
                      tt,
                    );
            })
      ]

  -- An update of the tokens that keeps the family and revokes keeps a family burnt.
  revoking-IsBurnt :
      (q : RefreshToken → Bool) (now family : ℕ) (db : Store)
      → IsBurnt family db
      → IsBurnt family (record db {
        refresh_tokens = update q (λ t. record t { revoked_at = some now }) db.refresh_tokens;
      })
  revoking-IsBurnt q now family db h = record {
    known =
        rw
          (count-update_keep (of_family family) q (λ t. record t { revoked_at = some now })
            (λ t. ground arith) db.refresh_tokens)
          h.known;
    dead =
        All-update (Dead family) q (λ t. record t { revoked_at = some now }) (λ t _ _ _. refl)
          db.refresh_tokens h.dead;
  }

  issue-IsBurnt :
      (now : ℕ) (fresh : Fresh) (user_id : ℕ) (m : Membership) (db : Store) (family : ℕ)
      → All (λ t. t.family_id ≢ fresh.family_id) db.refresh_tokens
      → IsBurnt family db
      → IsBurnt family (issue_session_pair lib settings now fresh user_id m db).1
  unfolding issue_session_pair new_refresh
  issue-IsBurnt now fresh user_id m db family new h = record {
    known = rw count-append (omega (arith, h.known));
    dead =
        All-append (Dead family) db.refresh_tokens _ h.dead
          ((λ e. absurd (omega (arith, h.known, absent e))), tt);
  }
    where
      absent : fresh.family_id ≡ family → count (of_family family) db.refresh_tokens ≡ 0
      absent e = count-none_of_All (of_family family) db.refresh_tokens (
          All-map (λ t. t.family_id ≢ fresh.family_id) (λ t. of_family family t ≡ false)
            (λ t ne. ground arith) db.refresh_tokens new)

  revoke-IsBurnt :
      (now session_id user_id : ℕ) (db : Store) (family : ℕ)
      → IsBurnt family db
      → IsBurnt family (revoke_session now session_id user_id db)
  unfolding revoke_session
  revoke-IsBurnt now session_id user_id db family h =
      elim (Option-cases
        (first (λ s. s.id == session_id && s.user_id == user_id) db.auth_sessions)) [
          | inl e ↦ rw (e, revoke_session) h
          | inr (s, e) ↦
              let b = revoking-IsBurnt (λ t. t.session_id == s.id) now family db h in
              rw (e, revoke_session) (record { known = b.known; dead = b.dead })
        ]

  Step-IsBurnt :
      {db db' : Store} → Step db db' → (family : ℕ) → IsBurnt family db → IsBurnt family db'
  Step-IsBurnt {db} (issue now fresh user_id m new) family h =
      issue-IsBurnt now fresh user_id m db family new h
  Step-IsBurnt {db} (rotate now fresh raw_token) family h =
      rotate-IsBurnt now fresh raw_token db family h
  Step-IsBurnt {db} (revoke now session_id user_id) family h =
      revoke-IsBurnt now session_id user_id db family h
  Step-IsBurnt {db} (revoke_all now user_id) family h =
      unfold revoke_all_user_sessions in
      let b =
        revoking-IsBurnt (owned_by (revoke_sessions_of now user_id db) user_id) now family db h in
      record { known = b.known; dead = b.dead }

  Reach-IsBurnt :
      {db db' : Store} → Reach db db' → (family : ℕ) → IsBurnt family db → IsBurnt family db'
  Reach-IsBurnt here family h = h
  Reach-IsBurnt (next r st) family h = Step-IsBurnt st family (Reach-IsBurnt r family h)

  replay-IsBurnt :
      (now : ℕ) (fresh : Fresh) (raw_token : String) (db : Store) (r : Replays lib raw_token db)
      → IsBurnt r.token.family_id (rotate_refresh_token lib settings now fresh raw_token db).1
  replay-IsBurnt now fresh raw_token db r = record {
    known = rw (rotate-eq-replay lib settings now fresh raw_token db r) (
        unfold replay in
        rw
          (count-update_keep (of_family r.token.family_id) (λ t. t.family_id == r.token.family_id)
            (revoke_token lib settings now) (λ t. ground arith) db.refresh_tokens)
          (count-pos_of_first (of_family r.token.family_id) (λ t. t.id == r.token_id)
            db.refresh_tokens r.found (==_refl r.token.family_id)));
    dead = (replay_revokes lib settings now fresh raw_token db r).1;
  }

  -- Once a consumed token has been presented, no token of its family is ever exchanged again, in any
  -- later history of the operations.
  pub replayed_family_refused :
      (now : ℕ) (fresh : Fresh) (raw_token : String) (db : Store) (r : Replays lib raw_token db)
      {db' : Store}
      → Reach (rotate_refresh_token lib settings now fresh raw_token db).1 db'
      → (now' : ℕ) (fresh' : Fresh) (raw' : String) (token_id : ℕ) (secret : String)
        (token : RefreshToken)
      → parse_refresh lib raw' ≡ ok (token_id, secret)
      → first (λ t. t.id == token_id) db'.refresh_tokens ≡ some token
      → token.family_id ≡ r.token.family_id
      → (pair : SessionPair) → (rotate_refresh_token lib settings now' fresh' raw' db').0 ≢ ok pair
  replayed_family_refused now fresh raw_token db r {db'} history now' fresh' raw' token_id secret
        token parsed found same pair h =
      let burnt =
        Reach-IsBurnt history r.token.family_id (replay-IsBurnt now fresh raw_token db r) in
      let s = rotate_inv lib settings now' fresh' raw' db' h in
      let ids : s.token_id ≡ token_id = cc (s.parsed, parsed) in
      let one : s.token ≡ token =
        cc (s.found, found, ap (λ (n : ℕ). first (λ t. t.id == n) db'.refresh_tokens) ids) in
      rotates-ne now' raw' db' r.token.family_id burnt.dead s
        (ap (λ (t : RefreshToken). t.family_id) one ∙ same)
