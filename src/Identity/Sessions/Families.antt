-- ===== src/Identity/Sessions/Families.antt =====
-- How each operation changes the usable tokens of a family.
use omni_crm_backend.Prelude.{
  ℕ, ◌≤◌, ◌≡◌, ◌≢◌, refl, String, Bool, true, ◌&&◌, inl, inr, none, some, List, [], ◌∷◌, arith,
  ◌==◌, is_none, first, All, count, Bool-cases, ==_iff, Option-cases,
}
use omni_crm_backend.Prelude.RowLaws.{first_own_key, count-append, count-update_le, count-update_lt}
use omni_crm_backend.Identity.{RefreshToken, Membership, Store}
use omni_crm_backend.Identity.Sessions.{
  Library, Settings, Fresh, consume, replay, rotate_refresh_token, issue_session_pair,
  revoke_session, revoke_all_user_sessions, replacement, revoke_token, opened_session, new_refresh,
  owned_by, revoke_sessions_of,
}
use omni_crm_backend.Identity.Sessions.Inversion.{Rotates}
use omni_crm_backend.Identity.Sessions.Rotation.{unchanged, revokes, rotates, rotate-Effect}

-- A token that has been neither consumed nor revoked.
abbrev pub is_live : ℕ → RefreshToken → Bool
is_live family t = t.family_id == family && (is_none t.consumed_at && is_none t.revoked_at)

abbrev pub live_count : ℕ → Store → ℕ
live_count family db = count (is_live family) db.refresh_tokens

count_one : (family : ℕ) (t : RefreshToken) → count (is_live family) (t ∷ []) ≤ 1
unfolding count
count_one family t = ground arith

count_other :
    (family : ℕ) (t : RefreshToken) → t.family_id ≢ family → count (is_live family) (t ∷ []) ≡ 0
unfolding count
count_other family t h = ground arith

count_absent :
    (family : ℕ) (ts : List RefreshToken)
    → All (λ t. t.family_id ≢ family) ts
    → count (is_live family) ts ≡ 0
unfolding count
count_absent family [] h = refl
count_absent family (t ∷ ts) h = ground (arith, count_absent family ts h.1)

module _ (lib : Library) (settings : Settings) (now : ℕ) (fresh : Fresh) where
  consume-live_count :
      (raw_token : String) (db : Store) (r : Rotates lib now raw_token db) (family : ℕ)
      → live_count family (consume lib settings now fresh r.token db r.session).1
        ≤ live_count family db
  unfolding consume
  consume-live_count raw_token db r family =
      rw count-append (elim (Bool-cases (r.token.family_id == family)) [
        | inl e ↦
            let live : is_live family r.token ≡ true = rw (e, r.unconsumed) (rw r.unrevoked) in
            omega (
              arith,
              count-update_lt (is_live family) (λ t. t.id == r.token.id)
                  (λ t. record t { consumed_at = some now }) (λ t _. ground arith) db.refresh_tokens
                  {r = r.token} (first_own_key (λ t. t.id) r.token_id db.refresh_tokens r.found)
                  live,
              count_one family (replacement lib settings now fresh r.token r.session),
            )
        | inr e ↦ omega (
          arith,
          count-update_le (is_live family) (λ t. t.id == r.token.id)
              (λ t. record t { consumed_at = some now }) (λ t _. ground arith) db.refresh_tokens,
          count_other family (replacement lib settings now fresh r.token r.session)
              (unfold new_refresh in ground arith),
        )
      ])

  -- No call of rotate adds a usable token to a family.
  pub rotate-live_count :
      (raw_token : String) (db : Store) (family : ℕ)
      → live_count family (rotate_refresh_token lib settings now fresh raw_token db).1
        ≤ live_count family db
  rotate-live_count raw_token db family = elim (rotate-Effect lib settings now fresh raw_token db) [
    | unchanged e same ↦ rw same (omega arith)
    | revokes r same ↦ rw same (
        unfold replay in
        count-update_le (is_live family) (λ t. t.family_id == r.token.family_id)
          (revoke_token lib settings now) (λ t _. ground arith) db.refresh_tokens)
    | rotates r same ↦ rw same (consume-live_count raw_token db r family)
  ]

  abbrev opening : ℕ → Membership → RefreshToken
  opening user_id m =
      new_refresh lib fresh.token_id fresh.secret fresh.session_id fresh.family_id
        (opened_session lib settings now fresh user_id m).expires_at none

  -- A new session opens a family with one usable token.
  pub issue-live_count :
      (user_id : ℕ) (m : Membership) (db : Store) (family : ℕ)
      → All (λ t. t.family_id ≢ fresh.family_id) db.refresh_tokens
      → live_count family db ≤ 1
      → live_count family (issue_session_pair lib settings now fresh user_id m db).1 ≤ 1
  unfolding issue_session_pair
  issue-live_count user_id m db family new h =
      rw count-append (elim (Bool-cases (fresh.family_id == family)) [
        | inl e ↦
            let same : fresh.family_id ≡ family = (==_iff fresh.family_id family).0 e in
            let absent = count_absent fresh.family_id db.refresh_tokens new in
            let zeros : count (is_live family) db.refresh_tokens ≡ 0 = rw (← same) absent in
            omega (arith, zeros, count_one family (opening user_id m))
        | inr e ↦
            omega
              (arith, count_other family (opening user_id m) (unfold new_refresh in ground arith))
      ])

pub revoke-live_count :
    (now session_id user_id : ℕ) (db : Store) (family : ℕ)
    → live_count family (revoke_session now session_id user_id db) ≤ live_count family db
unfolding revoke_session
revoke-live_count now session_id user_id db family =
    elim (Option-cases (first (λ s. s.id == session_id && s.user_id == user_id) db.auth_sessions)) [
      | inl e ↦ rw (e, revoke_session) (omega arith)
      | inr (s, e) ↦
          rw (e, revoke_session)
            (count-update_le (is_live family) (λ t. t.session_id == s.id)
              (λ t. record t { revoked_at = some now }) (λ t _. ground arith) db.refresh_tokens)
    ]

pub revoke_all-live_count :
    (now user_id : ℕ) (db : Store) (family : ℕ)
    → live_count family (revoke_all_user_sessions now user_id db) ≤ live_count family db
unfolding revoke_all_user_sessions
revoke_all-live_count now user_id db family =
    count-update_le (is_live family) (owned_by (revoke_sessions_of now user_id db) user_id)
      (λ t. record t { revoked_at = some now }) (λ t _. ground arith) db.refresh_tokens
