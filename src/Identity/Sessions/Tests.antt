-- ===== src/Identity/Sessions/Tests.antt =====
-- The session theorems at concrete inputs: one user logs in, rotates, and the old token comes back.
use omni_crm_backend.Prelude.{
  update, count, ap, ℕ, zero, suc, ◌+◌, ◌≤◌, ◌≡◌, ◌≢◌, refl, String, false, none, some, arith, ok,
  err, All, days, first, ◌==◌,
}
use omni_crm_backend.Identity.{AuthSession, RefreshToken, Store, SessionStatus}
use omni_crm_backend.Identity.Sample.{
  strokes, count_strokes, library, settings, membership, start, secret, fresh,
}
use omni_crm_backend.Identity.Sessions.{
  access_for, replay, consume, matches_claims, live_branch, unexpired, present, validate_ids,
  split_dot, new_refresh, session_pair, Fresh, SessionPair, TokenClaims, issue_session_pair,
  rotate_refresh_token, validate_access_session, parse_refresh, serialize_refresh, text_length,
  revoke_all_user_sessions, revoke_session, refresh_replay,
}
use omni_crm_backend.Identity.Sessions.Inversion.{Authorizes, validate_sound, rotate_inv}
use omni_crm_backend.Identity.Sessions.Rotation.{Replays}
use omni_crm_backend.Identity.Sessions.Reuse.{IsDead, rotate-rotate, replay_revokes}
use omni_crm_backend.Identity.Sessions.Families.{live_count}
use omni_crm_backend.Identity.Sessions.Trace.{
  Step, here, next, Reach-live_count, replayed_family_refused,
}
use omni_crm_backend.Identity.Sessions.Revocation.{
  revoke_all-validate, revoke_all-rotate, revoke-validate,
}
use omni_crm_backend.Identity.Sessions.Issue.{
  IsUuidText, IsReady, issue-validate, issue-rotate, parse-serialize_refresh, has_dot,
}

count-strokes : (n : ℕ) → count_strokes (strokes n) ≡ n
unfolding strokes count_strokes
count-strokes zero = refl
count-strokes (suc n) = ap suc (count-strokes n)

strokes_no_dot : (n : ℕ) → has_dot (strokes n) ≡ false
unfolding strokes has_dot
strokes_no_dot zero = refl
strokes_no_dot (suc n) = strokes_no_dot n

library-IsUuidText : IsUuidText library
library-IsUuidText = record {
  parse-show = λ n. ap some (count-strokes n);
  show_no_dot = strokes_no_dot;
}

abbrev fresh' : Fresh
fresh' = record {
  session_id = 2;
  family_id = 3;
  token_id = 6;
  secret = "fedcba9876543210fedcba9876543210";
}

abbrev raw_token : String
raw_token = serialize_refresh library 4 secret

abbrev logged_in : Store
logged_in = (issue_session_pair library settings 10 fresh 1 membership start).1

abbrev rotated : Store
rotated = (rotate_refresh_token library settings 20 fresh' raw_token logged_in).1

start-IsReady : IsReady library settings 10 fresh 1 membership start
unfolding first
start-IsReady = record {
  user_active = refl;
  member_active = refl;
  session_new = tt;
  token_new = tt;
}

secret_long : 32 ≤ text_length secret
unfolding text_length
secret_long = omega arith

issue-validate_run :
    validate_access_session 11 logged_in
      (issue_session_pair library settings 10 fresh 1 membership start).0.access_token
    ≡ ok (record {
      id = 2;
      user_id = 1;
      membership_id = 5;
      tenant_id = 9;
      status = SessionStatus.active;
      expires_at = 10 + days 30;
      revoked_at = none;
    })
issue-validate_run =
    issue-validate library settings 10 fresh 1 membership start start-IsReady 11 (omega arith)

issue-rotate_run :
    (pair : SessionPair) × ((rotate_refresh_token library settings 20 fresh'
        (issue_session_pair library settings 10 fresh 1 membership start).0.refresh_token
        logged_in).0
      ≡ ok pair)
    × (pair.access_token
        ≡ (issue_session_pair library settings 10 fresh 1 membership start).0.access_token)
issue-rotate_run =
    issue-rotate library settings 10 fresh 1 membership start library-IsUuidText start-IsReady
      secret_long 20 fresh' (omega arith)

parse-serialize_refresh_example : parse_refresh library raw_token ≡ ok (4, secret)
parse-serialize_refresh_example =
    parse-serialize_refresh library library-IsUuidText 4 secret secret_long

raw_token_lem :
    (issue_session_pair library settings 10 fresh 1 membership start).0.refresh_token ≡ raw_token
unfolding issue_session_pair session_pair new_refresh
raw_token_lem = refl

-- The first rotation gives this pair.
abbrev first_pair : SessionPair
first_pair = issue-rotate_run.0

first_rotation :
    (rotate_refresh_token library settings 20 fresh' raw_token logged_in).0 ≡ ok first_pair
unfolding issue_session_pair session_pair new_refresh
first_rotation = issue-rotate_run.1

rotate-rotate_example :
    (rotate_refresh_token library settings 30 fresh raw_token rotated).0 ≡ err refresh_replay
rotate-rotate_example =
    rotate-rotate library settings 20 30 fresh' fresh raw_token logged_in first_rotation

consumed : RefreshToken
consumed = record {
  id = 4;
  session_id = 2;
  family_id = 3;
  parent_id = none;
  secret_hash = secret;
  expires_at = 10 + days 30;
  consumed_at = some 20;
  revoked_at = none;
}

session : AuthSession
session = record {
  id = 2;
  user_id = 1;
  membership_id = 5;
  tenant_id = 9;
  status = SessionStatus.active;
  expires_at = 10 + days 30;
  revoked_at = none;
}

came_back : Replays library raw_token rotated
unfolding consumed session issue_session_pair session_pair new_refresh rotate_refresh_token present
    live_branch consume validate_access_session validate_ids unexpired matches_claims access_for
    first update parse_refresh split_dot text_length serialize_refresh strokes count_strokes
came_back = record {
  token_id = 4;
  secret = secret;
  token = consumed;
  session = session;
  consumed = 20;
  parsed = refl;
  found = refl;
  secret_ok = refl;
  consumed_at = refl;
  session_found = refl;
}

abbrev replayed : Store
replayed = (rotate_refresh_token library settings 30 fresh raw_token rotated).1

replay_revokes_run :
    ((rotate_refresh_token library settings 30 fresh raw_token rotated).0 ≡ err refresh_replay)
    × IsDead 3 replayed
    × All (λ s. s.id ≡ 2 → s.status ≡ SessionStatus.revoked) replayed.auth_sessions
unfolding came_back consumed session
replay_revokes_run = replay_revokes library settings 30 fresh raw_token rotated came_back

Reach-live_count_example : live_count 3 replayed ≤ 1
Reach-live_count_example =
    Reach-live_count library settings
      (next
        (next (next here (Step.issue 10 fresh 1 membership tt)) (Step.rotate 20 fresh' raw_token))
        (Step.rotate 30 fresh raw_token))
      3 (unfold count in omega arith)

heir : RefreshToken
heir = record {
  id = 6;
  session_id = 2;
  family_id = 3;
  parent_id = some 4;
  secret_hash = fresh'.secret;
  expires_at = 10 + days 30;
  consumed_at = none;
  revoked_at = some 30;
}

heir_found : first (λ t. t.id == 6) replayed.refresh_tokens ≡ some heir
unfolding heir issue_session_pair session_pair new_refresh rotate_refresh_token present live_branch
    consume replay validate_access_session validate_ids unexpired matches_claims access_for first
    update parse_refresh split_dot text_length serialize_refresh strokes count_strokes
heir_found = refl

replayed_family_refused_example :
    (rotate_refresh_token library settings 40 fresh
      (serialize_refresh library 6 fresh'.secret)
      replayed).0
    ≢ ok first_pair
replayed_family_refused_example =
    replayed_family_refused library settings 30 fresh raw_token rotated came_back here 40 fresh
      (serialize_refresh library 6 fresh'.secret) 6 fresh'.secret heir
      (unfold heir parse_refresh split_dot text_length serialize_refresh strokes count_strokes in
        refl)
      heir_found (unfold heir came_back consumed in refl) first_pair

claims : TokenClaims
claims = record { subject = 1; session_id = some 2; tenant_id = some 9; membership_id = some 5 }

validate_sound_example : Authorizes 11 logged_in claims session
unfolding claims session issue_session_pair validate_access_session validate_ids unexpired
    matches_claims first
validate_sound_example = validate_sound 11 logged_in claims refl

revoke_all-validate_run :
    validate_access_session 12 (revoke_all_user_sessions 11 1 logged_in) claims ≢ ok session
unfolding claims
revoke_all-validate_run = revoke_all-validate 11 12 1 logged_in claims refl session

revoke-validate_run :
    validate_access_session 12 (revoke_session 11 2 1 logged_in) claims ≢ ok session
unfolding claims
revoke-validate_run = revoke-validate 11 12 2 1 logged_in claims refl refl session

abbrev other_pair : SessionPair
other_pair = record {
  access_token = record {
    subject = 1;
    session_id = some 2;
    tenant_id = some 9;
    membership_id = some 5;
  };
  refresh_token = serialize_refresh library 6 fresh'.secret;
  expires_in = 900;
  tenant_id = 9;
  membership_id = 5;
  session_id = 2;
}

other_rotation :
    (rotate_refresh_token library settings 20 fresh' raw_token
      (revoke_all_user_sessions 15 7 logged_in)).0
    ≡ ok other_pair
unfolding issue_session_pair session_pair new_refresh rotate_refresh_token present live_branch
    consume validate_access_session validate_ids unexpired matches_claims access_for first update
    parse_refresh split_dot text_length serialize_refresh strokes count_strokes
    revoke_all_user_sessions
other_rotation = refl

revoke_all-rotate_run :
    (rotate_inv library settings 20 fresh' raw_token
      (revoke_all_user_sessions 15 7 logged_in)
      other_rotation).session.user_id
    ≢ 7
revoke_all-rotate_run =
    revoke_all-rotate library settings 15 20 7 fresh' raw_token logged_in other_rotation
