-- ===== src/Identity/Sessions.antt =====
-- app/services/sessions.py: session pairs, rotation of refresh tokens, revocation. `sha256` and the
-- text form of a UUID are library code. The access token stands for itself by the claims that
-- `issue_token` is called with. Clock readings and fresh identifiers are arguments.
pub mod Inversion
pub mod Rotation
pub mod Reuse
pub mod Families
pub mod Trace
pub mod Revocation
pub mod Issue
mod Tests
use Prim.Native.Char.{code}
use Prim.Native.String.{String as Text, [] as empty, ◌∷◌ as ◌∷ₜ◌, ◌++◌ as ◌++ₜ◌}
use text.Mathlib.Text.{◌==◌ as str_eq}
use omni_crm_backend.Prelude.{
  ℕ, ◌+◌, String, Bool, true, false, not, ◌&&◌, ◌||◌, Option, none, some, List, [], ◌∷◌, ◌++◌, min,
  Outcome, ok, err, ◌>>=◌, days, seconds, leb, ◌==◌, holds, is_none, is_some, if◌then◌else◌, first,
  update, insert,
}
use omni_crm_backend.Identity.{
  AuthSession, RefreshToken, Membership, User, Store, SessionStatus, is_active_session,
  is_active_user, is_active_member,
}

-- The subclasses and messages of `InvalidSession` that the module raises, and the `AttributeError`
-- of a write to a session that is not there.
pub data SessionError : Type 0 where
  invalid_refresh_token incomplete_access_token inactive_session inactive_refresh_token :
      SessionError
  missing_session refresh_replay attribute_error : SessionError

-- app/core/config.py
pub record Settings : Type 0 where
  pub access_token_ttl_seconds : ℕ
  pub refresh_token_ttl_days : ℕ

-- app/core/tokens.py, for the purpose "access"
pub record TokenClaims : Type 0 where
  pub subject : ℕ
  pub session_id : Option ℕ
  pub tenant_id : Option ℕ
  pub membership_id : Option ℕ

pub record SessionPair : Type 0 where
  pub access_token : TokenClaims
  pub refresh_token : String
  pub expires_in : ℕ
  pub tenant_id : ℕ
  pub membership_id : ℕ
  pub session_id : ℕ

-- What the module takes from the libraries: hashlib.sha256 and the text of a UUID.
pub record Library : Type 0 where
  pub sha256 : String → String
  pub show_uuid : ℕ → String
  pub parse_uuid : String → Option ℕ

-- The rest of a text behind its first dot, and what stands before it.
pub split_dot : String → Option (String × String)
split_dot String.[] = none
split_dot (String.◌∷◌ c s) =
    if code c == b'.'
    then some ("", s)
    else elim (split_dot s) [ none ↦ none | some (a, b) ↦ some (String.◌∷◌ c a, b) ]

unfoldable pub text_length : String → ℕ
text_length String.[] = 0
text_length (String.◌∷◌ c s) = text_length s + 1

module _ (lib : Library) where
  pub serialize_refresh : ℕ → String → String
  serialize_refresh token_id secret = "rt." ++ₜ (lib.show_uuid token_id ++ₜ ("." ++ₜ secret))

  -- prefix, token_id, secret = raw_token.split(".", 2)
  pub parse_refresh : String → Outcome SessionError (ℕ × String)
  parse_refresh raw_token = elim (split_dot raw_token) [
    | none ↦ err invalid_refresh_token
    | some (prefix, rest) ↦ elim (split_dot rest) [
      | none ↦ err invalid_refresh_token
      | some (token_id, secret) ↦
          if not (str_eq prefix "rt") || not (leb 32 (text_length secret))
          then err invalid_refresh_token
          else elim (lib.parse_uuid token_id) [
            | none ↦ err invalid_refresh_token
            | some id ↦ ok (id, secret)
          ]
    ]
  ]

  pub new_refresh : ℕ → String → ℕ → ℕ → ℕ → Option ℕ → RefreshToken
  new_refresh id secret session_id family_id expires_at parent_id = record {
    id = id;
    session_id = session_id;
    family_id = family_id;
    parent_id = parent_id;
    secret_hash = lib.sha256 secret;
    expires_at = expires_at;
    consumed_at = none;
    revoked_at = none;
  }

pub access_for : AuthSession → TokenClaims
access_for s = record {
  subject = s.user_id;
  session_id = some s.id;
  tenant_id = some s.tenant_id;
  membership_id = some s.membership_id;
}

-- The identifiers and secrets that one call draws.
pub record Fresh : Type 0 where
  pub session_id : ℕ
  pub family_id : ℕ
  pub token_id : ℕ
  pub secret : String

-- JOIN User
abbrev pub joins_user : Store → AuthSession → Bool
joins_user db s = is_some (first (λ u. u.id == s.user_id && is_active_user u.status) db.users)

-- JOIN Membership
abbrev pub joins_membership : Store → AuthSession → Bool
joins_membership db s = is_some (
    first
      (λ m.
        m.id == s.membership_id
        && is_active_member m.status
        && m.user_id == s.user_id
        && m.tenant_id == s.tenant_id)
      db.memberships)

pub matches_claims : Store → ℕ → ℕ → ℕ → ℕ → AuthSession → Bool
matches_claims db subject session_id tenant_id membership_id s =
    s.id == session_id
    && s.user_id == subject
    && s.tenant_id == tenant_id
    && s.membership_id == membership_id
    && is_active_session s.status
    && joins_user db s
    && joins_membership db s

unexpired : ℕ → Option AuthSession → Outcome SessionError AuthSession
unexpired now none = err inactive_session
unexpired now (some s) = if leb s.expires_at now then err inactive_session else ok s

validate_ids : ℕ → Store → ℕ → Option ℕ → Option ℕ → Option ℕ → Outcome SessionError AuthSession
unfolding unexpired matches_claims
validate_ids now db subject (some sid) (some tid) (some mid) =
    unexpired now (first (matches_claims db subject sid tid mid) db.auth_sessions)
validate_ids now db subject _ _ _ = err incomplete_access_token

unfoldable pub validate_access_session : ℕ → Store → TokenClaims → Outcome SessionError AuthSession
unfolding validate_ids
validate_access_session now db claims =
    validate_ids now db claims.subject claims.session_id claims.tenant_id claims.membership_id

module _ (lib : Library) (settings : Settings) where
  pub session_pair : AuthSession → RefreshToken → String → SessionPair
  session_pair s token secret = record {
    access_token = access_for s;
    refresh_token = serialize_refresh lib token.id secret;
    expires_in = settings.access_token_ttl_seconds;
    tenant_id = s.tenant_id;
    membership_id = s.membership_id;
    session_id = s.id;
  }

  abbrev opened_session : ℕ → Fresh → ℕ → Membership → AuthSession
  opened_session now fresh user_id membership = record {
    id = fresh.session_id;
    user_id = user_id;
    membership_id = membership.id;
    tenant_id = membership.tenant_id;
    status = SessionStatus.active;
    expires_at = now + days settings.refresh_token_ttl_days;
    revoked_at = none;
  }

  unfoldable pub issue_session_pair : ℕ → Fresh → ℕ → Membership → Store → SessionPair × Store
  unfolding session_pair new_refresh access_for serialize_refresh
  issue_session_pair now fresh user_id membership db =
      let s = opened_session now fresh user_id membership in
      let token =
        new_refresh lib fresh.token_id fresh.secret s.id fresh.family_id s.expires_at none in
      (
        session_pair s token fresh.secret,
        record db {
          auth_sessions = insert s db.auth_sessions;
          refresh_tokens = insert token db.refresh_tokens;
        },
      )

  abbrev revoke_row : ℕ → AuthSession → AuthSession
  revoke_row now s = record s { status = SessionStatus.revoked; revoked_at = some now }

  abbrev revoke_token : ℕ → RefreshToken → RefreshToken
  revoke_token now t = record t { revoked_at = some now }

  -- The branch of a token that has been consumed: its session and its whole family are revoked,
  -- and the exception is raised after the commit.
  pub replay :
      ℕ → RefreshToken → Store → Option AuthSession → Outcome SessionError SessionPair × Store
  replay now token db none = (err attribute_error, db)
  replay now token db (some s) = (
    err refresh_replay,
    record db {
      auth_sessions = update (λ r. r.id == s.id) (revoke_row now) db.auth_sessions;
      refresh_tokens =
          update (λ t. t.family_id == token.family_id) (revoke_token now) db.refresh_tokens;
    },
  )

  abbrev replacement : ℕ → Fresh → RefreshToken → AuthSession → RefreshToken
  replacement now fresh token s =
      new_refresh lib fresh.token_id fresh.secret s.id token.family_id
        (min s.expires_at (now + days settings.refresh_token_ttl_days)) (some token.id)

  -- The writes of the last branch.
  pub consume :
      ℕ → Fresh → RefreshToken → Store → AuthSession → Outcome SessionError SessionPair × Store
  unfolding session_pair
  consume now fresh token db s = (
    ok (session_pair s (replacement now fresh token s) fresh.secret),
    record db {
      refresh_tokens = insert (replacement now fresh token s) (
          update (λ t. t.id == token.id) (λ t. record t { consumed_at = some now })
            db.refresh_tokens);
    },
  )

  live_branch :
      ℕ
      → Fresh
      → RefreshToken
      → Store
      → Option AuthSession
      → Outcome SessionError SessionPair × Store
  live_branch now fresh token db none = (err missing_session, db)
  live_branch now fresh token db (some s) = elim (validate_access_session now db (access_for s)) [
    | err e ↦ (err e, db)
    | ok _ ↦ consume now fresh token db s
  ]

  present :
      ℕ → Fresh → String → Store → Option RefreshToken → Outcome SessionError SessionPair × Store
  present now fresh secret db none = (err invalid_refresh_token, db)
  present now fresh secret db (some token) =
      if not (str_eq token.secret_hash (lib.sha256 secret))
      then (err invalid_refresh_token, db)
      else let s = first (λ r. r.id == token.session_id) db.auth_sessions in
        if is_some token.consumed_at
        then replay now token db s
        else if is_some token.revoked_at || leb token.expires_at now
        then (err inactive_refresh_token, db)
        else live_branch now fresh token db s

  -- An exception inside the transaction rolls it back: the database is the one before the call.
  pub rotate_refresh_token : ℕ → Fresh → String → Store → Outcome SessionError SessionPair × Store
  rotate_refresh_token now fresh raw_token db = elim (parse_refresh lib raw_token) [
    | err e ↦ (err e, db)
    | ok (token_id, secret) ↦
        present now fresh secret db (first (λ t. t.id == token_id) db.refresh_tokens)
  ]

unfoldable pub revoke_session : ℕ → ℕ → ℕ → Store → Store
revoke_session now session_id user_id db =
    elim (first (λ s. s.id == session_id && s.user_id == user_id) db.auth_sessions) [
      | none ↦ db
      | some s ↦ record db {
        auth_sessions =
            update (λ r. r.id == s.id)
              (λ r. record r { status = SessionStatus.revoked; revoked_at = some now })
              db.auth_sessions;
        refresh_tokens =
            update (λ t. t.session_id == s.id) (λ t. record t { revoked_at = some now })
              db.refresh_tokens;
      }
    ]

-- session_id IN (SELECT AuthSession.id WHERE AuthSession.user_id == user_id)
abbrev pub owned_by : Store → ℕ → RefreshToken → Bool
owned_by db user_id t =
    is_some (first (λ s. s.id == t.session_id && s.user_id == user_id) db.auth_sessions)

abbrev pub revoke_sessions_of : ℕ → ℕ → Store → Store
revoke_sessions_of now user_id db = record db {
  auth_sessions =
      update (λ s. s.user_id == user_id)
        (λ s. record s { status = SessionStatus.revoked; revoked_at = some now }) db.auth_sessions;
}

unfoldable pub revoke_all_user_sessions : ℕ → ℕ → Store → Store
revoke_all_user_sessions now user_id db =
    let db' = revoke_sessions_of now user_id db in
    record db' {
      refresh_tokens =
          update (owned_by db' user_id) (λ t. record t { revoked_at = some now })
            db'.refresh_tokens;
    }
