-- ===== src/Identity/Sessions/Issue.antt =====
-- A session pair that has just been issued works.
use Prim.Native.String.{◌++◌ as ◌++ₜ◌}
use Prim.Native.Char.{code}
use text.Mathlib.TextLemmas.{nil-append, cons-append}
use text.Mathlib.TextPositions.{eq_refl}
use omni_crm_backend.Prelude.{
  ==_refl, leb, ℕ, ◌+◌, ◌<◌, ◌≤◌, ◌≡◌, ◌≢◌, refl, String, Bool, true, false, none, some, arith, ok,
  ◌==◌, ◌||◌, All, first, days,
}
use omni_crm_backend.Prelude.RowLaws.{All-map, first-append, first-none_of_All}
use omni_crm_backend.Identity.{AuthSession, Membership, Store}
use omni_crm_backend.Identity.Sessions.{
  replacement, access_for, session_pair, unexpired, validate_ids, new_refresh, joins_membership,
  matches_claims, opened_session, joins_user, consume, Library, Settings, Fresh, SessionPair,
  split_dot, text_length, serialize_refresh, parse_refresh, validate_access_session,
  rotate_refresh_token, issue_session_pair,
}
use omni_crm_backend.Identity.Sessions.Inversion.{Rotates, rotate-eq-consume}

unfoldable pub has_dot : String → Bool
has_dot String.[] = false
has_dot (String.◌∷◌ c s) = (code c == b'.') || has_dot s

-- The text in front of a dot that holds none is split off.
split_dot-append :
    (a b : String) → has_dot a ≡ false → split_dot (a ++ₜ (String.◌∷◌ "." b)) ≡ some (a, b)
unfolding has_dot split_dot
split_dot-append String.[] b h = rw nil-append refl
split_dot-append (String.◌∷◌ c s) b h = rw cons-append (ground (arith, split_dot-append s b))

-- What the round trip needs of the text of a UUID.
pub record IsUuidText (lib : Library) : Type 0 where
  pub parse-show : (id : ℕ) → lib.parse_uuid (lib.show_uuid id) ≡ some id
  pub show_no_dot : (id : ℕ) → has_dot (lib.show_uuid id) ≡ false

serialized :
    (lib : Library) (id : ℕ) (secret : String)
    → serialize_refresh lib id secret
      ≡ String.◌∷◌ "r"
          (String.◌∷◌ "t" (String.◌∷◌ "." (lib.show_uuid id ++ₜ (String.◌∷◌ "." secret))))
unfolding serialize_refresh
serialized lib id secret = rw (cons-append "r" "t.") (
    rw (cons-append "t" ".") (
      rw (cons-append "." "") (
        rw (nil-append (lib.show_uuid id ++ₜ ("." ++ₜ secret)))
          (rw (cons-append "." "" secret) (rw (nil-append secret))))))

split_prefix :
    (rest : String)
    → split_dot (String.◌∷◌ "r" (String.◌∷◌ "t" (String.◌∷◌ "." rest))) ≡ some ("rt", rest)
unfolding split_dot
split_prefix rest = refl

-- The text of a refresh token is read back as its identifier and its secret.
pub parse-serialize_refresh :
    (lib : Library)
    → IsUuidText lib
    → (id : ℕ) (secret : String) → 32 ≤ text_length secret
    → parse_refresh lib (serialize_refresh lib id secret) ≡ ok (id, secret)
unfolding parse_refresh
parse-serialize_refresh lib laws id secret long = rw (serialized lib id secret) (
    rw (split_prefix (lib.show_uuid id ++ₜ (String.◌∷◌ "." secret)), parse_refresh)
      (rw (split_dot-append (lib.show_uuid id) secret (laws.show_no_dot id), parse_refresh)
        (rw (long_enough, laws.parse-show id))))
  where
    long_enough : leb 32 (text_length secret) ≡ true
    long_enough = ground arith

not_past : (at e : ℕ) → at < e → leb e at ≡ false
not_past at e h = ground arith

module _ (lib : Library) (settings : Settings) (now : ℕ) (fresh : Fresh) (user_id : ℕ)
    (m : Membership) (db : Store) where
  abbrev issued : SessionPair × Store
  issued = issue_session_pair lib settings now fresh user_id m db

  abbrev row : AuthSession
  row = opened_session lib settings now fresh user_id m

  -- What an issued pair needs of the database: an active user, an active membership of the user,
  -- and identifiers that no row has.
  pub record IsReady : Type 0 where
    pub user_active : joins_user db row ≡ true
    pub member_active : joins_membership db row ≡ true
    pub session_new : All (λ s. s.id ≢ fresh.session_id) db.auth_sessions
    pub token_new : All (λ t. t.id ≢ fresh.token_id) db.refresh_tokens

  row_matches :
      IsReady → matches_claims issued.1 user_id fresh.session_id m.tenant_id m.id row ≡ true
  unfolding issue_session_pair matches_claims
  row_matches h =
      rw (==_refl fresh.session_id, ==_refl user_id)
        (rw (==_refl m.tenant_id, ==_refl m.id) (rw (h.user_active, h.member_active)))

  row_found :
      IsReady
      → first
          (matches_claims issued.1 user_id fresh.session_id m.tenant_id m.id)
          issued.1.auth_sessions
        ≡ some row
  unfolding issue_session_pair
  row_found h = rw first-append (
      rw
        (first-none_of_All (matches_claims issued.1 user_id fresh.session_id m.tenant_id m.id)
          db.auth_sessions
          (All-map (λ s. s.id ≢ fresh.session_id)
            (λ s. matches_claims issued.1 user_id fresh.session_id m.tenant_id m.id s ≡ false)
            (λ s ne. unfold matches_claims in ground arith) db.auth_sessions h.session_new))
        (unfold first in rw (row_matches h)))

  -- The access token of a new pair is accepted until the session expires.
  pub issue-validate :
      IsReady
      → (later : ℕ) → later < now + days settings.refresh_token_ttl_days
      → validate_access_session later issued.1 issued.0.access_token ≡ ok row
  unfolding validate_access_session validate_ids unexpired
  issue-validate h later before =
      unfold issue_session_pair session_pair access_for in
      rw (row_found h, unexpired)
        (rw (not_past later (now + days settings.refresh_token_ttl_days) before))

  token_found :
      IsReady
      → first (λ t. t.id == fresh.token_id) issued.1.refresh_tokens
        ≡ some (
            new_refresh lib fresh.token_id fresh.secret fresh.session_id fresh.family_id
              (now + days settings.refresh_token_ttl_days)
              none)
  unfolding issue_session_pair new_refresh
  token_found h = rw first-append (
      rw
        (first-none_of_All (λ t. t.id == fresh.token_id) db.refresh_tokens
          (All-map (λ t. t.id ≢ fresh.token_id) (λ t. (t.id == fresh.token_id) ≡ false)
            (λ t ne. ground arith) db.refresh_tokens h.token_new))
        (unfold first in rw (==_refl fresh.token_id)))

  session_found : IsReady → first (λ s. s.id == fresh.session_id) issued.1.auth_sessions ≡ some row
  unfolding issue_session_pair
  session_found h = rw first-append (
      rw
        (first-none_of_All (λ s. s.id == fresh.session_id) db.auth_sessions
          (All-map (λ s. s.id ≢ fresh.session_id) (λ s. (s.id == fresh.session_id) ≡ false)
            (λ s ne. ground arith) db.auth_sessions h.session_new))
        (unfold first in rw (==_refl fresh.session_id)))

  -- Its refresh token is exchanged for a new pair of the same session.
  pub issue-rotate :
      IsUuidText lib
      → IsReady
      → 32 ≤ text_length fresh.secret
      → (later : ℕ) (fresh' : Fresh) → later < now + days settings.refresh_token_ttl_days
      → (pair : SessionPair) × ((rotate_refresh_token lib settings later fresh'
            issued.0.refresh_token issued.1).0
          ≡ ok pair)
        × (pair.access_token ≡ issued.0.access_token)
  issue-rotate laws h long later fresh' before =
      let r : Rotates lib later issued.0.refresh_token issued.1 = record {
        token_id = fresh.token_id;
        secret = fresh.secret;
        token =
            new_refresh lib fresh.token_id fresh.secret fresh.session_id fresh.family_id
              (now + days settings.refresh_token_ttl_days) none;
        session = row;
        parsed =
            unfold issue_session_pair session_pair new_refresh in
            parse-serialize_refresh lib laws fresh.token_id fresh.secret long;
        found = token_found h;
        secret_ok = unfold new_refresh in eq_refl (lib.sha256 fresh.secret);
        unconsumed = unfold new_refresh in refl;
        unrevoked = unfold new_refresh in refl;
        unexpired = unfold new_refresh in before;
        session_found = unfold new_refresh in session_found h;
        valid = (row, unfold issue_session_pair session_pair in issue-validate h later before);
      } in
      (
        session_pair lib settings row (replacement lib settings later fresh' r.token row)
            fresh'.secret,
        rw (rotate-eq-consume lib settings later fresh' issued.0.refresh_token issued.1 r)
            (unfold consume in refl),
        unfold issue_session_pair session_pair access_for in refl,
      )
