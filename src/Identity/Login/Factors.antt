-- ===== src/Identity/Login/Factors.antt =====
-- What a login has checked before it opens a session.
use omni_crm_backend.Prelude.{
  ℕ, ◌≡◌, refl, String, Bool, true, false, ◌&&◌, inl, inr, Option, none, some, List, [], ◌∷◌, arith,
  Outcome, ok, err, ◌==◌, first, Bool-cases,
}
use omni_crm_backend.Identity.{User, Membership, Store, is_active_user}
use omni_crm_backend.Identity.Sessions.{Library, Settings, Fresh, SessionPair, issue_session_pair}
use omni_crm_backend.Identity.Mfa.{MfaLibrary, MfaError, verify_mfa_factor}
use omni_crm_backend.Identity.Mfa.Passed.{Passed, verify_mfa_factor_sound}
use omni_crm_backend.Identity.Login.{
  Claims, TokenPurpose, authenticated, HttpError, login, login_user, mfa_verify, verify_user,
  verified, enter, enter_or_refuse, verify_claims, list_memberships, active_email,
  no_active_membership, invalid_mfa_factor,
}

module _ (lib : Library) (mfa : MfaLibrary) (settings : Settings) (now : ℕ) (fresh : Fresh) where
  -- A session is opened for the only active membership of the user.
  pub record Entered (u : User) (db : Store) (pair : SessionPair) (after : Store) : Type 0 where
    pub membership : Membership
    pub only : list_memberships u.id db ≡ membership ∷ []
    pub opened : issue_session_pair lib settings now fresh u.id membership db ≡ (pair, after)

  enter_sound :
      (u : User) (missing : HttpError) (db : Store) (ms : List Membership) {pair : SessionPair}
      → list_memberships u.id db ≡ ms
      → (enter lib mfa settings now fresh u missing db ms).0 ≡ ok (authenticated pair)
      → Entered u db pair (enter lib mfa settings now fresh u missing db ms).1
  unfolding enter
  enter_sound u missing db [] e h = absurd (cc)
  enter_sound u missing db (m ∷ n ∷ rest) e h = absurd (ground arith)
  enter_sound u missing db (m ∷ []) e h = record { membership = m; only = e; opened = ground arith }

  -- A login that opens a session has seen the password of an active user who has no second factor.
  pub record PasswordOnly (email password : String) (db : Store) (pair : SessionPair)
      (after : Store) : Type 0 where
    pub user : User
    pub found : first (active_email email) db.users ≡ some user
    pub password_matches : mfa.verify_password user.password_hash password ≡ true
    pub single_factor : user.mfa_enabled ≡ false
    pub entered : Entered user db pair after

  user_sound :
      (email password : String) (db : Store) (o : Option User) {pair : SessionPair}
      → first (active_email email) db.users ≡ o
      → (login_user lib mfa settings now fresh password db o).0 ≡ ok (authenticated pair)
      → PasswordOnly email password db pair (login_user lib mfa settings now fresh password db o).1
  unfolding login_user
  user_sound email password db none e h = absurd (cc)
  user_sound email password db (some u) e h =
      elim (Bool-cases (mfa.verify_password u.password_hash password)) [
        | inr no_match ↦ absurd (ground (arith, no_match))
        | inl p ↦ elim (Bool-cases u.mfa_enabled) [
          | inl m ↦ absurd (ground (arith, p, m))
          | inr m ↦
              let step : login_user lib mfa settings now fresh password db (some u)
                  ≡ enter lib mfa settings now fresh u no_active_membership db
                      (list_memberships u.id db) =
                ground (arith, p, m) in
              rw step (record {
                user = u;
                found = e;
                password_matches = p;
                single_factor = m;
                entered =
                    enter_sound u no_active_membership db (list_memberships u.id db) refl
                      (rw step at h);
              })
        ]
      ]

  -- A login that opens a session has found an active user with the address, matched the password,
  -- and seen that the user has no second factor and exactly one active membership, for which the
  -- session is opened.
  pub login_sound :
      (email password : String) (db : Store) {pair : SessionPair}
      → (login lib mfa settings now fresh email password db).0 ≡ ok (authenticated pair)
      → PasswordOnly email password db pair (login lib mfa settings now fresh email password db).1
  unfolding login
  login_sound email password db h =
      user_sound email password db (first (active_email email) db.users) refl h

  -- A session that is opened by the second factor: the challenge names an active user, who has
  -- passed the factor, and the session is opened in what the factor has left of the database.
  pub record TwoFactor (subject : ℕ) (code : String) (db : Store) (pair : SessionPair)
      (after : Store) : Type 0 where
    pub user : User
    pub found : first (λ u. u.id == subject && is_active_user u.status) db.users ≡ some user
    pub checked : Store
    pub passed : Passed mfa now user code db checked
    pub entered : Entered user checked pair after

  refuse_sound :
      (u : User) (before db : Store) (ms : List Membership) {pair : SessionPair}
      → list_memberships u.id db ≡ ms
      → (enter_or_refuse lib mfa settings now fresh u before db ms).0 ≡ ok (authenticated pair)
      → Entered u db pair (enter_or_refuse lib mfa settings now fresh u before db ms).1
  unfolding enter_or_refuse
  refuse_sound u before db [] e h = absurd (cc)
  refuse_sound u before db (m ∷ rest) e h = enter_sound u invalid_mfa_factor db (m ∷ rest) e h

  verified_sound :
      (code : String) (u : User) (before : Store) (r : Outcome MfaError Bool × Store)
      {pair : SessionPair}
      → (verified lib mfa settings now fresh u before r).0 ≡ ok (authenticated pair)
      → (r.0 ≡ ok true) × Entered u r.1 pair (verified lib mfa settings now fresh u before r).1
  unfolding verified
  verified_sound code u before (err e, db) h = absurd (cc)
  verified_sound code u before (ok false, db) h = absurd (cc)
  verified_sound code u before (ok true, db) h =
      (refl, refuse_sound u before db (list_memberships u.id db) refl h)

  challenged_sound :
      (subject : ℕ) (code : String) (db : Store) (o : Option User) {pair : SessionPair}
      → first (λ u. u.id == subject && is_active_user u.status) db.users ≡ o
      → (verify_user lib mfa settings now fresh code db o).0 ≡ ok (authenticated pair)
      → TwoFactor subject code db pair (verify_user lib mfa settings now fresh code db o).1
  unfolding verify_user
  challenged_sound subject code db none e h = absurd (cc)
  challenged_sound subject code db (some u) e h =
      let v = verified_sound code u db (verify_mfa_factor mfa now u code db) h in
      record {
        user = u;
        found = e;
        checked = (verify_mfa_factor mfa now u code db).1;
        passed = verify_mfa_factor_sound mfa now u code db v.0;
        entered = v.1;
      }

  claims_sound :
      (code : String) (subject : ℕ) (db : Store) (purpose : TokenPurpose) {pair : SessionPair}
      → (verify_claims lib mfa settings now fresh code subject db purpose).0
        ≡ ok (authenticated pair)
      → (purpose ≡ TokenPurpose.mfa_challenge)
        × TwoFactor subject code db pair
            (verify_claims lib mfa settings now fresh code subject db purpose).1
  unfolding verify_claims
  claims_sound code subject db TokenPurpose.mfa_challenge h = (
    refl,
    challenged_sound subject code db
        (first (λ u. u.id == subject && is_active_user u.status) db.users) refl h,
  )
  claims_sound code subject db TokenPurpose.access h = absurd (cc)
  claims_sound code subject db TokenPurpose.tenant_selection h = absurd (cc)

  -- The verification of a challenge opens a session only for a challenge of the second factor,
  -- whose active user has a second factor in force and gave a one-time password of its decrypted
  -- secret or an unused recovery code, which is used then and nothing else is written, and has
  -- exactly one active membership, for which the session is opened.
  pub mfa_verify_sound :
      (c : Claims) (code : String) (db : Store) {pair : SessionPair}
      → (mfa_verify lib mfa settings now fresh (some c) code db).0 ≡ ok (authenticated pair)
      → (c.purpose ≡ TokenPurpose.mfa_challenge)
        × TwoFactor c.claims.subject code db pair
            (mfa_verify lib mfa settings now fresh (some c) code db).1
  unfolding mfa_verify
  mfa_verify_sound c code db h = claims_sound code c.claims.subject db c.purpose h
