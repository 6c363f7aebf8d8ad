-- ===== src/Identity/Invitations/Accepted.antt =====
-- What an accepted invitation gives, and that it gives it once.
use text.Mathlib.Text.{◌==◌ as str_eq}
use text.Mathlib.TextEquality.{eq_iff}
use omni_crm_backend.Prelude.{
  ℕ, ◌≡◌, refl, sym, ◌∙◌, String, true, false, ◌&&◌, Option, none, some, List, arith, Outcome, ok,
  err, leb, ◌==◌, ==_refl, first, update,
}
use omni_crm_backend.Prelude.RowLaws.{first-update, first_sound}
use omni_crm_backend.Identity.{
  User, Membership, MembershipStatus, Invitation, InvitationStatus, Store, is_pending,
}
use omni_crm_backend.Identity.Invitations.{
  InvitationLibrary, InvitationIds, InvitationError, InvitationAcceptance, accept_invitation,
  accept, join, finish, ensure_user, ensure_member, usable, set_status, get_pending_invitation,
  by_token, verified_user, invalid_invitation,
}

module _ (lib : InvitationLibrary) (now : ℕ) (ids : InvitationIds) where
  -- The membership is that of the user in the invitation's tenant, active, with its role.
  pub record Joins (i : Invitation) (u : User) (m : Membership) : Type 0 where
    pub tenant : m.tenant_id ≡ i.tenant_id
    pub owner : m.user_id ≡ u.id
    pub role : m.role ≡ i.role
    pub active : m.status ≡ MembershipStatus.active

  member_sound :
      (i : Invitation) (u : User) (db db' : Store) (o : Option Membership) (m : Membership)
      → first (λ m. m.tenant_id == i.tenant_id && m.user_id == u.id) db.memberships ≡ o
      → ensure_member lib now ids.membership i u db o ≡ ok (m, db')
      → Joins i u m × (db'.invitations ≡ db.invitations)
  unfolding ensure_member
  member_sound i u db db' none m f e = (
    record {
      tenant = ground arith;
      owner = ground arith;
      role = ground arith;
      active = ground arith;
    },
    ground arith,
  )
  member_sound i u db db' (some old) m f e =
      let fits =
        first_sound (λ m. m.tenant_id == i.tenant_id && m.user_id == u.id) db.memberships f in
      (
        record {
          tenant = ground (arith, fits);
          owner = ground (arith, fits);
          role = ground arith;
          active = ground arith;
        },
        ground arith,
      )

  user_sound :
      (i : Invitation) (name password : Option String) (db db' : Store) (o : Option User) (u : User)
      → first (λ u. str_eq u.email i.email) db.users ≡ o
      → ensure_user lib now ids.user i name password db o ≡ ok (u, db')
      → (u.email ≡ i.email) × (db'.invitations ≡ db.invitations)
  unfolding ensure_user
  user_sound i name password db db' (some old) u f e =
      let fits = first_sound (λ u. str_eq u.email i.email) db.users f in
      (ground (arith, fits, eq_iff old.email i.email), ground arith)
  user_sound i name password db db' none u f e = (ground arith, ground arith)

  -- An acceptance: the invitation waited and had not expired, the user has its address, the
  -- membership is as invited, and the invitation is stored as accepted.
  pub record Answered (raw_token : String) (db : Store) (a : InvitationAcceptance) (after : Store)
      : Type 0 where
    pub invitation : Invitation
    pub found : first (by_token (lib.sha256 raw_token)) db.invitations ≡ some invitation
    pub waited : is_pending invitation.status ≡ true
    pub in_time : leb invitation.expires_at now ≡ false
    pub address : a.user.email ≡ invitation.email
    pub joined : Joins invitation a.user a.membership
    pub stored :
        first (by_token (lib.sha256 raw_token)) after.invitations
        ≡ some (set_status InvitationStatus.accepted invitation)

  stored_row :
      (h : String) (i : Invitation) (is : List Invitation)
      → first (by_token h) is ≡ some i
      → first (by_token h) (update (λ x. x.id == i.id) (set_status InvitationStatus.accepted) is)
        ≡ some (set_status InvitationStatus.accepted i)
  stored_row h i is f =
      rw
        (first-update (by_token h) (λ x. x.id == i.id) (set_status InvitationStatus.accepted)
          (λ x. ground arith) is)
        (rw f (rw (==_refl i.id)))

  verified_same :
      (u : User)
      → ((verified_user lib now u).email ≡ u.email) × ((verified_user lib now u).id ≡ u.id)
  verified_same u = ground arith

  module _ (raw_token : String) (name password : Option String) (db : Store) where
    finish_sound :
        (i : Invitation) (u : User) (o : Outcome InvitationError (Membership × Store))
        {a : InvitationAcceptance}
        → first (by_token (lib.sha256 raw_token)) db.invitations ≡ some i
        → is_pending i.status ≡ true
        → leb i.expires_at now ≡ false
        → u.email ≡ i.email
        → ((m : Membership) (db' : Store)
            → o ≡ ok (m, db')
            → Joins i u m × (db'.invitations ≡ db.invitations))
        → (finish lib now i u db o).0 ≡ ok a
        → Answered raw_token db a (finish lib now i u db o).1
    unfolding finish
    finish_sound i u (err e) found waits soon address k h = absurd (cc)
    finish_sound i u (ok (m, db')) {a} found waits soon address k h =
        let (j, same) = k m db' refl in
        let whose : verified_user lib now u ≡ a.user = ground arith in
        let what : m ≡ a.membership = ground arith in
        let (mail, key) = verified_same u in
        record {
          invitation = i;
          found = found;
          waited = waits;
          in_time = soon;
          address = rw (← whose) (mail ∙ address);
          joined = record {
            tenant = rw (← what) j.tenant;
            owner = rw (← what, ← whose) (j.owner ∙ sym key);
            role = rw (← what) j.role;
            active = rw (← what) j.active;
          };
          stored = rw same (stored_row (lib.sha256 raw_token) i db.invitations found);
        }

    refused_again :
        (now' : ℕ) (ids' : InvitationIds) (name' password' : Option String) (after : Store)
        (i : Invitation)
        → first (by_token (lib.sha256 raw_token)) after.invitations
          ≡ some (set_status InvitationStatus.accepted i)
        → accept_invitation lib now' ids' raw_token name' password' after
          ≡ (err invalid_invitation, after)
    unfolding accept_invitation get_pending_invitation usable accept
    refused_again now' ids' name' password' after i e = rw e refl

    join_sound :
        (i : Invitation) (o : Outcome InvitationError (User × Store)) {a : InvitationAcceptance}
        → first (by_token (lib.sha256 raw_token)) db.invitations ≡ some i
        → is_pending i.status ≡ true
        → leb i.expires_at now ≡ false
        → ((u : User) (db' : Store)
            → o ≡ ok (u, db')
            → (u.email ≡ i.email) × (db'.invitations ≡ db.invitations))
        → (join lib now ids i db o).0 ≡ ok a
        → Answered raw_token db a (join lib now ids i db o).1
    unfolding join
    join_sound i (err e) found waits soon k h = absurd (cc)
    join_sound i (ok (u, db')) found waits soon k h =
        let (mail, same) = k u db' refl in
        finish_sound i u
          (ensure_member lib now ids.membership i u db'
            (first (λ m. m.tenant_id == i.tenant_id && m.user_id == u.id) db'.memberships))
          found waits soon mail
          (λ m db'' e. let (j, kept) = member_sound i u db' db'' _ m refl e in (j, kept ∙ same)) h

    usable_sound :
        (o : Option Invitation) (i : Invitation)
        → usable lib now o ≡ ok i
        → (o ≡ some i) × (is_pending i.status ≡ true) × (leb i.expires_at now ≡ false)
    unfolding usable
    usable_sound none i h = absurd (cc)
    usable_sound (some j) i h = ground arith

    accept_found :
        (o : Outcome InvitationError Invitation) {a : InvitationAcceptance}
        → get_pending_invitation lib now raw_token db ≡ o
        → (accept lib now ids name password db o).0 ≡ ok a
        → Answered raw_token db a (accept lib now ids name password db o).1
    unfolding accept get_pending_invitation
    accept_found (err e) g h = absurd (cc)
    accept_found (ok i) g h =
        let (found, waits, soon) =
          usable_sound (first (by_token (lib.sha256 raw_token)) db.invitations) i g in
        join_sound i
          (ensure_user lib now ids.user i name password db
            (first (λ u. str_eq u.email i.email) db.users))
          found waits soon (λ u db' e. user_sound i name password db db' _ u refl e) h

    -- An acceptance that succeeds answers an invitation that waits and has not expired: the user
    -- has the invited address, and the membership is active in the inviting tenant with the
    -- invited role, and belongs to that user.
    pub accept_sound :
        {a : InvitationAcceptance}
        → (accept_invitation lib now ids raw_token name password db).0 ≡ ok a
        → Answered raw_token db a (accept_invitation lib now ids raw_token name password db).1
    unfolding accept_invitation
    accept_sound h = accept_found (get_pending_invitation lib now raw_token db) refl h

    -- The token of an accepted invitation is refused from then on, and changes nothing.
    pub accept-accept :
        (now' : ℕ) (ids' : InvitationIds) (name' password' : Option String)
        {a : InvitationAcceptance}
        → (accept_invitation lib now ids raw_token name password db).0 ≡ ok a
        → accept_invitation lib now' ids' raw_token name' password'
            (accept_invitation lib now ids raw_token name password db).1
          ≡ (err invalid_invitation, (accept_invitation lib now ids raw_token name password db).1)
    accept-accept now' ids' name' password' h =
        refused_again now' ids' name' password'
          (accept_invitation lib now ids raw_token name password db).1 (accept_sound h).invitation
          (accept_sound h).stored
