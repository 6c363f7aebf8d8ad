-- ===== src/Identity/Invitations/Pending.antt =====
-- An address has at most one invitation to a tenant that waits for an answer.
use text.Mathlib.Text.{◌==◌ as str_eq}
use text.Mathlib.TextEquality.{eq_iff}
use omni_crm_backend.Prelude.{
  ℕ, ◌≤◌, ◌≡◌, refl, String, Bool, true, false, not, ◌&&◌, inl, inr, Option, none, some, List,
  arith, Outcome, ok, err, ◌==◌, Bool-cases, is_some, first, update, insert, count,
}
use omni_crm_backend.Prelude.RowLaws.{
  count-append, count-update_le, count-none_of_All, All-update_where,
}
use omni_crm_backend.Identity.{
  User, Membership, Role, Invitation, InvitationStatus, Store, is_pending,
}
use omni_crm_backend.Identity.Invitations.{
  InvitationLibrary, InvitationIds, InvitationError, create_invitation, invite_new, invite,
  accept_invitation, accept, join, finish, ensure_user, ensure_member, revoke_invitation, revoke,
  waits_for, set_status, new_invitation, is_invitable, is_member, get_pending_invitation,
}

abbrev pub IsSingleInvitation : List Invitation → Type 0
IsSingleInvitation is = (tenant_id : ℕ) (email : String) → count (waits_for tenant_id email) is ≤ 1

-- Settling rows never adds one that waits.
settle-IsSingleInvitation :
    (q : Invitation → Bool) (status : InvitationStatus) (is : List Invitation)
    → is_pending status ≡ false
    → IsSingleInvitation is
    → IsSingleInvitation (update q (set_status status) is)
settle-IsSingleInvitation q status is settled h t e = omega (
  arith,
  h t e,
  count-update_le (waits_for t e) q (set_status status) (λ x _. ground (arith, settled)) is,
)

-- A row is added for an address for which no row waits.
added-IsSingleInvitation :
    (i : Invitation) (is : List Invitation)
    → count (waits_for i.tenant_id i.email) is ≡ 0
    → IsSingleInvitation is
    → IsSingleInvitation (insert i is)
added-IsSingleInvitation i is zeros h t e = elim (Bool-cases (waits_for t e i)) [
  | inr off ↦ rw count-append (unfold count in rw off (omega (arith, h t e)))
  | inl on ↦ rw count-append (unfold count in rw on (omega (arith, same on)))
]
  where
    same : waits_for t e i ≡ true → count (waits_for t e) is ≡ 0
    same on =
        let p : i.tenant_id ≡ t = ground (arith, eq_iff i.email e) in
        let q : i.email ≡ e = ground (arith, eq_iff i.email e) in rw (← p, ← q) zeros

module _ (lib : InvitationLibrary) (now : ℕ) (ids : InvitationIds) where
  invite-IsSingleInvitation :
      (tenant_id invited_by : ℕ) (email : String) (role : Role) (lifetime : ℕ)
      (raw_token base_url : String) (db : Store)
      → IsSingleInvitation db.invitations
      → IsSingleInvitation
          (invite lib now ids tenant_id invited_by email role lifetime raw_token base_url
            db).1.invitations
  unfolding invite
  invite-IsSingleInvitation tenant_id invited_by email role lifetime raw_token base_url db h =
      added-IsSingleInvitation
        (new_invitation lib now ids.invitation tenant_id email role raw_token invited_by lifetime)
        (update (waits_for tenant_id email) (set_status InvitationStatus.revoked) db.invitations)
        (count-none_of_All (waits_for tenant_id email)
          (update (waits_for tenant_id email) (set_status InvitationStatus.revoked) db.invitations)
          (All-update_where (λ x. waits_for tenant_id email x ≡ false) (waits_for tenant_id email)
            (set_status InvitationStatus.revoked) (λ x _. ground arith) (λ x e. e) db.invitations))
        (settle-IsSingleInvitation (waits_for tenant_id email) InvitationStatus.revoked
          db.invitations refl h)

  create-IsSingleInvitation :
      (tenant_id invited_by : ℕ) (email : String) (role : Role) (lifetime : ℕ)
      (raw_token base_url : String) (db : Store)
      → IsSingleInvitation db.invitations
      → IsSingleInvitation
          (create_invitation lib now ids tenant_id invited_by email role lifetime raw_token base_url
            db).1.invitations
  unfolding create_invitation invite_new
  create-IsSingleInvitation tenant_id invited_by email role lifetime raw_token base_url db h =
      elim (Bool-cases (not (is_invitable role))) [
        | inl e ↦ rw e h
        | inr e ↦
            elim (Bool-cases (
              is_some
                (first (is_member db tenant_id (lib.normalize_email email)) db.memberships))) [
                  | inl d ↦ rw (e, d) h
                  | inr d ↦
                      rw (e, d)
                        (invite-IsSingleInvitation tenant_id invited_by (lib.normalize_email email)
                          role lifetime raw_token base_url db h)
                ]
      ]

  finish-IsSingleInvitation :
      (i : Invitation) (u : User) (before : Store)
      (o : Outcome InvitationError (Membership × Store))
      → IsSingleInvitation before.invitations
      → ((m : Membership) (db : Store) → o ≡ ok (m, db) → IsSingleInvitation db.invitations)
      → IsSingleInvitation (finish lib now i u before o).1.invitations
  unfolding finish
  finish-IsSingleInvitation i u before (err e) h k = h
  finish-IsSingleInvitation i u before (ok (m, db)) h k =
      settle-IsSingleInvitation (λ x. x.id == i.id) InvitationStatus.accepted db.invitations refl
        (k m db refl)

  member_invitations :
      (i : Invitation) (u : User) (db : Store) (o : Option Membership) (m : Membership)
      (db' : Store)
      → ensure_member lib now ids.membership i u db o ≡ ok (m, db')
      → db'.invitations ≡ db.invitations
  unfolding ensure_member
  member_invitations i u db none m db' e = ground arith
  member_invitations i u db (some old) m db' e = ground arith

  user_invitations :
      (i : Invitation) (name password : Option String) (db : Store) (o : Option User) (u : User)
      (db' : Store)
      → ensure_user lib now ids.user i name password db o ≡ ok (u, db')
      → db'.invitations ≡ db.invitations
  unfolding ensure_user
  user_invitations i name password db (some old) u db' e = ground arith
  user_invitations i name password db none u db' e = ground arith

  join-IsSingleInvitation :
      (i : Invitation) (before : Store) (o : Outcome InvitationError (User × Store))
      → IsSingleInvitation before.invitations
      → ((u : User) (db : Store) → o ≡ ok (u, db) → db.invitations ≡ before.invitations)
      → IsSingleInvitation (join lib now ids i before o).1.invitations
  unfolding join
  join-IsSingleInvitation i before (err e) h same = h
  join-IsSingleInvitation i before (ok (u, db)) h same =
      finish-IsSingleInvitation i u before
        (ensure_member lib now ids.membership i u db
          (first (λ m. m.tenant_id == i.tenant_id && m.user_id == u.id) db.memberships))
        h (λ m db' e. rw (member_invitations i u db _ m db' e) (rw (same u db refl) h))

  accept-IsSingleInvitation :
      (name password : Option String) (db : Store) (o : Outcome InvitationError Invitation)
      → IsSingleInvitation db.invitations
      → IsSingleInvitation (accept lib now ids name password db o).1.invitations
  unfolding accept
  accept-IsSingleInvitation name password db (err e) h = h
  accept-IsSingleInvitation name password db (ok i) h =
      join-IsSingleInvitation i db
        (ensure_user lib now ids.user i name password db
          (first (λ u. str_eq u.email i.email) db.users))
        h (λ u db' e. user_invitations i name password db _ u db' e)

revoke-IsSingleInvitation :
    (db : Store) (o : Option Invitation)
    → IsSingleInvitation db.invitations
    → IsSingleInvitation (revoke db o).1.invitations
unfolding revoke
revoke-IsSingleInvitation db none h = h
revoke-IsSingleInvitation db (some i) h = elim (Bool-cases (not (is_pending i.status))) [
  | inl e ↦ rw e h
  | inr e ↦
      rw e (
        settle-IsSingleInvitation (λ x. x.id == i.id) InvitationStatus.revoked db.invitations refl
          h)
]

-- The operations on invitations, whether they raise or not.
pub data Step (lib : InvitationLibrary) (db : Store) : Store → Type 0 where
  created :
      (now : ℕ) (ids : InvitationIds) (tenant_id invited_by : ℕ) (email : String) (role : Role)
      (lifetime : ℕ) (raw_token base_url : String)
      → Step lib db
          (create_invitation lib now ids tenant_id invited_by email role lifetime raw_token base_url
            db).1
  answered :
      (now : ℕ) (ids : InvitationIds) (raw_token : String) (name password : Option String)
      → Step lib db (accept_invitation lib now ids raw_token name password db).1
  withdrawn :
      (invitation_id tenant_id : ℕ) → Step lib db (revoke_invitation invitation_id tenant_id db).1

-- Creating, accepting and revoking keep to one waiting invitation for an address and a tenant.
pub Step-IsSingleInvitation :
    (lib : InvitationLibrary) (db after : Store)
    → Step lib db after
    → IsSingleInvitation db.invitations
    → IsSingleInvitation after.invitations
unfolding accept_invitation revoke_invitation
Step-IsSingleInvitation lib db after (created now ids t by email role lifetime raw base) h =
    create-IsSingleInvitation lib now ids t by email role lifetime raw base db h
Step-IsSingleInvitation lib db after (answered now ids raw name password) h =
    accept-IsSingleInvitation lib now ids name password db (get_pending_invitation lib now raw db) h
Step-IsSingleInvitation lib db after (withdrawn id t) h =
    revoke-IsSingleInvitation db (first (λ i. i.id == id && i.tenant_id == t) db.invitations) h
