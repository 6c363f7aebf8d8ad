-- ===== src/Identity/Invitations.antt =====
-- app/services/invitations.py: invitations to a tenant, one waiting for each address, accepted once.
-- `sha256` and `hash_password` are library code, and so are `str.strip` and `str.lower`:
-- `normalize_email` and `strip` are parameters. Fresh identifiers and tokens are arguments. Whatever
-- raises leaves the database as it was: the write of "expired" in `get_pending_invitation` is
-- rolled back with the request.
pub mod Pending
pub mod Accepted
mod Tests
use Prim.Native.String.{◌++◌ as ◌++ₜ◌}
use text.Mathlib.Text.{◌==◌ as str_eq}
use omni_crm_backend.Prelude.{
  ℕ, ◌+◌, String, Bool, true, false, not, ◌&&◌, ◌||◌, Option, none, some, List, Outcome, ok, err,
  ltb, leb, ◌==◌, is_some, is_none, if◌then◌else◌, first, update, insert,
}
use omni_crm_backend.Identity.{
  User, UserStatus, Membership, MembershipStatus, Role, Invitation, InvitationStatus, EmailOutbox,
  EmailStatus, Store, is_active_member, is_pending,
}
use omni_crm_backend.Identity.Sessions.{text_length}

pub data InvitationError : Type 0 where
  invalid_invitation invitee_details_required already_a_member : InvitationError

pub record InvitationLibrary : Type 0 where
  pub sha256 : String → String
  pub hash_password : String → String
  pub normalize_email : String → String
  pub strip : String → String

pub record InvitationAcceptance : Type 0 where
  pub invitation : Invitation
  pub user : User
  pub membership : Membership

-- role in {"supervisor", "agente_comercial"}
abbrev pub is_invitable : Role → Bool
is_invitable Role.supervisor = true
is_invitable Role.agente_comercial = true
is_invitable Role.administrador = false

abbrev pub is_member : Store → ℕ → String → Membership → Bool
is_member db tenant_id email m =
    m.tenant_id == tenant_id
    && (is_active_member m.status
        && is_some (first (λ u. u.id == m.user_id && str_eq u.email email) db.users))

abbrev pub waits_for : ℕ → String → Invitation → Bool
waits_for tenant_id email i =
    i.tenant_id == tenant_id && (str_eq i.email email && is_pending i.status)

abbrev pub set_status : InvitationStatus → Invitation → Invitation
set_status status i = record i { status = status }

abbrev pub accept_url : String → String → String
accept_url base_url raw_token = base_url ++ₜ ("/invitations/" ++ₜ raw_token)

abbrev pub invitation_mail : ℕ → ℕ → String → String → EmailOutbox
invitation_mail id tenant_id email url = record {
  id = id;
  tenant_id = some tenant_id;
  user_id = none;
  recipient = email;
  template = "invitation";
  subject = "Te invitaron a Omni CRM";
  text_body = "Acepta tu invitación: " ++ₜ url;
  html_body = some ("<p><a href=\"" ++ₜ (url ++ₜ "\">Aceptar invitación</a></p>"));
  status = EmailStatus.queued;
  attempts = 0;
  last_error = none;
  processing_started_at = none;
  sent_at = none;
}

abbrev pub by_token : String → Invitation → Bool
by_token token_hash i = str_eq i.token_hash token_hash

-- `if not text` of an optional text
abbrev pub is_blank : Option String → Bool
is_blank none = true
is_blank (some t) = str_eq t ""

abbrev pub text_or_empty : Option String → String
text_or_empty none = ""
text_or_empty (some t) = t

-- The identifiers that a call may draw.
pub record InvitationIds : Type 0 where
  pub invitation : ℕ
  pub mail : ℕ
  pub user : ℕ
  pub membership : ℕ

module _ (lib : InvitationLibrary) where
  abbrev pub new_invitation : ℕ → ℕ → ℕ → String → Role → String → ℕ → ℕ → Invitation
  new_invitation now id tenant_id email role raw_token invited_by lifetime = record {
    id = id;
    tenant_id = tenant_id;
    email = email;
    role = role;
    token_hash = lib.sha256 raw_token;
    status = InvitationStatus.pending;
    invited_by_user_id = invited_by;
    expires_at = now + lifetime;
  }

  invite :
      ℕ
      → InvitationIds
      → ℕ
      → ℕ
      → String
      → Role
      → ℕ
      → String
      → String
      → Store
      → Outcome InvitationError (Invitation × String) × Store
  invite now ids tenant_id invited_by email role lifetime raw_token base_url db =
      let i =
        new_invitation now ids.invitation tenant_id email role raw_token invited_by lifetime in
      (
        ok (i, raw_token),
        record db {
          invitations = insert i (
              update (waits_for tenant_id email) (set_status InvitationStatus.revoked)
                db.invitations);
          email_outbox =
              insert (invitation_mail ids.mail tenant_id email (accept_url base_url raw_token))
                db.email_outbox;
        },
      )

  invite_new :
      ℕ
      → InvitationIds
      → ℕ
      → ℕ
      → String
      → Role
      → ℕ
      → String
      → String
      → Store
      → Outcome InvitationError (Invitation × String) × Store
  unfolding invite
  invite_new now ids tenant_id invited_by email role lifetime raw_token base_url db =
      if is_some (first (is_member db tenant_id email) db.memberships)
      then (err already_a_member, db)
      else invite now ids tenant_id invited_by email role lifetime raw_token base_url db

  -- `base_url` has lost its last slashes.
  unfoldable pub create_invitation :
      ℕ
      → InvitationIds
      → ℕ
      → ℕ
      → String
      → Role
      → ℕ
      → String
      → String
      → Store
      → Outcome InvitationError (Invitation × String) × Store
  unfolding invite_new
  create_invitation now ids tenant_id invited_by email role lifetime raw_token base_url db =
      if not (is_invitable role)
      then (err invalid_invitation, db)
      else invite_new now ids tenant_id invited_by (lib.normalize_email email) role lifetime
          raw_token base_url db

  usable : ℕ → Option Invitation → Outcome InvitationError Invitation
  usable now none = err invalid_invitation
  usable now (some i) =
      if not (is_pending i.status)
      then err invalid_invitation
      else if leb i.expires_at now
      then err invalid_invitation
      else ok i

  unfoldable pub get_pending_invitation : ℕ → String → Store → Outcome InvitationError Invitation
  unfolding usable
  get_pending_invitation now raw_token db =
      usable now (first (by_token (lib.sha256 raw_token)) db.invitations)

  abbrev pub invited_user : ℕ → ℕ → String → String → String → User
  invited_user now id name email password = record {
    id = id;
    name = lib.strip name;
    email = email;
    password_hash = lib.hash_password password;
    mfa_enabled = false;
    mfa_secret_encrypted = none;
    status = UserStatus.active;
    email_verified_at = some now;
  }

  -- The user of the address, who is made if there is none.
  ensure_user :
      ℕ
      → ℕ
      → Invitation
      → Option String
      → Option String
      → Store
      → Option User
      → Outcome InvitationError (User × Store)
  ensure_user now id i name password db (some u) = ok (u, db)
  ensure_user now id i name password db none =
      if is_blank name || (is_blank password || ltb (text_length (text_or_empty password)) 12)
      then err invitee_details_required
      else let u = invited_user now id (text_or_empty name) i.email (text_or_empty password) in
        ok (u, record db { users = insert u db.users })

  abbrev pub joined_member : ℕ → ℕ → Invitation → User → Membership
  joined_member now id i u = record {
    id = id;
    tenant_id = i.tenant_id;
    user_id = u.id;
    role = i.role;
    status = MembershipStatus.active;
    accepted_at = some now;
  }

  abbrev pub rejoined : ℕ → Invitation → Membership → Membership
  rejoined now i m = record m {
    role = i.role;
    status = MembershipStatus.active;
    accepted_at = some now;
  }

  ensure_member :
      ℕ
      → ℕ
      → Invitation
      → User
      → Store
      → Option Membership
      → Outcome InvitationError (Membership × Store)
  ensure_member now id i u db none =
      let m = joined_member now id i u in
      ok (m, record db { memberships = insert m db.memberships })
  ensure_member now id i u db (some m) =
      if is_active_member m.status
      then err already_a_member
      else ok (
        rejoined now i m,
        record db { memberships = update (λ x. x.id == m.id) (rejoined now i) db.memberships },
      )

  abbrev pub verified_user : ℕ → User → User
  verified_user now u =
      if is_none u.email_verified_at then record u { email_verified_at = some now } else u

  -- The last writes: the user's address counts as verified, and the invitation as accepted.
  finish :
      ℕ
      → Invitation
      → User
      → Store
      → Outcome InvitationError (Membership × Store)
      → Outcome InvitationError InvitationAcceptance × Store
  finish now i u before (err e) = (err e, before)
  finish now i u before (ok (m, db)) = (
    ok (record {
      invitation = set_status InvitationStatus.accepted i;
      user = verified_user now u;
      membership = m;
    }),
    record db {
      users = update (λ x. x.id == u.id) (verified_user now) db.users;
      invitations =
          update (λ x. x.id == i.id) (set_status InvitationStatus.accepted) db.invitations;
    },
  )

  join :
      ℕ
      → InvitationIds
      → Invitation
      → Store
      → Outcome InvitationError (User × Store)
      → Outcome InvitationError InvitationAcceptance × Store
  join now ids i before (err e) = (err e, before)
  join now ids i before (ok (u, db)) = finish now i u before (
      ensure_member now ids.membership i u db
        (first (λ m. m.tenant_id == i.tenant_id && m.user_id == u.id) db.memberships))

  accept :
      ℕ
      → InvitationIds
      → Option String
      → Option String
      → Store
      → Outcome InvitationError Invitation
      → Outcome InvitationError InvitationAcceptance × Store
  accept now ids name password db (err e) = (err e, db)
  accept now ids name password db (ok i) =
      join now ids i db
        (ensure_user now ids.user i name password db (first (λ u. str_eq u.email i.email) db.users))

  unfoldable pub accept_invitation :
      ℕ
      → InvitationIds
      → String
      → Option String
      → Option String
      → Store
      → Outcome InvitationError InvitationAcceptance × Store
  unfolding accept join ensure_user ensure_member finish
  accept_invitation now ids raw_token name password db =
      accept now ids name password db (get_pending_invitation now raw_token db)

revoke : Store → Option Invitation → Outcome InvitationError Invitation × Store
revoke db none = (err invalid_invitation, db)
revoke db (some i) = if not (is_pending i.status) then (err invalid_invitation, db) else (
  ok (set_status InvitationStatus.revoked i),
  record db {
    invitations = update (λ x. x.id == i.id) (set_status InvitationStatus.revoked) db.invitations;
  },
)

unfoldable pub revoke_invitation : ℕ → ℕ → Store → Outcome InvitationError Invitation × Store
unfolding revoke
revoke_invitation invitation_id tenant_id db =
    revoke db (first (λ i. i.id == invitation_id && i.tenant_id == tenant_id) db.invitations)
