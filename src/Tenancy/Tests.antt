-- ===== src/Tenancy/Tests.antt =====
-- The access theorems at concrete inputs.
use omni_crm_backend.Prelude.{◌≡◌, ◌↔◌, refl, some, [], ◌∷◌, ok, first}
use omni_crm_backend.Identity.{Membership, MembershipStatus, Store, Role}
use omni_crm_backend.Tenancy.{
  TenantContext, ResourceScope, ResourceAction, CurrentIdentity, authorize_assigned_resource,
  validate_assignee_membership, require_tenant_context,
}
use omni_crm_backend.Tenancy.Access.{
  May, authorize_iff, IsMembershipContext, require_tenant_context_sound, assignee_in_tenant,
}

abbrev agent : TenantContext
agent = record { tenant_id = 9; membership_id = 5; user_id = 1; role = Role.agente_comercial }

abbrev scope : ResourceScope
scope = record { tenant_id = 9; assignee_membership_id = some 5 }

authorize_iff_example :
    (authorize_assigned_resource agent scope ResourceAction.takeover ≡ ok tt)
    ↔ May agent scope ResourceAction.takeover
authorize_iff_example = authorize_iff agent scope ResourceAction.takeover

abbrev member : Membership
member = record {
  id = 5;
  tenant_id = 9;
  user_id = 1;
  role = Role.agente_comercial;
  status = MembershipStatus.active;
  accepted_at = some 3;
}

abbrev database : Store
database = record {
  users = [];
  memberships = member ∷ [];
  auth_sessions = [];
  refresh_tokens = [];
  password_reset_tokens = [];
  email_verification_tokens = [];
  recovery_codes = [];
  invitations = [];
  email_outbox = [];
}

abbrev identity : CurrentIdentity
identity = record { user_id = 1; tenant_id = some 9; membership_id = some 5; session_id = some 2 }

granted : require_tenant_context database identity ≡ ok agent
unfolding require_tenant_context first
granted = refl

require_tenant_context_sound_run : IsMembershipContext database identity agent
require_tenant_context_sound_run = require_tenant_context_sound database identity granted

assigned : validate_assignee_membership database agent 5 ≡ ok member
unfolding validate_assignee_membership first
assigned = refl

assignee_in_tenant_run :
    (member.id ≡ 5)
    × (member.tenant_id ≡ agent.tenant_id)
    × (member.status ≡ MembershipStatus.active)
assignee_in_tenant_run = assignee_in_tenant database agent 5 assigned
