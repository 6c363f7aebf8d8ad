-- ===== src/Tenancy.antt =====
-- app/core/tenant_context.py, app/services/authorization.py and the tenant part of
-- app/api/dependencies.py: who a request acts for, and what the role lets it do.
pub mod Access
mod Tests
use omni_crm_backend.Prelude.{
  ℕ, Bool, true, false, ◌&&◌, Option, none, some, List, Outcome, ok, err, ◌==◌, holds, is_none,
  if◌then◌else◌, first, not,
}
use omni_crm_backend.Identity.{User, Membership, Store, Role, is_active_user, is_active_member}

pub record TenantContext : Type 0 where
  pub tenant_id : ℕ
  pub membership_id : ℕ
  pub user_id : ℕ
  pub role : Role

pub record CurrentIdentity : Type 0 where
  pub user_id : ℕ
  pub tenant_id : Option ℕ
  pub membership_id : Option ℕ
  pub session_id : Option ℕ

-- The `detail.code` of the exceptions, with their status.
pub data AccessError : Type 0 where
  authentication_required email_not_verified membership_inactive role_forbidden : AccessError
  cross_tenant_access_denied reassignment_forbidden resource_not_assigned : AccessError
  invalid_assignee : AccessError

pub data ResourceAction : Type 0 where
  read write takeover reassign : ResourceAction

pub record ResourceScope : Type 0 where
  pub tenant_id : ℕ
  pub assignee_membership_id : Option ℕ

-- role in {"administrador", "supervisor"}
abbrev pub is_manager : Role → Bool
is_manager Role.administrador = true
is_manager Role.supervisor = true
is_manager Role.agente_comercial = false

abbrev pub is_agent : Role → Bool
is_agent Role.agente_comercial = true
is_agent _ = false

abbrev pub is_reassign : ResourceAction → Bool
is_reassign ResourceAction.reassign = true
is_reassign _ = false

pub authorize_assigned_resource :
    TenantContext → ResourceScope → ResourceAction → Outcome AccessError (Unit {0})
authorize_assigned_resource context resource action =
    if not (resource.tenant_id == context.tenant_id)
    then err cross_tenant_access_denied
    else if is_manager context.role
    then ok tt
    else if is_reassign action
    then err reassignment_forbidden
    else if not (holds resource.assignee_membership_id context.membership_id)
    then err resource_not_assigned
    else ok tt

found_or : AccessError → Option Membership → Outcome AccessError Membership
found_or e none = err e
found_or e (some m) = ok m

unfoldable pub validate_assignee_membership :
    Store → TenantContext → ℕ → Outcome AccessError Membership
unfolding found_or
validate_assignee_membership db context assignee_membership_id = found_or invalid_assignee (
    first
      (λ m.
        m.id == assignee_membership_id
        && (m.tenant_id == context.tenant_id && is_active_member m.status))
      db.memberships)

verified : CurrentIdentity → Option User → Outcome AccessError CurrentIdentity
verified identity none = err email_not_verified
verified identity (some u) =
    if is_none u.email_verified_at then err email_not_verified else ok identity

pub require_verified_identity : Store → CurrentIdentity → Outcome AccessError CurrentIdentity
unfolding verified
require_verified_identity db identity =
    verified identity (first (λ u. u.id == identity.user_id && is_active_user u.status) db.users)

-- The context of the membership that the identity names.
abbrev pub context_of : Membership → TenantContext
context_of m = record {
  tenant_id = m.tenant_id;
  membership_id = m.id;
  user_id = m.user_id;
  role = m.role;
}

joined : Option Membership → Outcome AccessError TenantContext
joined none = err membership_inactive
joined (some m) = ok (context_of m)

tenant_context_of : Store → ℕ → Option ℕ → Option ℕ → Outcome AccessError TenantContext
unfolding joined
tenant_context_of db user_id (some tenant_id) (some membership_id) = joined (
    first
      (λ m.
        m.id == membership_id
        && (m.user_id == user_id && (m.tenant_id == tenant_id && is_active_member m.status)))
      db.memberships)
tenant_context_of db user_id _ _ = err authentication_required

-- `identity` is what `require_verified_identity` has let through.
pub require_tenant_context : Store → CurrentIdentity → Outcome AccessError TenantContext
unfolding tenant_context_of
require_tenant_context db identity =
    tenant_context_of db identity.user_id identity.tenant_id identity.membership_id

pub require_supervisor_or_admin : TenantContext → Outcome AccessError TenantContext
require_supervisor_or_admin context =
    if not (is_manager context.role) then err role_forbidden else ok context
