-- ===== src/Tenancy/Access.antt =====
-- The access rules, against a description of them that does not follow the code.
use omni_crm_backend.Prelude.{
  ℕ, ◌≡◌, ◌≢◌, ◌⊎◌, ◌↔◌, refl, Bool, ◌&&◌, Option, none, some, arith, ok, ◌==◌, first,
}
use omni_crm_backend.Prelude.RowLaws.{first_sound}
use omni_crm_backend.Identity.{Membership, MembershipStatus, Store, Role, is_active_member}
use omni_crm_backend.Tenancy.{
  TenantContext, ResourceScope, ResourceAction, AccessError, CurrentIdentity,
  authorize_assigned_resource, validate_assignee_membership, require_tenant_context,
  tenant_context_of, found_or, joined, context_of,
}

-- Within the tenant, a manager may do everything; an agent may read, write and take over what is
-- assigned to the agent's own membership.
abbrev pub May : TenantContext → ResourceScope → ResourceAction → Type 0
May context resource action =
    (resource.tenant_id ≡ context.tenant_id)
    × ((context.role ≢ Role.agente_comercial)
        ⊎ ((resource.assignee_membership_id ≡ some context.membership_id)
            × (action ≢ ResourceAction.reassign)))

-- A resource is opened exactly when the rule allows it.
pub authorize_iff :
    (context : TenantContext) (resource : ResourceScope) (action : ResourceAction)
    → (authorize_assigned_resource context resource action ≡ ok tt) ↔ May context resource action
unfolding authorize_assigned_resource
authorize_iff context resource action = (λ h. ground arith, λ h. ground arith)

-- A context that is granted is that of a membership row: active, of the identity's own user and
-- tenant, with the row's role.
pub record IsMembershipContext (db : Store) (identity : CurrentIdentity) (context : TenantContext)
    : Type 0 where
  pub tenant : identity.tenant_id ≡ some context.tenant_id
  pub membership : identity.membership_id ≡ some context.membership_id
  pub user : identity.user_id ≡ context.user_id
  pub row : Membership
  pub active : row.status ≡ MembershipStatus.active
  pub granted : context_of row ≡ context

joined_inv :
    (o : Option Membership) {context : TenantContext}
    → joined o ≡ ok context
    → (m : Membership) × (o ≡ some m) × (context_of m ≡ context)
unfolding joined
joined_inv none h = absurd (cc)
joined_inv (some m) h = (m, refl, cc)

granted_from :
    (db : Store) (session : Option ℕ) (user_id : ℕ) (tenant_id membership_id : Option ℕ)
    {context : TenantContext}
    → tenant_context_of db user_id tenant_id membership_id ≡ ok context
    → IsMembershipContext db
        (record {
          user_id = user_id;
          tenant_id = tenant_id;
          membership_id = membership_id;
          session_id = session;
        })
        context
unfolding tenant_context_of
granted_from db session user_id (some tid) (some mid) {context} h =
    let row : Membership → Bool = λ m.
      m.id == mid && (m.user_id == user_id && (m.tenant_id == tid && is_active_member m.status)) in
    let (m, found, same) = joined_inv (first row db.memberships) h in
    let fits = first_sound row db.memberships found in
    record {
      tenant = ground (arith, fits, same);
      membership = ground (arith, fits, same);
      user = ground (arith, fits, same);
      row = m;
      active = ground (arith, fits);
      granted = same;
    }
granted_from db session user_id none mid h = absurd (cc)
granted_from db session user_id (some tid) none h = absurd (cc)

-- Every context that a request is given belongs to an active membership of the same user in the
-- same tenant, and carries that membership's role.
pub require_tenant_context_sound :
    (db : Store) (identity : CurrentIdentity) {context : TenantContext}
    → require_tenant_context db identity ≡ ok context
    → IsMembershipContext db identity context
unfolding require_tenant_context
require_tenant_context_sound db identity h =
    granted_from db identity.session_id identity.user_id identity.tenant_id identity.membership_id h

assignee_inv :
    (o : Option Membership) {m : Membership}
    → found_or AccessError.invalid_assignee o ≡ ok m
    → o ≡ some m
unfolding found_or
assignee_inv none h = absurd (cc)
assignee_inv (some m) h = cc

-- An assignee is an active member of the context's own tenant.
pub assignee_in_tenant :
    (db : Store) (context : TenantContext) (id : ℕ) {m : Membership}
    → validate_assignee_membership db context id ≡ ok m
    → (m.id ≡ id) × (m.tenant_id ≡ context.tenant_id) × (m.status ≡ MembershipStatus.active)
unfolding validate_assignee_membership
assignee_in_tenant db context id {m} h =
    let row : Membership → Bool =
      λ m. m.id == id && (m.tenant_id == context.tenant_id && is_active_member m.status) in
    let fits = first_sound row db.memberships (assignee_inv (first row db.memberships) h) in
    ground (arith, fits)
