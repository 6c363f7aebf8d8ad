-- ===== src/Opportunities.antt =====
-- app/services/opportunity_stages.py, pipeline.py and round_robin.py, and the handlers of app/api/v1/opportunities.py: the
-- stages of an opportunity, and whose turn it is. Each handler is one transaction: an exception
-- leaves the tables as they were. Of an audit event the model keeps who, what and on what.
pub mod Rotation
pub mod Placed
pub mod Turns
mod Tests
use package.text.Mathlib.Text.{◌==◌ as str_eq}
use omni_crm_backend.Prelude.{
  ℕ, suc, String, Bool, true, false, not, ◌&&◌, ◌||◌, Option, none, some, List, [], ◌∷◌, ◌++◌,
  Outcome, ok, err, ◌==◌, is_some, is_none, if◌then◌else◌, first, update, insert,
}
use omni_crm_backend.Identity.{Membership, Role, Store}
use omni_crm_backend.Tenancy.{TenantContext, validate_assignee_membership}
use omni_crm_backend.CustomFields.{
  Value, EntityType, FieldDefinition, ValidationError, validate_custom_field_payload,
}
use omni_crm_backend.Opportunities.Rotation.{AssignmentRotationState, next_round_robin_agent}

pub data TerminalType : Type 0 where
  open_ won lost : TerminalType

pub record PipelineStage : Type 0 where
  pub id : ℕ
  pub tenant_id : ℕ
  pub pipeline_id : ℕ
  pub name : String
  pub position : ℕ
  pub terminal_type : TerminalType

pub record Pipeline : Type 0 where
  pub id : ℕ
  pub tenant_id : ℕ
  pub name : String
  pub is_default : Bool

-- The amount, its currency and the expected date of closing are not in the model.
pub record Opportunity : Type 0 where
  pub id : ℕ
  pub tenant_id : ℕ
  pub contact_id : ℕ
  pub pipeline_id : ℕ
  pub stage_id : ℕ
  pub owner_user_id : Option ℕ
  pub loss_reason : Option String
  pub custom_fields : List (String × Value)

pub data BoardAction : Type 0 where
  stage_changed assigned : BoardAction

pub record BoardEvent : Type 0 where
  pub tenant_id : ℕ
  pub actor_user_id : Option ℕ
  pub action : BoardAction
  pub resource_id : ℕ

pub record Board : Type 0 where
  pub opportunities : List Opportunity
  pub stages : List PipelineStage
  pub pipelines : List Pipeline
  pub rotation : List AssignmentRotationState
  pub audit_events : List BoardEvent

pub data BoardError : Type 0 where
  opportunity_not_found stage_not_in_pipeline loss_reason_required invalid_assignee : BoardError
  role_required invalid_reference : BoardError
  invalid_custom_field : ValidationError → BoardError

abbrev pub in_tenant : ℕ → ℕ → Opportunity → Bool
in_tenant tenant_id opportunity_id o = o.id == opportunity_id && o.tenant_id == tenant_id

abbrev pub is_target : ℕ → ℕ → ℕ → PipelineStage → Bool
is_target tenant_id stage_id pipeline_id s =
    s.id == stage_id && (s.tenant_id == tenant_id && s.pipeline_id == pipeline_id)

abbrev pub is_lost : TerminalType → Bool
is_lost lost = true
is_lost _ = false

-- `not loss_reason`: None or the empty text
abbrev pub is_blank : Option String → Bool
is_blank none = true
is_blank (some r) = str_eq r ""

abbrev pub staged : ℕ → Opportunity → Opportunity
staged stage_id o = record o { stage_id = stage_id }

pub change_to :
    Option ℕ → Opportunity → Board → Option PipelineStage → Outcome BoardError Opportunity × Board
change_to actor o board none = (err stage_not_in_pipeline, board)
change_to actor o board (some s) =
    if is_lost s.terminal_type && is_blank o.loss_reason
    then (err loss_reason_required, board)
    else (
      ok (staged s.id o),
      record board {
        opportunities = update (λ x. x.id == o.id) (staged s.id) board.opportunities;
        audit_events =
            insert
              (record {
                tenant_id = o.tenant_id;
                actor_user_id = actor;
                action = stage_changed;
                resource_id = o.id;
              })
              board.audit_events;
      },
    )

pub change_found :
    ℕ → ℕ → Option ℕ → Board → Option Opportunity → Outcome BoardError Opportunity × Board
unfolding change_to
change_found tenant_id target_stage_id actor board none = (err opportunity_not_found, board)
change_found tenant_id target_stage_id actor board (some o) =
    change_to actor o board (first (is_target tenant_id target_stage_id o.pipeline_id) board.stages)

unfoldable pub change_opportunity_stage :
    ℕ → ℕ → ℕ → Option ℕ → Board → Outcome BoardError Opportunity × Board
unfolding change_found
change_opportunity_stage tenant_id opportunity_id target_stage_id actor board =
    change_found tenant_id target_stage_id actor board
      (first (in_tenant tenant_id opportunity_id) board.opportunities)

abbrev pub or_keep : Option String → Option String → Option String
or_keep none old = old
or_keep (some r) old = some r

abbrev pub with_reason : Option String → Opportunity → Opportunity
with_reason reason o = record o { loss_reason = or_keep reason o.loss_reason }

-- The board that an exception leaves.
abbrev pub or_before :
    Board → Outcome BoardError Opportunity × Board → Outcome BoardError Opportunity × Board
or_before before (err e, board) = (err e, before)
or_before before (ok o, board) = (ok o, board)

pub stage_found :
    TenantContext
    → ℕ
    → Option String
    → Board
    → Option Opportunity
    → Outcome BoardError Opportunity × Board
stage_found context new_stage_id loss_reason board none = (err opportunity_not_found, board)
stage_found context new_stage_id loss_reason board (some o) = or_before board (
    change_opportunity_stage context.tenant_id o.id new_stage_id (some context.user_id)
      (record board {
        opportunities = update (λ x. x.id == o.id) (with_reason loss_reason) board.opportunities;
      }))

unfoldable pub change_stage :
    TenantContext → ℕ → ℕ → Option String → Board → Outcome BoardError Opportunity × Board
unfolding stage_found
change_stage context opportunity_id new_stage_id loss_reason board =
    stage_found context new_stage_id loss_reason board
      (first (in_tenant context.tenant_id opportunity_id) board.opportunities)

abbrev pub owned_by : ℕ → Opportunity → Opportunity
owned_by user_id o = record o { owner_user_id = some user_id }

-- role in {"agente_comercial", "supervisor"}
abbrev pub is_assignable : Role → Bool
is_assignable Role.agente_comercial = true
is_assignable Role.supervisor = true
is_assignable Role.administrador = false

pub assign_to :
    {E : Type 0}
    → TenantContext
    → ℕ
    → Opportunity
    → Board
    → Outcome E Membership
    → Outcome BoardError Opportunity × Board
assign_to context owner_user_id o board (err e) = (err invalid_assignee, board)
assign_to context owner_user_id o board (ok m) =
    if is_assignable m.role
    then (
      ok (owned_by owner_user_id o),
      record board {
        opportunities = update (λ x. x.id == o.id) (owned_by owner_user_id) board.opportunities;
        audit_events =
            insert
              (record {
                tenant_id = context.tenant_id;
                actor_user_id = some context.user_id;
                action = assigned;
                resource_id = o.id;
              })
              board.audit_events;
      },
    )
    else (err invalid_assignee, board)

pub assign_found :
    Store → TenantContext → ℕ → Board → Option Opportunity → Outcome BoardError Opportunity × Board
unfolding assign_to
assign_found db context owner_user_id board none = (err opportunity_not_found, board)
assign_found db context owner_user_id board (some o) =
    assign_to context owner_user_id o board (validate_assignee_membership db context owner_user_id)

-- require_roles("supervisor", "administrador")
abbrev pub may_assign : Role → Bool
may_assign Role.supervisor = true
may_assign Role.administrador = true
may_assign Role.agente_comercial = false

unfoldable pub assign_opportunity :
    Store → TenantContext → ℕ → ℕ → Board → Outcome BoardError Opportunity × Board
unfolding assign_found
assign_opportunity db context opportunity_id owner_user_id board =
    if may_assign context.role
    then assign_found db context owner_user_id board
        (first (in_tenant context.tenant_id opportunity_id) board.opportunities)
    else (err role_required, board)

pub record OpportunityCreate : Type 0 where
  pub contact_id : ℕ
  pub pipeline_id : ℕ
  pub stage_id : ℕ
  pub owner_user_id : Option ℕ
  pub loss_reason : Option String
  pub custom_fields : List (String × Value)

abbrev pub new_opportunity : ℕ → ℕ → OpportunityCreate → Option ℕ → Opportunity
new_opportunity id tenant_id p owner = record {
  id = id;
  tenant_id = tenant_id;
  contact_id = p.contact_id;
  pipeline_id = p.pipeline_id;
  stage_id = p.stage_id;
  owner_user_id = owner;
  loss_reason = p.loss_reason;
  custom_fields = p.custom_fields;
}

abbrev pub is_user : Store → Option ℕ → Bool
is_user db none = true
is_user db (some user_id) = is_some (first (λ u. u.id == user_id) db.users)

-- The foreign keys of the table: contact, pipeline and stage of the tenant, and the owner. `contacts`
-- are the tenants and identifiers of the contacts.
abbrev pub is_referenced : Store → List (ℕ × ℕ) → Board → Opportunity → Bool
is_referenced db contacts board o =
    is_some (first (λ c. c.0 == o.tenant_id && c.1 == o.contact_id) contacts)
    && (is_some (first (λ p. p.id == o.pipeline_id && p.tenant_id == o.tenant_id) board.pipelines)
        && (is_some (first (λ s. s.id == o.stage_id && s.tenant_id == o.tenant_id) board.stages)
            && is_user db o.owner_user_id))

pub add_opportunity :
    Store → List (ℕ × ℕ) → Board → Board → Opportunity → Outcome BoardError Opportunity × Board
add_opportunity db contacts before board o =
    if is_referenced db contacts board o
    then (ok o, record board { opportunities = insert o board.opportunities })
    else (err invalid_reference, before)

-- The owner that is given, or the agent whose turn it is.
pub owner_of : ℕ → Store → Option ℕ → Board → Option ℕ × Board
owner_of tenant_id db (some user_id) board = (some user_id, board)
owner_of tenant_id db none board =
    let (agent, rotation) = next_round_robin_agent tenant_id db.memberships board.rotation in
    (agent, record board { rotation = rotation })

pub create_valid :
    ℕ
    → Store
    → List (ℕ × ℕ)
    → TenantContext
    → OpportunityCreate
    → Board
    → Outcome ValidationError (Unit {0})
    → Outcome BoardError Opportunity × Board
unfolding add_opportunity owner_of
create_valid id db contacts context p board (err e) = (err (invalid_custom_field e), board)
create_valid id db contacts context p board (ok u) =
    let (owner, board') = owner_of context.tenant_id db p.owner_user_id board in
    add_opportunity db contacts board board' (new_opportunity id context.tenant_id p owner)

unfoldable pub create_opportunity :
    (String → Bool)
    → ℕ
    → Store
    → List (ℕ × ℕ)
    → List FieldDefinition
    → TenantContext
    → OpportunityCreate
    → Board
    → Outcome BoardError Opportunity × Board
unfolding create_valid
create_opportunity is_iso_date id db contacts definitions context p board =
    create_valid id db contacts context p board (
      validate_custom_field_payload is_iso_date context.tenant_id EntityType.opportunity
        p.custom_fields true definitions)

-- DEFAULT_STAGES
abbrev pub default_stages : List (String × TerminalType)
default_stages =
    ("Nuevo", open_)
    ∷ ("Contactado", open_)
    ∷ ("Calificado", open_)
    ∷ ("Cita/Diagnóstico", open_)
    ∷ ("Propuesta", open_)
    ∷ ("Ganado", won)
    ∷ ("Perdido", lost)
    ∷ []

-- enumerate(…, start=position); the stages take the identifiers from `id` on.
abbrev pub stages_from : ℕ → ℕ → ℕ → ℕ → List (String × TerminalType) → List PipelineStage
stages_from tenant_id pipeline_id id position [] = []
stages_from tenant_id pipeline_id id position ((name, terminal_type) ∷ rest) =
    (record {
      id = id;
      tenant_id = tenant_id;
      pipeline_id = pipeline_id;
      name = name;
      position = position;
      terminal_type = terminal_type;
    })
    ∷ stages_from tenant_id pipeline_id (suc id) (suc position) rest

unfoldable pub create_default_pipeline : ℕ → ℕ → ℕ → Board → Pipeline × Board
create_default_pipeline tenant_id pipeline_id stage_id board =
    let p : Pipeline = record {
      id = pipeline_id;
      tenant_id = tenant_id;
      name = "Ventas";
      is_default = true;
    } in
    (
      p,
      record board {
        pipelines = insert p board.pipelines;
        stages = board.stages ++ stages_from tenant_id pipeline_id stage_id 1 default_stages;
      },
    )
