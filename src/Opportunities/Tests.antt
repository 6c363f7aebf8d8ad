-- ===== src/Opportunities/Tests.antt =====
-- A pipeline with three stages and three agents.
use omni_crm_backend.Prelude.{
  ℕ, ◌≡◌, refl, true, false, none, some, List, [], ◌∷◌, arith, ok, err, first, update, select, map,
  length,
}
use omni_crm_backend.Identity.{Membership, MembershipStatus, Role, Store}
use omni_crm_backend.Identity.Sample.{start}
use omni_crm_backend.Tenancy.{TenantContext, validate_assignee_membership}
use omni_crm_backend.CustomFields.{validate_custom_field_payload}
use omni_crm_backend.Opportunities.{
  Board, Opportunity, OpportunityCreate, PipelineStage, TerminalType, change_stage,
  change_opportunity_stage, create_opportunity, new_opportunity, assign_opportunity,
  invalid_assignee, loss_reason_required,
}
use omni_crm_backend.Opportunities.Rotation.{AssignmentRotationState, agent_ids, is_state}
use omni_crm_backend.Opportunities.Placed.{AllPlaced, change_stage-AllPlaced}
use omni_crm_backend.Opportunities.Turns.{agents, fair_round}

abbrev chief : TenantContext
chief = record { tenant_id = 9; membership_id = 5; user_id = 1; role = Role.supervisor }

abbrev agent : ℕ → ℕ → Membership
agent id user_id = record {
  id = id;
  tenant_id = 9;
  user_id = user_id;
  role = Role.agente_comercial;
  status = MembershipStatus.active;
  accepted_at = none;
}

abbrev members : List Membership
members = agent 61 8 ∷ agent 62 2 ∷ agent 63 5 ∷ []

abbrev state : AssignmentRotationState
state = record { tenant_id = 9; last_assigned_user_id = some 5 }

in_order : agent_ids 9 members ≡ 2 ∷ 5 ∷ 8 ∷ []
unfolding agent_ids select
in_order = refl

found : first (is_state 9) (state ∷ []) ≡ some state
unfolding first
found = refl

fair_round_example :
    agents 9 (length (agent_ids 9 members)) members (state ∷ []) ≡ map some (8 ∷ 2 ∷ 5 ∷ [])
unfolding agent_ids select
fair_round_example =
    fair_round 9 members (2 ∷ []) 5 (8 ∷ []) (state ∷ []) state
      (((omega arith), ((omega arith), tt)), (((omega arith), tt), (tt, tt))) in_order found refl

abbrev stage : ℕ → TerminalType → PipelineStage
stage id t = record {
  id = id;
  tenant_id = 9;
  pipeline_id = 3;
  name = "s";
  position = id;
  terminal_type = t;
}

abbrev sale : Opportunity
sale = record {
  id = 20;
  tenant_id = 9;
  contact_id = 30;
  pipeline_id = 3;
  stage_id = 1;
  owner_user_id = none;
  loss_reason = none;
  custom_fields = [];
}

abbrev board : Board
board = record {
  opportunities = sale ∷ [];
  stages = stage 1 TerminalType.open_ ∷ stage 2 TerminalType.lost ∷ [];
  pipelines = record { id = 3; tenant_id = 9; name = "Ventas"; is_default = true } ∷ [];
  rotation = state ∷ [];
  audit_events = [];
}

no_reason : change_stage chief 20 2 none board ≡ (err loss_reason_required, board)
unfolding change_stage change_opportunity_stage first update
no_reason = refl

change_stage-AllPlaced_example : AllPlaced (change_stage chief 20 2 (some "precio") board).1
unfolding first
change_stage-AllPlaced_example =
    change_stage-AllPlaced chief 2 (some "precio") 20 board (tt, tt)
      (
        record { stage = stage 1 TerminalType.open_; found = refl; explained = λ l. absurd (cc) },
        tt,
      )

abbrev db : Store
db = record start { memberships = members }

-- The handler hands a user's identifier to a query by the membership's, so an agent of the tenant
-- is refused.
agent_refused : assign_opportunity db chief 20 8 board ≡ (err invalid_assignee, board)
unfolding assign_opportunity validate_assignee_membership first
agent_refused = refl

abbrev lost_sale : OpportunityCreate
lost_sale = record {
  contact_id = 30;
  pipeline_id = 3;
  stage_id = 2;
  owner_user_id = none;
  loss_reason = none;
  custom_fields = [];
}

-- An opportunity is created in a lost stage with no reason.
lost_from_start :
    (create_opportunity
      (λ s. false)
      21
      db
      ((9, 30) ∷ [])
      []
      chief
      (record lost_sale { owner_user_id = some 1 })
      board).0
    ≡ ok (new_opportunity 21 9 lost_sale (some 1))
unfolding create_opportunity validate_custom_field_payload first select
lost_from_start = refl
