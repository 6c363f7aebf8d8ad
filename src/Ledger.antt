-- ===== src/Ledger.antt =====
-- app/services/automation_ledger.py: the leases on the executions of automation rules and on their
-- actions, and the schedule of retries. A lease token is a number; the JSON of a result is its text.
-- The objects that calls are given are rows of the tables.
pub mod Held
pub mod Leases
pub mod Actions
mod Tests
use text.Mathlib.Text.{◌==◌ as str_eq}
use omni_crm_backend.Prelude.{
  ℕ, zero, suc, ◌+◌, ◌-◌, min, String, Bool, true, false, not, ◌&&◌, ◌||◌, Option, none, some, List,
  seconds, ltb, leb, ◌==◌, holds, is_some, if◌then◌else◌, first, update, insert,
}

pub data ExecutionStatus : Type 0 where
  received processing success partial failed dead_letter skipped_depth_limit blocked :
      ExecutionStatus

pub data ActionStatus : Type 0 where
  pending processing succeeded failed unknown cancelled : ActionStatus

pub record AutomationExecution : Type 0 where
  pub id : ℕ
  pub tenant_id : ℕ
  pub rule_id : ℕ
  pub event_id : ℕ
  pub rule_version : ℕ
  pub status : ExecutionStatus
  pub attempts : ℕ
  pub lease_token : Option ℕ
  pub lease_expires_at : Option ℕ
  pub next_attempt_at : ℕ
  pub result : String
  pub started_at : Option ℕ
  pub finished_at : Option ℕ

pub record AutomationActionAttempt : Type 0 where
  pub id : ℕ
  pub tenant_id : ℕ
  pub execution_id : ℕ
  pub action_index : ℕ
  pub status : ActionStatus
  pub idempotency_key : String
  pub result : String
  pub lease_token : Option ℕ
  pub lease_expires_at : Option ℕ

abbrev pub is_succeeded : ActionStatus → Bool
is_succeeded ActionStatus.succeeded = true
is_succeeded _ = false

abbrev pub is_running : ActionStatus → Bool
is_running ActionStatus.processing = true
is_running _ = false

-- status in {"succeeded", "failed", "unknown", "cancelled"}
abbrev pub is_outcome : ActionStatus → Bool
is_outcome ActionStatus.succeeded = true
is_outcome ActionStatus.failed = true
is_outcome ActionStatus.unknown = true
is_outcome ActionStatus.cancelled = true
is_outcome _ = false

-- lease_expires_at and lease_expires_at > now
abbrev pub is_held : Option ℕ → ℕ → Bool
is_held none now = false
is_held (some t) now = ltb now t

abbrev pub is_action : ℕ → ℕ → ℕ → AutomationActionAttempt → Bool
is_action tenant_id execution_id action_index a =
    a.tenant_id == tenant_id && (a.execution_id == execution_id && a.action_index == action_index)

abbrev pub lease_action : ℕ → ℕ → ℕ → AutomationActionAttempt → AutomationActionAttempt
lease_action now token lease_seconds a = record a {
  status = ActionStatus.processing;
  lease_token = some token;
  lease_expires_at = some (now + seconds lease_seconds);
}

abbrev pub new_action : ℕ → ℕ → ℕ → ℕ → String → AutomationActionAttempt
new_action id tenant_id execution_id action_index key = record {
  id = id;
  tenant_id = tenant_id;
  execution_id = execution_id;
  action_index = action_index;
  status = ActionStatus.pending;
  idempotency_key = key;
  result = "{}";
  lease_token = none;
  lease_expires_at = none;
}

pub claim_action_of :
    ℕ
    → ℕ
    → ℕ
    → AutomationActionAttempt
    → List AutomationActionAttempt
    → Option AutomationActionAttempt
    → Option AutomationActionAttempt × List AutomationActionAttempt
claim_action_of now token lease_seconds draft attempts none =
    let a = lease_action now token lease_seconds draft in (some a, insert a attempts)
claim_action_of now token lease_seconds draft attempts (some a) =
    if is_succeeded a.status
    then (some a, attempts)
    else if is_running a.status && is_held a.lease_expires_at now
    then (none, attempts)
    else (
      some (lease_action now token lease_seconds a),
      update (λ x. x.id == a.id) (lease_action now token lease_seconds) attempts,
    )

-- `id` and `token` are what the call draws.
pub claim_action_attempt :
    ℕ
    → ℕ
    → ℕ
    → ℕ
    → ℕ
    → ℕ
    → String
    → ℕ
    → List AutomationActionAttempt
    → Option AutomationActionAttempt × List AutomationActionAttempt
claim_action_attempt now id token tenant_id execution_id action_index key lease_seconds attempts =
    claim_action_of now token lease_seconds (new_action id tenant_id execution_id action_index key)
      attempts (first (is_action tenant_id execution_id action_index) attempts)

abbrev pub finished_action :
    ActionStatus → String → AutomationActionAttempt → AutomationActionAttempt
finished_action status result a = record a {
  status = status;
  result = result;
  lease_expires_at = none;
}

pub finish_action_attempt :
    AutomationActionAttempt
    → ℕ
    → ActionStatus
    → String
    → List AutomationActionAttempt
    → Bool × List AutomationActionAttempt
finish_action_attempt a token status result attempts =
    if not (holds a.lease_token token) || not (is_outcome status)
    then (false, attempts)
    else (true, update (λ x. x.id == a.id) (finished_action status result) attempts)

abbrev pub is_processing : ExecutionStatus → Bool
is_processing ExecutionStatus.processing = true
is_processing _ = false

-- status in {"success", "blocked", "dead_letter"}
abbrev pub is_closed : ExecutionStatus → Bool
is_closed ExecutionStatus.success = true
is_closed ExecutionStatus.blocked = true
is_closed ExecutionStatus.dead_letter = true
is_closed _ = false

abbrev pub is_execution : ℕ → ℕ → AutomationExecution → Bool
is_execution tenant_id execution_id e = e.id == execution_id && e.tenant_id == tenant_id

abbrev pub or_now : Option ℕ → ℕ → Option ℕ
or_now none now = some now
or_now (some t) now = some t

abbrev pub lease_execution : ℕ → ℕ → ℕ → AutomationExecution → AutomationExecution
lease_execution now token lease_seconds e = record e {
  status = ExecutionStatus.processing;
  attempts = e.attempts + 1;
  lease_token = some token;
  lease_expires_at = some (now + seconds lease_seconds);
  started_at = or_now e.started_at now;
}

-- The three guards of the claim.
abbrev pub is_refused : ℕ → AutomationExecution → Bool
is_refused now e =
    (is_processing e.status && is_held e.lease_expires_at now)
    || (is_closed e.status || ltb now e.next_attempt_at)

pub claim_execution :
    ℕ → ℕ → ℕ → ℕ → ℕ → List AutomationExecution → Option ℕ × List AutomationExecution
claim_execution now token tenant_id execution_id lease_seconds executions =
    elim (first (is_execution tenant_id execution_id) executions) [
      | none ↦ (none, executions)
      | some e ↦ if is_refused now e then (none, executions) else (
        some token,
        update (λ x. x.id == e.id) (lease_execution now token lease_seconds) executions,
      )
    ]

-- `status` is any of the statuses: the function does not look at it.
pub complete_execution :
    ℕ
    → ℕ
    → ℕ
    → ℕ
    → ExecutionStatus
    → String
    → List AutomationExecution
    → Bool × List AutomationExecution
complete_execution now tenant_id execution_id token status result executions =
    elim (first (λ e. is_execution tenant_id execution_id e && holds e.lease_token token)
      executions) [
        | none ↦ (false, executions)
        | some e ↦ (
          true,
          update (λ x. x.id == e.id)
              (λ x. record x {
                status = status;
                result = result;
                lease_expires_at = none;
                finished_at = some now;
              })
              executions,
        )
      ]

-- BACKOFF_SECONDS
abbrev pub backoff_seconds : ℕ → ℕ
backoff_seconds zero = 5
backoff_seconds (suc zero) = 30
backoff_seconds (suc (suc zero)) = 120
backoff_seconds (suc (suc (suc zero))) = 600
backoff_seconds (suc (suc (suc (suc n)))) = 1800

-- `reconcile` adds "awaiting_reconciliation" to the JSON of a result.
pub schedule_execution_retry :
    (String → String)
    → ℕ
    → AutomationExecution
    → String
    → Bool
    → List AutomationExecution
    → List AutomationExecution
schedule_execution_retry reconcile now e result is_unknown executions =
    if is_unknown
    then update (λ x. x.id == e.id)
        (λ x. record x { status = ExecutionStatus.partial; result = reconcile result }) executions
    else update (λ x. x.id == e.id)
        (λ x. record x {
          status = if ltb x.attempts 5 then ExecutionStatus.failed else ExecutionStatus.dead_letter;
          result = result;
          next_attempt_at = now + seconds (backoff_seconds (min (x.attempts - 1) 4));
        })
        executions
