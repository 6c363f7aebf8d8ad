-- ===== src/Ledger/Tests.antt =====
-- The theorems on the ledger at concrete inputs.
use omni_crm_backend.Prelude.{List, inr, ◌≡◌, refl, true, none, some, [], ◌∷◌, arith, first, update}
use omni_crm_backend.Ledger.{
  complete_execution, is_action, AutomationExecution, ExecutionStatus, AutomationActionAttempt,
  ActionStatus, claim_execution, claim_action_attempt, finish_action_attempt, finished_action,
  schedule_execution_retry,
}
use omni_crm_backend.Ledger.Held.{here, completes}
use omni_crm_backend.Ledger.Leases.{claim_execution-claim_execution}
use omni_crm_backend.Ledger.Actions.{finish-claim_action_attempt}

abbrev waiting : AutomationExecution
waiting = record {
  id = 80;
  tenant_id = 9;
  rule_id = 50;
  event_id = 31;
  rule_version = 2;
  status = ExecutionStatus.received;
  attempts = 0;
  lease_token = none;
  lease_expires_at = none;
  next_attempt_at = 5;
  result = "{}";
  started_at = none;
  finished_at = none;
}

claimed : (claim_execution 10 7 9 80 60 (waiting ∷ [])).0 ≡ some 7
unfolding claim_execution first
claimed = refl

-- A worker that lost its lease completes the execution with its old token.
abbrev contested : List AutomationExecution
contested =
    (complete_execution 11 9 80 6 ExecutionStatus.success "{}"
      (claim_execution 10 7 9 80 60 (waiting ∷ [])).1).1

claim_execution-claim_execution_example : claim_execution 12 8 9 80 60 contested ≡ (none, contested)
claim_execution-claim_execution_example =
    claim_execution-claim_execution 9 80 60 10 12 7 8 (waiting ∷ []) {later = contested} {t = 7}
      claimed (completes 11 9 80 6 ExecutionStatus.success "{}" (inr (omega arith)) here)
      (omega arith)

abbrev running : AutomationActionAttempt
running = record {
  id = 90;
  tenant_id = 9;
  execution_id = 80;
  action_index = 0;
  status = ActionStatus.processing;
  idempotency_key = "k";
  result = "{}";
  lease_token = some 7;
  lease_expires_at = some 100;
}

running_found : first (λ a. is_action 9 80 0 a) (running ∷ []) ≡ some running
unfolding first
running_found = refl

succeeded :
    (finish_action_attempt running 7 ActionStatus.succeeded "{\"ok\":1}" (running ∷ [])).0 ≡ true
unfolding finish_action_attempt
succeeded = refl

finish-claim_action_attempt_example :
    claim_action_attempt 20 91 8 9 80 0 "k" 60
      (finish_action_attempt running 7 ActionStatus.succeeded "{\"ok\":1}" (running ∷ [])).1
    ≡ (
      some (finished_action ActionStatus.succeeded "{\"ok\":1}" running),
      (finish_action_attempt running 7 ActionStatus.succeeded "{\"ok\":1}" (running ∷ [])).1,
    )
finish-claim_action_attempt_example =
    finish-claim_action_attempt 9 80 0 7 "{\"ok\":1}" (running ∷ []) running 20 91 8 "k" 60
      running_found succeeded

-- An execution that waits for reconciliation is claimed like one that waits for a retry.
partial_claimed :
    (claim_execution 20 8 9 80 60
      (schedule_execution_retry (λ r. r) 10 waiting "{}" true (waiting ∷ []))).0
    ≡ some 8
unfolding claim_execution schedule_execution_retry first update
partial_claimed = refl
