-- ===== src/Ledger/Actions.antt =====
-- An action that has succeeded is not run again.
use omni_crm_backend.Prelude.{
  ℕ, ◌≡◌, refl, String, true, false, not, ◌||◌, inl, inr, some, List, arith, ◌==◌, ==_refl,
  Bool-cases, first, holds,
}
use omni_crm_backend.Prelude.RowLaws.{first-update}
use omni_crm_backend.Ledger.{
  AutomationActionAttempt, ActionStatus, claim_action_attempt, claim_action_of,
  finish_action_attempt, finished_action, is_action,
}

-- After the attempt of an action has been finished as succeeded, every later claim of the action
-- gives that attempt, with its result, and writes nothing, so that nothing is run a second time.
pub finish-claim_action_attempt :
    (tenant_id execution_id action_index token : ℕ) (result : String)
    (attempts : List AutomationActionAttempt) (a : AutomationActionAttempt) (now id token' : ℕ)
    (key : String) (lease_seconds : ℕ)
    → first (is_action tenant_id execution_id action_index) attempts ≡ some a
    → (finish_action_attempt a token ActionStatus.succeeded result attempts).0 ≡ true
    → claim_action_attempt now id token' tenant_id execution_id action_index key lease_seconds
        (finish_action_attempt a token ActionStatus.succeeded result attempts).1
      ≡ (
        some (finished_action ActionStatus.succeeded result a),
        (finish_action_attempt a token ActionStatus.succeeded result attempts).1,
      )
unfolding finish_action_attempt claim_action_attempt
finish-claim_action_attempt tenant_id execution_id action_index token result attempts a now id
      token' key lease_seconds found h =
    elim (Bool-cases (not (holds a.lease_token token) || false)) [
      | inl e ↦ absurd (ground (arith, e))
      | inr e ↦ rw e (
          rw
            (first-update (is_action tenant_id execution_id action_index) (λ x. x.id == a.id)
              (finished_action ActionStatus.succeeded result) (λ x. ground arith) attempts)
            (rw found (rw (==_refl a.id) (unfold claim_action_of in refl))))
    ]
