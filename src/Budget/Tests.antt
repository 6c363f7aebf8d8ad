-- ===== src/Budget/Tests.antt =====
-- The theorems on budgets and retries at concrete inputs.
use omni_crm_backend.Prelude.{
  some, ℕ, zero, suc, ◌==◌, ◌≡◌, refl, [], ◌∷◌, arith, ok, first, update, count,
}
use omni_crm_backend.Budget.{
  pos, default_limits, AiUsageLedger, reserve_token_budget, settle_token_budget, Attempt,
  text_result, raised, invoke_with_limits,
}
use omni_crm_backend.Budget.Month.{
  IsSingleLedger, IsBudgeted, Reach-IsBudgeted, here, next, reserves, settles,
}
use omni_crm_backend.Budget.Retries.{Decided, invoke-Decided}

abbrev ledger : AiUsageLedger
ledger = record {
  id = 1;
  tenant_id = 9;
  month = 20600;
  reserved_tokens = 400;
  consumed_tokens = 99000;
}

found : first (λ l. l.tenant_id == 9) (ledger ∷ []) ≡ some ledger
unfolding first
found = refl

single : IsSingleLedger (ledger ∷ [])
unfolding count
single t m = ground arith

Reach-IsBudgeted_example :
    IsBudgeted
      (λ t. default_limits)
      (reserve_token_budget 2 9 20600
        (pos 900)
        default_limits
        (settle_token_budget ledger (pos 400) (pos 250) (ledger ∷ [])).1).1
unfolding settle_token_budget update
Reach-IsBudgeted_example =
    Reach-IsBudgeted (λ t. default_limits) {start = ledger ∷ []}
      (next
        (next here
          (settles (λ l. l.tenant_id == 9) ledger 400 (pos 250) found (omega arith) (omega arith)))
        (reserves 2 9 20600 (pos 900) (omega arith, tt)))
      (record { within = (omega arith, tt); keyed = (tt, tt); single = single })

-- The first call times out, the second answers.
abbrev flaky : ℕ → Attempt ℕ
flaky zero = raised
flaky (suc n) = text_result 40 n

second_answers : invoke_with_limits flaky default_limits 3 ≡ (ok 0, 2)
unfolding invoke_with_limits
second_answers = refl

invoke-Decided_example : Decided flaky default_limits 0 (invoke_with_limits flaky default_limits 3)
invoke-Decided_example = invoke-Decided flaky default_limits 3 (omega arith)
