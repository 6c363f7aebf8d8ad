-- ===== src/Budget.antt =====
-- app/services/ai_budget.py and ai_limits.py: the tokens that a tenant's AI may use in a month, and
-- the retries of one call. A month is the number of its first day.
pub mod Month
pub mod Retries
mod Tests
use omni_crm_backend.Prelude.{
  ℕ, zero, suc, ◌+◌, ◌-◌, ◌*◌, Bool, true, false, ◌&&◌, Option, none, some, List, Outcome, ok, err,
  ltb, leb, ◌==◌, if◌then◌else◌, first, update, insert,
}

-- Python's integers: `negsuc n` is -(n + 1).
pub data ℤ : Type 0 where
  pos : ℕ → ℤ
  negsuc : ℕ → ℤ

pub record AiTurnLimits : Type 0 where
  pub max_output_tokens : ℕ
  pub timeout_seconds : ℕ
  pub max_tool_calls : ℕ
  pub max_retries : ℕ
  pub monthly_token_budget : ℕ

abbrev pub default_limits : AiTurnLimits
default_limits = record {
  max_output_tokens = 512;
  timeout_seconds = 30;
  max_tool_calls = 8;
  max_retries = 2;
  monthly_token_budget = 100000;
}

-- The columns of TenantSettings that `load_ai_limits` reads.
pub record TenantSettings : Type 0 where
  pub tenant_id : ℕ
  pub limits : AiTurnLimits

abbrev pub limits_of : Option TenantSettings → AiTurnLimits
limits_of none = default_limits
limits_of (some s) = s.limits

pub load_ai_limits : ℕ → List TenantSettings → AiTurnLimits
load_ai_limits tenant_id settings = limits_of (first (λ s. s.tenant_id == tenant_id) settings)

pub record AiUsageLedger : Type 0 where
  pub id : ℕ
  pub tenant_id : ℕ
  pub month : ℕ
  pub reserved_tokens : ℕ
  pub consumed_tokens : ℕ

pub data AiLimitError : Type 0 where
  invalid_token_reservation monthly_token_budget_exceeded : AiLimitError
  tool_call_limit_exceeded output_length_exceeded ai_retry_limit_exceeded : AiLimitError
  by_operation : AiLimitError

abbrev pub of_month : ℕ → ℕ → AiUsageLedger → Bool
of_month tenant_id month l = l.tenant_id == tenant_id && l.month == month

abbrev pub new_ledger : ℕ → ℕ → ℕ → AiUsageLedger
new_ledger id tenant_id month = record {
  id = id;
  tenant_id = tenant_id;
  month = month;
  reserved_tokens = 0;
  consumed_tokens = 0;
}

abbrev pub with_reserved : ℕ → AiUsageLedger → AiUsageLedger
with_reserved n l = record l { reserved_tokens = l.reserved_tokens + n }

-- `before` is the table that a refusal leaves: the exception rolls the new ledger back.
pub reserve_in :
    ℕ
    → AiTurnLimits
    → AiUsageLedger
    → List AiUsageLedger
    → List AiUsageLedger
    → Outcome AiLimitError AiUsageLedger × List AiUsageLedger
reserve_in n limits l before ledgers =
    if ltb limits.monthly_token_budget (l.consumed_tokens + l.reserved_tokens + n)
    then (err monthly_token_budget_exceeded, before)
    else (ok (with_reserved n l), update (λ x. x.id == l.id) (with_reserved n) ledgers)

pub reserve_of :
    ℕ
    → ℕ
    → ℕ
    → ℕ
    → AiTurnLimits
    → List AiUsageLedger
    → Option AiUsageLedger
    → Outcome AiLimitError AiUsageLedger × List AiUsageLedger
reserve_of id tenant_id month n limits ledgers (some l) = reserve_in n limits l ledgers ledgers
reserve_of id tenant_id month n limits ledgers none =
    let l = new_ledger id tenant_id month in reserve_in n limits l ledgers (insert l ledgers)

unfoldable pub reserve_token_budget :
    ℕ
    → ℕ
    → ℕ
    → ℤ
    → AiTurnLimits
    → List AiUsageLedger
    → Outcome AiLimitError AiUsageLedger × List AiUsageLedger
unfolding reserve_in reserve_of
reserve_token_budget id tenant_id month (negsuc n) limits ledgers =
    (err invalid_token_reservation, ledgers)
reserve_token_budget id tenant_id month (pos n) limits ledgers =
    reserve_of id tenant_id month n limits ledgers (first (of_month tenant_id month) ledgers)

-- max(0, a - b)
abbrev pub less : ℕ → ℤ → ℕ
less a (pos b) = a - b
less a (negsuc b) = a + suc b

-- a + max(0, b)
abbrev pub more : ℕ → ℤ → ℕ
more a (pos b) = a + b
more a (negsuc b) = a

abbrev pub settled : ℤ → ℤ → AiUsageLedger → AiUsageLedger
settled reserved actual l = record l {
  reserved_tokens = less l.reserved_tokens reserved;
  consumed_tokens = more l.consumed_tokens actual;
}

unfoldable pub settle_token_budget :
    AiUsageLedger → ℤ → ℤ → List AiUsageLedger → AiUsageLedger × List AiUsageLedger
settle_token_budget l reserved actual ledgers =
    (settled reserved actual l, update (λ x. x.id == l.id) (settled reserved actual) ledgers)

-- What one call of the operation under `asyncio.wait_for` comes to: a text of so many characters,
-- another value, the exception of this module, or any other exception, a timeout among them.
pub data Attempt (A : Type 0) : Type 0 where
  text_result : ℕ → A → Attempt A
  other_result : A → Attempt A
  limit_raised : Attempt A
  raised : Attempt A

module _ {A : Type 0} (operation : ℕ → Attempt A) (limits : AiTurnLimits) where
  -- `retry` is the rest of the loop; beside the result stands the number of calls made.
  pub answer : ℕ → Attempt A → Outcome AiLimitError A × ℕ → Outcome AiLimitError A × ℕ
  answer attempt (text_result n a) retry =
      if ltb (limits.max_output_tokens * 4) n
      then (err output_length_exceeded, suc attempt)
      else (ok a, suc attempt)
  answer attempt (other_result a) retry = (ok a, suc attempt)
  answer attempt limit_raised retry = (err by_operation, suc attempt)
  answer attempt raised retry =
      if leb limits.max_retries attempt then (err ai_retry_limit_exceeded, suc attempt) else retry

  -- for attempt in range(max_retries + 1), from `attempt`, with so many rounds left
  pub attempts : ℕ → ℕ → Outcome AiLimitError A × ℕ
  unfolding answer
  attempts zero attempt = (err ai_retry_limit_exceeded, attempt)
  attempts (suc left) attempt = answer attempt (operation attempt) (attempts left (suc attempt))

  unfoldable pub invoke_with_limits : ℕ → Outcome AiLimitError A × ℕ
  unfolding attempts
  invoke_with_limits tool_call_count =
      if ltb limits.max_tool_calls tool_call_count
      then (err tool_call_limit_exceeded, 0)
      else attempts (suc limits.max_retries) 0
