-- ===== src/Webhooks/Steps.antt =====
-- The inbox as a state machine.
use omni_crm_backend.Prelude.{ℕ, String, List}
use omni_crm_backend.Webhooks.{
  WebhookEvent, claim_webhook_event, complete_webhook_event, fail_webhook_event,
  redrive_webhook_event,
}
use omni_crm_backend.Webhooks.Validity.{
  IsValid, claim-IsValid, complete-IsValid, fail_total, redrive-IsValid,
}

-- What workers and operators do to the inbox, at any times and with any tokens.
pub data Step (events : List WebhookEvent) : List WebhookEvent → Type 0 where
  claimed : (now token event_id : ℕ) → Step events (claim_webhook_event now token event_id events).1
  completed :
      (now event_id token : ℕ) → Step events (complete_webhook_event now event_id token events).1
  failed :
      (now event_id token : ℕ) (code : String)
      → Step events (fail_webhook_event now event_id token code events).1
  redriven : (now event_id : ℕ) → Step events (redrive_webhook_event now event_id events).1

pub data Reach (events : List WebhookEvent) : List WebhookEvent → Type 0 where
  here : Reach events events
  next :
      {middle after : List WebhookEvent}
      → Reach events middle
      → Step middle after
      → Reach events after

Step-IsValid :
    {events after : List WebhookEvent} → Step events after → IsValid events → IsValid after
Step-IsValid (claimed now token event_id) h = claim-IsValid now token event_id _ h
Step-IsValid (completed now event_id token) h = complete-IsValid now event_id token _ h
Step-IsValid (failed now event_id token code) h = (fail_total now event_id token code _ h).1
Step-IsValid (redriven now event_id) h = redrive-IsValid now event_id _ h

-- However claims, completions, failures and redrives follow one another, a well-formed inbox stays
-- well formed: identifiers are distinct; an event in work has been attempted and has a token and a
-- lease, and no other has a lease; one that waits for a retry was attempted one to four times, a
-- dead letter five times or more, and one that is received or quarantined never.
pub Reach-IsValid :
    {events after : List WebhookEvent} → Reach events after → IsValid events → IsValid after
Reach-IsValid here h = h
Reach-IsValid (next r s) h = Step-IsValid s (Reach-IsValid r h)
