-- ===== src/Outbox/Tests.antt =====
-- The theorem on the relay at a concrete input.
use omni_crm_backend.Prelude.{
  ◌≡◌, refl, Bool, none, List, [], ◌∷◌, arith, seconds, select, update, All, ◌==◌,
}
use omni_crm_backend.Outbox.{DomainEvent, OutboxEvent, outbox_row, relay_outbox_events, relay_rows}
use omni_crm_backend.Outbox.Backoff.{WaitsUntil, relay-WaitsUntil}

abbrev event : DomainEvent
event = record {
  tenant_id = 9;
  type = "lead_created";
  resource_id = 20;
  payload = "{}";
  depth = 0;
  originating_rule_id = none;
  event_id = 31;
  occurred_at = 5;
}

abbrev second : DomainEvent
second = record event { event_id = 32 }

abbrev broker : DomainEvent → Bool
broker e = e.event_id == 31

abbrev outbox : List OutboxEvent
outbox = outbox_row 5 event ∷ record (outbox_row 5 second) { attempts = 3 } ∷ []

relay-WaitsUntil_example :
    All (WaitsUntil (seconds 400)) (relay_outbox_events broker 10 100 outbox).1
relay-WaitsUntil_example =
    relay-WaitsUntil broker 10 (seconds 400) 100 outbox (omega arith)
      ((λ _. omega arith), ((λ _. omega arith), tt))

relay_one_taken : (relay_outbox_events broker 10 100 outbox).0 ≡ 1
unfolding relay_outbox_events relay_rows select update
relay_one_taken = refl
