-- ===== src/Outbox.antt =====
-- app/services/domain_events.py and outbox_relay.py: events are stored in the transaction of what
-- they tell of, and a relay hands them to the broker later, at least once. The broker is library
-- code: `accepts` says which payloads it takes without an exception.
pub mod Backoff
mod Tests
use omni_crm_backend.Prelude.{
  ℕ, ◌+◌, ◌^◌, min, String, Bool, true, false, ◌&&◌, Option, none, some, List, [], ◌∷◌, seconds,
  leb, ◌==◌, is_none, if◌then◌else◌, select, take, update, insert,
}

pub record DomainEvent : Type 0 where
  pub tenant_id : ℕ
  pub type : String
  pub resource_id : ℕ
  pub payload : String
  pub depth : ℕ
  pub originating_rule_id : Option ℕ
  pub event_id : ℕ
  pub occurred_at : ℕ

-- The payload of the row holds the fields of the event.
pub record OutboxEvent : Type 0 where
  pub id : ℕ
  pub tenant_id : ℕ
  pub event_type : String
  pub payload : DomainEvent
  pub created_at : ℕ
  pub published_at : Option ℕ
  pub attempts : ℕ
  pub next_attempt_at : ℕ

abbrev pub max_automation_depth : ℕ
max_automation_depth = 5

-- `originating_rule_id or self.originating_rule_id`
abbrev pub or_else : Option ℕ → Option ℕ → Option ℕ
or_else none other = other
or_else (some x) other = some x

pub descendant : ℕ → ℕ → String → ℕ → String → Option ℕ → DomainEvent → DomainEvent
descendant now event_id type resource_id payload rule e = record {
  tenant_id = e.tenant_id;
  type = type;
  resource_id = resource_id;
  payload = payload;
  depth = e.depth + 1;
  originating_rule_id = or_else rule e.originating_rule_id;
  event_id = event_id;
  occurred_at = now;
}

pub can_dispatch_event : DomainEvent → Bool
can_dispatch_event e = leb e.depth max_automation_depth

abbrev pub outbox_row : ℕ → DomainEvent → OutboxEvent
outbox_row now e = record {
  id = e.event_id;
  tenant_id = e.tenant_id;
  event_type = e.type;
  payload = e;
  created_at = now;
  published_at = none;
  attempts = 0;
  next_attempt_at = now;
}

unfoldable pub publish_domain_event : ℕ → DomainEvent → List OutboxEvent → List OutboxEvent
publish_domain_event now e rows = insert (outbox_row now e) rows

abbrev pub is_due : ℕ → OutboxEvent → Bool
is_due now r = is_none r.published_at && leb r.next_attempt_at now

-- min(300, 2 ** min(attempts, 8))
abbrev pub retry_seconds : ℕ → ℕ
retry_seconds attempts = min 300 (2 ^ min attempts 8)

abbrev pub publish_row : ℕ → OutboxEvent → OutboxEvent
publish_row now r = record r {
  attempts = r.attempts + 1;
  published_at = some now;
  next_attempt_at = now;
}

abbrev pub retry_row : ℕ → OutboxEvent → OutboxEvent
retry_row now r = record r {
  attempts = r.attempts + 1;
  next_attempt_at = now + seconds (retry_seconds (r.attempts + 1));
}

module _ (accepts : DomainEvent → Bool) (now : ℕ) where
  abbrev pub relayed : OutboxEvent → OutboxEvent
  relayed r = if accepts r.payload then publish_row now r else retry_row now r

  -- The loop over the selected rows: how many the broker took, and the table.
  unfoldable pub relay_rows : List OutboxEvent → List OutboxEvent → ℕ × List OutboxEvent
  relay_rows [] rows = (0, rows)
  relay_rows (r ∷ selected) rows =
      let (published, rows') = relay_rows selected (update (λ x. x.id == r.id) relayed rows) in
      ((if accepts r.payload then published + 1 else published), rows')

  -- `rows` stands in the order of `created_at` and `id`.
  unfoldable pub relay_outbox_events : ℕ → List OutboxEvent → ℕ × List OutboxEvent
  relay_outbox_events limit rows = relay_rows (take limit (select (is_due now) rows)) rows
