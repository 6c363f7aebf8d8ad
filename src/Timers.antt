-- ===== src/Timers.antt =====
-- app/services/conversation_timers.py: the timers of the rules on unanswered conversations. The
-- relation between a rule and its timers goes by the rule's version.
pub mod Settled
pub mod Schedule
mod Tests
use text.Mathlib.Text.{◌==◌ as str_eq}
use omni_crm_backend.Prelude.{
  ℕ, ◌+◌, max, String, Bool, true, false, not, ◌&&◌, ◌||◌, Option, none, some, List, [], ◌∷◌, map,
  seconds, leb, ◌==◌, is_some, if◌then◌else◌, or_default, first, select, take, update, insert,
  length,
}
use omni_crm_backend.Conversations.{
  Conversation, ConversationStatus, Message, Direction, AuthorType, in_tenant,
}
use omni_crm_backend.Outbox.{DomainEvent, OutboxEvent, publish_domain_event}

pub data TimerStatus : Type 0 where
  pending fired cancelled : TimerStatus

pub record ConversationTimer : Type 0 where
  pub id : ℕ
  pub tenant_id : ℕ
  pub conversation_id : ℕ
  pub rule_id : ℕ
  pub rule_version : ℕ
  pub trigger_type : String
  pub activity_version : ℕ
  pub deadline : ℕ
  pub status : TimerStatus
  pub trigger_message_id : Option ℕ

-- The columns of `AutomationRule` that the timers read.
pub record AutomationRule : Type 0 where
  pub id : ℕ
  pub tenant_id : ℕ
  pub trigger_type : String
  pub enabled : Bool
  pub version : ℕ
  pub duration_seconds : Option ℕ

pub record TimerStore : Type 0 where
  pub timers : List ConversationTimer
  pub rules : List AutomationRule
  pub conversations : List Conversation
  pub outbox : List OutboxEvent

abbrev pub is_pending : TimerStatus → Bool
is_pending TimerStatus.pending = true
is_pending _ = false

abbrev pub is_closed : ConversationStatus → Bool
is_closed ConversationStatus.closed = true
is_closed _ = false

-- The unique key of a timer.
abbrev pub same_activity : ConversationTimer → ConversationTimer → Bool
same_activity a t =
    t.tenant_id == a.tenant_id
    && (t.conversation_id == a.conversation_id
        && (t.rule_id == a.rule_id
            && (t.rule_version == a.rule_version && t.activity_version == a.activity_version)))

-- `draft` is the row that would be added: pending, under a fresh identifier.
pub schedule_timer :
    ConversationTimer → List ConversationTimer → ConversationTimer × List ConversationTimer
schedule_timer draft timers = elim (first (same_activity draft) timers) [
  | some t ↦ (t, timers)
  | none ↦ (draft, insert draft timers)
]

abbrev pub is_due : ℕ → ConversationTimer → Bool
is_due now t = is_pending t.status && leb t.deadline now

abbrev pub set_status : TimerStatus → ConversationTimer → ConversationTimer
set_status status t = record t { status = status }

-- rule is None or not rule.enabled or rule.version != timer.rule_version
abbrev pub is_stale : ConversationTimer → Option AutomationRule → Bool
is_stale t none = true
is_stale t (some rule) = not rule.enabled || not (rule.version == t.rule_version)

abbrev pub is_over : Option Conversation → Bool
is_over none = true
is_over (some c) = is_closed c.status

abbrev pub is_void : TimerStore → ConversationTimer → Bool
is_void db t =
    is_stale t (first (λ r. r.id == t.rule_id) db.rules)
    || is_over (first (in_tenant t.tenant_id t.conversation_id) db.conversations)

-- The event that a timer fires. Its identifier and the JSON text of its payload, which names the
-- conversation, the timer and the trigger, come from outside.
abbrev pub timer_event : ℕ → ℕ × String → ConversationTimer → DomainEvent
timer_event now (event_id, payload) t = record {
  tenant_id = t.tenant_id;
  type = t.trigger_type;
  resource_id = t.conversation_id;
  payload = payload;
  depth = 0;
  originating_rule_id = none;
  event_id = event_id;
  occurred_at = now;
}

-- One round of the loop over the due timers.
unfoldable pub fire_one :
    ℕ → (ConversationTimer → ℕ × String) → ConversationTimer → TimerStore → ℕ × TimerStore
fire_one now draw t db =
    if is_void db t
    then (
      0,
      record db {
        timers = update (λ x. x.id == t.id) (set_status TimerStatus.cancelled) db.timers;
      },
    )
    else (
      1,
      record db {
        timers = update (λ x. x.id == t.id) (set_status TimerStatus.fired) db.timers;
        outbox = publish_domain_event now (timer_event now (draw t) t) db.outbox;
      },
    )

unfoldable pub fire_rows :
    ℕ → (ConversationTimer → ℕ × String) → List ConversationTimer → TimerStore → ℕ × TimerStore
fire_rows now draw [] db = (0, db)
fire_rows now draw (t ∷ rest) db =
    let (n, db') = fire_one now draw t db in
    let (m, db'') = fire_rows now draw rest db' in (n + m, db'')

-- `timers` stands in the order of `deadline` and `id`; rows that another worker has locked are
-- skipped by the database, and are not among them.
unfoldable pub fire_due_timers :
    ℕ → (ConversationTimer → ℕ × String) → ℕ → TimerStore → ℕ × TimerStore
fire_due_timers now draw limit db =
    fire_rows now draw (take limit (select (is_due now) db.timers)) db

abbrev pub is_unanswered : ℕ → ℕ → String → ConversationTimer → Bool
is_unanswered tenant_id conversation_id trigger_type t =
    t.tenant_id == tenant_id
    && (t.conversation_id == conversation_id
        && (str_eq t.trigger_type trigger_type && is_pending t.status))

unfoldable pub cancel_unanswered_timers :
    ℕ → ℕ → String → List ConversationTimer → ℕ × List ConversationTimer
cancel_unanswered_timers tenant_id conversation_id trigger_type timers = (
  length (select (is_unanswered tenant_id conversation_id trigger_type) timers),
  update (is_unanswered tenant_id conversation_id trigger_type) (set_status TimerStatus.cancelled)
      timers,
)

abbrev pub is_system : AuthorType → Bool
is_system AuthorType.system = true
is_system _ = false

-- author_type in {"user", "ai", "automation"}
abbrev pub is_team : AuthorType → Bool
is_team AuthorType.user = true
is_team AuthorType.ai = true
is_team AuthorType.automation = true
is_team _ = false

abbrev pub is_inbound : Direction → Bool
is_inbound Direction.inbound = true
is_inbound _ = false

abbrev pub is_outbound : Direction → Bool
is_outbound Direction.outbound = true
is_outbound _ = false

abbrev pub trigger_of : Direction → String
trigger_of direction = if is_inbound direction then "team_unanswered" else "customer_unanswered"

abbrev pub applies : ℕ → String → AutomationRule → Bool
applies tenant_id trigger_type r =
    r.tenant_id == tenant_id && (r.enabled && str_eq r.trigger_type trigger_type)

abbrev pub of_rule : Conversation → ℕ → ConversationTimer → Bool
of_rule c rule_id t =
    t.tenant_id == c.tenant_id && (t.conversation_id == c.id && t.rule_id == rule_id)

abbrev pub pending_of : ℕ → ℕ → String → ℕ → ConversationTimer → Bool
pending_of tenant_id conversation_id trigger_type rule_id t =
    t.tenant_id == tenant_id
    && (t.conversation_id == conversation_id
        && (t.rule_id == rule_id && (str_eq t.trigger_type trigger_type && is_pending t.status)))

-- The greatest activity version among the rows, or 0.
latest_activity : List ConversationTimer → ℕ
latest_activity [] = 0
latest_activity (t ∷ ts) = max t.activity_version (latest_activity ts)

module _ (now : ℕ) (c : Conversation) (message_id : ℕ) (trigger_type : String) where
  abbrev pub draft_timer : ℕ → AutomationRule → List ConversationTimer → ConversationTimer
  unfolding latest_activity
  draft_timer id rule timers = record {
    id = id;
    tenant_id = c.tenant_id;
    conversation_id = c.id;
    rule_id = rule.id;
    rule_version = rule.version;
    trigger_type = trigger_type;
    activity_version = latest_activity (select (of_rule c rule.id) timers) + 1;
    deadline = now + seconds (or_default rule.duration_seconds 0);
    status = TimerStatus.pending;
    trigger_message_id = some message_id;
  }

  pub schedule_one : ℕ → AutomationRule → List ConversationTimer → ℕ × List ConversationTimer
  schedule_one id rule timers =
      if is_some (first (pending_of c.tenant_id c.id trigger_type rule.id) timers)
      then (0, timers)
      else (1, (schedule_timer (draft_timer id rule timers) timers).1)

  -- Each rule comes with the identifier that its timer would draw.
  pub schedule_rules :
      List (ℕ × AutomationRule) → List ConversationTimer → ℕ × List ConversationTimer
  schedule_rules [] timers = (0, timers)
  schedule_rules ((id, rule) ∷ rest) timers =
      let (n, timers') = schedule_one id rule timers in
      let (m, timers'') = schedule_rules rest timers' in (n + m, timers'')

-- `fresh` gives the identifier of a rule's timer.
pub schedule_unanswered_timers :
    ℕ
    → (AutomationRule → ℕ)
    → Conversation
    → Direction
    → Message
    → Bool
    → List AutomationRule
    → List ConversationTimer
    → ℕ × List ConversationTimer
schedule_unanswered_timers now fresh c direction m accepted rules timers =
    if not accepted || is_system m.author_type
    then (0, timers)
    else if is_outbound direction && not (is_team m.author_type)
    then (0, timers)
    else schedule_rules now c m.id (trigger_of direction)
        (map (λ r. (fresh r, r)) (select (applies c.tenant_id (trigger_of direction)) rules)) timers
