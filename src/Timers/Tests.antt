-- ===== src/Timers/Tests.antt =====
-- The theorems on timers at concrete inputs.
use omni_crm_backend.Prelude.{
  ℕ, ◌+◌, ◌≡◌, refl, String, true, none, some, [], ◌∷◌, arith, length, count, select, update, first,
}
use omni_crm_backend.Conversations.{
  Conversation, Message, Channel, Direction, AuthorType, MessageStatus, ConversationStatus, AiMode,
}
use omni_crm_backend.Timers.{
  ConversationTimer, TimerStatus, TimerStore, AutomationRule, fire_due_timers, fire_rows, fire_one,
  cancel_unanswered_timers, is_unanswered, schedule_unanswered_timers,
}
use omni_crm_backend.Timers.Settled.{length-fire_due_timers, cancel_unanswered-count}
use omni_crm_backend.Timers.Schedule.{IsSingleTimer, schedule_unanswered-IsSingleTimer}

abbrev chat : Conversation
chat = record {
  id = 20;
  tenant_id = 9;
  contact_id = 30;
  channel_asset_id = 3;
  channel = Channel.whatsapp;
  status = ConversationStatus.open_;
  ai_mode = AiMode.active;
  control_version = 4;
  assigned_user_id = none;
  response_window_id = none;
  response_window_started_at = none;
}

abbrev rule : AutomationRule
rule = record {
  id = 50;
  tenant_id = 9;
  trigger_type = "team_unanswered";
  enabled = true;
  version = 2;
  duration_seconds = some 60;
}

abbrev timer : ConversationTimer
timer = record {
  id = 70;
  tenant_id = 9;
  conversation_id = 20;
  rule_id = 50;
  rule_version = 2;
  trigger_type = "team_unanswered";
  activity_version = 1;
  deadline = 8;
  status = TimerStatus.pending;
  trigger_message_id = none;
}

abbrev store : TimerStore
store = record {
  timers = timer ∷ record timer { id = 71; rule_version = 1 } ∷ [];
  rules = rule ∷ [];
  conversations = chat ∷ [];
  outbox = [];
}

abbrev draw : ConversationTimer → ℕ × String
draw t = (t.id, "{}")

fires_current : (fire_due_timers 10 draw 100 store).0 ≡ 1
unfolding fire_due_timers fire_rows fire_one select first update
fires_current = refl

length-fire_due_timers_run :
    length (fire_due_timers 10 draw 100 store).1.outbox
    ≡ length store.outbox + (fire_due_timers 10 draw 100 store).0
length-fire_due_timers_run = length-fire_due_timers 10 draw 100 store

cancel_unanswered-count_run :
    let run = cancel_unanswered_timers 9 20 "team_unanswered" store.timers in
    (run.0 ≡ count (is_unanswered 9 20 "team_unanswered") store.timers)
    × (count (is_unanswered 9 20 "team_unanswered") run.1 ≡ 0)
cancel_unanswered-count_run = cancel_unanswered-count 9 20 "team_unanswered" store.timers

abbrev question : Message
question = record {
  id = 40;
  tenant_id = 9;
  conversation_id = 20;
  channel_asset_id = 3;
  channel = Channel.whatsapp;
  direction = Direction.inbound;
  author_type = AuthorType.contact;
  author_user_id = none;
  author_source_id = some 30;
  expected_version = none;
  body_text = some "hola";
  provider_message_id = some "wamid";
  status = MessageStatus.delivered;
  client_idempotency_key = none;
  client_request_hash = none;
}

none_waits : IsSingleTimer []
unfolding count
none_waits t c r trigger = omega arith

schedule_unanswered-IsSingleTimer_example :
    IsSingleTimer
      (schedule_unanswered_timers 10
        (λ r. r.id + 100)
        chat
        Direction.inbound
        question
        true
        (rule ∷ [])
        []).1
schedule_unanswered-IsSingleTimer_example =
    schedule_unanswered-IsSingleTimer 10 (λ r. r.id + 100) chat Direction.inbound question true
      (rule ∷ []) [] none_waits
