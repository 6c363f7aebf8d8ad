-- ===== src/Conversations/Tests.antt =====
-- The theorems on conversations at concrete inputs.
use omni_crm_backend.Prelude.{
  ◌≡◌, refl, String, true, false, none, some, [], ◌∷◌, arith, ok, err, first, count,
}
use omni_crm_backend.Identity.{Role}
use omni_crm_backend.Tenancy.{TenantContext}
use omni_crm_backend.Conversations.{
  ConversationStatus, AiMode, Channel, Direction, AuthorType, MessageStatus, TransferStatus,
  Conversation, Message, ConversationTransfer, Desk, set_conversation_mode, set_mode_row,
  resource_not_assigned,
}
use omni_crm_backend.Conversations.Control.{IsSwitched, set_mode_sound, set_mode_failed}
use omni_crm_backend.Conversations.Transfers.{takeover_conversation, HandoffRequest, handoff}
use omni_crm_backend.Conversations.Transfers.Once.{handoff-handoff}
use omni_crm_backend.Conversations.Transfers.Pending.{IsSinglePending}
use omni_crm_backend.Conversations.Messages.{
  report, AuthorOrigin, MessageAuthor, make_author, validate_message_author_storage,
  create_send_intent, report, send_to, settle, earlier, create_message,
  apply_whatsapp_delivery_status, message_of, intent, of_provider,
}
use omni_crm_backend.Conversations.Transfers.Steps.{taken_over, Step-IsSinglePending}
use omni_crm_backend.Conversations.Messages.Authors.{make_author_sound}
use omni_crm_backend.Conversations.Messages.Delivery.{Tracked, delivery-Tracked}
use omni_crm_backend.Conversations.Messages.Idempotency.{send-send}

abbrev pub chief : TenantContext
chief = record { tenant_id = 9; membership_id = 5; user_id = 1; role = Role.supervisor }

abbrev agent : TenantContext
agent = record { tenant_id = 9; membership_id = 6; user_id = 2; role = Role.agente_comercial }

abbrev pub chat : Conversation
chat = record {
  id = 20;
  tenant_id = 9;
  contact_id = 30;
  channel_asset_id = 3;
  channel = Channel.whatsapp;
  status = ConversationStatus.open_;
  ai_mode = AiMode.active;
  control_version = 4;
  assigned_user_id = some 1;
  response_window_id = none;
  response_window_started_at = none;
}

abbrev pub reply : Message
reply = record {
  id = 40;
  tenant_id = 9;
  conversation_id = 20;
  channel_asset_id = 3;
  channel = Channel.whatsapp;
  direction = Direction.outbound;
  author_type = AuthorType.ai;
  author_user_id = none;
  author_source_id = some 50;
  expected_version = none;
  body_text = some "hola";
  provider_message_id = some "wamid";
  status = MessageStatus.queued;
  client_idempotency_key = none;
  client_request_hash = none;
}

abbrev transfer : ConversationTransfer
transfer = record {
  id = 60;
  tenant_id = 9;
  conversation_id = 20;
  trigger_id = 61;
  reason = "r";
  recipient_user_id = none;
  status = TransferStatus.pending;
  accepted_at = none;
}

abbrev pub desk : Desk
desk = record {
  conversations = chat ∷ [];
  messages = reply ∷ [];
  transfers = [];
  audit_events = [];
}

switched :
    (set_conversation_mode chief 20 AiMode.human desk).0 ≡ ok (set_mode_row AiMode.human chat)
unfolding set_conversation_mode first
switched = refl

set_mode_sound_run :
    IsSwitched chief 20 AiMode.human desk
      (set_conversation_mode chief 20 AiMode.human desk).1
      (set_mode_row AiMode.human chat)
set_mode_sound_run = set_mode_sound chief 20 AiMode.human desk switched

outsider_refused : (set_conversation_mode agent 20 AiMode.human desk).0 ≡ err resource_not_assigned
unfolding set_conversation_mode first
outsider_refused = refl

set_mode_failed_run : (set_conversation_mode agent 20 AiMode.human desk).1 ≡ desk
set_mode_failed_run =
    set_mode_failed agent 20 AiMode.human desk {e = resource_not_assigned} outsider_refused

abbrev request : HandoffRequest
request = record {
  context = some chief;
  tenant_id = none;
  conversation_id = 20;
  trigger_id = 61;
  reason = "r";
  recipient_user_id = none;
}

handoff-handoff_example : handoff 62 request (handoff 60 request desk).1 ≡ handoff 60 request desk
handoff-handoff_example = handoff-handoff 60 62 request desk

none_pending : IsSinglePending desk
unfolding count
none_pending t c = omega arith

abbrev bot : MessageAuthor
bot = record { origin = AuthorOrigin.ai; source_id = some 50; user_id = none }

bot_made : make_author AuthorOrigin.ai (some 50) none ≡ ok bot
unfolding make_author
bot_made = refl

make_author_sound_run :
    (validate_message_author_storage bot ≡ true) × (false ≡ false) × (false ≡ false → true ≡ true)
make_author_sound_run = make_author_sound AuthorOrigin.ai (some 50) none {a = bot} bot_made

abbrev read_reply : Message
read_reply = record reply { status = MessageStatus.read }

abbrev read_desk : Desk
read_desk = record desk { messages = read_reply ∷ [] }

reply_found : first (of_provider 9 3 "wamid") read_desk.messages ≡ some read_reply
unfolding first
reply_found = refl

-- A late report that the message was sent.
delivery-Tracked_example :
    Tracked MessageStatus.sent read_desk read_reply
      (apply_whatsapp_delivery_status 9 3 "wamid" MessageStatus.sent read_desk)
delivery-Tracked_example =
    delivery-Tracked 9 3 "wamid" MessageStatus.sent read_desk {m = read_reply} reply_found

reply_read :
    (apply_whatsapp_delivery_status 9 3 "wamid" MessageStatus.read desk).0 ≡ ok (some read_reply)
unfolding apply_whatsapp_delivery_status report first
reply_read = refl

abbrev digest : String → String
digest s = s

sent :
    (create_send_intent digest 70 chief 20 "hola" (some "k1") desk).0
    ≡ ok (message_of 70 (intent digest chief chat "hola" (some "k1")))
unfolding create_send_intent send_to settle earlier create_message first
sent = refl

send-send_example :
    create_send_intent digest 71 chief 20 "hola"
      (some "k1")
      (create_send_intent digest 70 chief 20 "hola" (some "k1") desk).1
    ≡ (
      ok (message_of 70 (intent digest chief chat "hola" (some "k1"))),
      (create_send_intent digest 70 chief 20 "hola" (some "k1") desk).1,
    )
send-send_example =
    send-send digest chief "k1" refl 70 71 20 "hola" desk
      {m = message_of 70 (intent digest chief chat "hola" (some "k1"))} sent

Step-IsSinglePending_example : IsSinglePending (takeover_conversation 7 chief 20 desk).1
Step-IsSinglePending_example = Step-IsSinglePending (taken_over 7 chief 20) none_pending
