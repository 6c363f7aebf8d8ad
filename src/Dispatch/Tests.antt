-- ===== src/Dispatch/Tests.antt =====
-- The theorems on the dispatch at concrete inputs.
use omni_crm_backend.Prelude.{ℕ, ◌≡◌, refl, String, none, some, [], ◌∷◌, ok, err, first, ◌+◌}
use omni_crm_backend.Identity.{Role}
use omni_crm_backend.Tenancy.{TenantContext}
use omni_crm_backend.Conversations.{
  ConversationStatus, AiMode, Channel, Direction, AuthorType, MessageStatus, Conversation, Message,
  Desk, set_conversation_mode, set_mode_row,
}
use omni_crm_backend.Dispatch.{
  queued_row, SendStore, SendingAsset, Reply, FreshIds, answered, timed_out,
  dispatch_queued_message, system_message_not_dispatched, dispatch_of, deliver, settle_reply,
  flush_error,
}
use omni_crm_backend.Dispatch.Fence.{set_mode-dispatch_fenced}

abbrev chief : TenantContext
chief = record { tenant_id = 9; membership_id = 5; user_id = 1; role = Role.supervisor }

abbrev chat : Conversation
chat = record {
  id = 20;
  tenant_id = 9;
  contact_id = 30;
  channel_asset_id = 3;
  channel = Channel.whatsapp;
  status = ConversationStatus.open_;
  ai_mode = AiMode.active;
  control_version = 4;
  assigned_user_id = none;
  response_window_id = some 80;
  response_window_started_at = some 2;
}

abbrev reply : Message
reply = record {
  id = 40;
  tenant_id = 9;
  conversation_id = 20;
  channel_asset_id = 3;
  channel = Channel.whatsapp;
  direction = Direction.outbound;
  author_type = AuthorType.ai;
  author_user_id = none;
  author_source_id = some 50;
  expected_version = none;
  body_text = some "hola";
  provider_message_id = none;
  status = MessageStatus.queued;
  client_idempotency_key = none;
  client_request_hash = none;
}

abbrev desk : Desk
desk = record { conversations = chat ∷ []; messages = []; transfers = []; audit_events = [] }

abbrev store : Desk → SendStore
store d = record {
  desk = d;
  assets = record { id = 3; tenant_id = 9; channel = Channel.whatsapp; external_id = "10" } ∷ [];
  attempts = [];
  timers = [];
  rules = [];
  kpi_events = [];
  attributions = [];
  ai_runs = [];
}

abbrev ids : FreshIds
ids = record { attempt = 90; kpi_event = 91; timer = λ r. r.id + 100 }

abbrev meta : SendingAsset → ℕ → String → Reply
meta a to body = answered (some "wamid")

abbrev silent : SendingAsset → ℕ → String → Reply
silent a to body = timed_out

abbrev queued : SendStore
queued = store (record desk { messages = reply ∷ [] })

-- A notice of the system reaches the provider, and stays queued: the database refuses its row.
abbrev notice : SendStore
notice = store (record desk { messages = record reply { author_type = AuthorType.system } ∷ [] })

notice_refused :
    dispatch_queued_message 20 ids meta 9 40 notice ≡ (err system_message_not_dispatched, notice)
unfolding dispatch_queued_message first dispatch_of deliver settle_reply flush_error
notice_refused = refl

taken : (set_conversation_mode chief 20 AiMode.human desk).0 ≡ ok (set_mode_row AiMode.human chat)
unfolding set_conversation_mode first
taken = refl

-- The AI's answer is queued after the takeover.
abbrev late : SendStore
late =
    store (record ((set_conversation_mode chief 20 AiMode.human desk).1) { messages = reply ∷ [] })

late_found : first (λ m. queued_row 9 40 m) late.desk.messages ≡ some reply
unfolding first
late_found = refl

set_mode-dispatch_fenced_example :
    (dispatch_queued_message 20 ids meta 9 40 late).1.attempts ≡ late.attempts
set_mode-dispatch_fenced_example =
    set_mode-dispatch_fenced 20 ids meta chief 20 40 desk late reply
      {c = set_mode_row AiMode.human chat} taken refl late_found refl refl
