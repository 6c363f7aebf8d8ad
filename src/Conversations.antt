-- ===== src/Conversations.antt =====
-- app/services/conversation_control.py, handoff.py, send_intent.py, message_status.py and
-- repositories/messages.py: who controls a conversation, its transfers to people, and the messages
-- in it. A flush does nothing here, and an exception leaves the database as it was, since the
-- request's transaction is rolled back. Of an audit event the model keeps who, what and on what.
pub mod Control
pub mod Transfers
pub mod Messages
pub mod Outbound
mod Tests
use text.Mathlib.Text.{◌==◌ as str_eq}
use omni_crm_backend.Prelude.{
  ℕ, zero, suc, ◌+◌, String, Bool, true, false, not, ◌&&◌, ◌||◌, Option, none, some, List, [], ◌∷◌,
  Outcome, ok, err, ltb, ◌==◌, holds, is_some, is_none, or_default, if◌then◌else◌, first, update,
  insert,
}
use omni_crm_backend.Tenancy.{TenantContext, is_agent}

pub data ConversationStatus : Type 0 where
  open_ pending closed : ConversationStatus

pub data AiMode : Type 0 where
  active handoff_pending human : AiMode

pub data Channel : Type 0 where
  whatsapp messenger instagram ad_account : Channel

pub data Direction : Type 0 where
  inbound outbound system : Direction

pub data AuthorType : Type 0 where
  contact user ai automation system : AuthorType

pub data MessageStatus : Type 0 where
  queued dispatching sent delivered read failed unknown cancelled : MessageStatus

pub data TransferStatus : Type 0 where
  pending accepted expired cancelled : TransferStatus

pub record Conversation : Type 0 where
  pub id : ℕ
  pub tenant_id : ℕ
  pub contact_id : ℕ
  pub channel_asset_id : ℕ
  pub channel : Channel
  pub status : ConversationStatus
  pub ai_mode : AiMode
  pub control_version : ℕ
  pub assigned_user_id : Option ℕ
  pub response_window_id : Option ℕ
  pub response_window_started_at : Option ℕ

-- Of `message_metadata` the model has the entries that the code reads back: `author_source_id`, the
-- author's source, and `expected_version`, the entry "control_version".
pub record Message : Type 0 where
  pub id : ℕ
  pub tenant_id : ℕ
  pub conversation_id : ℕ
  pub channel_asset_id : ℕ
  pub channel : Channel
  pub direction : Direction
  pub author_type : AuthorType
  pub author_user_id : Option ℕ
  pub author_source_id : Option ℕ
  pub expected_version : Option ℕ
  pub body_text : Option String
  pub provider_message_id : Option String
  pub status : MessageStatus
  pub client_idempotency_key : Option String
  pub client_request_hash : Option String

pub record ConversationTransfer : Type 0 where
  pub id : ℕ
  pub tenant_id : ℕ
  pub conversation_id : ℕ
  pub trigger_id : ℕ
  pub reason : String
  pub recipient_user_id : Option ℕ
  pub status : TransferStatus
  pub accepted_at : Option ℕ

pub data AuditAction : Type 0 where
  ai_mode_changed handoff_requested handoff_accepted : AuditAction
  unknown_resolved unknown_resend_authorized : AuditAction

pub record AuditEvent : Type 0 where
  pub tenant_id : ℕ
  pub actor_user_id : Option ℕ
  pub action : AuditAction
  pub resource_id : ℕ

pub record Desk : Type 0 where
  pub conversations : List Conversation
  pub messages : List Message
  pub transfers : List ConversationTransfer
  pub audit_events : List AuditEvent

pub data DeskError : Type 0 where
  invalid_ai_mode conversation_not_found resource_not_assigned tenant_required : DeskError
  transfer_not_found idempotency_conflict unsupported_delivery_status invalid_author : DeskError

abbrev pub is_ai : AuthorType → Bool
is_ai AuthorType.ai = true
is_ai _ = false

abbrev pub is_queued : MessageStatus → Bool
is_queued MessageStatus.queued = true
is_queued _ = false

abbrev pub is_pending : TransferStatus → Bool
is_pending TransferStatus.pending = true
is_pending _ = false

abbrev pub in_tenant : ℕ → ℕ → Conversation → Bool
in_tenant tenant_id conversation_id c = c.id == conversation_id && c.tenant_id == tenant_id

-- context.role == "agente_comercial" and assigned_user_id != context.user_id
abbrev pub is_outsider : TenantContext → Conversation → Bool
is_outsider context c = is_agent context.role && not (holds c.assigned_user_id context.user_id)

abbrev pub queued_ai : ℕ → ℕ → Message → Bool
queued_ai tenant_id conversation_id m =
    m.tenant_id == tenant_id
    && (m.conversation_id == conversation_id && (is_ai m.author_type && is_queued m.status))

-- UPDATE messages SET status = 'cancelled'
abbrev pub cancel_queued : ℕ → ℕ → List Message → List Message
cancel_queued tenant_id conversation_id =
    update (queued_ai tenant_id conversation_id)
      (λ m. record m { status = MessageStatus.cancelled })

abbrev pub audit : ℕ → Option ℕ → AuditAction → ℕ → List AuditEvent → List AuditEvent
audit tenant_id actor action resource = insert (record {
  tenant_id = tenant_id;
  actor_user_id = actor;
  action = action;
  resource_id = resource;
})

-- The modes that `set_conversation_mode` takes: "active" and "human".
abbrev pub is_settable : AiMode → Bool
is_settable AiMode.active = true
is_settable AiMode.human = true
is_settable AiMode.handoff_pending = false

abbrev pub is_human : AiMode → Bool
is_human AiMode.human = true
is_human _ = false

-- The conversation as it is after the writes, and the writes to the database.
abbrev pub set_mode_row : AiMode → Conversation → Conversation
set_mode_row mode c = record c { ai_mode = mode; control_version = c.control_version + 1 }

mode_written : TenantContext → ℕ → AiMode → Conversation → Desk → Desk
mode_written context conversation_id mode c desk = record desk {
  conversations = update (λ r. r.id == c.id) (set_mode_row mode) desk.conversations;
  messages =
      if is_human mode
      then cancel_queued context.tenant_id conversation_id desk.messages
      else desk.messages;
  audit_events =
      audit context.tenant_id (some context.user_id) ai_mode_changed c.id desk.audit_events;
}

set_mode_of :
    TenantContext → ℕ → AiMode → Desk → Option Conversation → Outcome DeskError Conversation × Desk
set_mode_of context conversation_id mode desk none = (err conversation_not_found, desk)
set_mode_of context conversation_id mode desk (some c) =
    if is_outsider context c
    then (err resource_not_assigned, desk)
    else (ok (set_mode_row mode c), mode_written context conversation_id mode c desk)

unfoldable pub set_conversation_mode :
    TenantContext → ℕ → AiMode → Desk → Outcome DeskError Conversation × Desk
unfolding set_mode_of mode_written
set_conversation_mode context conversation_id mode desk =
    if not (is_settable mode)
    then (err invalid_ai_mode, desk)
    else set_mode_of context conversation_id mode desk
        (first (in_tenant context.tenant_id conversation_id) desk.conversations)
