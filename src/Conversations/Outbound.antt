-- ===== src/Conversations/Outbound.antt =====
-- app/services/consent.py, outbound_policy.py, `send_outbound_message` of send_intent.py,
-- unknown_messages.py and assignment.py: messages that the company sends of its own accord, and
-- what becomes of one whose fate is unknown. `sha256` is library code.
pub mod Consent
pub mod Resolution
mod Tests
use text.Mathlib.Text.{◌==◌ as str_eq}
use omni_crm_backend.Prelude.{
  ℕ, String, Bool, true, false, not, ◌&&◌, ◌||◌, Option, none, some, List, [], ◌∷◌, Outcome, ok,
  err, ltb, ◌==◌, is_some, if◌then◌else◌, first, select, update, length,
}
use omni_crm_backend.Tenancy.{TenantContext}
use omni_crm_backend.Conversations.{
  Conversation, ConversationStatus, Message, MessageStatus, Channel, Direction, Desk, DeskError,
  in_tenant, is_outsider, conversation_not_found, AuditAction, audit, unknown_resolved,
  unknown_resend_authorized,
}
use omni_crm_backend.Conversations.Messages.{MessageAuthor, Draft, create_message, given}

pub data ConsentStatus : Type 0 where
  granted revoked : ConsentStatus

pub record ConsentRow : Type 0 where
  pub id : ℕ
  pub tenant_id : ℕ
  pub contact_id : ℕ
  pub channel : Channel
  pub purpose : String
  pub status : ConsentStatus
  pub captured_at : ℕ

pub data SendError : Type 0 where
  consent_required message_not_found is_not_unknown resolution_required : SendError
  of_desk : DeskError → SendError

abbrev pub is_granted : ConsentStatus → Bool
is_granted granted = true
is_granted revoked = false

abbrev pub same_channel : Channel → Channel → Bool
same_channel Channel.whatsapp Channel.whatsapp = true
same_channel Channel.messenger Channel.messenger = true
same_channel Channel.instagram Channel.instagram = true
same_channel Channel.ad_account Channel.ad_account = true
same_channel _ _ = false

abbrev pub in_scope : ℕ → ℕ → Channel → String → ConsentRow → Bool
in_scope tenant_id contact_id channel purpose c =
    c.tenant_id == tenant_id
    && (c.contact_id == contact_id && (same_channel c.channel channel && str_eq c.purpose purpose))

-- ORDER BY captured_at DESC, id DESC: `c` comes after `d`.
abbrev pub comes_after : ConsentRow → ConsentRow → Bool
comes_after c d =
    ltb c.captured_at d.captured_at || (c.captured_at == d.captured_at && ltb c.id d.id)

newer : ConsentRow → Option ConsentRow → ConsentRow
newer c none = c
newer c (some d) = if comes_after c d then d else c

-- The first row in that order.
pub newest : List ConsentRow → Option ConsentRow
unfolding newer
newest [] = none
newest (c ∷ cs) = some (newer c (newest cs))

abbrev pub is_granted_row : Option ConsentRow → Bool
is_granted_row none = false
is_granted_row (some c) = is_granted c.status

unfoldable pub has_active_consent : ℕ → ℕ → Channel → String → List ConsentRow → Bool
unfolding newest
has_active_consent tenant_id contact_id channel purpose consents =
    is_granted_row (newest (select (in_scope tenant_id contact_id channel purpose) consents))

pub allowed : ℕ → String → List ConsentRow → Option Conversation → Outcome SendError Conversation
allowed tenant_id purpose consents none = err (of_desk conversation_not_found)
allowed tenant_id purpose consents (some c) =
    if has_active_consent tenant_id c.contact_id c.channel purpose consents
    then ok c
    else err consent_required

unfoldable pub assert_proactive_send_allowed :
    ℕ → ℕ → String → List ConsentRow → Desk → Outcome SendError Conversation
unfolding allowed
assert_proactive_send_allowed tenant_id conversation_id purpose consents desk =
    allowed tenant_id purpose consents
      (first (in_tenant tenant_id conversation_id) desk.conversations)

abbrev pub known_or_error : Option Conversation → Outcome SendError Conversation
known_or_error none = err (of_desk conversation_not_found)
known_or_error (some c) = ok c

abbrev pub lift_error : Outcome DeskError Message × Desk → Outcome SendError Message × Desk
lift_error (ok m, desk) = (ok m, desk)
lift_error (err e, desk) = (err (of_desk e), desk)

module _ (sha256 : String → String) where
  abbrev pub outbound_draft : ℕ → Conversation → String → MessageAuthor → Option String → Draft
  outbound_draft tenant_id c body author key = record {
    tenant_id = tenant_id;
    conversation_id = c.id;
    channel_asset_id = c.channel_asset_id;
    channel = c.channel;
    direction = Direction.outbound;
    status = MessageStatus.queued;
    author = author;
    expected_version = none;
    body_text = some body;
    provider_message_id = none;
    client_idempotency_key = key;
    client_request_hash = if given key then some (sha256 body) else none;
  }

  pub send_allowed :
      ℕ
      → ℕ
      → String
      → MessageAuthor
      → Option String
      → Desk
      → Outcome SendError Conversation
      → Outcome SendError Message × Desk
  send_allowed id tenant_id body author key desk (err e) = (err e, desk)
  send_allowed id tenant_id body author key desk (ok c) =
      lift_error (create_message id (outbound_draft tenant_id c body author key) desk)

  unfoldable pub send_outbound_message :
      ℕ
      → ℕ
      → ℕ
      → String
      → MessageAuthor
      → String
      → Option String
      → Bool
      → List ConsentRow
      → Desk
      → Outcome SendError Message × Desk
  unfolding send_allowed
  send_outbound_message id tenant_id conversation_id body author purpose key proactive consents
        desk =
      send_allowed id tenant_id body author key desk (
        if proactive
        then assert_proactive_send_allowed tenant_id conversation_id purpose consents desk
        else known_or_error (first (in_tenant tenant_id conversation_id) desk.conversations))

abbrev pub is_unknown : MessageStatus → Bool
is_unknown MessageStatus.unknown = true
is_unknown _ = false

abbrev pub received : Option String → Message → Message
received receipt m = record m { provider_message_id = receipt; status = MessageStatus.sent }

abbrev pub requeued : Message → Message
requeued m = record m { status = MessageStatus.queued }

-- The write to the message, and the audit event.
abbrev pub resolved :
    TenantContext
    → AuditAction
    → Message
    → (Message → Message)
    → Desk
    → Outcome SendError Message × Desk
resolved context action m f desk = (
  ok (f m),
  record desk {
    messages = update (λ x. x.id == m.id) f desk.messages;
    audit_events = audit context.tenant_id (some context.user_id) action m.id desk.audit_events;
  },
)

pub resolve :
    TenantContext
    → Option String
    → Bool
    → Bool
    → Message
    → Desk
    → Option Conversation
    → Outcome SendError Message × Desk
resolve context receipt resend acknowledged m desk none =
    (err (of_desk conversation_not_found), desk)
resolve context receipt resend acknowledged m desk (some c) =
    if is_outsider context c
    then (err (of_desk DeskError.resource_not_assigned), desk)
    else if not (is_unknown m.status)
    then (err is_not_unknown, desk)
    else if given receipt
    then resolved context unknown_resolved m (received receipt) desk
    else if resend && acknowledged
    then resolved context unknown_resend_authorized m requeued desk
    else (err resolution_required, desk)

pub resolve_found :
    TenantContext
    → Option String
    → Bool
    → Bool
    → Desk
    → Option Message
    → Outcome SendError Message × Desk
resolve_found context receipt resend acknowledged desk none = (err message_not_found, desk)
resolve_found context receipt resend acknowledged desk (some m) =
    resolve context receipt resend acknowledged m desk
      (first (in_tenant context.tenant_id m.conversation_id) desk.conversations)

abbrev pub of_tenant : ℕ → ℕ → Message → Bool
of_tenant tenant_id message_id m = m.id == message_id && m.tenant_id == tenant_id

unfoldable pub resolve_unknown_message :
    TenantContext → ℕ → Option String → Bool → Bool → Desk → Outcome SendError Message × Desk
unfolding resolve_found resolve
resolve_unknown_message context message_id receipt resend acknowledged desk =
    resolve_found context receipt resend acknowledged desk
      (first (of_tenant context.tenant_id message_id) desk.messages)

-- status IN ('open', 'pending')
abbrev pub is_live : ConversationStatus → Bool
is_live ConversationStatus.open_ = true
is_live ConversationStatus.pending = true
is_live ConversationStatus.closed = false

abbrev pub of_contact : ℕ → ℕ → Conversation → Bool
of_contact tenant_id contact_id c =
    c.tenant_id == tenant_id && (c.contact_id == contact_id && is_live c.status)

unfoldable pub propagate_opportunity_assignment : ℕ → ℕ → ℕ → Desk → ℕ × Desk
propagate_opportunity_assignment tenant_id contact_id owner_user_id desk = (
  length (select (of_contact tenant_id contact_id) desk.conversations),
  record desk {
    conversations =
        update (of_contact tenant_id contact_id)
          (λ c. record c { assigned_user_id = some owner_user_id }) desk.conversations;
  },
)
