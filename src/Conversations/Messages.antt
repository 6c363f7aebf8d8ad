-- ===== src/Conversations/Messages.antt =====
-- app/services/message_authors.py, app/repositories/messages.py, `create_send_intent` of
-- send_intent.py and message_status.py: how a message is stored, sent once, and tracked.
-- `sha256` is library code.
pub mod Authors
pub mod Idempotency
pub mod Delivery
use text.Mathlib.Text.{◌==◌ as str_eq}
use omni_crm_backend.Prelude.{
  ℕ, String, Bool, true, false, not, ◌&&◌, ◌||◌, Option, none, some, Outcome, ok, err, ltb, ◌==◌,
  is_some, is_none, if◌then◌else◌, first, update, insert,
}
use omni_crm_backend.Tenancy.{TenantContext}
use omni_crm_backend.Conversations.{
  Conversation, Message, Channel, Direction, AuthorType, MessageStatus, Desk, DeskError, in_tenant,
  is_outsider, conversation_not_found, resource_not_assigned, idempotency_conflict,
  unsupported_delivery_status, invalid_author,
}

pub data AuthorOrigin : Type 0 where
  contact agent ai automation system : AuthorOrigin

pub record MessageAuthor : Type 0 where
  pub origin : AuthorOrigin
  pub source_id : Option ℕ
  pub user_id : Option ℕ

abbrev pub is_agent_origin : AuthorOrigin → Bool
is_agent_origin AuthorOrigin.agent = true
is_agent_origin _ = false

-- `MessageAuthor(origin, source_id, user_id)` with the checks of `__post_init__`
unfoldable pub make_author : AuthorOrigin → Option ℕ → Option ℕ → Outcome DeskError MessageAuthor
make_author origin source_id user_id =
    if is_agent_origin origin && is_none user_id
    then err invalid_author
    else if not (is_agent_origin origin) && is_some user_id
    then err invalid_author
    else if not (is_agent_origin origin) && is_none source_id
    then err invalid_author
    else ok (record { origin = origin; source_id = source_id; user_id = user_id })

-- `author_type` of `storage_fields`
abbrev pub author_type_of : AuthorOrigin → AuthorType
author_type_of AuthorOrigin.contact = AuthorType.contact
author_type_of AuthorOrigin.agent = AuthorType.user
author_type_of AuthorOrigin.ai = AuthorType.ai
author_type_of AuthorOrigin.automation = AuthorType.automation
author_type_of AuthorOrigin.system = AuthorType.system

abbrev pub is_user : AuthorType → Bool
is_user AuthorType.user = true
is_user _ = false

-- metadata.get("author_origin") not in {None, "agent"}: the entry is there if a source is.
abbrev pub is_foreign : MessageAuthor → Bool
is_foreign a = is_some a.source_id && not (is_agent_origin a.origin)

-- validate_message_author_storage on the author's `storage_fields`
pub validate_message_author_storage : MessageAuthor → Bool
validate_message_author_storage a =
    if is_user (author_type_of a.origin)
    then not (is_none a.user_id || is_foreign a)
    else is_none a.user_id

-- The arguments of `create_message` that its callers give.
pub record Draft : Type 0 where
  pub tenant_id : ℕ
  pub conversation_id : ℕ
  pub channel_asset_id : ℕ
  pub channel : Channel
  pub direction : Direction
  pub status : MessageStatus
  pub author : MessageAuthor
  pub expected_version : Option ℕ
  pub body_text : Option String
  pub provider_message_id : Option String
  pub client_idempotency_key : Option String
  pub client_request_hash : Option String

abbrev pub message_of : ℕ → Draft → Message
message_of id d = record {
  id = id;
  tenant_id = d.tenant_id;
  conversation_id = d.conversation_id;
  channel_asset_id = d.channel_asset_id;
  channel = d.channel;
  direction = d.direction;
  author_type = author_type_of d.author.origin;
  author_user_id = d.author.user_id;
  author_source_id = d.author.source_id;
  expected_version = d.expected_version;
  body_text = d.body_text;
  provider_message_id = d.provider_message_id;
  status = d.status;
  client_idempotency_key = d.client_idempotency_key;
  client_request_hash = d.client_request_hash;
}

unfoldable pub create_message : ℕ → Draft → Desk → Outcome DeskError Message × Desk
unfolding validate_message_author_storage
create_message id d desk =
    if validate_message_author_storage d.author
    then (ok (message_of id d), record desk { messages = insert (message_of id d) desk.messages })
    else (err invalid_author, desk)

-- `if idempotency_key:` neither None nor the empty text
abbrev pub given : Option String → Bool
given none = false
given (some k) = not (str_eq k "")

abbrev pub text_holds : Option String → String → Bool
text_holds none k = false
text_holds (some j) k = str_eq j k

abbrev pub with_key : ℕ → ℕ → String → Message → Bool
with_key tenant_id conversation_id key m =
    m.tenant_id == tenant_id
    && (m.conversation_id == conversation_id && text_holds m.client_idempotency_key key)

module _ (sha256 : String → String) where
  abbrev pub intent : TenantContext → Conversation → String → Option String → Draft
  intent context c body key = record {
    tenant_id = context.tenant_id;
    conversation_id = c.id;
    channel_asset_id = c.channel_asset_id;
    channel = c.channel;
    direction = Direction.outbound;
    status = MessageStatus.queued;
    author = record {
      origin = AuthorOrigin.agent;
      source_id = none;
      user_id = some context.user_id;
    };
    expected_version = none;
    body_text = some body;
    provider_message_id = none;
    client_idempotency_key = key;
    client_request_hash = if given key then some (sha256 body) else none;
  }

  -- The message that an earlier request with the key has stored.
  unfoldable pub earlier : TenantContext → Conversation → Option String → Desk → Option Message
  earlier context c none desk = none
  earlier context c (some key) desk =
      if given (some key) then first (with_key context.tenant_id c.id key) desk.messages else none

  unfoldable pub settle :
      ℕ
      → TenantContext
      → Conversation
      → String
      → Option String
      → Desk
      → Option Message
      → Outcome DeskError Message × Desk
  settle id context c body key desk none = create_message id (intent context c body key) desk
  settle id context c body key desk (some m) =
      if text_holds m.client_request_hash (sha256 body)
      then (ok m, desk)
      else (err idempotency_conflict, desk)

  unfoldable pub send_to :
      ℕ
      → TenantContext
      → String
      → Option String
      → Desk
      → Option Conversation
      → Outcome DeskError Message × Desk
  send_to id context body key desk none = (err conversation_not_found, desk)
  send_to id context body key desk (some c) =
      if is_outsider context c
      then (err resource_not_assigned, desk)
      else settle id context c body key desk (earlier context c key desk)

  unfoldable pub create_send_intent :
      ℕ → TenantContext → ℕ → String → Option String → Desk → Outcome DeskError Message × Desk
  create_send_intent id context conversation_id body key desk =
      send_to id context body key desk
        (first (in_tenant context.tenant_id conversation_id) desk.conversations)

-- STATUS_ORDER
abbrev pub status_order : MessageStatus → ℕ
status_order MessageStatus.queued = 0
status_order MessageStatus.dispatching = 1
status_order MessageStatus.sent = 2
status_order MessageStatus.delivered = 3
status_order MessageStatus.read = 4
status_order MessageStatus.failed = 0
status_order MessageStatus.unknown = 0
status_order MessageStatus.cancelled = 0

-- status in {"sent", "delivered", "read", "failed"}
abbrev pub is_delivery : MessageStatus → Bool
is_delivery MessageStatus.sent = true
is_delivery MessageStatus.delivered = true
is_delivery MessageStatus.read = true
is_delivery MessageStatus.failed = true
is_delivery _ = false

abbrev pub is_failed : MessageStatus → Bool
is_failed MessageStatus.failed = true
is_failed _ = false

abbrev pub of_provider : ℕ → ℕ → String → Message → Bool
of_provider tenant_id channel_asset_id provider_id m =
    m.tenant_id == tenant_id
    && (m.channel_asset_id == channel_asset_id && text_holds m.provider_message_id provider_id)

abbrev pub goes_back : MessageStatus → MessageStatus → Bool
goes_back new old = not (is_failed new) && ltb (status_order new) (status_order old)

unfoldable pub report : MessageStatus → Desk → Message → Outcome DeskError (Option Message) × Desk
report status desk m =
    if not (is_delivery status)
    then (err unsupported_delivery_status, desk)
    else if goes_back status m.status
    then (ok (some m), desk)
    else (
      ok (some (record m { status = status })),
      record desk {
        messages = update (λ x. x.id == m.id) (λ x. record x { status = status }) desk.messages;
      },
    )

-- The counter of `record_delivery` is a metric outside the database.
unfoldable pub apply_whatsapp_delivery_status :
    ℕ → ℕ → String → MessageStatus → Desk → Outcome DeskError (Option Message) × Desk
apply_whatsapp_delivery_status tenant_id channel_asset_id provider_id status desk =
    elim (first (of_provider tenant_id channel_asset_id provider_id) desk.messages) [
      | none ↦ (ok none, desk)
      | some m ↦ report status desk m
    ]
