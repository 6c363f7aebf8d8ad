-- ===== src/Dispatch.antt =====
-- app/services/message_dispatch.py, message_attempts.py and `close_response_window` of kpi.py: a
-- queued message goes to its provider, and what came of it is written down. The provider is library
-- code: `send` is its reply to an asset, a recipient and a text. One clock reading stands for those
-- of a call. The history and the reason in `message_metadata`, which no code reads, are left out.
pub mod Once
pub mod Fence
mod Tests
use omni_crm_backend.Prelude.{
  ℕ, ◌+◌, ◌-◌, ◌/◌, max, String, Bool, true, false, not, ◌&&◌, ◌||◌, Option, none, some, List, [],
  ◌∷◌, Outcome, ok, err, ◌==◌, holds, is_none, is_some, if◌then◌else◌, first, select, update,
  insert,
}
use omni_crm_backend.Conversations.{
  Conversation, Message, MessageStatus, AuthorType, AiMode, Channel, Direction, Desk, in_tenant,
  is_ai, is_queued,
}
use omni_crm_backend.Conversations.Messages.{of_provider}
use omni_crm_backend.Timers.{
  ConversationTimer, AutomationRule, cancel_unanswered_timers, schedule_unanswered_timers,
  is_outbound,
}

pub data AttemptStatus : Type 0 where
  dispatching accepted rejected unknown : AttemptStatus

pub record MessageSendAttempt : Type 0 where
  pub id : ℕ
  pub tenant_id : ℕ
  pub message_id : ℕ
  pub attempt_number : ℕ
  pub status : AttemptStatus
  pub provider_message_id : Option String
  pub error_code : Option String
  pub finished_at : Option ℕ

-- The columns of `ChannelAsset` that the dispatch reads.
pub record SendingAsset : Type 0 where
  pub id : ℕ
  pub tenant_id : ℕ
  pub channel : Channel
  pub external_id : String

pub data ResponderType : Type 0 where
  agent ai automation : ResponderType

pub record KpiEvent : Type 0 where
  pub id : ℕ
  pub tenant_id : ℕ
  pub conversation_id : ℕ
  pub response_window_id : ℕ
  pub channel : Channel
  pub campaign_id : Option ℕ
  pub responder_type : ResponderType
  pub responder_user_id : Option ℕ
  pub ai_model : Option String
  pub received_at : ℕ
  pub responded_at : ℕ
  pub elapsed_ms : ℕ
  pub resolved_by_ai : Bool

-- The columns of `Attribution` and `AiRun` that a closed window names, the newest row first.
pub record Attribution : Type 0 where
  pub tenant_id : ℕ
  pub contact_id : ℕ
  pub campaign_id : Option ℕ

pub record AiRun : Type 0 where
  pub tenant_id : ℕ
  pub conversation_id : ℕ
  pub model : String

pub record SendStore : Type 0 where
  pub desk : Desk
  pub assets : List SendingAsset
  pub attempts : List MessageSendAttempt
  pub timers : List ConversationTimer
  pub rules : List AutomationRule
  pub kpi_events : List KpiEvent
  pub attributions : List Attribution
  pub ai_runs : List AiRun

-- The database refuses a flush: app/models/crm.py.
pub data FlushError : Type 0 where
  system_message_not_dispatched uq_messages_provider_identity : FlushError

-- What the HTTP call of an adapter gives: `asyncio.TimeoutError`, another exception, or an answer
-- with or without the provider's identifier.
pub data Reply : Type 0 where
  timed_out failed : Reply
  answered : Option String → Reply

pub record FreshIds : Type 0 where
  pub attempt : ℕ
  pub kpi_event : ℕ
  pub timer : AutomationRule → ℕ

abbrev pub of_message : ℕ → ℕ → MessageSendAttempt → Bool
of_message tenant_id message_id a = a.tenant_id == tenant_id && a.message_id == message_id

-- func.max(attempt_number) or 0
pub last_attempt : List MessageSendAttempt → ℕ
last_attempt [] = 0
last_attempt (a ∷ as') = max a.attempt_number (last_attempt as')

pub start_message_attempt :
    ℕ → ℕ → ℕ → List MessageSendAttempt → MessageSendAttempt × List MessageSendAttempt
start_message_attempt id tenant_id message_id attempts =
    let attempt : MessageSendAttempt = record {
      id = id;
      tenant_id = tenant_id;
      message_id = message_id;
      attempt_number = last_attempt (select (of_message tenant_id message_id) attempts) + 1;
      status = AttemptStatus.dispatching;
      provider_message_id = none;
      error_code = none;
      finished_at = none;
    } in
    (attempt, insert attempt attempts)

-- The callers give one of the three statuses that the function accepts.
pub finish_message_attempt :
    ℕ
    → MessageSendAttempt
    → AttemptStatus
    → Option String
    → Option String
    → List MessageSendAttempt
    → List MessageSendAttempt
finish_message_attempt now attempt status provider_message_id error_code =
    update (λ a. a.id == attempt.id)
      (λ a. record a {
        status = status;
        provider_message_id = provider_message_id;
        error_code = error_code;
        finished_at = some now;
      })

-- status in {"sent", "delivered", "read"}
abbrev pub is_delivered : MessageStatus → Bool
is_delivered MessageStatus.sent = true
is_delivered MessageStatus.delivered = true
is_delivered MessageStatus.read = true
is_delivered _ = false

abbrev pub responder_of : AuthorType → Option ResponderType
responder_of AuthorType.user = some agent
responder_of AuthorType.ai = some ResponderType.ai
responder_of AuthorType.automation = some ResponderType.automation
responder_of _ = none

abbrev pub is_agent_responder : ResponderType → Bool
is_agent_responder agent = true
is_agent_responder _ = false

abbrev pub is_ai_responder : ResponderType → Bool
is_ai_responder ResponderType.ai = true
is_ai_responder _ = false

abbrev pub is_active : AiMode → Bool
is_active AiMode.active = true
is_active _ = false

abbrev pub campaign_of : Conversation → ℕ → List Attribution → Option ℕ
campaign_of c tenant_id rows =
    elim (first
      (λ a. a.tenant_id == tenant_id && (a.contact_id == c.contact_id && is_some a.campaign_id))
      rows) [ none ↦ none | some a ↦ a.campaign_id ]

abbrev pub model_of : Conversation → ℕ → List AiRun → Option String
model_of c tenant_id rows =
    elim (first (λ r. r.tenant_id == tenant_id && r.conversation_id == c.id) rows) [
      | none ↦ none
      | some r ↦ some r.model
    ]

abbrev pub kpi_event : ℕ → ℕ → Message → Conversation → ResponderType → ℕ → ℕ → SendStore → KpiEvent
kpi_event now id m c responder window_id received_at db = record {
  id = id;
  tenant_id = m.tenant_id;
  conversation_id = c.id;
  response_window_id = window_id;
  channel = c.channel;
  campaign_id = campaign_of c m.tenant_id db.attributions;
  responder_type = responder;
  responder_user_id = if is_agent_responder responder then m.author_user_id else none;
  ai_model = if is_ai_responder responder then model_of c m.tenant_id db.ai_runs else none;
  received_at = received_at;
  responded_at = now;
  elapsed_ms = (now - received_at) / 1000;
  resolved_by_ai = is_ai_responder responder && is_active c.ai_mode;
}

close_window :
    ℕ → ℕ → Message → ResponderType → SendStore → Conversation → Option ℕ → Option ℕ → SendStore
close_window now id m responder db c (some window_id) (some received_at) = record db {
  kpi_events = insert (kpi_event now id m c responder window_id received_at db) db.kpi_events;
  desk = record (db.desk) {
    conversations =
        update (λ x. x.id == c.id)
          (λ x. record x { response_window_id = none; response_window_started_at = none })
          db.desk.conversations;
  };
}
close_window now id m responder db c _ _ = db

close_for : ℕ → ℕ → Message → SendStore → Option ResponderType → Option Conversation → SendStore
close_for now id m db none o = db
close_for now id m db (some responder) none = db
close_for now id m db (some responder) (some c) =
    close_window now id m responder db c c.response_window_id c.response_window_started_at

pub close_response_window : ℕ → ℕ → Message → SendStore → SendStore
unfolding close_for close_window
close_response_window now id m db =
    if not (is_outbound m.direction) || not (is_delivered m.status)
    then db
    else close_for now id m db (responder_of m.author_type)
        (first (in_tenant m.tenant_id m.conversation_id) db.desk.conversations)

-- The message object is the row.
pub save : Message → SendStore → SendStore
save m db = record db {
  desk = record (db.desk) { messages = update (λ x. x.id == m.id) (λ _. m) db.desk.messages };
}

abbrev pub with_status : MessageStatus → Message → Message
with_status status m = record m { status = status }

-- An AI message is held back unless the AI controls the conversation, in the version that the
-- message was written for, if it names one.
abbrev pub is_fenced : Message → Conversation → Bool
is_fenced m c =
    is_ai m.author_type
    && (not (is_active c.ai_mode)
        || (is_some m.expected_version && not (holds m.expected_version c.control_version)))

-- The keys of the table of adapters.
abbrev pub has_adapter : Channel → Bool
has_adapter Channel.whatsapp = true
has_adapter Channel.instagram = true
has_adapter Channel.messenger = true
has_adapter Channel.ad_account = false

-- The adapters answer "sent" or raise: app/services/channel_adapters.py
abbrev pub sent_message : Option String → Message → Message
sent_message provider_id m = record m {
  status = MessageStatus.sent;
  provider_message_id = provider_id;
}

abbrev pub by_system : AuthorType → Bool
by_system AuthorType.system = true
by_system _ = false

-- Another message of the asset with the provider's identifier.
abbrev pub has_identity : Message → String → Message → Bool
has_identity m provider_id x =
    not (x.id == m.id) && of_provider m.tenant_id m.channel_asset_id provider_id x

-- The constraints on the message that has taken the provider's identifier.
pub flush_error : Message → Option String → List Message → Option FlushError
flush_error m none messages = none
flush_error m (some provider_id) messages =
    if by_system m.author_type
    then some system_message_not_dispatched
    else if is_some (first (has_identity m provider_id) messages)
    then some uq_messages_provider_identity
    else none

abbrev pub body_or_empty : Option String → String
body_or_empty none = ""
body_or_empty (some body) = body

abbrev pub queued_row : ℕ → ℕ → Message → Bool
queued_row tenant_id message_id m =
    m.id == message_id && (m.tenant_id == tenant_id && is_queued m.status)

module _ (now : ℕ) (ids : FreshIds) (send : SendingAsset → ℕ → String → Reply) where
  pub after_send : Conversation → Message → SendStore → SendStore
  after_send c m db =
      let db' = close_response_window now ids.kpi_event m db in
      let timers' =
        (cancel_unanswered_timers m.tenant_id m.conversation_id "team_unanswered" db'.timers).1 in
      record db' {
        timers =
            (schedule_unanswered_timers now ids.timer c Direction.outbound m true db'.rules
              timers').1;
      }

  -- A refused flush raises behind the provider's call: the transaction is rolled back to `before`.
  pub settle_reply :
      Message
      → Conversation
      → MessageSendAttempt
      → SendStore
      → SendStore
      → Reply
      → Outcome FlushError (Option Message) × SendStore
  settle_reply m c attempt before db timed_out = (
    ok (some (with_status MessageStatus.unknown m)),
    record (save (with_status MessageStatus.unknown m) db) {
      attempts =
          finish_message_attempt now attempt AttemptStatus.unknown none (some "PROVIDER_TIMEOUT")
            db.attempts;
    },
  )
  settle_reply m c attempt before db Reply.failed = (
    ok (some (with_status MessageStatus.failed m)),
    record (save (with_status MessageStatus.failed m) db) {
      attempts =
          finish_message_attempt now attempt AttemptStatus.rejected none (some "PROVIDER_REJECTED")
            db.attempts;
    },
  )
  settle_reply m c attempt before db (answered provider_id) =
      elim (flush_error m provider_id db.desk.messages) [
        | some e ↦ (err e, before)
        | none ↦
            let m' = sent_message provider_id m in
            (
              ok (some m'),
              after_send c m' (record (save m' db) {
                attempts =
                    finish_message_attempt now attempt AttemptStatus.accepted provider_id none
                      db.attempts;
              }),
            )
      ]

  pub deliver :
      Message
      → Conversation
      → SendingAsset
      → SendStore
      → Outcome FlushError (Option Message) × SendStore
  deliver m c a db =
      let (attempt, attempts') = start_message_attempt ids.attempt m.tenant_id m.id db.attempts in
      settle_reply m c attempt db (record db { attempts = attempts' })
        (send a c.contact_id (body_or_empty m.body_text))

  pub dispatch_of :
      Message
      → SendStore
      → Option Conversation
      → Option SendingAsset
      → Outcome FlushError (Option Message) × SendStore
  dispatch_of m db (some c) (some a) =
      if is_fenced m c
      then (
        ok (some (with_status MessageStatus.cancelled m)),
        save (with_status MessageStatus.cancelled m) db,
      )
      else if not (has_adapter a.channel)
      then (
        ok (some (with_status MessageStatus.failed m)),
        save (with_status MessageStatus.failed m) db,
      )
      else deliver m c a db
  dispatch_of m db _ _ =
      (ok (some (with_status MessageStatus.failed m)), save (with_status MessageStatus.failed m) db)

  pub dispatch_queued_message : ℕ → ℕ → SendStore → Outcome FlushError (Option Message) × SendStore
  dispatch_queued_message tenant_id message_id db =
      elim (first (queued_row tenant_id message_id) db.desk.messages) [
        | none ↦ (ok none, db)
        | some m ↦
            dispatch_of m db (first (in_tenant tenant_id m.conversation_id) db.desk.conversations)
              (first (λ a. a.id == m.channel_asset_id && a.tenant_id == tenant_id) db.assets)
      ]
