-- ===== src/Conversations/Transfers.antt =====
-- app/services/handoff.py and `takeover_conversation` of conversation_control.py: the transfer of a
-- conversation to a person, its acceptance, and the takeover.
pub mod Once
pub mod Pending
pub mod Steps
use omni_crm_backend.Prelude.{
  ℕ, ◌+◌, String, Bool, true, false, not, ◌&&◌, Option, none, some, Outcome, ok, err, ◌==◌, holds,
  is_some, or_default, if◌then◌else◌, first, update, insert,
}
use omni_crm_backend.Tenancy.{TenantContext, is_agent}
use omni_crm_backend.Conversations.{
  Conversation, ConversationTransfer, AiMode, TransferStatus, AuditAction, Desk, DeskError,
  conversation_not_found, resource_not_assigned, tenant_required, transfer_not_found,
  handoff_requested, handoff_accepted, in_tenant, is_outsider, cancel_queued, audit, set_mode_row,
  set_conversation_mode, is_pending,
}

-- `context` and `tenant_id` are both optional in `handoff`; these are what it makes of them.
pub record HandoffRequest : Type 0 where
  pub context : Option TenantContext
  pub tenant_id : Option ℕ
  pub conversation_id : ℕ
  pub trigger_id : ℕ
  pub reason : String
  pub recipient_user_id : Option ℕ

-- context.tenant_id if context else tenant_id
abbrev pub resolve_tenant : Option TenantContext → Option ℕ → Option ℕ
resolve_tenant none tenant_id = tenant_id
resolve_tenant (some context) tenant_id = some context.tenant_id

abbrev pub is_outside : Option TenantContext → Conversation → Bool
is_outside none c = false
is_outside (some context) c = is_outsider context c

abbrev pub actor_of : Option TenantContext → Option ℕ
actor_of none = none
actor_of (some context) = some context.user_id

abbrev pub has_trigger : ℕ → ℕ → ConversationTransfer → Bool
has_trigger tenant_id trigger_id t = t.tenant_id == tenant_id && t.trigger_id == trigger_id

abbrev pub pending_in : ℕ → ℕ → ConversationTransfer → Bool
pending_in tenant_id conversation_id t =
    t.tenant_id == tenant_id && (t.conversation_id == conversation_id && is_pending t.status)

abbrev pub new_transfer : ℕ → ℕ → HandoffRequest → ConversationTransfer
new_transfer id tenant_id r = record {
  id = id;
  tenant_id = tenant_id;
  conversation_id = r.conversation_id;
  trigger_id = r.trigger_id;
  reason = r.reason;
  recipient_user_id = r.recipient_user_id;
  status = TransferStatus.pending;
  accepted_at = none;
}

pub request_transfer :
    ℕ → ℕ → HandoffRequest → Conversation → Desk → Outcome DeskError ConversationTransfer × Desk
request_transfer id tenant_id r c desk = (
  ok (new_transfer id tenant_id r),
  record desk {
    conversations =
        update (λ x. x.id == c.id) (set_mode_row AiMode.handoff_pending) desk.conversations;
    messages = cancel_queued tenant_id r.conversation_id desk.messages;
    transfers = insert (new_transfer id tenant_id r) desk.transfers;
    audit_events =
        audit tenant_id (actor_of r.context) handoff_requested r.conversation_id desk.audit_events;
  },
)

pub handoff_of :
    ℕ
    → ℕ
    → HandoffRequest
    → Desk
    → Option Conversation
    → Outcome DeskError ConversationTransfer × Desk
handoff_of id tenant_id r desk none = (err conversation_not_found, desk)
handoff_of id tenant_id r desk (some c) =
    if is_outside r.context c
    then (err resource_not_assigned, desk)
    else elim (first (has_trigger tenant_id r.trigger_id) desk.transfers) [
      | some existing ↦ (ok existing, desk)
      | none ↦ elim (first (pending_in tenant_id r.conversation_id) desk.transfers) [
        | some open_one ↦ (ok open_one, desk)
        | none ↦ request_transfer id tenant_id r c desk
      ]
    ]

pub handoff : ℕ → HandoffRequest → Desk → Outcome DeskError ConversationTransfer × Desk
handoff id r desk = elim (resolve_tenant r.context r.tenant_id) [
  | none ↦ (err tenant_required, desk)
  | some tenant_id ↦
      handoff_of id tenant_id r desk
        (first (in_tenant tenant_id r.conversation_id) desk.conversations)
]

-- assigned_user_id not in {None, context.user_id}
abbrev pub is_taken_by_other : TenantContext → Conversation → Bool
is_taken_by_other context c =
    is_agent context.role
    && (is_some c.assigned_user_id && not (holds c.assigned_user_id context.user_id))

abbrev pub accept_row : ℕ → ConversationTransfer → ConversationTransfer
accept_row now t = record t { status = TransferStatus.accepted; accepted_at = some now }

accept_written :
    ℕ
    → TenantContext
    → ConversationTransfer
    → Conversation
    → Desk
    → Outcome DeskError ConversationTransfer × Desk
accept_written now context t c desk = (
  ok (accept_row now t),
  record desk {
    transfers = update (λ x. x.id == t.id) (accept_row now) desk.transfers;
    conversations =
        update (λ x. x.id == c.id)
          (λ x. record x {
            ai_mode = AiMode.human;
            assigned_user_id = some (or_default t.recipient_user_id context.user_id);
            control_version = x.control_version + 1;
          })
          desk.conversations;
    audit_events =
        audit context.tenant_id (some context.user_id) handoff_accepted c.id desk.audit_events;
  },
)

accept_of :
    ℕ
    → TenantContext
    → Desk
    → ConversationTransfer
    → Option Conversation
    → Outcome DeskError ConversationTransfer × Desk
accept_of now context desk t none = (err conversation_not_found, desk)
accept_of now context desk t (some c) =
    if is_taken_by_other context c
    then (err resource_not_assigned, desk)
    else accept_written now context t c desk

pub accept_handoff : ℕ → ℕ → TenantContext → Desk → Outcome DeskError ConversationTransfer × Desk
accept_handoff now transfer_id context desk =
    elim (first (λ t. t.id == transfer_id && t.tenant_id == context.tenant_id) desk.transfers) [
      | none ↦ (err transfer_not_found, desk)
      | some t ↦
          if not (is_pending t.status)
          then (ok t, desk)
          else accept_of now context desk t
              (first (in_tenant context.tenant_id t.conversation_id) desk.conversations)
    ]

-- The conversation object is shared, so what is returned is the row as it is at the end.
after_accept :
    TenantContext
    → ℕ
    → Desk
    → Outcome DeskError ConversationTransfer × Desk
    → Outcome DeskError (Option Conversation) × Desk
after_accept context conversation_id before (ok t, desk) =
    (ok (first (in_tenant context.tenant_id conversation_id) desk.conversations), desk)
after_accept context conversation_id before (err e, desk) = (err e, before)

after_mode :
    ℕ
    → TenantContext
    → ℕ
    → Desk
    → Outcome DeskError Conversation × Desk
    → Outcome DeskError (Option Conversation) × Desk
after_mode now context conversation_id before (err e, desk) = (err e, before)
after_mode now context conversation_id before (ok c, desk) =
    elim (first (pending_in context.tenant_id conversation_id) desk.transfers) [
      | none ↦ (ok (some c), desk)
      | some t ↦ after_accept context conversation_id before (accept_handoff now t.id context desk)
    ]

pub takeover_conversation :
    ℕ → TenantContext → ℕ → Desk → Outcome DeskError (Option Conversation) × Desk
takeover_conversation now context conversation_id desk =
    after_mode now context conversation_id desk
      (set_conversation_mode context conversation_id AiMode.human desk)
