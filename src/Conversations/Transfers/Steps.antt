-- ===== src/Conversations/Transfers/Steps.antt =====
-- Transfers, acceptances, changes of the mode and takeovers, one after another.
use omni_crm_backend.Prelude.{
  ℕ, ◌≡◌, refl, inl, inr, Option, none, some, Outcome, ok, err, first, Option-cases, Bool-cases,
}
use omni_crm_backend.Tenancy.{TenantContext}
use omni_crm_backend.Conversations.{
  Conversation, ConversationTransfer, AiMode, Desk, DeskError, in_tenant, is_outsider,
  set_conversation_mode, set_mode_of, is_settable,
}
use omni_crm_backend.Conversations.Transfers.{
  HandoffRequest, handoff, accept_handoff, takeover_conversation, after_mode, after_accept,
  pending_in,
}
use omni_crm_backend.Conversations.Transfers.Pending.{
  IsSinglePending, handoff-IsSinglePending, accept-IsSinglePending,
}

mode_transfers :
    (context : TenantContext) (conversation_id : ℕ) (mode : AiMode) (desk : Desk)
    → (set_conversation_mode context conversation_id mode desk).1.transfers ≡ desk.transfers
unfolding set_conversation_mode
mode_transfers context conversation_id mode desk = elim (Bool-cases (is_settable mode)) [
  | inr e ↦ rw e refl
  | inl e ↦
      rw e (of_transfers (first (in_tenant context.tenant_id conversation_id) desk.conversations))
]
  where
    of_transfers :
        (o : Option Conversation)
        → (set_mode_of context conversation_id mode desk o).1.transfers ≡ desk.transfers
    of_transfers none = refl
    of_transfers (some c) = elim (Bool-cases (is_outsider context c)) [
      | inl e ↦ rw e refl
      | inr e ↦ rw e refl
    ]

after_accept-IsSinglePending :
    (context : TenantContext) (conversation_id : ℕ) (before : Desk)
    (r : Outcome DeskError ConversationTransfer × Desk)
    → IsSinglePending before
    → IsSinglePending r.1
    → IsSinglePending (after_accept context conversation_id before r).1
unfolding after_accept
after_accept-IsSinglePending context conversation_id before (ok t, desk) h k = k
after_accept-IsSinglePending context conversation_id before (err e, desk) h k = h

after_mode-IsSinglePending :
    (now : ℕ) (context : TenantContext) (conversation_id : ℕ) (before : Desk)
    (r : Outcome DeskError Conversation × Desk)
    → IsSinglePending before
    → IsSinglePending r.1
    → IsSinglePending (after_mode now context conversation_id before r).1
unfolding after_mode
after_mode-IsSinglePending now context conversation_id before (err e, desk) h k = h
after_mode-IsSinglePending now context conversation_id before (ok c, desk) h k =
    elim (Option-cases (first (pending_in context.tenant_id conversation_id) desk.transfers)) [
      | inl e ↦ rw (e, after_mode) k
      | inr (t, e) ↦
          rw (e, after_mode)
            (after_accept-IsSinglePending context conversation_id before
              (accept_handoff now t.id context desk) h
              (accept-IsSinglePending now t.id context desk k))
    ]

takeover-IsSinglePending :
    (now : ℕ) (context : TenantContext) (conversation_id : ℕ) (desk : Desk)
    → IsSinglePending desk
    → IsSinglePending (takeover_conversation now context conversation_id desk).1
unfolding takeover_conversation
takeover-IsSinglePending now context conversation_id desk h =
    after_mode-IsSinglePending now context conversation_id desk
      (set_conversation_mode context conversation_id AiMode.human desk) h
      (λ t c. rw (mode_transfers context conversation_id AiMode.human desk) (h t c))

pub data Step (desk : Desk) : Desk → Type 0 where
  requested : (id : ℕ) (r : HandoffRequest) → Step desk (handoff id r desk).1
  accepted :
      (now transfer_id : ℕ) (context : TenantContext)
      → Step desk (accept_handoff now transfer_id context desk).1
  switched :
      (context : TenantContext) (conversation_id : ℕ) (mode : AiMode)
      → Step desk (set_conversation_mode context conversation_id mode desk).1
  taken_over :
      (now : ℕ) (context : TenantContext) (conversation_id : ℕ)
      → Step desk (takeover_conversation now context conversation_id desk).1

-- A request for a transfer, an acceptance, a change of the mode and a takeover, whether they raise
-- or not, keep to one waiting transfer for each conversation.
pub Step-IsSinglePending :
    {desk after : Desk} → Step desk after → IsSinglePending desk → IsSinglePending after
Step-IsSinglePending {desk} (requested id r) h = handoff-IsSinglePending id r desk h
Step-IsSinglePending {desk} (accepted now transfer_id context) h =
    accept-IsSinglePending now transfer_id context desk h
Step-IsSinglePending {desk} (switched context conversation_id mode) h =
    λ t c. rw (mode_transfers context conversation_id mode desk) (h t c)
Step-IsSinglePending {desk} (taken_over now context conversation_id) h =
    takeover-IsSinglePending now context conversation_id desk h
