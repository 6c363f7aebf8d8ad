-- ===== src/Conversations/Transfers/Pending.antt =====
-- A conversation waits for one person at a time, and a takeover ends the wait.
use mathlib.Core.Path.{subst₂}
use omni_crm_backend.Prelude.{
  ==_iff, ℕ, ◌+◌, ◌≤◌, ◌≡◌, ◌&&◌, inl, inr, Option, none, some, List, [], ◌∷◌, arith, ◌==◌, first,
  count, Bool-cases, Option-cases,
}
use omni_crm_backend.Prelude.RowLaws.{count-append, count-update_le, count-zero_of_first}
use omni_crm_backend.Tenancy.{TenantContext}
use omni_crm_backend.Conversations.{Conversation, ConversationTransfer, Desk, in_tenant, is_pending}
use omni_crm_backend.Conversations.Transfers.{
  is_taken_by_other, HandoffRequest, handoff, request_transfer, accept_handoff, accept_of,
  accept_written, accept_row, resolve_tenant, pending_in, new_transfer,
}
use omni_crm_backend.Conversations.Transfers.Once.{settled, created, way}

-- No conversation has two transfers that wait.
abbrev pub IsSinglePending : Desk → Type 0
IsSinglePending desk =
    (tenant_id conversation_id : ℕ)
    → count (pending_in tenant_id conversation_id) desk.transfers ≤ 1

new_count :
    (tid cid id tenant_id : ℕ) (r : HandoffRequest) (ts : List ConversationTransfer)
    → count (pending_in tenant_id r.conversation_id) ts ≡ 0
    → count (pending_in tid cid) ts ≤ 1
    → count (pending_in tid cid) ts + count (pending_in tid cid) (new_transfer id tenant_id r ∷ [])
      ≤ 1
unfolding count
new_count tid cid id tenant_id r ts zeros h = elim (Bool-cases (tenant_id == tid)) [
  | inr e ↦ rw e (omega (arith, h))
  | inl e ↦ elim (Bool-cases (r.conversation_id == cid)) [
    | inr d ↦ rw (e, d) (omega (arith, h))
    | inl d ↦ rw (e, d) (same ((==_iff tenant_id tid).0 e) ((==_iff r.conversation_id cid).0 d))
  ]
]
  where
    same : tenant_id ≡ tid → r.conversation_id ≡ cid → count (pending_in tid cid) ts + 1 ≤ 1
    same p q = omega (arith, subst₂ (λ t c. count (pending_in t c) ts ≡ 0) p q zeros)

-- A request for a transfer keeps to one waiting transfer for each conversation.
pub handoff-IsSinglePending :
    (id : ℕ) (r : HandoffRequest) (desk : Desk)
    → IsSinglePending desk
    → IsSinglePending (handoff id r desk).1
unfolding handoff request_transfer
handoff-IsSinglePending id r desk h tid cid =
    elim (Option-cases (resolve_tenant r.context r.tenant_id)) [
      | inl e ↦ rw (e, handoff) (h tid cid)
      | inr (tenant_id, e) ↦
          rw (e, handoff)
            (elim (way tenant_id r desk
              (first (in_tenant tenant_id r.conversation_id) desk.conversations)) [
                | settled x step ↦ rw (step id) (h tid cid)
                | created c found inside new none_open step ↦ rw (step id) (
                    rw count-append (
                      new_count tid cid id tenant_id r desk.transfers
                        (count-zero_of_first (pending_in tenant_id r.conversation_id) desk.transfers
                          none_open)
                        (h tid cid)))
              ])
    ]

accept_of-count :
    (now : ℕ) (context : TenantContext) (desk : Desk) (t : ConversationTransfer)
    (o : Option Conversation) (tid cid : ℕ)
    → count (pending_in tid cid) (accept_of now context desk t o).1.transfers
      ≤ count (pending_in tid cid) desk.transfers
unfolding accept_of accept_written
accept_of-count now context desk t none tid cid = omega arith
accept_of-count now context desk t (some c) tid cid =
    elim (Bool-cases (is_taken_by_other context c)) [
      | inl e ↦ rw e (omega arith)
      | inr e ↦ rw e (
          count-update_le (pending_in tid cid) (λ x. x.id == t.id) (accept_row now)
            (λ x _. ground arith) desk.transfers)
    ]

-- An acceptance never adds a waiting transfer.
pub accept-IsSinglePending :
    (now transfer_id : ℕ) (context : TenantContext) (desk : Desk)
    → IsSinglePending desk
    → IsSinglePending (accept_handoff now transfer_id context desk).1
unfolding accept_handoff
accept-IsSinglePending now transfer_id context desk h tid cid =
    elim (Option-cases
      (first (λ t. t.id == transfer_id && t.tenant_id == context.tenant_id) desk.transfers)) [
        | inl e ↦ rw (e, accept_handoff) (h tid cid)
        | inr (t, e) ↦
            rw (e, accept_handoff)
              (elim (Bool-cases (is_pending t.status)) [
                | inr d ↦ rw d (h tid cid)
                | inl d ↦ rw d (
                    omega (
                      arith,
                      h tid cid,
                      accept_of-count now context desk t
                          (first (in_tenant context.tenant_id t.conversation_id) desk.conversations)
                          tid cid,
                    ))
              ])
      ]
