-- ===== src/Conversations/Transfers/Once.antt =====
-- A request for a transfer that is made again gives the same transfer and changes nothing.
use mathlib.Core.Path.{subst}
use omni_crm_backend.Prelude.{
  sym, ◌∙◌, ℕ, ◌≡◌, refl, false, inl, inr, Option, none, some, arith, Outcome, ok, err, ◌==◌,
  ==_refl, first, update, Bool-cases, Option-cases,
}
use omni_crm_backend.Prelude.RowLaws.{first-append, first-update}
use omni_crm_backend.Conversations.{
  List, TenantContext, Conversation, ConversationTransfer, AiMode, Desk, DeskError, in_tenant,
  set_mode_row,
}
use omni_crm_backend.Conversations.Transfers.{
  HandoffRequest, handoff, handoff_of, request_transfer, resolve_tenant, is_outside, has_trigger,
  pending_in,
}

-- The conversation is found again after its control has changed.
conversation_kept :
    (tenant_id conversation_id : ℕ) (cs : List Conversation) {c : Conversation}
    → first (in_tenant tenant_id conversation_id) cs ≡ some c
    → first
        (in_tenant tenant_id conversation_id)
        (update (λ x. x.id == c.id) (set_mode_row AiMode.handoff_pending) cs)
      ≡ some (set_mode_row AiMode.handoff_pending c)
conversation_kept tenant_id conversation_id cs {c} h =
    rw
      (first-update (in_tenant tenant_id conversation_id) (λ x. x.id == c.id)
        (set_mode_row AiMode.handoff_pending) (λ x. ground arith) cs)
      (rw h (rw (==_refl c.id)))

-- What a second call makes of the database that the first one has written.
again_created :
    (id id' tenant_id : ℕ) (r : HandoffRequest) (desk : Desk) (c : Conversation)
    → first (in_tenant tenant_id r.conversation_id) desk.conversations ≡ some c
    → is_outside r.context c ≡ false
    → first (has_trigger tenant_id r.trigger_id) desk.transfers ≡ none
    → let desk' = (request_transfer id tenant_id r c desk).1 in
      handoff_of id' tenant_id r desk'
        (first (in_tenant tenant_id r.conversation_id) desk'.conversations)
      ≡ request_transfer id tenant_id r c desk
unfolding handoff_of request_transfer
again_created id id' tenant_id r desk c found inside new =
    rw (conversation_kept tenant_id r.conversation_id desk.conversations found) (
      rw (outside_kept r.context c) (
        rw inside (
          rw (first-append)
            (rw new (unfold first in rw (==_refl tenant_id, ==_refl r.trigger_id))))))
  where
    outside_kept :
        (o : Option TenantContext) (c : Conversation)
        → is_outside o (set_mode_row AiMode.handoff_pending c) ≡ is_outside o c
    outside_kept none c = refl
    outside_kept (some context) c = refl

-- The ways through `handoff_of`, which draws no identifier but in the last.
pub data Way (tenant_id : ℕ) (r : HandoffRequest) (desk : Desk) (o : Option Conversation)
    : Type 0 where
  settled :
      (x : Outcome DeskError ConversationTransfer)
      → ((id : ℕ) → handoff_of id tenant_id r desk o ≡ (x, desk))
      → Way tenant_id r desk o
  created :
      (c : Conversation)
      → o ≡ some c
      → is_outside r.context c ≡ false
      → first (has_trigger tenant_id r.trigger_id) desk.transfers ≡ none
      → first (pending_in tenant_id r.conversation_id) desk.transfers ≡ none
      → ((id : ℕ) → handoff_of id tenant_id r desk o ≡ request_transfer id tenant_id r c desk)
      → Way tenant_id r desk o

pub way :
    (tenant_id : ℕ) (r : HandoffRequest) (desk : Desk) (o : Option Conversation)
    → Way tenant_id r desk o
unfolding handoff_of
way tenant_id r desk none = settled (err DeskError.conversation_not_found) (λ id. refl)
way tenant_id r desk (some c) = elim (Bool-cases (is_outside r.context c)) [
  | inl t ↦ settled (err DeskError.resource_not_assigned) (λ id. rw t)
  | inr t ↦ elim (Option-cases (first (has_trigger tenant_id r.trigger_id) desk.transfers)) [
    | inr (x, e) ↦ settled (ok x) (λ id. rw t (rw e))
    | inl e ↦ elim (Option-cases (first (pending_in tenant_id r.conversation_id) desk.transfers)) [
      | inr (x, p) ↦ settled (ok x) (λ id. rw t (rw e (rw p)))
      | inl p ↦ created c refl t e p (λ id. rw t (rw e (rw p)))
    ]
  ]
]

handoff_of-again :
    (id id' tenant_id : ℕ) (r : HandoffRequest) (desk : Desk)
    → let o = first (in_tenant tenant_id r.conversation_id) desk.conversations in
      let desk' = (handoff_of id tenant_id r desk o).1 in
      handoff_of id' tenant_id r desk'
        (first (in_tenant tenant_id r.conversation_id) desk'.conversations)
      ≡ handoff_of id tenant_id r desk o
handoff_of-again id id' tenant_id r desk =
    elim (way tenant_id r desk (first (in_tenant tenant_id r.conversation_id) desk.conversations)) [
      | settled x h ↦ rw (h id) (h id')
      | created c found inside new none_open h ↦
          rw (h id) (again_created id id' tenant_id r desk c found inside new)
    ]

-- A request that is repeated, whatever identifier it draws, has the first one's result and leaves
-- the database as the first one left it.
pub handoff-handoff :
    (id id' : ℕ) (r : HandoffRequest) (desk : Desk)
    → handoff id' r (handoff id r desk).1 ≡ handoff id r desk
unfolding handoff
handoff-handoff id id' r desk = elim (Option-cases (resolve_tenant r.context r.tenant_id)) [
  | inl e ↦ subst (λ x. handoff id' r x.1 ≡ x) (sym (no_tenant id e)) (no_tenant id' e)
  | inr (tenant_id, e) ↦
      subst (λ x. handoff id' r x.1 ≡ x) (sym (resolved tenant_id e id desk))
        (resolved tenant_id e id' _ ∙ handoff_of-again id id' tenant_id r desk)
]
  where
    no_tenant :
        (id : ℕ)
        → resolve_tenant r.context r.tenant_id ≡ none
        → handoff id r desk ≡ (err DeskError.tenant_required, desk)
    no_tenant id e = rw (e, handoff)

    resolved :
        (tenant_id : ℕ)
        → resolve_tenant r.context r.tenant_id ≡ some tenant_id
        → (id : ℕ) (d : Desk)
        → handoff id r d
          ≡ handoff_of id tenant_id r d
              (first (in_tenant tenant_id r.conversation_id) d.conversations)
    resolved tenant_id e id d = rw (e, handoff)
