-- ===== src/Conversations/Control.antt =====
-- What setting the mode of a conversation does, and who may.
use omni_crm_backend.Prelude.{
  ℕ, ◌+◌, ◌≡◌, refl, false, inl, inr, Option, none, some, List, arith, ok, err, ◌==◌, ==_refl,
  first, update, count, Bool-cases,
}
use omni_crm_backend.Prelude.RowLaws.{first-update, count-none_of_All, All-update_where}
use omni_crm_backend.Tenancy.{TenantContext}
use omni_crm_backend.Conversations.{
  Conversation, Message, AiMode, MessageStatus, Desk, DeskError, in_tenant, is_outsider,
  set_conversation_mode, set_mode_of, mode_written, set_mode_row, is_settable, queued_ai,
  cancel_queued,
}

-- Nothing that the AI has written waits to be sent in the conversation.
pub cancel-count :
    (tenant_id conversation_id : ℕ) (ms : List Message)
    → count (queued_ai tenant_id conversation_id) (cancel_queued tenant_id conversation_id ms) ≡ 0
cancel-count tenant_id conversation_id ms =
    count-none_of_All (queued_ai tenant_id conversation_id)
      (cancel_queued tenant_id conversation_id ms)
      (All-update_where (λ m. queued_ai tenant_id conversation_id m ≡ false)
        (queued_ai tenant_id conversation_id) (λ m. record m { status = MessageStatus.cancelled })
        (λ m _. ground arith) (λ m e. e) ms)

-- What a call that succeeds has done: the row that is returned is the one in the table, its mode
-- is the one asked for, its version is the next one, and a human finds no AI message waiting.
pub record IsSwitched (context : TenantContext) (conversation_id : ℕ) (mode : AiMode)
    (before after : Desk) (c : Conversation) : Type 0 where
  pub old : Conversation
  pub was : first (in_tenant context.tenant_id conversation_id) before.conversations ≡ some old
  pub inside : is_outsider context old ≡ false
  pub now_is : first (in_tenant context.tenant_id conversation_id) after.conversations ≡ some c
  pub mode_set : c.ai_mode ≡ mode
  pub version : c.control_version ≡ old.control_version + 1
  pub silent :
      mode ≡ AiMode.human → count (queued_ai context.tenant_id conversation_id) after.messages ≡ 0
  pub transfers : after.transfers ≡ before.transfers

module _ (context : TenantContext) (conversation_id : ℕ) (mode : AiMode) (desk : Desk) where
  row_after :
      {old : Conversation}
      → first (in_tenant context.tenant_id conversation_id) desk.conversations ≡ some old
      → first
          (in_tenant context.tenant_id conversation_id)
          (update (λ r. r.id == old.id) (set_mode_row mode) desk.conversations)
        ≡ some (set_mode_row mode old)
  row_after {old} h =
      rw
        (first-update (in_tenant context.tenant_id conversation_id) (λ r. r.id == old.id)
          (set_mode_row mode) (λ x. ground arith) desk.conversations)
        (rw h (rw (==_refl old.id)))

  switched :
      (o : Option Conversation) {c : Conversation}
      → first (in_tenant context.tenant_id conversation_id) desk.conversations ≡ o
      → (set_mode_of context conversation_id mode desk o).0 ≡ ok c
      → IsSwitched context conversation_id mode desk
          (set_mode_of context conversation_id mode desk o).1
          c
  unfolding set_mode_of mode_written
  switched none found h = absurd (cc)
  switched (some old) {c} found h = elim (Bool-cases (is_outsider context old)) [
    | inl e ↦ absurd (ground (arith, e))
    | inr e ↦
        let same : set_mode_row mode old ≡ c = ground (arith, e) in
        rw e (record {
          old = old;
          was = found;
          inside = e;
          now_is = rw (← same) (row_after found);
          mode_set = rw (← same);
          version = rw (← same);
          silent = λ human. rw human (cancel-count context.tenant_id conversation_id desk.messages);
          transfers = refl;
        })
  ]

  -- Setting the mode succeeds only on a conversation of the tenant that the caller may control.
  pub set_mode_sound :
      {c : Conversation}
      → (set_conversation_mode context conversation_id mode desk).0 ≡ ok c
      → IsSwitched context conversation_id mode desk
          (set_conversation_mode context conversation_id mode desk).1
          c
  unfolding set_conversation_mode
  set_mode_sound h = elim (Bool-cases (is_settable mode)) [
    | inr e ↦ absurd (ground (arith, e))
    | inl e ↦ rw e (
        switched (first (in_tenant context.tenant_id conversation_id) desk.conversations) refl
          (rw e at h))
  ]

  -- A call that raises has changed nothing.
  pub set_mode_failed :
      {e : DeskError}
      → (set_conversation_mode context conversation_id mode desk).0 ≡ err e
      → (set_conversation_mode context conversation_id mode desk).1 ≡ desk
  unfolding set_conversation_mode set_mode_of
  set_mode_failed h = ground arith
