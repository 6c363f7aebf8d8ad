-- ===== src/Dispatch/Fence.antt =====
-- A person who has taken a conversation is not spoken over: no AI message of it reaches a provider.
use omni_crm_backend.Prelude.{
  ℕ, ◌≡◌, refl, String, true, false, ◌&&◌, Option, none, some, arith, ok, ◌==◌, first,
}
use omni_crm_backend.Tenancy.{TenantContext}
use omni_crm_backend.Conversations.{
  Conversation, Message, AiMode, Desk, in_tenant, is_ai, set_conversation_mode,
}
use omni_crm_backend.Conversations.Control.{set_mode_sound}
use omni_crm_backend.Dispatch.{
  SendStore, SendingAsset, Reply, FreshIds, dispatch_queued_message, dispatch_of, queued_row,
  is_fenced, is_active, save,
}

module _ (now : ℕ) (ids : FreshIds) (send : SendingAsset → ℕ → String → Reply) where
  fenced_quiet :
      (m : Message) (db : SendStore) (c : Conversation) (a : Option SendingAsset)
      → is_fenced m c ≡ true
      → (dispatch_of now ids send m db (some c) a).1.attempts ≡ db.attempts
  unfolding dispatch_of save
  fenced_quiet m db c none e = refl
  fenced_quiet m db c (some a) e = rw e refl

  -- While the AI does not control a conversation, dispatching one of its AI messages starts no
  -- attempt.
  pub dispatch_fenced :
      (tenant_id message_id : ℕ) (db : SendStore) (m : Message) (c : Conversation)
      → first (queued_row tenant_id message_id) db.desk.messages ≡ some m
      → is_ai m.author_type ≡ true
      → first (in_tenant tenant_id m.conversation_id) db.desk.conversations ≡ some c
      → is_active c.ai_mode ≡ false
      → (dispatch_queued_message now ids send tenant_id message_id db).1.attempts ≡ db.attempts
  unfolding dispatch_queued_message
  dispatch_fenced tenant_id message_id db m c found author owner held =
      let fenced : is_fenced m c ≡ true = ground (arith, author, held) in
      rw (found, dispatch_queued_message)
        (rw owner (
          fenced_quiet m db c
            (first (λ a. a.id == m.channel_asset_id && a.tenant_id == tenant_id) db.assets) fenced))

  -- After a person has taken control of a conversation, and while its row stays as it is then,
  -- dispatching an AI message that has been queued in it since starts no attempt.
  pub set_mode-dispatch_fenced :
      (context : TenantContext) (conversation_id message_id : ℕ) (desk : Desk) (db : SendStore)
      (m : Message) {c : Conversation}
      → (set_conversation_mode context conversation_id AiMode.human desk).0 ≡ ok c
      → db.desk.conversations
        ≡ (set_conversation_mode context conversation_id AiMode.human desk).1.conversations
      → first (queued_row context.tenant_id message_id) db.desk.messages ≡ some m
      → m.conversation_id ≡ conversation_id
      → is_ai m.author_type ≡ true
      → (dispatch_queued_message now ids send context.tenant_id message_id db).1.attempts
        ≡ db.attempts
  set_mode-dispatch_fenced context conversation_id message_id desk db m {c} taken kept found here
        author =
      let s = set_mode_sound context conversation_id AiMode.human desk taken in
      dispatch_fenced context.tenant_id message_id db m c found author (rw (here, kept) s.now_is)
        (rw (s.mode_set) refl)
