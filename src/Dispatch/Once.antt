-- ===== src/Dispatch/Once.antt =====
-- A second dispatch of one message.
use omni_crm_backend.Prelude.{
  err, List, Outcome, ◌⊎◌, ℕ, ◌≡◌, refl, String, not, ◌||◌, inl, inr, Option, none, some,
  Bool-cases, first,
}
use omni_crm_backend.Conversations.{AuthorType, Conversation, Message, in_tenant}
use omni_crm_backend.Dispatch.{
  FlushError, has_identity, is_outbound, SendStore, SendingAsset, Reply, FreshIds, ResponderType,
  queued_row, close_response_window, close_for, close_window, responder_of, is_delivered,
  body_or_empty, answered,
}

window_messages :
    (now id : ℕ) (m : Message) (r : ResponderType) (db : SendStore) (c : Conversation)
    (w s : Option ℕ)
    → (close_window now id m r db c w s).desk.messages ≡ db.desk.messages
unfolding close_window
window_messages now id m r db c none none = refl
window_messages now id m r db c none (some s) = refl
window_messages now id m r db c (some w) none = refl
window_messages now id m r db c (some w) (some s) = refl

for_messages :
    (now id : ℕ) (m : Message) (db : SendStore) (r : Option ResponderType) (o : Option Conversation)
    → (close_for now id m db r o).desk.messages ≡ db.desk.messages
unfolding close_for
for_messages now id m db none none = refl
for_messages now id m db none (some c) = refl
for_messages now id m db (some r) none = refl
for_messages now id m db (some r) (some c) =
    window_messages now id m r db c c.response_window_id c.response_window_started_at

-- Closing a response window writes no message.
pub close_messages :
    (now id : ℕ) (m : Message) (db : SendStore)
    → (close_response_window now id m db).desk.messages ≡ db.desk.messages
unfolding close_response_window
close_messages now id m db =
    elim (Bool-cases (not (is_outbound m.direction) || not (is_delivered m.status))) [
      | inl e ↦ rw e refl
      | inr e ↦ rw e (
          for_messages now id m db (responder_of m.author_type)
            (first (in_tenant m.tenant_id m.conversation_id) db.desk.conversations))
    ]

-- The message waits no more.
abbrev pub IsSettled : ℕ → ℕ → SendStore → Type 0
IsSettled tenant_id message_id db = first (queued_row tenant_id message_id) db.desk.messages ≡ none

abbrev Clash : Message → String → List Message → Type 0
Clash m provider_id messages =
    (m.author_type ≡ AuthorType.system)
    ⊎ ((x : Message) × (first (has_identity m provider_id) messages ≡ some x))

module _ (now : ℕ) (ids : FreshIds) (send : SendingAsset → ℕ → String → Reply) (tenant_id : ℕ) where
  -- The database has refused a dispatch after the provider answered with an identifier that the
  -- message may not have: it is a system message, or another message has the identifier. All writes
  -- are rolled back.
  pub record Refused (m : Message) (before : SendStore)
      (r : Outcome FlushError (Option Message) × SendStore) : Type 0 where
    pub error : FlushError
    pub rolled_back : r ≡ (err error, before)
    pub asset : SendingAsset
    pub conversation : Conversation
    pub provider_id : String
    pub reply :
        send asset conversation.contact_id (body_or_empty m.body_text) ≡ answered (some provider_id)
    pub clash :
        (m.author_type ≡ AuthorType.system)
        ⊎ ((x : Message) × (first (has_identity m provider_id) before.desk.messages ≡ some x))

  abbrev Closed : Message → SendStore → Outcome FlushError (Option Message) × SendStore → Type 0
  Closed m before r = Refused m before r ⊎ IsSettled tenant_id m.id r.1
