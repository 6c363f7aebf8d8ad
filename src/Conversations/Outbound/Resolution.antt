-- ===== src/Conversations/Outbound/Resolution.antt =====
-- The fate of a message is settled by an operator once.
use omni_crm_backend.Prelude.{
  ℕ, ◌≡◌, refl, String, Bool, false, ◌&&◌, inl, inr, Option, none, some, List, arith, ok, err, ◌==◌,
  ==_refl, Bool-cases, first, update,
}
use omni_crm_backend.Prelude.RowLaws.{first-update}
use omni_crm_backend.Tenancy.{TenantContext}
use omni_crm_backend.Conversations.{Conversation, Message, Desk, in_tenant, is_outsider}
use omni_crm_backend.Conversations.Messages.{given}
use omni_crm_backend.Conversations.Outbound.{
  is_not_unknown, is_unknown, resolve_unknown_message, resolve_found, resolve, of_tenant, received,
  requeued,
}

module _ (context : TenantContext) (message_id : ℕ) where
  -- The message is found again, settled, and its conversation still admits the operator.
  record Settled (desk : Desk) : Type 0 where
    pub message : Message
    pub found : first (of_tenant context.tenant_id message_id) desk.messages ≡ some message
    pub settled : is_unknown message.status ≡ false
    pub conversation : Conversation
    pub owned :
        first (in_tenant context.tenant_id message.conversation_id) desk.conversations
        ≡ some conversation
    pub admitted : is_outsider context conversation ≡ false

  second_refused :
      (receipt : Option String) (resend acknowledged : Bool) (desk : Desk)
      → Settled desk
      → resolve_unknown_message context message_id receipt resend acknowledged desk
        ≡ (err is_not_unknown, desk)
  unfolding resolve_unknown_message
  second_refused receipt resend acknowledged desk s =
      rw s.found (
        unfold resolve_found in
        (rw s.owned (unfold resolve in (rw s.admitted (rw s.settled refl)))))

  found_again :
      (f : Message → Message)
      → ((m : Message) → (f m).id ≡ m.id)
      → ((m : Message) → (f m).tenant_id ≡ m.tenant_id)
      → (messages : List Message) {m : Message}
      → first (of_tenant context.tenant_id message_id) messages ≡ some m
      → first (of_tenant context.tenant_id message_id) (update (λ x. x.id == m.id) f messages)
        ≡ some (f m)
  found_again f same_id same_tenant messages {m} found =
      rw
        (first-update (of_tenant context.tenant_id message_id) (λ x. x.id == m.id) f
          (λ x. ground (arith, same_id x, same_tenant x)) messages)
        (rw found (rw (==_refl m.id)))

  resolve-Settled :
      (receipt : Option String) (resend acknowledged : Bool) (m : Message) (desk : Desk)
      (o : Option Conversation) {r : Message}
      → first (of_tenant context.tenant_id message_id) desk.messages ≡ some m
      → first (in_tenant context.tenant_id m.conversation_id) desk.conversations ≡ o
      → (resolve context receipt resend acknowledged m desk o).0 ≡ ok r
      → Settled (resolve context receipt resend acknowledged m desk o).1
  unfolding resolve
  resolve-Settled receipt resend acknowledged m desk none found owned h = absurd (cc)
  resolve-Settled receipt resend acknowledged m desk (some c) found owned h =
      elim (Bool-cases (is_outsider context c)) [
        | inl e ↦ absurd (cc (rw e at h))
        | inr e ↦ elim (Bool-cases (is_unknown m.status)) [
          | inr u ↦ absurd (cc (rw (e, u) at h))
          | inl u ↦ elim (Bool-cases (given receipt)) [
            | inl g ↦
                rw (e, u)
                  (rw g record {
                    message = received receipt m;
                    found =
                        found_again (received receipt) (λ x. refl) (λ x. refl) desk.messages found;
                    settled = refl;
                    conversation = c;
                    owned = owned;
                    admitted = e;
                  })
            | inr g ↦ elim (Bool-cases (resend && acknowledged)) [
              | inr a ↦ absurd (cc (rw (e, u, g, a) at h))
              | inl a ↦
                  rw (e, u)
                    (rw (g, a)
                      record {
                        message = requeued m;
                        found = found_again requeued (λ x. refl) (λ x. refl) desk.messages found;
                        settled = refl;
                        conversation = c;
                        owned = owned;
                        admitted = e;
                      })
            ]
          ]
        ]
      ]

  resolved-Settled :
      (receipt : Option String) (resend acknowledged : Bool) (desk : Desk) (o : Option Message)
      {r : Message}
      → first (of_tenant context.tenant_id message_id) desk.messages ≡ o
      → (resolve_found context receipt resend acknowledged desk o).0 ≡ ok r
      → Settled (resolve_found context receipt resend acknowledged desk o).1
  unfolding resolve_found
  resolved-Settled receipt resend acknowledged desk none found h = absurd (cc)
  resolved-Settled receipt resend acknowledged desk (some m) found h =
      resolve-Settled receipt resend acknowledged m desk
        (first (in_tenant context.tenant_id m.conversation_id) desk.conversations) found refl h

  -- Once an operator has resolved a message of unknown fate, by a receipt or by a resend whose
  -- risk is acknowledged, a second resolution of it by the same operator is refused, whatever it
  -- asks for, and writes nothing.
  pub resolve-resolve :
      (receipt receipt' : Option String) (resend acknowledged resend' acknowledged' : Bool)
      (desk : Desk) {m : Message}
      → (resolve_unknown_message context message_id receipt resend acknowledged desk).0 ≡ ok m
      → resolve_unknown_message context message_id receipt' resend' acknowledged'
          (resolve_unknown_message context message_id receipt resend acknowledged desk).1
        ≡ (
          err is_not_unknown,
          (resolve_unknown_message context message_id receipt resend acknowledged desk).1,
        )
  resolve-resolve receipt receipt' resend acknowledged resend' acknowledged' desk h =
      second_refused receipt' resend' acknowledged'
        (resolve_unknown_message context message_id receipt resend acknowledged desk).1
        (unfold resolve_unknown_message in
          resolved-Settled receipt resend acknowledged desk
            (first (of_tenant context.tenant_id message_id) desk.messages) refl h)
