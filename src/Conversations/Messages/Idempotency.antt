-- ===== src/Conversations/Messages/Idempotency.antt =====
-- A send request with an idempotency key stores one message, however often it comes.
use text.Mathlib.TextPositions.{eq_refl}
use omni_crm_backend.Prelude.{
  ℕ, ◌≡◌, refl, sym, String, true, inl, inr, Option, none, some, arith, ok, ==_refl, first,
  Bool-cases,
}
use omni_crm_backend.Prelude.RowLaws.{first-append}
use omni_crm_backend.Tenancy.{TenantContext}
use omni_crm_backend.Conversations.{Conversation, Message, Desk, in_tenant, is_outsider}
use omni_crm_backend.Conversations.Messages.{
  create_send_intent, send_to, settle, earlier, intent, message_of, create_message, given,
  text_holds, with_key,
}

module _ (sha256 : String → String) (context : TenantContext) (c : Conversation) (key : String)
    (named : given (some key) ≡ true) where
  earlier_named :
      (desk : Desk)
      → earlier sha256 context c (some key) desk
        ≡ first (with_key context.tenant_id c.id key) desk.messages
  unfolding earlier
  earlier_named desk = rw named

  -- What a request under the key finds behind one that has succeeded.
  abbrev Kept : String → Desk → Desk → Message → Type 0
  Kept body desk desk' m =
      (first (with_key context.tenant_id c.id key) desk'.messages ≡ some m)
      × (text_holds m.client_request_hash (sha256 body) ≡ true)
      × (desk'.conversations ≡ desk.conversations)

  settle-Kept :
      (id : ℕ) (body : String) (desk : Desk) (o : Option Message) {m : Message}
      → first (with_key context.tenant_id c.id key) desk.messages ≡ o
      → (settle sha256 id context c body (some key) desk o).0 ≡ ok m
      → Kept body desk (settle sha256 id context c body (some key) desk o).1 m
  unfolding settle create_message
  settle-Kept id body desk (some old) {m} found h =
      elim (Bool-cases (text_holds old.client_request_hash (sha256 body))) [
        | inr e ↦ absurd (ground (arith, e))
        | inl e ↦ let same : old ≡ m = ground (arith, e) in rw e (rw (← same) (found, e, refl))
      ]
  settle-Kept id body desk none {m} found h =
      let same : message_of id (intent sha256 context c body (some key)) ≡ m = cc in
      rw (← same) (
        rw first-append (
            rw found
              (unfold first in rw (==_refl context.tenant_id, ==_refl c.id) (rw (eq_refl key)))),
        rw named (eq_refl (sha256 body)),
        refl,
      )

  settle_again :
      (id : ℕ) (body : String) (desk : Desk) {m : Message}
      → first (with_key context.tenant_id c.id key) desk.messages ≡ some m
      → text_holds m.client_request_hash (sha256 body) ≡ true
      → settle sha256 id context c body (some key) desk (earlier sha256 context c (some key) desk)
        ≡ (ok m, desk)
  unfolding settle
  settle_again id body desk found hash = rw (earlier_named desk) (rw (found, settle) (rw hash))

module _ (sha256 : String → String) (context : TenantContext) (key : String)
    (named : given (some key) ≡ true) where
  send_again :
      (id id' conversation_id : ℕ) (body : String) (desk : Desk) (o : Option Conversation)
      {m : Message}
      → first (in_tenant context.tenant_id conversation_id) desk.conversations ≡ o
      → (send_to sha256 id context body (some key) desk o).0 ≡ ok m
      → create_send_intent sha256 id' context conversation_id body
          (some key)
          (send_to sha256 id context body (some key) desk o).1
        ≡ (ok m, (send_to sha256 id context body (some key) desk o).1)
  unfolding send_to create_send_intent
  send_again id id' conversation_id body desk none found h = absurd (cc)
  send_again id id' conversation_id body desk (some c) {m} found h =
      elim (Bool-cases (is_outsider context c)) [
        | inl e ↦ absurd (ground (arith, e))
        | inr e ↦
            let sent : (settle sha256 id context c body (some key) desk
                  (earlier sha256 context c (some key) desk)).0
                ≡ ok m =
              rw e at h in
            let kept =
              settle-Kept sha256 context c key named id body desk
                (earlier sha256 context c (some key) desk)
                (sym (earlier_named sha256 context c key named desk)) sent in
            rw e (
              rw kept.2 (
                rw found (
                  rw (e, send_to)
                    (settle_again sha256 context c key named id' body _ kept.0 kept.1))))
      ]

  -- A request that comes again with its key and text gives the message of the first time and
  -- stores nothing.
  pub send-send :
      (id id' conversation_id : ℕ) (body : String) (desk : Desk) {m : Message}
      → (create_send_intent sha256 id context conversation_id body (some key) desk).0 ≡ ok m
      → create_send_intent sha256 id' context conversation_id body
          (some key)
          (create_send_intent sha256 id context conversation_id body (some key) desk).1
        ≡ (ok m, (create_send_intent sha256 id context conversation_id body (some key) desk).1)
  unfolding create_send_intent
  send-send id id' conversation_id body desk h =
      send_again id id' conversation_id body desk
        (first (in_tenant context.tenant_id conversation_id) desk.conversations) refl h
