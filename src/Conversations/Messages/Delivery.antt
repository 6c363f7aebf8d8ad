-- ===== src/Conversations/Messages/Delivery.antt =====
-- What a delivery report does to a message.
use omni_crm_backend.Prelude.{
  Option, ℕ, ◌≡◌, refl, String, true, false, ◌⊎◌, inl, inr, some, arith, Outcome, ok, err, ◌==◌,
  first, update,
}
use omni_crm_backend.Conversations.{
  Message, MessageStatus, Desk, DeskError, unsupported_delivery_status,
}
use omni_crm_backend.Conversations.Messages.{
  apply_whatsapp_delivery_status, report, of_provider, is_delivery, goes_back,
}

-- The statuses that a provider reports.
abbrev pub IsReported : MessageStatus → Type 0
IsReported status =
    ((status ≡ MessageStatus.sent) ⊎ (status ≡ MessageStatus.delivered))
    ⊎ ((status ≡ MessageStatus.read) ⊎ (status ≡ MessageStatus.failed))

-- A report comes late if the message is known to have gone further: to have been delivered, or read,
-- before a report that it was sent, or read before a report that it was delivered.
abbrev pub IsLate : MessageStatus → MessageStatus → Type 0
IsLate status stored =
    ((status ≡ MessageStatus.sent)
      × ((stored ≡ MessageStatus.delivered) ⊎ (stored ≡ MessageStatus.read)))
    ⊎ ((status ≡ MessageStatus.delivered) × (stored ≡ MessageStatus.read))

-- What the report of a provider makes of the message: a report of another kind is refused and a
-- late one has no effect; any other writes its status on the message and nothing else.
abbrev pub Tracked :
    MessageStatus → Desk → Message → Outcome DeskError (Option Message) × Desk → Type 0
Tracked status desk m r =
    ((¬ IsReported status) × (r ≡ (err unsupported_delivery_status, desk)))
    ⊎ (IsReported status × IsLate status m.status × (r ≡ (ok (some m), desk)))
    ⊎ (IsReported status
        × ¬ IsLate status m.status
        × (r ≡ (
          ok (some (record m { status = status })),
          record desk {
            messages = update (λ x. x.id == m.id) (λ x. record x { status = status }) desk.messages;
          },
        )))

IsReported-iff :
    (status : MessageStatus)
    → ((is_delivery status ≡ true) × IsReported status)
      ⊎ ((is_delivery status ≡ false) × ¬ IsReported status)
IsReported-iff MessageStatus.sent = inl (refl, inl (inl refl))
IsReported-iff MessageStatus.delivered = inl (refl, inl (inr refl))
IsReported-iff MessageStatus.read = inl (refl, inr (inl refl))
IsReported-iff MessageStatus.failed = inl (refl, inr (inr refl))
IsReported-iff MessageStatus.queued = inr (refl, λ r. ground (arith, r))
IsReported-iff MessageStatus.dispatching = inr (refl, λ r. ground (arith, r))
IsReported-iff MessageStatus.unknown = inr (refl, λ r. ground (arith, r))
IsReported-iff MessageStatus.cancelled = inr (refl, λ r. ground (arith, r))

IsLate-iff :
    (status stored : MessageStatus)
    → is_delivery status ≡ true
    → ((goes_back status stored ≡ true) × IsLate status stored)
      ⊎ ((goes_back status stored ≡ false) × ¬ IsLate status stored)
IsLate-iff MessageStatus.queued stored h = absurd (cc)
IsLate-iff MessageStatus.dispatching stored h = absurd (cc)
IsLate-iff MessageStatus.unknown stored h = absurd (cc)
IsLate-iff MessageStatus.cancelled stored h = absurd (cc)
IsLate-iff MessageStatus.failed stored h = inr (refl, λ late. ground (arith, late))
IsLate-iff MessageStatus.read stored h = inr (ground arith, λ late. ground (arith, late))
IsLate-iff MessageStatus.sent MessageStatus.delivered h = inl (refl, inl (refl, inl refl))
IsLate-iff MessageStatus.sent MessageStatus.read h = inl (refl, inl (refl, inr refl))
IsLate-iff MessageStatus.delivered MessageStatus.read h = inl (refl, inr (refl, refl))
IsLate-iff MessageStatus.sent MessageStatus.queued h = inr (refl, λ late. ground (arith, late))
IsLate-iff MessageStatus.sent MessageStatus.dispatching h = inr (refl, λ late. ground (arith, late))
IsLate-iff MessageStatus.sent MessageStatus.sent h = inr (refl, λ late. ground (arith, late))
IsLate-iff MessageStatus.sent MessageStatus.failed h = inr (refl, λ late. ground (arith, late))
IsLate-iff MessageStatus.sent MessageStatus.unknown h = inr (refl, λ late. ground (arith, late))
IsLate-iff MessageStatus.sent MessageStatus.cancelled h = inr (refl, λ late. ground (arith, late))
IsLate-iff MessageStatus.delivered MessageStatus.queued h = inr (refl, λ late. ground (arith, late))
IsLate-iff MessageStatus.delivered MessageStatus.dispatching h =
    inr (refl, λ late. ground (arith, late))
IsLate-iff MessageStatus.delivered MessageStatus.sent h = inr (refl, λ late. ground (arith, late))
IsLate-iff MessageStatus.delivered MessageStatus.delivered h =
    inr (refl, λ late. ground (arith, late))
IsLate-iff MessageStatus.delivered MessageStatus.failed h = inr (refl, λ late. ground (arith, late))
IsLate-iff MessageStatus.delivered MessageStatus.unknown h =
    inr (refl, λ late. ground (arith, late))
IsLate-iff MessageStatus.delivered MessageStatus.cancelled h =
    inr (refl, λ late. ground (arith, late))

report-Tracked :
    (status : MessageStatus) (desk : Desk) (m : Message)
    → Tracked status desk m (report status desk m)
unfolding report
report-Tracked status desk m = elim (IsReported-iff status) [
  | inr (e, other) ↦ inl (other, rw e refl)
  | inl (e, reported) ↦ elim (IsLate-iff status m.status e) [
    | inl (back, late) ↦ inr (inl (reported, late, rw e (rw back refl)))
    | inr (on, timely) ↦ inr (inr (reported, timely, rw e (rw on refl)))
  ]
]

-- A report on a message that is found is refused with nothing written, unless it says sent,
-- delivered, read or failed; it has no effect if it says sent of a message that was delivered or
-- read, or delivered of one that was read; and any other writes its status on the message and
-- nothing else.
pub delivery-Tracked :
    (tenant_id asset_id : ℕ) (provider_id : String) (status : MessageStatus) (desk : Desk)
    {m : Message}
    → first (of_provider tenant_id asset_id provider_id) desk.messages ≡ some m
    → Tracked status desk m
        (apply_whatsapp_delivery_status tenant_id asset_id provider_id status desk)
unfolding apply_whatsapp_delivery_status
delivery-Tracked tenant_id asset_id provider_id status desk {m} found =
    rw (found, apply_whatsapp_delivery_status) (report-Tracked status desk m)
