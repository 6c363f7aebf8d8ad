-- ===== src/Conversations/Outbound/Tests.antt =====
-- The theorems on messages that need consent at concrete inputs, and runs of the operations.
use omni_crm_backend.Prelude.{
  ◌≡◌, refl, String, true, false, none, some, [], ◌∷◌, ok, err, first, select,
}
use omni_crm_backend.Conversations.Outbound.Resolution.{resolve-resolve}
use omni_crm_backend.Conversations.{Desk, Channel, MessageStatus}
use omni_crm_backend.Conversations.Messages.{AuthorOrigin, MessageAuthor, create_message}
use omni_crm_backend.Conversations.Tests.{desk, chief, reply}
use omni_crm_backend.Conversations.Outbound.{
  ConsentRow, ConsentStatus, SendError, assert_proactive_send_allowed, has_active_consent,
  send_outbound_message, resolve_unknown_message,
}
use omni_crm_backend.Conversations.Outbound.Consent.{Consented, send_outbound_message-Consented}

abbrev given_at_first : ConsentRow
given_at_first = record {
  id = 1;
  tenant_id = 9;
  contact_id = 30;
  channel = Channel.whatsapp;
  purpose = "marketing";
  status = ConsentStatus.granted;
  captured_at = 100;
}

abbrev taken_back : ConsentRow
taken_back = record given_at_first { id = 2; status = ConsentStatus.revoked; captured_at = 200 }

abbrev campaign : MessageAuthor
campaign = record { origin = AuthorOrigin.automation; source_id = some 50; user_id = none }

abbrev digest : String → String
digest s = s

still_granted : has_active_consent 9 30 Channel.whatsapp "marketing" (given_at_first ∷ []) ≡ true
unfolding has_active_consent select
still_granted = refl

no_longer_granted :
    has_active_consent 9 30 Channel.whatsapp "marketing" (taken_back ∷ given_at_first ∷ []) ≡ false
unfolding has_active_consent select
no_longer_granted = refl

refused :
    (send_outbound_message digest 41 9 20 "hola" campaign "marketing" none true
      (taken_back ∷ given_at_first ∷ [])
      desk).0
    ≡ err SendError.consent_required
unfolding send_outbound_message has_active_consent assert_proactive_send_allowed first select
refused = refl

send_outbound_message-Consented_example : Consented 9 20 "marketing" (given_at_first ∷ []) desk
unfolding send_outbound_message has_active_consent assert_proactive_send_allowed first select
    create_message
send_outbound_message-Consented_example =
    send_outbound_message-Consented digest 41 9 20 "hola" campaign "marketing" none
      (given_at_first ∷ []) desk refl

-- The audited resolution: an operator's receipt marks the message sent, an unknown one only.
receipt_taken :
    (resolve_unknown_message chief 40
      (some "wamid-2")
      false
      false
      (record desk { messages = record reply { status = MessageStatus.unknown } ∷ [] })).0
    ≡ ok (record reply { provider_message_id = some "wamid-2"; status = MessageStatus.sent })
unfolding resolve_unknown_message first
receipt_taken = refl

abbrev lost : Desk
lost = record desk { messages = record reply { status = MessageStatus.unknown } ∷ [] }

resolve-resolve_example :
    resolve_unknown_message chief 40 none true true
      (resolve_unknown_message chief 40 (some "wamid-2") false false lost).1
    ≡ (
      err SendError.is_not_unknown,
      (resolve_unknown_message chief 40 (some "wamid-2") false false lost).1,
    )
resolve-resolve_example =
    resolve-resolve chief 40 (some "wamid-2") none false false true true lost
      {m = record reply { provider_message_id = some "wamid-2"; status = MessageStatus.sent }}
      receipt_taken
