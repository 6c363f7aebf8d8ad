-- ===== src/Webhooks/Tests.antt =====
-- The theorems on the inbox at concrete inputs.
use omni_crm_backend.Prelude.{
  inr, first, ◌+◌, ◌≡◌, refl, String, Bool, true, false, none, some, List, [], ◌∷◌, arith, ok,
  seconds, count,
}
use omni_crm_backend.Webhooks.{
  EventStatus, WebhookEvent, WebhookEnvelope, ChannelAsset, claim_webhook_event,
  complete_webhook_event, fail_webhook_event, redrive_webhook_event, persist_webhook_envelopes,
}
use omni_crm_backend.Webhooks.Validity.{IsValid, fail_total}
use omni_crm_backend.Webhooks.Steps.{here, next, claimed as claims, redriven, Reach-IsValid}
use omni_crm_backend.Webhooks.Held.{here, claims, fails}
use omni_crm_backend.Webhooks.Leases.{claim-claim, claim-complete_stale}
use omni_crm_backend.Webhooks.Ingress.{IsUnique, persist-IsUnique, persist-persist}

abbrev waiting : WebhookEvent
waiting = record {
  id = 7;
  provider = "meta";
  routing_external_id = "10";
  event_kind = "message";
  native_event_id = "m1";
  event_key = "meta|10|message|m1";
  tenant_id = some 9;
  channel_asset_id = some 3;
  status = EventStatus.received;
  payload = "{}";
  attempts = 0;
  lease_token = none;
  lease_expires_at = none;
  next_attempt_at = 5;
  error_code = none;
  received_at = 5;
  processed_at = none;
}

abbrev exhausted : WebhookEvent
exhausted = record waiting {
  id = 8;
  event_key = "meta|10|message|m2";
  status = EventStatus.dead_letter;
  attempts = 5;
}

abbrev failing : WebhookEvent
failing = record waiting {
  id = 9;
  event_key = "meta|10|message|m3";
  status = EventStatus.processing;
  attempts = 2;
  lease_token = some 77;
  lease_expires_at = some 100;
}

abbrev inbox : List WebhookEvent
inbox = waiting ∷ exhausted ∷ failing ∷ []

inbox-IsValid : IsValid inbox
inbox-IsValid = record {
  keyed = omega arith;
  rows = ((refl, refl), ((omega arith, refl), ((omega arith, refl, refl), tt)));
}

fail_total_example :
    ((handled : Bool) × ((fail_webhook_event 20 9 77 "E" inbox).0 ≡ ok handled))
    × IsValid (fail_webhook_event 20 9 77 "E" inbox).1
fail_total_example = fail_total 20 9 77 "E" inbox inbox-IsValid

claimed :
    (claim_webhook_event 6 50 7 inbox).0
    ≡ some (
      record waiting {
        status = EventStatus.processing;
        attempts = 1;
        lease_token = some 50;
        lease_expires_at = some (6 + seconds 60);
      },
      50,
    )
unfolding claim_webhook_event first
claimed = refl

-- Another worker fails the event with a token of its own, before the third claims it.
abbrev contested : List WebhookEvent
contested =
    (fail_webhook_event 8 7 49 "E"
      (claim_webhook_event 7 49 7 (claim_webhook_event 6 50 7 inbox).1).1).1

claim-claim_example : claim_webhook_event 60000000 51 7 contested ≡ (none, contested)
claim-claim_example =
    claim-claim 6 60000000 50 51 7 inbox {later = contested} claimed
      (fails 8 7 49 "E" (inr (omega arith)) (claims 7 49 7 (omega arith) here)) (omega arith)

claim-complete_stale_example :
    (complete_webhook_event 90 7 49 (claim_webhook_event 6 50 7 inbox).1
      ≡ (false, (claim_webhook_event 6 50 7 inbox).1))
    × ((code : String)
        → fail_webhook_event 90 7 49 code (claim_webhook_event 6 50 7 inbox).1
          ≡ (ok false, (claim_webhook_event 6 50 7 inbox).1))
claim-complete_stale_example = claim-complete_stale 6 90 50 49 7 inbox claimed (omega arith)

abbrev envelope : WebhookEnvelope
envelope = record {
  provider = "meta";
  routing_external_id = "10";
  event_kind = "message";
  native_event_id = "m1";
  payload = "{}";
}

abbrev asset : ChannelAsset
asset = record { id = 3; tenant_id = 9; meta_app_id = "app"; external_id = "10"; connected = true }

persist-IsUnique_example :
    IsUnique
      (persist_webhook_envelopes "app" (asset ∷ []) 5 ((7, envelope) ∷ (8, envelope) ∷ []) []).1
persist-IsUnique_example =
    persist-IsUnique "app" (asset ∷ []) 5 ((7, envelope) ∷ (8, envelope) ∷ []) []
      (λ k. unfold count in omega arith)

persist-persist_run :
    persist_webhook_envelopes "app"
      (asset ∷ [])
      9
      ((17, envelope) ∷ (18, envelope) ∷ [])
      (persist_webhook_envelopes "app" (asset ∷ []) 5 ((7, envelope) ∷ (8, envelope) ∷ []) []).1
    ≡ persist_webhook_envelopes "app" (asset ∷ []) 5 ((7, envelope) ∷ (8, envelope) ∷ []) []
persist-persist_run =
    persist-persist "app" (asset ∷ []) 5 9 (λ n. n + 10) ((7, envelope) ∷ (8, envelope) ∷ []) []

Reach-IsValid_example : IsValid (redrive_webhook_event 40 8 (claim_webhook_event 6 50 7 inbox).1).1
Reach-IsValid_example =
    Reach-IsValid (next (next here (claims 6 50 7)) (redriven 40 8)) inbox-IsValid
