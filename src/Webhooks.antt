-- ===== src/Webhooks.antt =====
-- app/services/webhook_events.py and webhook_ingress.py: the inbox of provider events, its leases
-- and its retries. A lease token is a number, since the code only compares it. Clock readings and
-- fresh tokens and identifiers are arguments. A payload is carried along as its JSON text.
pub mod Validity
pub mod Held
pub mod Leases
pub mod Ingress
pub mod Steps
mod Tests
use Prim.Native.String.{◌++◌ as ◌++ₜ◌}
use text.Mathlib.Text.{◌==◌ as str_eq}
use omni_crm_backend.Prelude.{
  ℕ, zero, suc, ◌+◌, String, Bool, true, false, ◌&&◌, ◌||◌, Option, none, some, List, [], ◌∷◌,
  Outcome, ok, err, seconds, leb, ◌==◌, holds, is_some, if◌then◌else◌, first, update, insert,
}

pub data EventStatus : Type 0 where
  received quarantined processing processed failed dead_letter : EventStatus

pub record WebhookEvent : Type 0 where
  pub id : ℕ
  pub provider : String
  pub routing_external_id : String
  pub event_kind : String
  pub native_event_id : String
  pub event_key : String
  pub tenant_id : Option ℕ
  pub channel_asset_id : Option ℕ
  pub status : EventStatus
  pub payload : String
  pub attempts : ℕ
  pub lease_token : Option ℕ
  pub lease_expires_at : Option ℕ
  pub next_attempt_at : ℕ
  pub error_code : Option String
  pub received_at : ℕ
  pub processed_at : Option ℕ

abbrev pub is_processing : EventStatus → Bool
is_processing EventStatus.processing = true
is_processing _ = false

-- status IN ('received', 'failed')
abbrev pub is_waiting : EventStatus → Bool
is_waiting EventStatus.received = true
is_waiting EventStatus.failed = true
is_waiting _ = false

-- status IN ('dead_letter', 'processed')
abbrev pub is_final : EventStatus → Bool
is_final EventStatus.dead_letter = true
is_final EventStatus.processed = true
is_final _ = false

abbrev pub is_dead_letter : EventStatus → Bool
is_dead_letter EventStatus.dead_letter = true
is_dead_letter _ = false

abbrev pub lease_seconds : ℕ
lease_seconds = 60

-- BACKOFF_SECONDS[attempts - 1]. Python reads the last entry at the index -1; `none` is an
-- IndexError.
abbrev pub backoff_seconds : ℕ → Option ℕ
backoff_seconds zero = some 1800
backoff_seconds (suc zero) = some 5
backoff_seconds (suc (suc zero)) = some 30
backoff_seconds (suc (suc (suc zero))) = some 120
backoff_seconds (suc (suc (suc (suc zero)))) = some 600
backoff_seconds (suc (suc (suc (suc (suc zero))))) = some 1800
backoff_seconds (suc (suc (suc (suc (suc (suc n)))))) = none

abbrev pub backoff_length : ℕ
backoff_length = 5

-- lease_expires_at <= now, where a NULL meets no comparison
abbrev pub is_past : Option ℕ → ℕ → Bool
is_past none now = false
is_past (some t) now = leb t now

abbrev pub claimable : ℕ → ℕ → WebhookEvent → Bool
claimable now event_id e =
    e.id == event_id
    && ((is_waiting e.status || (is_processing e.status && is_past e.lease_expires_at now))
        && leb e.next_attempt_at now)

abbrev pub lease : ℕ → ℕ → WebhookEvent → WebhookEvent
lease now token e = record e {
  status = EventStatus.processing;
  attempts = e.attempts + 1;
  lease_token = some token;
  lease_expires_at = some (now + seconds lease_seconds);
}

pub claim_webhook_event :
    ℕ → ℕ → ℕ → List WebhookEvent → Option (WebhookEvent × ℕ) × List WebhookEvent
claim_webhook_event now token event_id events = elim (first (claimable now event_id) events) [
  | none ↦ (none, events)
  | some e ↦
      if is_final e.status
      then (none, events)
      else (some (lease now token e, token), update (λ r. r.id == e.id) (lease now token) events)
]

abbrev pub leased : ℕ → ℕ → WebhookEvent → Bool
leased event_id token e = e.id == event_id && (is_processing e.status && holds e.lease_token token)

pub complete_webhook_event : ℕ → ℕ → ℕ → List WebhookEvent → Bool × List WebhookEvent
complete_webhook_event now event_id token events = elim (first (leased event_id token) events) [
  | none ↦ (false, events)
  | some e ↦ (
    true,
    update (λ r. r.id == e.id)
        (λ r. record r {
          status = EventStatus.processed;
          lease_expires_at = none;
          processed_at = some now;
        })
        events,
  )
]

pub data IndexError : Type 0 where
  index_error : IndexError

-- The writes to the row of an event that has failed: a dead letter, or a retry after `delay`.
abbrev pub bury : String → WebhookEvent → WebhookEvent
bury code r = record r {
  status = EventStatus.dead_letter;
  lease_expires_at = none;
  error_code = some code;
}

abbrev pub postpone : ℕ → ℕ → String → WebhookEvent → WebhookEvent
postpone now delay code r = record r {
  status = EventStatus.failed;
  lease_expires_at = none;
  next_attempt_at = now + seconds delay;
  error_code = some code;
}

retry :
    ℕ
    → String
    → WebhookEvent
    → List WebhookEvent
    → Option ℕ
    → Outcome IndexError Bool × List WebhookEvent
retry now code e events none = (err index_error, events)
retry now code e events (some delay) =
    (ok true, update (λ r. r.id == e.id) (postpone now delay code) events)

pub fail_webhook_event :
    ℕ → ℕ → ℕ → String → List WebhookEvent → Outcome IndexError Bool × List WebhookEvent
unfolding retry
fail_webhook_event now event_id token code events = elim (first (leased event_id token) events) [
  | none ↦ (ok false, events)
  | some e ↦
      if leb backoff_length e.attempts
      then (ok true, update (λ r. r.id == e.id) (bury code) events)
      else retry now code e events (backoff_seconds e.attempts)
]

pub redrive_webhook_event : ℕ → ℕ → List WebhookEvent → Bool × List WebhookEvent
redrive_webhook_event now event_id events = elim (first (λ e. e.id == event_id) events) [
  | none ↦ (false, events)
  | some e ↦
      if is_dead_letter e.status
      then (
        true,
        update (λ r. r.id == e.id)
            (λ r. record r {
              status = EventStatus.received;
              attempts = 0;
              next_attempt_at = now;
              error_code = none;
            })
            events,
      )
      else (false, events)
]

-- app/services/webhook_batches.py
pub record WebhookEnvelope : Type 0 where
  pub provider : String
  pub routing_external_id : String
  pub event_kind : String
  pub native_event_id : String
  pub payload : String

-- The columns of `ChannelAsset` that routing reads.
pub record ChannelAsset : Type 0 where
  pub id : ℕ
  pub tenant_id : ℕ
  pub meta_app_id : String
  pub external_id : String
  pub connected : Bool

-- "|".join((provider, routing_external_id, event_kind, native_event_id))
pub event_key : WebhookEnvelope → String
event_key e =
    e.provider
    ++ₜ ("|"
        ++ₜ (e.routing_external_id ++ₜ ("|" ++ₜ (e.event_kind ++ₜ ("|" ++ₜ e.native_event_id)))))

abbrev pub routed_asset : String → WebhookEnvelope → List ChannelAsset → Option ChannelAsset
routed_asset meta_app_id e assets =
    first
      (λ a.
        str_eq a.meta_app_id meta_app_id
        && (str_eq a.external_id e.routing_external_id && a.connected))
      assets

abbrev pub tenant_of : Option ChannelAsset → Option ℕ
tenant_of none = none
tenant_of (some a) = some a.tenant_id

abbrev pub id_of : Option ChannelAsset → Option ℕ
id_of none = none
id_of (some a) = some a.id

pub new_event : ℕ → ℕ → WebhookEnvelope → Option ChannelAsset → WebhookEvent
new_event now id e asset = record {
  id = id;
  provider = e.provider;
  routing_external_id = e.routing_external_id;
  event_kind = e.event_kind;
  native_event_id = e.native_event_id;
  event_key = event_key e;
  tenant_id = tenant_of asset;
  channel_asset_id = id_of asset;
  status = if is_some asset then EventStatus.received else EventStatus.quarantined;
  payload = e.payload;
  attempts = 0;
  lease_token = none;
  lease_expires_at = none;
  next_attempt_at = now;
  error_code = none;
  received_at = now;
  processed_at = none;
}

-- One round of the loop: the event that is returned for the envelope, and the table behind it.
pub persist_one :
    String
    → List ChannelAsset
    → ℕ
    → ℕ
    → WebhookEnvelope
    → List WebhookEvent
    → WebhookEvent × List WebhookEvent
persist_one meta_app_id assets now id e events =
    elim (first (λ r. str_eq r.event_key (event_key e)) events) [
      | some existing ↦ (existing, events)
      | none ↦
          let event = new_event now id e (routed_asset meta_app_id e assets) in
          (event, insert event events)
    ]

-- Each envelope comes with the identifier that its row would draw.
pub persist_webhook_envelopes :
    String
    → List ChannelAsset
    → ℕ
    → List (ℕ × WebhookEnvelope)
    → List WebhookEvent
    → List WebhookEvent × List WebhookEvent
persist_webhook_envelopes meta_app_id assets now [] events = ([], events)
persist_webhook_envelopes meta_app_id assets now ((id, e) ∷ rest) events =
    let (event, events') = persist_one meta_app_id assets now id e events in
    let (persisted, events'') = persist_webhook_envelopes meta_app_id assets now rest events' in
    (event ∷ persisted, events'')
