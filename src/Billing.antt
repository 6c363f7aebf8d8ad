-- ===== src/Billing.antt =====
-- app/services/billing_lifecycle.py, billing_usage.py, billing_events.py and billing_entitlements.py: the
-- subscription of a tenant, what it has used, and what its plan allows. A date is the number of
-- its day. The events of the provider are verified and read by `provider`, library code.
pub mod Periods
pub mod Entitlements
pub mod Once
mod Tests
use text.Mathlib.Text.{◌==◌ as str_eq}
use omni_crm_backend.Prelude.{
  ℕ, ◌+◌, ◌*◌, String, Bool, true, false, not, ◌&&◌, ◌||◌, Option, none, some, List, Outcome, ok,
  err, ltb, leb, ◌==◌, if◌then◌else◌, first, select, update, insert, count, length, is_none, days,
}
use omni_crm_backend.Conversations.{Channel}

pub data SubscriptionStatus : Type 0 where
  trialing active past_due suspended cancelled : SubscriptionStatus

pub record Subscription : Type 0 where
  pub id : ℕ
  pub tenant_id : ℕ
  pub plan_id : ℕ
  pub status : SubscriptionStatus
  pub payment_period_start : ℕ
  pub payment_period_end : ℕ
  pub paid_through : Option ℕ

pub record BillingPlan : Type 0 where
  pub id : ℕ
  pub contact_limit : ℕ
  pub conversation_limit : ℕ
  pub asset_limit : ℕ

pub record BillingEvent : Type 0 where
  pub tenant_id : Option ℕ
  pub provider : String
  pub provider_event_id : String
  pub event_type : String
  pub payload : String

pub record BillingUsageEvent : Type 0 where
  pub tenant_id : ℕ
  pub subscription_id : ℕ
  pub meter : String
  pub event_key : String
  pub quantity : ℕ

pub data BillingError : Type 0 where
  subscription_not_found subscription_required plan_missing : BillingError
  unknown_billing_meter entitlement_exceeded signature_invalid payload_invalid : BillingError

abbrev pub of_tenant : ℕ → Subscription → Bool
of_tenant tenant_id s = s.tenant_id == tenant_id

-- A write to the row that the tenant's query has found.
abbrev pub write_to :
    Subscription → (Subscription → Subscription) → List Subscription → List Subscription
write_to s f = update (λ x. x.id == s.id) f

abbrev pub activated : ℕ → ℕ → ℕ → Subscription → Subscription
activated plan_id period_start period_end s = record s {
  plan_id = plan_id;
  status = SubscriptionStatus.active;
  payment_period_start = period_start;
  payment_period_end = period_end;
  paid_through = some period_end;
}

abbrev pub new_subscription : ℕ → ℕ → ℕ → ℕ → ℕ → Subscription
new_subscription id tenant_id plan_id period_start period_end = record {
  id = id;
  tenant_id = tenant_id;
  plan_id = plan_id;
  status = SubscriptionStatus.active;
  payment_period_start = period_start;
  payment_period_end = period_end;
  paid_through = some period_end;
}

pub activate_found :
    ℕ → ℕ → ℕ → ℕ → ℕ → List Subscription → Option Subscription → Subscription × List Subscription
activate_found id tenant_id plan_id period_start period_end rows none =
    let s = new_subscription id tenant_id plan_id period_start period_end in (s, insert s rows)
activate_found id tenant_id plan_id period_start period_end rows (some s) = (
  activated plan_id period_start period_end s,
  write_to s (activated plan_id period_start period_end) rows,
)

unfoldable pub activate_subscription :
    ℕ → ℕ → ℕ → ℕ → ℕ → List Subscription → Subscription × List Subscription
unfolding activate_found
activate_subscription id tenant_id plan_id period_start period_end rows =
    activate_found id tenant_id plan_id period_start period_end rows
      (first (of_tenant tenant_id) rows)

-- What the three operations below do with the row of the tenant.
pub with_subscription :
    ℕ
    → (Subscription → Subscription)
    → List Subscription
    → Option Subscription
    → Outcome BillingError Subscription × List Subscription
with_subscription tenant_id f rows none = (err subscription_not_found, rows)
with_subscription tenant_id f rows (some s) = (ok (f s), write_to s f rows)

-- paid_through is not None and date <= paid_through
abbrev pub is_covered : ℕ → Option ℕ → Bool
is_covered date none = false
is_covered date (some d) = leb date d

abbrev pub renewed : ℕ → Subscription → Subscription
renewed date s = if is_covered date s.paid_through then s else record s {
  payment_period_start = s.payment_period_end;
  payment_period_end = date;
  paid_through = some date;
  status = SubscriptionStatus.active;
}

unfoldable pub renew_subscription :
    ℕ → ℕ → List Subscription → Outcome BillingError Subscription × List Subscription
unfolding with_subscription
renew_subscription tenant_id date rows =
    with_subscription tenant_id (renewed date) rows (first (of_tenant tenant_id) rows)

abbrev pub or_grace : Option ℕ → ℕ → Option ℕ
or_grace none end_of_grace = some end_of_grace
or_grace (some d) end_of_grace = some d

abbrev pub failed : ℕ → Subscription → Subscription
failed grace_days s = record s {
  status = SubscriptionStatus.past_due;
  paid_through = or_grace s.paid_through (s.payment_period_end + grace_days);
}

unfoldable pub mark_payment_failed :
    ℕ → ℕ → List Subscription → Outcome BillingError Subscription × List Subscription
unfolding with_subscription
mark_payment_failed tenant_id grace_days rows =
    with_subscription tenant_id (failed grace_days) rows (first (of_tenant tenant_id) rows)

abbrev pub is_past_due : SubscriptionStatus → Bool
is_past_due SubscriptionStatus.past_due = true
is_past_due _ = false

-- paid_through < today, which NULL is not
abbrev pub is_unpaid : ℕ → Option ℕ → Bool
is_unpaid today none = false
is_unpaid today (some d) = ltb d today

abbrev pub is_expired : ℕ → Subscription → Bool
is_expired today s = is_past_due s.status && is_unpaid today s.paid_through

abbrev pub suspend : Subscription → Subscription
suspend s = record s { status = SubscriptionStatus.suspended }

unfoldable pub suspend_expired_subscriptions : ℕ → List Subscription → ℕ × List Subscription
suspend_expired_subscriptions today rows =
    (length (select (is_expired today) rows), update (is_expired today) suspend rows)

abbrev pub cancel : Subscription → Subscription
cancel s = record s { status = SubscriptionStatus.cancelled }

unfoldable pub cancel_subscription :
    ℕ → List Subscription → Outcome BillingError Subscription × List Subscription
unfolding with_subscription
cancel_subscription tenant_id rows =
    with_subscription tenant_id cancel rows (first (of_tenant tenant_id) rows)

-- status IN ('trialing', 'active', 'past_due')
abbrev pub is_in_force : SubscriptionStatus → Bool
is_in_force SubscriptionStatus.trialing = true
is_in_force SubscriptionStatus.active = true
is_in_force SubscriptionStatus.past_due = true
is_in_force _ = false

-- The columns of the contacts, the channel assets and the conversations that are counted. Whether a
-- contact is deleted and whether an asset is connected stand for the tests on their columns.
pub record CountedContact : Type 0 where
  pub tenant_id : ℕ
  pub is_deleted : Bool
  pub deleted_at : Option ℕ

pub record CountedAsset : Type 0 where
  pub tenant_id : ℕ
  pub is_connected : Bool
  pub channel : Channel

pub record CountedConversation : Type 0 where
  pub tenant_id : ℕ
  pub created_at : ℕ

pub record Usage : Type 0 where
  pub subscriptions : List Subscription
  pub plans : List BillingPlan
  pub contacts : List CountedContact
  pub assets : List CountedAsset
  pub conversations : List CountedConversation

abbrev pub is_messaging : Channel → Bool
is_messaging Channel.ad_account = false
is_messaging _ = true

pub record Meters : Type 0 where
  pub contacts : ℕ
  pub connected_assets : ℕ
  pub conversations : ℕ

abbrev pub is_billed : ℕ → CountedContact → Bool
is_billed tenant_id c = c.tenant_id == tenant_id && (not c.is_deleted && is_none c.deleted_at)

abbrev pub is_billed_asset : ℕ → CountedAsset → Bool
is_billed_asset tenant_id a = a.tenant_id == tenant_id && (a.is_connected && is_messaging a.channel)

-- An instant against the midnights, UTC, of the period.
abbrev pub is_in_period : Subscription → CountedConversation → Bool
is_in_period s c =
    c.tenant_id == s.tenant_id
    && (leb (days s.payment_period_start) c.created_at
        && ltb c.created_at (days s.payment_period_end))

abbrev pub is_current : ℕ → ℕ → Subscription → Bool
is_current tenant_id at s =
    s.tenant_id == tenant_id
    && (is_in_force s.status && (leb s.payment_period_start at && ltb at s.payment_period_end))

abbrev pub meters_of : ℕ → Usage → Option Subscription → Meters
meters_of tenant_id u none = record { contacts = 0; connected_assets = 0; conversations = 0 }
meters_of tenant_id u (some s) = record {
  contacts = count (is_billed tenant_id) u.contacts;
  connected_assets = count (is_billed_asset tenant_id) u.assets;
  conversations = count (is_in_period s) u.conversations;
}

unfoldable pub usage_meters : ℕ → ℕ → Usage → Meters
usage_meters tenant_id at u =
    meters_of tenant_id u (first (is_current tenant_id at) u.subscriptions)

pub data Meter : Type 0 where
  contacts conversations connected_assets : Meter

-- The names of the meters; any other is unknown.
abbrev pub meter_of : String → Option Meter
meter_of name =
    if str_eq name "contacts"
    then some contacts
    else if str_eq name "conversations"
    then some conversations
    else if str_eq name "connected_assets"
    then some connected_assets
    else none

abbrev pub limit_of : Meter → BillingPlan → ℕ
limit_of contacts p = p.contact_limit
limit_of conversations p = p.conversation_limit
limit_of connected_assets p = p.asset_limit

abbrev pub reading : Meter → Meters → ℕ
reading contacts m = m.contacts
reading conversations m = m.conversations
reading connected_assets m = m.connected_assets

pub entitled_by : ℕ → ℕ → ℕ → Usage → BillingPlan → Option Meter → Outcome BillingError (Unit {0})
entitled_by tenant_id at quantity u p none = err unknown_billing_meter
entitled_by tenant_id at quantity u p (some m) =
    if ltb (limit_of m p) (reading m (usage_meters tenant_id at u) + quantity)
    then err entitlement_exceeded
    else ok tt

pub entitled_plan :
    ℕ → ℕ → String → ℕ → Usage → Option BillingPlan → Outcome BillingError (Unit {0})
entitled_plan tenant_id at meter quantity u none = err plan_missing
entitled_plan tenant_id at meter quantity u (some p) =
    entitled_by tenant_id at quantity u p (meter_of meter)

pub entitled_subscription :
    ℕ → ℕ → String → ℕ → Usage → Option Subscription → Outcome BillingError (Unit {0})
entitled_subscription tenant_id at meter quantity u none = err subscription_required
entitled_subscription tenant_id at meter quantity u (some s) =
    entitled_plan tenant_id at meter quantity u (first (λ p. p.id == s.plan_id) u.plans)

abbrev pub is_subscribed : ℕ → Subscription → Bool
is_subscribed tenant_id s = s.tenant_id == tenant_id && is_in_force s.status

unfoldable pub assert_entitlement : ℕ → ℕ → String → ℕ → Usage → Outcome BillingError (Unit {0})
unfolding entitled_subscription entitled_plan entitled_by
assert_entitlement tenant_id at meter quantity u =
    entitled_subscription tenant_id at meter quantity u
      (first (is_subscribed tenant_id) u.subscriptions)

abbrev pub is_usage : ℕ → ℕ → String → String → BillingUsageEvent → Bool
is_usage tenant_id subscription_id meter event_key e =
    e.tenant_id == tenant_id
    && (e.subscription_id == subscription_id
        && (str_eq e.meter meter && str_eq e.event_key event_key))

pub record_new :
    BillingUsageEvent
    → List BillingUsageEvent
    → Option BillingUsageEvent
    → BillingUsageEvent × List BillingUsageEvent
record_new e events none = (e, insert e events)
record_new e events (some old) = (old, events)

unfoldable pub record_usage_event :
    ℕ
    → ℕ
    → String
    → String
    → ℕ
    → List BillingUsageEvent
    → BillingUsageEvent × List BillingUsageEvent
unfolding record_new
record_usage_event tenant_id subscription_id meter event_key quantity events =
    record_new
      (record {
        tenant_id = tenant_id;
        subscription_id = subscription_id;
        meter = meter;
        event_key = event_key;
        quantity = quantity;
      })
      events (first (is_usage tenant_id subscription_id meter event_key) events)

-- What `verify_and_normalize_event` gives.
pub record Normalized : Type 0 where
  pub provider_event_id : String
  pub event_type : String
  pub payload : String

abbrev pub is_event : String → BillingEvent → Bool
is_event provider_event_id e =
    str_eq e.provider "fake" && str_eq e.provider_event_id provider_event_id

abbrev pub event_of : Option ℕ → Normalized → BillingEvent
event_of tenant_id n = record {
  tenant_id = tenant_id;
  provider = "fake";
  provider_event_id = n.provider_event_id;
  event_type = n.event_type;
  payload = n.payload;
}

pub process_new :
    BillingEvent
    → List BillingEvent
    → Option BillingEvent
    → Outcome BillingError BillingEvent × List BillingEvent
process_new e events none = (ok e, insert e events)
process_new e events (some old) = (ok old, events)

pub process_normalized :
    Option ℕ
    → List BillingEvent
    → Outcome BillingError Normalized
    → Outcome BillingError BillingEvent × List BillingEvent
unfolding process_new
process_normalized tenant_id events (err e) = (err e, events)
process_normalized tenant_id events (ok n) =
    process_new (event_of tenant_id n) events (first (is_event n.provider_event_id) events)

unfoldable pub process_billing_event :
    (String → String → Outcome BillingError Normalized)
    → Option ℕ
    → String
    → String
    → List BillingEvent
    → Outcome BillingError BillingEvent × List BillingEvent
unfolding process_normalized
process_billing_event provider tenant_id headers body events =
    process_normalized tenant_id events (provider headers body)
