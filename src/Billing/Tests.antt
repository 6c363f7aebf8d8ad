-- ===== src/Billing/Tests.antt =====
-- The theorems on billing at concrete inputs, and runs of the operations.
use omni_crm_backend.Prelude.{
  ◌≡◌, refl, false, none, some, [], ◌∷◌, arith, ok, err, first, select, update, count,
}
use omni_crm_backend.Billing.{
  entitlement_exceeded, Subscription, SubscriptionStatus, BillingPlan, Usage, CountedContact,
  renew_subscription, suspend_expired_subscriptions, mark_payment_failed, activate_subscription,
  assert_entitlement, usage_meters,
}
use omni_crm_backend.Billing.Periods.{IsOrdered, Reach-IsOrdered, here, next, fails, suspends}
use omni_crm_backend.Billing.Once.{renew-renew, suspend-suspend}
use omni_crm_backend.Billing.Entitlements.{Entitled, assert_entitlement_sound}

abbrev monthly : Subscription
monthly = record {
  id = 1;
  tenant_id = 9;
  plan_id = 3;
  status = SubscriptionStatus.active;
  payment_period_start = 100;
  payment_period_end = 130;
  paid_through = some 130;
}

abbrev extended : Subscription
extended = record monthly {
  payment_period_start = 130;
  payment_period_end = 160;
  paid_through = some 160;
}

renewed_once : (renew_subscription 9 160 (monthly ∷ [])).0 ≡ ok extended
unfolding renew_subscription first
renewed_once = refl

renew-renew_example :
    renew_subscription 9 160 (renew_subscription 9 160 (monthly ∷ [])).1
    ≡ (ok extended, (renew_subscription 9 160 (monthly ∷ [])).1)
renew-renew_example = renew-renew 9 160 (monthly ∷ []) {s = extended} renewed_once

suspend-suspend_run :
    suspend_expired_subscriptions 140 (suspend_expired_subscriptions 140 (monthly ∷ [])).1
    ≡ (0, (suspend_expired_subscriptions 140 (monthly ∷ [])).1)
suspend-suspend_run = suspend-suspend 140 140 (monthly ∷ []) (omega arith)

Reach-IsOrdered_example :
    IsOrdered (suspend_expired_subscriptions 140 (mark_payment_failed 9 7 (monthly ∷ [])).1).1
Reach-IsOrdered_example =
    Reach-IsOrdered {start = monthly ∷ []} (next (next here (fails 9 7)) (suspends 140)) (record {
      paid = (record { forward = omega arith; covered = omega arith }, tt);
      keyed = (tt, tt);
    })

-- A failed payment gives no grace to a subscription that was activated: it is suspended the day
-- after its period.
no_grace :
    (suspend_expired_subscriptions 131
      (mark_payment_failed 9 7 (activate_subscription 1 9 3 100 130 []).1).1).0
    ≡ 1
unfolding suspend_expired_subscriptions mark_payment_failed activate_subscription first select
    update
no_grace = refl

abbrev small : BillingPlan
small = record { id = 3; contact_limit = 1; conversation_limit = 10; asset_limit = 1 }

abbrev someone : CountedContact
someone = record { tenant_id = 9; is_deleted = false; deleted_at = none }

abbrev used : Usage
used = record {
  subscriptions = monthly ∷ [];
  plans = small ∷ [];
  contacts = someone ∷ [];
  assets = [];
  conversations = [];
}

full_plan : (assert_entitlement 9 120 "contacts" 1 used) ≡ err entitlement_exceeded
unfolding assert_entitlement usage_meters first count
full_plan = refl

-- Behind the end of the period the meters read zero, so the limit does not bind.
unmetered : assert_entitlement 9 135 "contacts" 1 used ≡ ok tt
unfolding assert_entitlement usage_meters first count
unmetered = refl

one_connected : assert_entitlement 9 120 "connected_assets" 1 used ≡ ok tt
unfolding assert_entitlement usage_meters first count
one_connected = refl

assert_entitlement_sound_example : Entitled 9 120 "connected_assets" 1 used
assert_entitlement_sound_example =
    assert_entitlement_sound 9 120 "connected_assets" 1 used one_connected
