-- ===== src/Billing/Entitlements.antt =====
-- What a plan allows.
use text.Mathlib.Text.{◌==◌ as str_eq}
use omni_crm_backend.Prelude.RowLaws.{first_sound}
use omni_crm_backend.Prelude.{
  true, not, ◌&&◌, ◌⊎◌, count, is_none, leb, days, ℕ, ◌+◌, ◌≤◌, ◌≡◌, refl, String, inl, inr, Option,
  none, some, arith, ok, ltb, ◌==◌, Bool-cases, first,
}
use omni_crm_backend.Billing.{
  SubscriptionStatus, is_in_force, is_messaging, contacts, conversations, connected_assets,
  Subscription, BillingPlan, Usage, Meter, usage_meters, meter_of, limit_of, reading, entitled_by,
  entitled_plan, entitled_subscription, assert_entitlement, is_subscribed,
}

abbrev name_of : Meter → String
name_of contacts = "contacts"
name_of conversations = "conversations"
name_of connected_assets = "connected_assets"

-- What is in use and the quantity together stay within the plan's limit: the contacts of the tenant
-- that are not deleted, its connected assets that carry messages, and its conversations that were
-- created between the midnights of the period.
abbrev pub HasRoom : Meter → ℕ → Subscription → ℕ → BillingPlan → Usage → Type 0
HasRoom contacts tenant_id period quantity p u =
    count (λ c. c.tenant_id == tenant_id && (not c.is_deleted && is_none c.deleted_at)) u.contacts
      + quantity
    ≤ p.contact_limit
HasRoom connected_assets tenant_id period quantity p u =
    count (λ a. a.tenant_id == tenant_id && (a.is_connected && is_messaging a.channel)) u.assets
      + quantity
    ≤ p.asset_limit
HasRoom conversations tenant_id period quantity p u =
    count
        (λ c.
          c.tenant_id == period.tenant_id
          && (leb (days period.payment_period_start) c.created_at
              && ltb c.created_at (days period.payment_period_end)))
        u.conversations
      + quantity
    ≤ p.conversation_limit

-- The subscription in force whose payment period the day falls in.
abbrev pub period_of : ℕ → ℕ → Usage → Option Subscription
period_of tenant_id at u =
    first
      (λ s.
        s.tenant_id == tenant_id
        && (is_in_force s.status && (leb s.payment_period_start at && ltb at s.payment_period_end)))
      u.subscriptions

-- The grounds on which a use is allowed: a subscription in force, its plan, and room on the meter
-- in the payment period of the day; outside it nothing counts as used.
pub record Entitled (tenant_id at : ℕ) (meter : String) (quantity : ℕ) (u : Usage) : Type 0 where
  pub subscription : Subscription
  pub subscribed : first (is_subscribed tenant_id) u.subscriptions ≡ some subscription
  pub owned : subscription.tenant_id ≡ tenant_id
  pub in_force :
      (subscription.status ≡ SubscriptionStatus.trialing)
      ⊎ ((subscription.status ≡ SubscriptionStatus.active)
          ⊎ (subscription.status ≡ SubscriptionStatus.past_due))
  pub plan : BillingPlan
  pub planned : first (λ p. p.id == subscription.plan_id) u.plans ≡ some plan
  pub kind : Meter
  pub named : str_eq meter (name_of kind) ≡ true
  pub room :
      (period : Subscription)
      → period_of tenant_id at u ≡ some period
      → HasRoom kind tenant_id period quantity plan u
  pub room_outside : period_of tenant_id at u ≡ none → quantity ≤ limit_of kind plan

metered :
    (tenant_id at quantity : ℕ) (u : Usage) (p : BillingPlan) (m : Meter) (period : Subscription)
    → period_of tenant_id at u ≡ some period
    → reading m (usage_meters tenant_id at u) + quantity ≤ limit_of m p
    → HasRoom m tenant_id period quantity p u
unfolding usage_meters
metered tenant_id at quantity u p contacts period e h = rw e at h
metered tenant_id at quantity u p connected_assets period e h = rw e at h
metered tenant_id at quantity u p conversations period e h = rw e at h

named_by : (meter : String) (m : Meter) → meter_of meter ≡ some m → str_eq meter (name_of m) ≡ true
named_by meter contacts h = ground (arith, h)
named_by meter conversations h = ground (arith, h)
named_by meter connected_assets h = ground (arith, h)

in_force_of :
    (s : SubscriptionStatus)
    → is_in_force s ≡ true
    → (s ≡ SubscriptionStatus.trialing)
      ⊎ ((s ≡ SubscriptionStatus.active) ⊎ (s ≡ SubscriptionStatus.past_due))
in_force_of s h = ground (arith, h)

by_meter :
    (tenant_id at quantity : ℕ) (u : Usage) (p : BillingPlan) (o : Option Meter)
    → entitled_by tenant_id at quantity u p o ≡ ok tt
    → (m : Meter) × (o ≡ some m)
      × (reading m (usage_meters tenant_id at u) + quantity ≤ limit_of m p)
unfolding entitled_by
by_meter tenant_id at quantity u p none h = absurd (cc)
by_meter tenant_id at quantity u p (some m) h =
    elim (Bool-cases (ltb (limit_of m p) (reading m (usage_meters tenant_id at u) + quantity))) [
      | inl e ↦ absurd (cc (rw e at h))
      | inr e ↦ (m, refl, ground arith)
    ]

by_plan :
    (tenant_id at : ℕ) (meter : String) (quantity : ℕ) (u : Usage) (o : Option BillingPlan)
    → entitled_plan tenant_id at meter quantity u o ≡ ok tt
    → (p : BillingPlan) × (o ≡ some p)
      × (entitled_by tenant_id at quantity u p (meter_of meter) ≡ ok tt)
unfolding entitled_plan
by_plan tenant_id at meter quantity u none h = absurd (cc)
by_plan tenant_id at meter quantity u (some p) h = (p, refl, h)

by_subscription :
    (tenant_id at : ℕ) (meter : String) (quantity : ℕ) (u : Usage) (o : Option Subscription)
    → entitled_subscription tenant_id at meter quantity u o ≡ ok tt
    → (s : Subscription) × (o ≡ some s)
      × (entitled_plan tenant_id at meter quantity u (first (λ p. p.id == s.plan_id) u.plans)
          ≡ ok tt)
unfolding entitled_subscription
by_subscription tenant_id at meter quantity u none h = absurd (cc)
by_subscription tenant_id at meter quantity u (some s) h = (s, refl, h)

-- A use is allowed only to a tenant with a trialing, active or past due subscription whose plan is
-- there, on a meter that is known, and if the quantity stays within the plan's limit together with
-- what is in use: the contacts that are not deleted, the connected assets that carry messages, or
-- the conversations of the payment period, where a day outside every payment period counts none.
pub assert_entitlement_sound :
    (tenant_id at : ℕ) (meter : String) (quantity : ℕ) (u : Usage)
    → assert_entitlement tenant_id at meter quantity u ≡ ok tt
    → Entitled tenant_id at meter quantity u
unfolding assert_entitlement
assert_entitlement_sound tenant_id at meter quantity u h =
    let (s, subscribed, h1) =
      by_subscription tenant_id at meter quantity u
        (first (is_subscribed tenant_id) u.subscriptions) h in
    let fits = first_sound (is_subscribed tenant_id) u.subscriptions subscribed in
    let (p, planned, h2) =
      by_plan tenant_id at meter quantity u (first (λ p. p.id == s.plan_id) u.plans) h1 in
    let (m, known, room) = by_meter tenant_id at quantity u p (meter_of meter) h2 in
    record {
      subscription = s;
      subscribed = subscribed;
      plan = p;
      planned = planned;
      kind = m;
      owned = ground (arith, fits);
      in_force = in_force_of s.status (ground (arith, fits));
      named = named_by meter m known;
      room = λ period e. metered tenant_id at quantity u p m period e room;
      room_outside = λ e. ground (arith, room);
    }
