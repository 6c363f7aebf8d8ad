-- ===== src/Billing/Once.antt =====
-- A payment, a usage event and an event of the provider count once, however often they come.
use omni_crm_backend.Billing.Periods.{renewed_id}
use mathlib.Core.Path.{subst}
use text.Mathlib.TextPositions.{eq_refl}
use omni_crm_backend.Prelude.{
  ap, sym, ℕ, ◌≤◌, ◌≡◌, refl, String, Bool, true, false, inl, inr, Option, none, some, List, [],
  ◌∷◌, arith, ok, ◌==◌, ==_refl, Bool-cases, first, select, update, All,
}
use omni_crm_backend.Prelude.RowLaws.{All-update_where, first-update, first-append}
use omni_crm_backend.Billing.{
  Subscription, of_tenant, write_to, with_subscription, is_covered, renewed, renew_subscription,
  BillingUsageEvent, is_usage, record_new, record_usage_event, is_expired, suspend,
  suspend_expired_subscriptions, is_unpaid,
}

renewed_covered :
    (date : ℕ) (s : Subscription) → is_covered date (renewed date s).paid_through ≡ true
renewed_covered date s = elim (Bool-cases (is_covered date s.paid_through)) [
  | inl t ↦ rw t t
  | inr t ↦ rw t (ground arith)
]

renewed_again :
    (date : ℕ) (s : Subscription) → is_covered date s.paid_through ≡ true → renewed date s ≡ s
renewed_again date s h = rw h

module _ {ℓ} {A : Type ℓ} (p : A → Bool) (f : A → A) where
  -- What an update writes a second time is what it wrote the first time.
  update-update :
      ((x : A) → p (f x) ≡ p x)
      → ((x : A) → f (f x) ≡ f x)
      → (xs : List A) → update p f (update p f xs) ≡ update p f xs
  unfolding update
  update-update keep idem [] = refl
  update-update keep idem (x ∷ xs) = elim (Bool-cases (p x)) [
    | inl e ↦ rw e (rw (keep x) (rw e (rw (idem x) (rw (update-update keep idem xs)))))
    | inr e ↦ rw e (rw e (rw (update-update keep idem xs)))
  ]

  update_none : (xs : List A) → All (λ x. p x ≡ false) xs → update p f xs ≡ xs
  unfolding update
  update_none [] h = refl
  update_none (x ∷ xs) h = rw h.0 (rw (update_none xs h.1))

  select_none : (xs : List A) → All (λ x. p x ≡ false) xs → select p xs ≡ []
  unfolding select
  select_none [] h = refl
  select_none (x ∷ xs) h = rw h.0 (select_none xs h.1)

unpaid_later :
    (earlier today : ℕ) (d : Option ℕ)
    → earlier ≤ today
    → is_unpaid today d ≡ false
    → is_unpaid earlier d ≡ false
unpaid_later earlier today none h e = refl
unpaid_later earlier today (some d) h e = ground arith

not_expired :
    (earlier today : ℕ) (s : Subscription)
    → earlier ≤ today
    → is_expired today s ≡ false
    → is_expired earlier s ≡ false
not_expired earlier today s h e = ground (arith, unpaid_later earlier today s.paid_through h)

-- A suspension leaves no subscription that it would suspend, on that day or before.
none_expired :
    (today earlier : ℕ)
    → earlier ≤ today
    → (rows : List Subscription)
    → All (λ s. is_expired earlier s ≡ false) (update (is_expired today) suspend rows)
none_expired today earlier h rows =
    All-update_where (λ s. is_expired earlier s ≡ false) (is_expired today) suspend (λ s e. refl)
      (λ s e. not_expired earlier today s h e) rows

-- Once the expired subscriptions of a day are suspended, the same run for that day or an earlier
-- one suspends nothing more and counts none.
pub suspend-suspend :
    (today earlier : ℕ) (rows : List Subscription)
    → earlier ≤ today
    → suspend_expired_subscriptions earlier (suspend_expired_subscriptions today rows).1
      ≡ (0, (suspend_expired_subscriptions today rows).1)
unfolding suspend_expired_subscriptions
suspend-suspend today earlier rows h =
    let quiet = none_expired today earlier h rows in
    rw (select_none (is_expired earlier) suspend (update (is_expired today) suspend rows) quiet)
      (rw (update_none (is_expired earlier) suspend (update (is_expired today) suspend rows) quiet))

renewed_twice : (date : ℕ) (s : Subscription) → renewed date (renewed date s) ≡ renewed date s
renewed_twice date s = renewed_again date (renewed date s) (renewed_covered date s)

renewed_tenant : (date : ℕ) (s : Subscription) → (renewed date s).tenant_id ≡ s.tenant_id
renewed_tenant date s = elim (Bool-cases (is_covered date s.paid_through)) [
  | inl t ↦ rw t
  | inr t ↦ rw t
]

module _ (tenant_id date : ℕ) where
  renewed_found :
      (rows : List Subscription) (s : Subscription)
      → first (of_tenant tenant_id) rows ≡ some s
      → first (of_tenant tenant_id) (write_to s (renewed date) rows) ≡ some (renewed date s)
  renewed_found rows s found =
      rw
        (first-update (of_tenant tenant_id) (λ x. x.id == s.id) (renewed date)
          (λ x. ground (arith, renewed_tenant date x)) rows)
        (rw found (rw (==_refl s.id)))

  renewed_all :
      (rows : List Subscription) (s : Subscription)
      → write_to (renewed date s) (renewed date) (write_to s (renewed date) rows)
        ≡ write_to s (renewed date) rows
  renewed_all rows s =
      subst
        (λ k.
          update (λ x. x.id == k) (renewed date) (write_to s (renewed date) rows)
          ≡ write_to s (renewed date) rows)
        (sym (renewed_id date s))
        (update-update (λ x. x.id == s.id) (renewed date)
          (λ x. ap (λ n. n == s.id) (renewed_id date x)) (renewed_twice date) rows)

  with_again :
      (rows : List Subscription) (o : Option Subscription) {r : Subscription}
      → first (of_tenant tenant_id) rows ≡ o
      → (with_subscription tenant_id (renewed date) rows o).0 ≡ ok r
      → with_subscription tenant_id
          (renewed date)
          (with_subscription tenant_id (renewed date) rows o).1
          (first (of_tenant tenant_id) (with_subscription tenant_id (renewed date) rows o).1)
        ≡ (ok r, (with_subscription tenant_id (renewed date) rows o).1)
  unfolding with_subscription
  with_again rows none found h = absurd (cc)
  with_again rows (some s) {r} found h =
      let same : renewed date s ≡ r = cc in
      rw (renewed_found rows s found)
        (unfold with_subscription in rw (renewed_all rows s) (rw (renewed_twice date s) (rw same)))

  -- A renewal that the provider reports twice counts once: the second report gives the same
  -- subscription and writes nothing.
  pub renew-renew :
      (rows : List Subscription) {s : Subscription}
      → (renew_subscription tenant_id date rows).0 ≡ ok s
      → renew_subscription tenant_id date (renew_subscription tenant_id date rows).1
        ≡ (ok s, (renew_subscription tenant_id date rows).1)
  unfolding renew_subscription
  renew-renew rows h = with_again rows (first (of_tenant tenant_id) rows) refl h

-- What is asked for again is found, so recorded once.
usage_found :
    (tenant_id subscription_id : ℕ) (meter event_key : String) (quantity quantity' : ℕ)
    (events : List BillingUsageEvent) (o : Option BillingUsageEvent)
    → first (is_usage tenant_id subscription_id meter event_key) events ≡ o
    → let e : BillingUsageEvent = record {
      tenant_id = tenant_id;
      subscription_id = subscription_id;
      meter = meter;
      event_key = event_key;
      quantity = quantity;
    } in
      first (is_usage tenant_id subscription_id meter event_key) (record_new e events o).1
      ≡ some (record_new e events o).0
unfolding record_new
usage_found tenant_id subscription_id meter event_key quantity quantity' events (some old) found =
    found
usage_found tenant_id subscription_id meter event_key quantity quantity' events none found =
    rw first-append (
      rw found (
        unfold first in
        rw (==_refl tenant_id, ==_refl subscription_id) (rw (eq_refl meter, eq_refl event_key))))

-- A usage event is recorded once for its key: a later report under it, whatever its quantity,
-- gives the event that was recorded and writes nothing.
pub record-record :
    (tenant_id subscription_id : ℕ) (meter event_key : String) (quantity quantity' : ℕ)
    (events : List BillingUsageEvent)
    → record_usage_event tenant_id subscription_id meter event_key quantity'
        (record_usage_event tenant_id subscription_id meter event_key quantity events).1
      ≡ record_usage_event tenant_id subscription_id meter event_key quantity events
unfolding record_usage_event
record-record tenant_id subscription_id meter event_key quantity quantity' events =
    rw
      (usage_found tenant_id subscription_id meter event_key quantity quantity' events
        (first (is_usage tenant_id subscription_id meter event_key) events) refl)
      (unfold record_new in refl)
