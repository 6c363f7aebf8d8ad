-- ===== src/Billing/Periods.antt =====
-- The paid period of a subscription never runs backwards.
use omni_crm_backend.Prelude.{
  ℕ, ◌+◌, ◌≤◌, ◌≡◌, ◌≢◌, refl, false, inl, inr, Option, none, some, List, [], ◌∷◌, arith, ◌==◌,
  Bool-cases, first, All,
}
use omni_crm_backend.Prelude.RowLaws.{All-first, All-append, All-update}
use omni_crm_backend.Prelude.Keys.{IsKeyed, IsKeyed-update, IsKeyed-insert, All-update_key}
use omni_crm_backend.Billing.{
  Subscription, of_tenant, write_to, activated, new_subscription, activate_found,
  activate_subscription, with_subscription, is_covered, renewed, renew_subscription, or_grace,
  failed, mark_payment_failed, is_expired, suspend, suspend_expired_subscriptions, cancel,
  cancel_subscription,
}

abbrev pub Reaches : ℕ → Option ℕ → Type 0
Reaches date none = Unit
Reaches date (some d) = date ≤ d

-- The period ends no earlier than it starts, and what is paid for reaches its end.
pub record IsPaid (s : Subscription) : Type 0 where
  pub forward : s.payment_period_start ≤ s.payment_period_end
  pub covered : Reaches s.payment_period_end s.paid_through

pub record IsOrdered (rows : List Subscription) : Type 0 where
  pub paid : All IsPaid rows
  pub keyed : IsKeyed (λ s. s.id) rows

abbrev pub New : ℕ → List Subscription → Type 0
New id = All (λ s. s.id ≢ id)

write_to-IsOrdered :
    (tenant_id : ℕ) (f : Subscription → Subscription)
    → ((s : Subscription) → (f s).id ≡ s.id)
    → (rows : List Subscription) (s : Subscription) → first (of_tenant tenant_id) rows ≡ some s
    → (IsPaid s → IsPaid (f s))
    → IsOrdered rows
    → IsOrdered (write_to s f rows)
write_to-IsOrdered tenant_id f same rows s found keep v = record {
  paid =
      All-update_key (λ x. x.id) IsPaid (of_tenant tenant_id) f rows v.keyed found
        (keep (All-first IsPaid (of_tenant tenant_id) rows v.paid found)) v.paid;
  keyed = IsKeyed-update (λ x. x.id) (λ x. x.id == s.id) f same rows v.keyed;
}

with-IsOrdered :
    (tenant_id : ℕ) (f : Subscription → Subscription)
    → ((s : Subscription) → (f s).id ≡ s.id)
    → (rows : List Subscription) (o : Option Subscription) → first (of_tenant tenant_id) rows ≡ o
    → ((s : Subscription) → o ≡ some s → IsPaid s → IsPaid (f s))
    → IsOrdered rows
    → IsOrdered (with_subscription tenant_id f rows o).1
unfolding with_subscription
with-IsOrdered tenant_id f same rows none found keep v = v
with-IsOrdered tenant_id f same rows (some s) found keep v =
    write_to-IsOrdered tenant_id f same rows s found (keep s refl) v

activate-IsOrdered :
    (id tenant_id plan_id period_start period_end : ℕ) (rows : List Subscription)
    (o : Option Subscription)
    → first (of_tenant tenant_id) rows ≡ o
    → New id rows
    → period_start ≤ period_end
    → IsOrdered rows
    → IsOrdered (activate_found id tenant_id plan_id period_start period_end rows o).1
unfolding activate_found
activate-IsOrdered id tenant_id plan_id period_start period_end rows none found new order v =
    record {
      paid =
          All-append IsPaid rows
            (new_subscription id tenant_id plan_id period_start period_end ∷ []) v.paid
            (record { forward = order; covered = omega arith }, tt);
      keyed =
          IsKeyed-insert (λ x. x.id) (new_subscription id tenant_id plan_id period_start period_end)
            rows new v.keyed;
    }
activate-IsOrdered id tenant_id plan_id period_start period_end rows (some s) found new order v =
    write_to-IsOrdered tenant_id (activated plan_id period_start period_end) (λ x. refl) rows s
      found (λ p. record { forward = order; covered = omega arith }) v

-- A renewal that is not covered yet lies behind what was paid for, so behind the period.
end_of_renewal :
    (period_end date : ℕ) (d : Option ℕ)
    → Reaches period_end d
    → is_covered date d ≡ false
    → (d ≡ none → period_end ≤ date)
    → period_end ≤ date
end_of_renewal period_end date none r c order = order refl
end_of_renewal period_end date (some d) r c order = ground arith

renewed-IsPaid :
    (date : ℕ) (s : Subscription)
    → (s.paid_through ≡ none → s.payment_period_end ≤ date)
    → IsPaid s
    → IsPaid (renewed date s)
renewed-IsPaid date s order p = elim (Bool-cases (is_covered date s.paid_through)) [
  | inl t ↦ rw t p
  | inr t ↦ rw t record {
    forward = end_of_renewal s.payment_period_end date s.paid_through p.covered t order;
    covered = omega arith;
  }
]

pub renewed_id : (date : ℕ) (s : Subscription) → (renewed date s).id ≡ s.id
renewed_id date s = elim (Bool-cases (is_covered date s.paid_through)) [
  | inl t ↦ rw t
  | inr t ↦ rw t
]

grace-Reaches :
    (period_end grace_days : ℕ) (d : Option ℕ)
    → Reaches period_end d
    → Reaches period_end (or_grace d (period_end + grace_days))
grace-Reaches period_end grace_days none r = omega arith
grace-Reaches period_end grace_days (some d) r = r

-- The operations on subscriptions. A period that is activated runs forward; a renewal of a
-- subscription that has nothing paid for reaches the end of its period.
pub data Step : List Subscription → List Subscription → Type 0 where
  activates :
      {rows : List Subscription} (id tenant_id plan_id period_start period_end : ℕ)
      → New id rows
      → period_start ≤ period_end
      → Step rows (activate_subscription id tenant_id plan_id period_start period_end rows).1
  renews :
      {rows : List Subscription} (tenant_id date : ℕ)
      → ((s : Subscription)
          → first (of_tenant tenant_id) rows ≡ some s
          → s.paid_through ≡ none
          → s.payment_period_end ≤ date)
      → Step rows (renew_subscription tenant_id date rows).1
  fails :
      {rows : List Subscription} (tenant_id grace_days : ℕ)
      → Step rows (mark_payment_failed tenant_id grace_days rows).1
  suspends :
      {rows : List Subscription} (today : ℕ)
      → Step rows (suspend_expired_subscriptions today rows).1
  cancels :
      {rows : List Subscription} (tenant_id : ℕ) → Step rows (cancel_subscription tenant_id rows).1

pub data Reach (start : List Subscription) : List Subscription → Type 0 where
  here : Reach start start
  next : {rows rows' : List Subscription} → Reach start rows → Step rows rows' → Reach start rows'

Step-IsOrdered :
    {rows rows' : List Subscription} → Step rows rows' → IsOrdered rows → IsOrdered rows'
unfolding activate_subscription renew_subscription mark_payment_failed suspend_expired_subscriptions
    cancel_subscription
Step-IsOrdered (activates {rows} id tenant_id plan_id period_start period_end new order) v =
    activate-IsOrdered id tenant_id plan_id period_start period_end rows
      (first (of_tenant tenant_id) rows) refl new order v
Step-IsOrdered (renews {rows} tenant_id date order) v =
    with-IsOrdered tenant_id (renewed date) (λ s. renewed_id date s) rows
      (first (of_tenant tenant_id) rows) refl (λ s e p. renewed-IsPaid date s (order s e) p) v
Step-IsOrdered (fails {rows} tenant_id grace_days) v =
    with-IsOrdered tenant_id (failed grace_days) (λ s. refl) rows (first (of_tenant tenant_id) rows)
      refl
      (λ s e p. record {
        forward = p.forward;
        covered = grace-Reaches s.payment_period_end grace_days s.paid_through p.covered;
      })
      v
Step-IsOrdered (suspends {rows} today) v = record {
  paid =
      All-update IsPaid (is_expired today) suspend
        (λ s e p. record { forward = p.forward; covered = p.covered }) rows v.paid;
  keyed = IsKeyed-update (λ s. s.id) (is_expired today) suspend (λ s. refl) rows v.keyed;
}
Step-IsOrdered (cancels {rows} tenant_id) v =
    with-IsOrdered tenant_id cancel (λ s. refl) rows (first (of_tenant tenant_id) rows) refl
      (λ s e p. record { forward = p.forward; covered = p.covered }) v

-- Through any sequence of activations of periods that run forward, of renewals, failed payments,
-- suspensions and cancellations, every subscription's period ends no earlier than it starts, and
-- what is paid for reaches its end; a renewal must reach the end of the period if nothing was paid.
pub Reach-IsOrdered :
    {start rows : List Subscription} → Reach start rows → IsOrdered start → IsOrdered rows
Reach-IsOrdered here v = v
Reach-IsOrdered (next r s) v = Step-IsOrdered s (Reach-IsOrdered r v)
