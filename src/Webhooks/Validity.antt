-- ===== src/Webhooks/Validity.antt =====
-- The well-formedness of the inbox, and that every operation keeps it.
use omni_crm_backend.Prelude.{
  ℕ, zero, suc, ◌≤◌, ◌<◌, ◌≡◌, refl, String, Bool, true, false, inl, inr, Option, none, some, List,
  arith, ok, leb, ◌==◌, is_some, first, update, All, Bool-cases, Option-cases,
}
use omni_crm_backend.Prelude.RowLaws.{first_sound, All-first}
use omni_crm_backend.Prelude.Keys.{IsKeyed, IsKeyed-update, All-update_key}
use omni_crm_backend.Webhooks.{
  EventStatus, WebhookEvent, claim_webhook_event, complete_webhook_event, fail_webhook_event,
  redrive_webhook_event, claimable, leased, lease, bury, postpone, backoff_seconds, retry, is_final,
  is_dead_letter, backoff_length,
}

-- What a status says of the other columns of its row.
abbrev pub Fits : EventStatus → ℕ → Option ℕ → Option ℕ → Type 0
Fits EventStatus.received attempts token expires = (attempts ≡ 0) × (expires ≡ none)
Fits EventStatus.quarantined attempts token expires = (attempts ≡ 0) × (expires ≡ none)
Fits EventStatus.processing attempts token expires =
    (1 ≤ attempts) × (is_some token ≡ true) × (is_some expires ≡ true)
Fits EventStatus.processed attempts token expires = (1 ≤ attempts) × (expires ≡ none)
Fits EventStatus.failed attempts token expires = (1 ≤ attempts) × (attempts < 5) × (expires ≡ none)
Fits EventStatus.dead_letter attempts token expires = (5 ≤ attempts) × (expires ≡ none)

abbrev pub IsValidEvent : WebhookEvent → Type 0
IsValidEvent e = Fits e.status e.attempts e.lease_token e.lease_expires_at

pub record IsValid (events : List WebhookEvent) : Type 0 where
  pub keyed : IsKeyed (λ e. e.id) events
  pub rows : All IsValidEvent events

-- A write to the row that a query has found keeps the table well formed if it does the row.
write-IsValid :
    (p : WebhookEvent → Bool) (f : WebhookEvent → WebhookEvent) (events : List WebhookEvent)
    {e : WebhookEvent}
    → ((x : WebhookEvent) → (f x).id ≡ x.id)
    → IsValid events
    → first p events ≡ some e
    → IsValidEvent (f e)
    → IsValid (update (λ r. r.id == e.id) f events)
write-IsValid p f events keep h found new = record {
  keyed = IsKeyed-update (λ e. e.id) _ f keep events h.keyed;
  rows = All-update_key (λ e. e.id) IsValidEvent p f events h.keyed found new h.rows;
}

-- A claim keeps a well-formed inbox well formed.
pub claim-IsValid :
    (now token event_id : ℕ) (events : List WebhookEvent)
    → IsValid events
    → IsValid (claim_webhook_event now token event_id events).1
unfolding claim_webhook_event
claim-IsValid now token event_id events h =
    elim (Option-cases (first (claimable now event_id) events)) [
      | inl e ↦ rw (e, claim_webhook_event) h
      | inr (e, found) ↦
          rw (found, claim_webhook_event)
            (elim (Bool-cases (is_final e.status)) [
              | inl t ↦ rw t h
              | inr t ↦ rw t (
                  write-IsValid (claimable now event_id) (lease now token) events (λ x. refl) h
                    found (omega arith, refl, refl))
            ])
    ]

processing_of_leased :
    (event_id token : ℕ) (e : WebhookEvent)
    → leased event_id token e ≡ true
    → e.status ≡ EventStatus.processing
processing_of_leased event_id token e h = ground arith

attempted :
    (event_id token : ℕ) (e : WebhookEvent)
    → leased event_id token e ≡ true
    → IsValidEvent e
    → 1 ≤ e.attempts
attempted event_id token e h v = ground arith

-- A completion keeps a well-formed inbox well formed.
pub complete-IsValid :
    (now event_id token : ℕ) (events : List WebhookEvent)
    → IsValid events
    → IsValid (complete_webhook_event now event_id token events).1
unfolding complete_webhook_event
complete-IsValid now event_id token events h =
    elim (Option-cases (first (leased event_id token) events)) [
      | inl e ↦ rw (e, complete_webhook_event) h
      | inr (e, found) ↦
          rw (found, complete_webhook_event)
            (write-IsValid (leased event_id token)
              (λ r. record r {
                status = EventStatus.processed;
                lease_expires_at = none;
                processed_at = some now;
              })
              events (λ x. refl) h found
              (
                attempted event_id token e (first_sound (leased event_id token) events found)
                    (All-first IsValidEvent (leased event_id token) events h.rows found),
                refl,
              ))
    ]

-- The delays that a retry may read: an attempt from one to four has one.
backoff_known :
    (n : ℕ) → 1 ≤ n → leb backoff_length n ≡ false → (delay : ℕ) × (backoff_seconds n ≡ some delay)
backoff_known zero low high = absurd (omega arith)
backoff_known (suc zero) low high = (5, refl)
backoff_known (suc (suc zero)) low high = (30, refl)
backoff_known (suc (suc (suc zero))) low high = (120, refl)
backoff_known (suc (suc (suc (suc zero)))) low high = (600, refl)
backoff_known (suc (suc (suc (suc (suc n))))) low high = absurd (ground arith)

-- What a failure does to a well-formed inbox: it never raises, and it keeps the inbox well formed.
pub fail_total :
    (now event_id token : ℕ) (code : String) (events : List WebhookEvent)
    → IsValid events
    → ((handled : Bool) × ((fail_webhook_event now event_id token code events).0 ≡ ok handled))
      × IsValid (fail_webhook_event now event_id token code events).1
unfolding fail_webhook_event retry
fail_total now event_id token code events h =
    elim (Option-cases (first (leased event_id token) events)) [
      | inl e ↦ rw (e, fail_webhook_event) ((false, refl), h)
      | inr (e, found) ↦
          let tried =
            attempted event_id token e (first_sound (leased event_id token) events found)
              (All-first IsValidEvent (leased event_id token) events h.rows found) in
          rw (found, fail_webhook_event)
            (elim (Bool-cases (leb backoff_length e.attempts)) [
              | inl t ↦ rw t (
                (true, refl),
                write-IsValid (leased event_id token) (bury code) events (λ x. refl) h found
                    (ground arith, refl),
              )
              | inr t ↦
                  let (delay, known) = backoff_known e.attempts tried t in
                  rw t (
                    rw (known, retry)
                      (
                        (true, refl),
                        write-IsValid (leased event_id token) (postpone now delay code) events
                            (λ x. refl) h found (tried, ground arith, refl),
                      ))
            ])
    ]

no_lease :
    (e : WebhookEvent) → is_dead_letter e.status ≡ true → IsValidEvent e → e.lease_expires_at ≡ none
no_lease e t v = ground arith

-- A redrive keeps a well-formed inbox well formed.
pub redrive-IsValid :
    (now event_id : ℕ) (events : List WebhookEvent)
    → IsValid events
    → IsValid (redrive_webhook_event now event_id events).1
unfolding redrive_webhook_event
redrive-IsValid now event_id events h = elim (Option-cases (first (λ e. e.id == event_id) events)) [
  | inl e ↦ rw (e, redrive_webhook_event) h
  | inr (e, found) ↦
      let row = All-first IsValidEvent (λ e. e.id == event_id) events h.rows found in
      rw (found, redrive_webhook_event)
        (elim (Bool-cases (is_dead_letter e.status)) [
          | inl t ↦ rw t (
              write-IsValid (λ e. e.id == event_id)
                (λ r. record r {
                  status = EventStatus.received;
                  attempts = 0;
                  next_attempt_at = now;
                  error_code = none;
                })
                events (λ x. refl) h found (refl, no_lease e t row))
          | inr t ↦ rw t h
        ])
]
