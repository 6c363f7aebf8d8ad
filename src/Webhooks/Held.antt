-- ===== src/Webhooks/Held.antt =====
-- An event that is leased, and what may happen to the inbox meanwhile.
use omni_crm_backend.Prelude.{
  ℕ, ◌+◌, ◌<◌, ◌≡◌, ◌≢◌, ◌⊎◌, refl, String, Bool, false, inl, inr, Option, none, some, List, arith,
  leb, ◌==◌, first, update, All, Bool-cases, Option-cases, seconds,
}
use omni_crm_backend.Prelude.RowLaws.{All-first, All-update, first_sound}
use omni_crm_backend.Webhooks.{
  EventStatus, WebhookEvent, claim_webhook_event, complete_webhook_event, fail_webhook_event,
  redrive_webhook_event, claimable, leased, lease, bury, postpone, retry, is_final, is_dead_letter,
  backoff_length, backoff_seconds, lease_seconds,
}

-- The rows of the event are leased with the token until the lease runs out.
abbrev pub Held : ℕ → ℕ → ℕ → WebhookEvent → Type 0
Held event_id token now e =
    e.id ≡ event_id
    → (e.status ≡ EventStatus.processing)
      × (e.lease_token ≡ some token)
      × (e.lease_expires_at ≡ some (now + seconds lease_seconds))

-- While an event is leased: claims of any events before the lease runs out, completions and
-- failures of other events or with other tokens, and redrives, in any order.
pub data Meanwhile (now token event_id : ℕ) (start : List WebhookEvent)
    : List WebhookEvent → Type 0 where
  here : Meanwhile now token event_id start start
  claims :
      {events : List WebhookEvent} (at other event : ℕ)
      → at < now + seconds lease_seconds
      → Meanwhile now token event_id start events
      → Meanwhile now token event_id start (claim_webhook_event at other event events).1
  completes :
      {events : List WebhookEvent} (at event other : ℕ)
      → (event ≢ event_id) ⊎ (other ≢ token)
      → Meanwhile now token event_id start events
      → Meanwhile now token event_id start (complete_webhook_event at event other events).1
  fails :
      {events : List WebhookEvent} (at event other : ℕ) (code : String)
      → (event ≢ event_id) ⊎ (other ≢ token)
      → Meanwhile now token event_id start events
      → Meanwhile now token event_id start (fail_webhook_event at event other code events).1
  redrives :
      {events : List WebhookEvent} (at event : ℕ)
      → Meanwhile now token event_id start events
      → Meanwhile now token event_id start (redrive_webhook_event at event events).1

module _ (now token event_id : ℕ) where
  -- A write to the row that a query has found, where the query meets no leased row of the event.
  write_keeps :
      (p : WebhookEvent → Bool) (f : WebhookEvent → WebhookEvent) (events : List WebhookEvent)
      {e : WebhookEvent}
      → ((x : WebhookEvent) → Held event_id token now x → x.id ≡ event_id → p x ≡ false)
      → ((x : WebhookEvent) → (f x).id ≡ x.id)
      → All (Held event_id token now) events
      → first p events ≡ some e
      → All (Held event_id token now) (update (λ r. r.id == e.id) f events)
  write_keeps p f events {e} misses keep h found =
      let other : e.id ≢ event_id = λ same. absurd (
        ground (
          arith,
          first_sound p events found,
          misses e (All-first (Held event_id token now) p events h found) same,
        )) in
      All-update (Held event_id token now) (λ r. r.id == e.id) f
        (λ x hit _ same. absurd (ground (arith, keep x, other))) events h

  claim_keeps :
      (at other event : ℕ) (events : List WebhookEvent)
      → at < now + seconds lease_seconds
      → All (Held event_id token now) events
      → All (Held event_id token now) (claim_webhook_event at other event events).1
  unfolding claim_webhook_event
  claim_keeps at other event events early h =
      elim (Option-cases (first (claimable at event) events)) [
        | inl e ↦ rw (e, claim_webhook_event) h
        | inr (e, found) ↦
            rw (found, claim_webhook_event)
              (elim (Bool-cases (is_final e.status)) [
                | inl t ↦ rw t h
                | inr t ↦ rw t (
                    write_keeps (claimable at event) (lease at other) events
                      (λ x held same. ground (arith, held same)) (λ x. refl) h found)
              ])
      ]

  not_leased :
      (event other : ℕ)
      → (event ≢ event_id) ⊎ (other ≢ token)
      → (x : WebhookEvent) → Held event_id token now x
      → x.id ≡ event_id
      → leased event other x ≡ false
  not_leased event other (inl ne) x held same = ground (arith, held same)
  not_leased event other (inr ne) x held same = ground (arith, held same)

  complete_keeps :
      (at event other : ℕ) (events : List WebhookEvent)
      → (event ≢ event_id) ⊎ (other ≢ token)
      → All (Held event_id token now) events
      → All (Held event_id token now) (complete_webhook_event at event other events).1
  unfolding complete_webhook_event
  complete_keeps at event other events ne h =
      elim (Option-cases (first (leased event other) events)) [
        | inl e ↦ rw (e, complete_webhook_event) h
        | inr (e, found) ↦
            rw (found, complete_webhook_event)
              (write_keeps (leased event other) _ events (not_leased event other ne) (λ x. refl) h
                found)
      ]

  retry_keeps :
      (at event other : ℕ) (code : String) (events : List WebhookEvent) (e : WebhookEvent)
      (delay : Option ℕ)
      → (event ≢ event_id) ⊎ (other ≢ token)
      → All (Held event_id token now) events
      → first (leased event other) events ≡ some e
      → All (Held event_id token now) (retry at code e events delay).1
  unfolding retry
  retry_keeps at event other code events e none ne h found = h
  retry_keeps at event other code events e (some delay) ne h found =
      write_keeps (leased event other) (postpone at delay code) events (not_leased event other ne)
        (λ x. refl) h found

  fail_keeps :
      (at event other : ℕ) (code : String) (events : List WebhookEvent)
      → (event ≢ event_id) ⊎ (other ≢ token)
      → All (Held event_id token now) events
      → All (Held event_id token now) (fail_webhook_event at event other code events).1
  unfolding fail_webhook_event
  fail_keeps at event other code events ne h =
      elim (Option-cases (first (leased event other) events)) [
        | inl e ↦ rw (e, fail_webhook_event) h
        | inr (e, found) ↦
            rw (found, fail_webhook_event)
              (elim (Bool-cases (leb backoff_length e.attempts)) [
                | inl t ↦ rw t (
                    write_keeps (leased event other) (bury code) events (not_leased event other ne)
                      (λ x. refl) h found)
                | inr t ↦ rw t (
                    retry_keeps at event other code events e (backoff_seconds e.attempts) ne h
                      found)
              ])
      ]

  redrive_keeps :
      (at event : ℕ) (events : List WebhookEvent)
      → All (Held event_id token now) events
      → All (Held event_id token now) (redrive_webhook_event at event events).1
  unfolding redrive_webhook_event
  redrive_keeps at event events h = elim (Option-cases (first (λ e. e.id == event) events)) [
    | inl e ↦ rw (e, redrive_webhook_event) h
    | inr (e, found) ↦
        rw (found, redrive_webhook_event)
          (elim (Bool-cases (is_dead_letter e.status)) [
            | inr t ↦ rw t h
            | inl t ↦ rw t (
                let held =
                  All-first (Held event_id token now) (λ x. x.id == event) events h found in
                All-update (Held event_id token now) (λ r. r.id == e.id) _
                  (λ x hit _ same. absurd (ground (arith, t, held))) events h)
          ])
  ]

  -- The lease lasts.
  pub Meanwhile-Held :
      (start : List WebhookEvent) {events : List WebhookEvent}
      → Meanwhile now token event_id start events
      → All (Held event_id token now) start
      → All (Held event_id token now) events
  Meanwhile-Held start here h = h
  Meanwhile-Held start (claims at other event early m) h =
      claim_keeps at other event _ early (Meanwhile-Held start m h)
  Meanwhile-Held start (completes at event other ne m) h =
      complete_keeps at event other _ ne (Meanwhile-Held start m h)
  Meanwhile-Held start (fails at event other code ne m) h =
      fail_keeps at event other code _ ne (Meanwhile-Held start m h)
  Meanwhile-Held start (redrives at event m) h = redrive_keeps at event _ (Meanwhile-Held start m h)
