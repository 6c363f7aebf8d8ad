-- ===== src/Webhooks/Leases.antt =====
-- The leases on events: what a claim of an event that is leased gives, and what a token that is not the
-- lease's can do.
use omni_crm_backend.Prelude.{
  ℕ, ◌+◌, ◌<◌, ◌≡◌, ◌≢◌, refl, String, false, inl, inr, none, some, List, arith, ok, ◌==◌, ==_iff,
  first, All, Bool-cases, Option-cases, seconds,
}
use omni_crm_backend.Prelude.RowLaws.{All-map, first_sound, first-none_of_All, All-update_where}
use omni_crm_backend.Webhooks.{
  WebhookEvent, claim_webhook_event, complete_webhook_event, fail_webhook_event, claimable, leased,
  lease, is_final, lease_seconds,
}
use omni_crm_backend.Webhooks.Held.{Held, Meanwhile, Meanwhile-Held}

claim_holds :
    (now token event_id : ℕ) (events : List WebhookEvent) {got : WebhookEvent × ℕ}
    → (claim_webhook_event now token event_id events).0 ≡ some got
    → All (Held event_id token now) (claim_webhook_event now token event_id events).1
unfolding claim_webhook_event
claim_holds now token event_id events h =
    elim (Option-cases (first (claimable now event_id) events)) [
      | inl e ↦ absurd (cc (rw (e, claim_webhook_event) at h))
      | inr (e, found) ↦
          let mine = first_sound (claimable now event_id) events found in
          rw (found, claim_webhook_event)
            (elim (Bool-cases (is_final e.status)) [
              | inl t ↦ absurd (ground (arith, mine, t))
              | inr t ↦ rw t (
                  All-update_where (Held event_id token now) (λ r. r.id == e.id) (lease now token)
                    (λ r _ _. (refl, refl, refl)) (λ r miss same. absurd (ground (arith, mine)))
                    events)
            ])
    ]

not_claimable :
    (now now' token event_id : ℕ)
    → now' < now + seconds lease_seconds
    → (e : WebhookEvent) → Held event_id token now e
    → claimable now' event_id e ≡ false
not_claimable now now' token event_id early e held = elim (Bool-cases (e.id == event_id)) [
  | inl t ↦ ground (arith, held ((==_iff e.id event_id).0 t))
  | inr t ↦ rw t
]

not_leased :
    (now token stale event_id : ℕ)
    → stale ≢ token
    → (e : WebhookEvent) → Held event_id token now e
    → leased event_id stale e ≡ false
not_leased now token stale event_id ne e held = elim (Bool-cases (e.id == event_id)) [
  | inl t ↦ ground (arith, held ((==_iff e.id event_id).0 t))
  | inr t ↦ rw t
]

claim_missing :
    (now token event_id : ℕ) (events : List WebhookEvent)
    → first (claimable now event_id) events ≡ none
    → claim_webhook_event now token event_id events ≡ (none, events)
unfolding claim_webhook_event
claim_missing now token event_id events h = rw (h, claim_webhook_event)

complete_missing :
    (now token event_id : ℕ) (events : List WebhookEvent)
    → first (leased event_id token) events ≡ none
    → complete_webhook_event now event_id token events ≡ (false, events)
unfolding complete_webhook_event
complete_missing now token event_id events h = rw (h, complete_webhook_event)

fail_missing :
    (now token event_id : ℕ) (code : String) (events : List WebhookEvent)
    → first (leased event_id token) events ≡ none
    → fail_webhook_event now event_id token code events ≡ (ok false, events)
unfolding fail_webhook_event
fail_missing now token event_id code events h = rw (h, fail_webhook_event)

-- Once an event is claimed, no claim of it before sixty seconds have passed succeeds or writes
-- anything, although in between there may have been claims of any events before that time,
-- redrives, and completions and failures of other events or with other tokens, in any order.
pub claim-claim :
    (now now' token token' event_id : ℕ) (events : List WebhookEvent) {later : List WebhookEvent}
    {got : WebhookEvent × ℕ}
    → (claim_webhook_event now token event_id events).0 ≡ some got
    → Meanwhile now token event_id (claim_webhook_event now token event_id events).1 later
    → now' < now + seconds lease_seconds
    → claim_webhook_event now' token' event_id later ≡ (none, later)
claim-claim now now' token token' event_id events {later} h m early =
    claim_missing now' token' event_id later (
      first-none_of_All (claimable now' event_id) later (
        All-map (Held event_id token now) (λ e. claimable now' event_id e ≡ false)
          (not_claimable now now' token event_id early) later
          (Meanwhile-Held now token event_id (claim_webhook_event now token event_id events).1 m
            (claim_holds now token event_id events h))))

-- After a claim of an event, a token other than the claim's
-- neither completes nor fails it: both calls give false and change nothing.
pub claim-complete_stale :
    (now now' token stale event_id : ℕ) (events : List WebhookEvent) {got : WebhookEvent × ℕ}
    → (claim_webhook_event now token event_id events).0 ≡ some got
    → stale ≢ token
    → (complete_webhook_event now' event_id stale (claim_webhook_event now token event_id events).1
        ≡ (false, (claim_webhook_event now token event_id events).1))
      × ((code : String)
          → fail_webhook_event now' event_id stale code
              (claim_webhook_event now token event_id events).1
            ≡ (ok false, (claim_webhook_event now token event_id events).1))
claim-complete_stale now now' token stale event_id events h ne =
    let after = (claim_webhook_event now token event_id events).1 in
    let gone = first-none_of_All (leased event_id stale) after (
      All-map (Held event_id token now) (λ e. leased event_id stale e ≡ false)
        (not_leased now token stale event_id ne) after (claim_holds now token event_id events h)) in
    (
      complete_missing now' stale event_id after gone,
      λ code. fail_missing now' stale event_id code after gone,
    )
