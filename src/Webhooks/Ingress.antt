-- ===== src/Webhooks/Ingress.antt =====
-- Deliveries are stored once: the event key is unique, and a delivery that comes again changes
-- nothing and gives back the rows of the first time.
use mathlib.Core.Path.{subst}
use text.Mathlib.Text.{◌==◌ as str_eq}
use text.Mathlib.TextEquality.{eq_iff}
use text.Mathlib.TextPositions.{eq_refl}
use omni_crm_backend.Prelude.{
  ℕ, ◌≤◌, ◌≡◌, refl, String, Bool, inl, inr, none, some, List, [], ◌∷◌, arith, map, first,
  Option-cases, count,
}
use omni_crm_backend.Prelude.RowLaws.{first-append, count-append, count-zero_of_first}
use omni_crm_backend.Webhooks.{
  WebhookEvent, WebhookEnvelope, ChannelAsset, event_key, new_event, persist_one,
  persist_webhook_envelopes,
}

abbrev keyed : String → WebhookEvent → Bool
keyed k r = str_eq r.event_key k

-- The rows that a delivery gave back are what its keys find in the table.
abbrev Stored : List (ℕ × WebhookEnvelope) → List WebhookEvent → List WebhookEvent → Type 0
Stored [] [] events = Unit
Stored [] (x ∷ xs) events = ⊥
Stored ((id, e) ∷ rest) [] events = ⊥
Stored ((id, e) ∷ rest) (x ∷ xs) events =
    (first (keyed (event_key e)) events ≡ some x) × Stored rest xs events

-- No key is in two rows.
abbrev pub IsUnique : List WebhookEvent → Type 0
IsUnique events = (k : String) → count (keyed k) events ≤ 1

absent :
    (j : String) (events : List WebhookEvent)
    → first (keyed j) events ≡ none
    → (k : String) → j ≡ k
    → count (keyed k) events ≡ 0
absent j events h k same =
    subst (λ k. count (keyed k) events ≡ 0) same (count-zero_of_first (keyed j) events h)

module _ (meta_app_id : String) (assets : List ChannelAsset) where
  one_found :
      (now id : ℕ) (e : WebhookEnvelope) (events : List WebhookEvent)
      → first (keyed (event_key e)) (persist_one meta_app_id assets now id e events).1
        ≡ some (persist_one meta_app_id assets now id e events).0
  unfolding persist_one
  one_found now id e events = elim (Option-cases (first (keyed (event_key e)) events)) [
    | inl new ↦
        rw (new, persist_one)
          (rw first-append (rw new (unfold first new_event in rw (eq_refl (event_key e)))))
    | inr (r, old) ↦ rw (old, persist_one) old
  ]

  -- A row that is found stays found.
  one_keeps :
      (now id : ℕ) (e : WebhookEnvelope) (k : String) (events : List WebhookEvent)
      {r : WebhookEvent}
      → first (keyed k) events ≡ some r
      → first (keyed k) (persist_one meta_app_id assets now id e events).1 ≡ some r
  unfolding persist_one
  one_keeps now id e k events h = elim (Option-cases (first (keyed (event_key e)) events)) [
    | inl new ↦ rw (new, persist_one) (rw first-append (rw h))
    | inr (r, old) ↦ rw (old, persist_one) h
  ]

  all_keep :
      (now : ℕ) (batch : List (ℕ × WebhookEnvelope)) (k : String) (events : List WebhookEvent)
      {r : WebhookEvent}
      → first (keyed k) events ≡ some r
      → first (keyed k) (persist_webhook_envelopes meta_app_id assets now batch events).1 ≡ some r
  unfolding persist_webhook_envelopes
  all_keep now [] k events h = h
  all_keep now ((id, e) ∷ rest) k events h =
      all_keep now rest k (persist_one meta_app_id assets now id e events).1
        (one_keeps now id e k events h)

  all-Stored :
      (now : ℕ) (batch : List (ℕ × WebhookEnvelope)) (events : List WebhookEvent)
      → Stored batch
          (persist_webhook_envelopes meta_app_id assets now batch events).0
          (persist_webhook_envelopes meta_app_id assets now batch events).1
  unfolding persist_webhook_envelopes
  all-Stored now [] events = tt
  all-Stored now ((id, e) ∷ rest) events =
      let next = persist_one meta_app_id assets now id e events in
      (
        all_keep now rest (event_key e) next.1 (one_found now id e events),
        all-Stored now rest next.1,
      )

  again :
      (later : ℕ) (f : ℕ → ℕ) (batch : List (ℕ × WebhookEnvelope)) (rows events : List WebhookEvent)
      → Stored batch rows events
      → persist_webhook_envelopes meta_app_id assets later (map (λ p. (f p.0, p.1)) batch) events
        ≡ (rows, events)
  unfolding persist_webhook_envelopes
  again later f [] [] events h = refl
  again later f [] (x ∷ xs) events h = absurd h
  again later f ((id, e) ∷ rest) [] events h = absurd h
  again later f ((id, e) ∷ rest) (x ∷ xs) events h =
      rw (known e x events h.0) (rw (again later f rest xs events h.1))
    where
      known :
          (e : WebhookEnvelope) (x : WebhookEvent) (events : List WebhookEvent)
          → first (keyed (event_key e)) events ≡ some x
          → persist_one meta_app_id assets later (f id) e events ≡ (x, events)
      known e x events found = unfold persist_one in rw (found, persist_one)

  -- A batch that is delivered again at any later time gives back the rows of the first delivery
  -- and leaves the table as it is.
  pub persist-persist :
      (now later : ℕ) (f : ℕ → ℕ) (batch : List (ℕ × WebhookEnvelope)) (events : List WebhookEvent)
      → persist_webhook_envelopes meta_app_id assets later
          (map (λ p. (f p.0, p.1)) batch)
          (persist_webhook_envelopes meta_app_id assets now batch events).1
        ≡ persist_webhook_envelopes meta_app_id assets now batch events
  persist-persist now later f batch events =
      again later f batch (persist_webhook_envelopes meta_app_id assets now batch events).0
        (persist_webhook_envelopes meta_app_id assets now batch events).1
        (all-Stored now batch events)

  one-IsUnique :
      (now id : ℕ) (e : WebhookEnvelope) (events : List WebhookEvent)
      → IsUnique events
      → IsUnique (persist_one meta_app_id assets now id e events).1
  unfolding persist_one
  one-IsUnique now id e events h k = elim (Option-cases (first (keyed (event_key e)) events)) [
    | inl new ↦
        rw (new, persist_one)
          (rw count-append (
            unfold count new_event in
            ground (arith, h k, eq_iff (event_key e) k, absent (event_key e) events new k)))
    | inr (r, old) ↦ rw (old, persist_one) (h k)
  ]

  -- Whatever the batch, no event key is stored twice.
  pub persist-IsUnique :
      (now : ℕ) (batch : List (ℕ × WebhookEnvelope)) (events : List WebhookEvent)
      → IsUnique events
      → IsUnique (persist_webhook_envelopes meta_app_id assets now batch events).1
  unfolding persist_webhook_envelopes
  persist-IsUnique now [] events h = h
  persist-IsUnique now ((id, e) ∷ rest) events h =
      persist-IsUnique now rest (persist_one meta_app_id assets now id e events).1
        (one-IsUnique now id e events h)
