-- ===== src/Outbox/Backoff.antt =====
-- What the relay leaves behind: what waits is tried again within five minutes, and what the broker
-- has taken is not taken again.
use omni_crm_backend.Prelude.{
  ℕ, ◌+◌, ◌≤◌, ◌^◌, min, ◌≡◌, Bool, none, List, [], ◌∷◌, arith, seconds, ◌==◌, select, take, update,
  All,
}
use omni_crm_backend.Prelude.RowLaws.{All-update}
use omni_crm_backend.Outbox.{
  DomainEvent, OutboxEvent, relay_outbox_events, relay_rows, relayed, is_due,
}

-- A row waits at most until `deadline`, or the broker has it.
abbrev pub WaitsUntil : ℕ → OutboxEvent → Type 0
WaitsUntil deadline r = r.published_at ≡ none → r.next_attempt_at ≤ deadline

min-le_left : (a b : ℕ) → min a b ≤ a
min-le_left a b = omega arith

relayed-WaitsUntil :
    (accepts : DomainEvent → Bool) (now deadline : ℕ) (r : OutboxEvent)
    → now + seconds 300 ≤ deadline
    → WaitsUntil deadline (relayed accepts now r)
relayed-WaitsUntil accepts now deadline r late =
    ground (arith, min-le_left 300 (2 ^ min (r.attempts + 1) 8))

rows-WaitsUntil :
    (accepts : DomainEvent → Bool) (now deadline : ℕ) (selected rows : List OutboxEvent)
    → now + seconds 300 ≤ deadline
    → All (WaitsUntil deadline) rows
    → All (WaitsUntil deadline) (relay_rows accepts now selected rows).1
unfolding relay_rows
rows-WaitsUntil accepts now deadline [] rows late h = h
rows-WaitsUntil accepts now deadline (r ∷ selected) rows late h =
    rows-WaitsUntil accepts now deadline selected
      (update (λ x. x.id == r.id) (relayed accepts now) rows) late
      (All-update (WaitsUntil deadline) (λ x. x.id == r.id) (relayed accepts now)
        (λ x _ _. relayed-WaitsUntil accepts now deadline x late) rows h)

-- However often the broker has refused an event, and whatever it refuses in this round, no event
-- that waits is put off by more than five minutes from now.
pub relay-WaitsUntil :
    (accepts : DomainEvent → Bool) (now deadline limit : ℕ) (rows : List OutboxEvent)
    → now + seconds 300 ≤ deadline
    → All (WaitsUntil deadline) rows
    → All (WaitsUntil deadline) (relay_outbox_events accepts now limit rows).1
unfolding relay_outbox_events
relay-WaitsUntil accepts now deadline limit rows late h =
    rows-WaitsUntil accepts now deadline (take limit (select (is_due now) rows)) rows late h
