-- ===== src/Timers/Settled.antt =====
-- What firing and cancelling timers leaves.
use omni_crm_backend.Prelude.{
  ℕ, ◌+◌, ◌≡◌, refl, String, Bool, false, inl, inr, List, [], ◌∷◌, arith, Bool-cases, select, take,
  update, insert, length, count,
}
use omni_crm_backend.Prelude.RowLaws.{count-none_of_All, All-update_where}
use omni_crm_backend.Outbox.{publish_domain_event, outbox_row}
use omni_crm_backend.Timers.{
  ConversationTimer, TimerStatus, TimerStore, fire_due_timers, fire_rows, fire_one, is_void, is_due,
  set_status, is_unanswered, cancel_unanswered_timers, timer_event,
}

length-insert {ℓ} : {A : Type ℓ} (x : A) (xs : List A) → length (insert x xs) ≡ length xs + 1
length-insert x [] = refl
length-insert x (y ∷ ys) = omega (arith, length-insert x ys)

length-select {ℓ} : {A : Type ℓ} (p : A → Bool) (xs : List A) → length (select p xs) ≡ count p xs
unfolding select count
length-select p [] = refl
length-select p (x ∷ xs) = ground (arith, length-select p xs)

one_event :
    (now : ℕ) (draw : ConversationTimer → ℕ × String) (t : ConversationTimer) (db : TimerStore)
    → length (fire_one now draw t db).1.outbox ≡ length db.outbox + (fire_one now draw t db).0
unfolding fire_one publish_domain_event
one_event now draw t db = elim (Bool-cases (is_void db t)) [
  | inl e ↦ rw e (omega arith)
  | inr e ↦ rw e (length-insert (outbox_row now (timer_event now (draw t) t)) db.outbox)
]

rows_events :
    (now : ℕ) (draw : ConversationTimer → ℕ × String) (rows : List ConversationTimer)
    (db : TimerStore)
    → length (fire_rows now draw rows db).1.outbox
      ≡ length db.outbox + (fire_rows now draw rows db).0
unfolding fire_rows
rows_events now draw [] db = omega arith
rows_events now draw (t ∷ rest) db =
    omega (arith, one_event now draw t db, rows_events now draw rest (fire_one now draw t db).1)

-- A run over the due timers stores exactly one event for each timer that it reports as fired.
pub length-fire_due_timers :
    (now : ℕ) (draw : ConversationTimer → ℕ × String) (limit : ℕ) (db : TimerStore)
    → length (fire_due_timers now draw limit db).1.outbox
      ≡ length db.outbox + (fire_due_timers now draw limit db).0
unfolding fire_due_timers
length-fire_due_timers now draw limit db =
    rows_events now draw (take limit (select (is_due now) db.timers)) db

-- A cancellation reports how many timers waited for the trigger, and leaves none.
pub cancel_unanswered-count :
    (tenant_id conversation_id : ℕ) (trigger_type : String) (timers : List ConversationTimer)
    → let run = cancel_unanswered_timers tenant_id conversation_id trigger_type timers in
      (run.0 ≡ count (is_unanswered tenant_id conversation_id trigger_type) timers)
      × (count (is_unanswered tenant_id conversation_id trigger_type) run.1 ≡ 0)
unfolding cancel_unanswered_timers
cancel_unanswered-count tenant_id conversation_id trigger_type timers = (
  length-select (is_unanswered tenant_id conversation_id trigger_type) timers,
  count-none_of_All (is_unanswered tenant_id conversation_id trigger_type)
      (update (is_unanswered tenant_id conversation_id trigger_type)
        (set_status TimerStatus.cancelled) timers)
      (All-update_where (λ t. is_unanswered tenant_id conversation_id trigger_type t ≡ false)
        (is_unanswered tenant_id conversation_id trigger_type) (set_status TimerStatus.cancelled)
        (λ t h. ground arith) (λ t h. h) timers),
)
