-- ===== src/Timers/Schedule.antt =====
-- A rule has at most one timer that waits on a conversation for its trigger.
use text.Mathlib.TextEquality.{eq_iff}
use omni_crm_backend.Prelude.{
  ℕ, ◌≤◌, ◌≡◌, String, Bool, true, not, ◌&&◌, ◌||◌, inl, inr, List, [], ◌∷◌, arith, map, Bool-cases,
  Option-cases, first, select, insert, count,
}
use omni_crm_backend.Prelude.RowLaws.{count-append, count-zero_of_first}
use omni_crm_backend.Conversations.{Conversation, Message, Direction}
use omni_crm_backend.Timers.{
  ConversationTimer, AutomationRule, schedule_timer, schedule_one, schedule_rules,
  schedule_unanswered_timers, draft_timer, pending_of, same_activity, is_system, is_outbound,
  is_team, trigger_of, applies,
}

abbrev pub IsSingleTimer : List ConversationTimer → Type 0
IsSingleTimer timers =
    (tid cid rid : ℕ) (trigger : String) → count (pending_of tid cid trigger rid) timers ≤ 1

-- The row that is added counts for one key only, and there no row counted before.
added_count :
    (t : ConversationTimer) (timers : List ConversationTimer)
    → count (pending_of t.tenant_id t.conversation_id t.trigger_type t.rule_id) timers ≡ 0
    → IsSingleTimer timers
    → IsSingleTimer (insert t timers)
added_count t timers zeros h tid cid rid trigger =
    elim (Bool-cases (pending_of tid cid trigger rid t)) [
      | inr e ↦ rw count-append (unfold count in rw e (omega (arith, h tid cid rid trigger)))
      | inl e ↦ rw count-append (unfold count in rw e (omega (arith, same e)))
    ]
  where
    same :
        pending_of tid cid trigger rid t ≡ true → count (pending_of tid cid trigger rid) timers ≡ 0
    same e =
        let p : t.tenant_id ≡ tid = ground (arith, eq_iff t.trigger_type trigger) in
        let q : t.conversation_id ≡ cid = ground (arith, eq_iff t.trigger_type trigger) in
        let r : t.rule_id ≡ rid = ground (arith, eq_iff t.trigger_type trigger) in
        let s : t.trigger_type ≡ trigger = ground (arith, eq_iff t.trigger_type trigger) in
        rw (← p, ← q, ← r, ← s) zeros

schedule_timer-IsSingleTimer :
    (t : ConversationTimer) (timers : List ConversationTimer)
    → count (pending_of t.tenant_id t.conversation_id t.trigger_type t.rule_id) timers ≡ 0
    → IsSingleTimer timers
    → IsSingleTimer (schedule_timer t timers).1
unfolding schedule_timer
schedule_timer-IsSingleTimer t timers zeros h tid cid rid trigger =
    elim (Option-cases (first (same_activity t) timers)) [
      | inl e ↦ rw (e, schedule_timer) (added_count t timers zeros h tid cid rid trigger)
      | inr (old, e) ↦ rw (e, schedule_timer) (h tid cid rid trigger)
    ]

module _ (now : ℕ) (c : Conversation) (message_id : ℕ) (trigger_type : String) where
  one-IsSingleTimer :
      (id : ℕ) (rule : AutomationRule) (timers : List ConversationTimer)
      → IsSingleTimer timers
      → IsSingleTimer (schedule_one now c message_id trigger_type id rule timers).1
  unfolding schedule_one draft_timer
  one-IsSingleTimer id rule timers h =
      elim (Option-cases (first (pending_of c.tenant_id c.id trigger_type rule.id) timers)) [
        | inr (t, e) ↦ rw (e, schedule_one) h
        | inl e ↦
            rw (e, schedule_one)
              (schedule_timer-IsSingleTimer
                (draft_timer now c message_id trigger_type id rule timers) timers
                (count-zero_of_first (pending_of c.tenant_id c.id trigger_type rule.id) timers e) h)
      ]

  rules-IsSingleTimer :
      (rules : List (ℕ × AutomationRule)) (timers : List ConversationTimer)
      → IsSingleTimer timers
      → IsSingleTimer (schedule_rules now c message_id trigger_type rules timers).1
  unfolding schedule_rules
  rules-IsSingleTimer [] timers h = h
  rules-IsSingleTimer ((id, rule) ∷ rest) timers h =
      rules-IsSingleTimer rest (schedule_one now c message_id trigger_type id rule timers).1
        (one-IsSingleTimer id rule timers h)

-- A message on a conversation never gives a rule a second timer that waits there for the same
-- trigger.
pub schedule_unanswered-IsSingleTimer :
    (now : ℕ) (fresh : AutomationRule → ℕ) (c : Conversation) (direction : Direction) (m : Message)
    (accepted : Bool) (rules : List AutomationRule) (timers : List ConversationTimer)
    → IsSingleTimer timers
    → IsSingleTimer (schedule_unanswered_timers now fresh c direction m accepted rules timers).1
unfolding schedule_unanswered_timers
schedule_unanswered-IsSingleTimer now fresh c direction m accepted rules timers h =
    elim (Bool-cases (not accepted || is_system m.author_type)) [
      | inl e ↦ rw e h
      | inr e ↦ elim (Bool-cases (is_outbound direction && not (is_team m.author_type))) [
        | inl d ↦ rw (e, d) h
        | inr d ↦
            rw (e, d)
              (rules-IsSingleTimer now c m.id (trigger_of direction)
                (map (λ r. (fresh r, r))
                  (select (applies c.tenant_id (trigger_of direction)) rules))
                timers h)
      ]
    ]
