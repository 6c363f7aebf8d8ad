-- ===== src/Ledger/Leases.antt =====
-- The leases on the executions of rules.
use omni_crm_backend.Prelude.{
  ℕ, ◌+◌, ◌<◌, ◌≡◌, refl, true, inl, inr, Option, none, some, List, arith, seconds, ◌==◌,
  Bool-cases, Option-cases, first, All,
}
use omni_crm_backend.Prelude.RowLaws.{All-first, All-update_where, first_sound}
use omni_crm_backend.Ledger.{
  AutomationExecution, claim_execution, lease_execution, is_execution, is_refused,
}
use omni_crm_backend.Ledger.Held.{Held, Meanwhile, Meanwhile-Held}

module _ (tenant_id execution_id lease_seconds : ℕ) where
  refused_of :
      (now token : ℕ) (rows : List AutomationExecution) (o : Option AutomationExecution)
      → first (is_execution tenant_id execution_id) rows ≡ o
      → ((e : AutomationExecution) → o ≡ some e → is_refused now e ≡ true)
      → claim_execution now token tenant_id execution_id lease_seconds rows ≡ (none, rows)
  unfolding claim_execution
  refused_of now token rows none found r = rw (found, claim_execution)
  refused_of now token rows (some e) found r = rw (found, claim_execution) (rw (r e refl) refl)

  claim_holds :
      (now token : ℕ) (rows : List AutomationExecution) {t : ℕ}
      → (claim_execution now token tenant_id execution_id lease_seconds rows).0 ≡ some t
      → All
          (Held execution_id token (now + seconds lease_seconds))
          (claim_execution now token tenant_id execution_id lease_seconds rows).1
  unfolding claim_execution
  claim_holds now token rows h =
      elim (Option-cases (first (is_execution tenant_id execution_id) rows)) [
        | inl e ↦ absurd (ground (arith, e))
        | inr (e, found) ↦ elim (Bool-cases (is_refused now e)) [
          | inl r ↦ absurd (ground (arith, found, r))
          | inr r ↦
              let mine = first_sound (is_execution tenant_id execution_id) rows found in
              rw (found, claim_execution)
                (rw r (
                  All-update_where (Held execution_id token (now + seconds lease_seconds))
                    (λ x. x.id == e.id) (lease_execution now token lease_seconds)
                    (λ x _ _. (refl, refl, refl)) (λ x miss same. absurd (ground (arith, mine)))
                    rows))
        ]
      ]

  -- Once an execution is claimed, no claim of it before its lease has run out succeeds or writes
  -- anything, although in between there may have been claims of any executions before that time,
  -- completions of other executions or with other tokens, and retries of other executions, in any
  -- order.
  pub claim_execution-claim_execution :
      (now now' token token' : ℕ) (rows : List AutomationExecution)
      {later : List AutomationExecution} {t : ℕ}
      → (claim_execution now token tenant_id execution_id lease_seconds rows).0 ≡ some t
      → Meanwhile execution_id token
          (now + seconds lease_seconds)
          (claim_execution now token tenant_id execution_id lease_seconds rows).1
          later
      → now' < now + seconds lease_seconds
      → claim_execution now' token' tenant_id execution_id lease_seconds later ≡ (none, later)
  claim_execution-claim_execution now now' token token' rows {later} h m early =
      let until = now + seconds lease_seconds in
      let held =
        Meanwhile-Held execution_id token until
          (claim_execution now token tenant_id execution_id lease_seconds rows).1 m
          (claim_holds now token rows h) in
      refused_of now' token' later (first (is_execution tenant_id execution_id) later) refl
        (λ e found.
          let mine = first_sound (is_execution tenant_id execution_id) later found in
          let leased =
            All-first (Held execution_id token until) (is_execution tenant_id execution_id) later
              held found in
          let own : e.id ≡ execution_id = ground (arith, mine) in ground (arith, leased own))
