-- ===== src/Ledger/Held.antt =====
-- An execution that is leased, and what may happen to the executions meanwhile.
use omni_crm_backend.Prelude.{
  ℕ, ◌<◌, ◌≡◌, ◌≢◌, ◌⊎◌, refl, String, Bool, true, false, ◌&&◌, inl, inr, some, List, arith, ◌==◌,
  holds, first, update, All, Bool-cases, Option-cases,
}
use omni_crm_backend.Prelude.RowLaws.{All-first, All-update, first_sound}
use omni_crm_backend.Ledger.{
  AutomationExecution, ExecutionStatus, claim_execution, complete_execution,
  schedule_execution_retry, lease_execution, is_execution, is_refused,
}

-- The rows of the execution are leased with the token, at least until the instant.
abbrev pub Held : ℕ → ℕ → ℕ → AutomationExecution → Type 0
Held execution_id token until e =
    e.id ≡ execution_id
    → (e.status ≡ ExecutionStatus.processing)
      × (e.lease_token ≡ some token)
      × (e.lease_expires_at ≡ some until)

-- While an execution is leased: claims of any executions before the lease runs out, completions of
-- other executions or with other tokens, and retries of other executions, in any order.
pub data Meanwhile (execution_id token until : ℕ) (start : List AutomationExecution)
    : List AutomationExecution → Type 0 where
  here : Meanwhile execution_id token until start start
  claims :
      {rows : List AutomationExecution} (at other tenant execution lease : ℕ)
      → at < until
      → Meanwhile execution_id token until start rows
      → Meanwhile execution_id token until start
          (claim_execution at other tenant execution lease rows).1
  completes :
      {rows : List AutomationExecution} (at tenant execution other : ℕ) (status : ExecutionStatus)
      (result : String)
      → (execution ≢ execution_id) ⊎ (other ≢ token)
      → Meanwhile execution_id token until start rows
      → Meanwhile execution_id token until start
          (complete_execution at tenant execution other status result rows).1
  retries :
      {rows : List AutomationExecution} (reconcile : String → String) (at : ℕ)
      (e : AutomationExecution) (result : String) (is_unknown : Bool)
      → e.id ≢ execution_id
      → Meanwhile execution_id token until start rows
      → Meanwhile execution_id token until start
          (schedule_execution_retry reconcile at e result is_unknown rows)

module _ (execution_id token until : ℕ) where
  abbrev Leased : List AutomationExecution → Type 0
  Leased rows = All (Held execution_id token until) rows

  -- A write to a row that is none of the execution.
  write_keeps :
      (f : AutomationExecution → AutomationExecution) (k : ℕ) (rows : List AutomationExecution)
      → ((x : AutomationExecution) → (f x).id ≡ x.id)
      → k ≢ execution_id
      → Leased rows
      → Leased (update (λ x. x.id == k) f rows)
  write_keeps f k rows keep ne h =
      All-update (Held execution_id token until) (λ x. x.id == k) f
        (λ x hit _ same. absurd (ground (arith, keep x, ne))) rows h

  claim_keeps :
      (at other tenant execution lease : ℕ) (rows : List AutomationExecution)
      → at < until
      → Leased rows
      → Leased (claim_execution at other tenant execution lease rows).1
  unfolding claim_execution
  claim_keeps at other tenant execution lease rows early h =
      elim (Option-cases (first (is_execution tenant execution) rows)) [
        | inl e ↦ rw (e, claim_execution) h
        | inr (e, found) ↦
            rw (found, claim_execution)
              (elim (Bool-cases (is_refused at e)) [
                | inl r ↦ rw r h
                | inr r ↦
                    let held =
                      All-first (Held execution_id token until) (is_execution tenant execution) rows
                        h found in
                    rw r (
                      write_keeps (lease_execution at other lease) e.id rows (λ x. refl)
                        (λ same. absurd (ground (arith, r, held same))) h)
              ])
      ]

  foreign :
      (tenant execution other : ℕ) (e : AutomationExecution)
      → (execution ≢ execution_id) ⊎ (other ≢ token)
      → (is_execution tenant execution e && holds e.lease_token other) ≡ true
      → Held execution_id token until e
      → e.id ≢ execution_id
  foreign tenant execution other e (inl ne) fits held same =
      absurd (ground (arith, fits, held same))
  foreign tenant execution other e (inr ne) fits held same =
      absurd (ground (arith, fits, held same))

  complete_keeps :
      (at tenant execution other : ℕ) (status : ExecutionStatus) (result : String)
      (rows : List AutomationExecution)
      → (execution ≢ execution_id) ⊎ (other ≢ token)
      → Leased rows
      → Leased (complete_execution at tenant execution other status result rows).1
  unfolding complete_execution
  complete_keeps at tenant execution other status result rows ne h =
      elim (Option-cases
        (first (λ e. is_execution tenant execution e && holds e.lease_token other) rows)) [
          | inl e ↦ rw (e, complete_execution) h
          | inr (e, found) ↦
              let fits =
                first_sound (λ e. is_execution tenant execution e && holds e.lease_token other) rows
                  found in
              let held =
                All-first (Held execution_id token until)
                  (λ e. is_execution tenant execution e && holds e.lease_token other) rows h
                  found in
              rw (found, complete_execution)
                (write_keeps _ e.id rows (λ x. refl) (foreign tenant execution other e ne fits held)
                  h)
        ]

  retry_keeps :
      (reconcile : String → String) (at : ℕ) (e : AutomationExecution) (result : String)
      (is_unknown : Bool) (rows : List AutomationExecution)
      → e.id ≢ execution_id
      → Leased rows
      → Leased (schedule_execution_retry reconcile at e result is_unknown rows)
  unfolding schedule_execution_retry
  retry_keeps reconcile at e result true rows ne h = write_keeps _ e.id rows (λ x. refl) ne h
  retry_keeps reconcile at e result false rows ne h = write_keeps _ e.id rows (λ x. refl) ne h

  -- The lease lasts.
  pub Meanwhile-Held :
      (start : List AutomationExecution) {rows : List AutomationExecution}
      → Meanwhile execution_id token until start rows
      → All (Held execution_id token until) start
      → All (Held execution_id token until) rows
  Meanwhile-Held start here h = h
  Meanwhile-Held start (claims at other tenant execution lease early m) h =
      claim_keeps at other tenant execution lease _ early (Meanwhile-Held start m h)
  Meanwhile-Held start (completes at tenant execution other status result ne m) h =
      complete_keeps at tenant execution other status result _ ne (Meanwhile-Held start m h)
  Meanwhile-Held start (retries reconcile at e result is_unknown ne m) h =
      retry_keeps reconcile at e result is_unknown _ ne (Meanwhile-Held start m h)
