-- ===== src/Budget/Retries.antt =====
-- A call of the AI is tried a bounded number of times, and the first try that does not raise decides.
use native.Mathlib.Decide.{dec_lt}
use omni_crm_backend.Prelude.{
  ◌≢◌, sym, ◌∙◌, ℕ, zero, suc, ◌+◌, ◌*◌, ◌≤◌, ◌<◌, ◌≡◌, refl, false, inl, inr, arith, Outcome, ok,
  err, ltb, leb, Bool-cases, if◌then◌else◌,
}
use omni_crm_backend.Budget.{
  AiTurnLimits, AiLimitError, Attempt, text_result, other_result, limit_raised, raised, answer,
  attempts, invoke_with_limits, output_length_exceeded, ai_retry_limit_exceeded, by_operation,
}

module _ {A : Type 0} (operation : ℕ → Attempt A) (limits : AiTurnLimits) where
  -- The result that one attempt decides on.
  abbrev pub decision : Attempt A → Outcome AiLimitError A
  decision (text_result n a) =
      if ltb (limits.max_output_tokens * 4) n then err output_length_exceeded else ok a
  decision (other_result a) = ok a
  decision limit_raised = err by_operation
  decision raised = err ai_retry_limit_exceeded

  -- The last attempt: all before it raised, and either it did not or it was the last allowed.
  pub record Decided (from : ℕ) (result : Outcome AiLimitError A × ℕ) : Type 0 where
    pub last : ℕ
    pub calls : result.1 ≡ suc last
    pub is_from : from ≤ last
    pub within : last ≤ limits.max_retries
    pub decided : result.0 ≡ decision (operation last)
    pub earlier : (k : ℕ) → from ≤ k → k < last → operation k ≡ raised
    pub exhausted : operation last ≡ raised → last ≡ limits.max_retries

  -- An attempt that does not raise is the last.
  decides :
      (from : ℕ) (a : Attempt A) (result : Outcome AiLimitError A)
      → operation from ≡ a
      → from ≤ limits.max_retries
      → result ≡ decision a
      → a ≢ raised
      → Decided from (result, suc from)
  decides from a result e h d final = record {
    last = from;
    calls = refl;
    is_from = omega arith;
    within = h;
    decided = rw e d;
    earlier = λ k low high. absurd (omega arith);
    exhausted = λ r. absurd (final (sym e ∙ r));
  }

  text-Decided :
      (from n : ℕ) (a : A) (retry : Outcome AiLimitError A × ℕ)
      → operation from ≡ text_result n a
      → from ≤ limits.max_retries
      → Decided from (answer operation limits from (text_result n a) retry)
  unfolding answer
  text-Decided from n a retry e h = elim (Bool-cases (ltb (limits.max_output_tokens * 4) n)) [
    | inl t ↦
        rw t (decides from (text_result n a) (err output_length_exceeded) e h (rw t) (λ f. cc))
    | inr t ↦ rw t (decides from (text_result n a) (ok a) e h (rw t) (λ f. cc))
  ]

  -- After an exception that may be retried the rest of the loop decides.
  raised-Decided :
      (from : ℕ) (retry : Outcome AiLimitError A × ℕ)
      → operation from ≡ raised
      → from ≤ limits.max_retries
      → (from < limits.max_retries → Decided (suc from) retry)
      → Decided from (answer operation limits from raised retry)
  unfolding answer
  raised-Decided from retry e h rest = elim (Bool-cases (leb limits.max_retries from)) [
    | inl t ↦ rw t record {
      last = from;
      calls = refl;
      is_from = omega arith;
      within = h;
      decided = rw e;
      earlier = λ k low high. absurd (omega arith);
      exhausted = λ r. ground arith;
    }
    | inr t ↦
        let d = rest (ground arith) in
        rw t record {
          last = d.last;
          calls = d.calls;
          is_from = omega (arith, d.is_from);
          within = d.within;
          decided = d.decided;
          earlier = λ k low high. elim (dec_lt from k) [
            | yes p ↦ d.earlier k p high
            | no p ↦ let same : k ≡ from = omega arith in rw same e
          ];
          exhausted = d.exhausted;
        }
  ]

  answer-Decided :
      (from : ℕ) (a : Attempt A) (retry : Outcome AiLimitError A × ℕ)
      → operation from ≡ a
      → from ≤ limits.max_retries
      → (from < limits.max_retries → Decided (suc from) retry)
      → Decided from (answer operation limits from a retry)
  unfolding answer
  answer-Decided from (text_result n a) retry e h rest = text-Decided from n a retry e h
  answer-Decided from (other_result a) retry e h rest =
      decides from (other_result a) (ok a) e h refl (λ f. cc)
  answer-Decided from limit_raised retry e h rest =
      decides from limit_raised (err by_operation) e h refl (λ f. cc)
  answer-Decided from raised retry e h rest = raised-Decided from retry e h rest

  attempts-Decided :
      (left from : ℕ)
      → from + left ≡ suc limits.max_retries
      → 0 < left
      → Decided from (attempts operation limits left from)
  unfolding attempts
  attempts-Decided zero from e h = absurd (omega arith)
  attempts-Decided (suc left) from e h =
      answer-Decided from (operation from) (attempts operation limits left (suc from)) refl
        (omega arith) (λ more. attempts-Decided left (suc from) (omega arith) (omega arith))

  -- Within the limit on tool calls, the operation is called at least once and at most
  -- `max_retries` + 1 times; every call before the last has raised, the result is what the last
  -- call decides on, and it is a call that raised only if no retry was left.
  pub invoke-Decided :
      (tool_call_count : ℕ)
      → tool_call_count ≤ limits.max_tool_calls
      → Decided 0 (invoke_with_limits operation limits tool_call_count)
  unfolding invoke_with_limits
  invoke-Decided tool_call_count h =
      let few : ltb limits.max_tool_calls tool_call_count ≡ false = ground arith in
      rw few (attempts-Decided (suc limits.max_retries) 0 (omega arith) (omega arith))
