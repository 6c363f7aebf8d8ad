-- ===== src/Opportunities/Placed.antt =====
-- Where an opportunity may stand.
use mathlib.Core.Path.{subst}
use omni_crm_backend.Prelude.{
  sym, ℕ, ◌≡◌, refl, String, Bool, true, false, ◌&&◌, inl, inr, Option, none, some, List, [], ◌∷◌,
  arith, ◌==◌, ==_refl, Bool-cases, first, update, All,
}
use omni_crm_backend.Prelude.RowLaws.{first_sound, first-update}
use omni_crm_backend.Prelude.Keys.{IsKeyed, All-update_key}
use omni_crm_backend.Tenancy.{TenantContext}
use omni_crm_backend.Opportunities.{
  Board, Opportunity, PipelineStage, in_tenant, is_target, is_lost, is_blank, staged, change_to,
  change_found, change_opportunity_stage, with_reason, or_before, stage_found, change_stage,
}

-- The opportunity stands in a stage of its tenant and its pipeline, and has a reason if it is lost.
pub record IsPlaced (stages : List PipelineStage) (o : Opportunity) : Type 0 where
  pub stage : PipelineStage
  pub found : first (is_target o.tenant_id o.stage_id o.pipeline_id) stages ≡ some stage
  pub explained : is_lost stage.terminal_type ≡ true → is_blank o.loss_reason ≡ false

abbrev pub AllPlaced : Board → Type 0
AllPlaced board = All (IsPlaced board.stages) board.opportunities

staged-IsPlaced :
    (tenant_id target : ℕ) (o : Opportunity) (stages : List PipelineStage) (s : PipelineStage)
    → o.tenant_id ≡ tenant_id
    → first (is_target tenant_id target o.pipeline_id) stages ≡ some s
    → (is_lost s.terminal_type && is_blank o.loss_reason) ≡ false
    → IsPlaced stages (staged s.id o)
staged-IsPlaced tenant_id target o stages s same found free = record {
  stage = s;
  found =
      let at : s.id ≡ target =
        ground (arith, first_sound (is_target tenant_id target o.pipeline_id) stages found) in
      subst (λ t. first (is_target t s.id o.pipeline_id) stages ≡ some s) (sym same)
        (subst (λ k. first (is_target tenant_id k o.pipeline_id) stages ≡ some s) (sym at) found);
  explained = λ l. ground arith;
}

module _ {ℓ} {A : Type ℓ} (p : A → Bool) (f g : A → A) where
  -- Two writes to the same rows are one.
  update-update_both :
      ((x : A) → p (f x) ≡ p x)
      → (xs : List A) → update p g (update p f xs) ≡ update p (λ x. g (f x)) xs
  unfolding update
  update-update_both keep [] = refl
  update-update_both keep (x ∷ xs) = elim (Bool-cases (p x)) [
    | inl e ↦ rw e (rw (keep x) (rw e (rw (update-update_both keep xs))))
    | inr e ↦ rw e (rw e (rw (update-update_both keep xs)))
  ]

module _ (context : TenantContext) (target : ℕ) (reason : Option String) where
  -- The board on which the stage is changed.
  abbrev explained_board : Opportunity → Board → Board
  explained_board o board = record board {
    opportunities = update (λ x. x.id == o.id) (with_reason reason) board.opportunities;
  }

  changed-AllPlaced :
      (board : Board) (p : Opportunity → Bool) (o : Opportunity) (s : Option PipelineStage)
      → IsKeyed (λ x. x.id) board.opportunities
      → AllPlaced board
      → first p board.opportunities ≡ some o
      → o.tenant_id ≡ context.tenant_id
      → first (is_target context.tenant_id target o.pipeline_id) board.stages ≡ s
      → AllPlaced
          (or_before board
            (change_to (some context.user_id) (with_reason reason o) (explained_board o board) s)).1
  unfolding change_to
  changed-AllPlaced board p o none keyed placed found same at = placed
  changed-AllPlaced board p o (some s) keyed placed found same at =
      elim (Bool-cases (is_lost s.terminal_type && is_blank (with_reason reason o).loss_reason)) [
        | inl e ↦ rw e placed
        | inr e ↦ rw e (
            rw
              (update-update_both (λ x. x.id == o.id) (with_reason reason) (staged s.id) (λ x. refl)
                board.opportunities)
              (All-update_key (λ x. x.id) (IsPlaced board.stages) p
                (λ x. staged s.id (with_reason reason x)) board.opportunities keyed found
                (staged-IsPlaced context.tenant_id target (with_reason reason o) board.stages s same
                  at e)
                placed))
      ]

  stage_found-AllPlaced :
      (board : Board) (opportunity_id : ℕ) (o : Option Opportunity)
      → IsKeyed (λ x. x.id) board.opportunities
      → AllPlaced board
      → first (in_tenant context.tenant_id opportunity_id) board.opportunities ≡ o
      → AllPlaced (stage_found context target reason board o).1
  unfolding stage_found
  stage_found-AllPlaced board opportunity_id none keyed placed found = placed
  stage_found-AllPlaced board opportunity_id (some o) keyed placed found =
      let own =
        first_sound (in_tenant context.tenant_id opportunity_id) board.opportunities found in
      let number : o.id ≡ opportunity_id = ground arith in
      let same : o.tenant_id ≡ context.tenant_id = ground arith in
      let again : first (in_tenant context.tenant_id o.id) (explained_board o board).opportunities
          ≡ some (with_reason reason o) =
        rw
          (first-update (in_tenant context.tenant_id o.id) (λ x. x.id == o.id) (with_reason reason)
            (λ x. ground arith) board.opportunities)
          (rw
            (subst (λ k. first (in_tenant context.tenant_id k) board.opportunities ≡ some o)
              (sym number) found)
            (rw (==_refl o.id))) in
      unfold change_opportunity_stage in
      rw again (
        unfold change_found in
        changed-AllPlaced board (in_tenant context.tenant_id opportunity_id) o
          (first (is_target context.tenant_id target o.pipeline_id) board.stages) keyed placed found
          same refl)

  -- Whether it succeeds or is refused, a request to change the stage of an opportunity, with or
  -- without a new reason for a loss, keeps every opportunity in a stage of its own tenant and
  -- pipeline, and every opportunity in a lost stage with a reason.
  pub change_stage-AllPlaced :
      (opportunity_id : ℕ) (board : Board)
      → IsKeyed (λ x. x.id) board.opportunities
      → AllPlaced board
      → AllPlaced (change_stage context opportunity_id target reason board).1
  unfolding change_stage
  change_stage-AllPlaced opportunity_id board keyed placed =
      stage_found-AllPlaced board opportunity_id
        (first (in_tenant context.tenant_id opportunity_id) board.opportunities) keyed placed refl
