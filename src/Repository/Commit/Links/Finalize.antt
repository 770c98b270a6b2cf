-- ===== src/Repository/Commit/Links/Finalize.antt =====
-- A finished FINALIZE step and the workflow's status.
use api_proxy.Base.{
  ℕ, ◌≡◌, refl, ap, ◌∙◌, true, false, ◌&&◌, Text, text_eq, text_eq→eq, Option, arith, if◌then◌else◌,
}
use api_proxy.Contracts.Ids.{Platform}
use api_proxy.Contracts.Json.{Json}
use api_proxy.Contracts.Workflow.{StepId, WorkflowError}
use api_proxy.Persistence.Keys.{workflow_key, step_key}
use api_proxy.Persistence.Keys.Apart.{same_step}
use api_proxy.Persistence.Items.{Item}
use api_proxy.Persistence.Dynamo.{Table}
use api_proxy.Repository.{
  RepositoryOptions, TerminalParams, TerminalOutcome, completed_with, failed_with,
}
use api_proxy.Repository.Writes.{
  finished, finished_step, claimed, upsert_step, update_workflow, marked_unknown, in_flight,
  not_succeeded,
}
use api_proxy.Repository.Commit.{Commit, create, begin, mark_unknown, advance, finish, publish}
use api_proxy.Repository.Commit.Reads.{
  create-workflow, begin-workflow, mark-workflow, advance-workflow, finish-workflow,
  publish-workflow, create-step, begin-step, mark-step, advance-step, finish-step, publish-step,
}
use api_proxy.Repository.Commit.Guards.{create_guard, finish_guard}
use api_proxy.Repository.Commit.Links.{is_completed}

module _ (platform : Platform) (options : RepositoryOptions) where
  pub claimed-not_succeeded :
      (q : Text) (z : StepId) (ref : Option Text) (now : ℕ) (o : Option Item)
      → not_succeeded (upsert_step (claimed platform options q z ref now) o) ≡ true
  unfolding claimed
  claimed-not_succeeded q z ref now o = ground arith

  pub marked-not_succeeded :
      (now : ℕ) (o : Option Item) → not_succeeded (upsert_step (marked_unknown now) o) ≡ true
  unfolding marked_unknown
  marked-not_succeeded now o = ground arith

  failed_step-not_succeeded :
      (p : TerminalParams) (now : ℕ) (o : Option Item) {e : WorkflowError}
      → p.outcome ≡ failed_with e
      → not_succeeded (upsert_step (finished_step platform options p now) o) ≡ true
  unfolding finished_step
  failed_step-not_succeeded p now o h = ground arith

  finished-is_completed :
      (v : Json) (now : ℕ) (o : Option Item)
      → in_flight o ≡ true
      → is_completed (update_workflow (finished platform options (completed_with v) now) o) ≡ true
  unfolding finished
  finished-is_completed v now o h = ground arith

  abbrev pub FinalizeLink : Table → Text → Type 0
  FinalizeLink t r =
      not_succeeded (t (step_key r StepId.finalize)) ≡ false
      → is_completed (t (workflow_key r)) ≡ true

  module _ (t u : Table) (r : Text) (w : FinalizeLink t r) where
    finish_finalize :
        (p : TerminalParams) (now : ℕ) (o : TerminalOutcome)
        → p.outcome ≡ o
        → in_flight (t (workflow_key p.request_id)) ≡ true
        → u (step_key r StepId.finalize) ≡ (
            if text_eq p.request_id r && same_step p.step_id StepId.finalize
            then upsert_step
                (finished_step platform options p now)
                (t (step_key p.request_id p.step_id))
            else t (step_key r StepId.finalize))
        → u (workflow_key r) ≡ (
            if text_eq p.request_id r
            then update_workflow
                (finished platform options p.outcome now)
                (t (workflow_key p.request_id))
            else t (workflow_key r))
        → FinalizeLink u r
    finish_finalize p now (completed_with v) o g a b h =
        ground (arith, finished-is_completed v now (t (workflow_key p.request_id)))
    finish_finalize p now (failed_with x) o g a b h = ground (
      arith,
      text_eq→eq p.request_id r,
      failed_step-not_succeeded p now (t (step_key p.request_id p.step_id)) o,
    )

    -- The step FINALIZE has succeeded only where the workflow is COMPLETED.
    pub Commit-finalize : Commit platform options t u → FinalizeLink u r
    Commit-finalize (create input now v a e) h = ground (
      arith,
      ap (λ (f : Table). f (step_key r StepId.finalize)) e,
      ap (λ (f : Table). f (workflow_key r)) e,
      create-step platform options t input now r StepId.finalize,
      create-workflow platform options t input now r,
      create_guard platform options t input now a,
      text_eq→eq input.request_id r,
    )
    Commit-finalize (begin q s ref now a e) h = ground (
      arith,
      ap (λ (f : Table). f (step_key r StepId.finalize)) e,
      ap (λ (f : Table). f (workflow_key r)) e,
      begin-step platform options t q s ref now r StepId.finalize,
      begin-workflow platform options t q s ref now r,
      claimed-not_succeeded q s ref now (t (step_key q s)),
    )
    Commit-finalize (mark_unknown q s now a e) h = ground (
      arith,
      ap (λ (f : Table). f (step_key r StepId.finalize)) e,
      ap (λ (f : Table). f (workflow_key r)) e,
      mark-step platform options t q s now r StepId.finalize,
      mark-workflow platform options t q s now r,
      marked-not_succeeded now (t (step_key q s)),
    )
    Commit-finalize (advance p now v x a e) h = ground (
      arith,
      ap (λ (f : Table). f (step_key r StepId.finalize)) e,
      ap (λ (f : Table). f (workflow_key r)) e,
      advance-step platform options t p now r StepId.finalize,
      advance-workflow platform options t p now r,
    )
    Commit-finalize (finish p now v a e) h =
        finish_finalize p now p.outcome refl (finish_guard platform options t p now a)
          (ap (λ (f : Table). f (step_key r StepId.finalize)) e
            ∙ finish-step platform options t p now r StepId.finalize)
          (ap (λ (f : Table). f (workflow_key r)) e ∙ finish-workflow platform options t p now r) h
    Commit-finalize (publish q f now a e) h = ground (
      arith,
      ap (λ (g : Table). g (step_key r StepId.finalize)) e,
      ap (λ (g : Table). g (workflow_key r)) e,
      publish-step platform options t q f now r StepId.finalize,
      publish-workflow platform options t q f now r,
    )
