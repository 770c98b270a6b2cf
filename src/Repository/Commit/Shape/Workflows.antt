-- ===== src/Repository/Commit/Shape/Workflows.antt =====
-- The shape of workflow items, under each transition.
use api_proxy.Base.{ℕ, ◌≡◌, refl, ap, subst, true, Text, text_eq, text_eq→eq, Option, some, arith}
use api_proxy.Contracts.Ids.{Platform}
use api_proxy.Persistence.Keys.{workflow_key}
use api_proxy.Persistence.Items.{Item, workflow_item}
use api_proxy.Persistence.Dynamo.{Table}
use api_proxy.Repository.{
  RepositoryOptions, CreateWorkflowInput, TerminalOutcome, completed_with, failed_with,
}
use api_proxy.Repository.Writes.{new_workflow, finished, update_workflow, in_flight}
use api_proxy.Repository.Commit.{Commit, create, begin, mark_unknown, advance, finish, publish}
use api_proxy.Repository.Commit.Reads.{
  create-workflow, begin-workflow, mark-workflow, advance-workflow, finish-workflow,
  publish-workflow,
}
use api_proxy.Repository.Commit.Guards.{finish_guard}
use api_proxy.Repository.Commit.Shape.{WorkflowShape, if_intro}

module _ (platform : Platform) (options : RepositoryOptions) where
  finished-shape :
      (o : TerminalOutcome) (now : ℕ) (r : Text) (old : Option Item)
      → in_flight old ≡ true
      → WorkflowShape r old
      → WorkflowShape r (update_workflow (finished platform options o now) old)
  unfolding finished
  finished-shape (completed_with v) now r (some (workflow_item i)) h s = ground arith
  finished-shape (failed_with v) now r (some (workflow_item i)) h s = ground arith
  finished-shape o now r _ h s = ground arith

  new-shape :
      (input : CreateWorkflowInput) (now : ℕ)
      → WorkflowShape input.request_id
          (some (workflow_item (new_workflow platform options input now)))
  unfolding new_workflow
  new-shape input now = (refl, (refl, refl, refl, refl))

  module _ (t u : Table) where
    -- A workflow is in flight with version 0 and in the index of processing workflows, or it is
    -- finished with version 1, the outcome of its status, and out of the index.
    pub Commit-WorkflowShape :
        ((r : Text) → WorkflowShape r (t (workflow_key r)))
        → Commit platform options t u
        → (r : Text) → WorkflowShape r (u (workflow_key r))
    Commit-WorkflowShape w (create input now v a e) r =
        rw
          (ap (λ (f : Table). f (workflow_key r)) e, create-workflow platform options t input now r)
          (if_intro (WorkflowShape r) (text_eq input.request_id r) _ _
            (λ h.
              subst
                (λ x.
                  WorkflowShape x (some (workflow_item (new_workflow platform options input now))))
                (text_eq→eq input.request_id r h) (new-shape input now))
            (w r))
    Commit-WorkflowShape w (begin q s ref now a e) r =
        rw
          (
            ap (λ (f : Table). f (workflow_key r)) e,
            begin-workflow platform options t q s ref now r,
          )
          (w r)
    Commit-WorkflowShape w (mark_unknown q s now a e) r =
        rw (ap (λ (f : Table). f (workflow_key r)) e, mark-workflow platform options t q s now r)
          (w r)
    Commit-WorkflowShape w (advance p now v x a e) r =
        rw (ap (λ (f : Table). f (workflow_key r)) e, advance-workflow platform options t p now r)
          (w r)
    Commit-WorkflowShape w (finish p now v a e) r =
        rw (ap (λ (f : Table). f (workflow_key r)) e, finish-workflow platform options t p now r)
          (if_intro (WorkflowShape r) (text_eq p.request_id r) _ _
            (λ h.
              subst
                (λ x. WorkflowShape x (
                  update_workflow (finished platform options p.outcome now)
                    (t (workflow_key p.request_id))))
                (text_eq→eq p.request_id r h)
                (finished-shape p.outcome now p.request_id (t (workflow_key p.request_id))
                  (finish_guard platform options t p now a) (w p.request_id)))
            (w r))
    Commit-WorkflowShape w (publish q f now a e) r =
        rw (ap (λ (g : Table). g (workflow_key r)) e, publish-workflow platform options t q f now r)
          (w r)
