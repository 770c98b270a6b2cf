-- ===== src/Repository/Safety/Methods.antt =====
-- The methods of workflow-repository.ts as transitions of Commit.
use api_proxy.Base.{ℕ, refl, Text, Option, none, some}
use api_proxy.Contracts.Errors.{Thrown, ErrorCode}
use api_proxy.Contracts.Ids.{Platform}
use api_proxy.Contracts.Json.{Json}
use api_proxy.Contracts.Workflow.{StepId, WorkflowError}
use api_proxy.Persistence.Items.{Item, IdempotencyItem}
use api_proxy.Repository.{RepositoryOptions, CreateWorkflowInput, TerminalParams}
use api_proxy.Repository.Commit.{
  create, begin, mark_unknown, finish, publish, IsValidInput, CompletesAt,
}
use api_proxy.Repository.Service.{Service}
use api_proxy.Repository.Methods.{
  get_workflow, get_workflow_for_tenant, get_step, get_outbox_event, resolve_mapping, resolve_item,
  resolve_existing_workflow, create_failed, create_workflow, claim_answer, claim_failed, begin_step,
  mark_step_unknown_external_state, write_terminal, read_back, terminal_failed, advance_failed,
  complete_if_processing, fail_if_processing, mark_outbox_published, rethrow, or_throw,
}
use api_proxy.Repository.Safety.{
  Safe, Safe-pure, Safe-throw, Safe-lift, Safe-if, Safe-try_catch, Safe-get, Safe-update,
  Safe-transact,
}

module _ (platform : Platform) (options : RepositoryOptions) (s : Service platform options) where
  pub Safe-rethrow : {A : Type 0} (e : Thrown) → Safe platform options s (rethrow {A = A} e)
  unfolding rethrow
  Safe-rethrow e = Safe-throw platform options s _

  Safe-or_throw :
      {A : Type 0} (o : Option A) (c : ErrorCode) (m : Text)
      → Safe platform options s (or_throw o c m)
  unfolding or_throw
  Safe-or_throw none c m = Safe-throw platform options s _
  Safe-or_throw (some a) c m = Safe-pure platform options s a

  ruleset safe_rules = (
    Safe-pure, Safe-throw, Safe-lift, Safe-if, Safe-try_catch, Safe-get, Safe-rethrow,
    Safe-or_throw,
  )

  pub get_workflow-Safe : (r : Text) → Safe platform options s (get_workflow platform options s r)
  unfolding get_workflow
  get_workflow-Safe r = search safe_rules

  pub get_step-Safe :
      (r : Text) (z : StepId) → Safe platform options s (get_step platform options s r z)
  unfolding get_step
  get_step-Safe r z = search safe_rules

  pub get_workflow_for_tenant-Safe :
      (r c : Text) → Safe platform options s (get_workflow_for_tenant platform options s r c)
  unfolding get_workflow_for_tenant
  get_workflow_for_tenant-Safe r c = search (safe_rules, get_workflow-Safe)

  pub get_outbox_event-Safe :
      (r e : Text) → Safe platform options s (get_outbox_event platform options s r e)
  unfolding get_outbox_event
  get_outbox_event-Safe r e = search safe_rules

  resolve_mapping-Safe :
      (input : CreateWorkflowInput) (m : IdempotencyItem)
      → Safe platform options s (resolve_mapping platform options s input m)
  unfolding resolve_mapping
  resolve_mapping-Safe input m = search (safe_rules, get_workflow-Safe)

  resolve_item-Safe :
      (input : CreateWorkflowInput) (o : Option Item)
      → Safe platform options s (resolve_item platform options s input o)
  unfolding resolve_item
  resolve_item-Safe input o = search (safe_rules, resolve_mapping-Safe) depth 8

  resolve_existing_workflow-Safe :
      (input : CreateWorkflowInput)
      → Safe platform options s (resolve_existing_workflow platform options s input)
  unfolding resolve_existing_workflow
  resolve_existing_workflow-Safe input =
      Safe-try_catch platform options s _ _ _ (Safe-get platform options s _)
        (resolve_item-Safe input) (λ e. Safe-throw platform options s e)

  create_failed-Safe :
      (input : CreateWorkflowInput) (e : Thrown)
      → Safe platform options s (create_failed platform options s input e)
  unfolding create_failed
  create_failed-Safe input e = search (safe_rules, resolve_existing_workflow-Safe)

  pub create_workflow-Safe :
      (input : CreateWorkflowInput) (now : ℕ)
      → IsValidInput input
      → Safe platform options s (create_workflow platform options s input now)
  unfolding create_workflow
  create_workflow-Safe input now v =
      Safe-try_catch platform options s _ _ _
        (Safe-try_catch platform options s _ _ _
          (Safe-transact platform options s _ (λ t u. create input now v))
          (λ _. Safe-lift platform options s _) (λ e. Safe-throw platform options s e))
        (λ a. Safe-pure platform options s _) (create_failed-Safe input)

  claim_answer-Safe :
      (r : Text) (z : StepId) (ref : Option Text) (now : ℕ) (o : Option Item)
      → Safe platform options s (claim_answer platform options s r z ref now o)
  unfolding claim_answer
  claim_answer-Safe r z ref now none = search safe_rules
  claim_answer-Safe r z ref now (some old) = search safe_rules

  pub claim_failed-Safe :
      (r : Text) (z : StepId) (e : Thrown)
      → Safe platform options s (claim_failed platform options s r z e)
  unfolding claim_failed
  claim_failed-Safe r z e = search (safe_rules, get_step-Safe)

  pub begin_step-Safe :
      (r : Text) (z : StepId) (ref : Option Text) (now : ℕ)
      → Safe platform options s (begin_step platform options s r z ref now)
  unfolding begin_step
  begin_step-Safe r z ref now =
      Safe-try_catch platform options s _ _ _
        (Safe-try_catch platform options s _ _ _
          (Safe-update platform options s _ (λ t u. begin r z ref now))
          (λ o. claim_answer-Safe r z ref now o) (λ e. Safe-throw platform options s e))
        (λ a. Safe-pure platform options s a) (claim_failed-Safe r z)

  pub mark_step_unknown_external_state-Safe :
      (r : Text) (z : StepId) (now : ℕ)
      → Safe platform options s (mark_step_unknown_external_state platform options s r z now)
  unfolding mark_step_unknown_external_state
  mark_step_unknown_external_state-Safe r z now =
      Safe-try_catch platform options s _ _ _
        (Safe-update platform options s _ (λ t u. mark_unknown r z now))
        (λ a. Safe-pure platform options s tt) (λ e. search safe_rules)

  pub read_back-Safe : (r : Text) → Safe platform options s (read_back platform options s r)
  unfolding read_back
  read_back-Safe r = search (safe_rules, get_workflow-Safe)

  pub terminal_failed-Safe :
      (r : Text) (e : Thrown) → Safe platform options s (terminal_failed platform options s r e)
  unfolding terminal_failed
  terminal_failed-Safe r e = search (safe_rules, get_workflow-Safe)

  pub advance_failed-Safe :
      (r : Text) (e : Thrown) → Safe platform options s (advance_failed platform options s r e)
  unfolding advance_failed
  advance_failed-Safe r e = search (safe_rules, get_workflow-Safe) depth 8

  pub write_terminal-Safe :
      (p : TerminalParams) (now : ℕ)
      → CompletesAt p.outcome p.step_id
      → Safe platform options s (write_terminal platform options s p now)
  unfolding write_terminal
  write_terminal-Safe p now v =
      Safe-try_catch platform options s _ _ _
        (Safe-try_catch platform options s _ _ _
          (Safe-transact platform options s _ (λ t u. finish p now v))
          (λ _. read_back-Safe p.request_id) (λ e. Safe-throw platform options s e))
        (λ a. Safe-pure platform options s _) (terminal_failed-Safe p.request_id)

  pub complete_if_processing-Safe :
      (r : Text) (v : Json) (now : ℕ)
      → Safe platform options s (complete_if_processing platform options s r StepId.finalize v now)
  unfolding complete_if_processing
  complete_if_processing-Safe r v now = write_terminal-Safe _ now refl

  pub fail_if_processing-Safe :
      (r : Text) (z : StepId) (e : WorkflowError) (now : ℕ)
      → Safe platform options s (fail_if_processing platform options s r z e now)
  unfolding fail_if_processing
  fail_if_processing-Safe r z e now = write_terminal-Safe _ now tt

  pub mark_outbox_published-Safe :
      (r e : Text) (now : ℕ)
      → Safe platform options s (mark_outbox_published platform options s r e now)
  unfolding mark_outbox_published
  mark_outbox_published-Safe r e now =
      Safe-try_catch platform options s _ _ _
        (Safe-update platform options s _ (λ t u. publish r e now))
        (λ a. Safe-pure platform options s tt) (λ x. search safe_rules)
