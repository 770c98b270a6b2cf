-- ===== src/Finalizer/Safety.antt =====
-- The handler of apps/finalizer as transitions of Commit.
use api_proxy.Base.{ℕ, Text, Option, none, some}
use api_proxy.Contracts.Errors.{
  AppError, FailureClass, Thrown, app_error, conditional_check_failed_exception,
  transaction_canceled_exception, other_error,
}
use api_proxy.Contracts.Ids.{Platform}
use api_proxy.Contracts.Workflow.{WorkflowRecord, WorkflowError, StepId}
use api_proxy.Contracts.Domain.{
  Enrichment, OperationInput, OperationResult, ProviderStatus, ProviderOperationRequest,
  ProviderOperationResponse,
}
use api_proxy.Contracts.Messages.{WorkflowMessage, Payload, enrich_payload, finalize_payload}
use api_proxy.Repository.{RepositoryOptions, BeginStepResult, started, resumed, already_succeeded}
use api_proxy.Repository.Service.{Service}
use api_proxy.Repository.Clock.{Clock, timed}
use api_proxy.Repository.Methods.{begin_step}
use api_proxy.Repository.Safety.{Safe-lift, Safe, Safe-pure, Safe-throw, Safe-if, Safe-try_catch}
use api_proxy.Repository.Safety.Methods.{
  get_workflow-Safe, begin_step-Safe, fail_if_processing-Safe, complete_if_processing-Safe,
  mark_step_unknown_external_state-Safe,
}
use api_proxy.Repository.Safety.Chains.{Safe-read_clock}
use api_proxy.Finalizer.Provider.{ProviderClient}
use api_proxy.Finalizer.Handler.{
  handle_record, fail_workflow, complete_within, write_outcome, write_terminal_state, reconcile,
  execute_unless_found, act, failed_with_class, act_failed, finish_succeeded, after_claim,
  claim_step, after_read, handle_payload, handle_message,
}

module _ {platform : Platform} {options : RepositoryOptions} (s : Service platform options)
    (clock : Clock platform options s) (provider : ProviderClient platform options s)
    (max_result_bytes : ℕ) where
  ruleset chain_rules = (
    Safe-pure, Safe-throw, Safe-if, Safe-try_catch, Safe-read_clock, fail_if_processing-Safe,
    complete_if_processing-Safe, mark_step_unknown_external_state-Safe, begin_step-Safe,
    get_workflow-Safe,
  )

  execute-Safe :
      (ref : Text) (q : ProviderOperationRequest) → Safe platform options s (provider.execute ref q)
  execute-Safe ref q = record { at = provider.execute_lem ref q }

  lookup-Safe : (ref : Text) → Safe platform options s (provider.lookup ref)
  lookup-Safe ref = record { at = provider.lookup_lem ref }

  fail_workflow-Safe :
      (r : Text) (e : WorkflowError)
      → Safe platform options s (fail_workflow s clock provider max_result_bytes r e)
  fail_workflow-Safe r e = search chain_rules depth 8

  complete_within-Safe :
      (r : Text) (x : OperationResult)
      → Safe platform options s (complete_within s clock provider max_result_bytes r x)
  unfolding complete_within
  complete_within-Safe r x = search chain_rules depth 8

  write_outcome-Safe :
      (o : ProviderStatus) (r : Text) (x : ProviderOperationResponse) (e : Enrichment)
      → Safe platform options s (write_outcome s clock provider max_result_bytes o r x e)
  unfolding write_outcome
  write_outcome-Safe ProviderStatus.settled r x e =
      search (chain_rules, complete_within-Safe) depth 8
  write_outcome-Safe ProviderStatus.declined r x e = search chain_rules depth 8

  write_terminal_state-Safe :
      (r : Text) (x : ProviderOperationResponse) (e : Enrichment)
      → Safe platform options s (write_terminal_state s clock provider max_result_bytes r x e)
  unfolding write_terminal_state
  write_terminal_state-Safe r x e = write_outcome-Safe x.status r x e

  pub reconcile-Safe :
      (ref : Text) (c : BeginStepResult)
      → Safe platform options s (reconcile s clock provider max_result_bytes ref c)
  unfolding reconcile
  reconcile-Safe ref (started step) = Safe-pure platform options s none
  reconcile-Safe ref (resumed step previous) = lookup-Safe ref
  reconcile-Safe ref (already_succeeded step) = Safe-pure platform options s none

  pub execute_unless_found-Safe :
      (ref : Text) (q : ProviderOperationRequest) (o : Option ProviderOperationResponse)
      → Safe platform options s (execute_unless_found s clock provider max_result_bytes ref q o)
  unfolding execute_unless_found
  execute_unless_found-Safe ref q none = execute-Safe ref q
  execute_unless_found-Safe ref q (some x) = Safe-pure platform options s x

  pub act-Safe :
      (r ref : Text) (i : OperationInput) (e : Enrichment) (c : BeginStepResult)
      → Safe platform options s (act s clock provider max_result_bytes r ref i e c)
  unfolding act
  act-Safe r ref i e c =
      search (chain_rules, reconcile-Safe, execute_unless_found-Safe, write_terminal_state-Safe)
        depth 8

  failed_with_class-Safe :
      (k : FailureClass) (r : Text) (e : AppError)
      → Safe platform options s (failed_with_class s clock provider max_result_bytes k r e)
  unfolding failed_with_class
  failed_with_class-Safe FailureClass.retryable r e = search chain_rules
  failed_with_class-Safe FailureClass.non_retryable r e = search chain_rules depth 8
  failed_with_class-Safe FailureClass.unknown_external_state r e = search chain_rules depth 8

  act_failed-Safe :
      (r : Text) (e : Thrown)
      → Safe platform options s (act_failed s clock provider max_result_bytes r e)
  unfolding act_failed
  act_failed-Safe r (app_error e) = failed_with_class-Safe e.failure_class r e
  act_failed-Safe r (conditional_check_failed_exception m) = Safe-throw platform options s _
  act_failed-Safe r (transaction_canceled_exception rs m) = Safe-throw platform options s _
  act_failed-Safe r (other_error n m) = Safe-throw platform options s _

  finish_succeeded-Safe :
      (r : Text) (e : Enrichment) (o : Option ProviderOperationResponse)
      → Safe platform options s (finish_succeeded s clock provider max_result_bytes r e o)
  unfolding finish_succeeded
  finish_succeeded-Safe r e none = Safe-pure platform options s _
  finish_succeeded-Safe r e (some x) = write_terminal_state-Safe r x e

  after_claim-Safe :
      (r ref : Text) (i : OperationInput) (e : Enrichment) (c : BeginStepResult)
      → Safe platform options s (after_claim s clock provider max_result_bytes r ref i e c)
  unfolding after_claim
  after_claim-Safe r ref i e (already_succeeded step) = finish_succeeded-Safe r e _
  after_claim-Safe r ref i e (started step) =
      search (chain_rules, act-Safe, act_failed-Safe) depth 8
  after_claim-Safe r ref i e (resumed step previous) =
      search (chain_rules, act-Safe, act_failed-Safe) depth 8

  pub timed_claim-Safe :
      (r : Text) (ref : Option Text)
      → Safe platform options s (timed clock (begin_step platform options s r StepId.finalize ref))
  timed_claim-Safe r ref = search chain_rules depth 8

  claim_step-Safe :
      (r : Text) (e : Enrichment) (o : Option OperationInput)
      → Safe platform options s (claim_step s clock provider max_result_bytes r e o)
  unfolding claim_step
  claim_step-Safe r e none = fail_workflow-Safe r _
  claim_step-Safe r e (some i) = search (chain_rules, after_claim-Safe) depth 8

  after_read-Safe :
      (r : Text) (e : Enrichment) (o : Option WorkflowRecord)
      → Safe platform options s (after_read s clock provider max_result_bytes r e o)
  unfolding after_read
  after_read-Safe r e none = Safe-pure platform options s _
  after_read-Safe r e (some x) = search (chain_rules, claim_step-Safe) depth 8

  handle_payload-Safe :
      (r : Text) (p : Payload)
      → Safe platform options s (handle_payload s clock provider max_result_bytes r p)
  unfolding handle_payload
  handle_payload-Safe r enrich_payload = Safe-pure platform options s _
  handle_payload-Safe r (finalize_payload e) = search (chain_rules, after_read-Safe) depth 8

  -- The finalizer, at whatever moment it runs, whatever the provider answers and wherever a call
  -- fails: its handler makes only the transitions that the invariants of the table survive.
  pub handle_message-Safe :
      (m : WorkflowMessage)
      → Safe platform options s (handle_message s clock provider max_result_bytes m)
  unfolding handle_message
  handle_message-Safe m = handle_payload-Safe m.request_id m.payload

  pub handle_record-Safe :
      (body : Text) → Safe platform options s (handle_record s clock provider max_result_bytes body)
  unfolding handle_record
  handle_record-Safe body = search (chain_rules, Safe-lift, handle_message-Safe) depth 8
