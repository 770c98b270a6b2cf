-- ===== src/Worker/Handler.antt =====
-- apps/worker-a/src/handler.ts: the handler of one record.
use api_proxy.Base.{
  Text, Option, none, some, Exec, pure, throw, lift, try_catch, ◌>>=◌, ◌>>◌, if◌then◌else◌,
}
use api_proxy.Contracts.Errors.{AppError, FailureClass, Thrown, permanent}
use api_proxy.Contracts.Ids.{Platform}
use api_proxy.Contracts.Workflow.{WorkflowRecord, WorkflowError, StepId, is_terminal}
use api_proxy.Contracts.Domain.{Enrichment}
use api_proxy.Contracts.Messages.{WorkflowMessage, OutboxDestination, finalize_payload}
use api_proxy.Messaging.Parse.{parse_workflow_message}
use api_proxy.Messaging.{RecordOutcome}
use api_proxy.Repository.{
  RepositoryOptions, AdvanceParams, AdvanceStepResult, advanced, already_advanced,
  workflow_terminal, workflow_missing, BeginStepResult, started, resumed, already_succeeded,
}
use api_proxy.Repository.Service.{Service}
use api_proxy.Repository.Clock.{Clock, timed, read_clock}
use api_proxy.Repository.Methods.{
  get_workflow, begin_step, advance_step_with_outbox, fail_if_processing,
}
use api_proxy.Worker.Enrich.{
  CaseMapping, parse_workflow_input, assert_supported_currency, enrich, enrichment_json,
}

abbrev pub advance_params : WorkflowMessage → Enrichment → AdvanceParams
advance_params message enrichment = record {
  request_id = message.request_id;
  tenant_id = message.tenant_id;
  step_id = StepId.enrich;
  step_result = enrichment_json enrichment;
  next_step = StepId.finalize;
  destination = OutboxDestination.step_queue;
  next_payload = finalize_payload enrichment;
}

-- The four cases log and count differently.
unfoldable pub after_advance : AdvanceStepResult → RecordOutcome
after_advance advanced = RecordOutcome.done
after_advance already_advanced = RecordOutcome.done
after_advance workflow_terminal = RecordOutcome.done
after_advance workflow_missing = RecordOutcome.done

abbrev pub workflow_error : AppError → WorkflowError
workflow_error error = record {
  code = error.code;
  message = error.message;
  failure_class = FailureClass.non_retryable;
}

module _ {platform : Platform} {options : RepositoryOptions} (s : Service platform options)
    (clock : Clock platform options s) (cases : CaseMapping) where
  open s use {World}

  -- The body of the `try`.
  unfoldable pub enrich_workflow :
      WorkflowMessage → WorkflowRecord → Exec World Thrown RecordOutcome
  enrich_workflow message workflow = do
    input ← lift (parse_workflow_input workflow.input)
    lift (assert_supported_currency input)
    at ← read_clock clock
    answer ← timed clock (
        advance_step_with_outbox platform options s
          (advance_params message (enrich cases input at)))
    pure (after_advance answer)

  unfoldable pub record_failure :
      WorkflowMessage → Option AppError → Thrown → Exec World Thrown RecordOutcome
  record_failure message none error = throw error
  record_failure message (some failure) error =
      timed clock (
        fail_if_processing platform options s message.request_id StepId.enrich
          (workflow_error failure))
      >> pure RecordOutcome.done

  -- The `catch`: a permanent failure becomes the workflow's outcome.
  unfoldable pub enrich_failed : WorkflowMessage → Thrown → Exec World Thrown RecordOutcome
  unfolding record_failure
  enrich_failed message error = record_failure message (permanent error) error

  unfoldable pub after_claim :
      WorkflowMessage → WorkflowRecord → BeginStepResult → Exec World Thrown RecordOutcome
  after_claim message workflow (already_succeeded step) = pure RecordOutcome.done
  after_claim message workflow (started step) =
      try_catch (enrich_workflow message workflow) pure (enrich_failed message)
  after_claim message workflow (resumed step previous) =
      try_catch (enrich_workflow message workflow) pure (enrich_failed message)

  unfoldable pub claim_step : WorkflowMessage → WorkflowRecord → Exec World Thrown RecordOutcome
  unfolding after_claim
  claim_step message workflow =
      timed clock (begin_step platform options s message.request_id StepId.enrich none)
      >>= after_claim message workflow

  unfoldable pub after_read :
      WorkflowMessage → Option WorkflowRecord → Exec World Thrown RecordOutcome
  unfolding claim_step
  after_read message none = pure RecordOutcome.done
  after_read message (some workflow) =
      if is_terminal workflow.status then pure RecordOutcome.done else claim_step message workflow

  unfoldable pub handle_step : StepId → WorkflowMessage → Exec World Thrown RecordOutcome
  unfolding after_read
  handle_step StepId.enrich message =
      get_workflow platform options s message.request_id >>= after_read message
  handle_step StepId.finalize message = pure RecordOutcome.done

  unfoldable pub handle_message : WorkflowMessage → Exec World Thrown RecordOutcome
  unfolding handle_step
  handle_message message = handle_step message.step message

  -- `handleRecord`, from the body of the message.
  unfoldable pub handle_record : Text → Exec World Thrown RecordOutcome
  unfolding handle_message parse_workflow_message
  handle_record body = lift (parse_workflow_message platform body) >>= handle_message
