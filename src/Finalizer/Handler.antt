-- ===== src/Finalizer/Handler.antt =====
-- apps/finalizer/src/handler.ts: the handler of one record.
use api_proxy.Base.{
  ℕ, Text, codes, decimal, ◌++◌, Option, none, some, or_else, Exec, pure, throw, lift, try_catch,
  ◌>>=◌, ◌>>◌, if◌then◌else◌, ltb, false,
}
use api_proxy.Contracts.Errors.{
  AppError, ErrorCode, FailureClass, Thrown, app_error, conditional_check_failed_exception,
  transaction_canceled_exception, other_error,
}
use api_proxy.Contracts.Ids.{Platform}
use api_proxy.Contracts.Json.{Json, end, field}
use api_proxy.Contracts.Json.Stringify.{stringify, byte_length}
use api_proxy.Contracts.Workflow.{WorkflowRecord, WorkflowError, StepRecord, StepId, is_terminal}
use api_proxy.Contracts.Domain.{
  Money, Enrichment, OperationInput, OperationResult, ProviderStatus, ProviderOperationRequest,
  ProviderOperationResponse, operation_input_schema, provider_operation_response_schema,
}
use api_proxy.Contracts.Messages.{WorkflowMessage, Payload, enrich_payload, finalize_payload}
use api_proxy.Idempotency.{derive_external_ref, step_name}
use api_proxy.Messaging.Parse.{parse_workflow_message}
use api_proxy.Messaging.{RecordOutcome}
use api_proxy.Repository.{RepositoryOptions, BeginStepResult, started, resumed, already_succeeded}
use api_proxy.Repository.Service.{Service}
use api_proxy.Repository.Clock.{Clock, timed, read_clock}
use api_proxy.Repository.Methods.{
  get_workflow, begin_step, complete_if_processing, fail_if_processing,
  mark_step_unknown_external_state,
}
use api_proxy.Worker.Enrich.{risk_band_name}
use api_proxy.Finalizer.Provider.{ProviderClient}

unfoldable pub to_result : ProviderOperationResponse → Enrichment → ℕ → OperationResult
to_result response enrichment at = record {
  provider_operation_id = response.operation_id;
  outcome = response.status;
  amount = response.amount;
  risk_band = enrichment.risk_band;
  completed_at = at;
}

abbrev status_name : ProviderStatus → Text
status_name ProviderStatus.settled = codes "SETTLED"
status_name ProviderStatus.declined = codes "DECLINED"

abbrev money_json : Money → Json
money_json m = Json.object (
    field (codes "currencyCode") (Json.text m.currency_code)
      (field (codes "minorUnits") (Json.number m.minor_units) end))

-- The result as an object, in the order in which `toResult` writes its properties.
unfoldable pub result_json : OperationResult → Json
result_json r = Json.object (
    field (codes "providerOperationId") (Json.text r.provider_operation_id) (
      field (codes "outcome") (Json.text (status_name r.outcome)) (
        field (codes "amount") (money_json r.amount) (
          field (codes "riskBand") (Json.text (risk_band_name r.risk_band))
            (field (codes "completedAt") (Json.number r.completed_at) end)))))

-- `Buffer.byteLength(JSON.stringify(result), "utf8")`
unfoldable pub result_size : OperationResult → ℕ
unfolding result_json stringify byte_length
result_size result = byte_length false (stringify (result_json result))

abbrev permanent_failure : ErrorCode → Text → WorkflowError
permanent_failure code message = record {
  code = code;
  message = message;
  failure_class = FailureClass.non_retryable;
}

abbrev declined_error : ProviderOperationResponse → WorkflowError
declined_error response =
    permanent_failure ErrorCode.provider_rejected
      (or_else response.decline_reason (codes "provider declined the operation"))

abbrev pub too_large_error : ℕ → ℕ → WorkflowError
too_large_error size limit = permanent_failure ErrorCode.result_too_large (
    codes "result of "
    ++ (decimal size ++ (codes " bytes exceeds the " ++ (decimal limit ++ codes " byte limit"))))

abbrev invalid_input_error : WorkflowError
invalid_input_error =
    permanent_failure ErrorCode.workflow_input_invalid
      (codes "stored workflow input failed validation")

abbrev pub provider_request : OperationInput → Enrichment → ProviderOperationRequest
provider_request input enrichment = record {
  operation = input.operation;
  amount = input.amount;
  reference = enrichment.normalized_reference;
  risk_band = enrichment.risk_band;
}

module _ {platform : Platform} {options : RepositoryOptions} (s : Service platform options)
    (clock : Clock platform options s) (provider : ProviderClient platform options s)
    (max_result_bytes : ℕ) where
  open s use {World}

  -- The workflow ends FAILED, and the message is consumed.
  abbrev pub fail_workflow : Text → WorkflowError → Exec World Thrown RecordOutcome
  fail_workflow request_id error =
      timed clock (fail_if_processing platform options s request_id StepId.finalize error)
      >> pure RecordOutcome.done

  abbrev pub complete_workflow : Text → OperationResult → Exec World Thrown RecordOutcome
  complete_workflow request_id result =
      timed clock
        (complete_if_processing platform options s request_id StepId.finalize (result_json result))
      >> pure RecordOutcome.done

  -- The size is checked before the write.
  unfoldable pub complete_within : Text → OperationResult → Exec World Thrown RecordOutcome
  unfolding result_size
  complete_within request_id result =
      if ltb max_result_bytes (result_size result)
      then fail_workflow request_id (too_large_error (result_size result) max_result_bytes)
      else complete_workflow request_id result

  -- Every case answers DONE; they differ in what they log and count.
  unfoldable pub write_outcome :
      ProviderStatus
      → Text
      → ProviderOperationResponse
      → Enrichment
      → Exec World Thrown RecordOutcome
  unfolding complete_within to_result
  write_outcome ProviderStatus.declined request_id response enrichment =
      fail_workflow request_id (declined_error response)
  write_outcome ProviderStatus.settled request_id response enrichment =
      read_clock clock >>= λ at. complete_within request_id (to_result response enrichment at)

  unfoldable pub write_terminal_state :
      Text → ProviderOperationResponse → Enrichment → Exec World Thrown RecordOutcome
  unfolding write_outcome
  write_terminal_state request_id response enrichment =
      write_outcome response.status request_id response enrichment

  -- A resumed attempt asks the provider first.
  unfoldable pub reconcile :
      Text → BeginStepResult → Exec World Thrown (Option ProviderOperationResponse)
  reconcile external_ref (resumed step previous) = provider.lookup external_ref
  reconcile external_ref (started step) = pure none
  reconcile external_ref (already_succeeded step) = pure none

  -- `response ??= await deps.provider.execute(...)`
  unfoldable pub execute_unless_found :
      Text
      → ProviderOperationRequest
      → Option ProviderOperationResponse
      → Exec World Thrown ProviderOperationResponse
  execute_unless_found external_ref request (some response) = pure response
  execute_unless_found external_ref request none = provider.execute external_ref request

  -- The body of the `try`.
  unfoldable pub act :
      Text → Text → OperationInput → Enrichment → BeginStepResult → Exec World Thrown RecordOutcome
  unfolding write_terminal_state reconcile execute_unless_found
  act request_id external_ref input enrichment claim = do
    found ← reconcile external_ref claim
    response ← execute_unless_found external_ref (provider_request input enrichment) found
    write_terminal_state request_id response enrichment

  unfoldable pub failed_with_class :
      FailureClass → Text → AppError → Exec World Thrown RecordOutcome
  failed_with_class FailureClass.unknown_external_state request_id error =
      timed clock (mark_step_unknown_external_state platform options s request_id StepId.finalize)
      >> pure RecordOutcome.retry
  failed_with_class FailureClass.non_retryable request_id error =
      fail_workflow request_id (permanent_failure error.code error.message)
  failed_with_class FailureClass.retryable request_id error = pure RecordOutcome.retry

  -- The `catch`.
  unfoldable pub act_failed : Text → Thrown → Exec World Thrown RecordOutcome
  unfolding failed_with_class
  act_failed request_id (app_error error) = failed_with_class error.failure_class request_id error
  act_failed request_id (conditional_check_failed_exception m) =
      throw (conditional_check_failed_exception m)
  act_failed request_id (transaction_canceled_exception rs m) =
      throw (transaction_canceled_exception rs m)
  act_failed request_id (other_error n m) = throw (other_error n m)

  -- A stored response that validates is written out again.
  unfoldable pub finish_succeeded :
      Text → Enrichment → Option ProviderOperationResponse → Exec World Thrown RecordOutcome
  unfolding write_terminal_state
  finish_succeeded request_id enrichment none = pure RecordOutcome.done
  finish_succeeded request_id enrichment (some stored) =
      write_terminal_state request_id stored enrichment

  -- `safeParse` of what may be missing.
  abbrev stored_response : StepRecord → Option ProviderOperationResponse
  stored_response step = elim step.external_result [
    | none ↦ none
    | some v ↦ provider_operation_response_schema v
  ]

  unfoldable pub after_claim :
      Text → Text → OperationInput → Enrichment → BeginStepResult → Exec World Thrown RecordOutcome
  unfolding finish_succeeded act act_failed
  after_claim request_id ref input enrichment (already_succeeded step) =
      finish_succeeded request_id enrichment (stored_response step)
  after_claim request_id ref input enrichment (started step) =
      try_catch (act request_id ref input enrichment (started step)) pure (act_failed request_id)
  after_claim request_id ref input enrichment (resumed step previous) =
      try_catch (act request_id ref input enrichment (resumed step previous)) pure
        (act_failed request_id)

  unfoldable pub claim_step :
      Text → Enrichment → Option OperationInput → Exec World Thrown RecordOutcome
  unfolding after_claim
  claim_step request_id enrichment none = fail_workflow request_id invalid_input_error
  claim_step request_id enrichment (some input) =
      let ref = derive_external_ref platform request_id (step_name StepId.finalize) in
      timed clock (begin_step platform options s request_id StepId.finalize (some ref))
      >>= after_claim request_id ref input enrichment

  unfoldable pub after_read :
      Text → Enrichment → Option WorkflowRecord → Exec World Thrown RecordOutcome
  unfolding claim_step
  after_read request_id enrichment none = pure RecordOutcome.done
  after_read request_id enrichment (some workflow) =
      if is_terminal workflow.status
      then pure RecordOutcome.done
      else claim_step request_id enrichment (operation_input_schema workflow.input)

  -- The payload tells the step: the union of messages has no other pairing.
  unfoldable pub handle_payload : Text → Payload → Exec World Thrown RecordOutcome
  unfolding after_read
  handle_payload request_id enrich_payload = pure RecordOutcome.done
  handle_payload request_id (finalize_payload enrichment) =
      get_workflow platform options s request_id >>= after_read request_id enrichment

  unfoldable pub handle_message : WorkflowMessage → Exec World Thrown RecordOutcome
  unfolding handle_payload
  handle_message message = handle_payload message.request_id message.payload

  -- `handleRecord`, from the body of the message.
  unfoldable pub handle_record : Text → Exec World Thrown RecordOutcome
  unfolding handle_message parse_workflow_message
  handle_record body = lift (parse_workflow_message platform body) >>= handle_message
