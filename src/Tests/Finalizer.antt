-- ===== src/Tests/Finalizer.antt =====
-- The finalizer at a small run: the provider settles a charge, or has settled it before.
use api_proxy.Base.{
  ◌↔◌, ◌≡◌, refl, true, codes, Text, none, some, Result, ok, err, try_catch, text_eq, decimal, ◌<◌,
}
use api_proxy.Contracts.Errors.{ErrorCode, app_error, retryable_error}
use api_proxy.Contracts.Ids.{
  tenant_id_schema, idempotency_key_schema, is_tenant_char, is_idempotency_char, hex64_schema,
  is_hex_char,
}
use api_proxy.Contracts.Json.{Json, end, field, property}
use api_proxy.Contracts.Json.Stringify.{stringify, byte_length, quote, escape, escape_unit}
use api_proxy.Contracts.Workflow.{
  StepId, StepRecord, StepStatus, workflow_record_schema, step_record_schema,
}
use api_proxy.Contracts.Domain.{
  Enrichment, RiskBand, ProviderStatus, ProviderOperationResponse, operation_input_schema,
  money_schema, provider_operation_response_schema,
}
use api_proxy.Contracts.Messages.{WorkflowMessage, finalize_payload}
use api_proxy.Idempotency.{derive_event_id, derive_external_ref, step_name}
use api_proxy.Messaging.{RecordOutcome}
use api_proxy.Persistence.Keys.{workflow_key, step_key, idempotency_key_item, outbox_key, same_key}
use api_proxy.Persistence.Items.{decode_workflow, decode_step, decode_with, ttl_seconds_from_now}
use api_proxy.Persistence.Failures.{condition_failed_at}
use api_proxy.Repository.{resumed}
use api_proxy.Repository.Writes.{
  create_writes, begin_write, terminal_writes, new_workflow, new_mapping, new_event, claimed,
  finished, finished_step,
}
use api_proxy.Repository.Commit.{here}
use api_proxy.Repository.Methods.{
  get_workflow, begin_step, claim_answer, claim_failed, write_terminal, read_back, terminal_failed,
  complete_if_processing, or_throw,
}
use api_proxy.Repository.Safety.{Safe}
use api_proxy.Repository.Outcomes.Terminal.{is_terminal_item}
use api_proxy.Finalizer.Provider.{
  ProviderClient, Response, TransportFailure, axios_error, execute_answer, accept_response,
}
use api_proxy.Finalizer.Provider.Answers.{
  execute_answer-accepted, execute_answer-FailsRetryably, FailsRetryably, MayRepeat,
}
use api_proxy.Finalizer.Handler.{
  handle_message, handle_payload, after_read, claim_step, after_claim, act, reconcile,
  execute_unless_found, write_terminal_state, write_outcome, complete_within, to_result,
  result_json, result_size,
}
use api_proxy.Finalizer.Safety.{handle_message-Safe}
use api_proxy.Finalizer.Acknowledged.{acknowledged_terminal}
use api_proxy.Finalizer.Reconcile.{resumed-same}
use api_proxy.Tests.Memory.{platform, options, memory, transact, update, digest, checksum}
use api_proxy.Tests.Repository.{request, zeros}
use api_proxy.Tests.Pipeline.{
  ready, ready-IsSound, ready-IsPresent, stopped, enrich_message, order_input,
}

abbrev enrichment : Enrichment
enrichment = record {
  normalized_reference = codes "CHARGE:INV-1";
  risk_band = RiskBand.medium;
  enriched_at = 2000;
}

abbrev finalize_message : WorkflowMessage
finalize_message = record enrich_message {
  step = StepId.finalize;
  payload = finalize_payload enrichment;
}

abbrev settled_as : Text → ProviderOperationResponse
settled_as ref = record {
  operation_id = codes "op-1";
  idempotency_key = ref;
  status = ProviderStatus.settled;
  decline_reason = none;
  amount = record { currency_code = codes "USD"; minor_units = 150_000 };
  processed_at = 2000;
}

-- It settles what it is asked to, and knows nothing.
abbrev settling : ProviderClient platform options memory
settling = record {
  execute = λ ref q t. (ok (settled_as ref), t);
  lookup = λ ref t. (ok none, t);
  execute_lem = λ ref q t. here;
  lookup_lem = λ ref t. here;
}

settle_answer :
    (handle_message memory stopped settling 10_000 finalize_message ready).0 ≡ ok RecordOutcome.done
unfolding handle_message handle_payload after_read claim_step after_claim act reconcile
    execute_unless_found write_terminal_state write_outcome complete_within to_result result_json
    result_size stringify byte_length quote escape escape_unit get_workflow begin_step claim_answer
    claim_failed write_terminal read_back terminal_failed complete_if_processing or_throw try_catch
    create_writes begin_write terminal_writes new_workflow new_mapping new_event claimed finished
    finished_step decode_workflow decode_step decode_with workflow_record_schema step_record_schema
    condition_failed_at tenant_id_schema idempotency_key_schema is_tenant_char is_idempotency_char
    hex64_schema is_hex_char transact update ttl_seconds_from_now same_key idempotency_key_item
    workflow_key outbox_key step_key text_eq derive_event_id derive_external_ref step_name digest
    checksum operation_input_schema money_schema property decimal
settle_answer = refl

acknowledged_terminal_example :
    is_terminal_item (
      (handle_message memory stopped settling 10_000 finalize_message ready).1
        (workflow_key request))
    ≡ true
acknowledged_terminal_example =
    acknowledged_terminal memory stopped settling 10_000 finalize_message enrichment ready refl
      ready-IsSound ready-IsPresent settle_answer

handle_message-Safe_example :
    Safe platform options memory (handle_message memory stopped settling 10_000 finalize_message)
handle_message-Safe_example = handle_message-Safe memory stopped settling 10_000 finalize_message

-- It remembers the operation; the one refuses to repeat it, the other would settle it again.
abbrev remembering : ProviderClient platform options memory
remembering = record settling { lookup = λ ref t. (ok (some (settled_as ref)), t) }

abbrev refusing : ProviderClient platform options memory
refusing = record remembering {
  execute =
      λ ref q t. (err (app_error (retryable_error ErrorCode.provider_unavailable (codes "no"))), t);
}

abbrev old_step : StepRecord
old_step = record {
  request_id = request;
  step_id = StepId.finalize;
  status = StepStatus.in_progress;
  attempt = 2;
  external_ref = some zeros;
  external_result = none;
  created_at = 1500;
  updated_at = 2000;
  expires_at = none;
}

resumed-same_example :
    act memory stopped remembering 10_000 request zeros order_input enrichment
      (resumed old_step StepStatus.in_progress)
      ready
    ≡ act memory stopped refusing 10_000 request zeros order_input enrichment
        (resumed old_step StepStatus.in_progress)
        ready
resumed-same_example =
    resumed-same memory stopped remembering refusing 10_000 request zeros order_input enrichment
      old_step StepStatus.in_progress ready refl (λ h. cc)

abbrev body : Json
body = Json.object (
    field (codes "operationId") (Json.text (codes "op-1")) (
      field (codes "idempotencyKey") (Json.text zeros) (
        field (codes "status") (Json.text (codes "SETTLED")) (
          field (codes "amount")
            (Json.object (
              field (codes "currencyCode") (Json.text (codes "USD"))
                (field (codes "minorUnits") (Json.number 150_000) end)))
            (field (codes "processedAt") (Json.number 2000) end)))))

accepting : execute_answer zeros (ok (record { status = 200; body = body })) ≡ ok (settled_as zeros)
unfolding execute_answer accept_response provider_operation_response_schema money_schema property
    text_eq
accepting = refl

execute_answer-accepted_example :
    (x : Response) × (◌≡◌ {A = Result TransportFailure Response}
      (ok (record { status = 200; body = body }))
      (ok x))
    × (x.status < 400)
    × (provider_operation_response_schema x.body ≡ some (settled_as zeros))
    × (zeros ≡ zeros)
execute_answer-accepted_example = execute_answer-accepted zeros _ (settled_as zeros) accepting

abbrev unreachable : Result TransportFailure Response
unreachable = err (axios_error (some (codes "ECONNREFUSED")))

execute_answer-FailsRetryably_example :
    FailsRetryably (execute_answer zeros unreachable) ↔ MayRepeat unreachable
execute_answer-FailsRetryably_example = execute_answer-FailsRetryably zeros unreachable
