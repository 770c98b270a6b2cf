-- ===== src/Tests/Pipeline.antt =====
-- Worker A and the finalizer at a small run: a charge is created, enriched and settled.
use api_proxy.Base.{◌≡◌, refl, ◌⊎◌, true, codes, map, none, ok, try_catch, text_eq, decimal}
use api_proxy.Contracts.Ids.{
  tenant_id_schema, idempotency_key_schema, is_tenant_char, is_idempotency_char, hex64_schema,
  is_hex_char,
}
use api_proxy.Contracts.Json.{Json, end, field, property}
use api_proxy.Contracts.Workflow.{StepId, workflow_record_schema, step_record_schema}
use api_proxy.Contracts.Domain.{OperationKind, OperationInput, operation_input_schema, money_schema}
use api_proxy.Contracts.Messages.{
  WorkflowMessage, enrich_payload, workflow_message_schema, outbox_event_schema, payload_schema,
}
use api_proxy.Idempotency.{derive_event_id}
use api_proxy.Messaging.{RecordOutcome}
use api_proxy.Persistence.Keys.{workflow_key, step_key, idempotency_key_item, outbox_key, same_key}
use api_proxy.Persistence.Items.{decode_workflow, decode_step, decode_with, ttl_seconds_from_now}
use api_proxy.Persistence.Failures.{condition_failed_at}
use api_proxy.Persistence.Dynamo.{Table, AllHold, perform_all}
use api_proxy.Repository.{CreateWorkflowInput}
use api_proxy.Repository.Writes.{
  create_writes, begin_write, advance_writes, new_workflow, new_mapping, new_event, claimed,
  next_message,
}
use api_proxy.Repository.Commit.{Evolves, create, here, next}
use api_proxy.Repository.Commit.Present.{IsPresent}
use api_proxy.Repository.Clock.{Clock}
use api_proxy.Repository.Soundness.{empty_table, IsSound, Evolves-IsSound, reachable_tables}
use api_proxy.Repository.Methods.{
  get_workflow, begin_step, claim_answer, claim_failed, advance_step_with_outbox, advance_failed,
  or_throw,
}
use api_proxy.Repository.Safety.Chains.{Moves}
use api_proxy.Repository.Outcomes.Terminal.{is_terminal_item}
use api_proxy.Repository.Outcomes.Advance.{HasNextEvent}
use api_proxy.Worker.Enrich.{
  CaseMapping, upper_ascii, enrich, parse_workflow_input, assert_supported_currency,
}
use api_proxy.Worker.Handler.{
  handle_message, handle_step, after_read, claim_step, after_claim, enrich_workflow, enrich_failed,
  record_failure, after_advance, advance_params,
}
use api_proxy.Worker.Valid.{advance_event-valid}
use api_proxy.Worker.Safety.{handle_message-Moves}
use api_proxy.Worker.Acknowledged.{acknowledged_progress}
use api_proxy.Tests.Memory.{platform, options, memory, transact, update, digest, checksum}
use api_proxy.Tests.Repository.{request, input, zeros, input_valid}

abbrev pub order : Json
order = Json.object (
    field (codes "operation") (Json.text (codes "CHARGE")) (
      field (codes "amount")
        (Json.object (
          field (codes "currencyCode") (Json.text (codes "USD"))
            (field (codes "minorUnits") (Json.number 150_000) end)))
        (field (codes "reference") (Json.text (codes "inv-1")) end)))

abbrev pub charge : CreateWorkflowInput
charge = record input { input = order }

abbrev pub ready : Table
ready = perform_all (create_writes platform options charge 1000) empty_table

creation : AllHold (create_writes platform options charge 1000) empty_table
unfolding create_writes
creation = (refl, (refl, (refl, tt)))

ready-Evolves : Evolves platform options empty_table ready
ready-Evolves = next here (create charge 1000 input_valid creation refl)

pub ready-IsSound : IsSound platform options ready
ready-IsSound =
    Evolves-IsSound platform options empty_table ready
      (reachable_tables platform options empty_table here) ready-Evolves

pub ready-IsPresent : IsPresent platform options ready request
unfolding create_writes same_key workflow_key outbox_key idempotency_key_item text_eq
ready-IsPresent = refl

-- Both clocks stand still.
abbrev pub stopped : Clock platform options memory
stopped = record { read = λ t. (2000, t); read_lem = λ t. here }

abbrev pub ascii : CaseMapping
ascii = record { upper = map upper_ascii; upper-ascii = λ c t h. refl }

abbrev pub enrich_message : WorkflowMessage
enrich_message = record {
  message_id = zeros;
  request_id = request;
  tenant_id = codes "acme";
  workflow_version = 1;
  created_at = 1000;
  step = StepId.enrich;
  payload = enrich_payload;
}

enrich_answer : (handle_message memory stopped ascii enrich_message ready).0 ≡ ok RecordOutcome.done
unfolding handle_message handle_step after_read claim_step after_claim enrich_workflow enrich_failed
    record_failure after_advance get_workflow begin_step claim_answer claim_failed
    advance_step_with_outbox advance_failed or_throw try_catch create_writes begin_write
    advance_writes new_workflow new_mapping new_event claimed decode_workflow decode_step
    decode_with workflow_record_schema step_record_schema condition_failed_at tenant_id_schema
    idempotency_key_schema is_tenant_char is_idempotency_char hex64_schema is_hex_char transact
    update ttl_seconds_from_now same_key idempotency_key_item workflow_key outbox_key step_key
    text_eq derive_event_id digest checksum parse_workflow_input assert_supported_currency
    operation_input_schema money_schema property enrich decimal
enrich_answer = refl

acknowledged_progress_example :
    HasNextEvent platform options
      (handle_message memory stopped ascii enrich_message ready).1
      request
    ⊎ (is_terminal_item
          ((handle_message memory stopped ascii enrich_message ready).1 (workflow_key request))
        ≡ true)
acknowledged_progress_example =
    acknowledged_progress memory stopped ascii enrich_message ready RecordOutcome.done refl
      ready-IsSound ready-IsPresent enrich_answer

handle_message-Moves_example :
    Moves memory (handle_message memory stopped ascii enrich_message) ready
handle_message-Moves_example = handle_message-Moves memory stopped ascii enrich_message ready

abbrev pub order_input : OperationInput
order_input = record {
  operation = OperationKind.charge;
  amount = record { currency_code = codes "USD"; minor_units = 150_000 };
  reference = codes "inv-1";
  metadata = none;
}

enrich_message_valid : workflow_message_schema platform enrich_message ≡ true
unfolding workflow_message_schema payload_schema tenant_id_schema is_tenant_char hex64_schema
    is_hex_char
enrich_message_valid = refl

advance_event-valid_example :
    let p = advance_params enrich_message (enrich ascii order_input 2000) in
    outbox_event_schema platform
      (new_event platform options p.request_id p.destination
        (next_message platform options p 2000)
        2000).event
    ≡ true
advance_event-valid_example =
    advance_event-valid platform options ascii enrich_message order_input 2000 2000
      enrich_message_valid refl refl refl
