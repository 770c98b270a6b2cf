-- ===== src/Tests/Repository.antt =====
-- The repository's theorems at a small run: one request is created, published and failed.
use api_proxy.Base.{
  ◌≡◌, refl, [], true, false, Text, codes, some, ok, ap, ◌∙◌, text_eq_refl, text_eq, is_some,
  try_catch,
}
use api_proxy.Contracts.Errors.{ErrorCode, FailureClass}
use api_proxy.Contracts.Ids.{
  tenant_id_schema, idempotency_key_schema, is_tenant_char, is_idempotency_char, hex64_schema,
  is_hex_char,
}
use api_proxy.Contracts.Json.{Json}
use api_proxy.Contracts.Workflow.{StepId, workflow_record_schema}
use api_proxy.Idempotency.{derive_event_id}
use api_proxy.Persistence.Keys.{workflow_key, idempotency_key_item, outbox_key, same_key}
use api_proxy.Persistence.Keys.Injective.{idempotency_key_item-injective}
use api_proxy.Persistence.Items.{
  WorkflowItem, workflow_item, idempotency_item, decode_workflow, decode_idempotency,
  idempotency_record_schema, ttl_seconds_from_now,
}
use api_proxy.Persistence.Failures.{condition_failed_at}
use api_proxy.Persistence.Dynamo.{Table, AllHold, perform_all, perform, holds}
use api_proxy.Repository.{CreateWorkflowInput, TerminalParams, failed_with, created, existing}
use api_proxy.Repository.Writes.{
  create_writes, terminal_writes, publish_write, new_workflow, new_mapping, new_event, finished,
  in_flight, event_id_for, update_workflow,
}
use api_proxy.Repository.Commit.{Evolves, create, finish, publish, here, next, IsValidInput}
use api_proxy.Repository.Commit.Reads.{finish-workflow, finish-outbox}
use api_proxy.Repository.Commit.Terminal.{terminal_forever, mapping_forever}
use api_proxy.Repository.Commit.Links.Mapping.{Identity, workflow_identity}
use api_proxy.Repository.Soundness.{empty_table, IsSound, reachable_tables, one_workflow_per_key}
use api_proxy.Repository.Methods.{
  create_workflow, create_failed, resolve_existing_workflow, resolve_item, resolve_mapping,
  get_workflow, get_workflow_for_tenant, owned_by, or_throw,
}
use api_proxy.Repository.Outcomes.Create.{create_writes-Stores, Stores, create_workflow_created}
use api_proxy.Repository.Outcomes.Existing.{create_workflow_existing}
use api_proxy.Repository.Outcomes.Get.{get_workflow_for_tenant_owned}
use api_proxy.Repository.Decodable.{finished-decodable}
use api_proxy.Contracts.Workflow.{workflow_error_schema}
use api_proxy.Repository.{TerminalOutcome}
use api_proxy.Tests.Memory.{platform, options, memory, transact, digest}

abbrev pub request : Text
request = codes "6f1c2d3e-0000-4000-8000-000000000001"

abbrev pub zeros : Text
zeros = codes "0000000000000000000000000000000000000000000000000000000000000000"

abbrev pub input : CreateWorkflowInput
input = record {
  request_id = request;
  tenant_id = codes "acme";
  idempotency_key = codes "order-0001";
  payload_hash = zeros;
  input = Json.null;
  sync_deadline_at = 9000;
  business_deadline_at = 60000;
}

pub input_valid : IsValidInput input
unfolding tenant_id_schema idempotency_key_schema is_tenant_char is_idempotency_char
input_valid = (refl, refl)

abbrev stored : Table
stored = perform_all (create_writes platform options input 1000) empty_table

creation : AllHold (create_writes platform options input 1000) empty_table
unfolding create_writes
creation = (refl, (refl, (refl, tt)))

stored-Evolves : Evolves platform options empty_table stored
stored-Evolves = next here (create input 1000 input_valid creation refl)

abbrev failure : TerminalParams
failure = record {
  request_id = request;
  step_id = StepId.enrich;
  outcome = failed_with (record {
    code = ErrorCode.unsupported_currency;
    message = codes "currency XXX is not supported";
    failure_class = FailureClass.non_retryable;
  });
}

abbrev failed : Table
failed = perform_all (terminal_writes platform options failure 2000) stored

in_flight-stored : in_flight (stored (workflow_key request)) ≡ true
unfolding new_workflow
in_flight-stored =
    ap in_flight (create_writes-Stores platform options memory input 1000 empty_table).1

failing : AllHold (terminal_writes platform options failure 2000) stored
unfolding terminal_writes
failing = (in_flight-stored, (refl, tt))

failed-Evolves : Evolves platform options stored failed
failed-Evolves = next here (finish failure 2000 tt failing refl)

reachable_tables_example : IsSound platform options stored
reachable_tables_example = reachable_tables platform options stored stored-Evolves

abbrev failed_item : WorkflowItem
failed_item =
    finished platform options failure.outcome 2000 (new_workflow platform options input 1000)

failed_holds : failed (workflow_key request) ≡ some (workflow_item failed_item)
failed_holds =
    finish-workflow platform options stored failure 2000 request
    ∙ rw (text_eq_refl request) (
        ap (update_workflow (finished platform options failure.outcome 2000))
          (create_writes-Stores platform options memory input 1000 empty_table).1)

abbrev event_id : Text
event_id = event_id_for platform options request StepId.enrich

abbrev late : Table
late = perform (publish_write platform options request event_id 3000) failed

published_late : holds failed (publish_write platform options request event_id 3000) ≡ true
unfolding publish_write
published_late = ap is_some (
    finish-outbox platform options stored failure 2000 request event_id
    ∙ (create_writes-Stores platform options memory input 1000 empty_table).2)

late-Evolves : Evolves platform options failed late
late-Evolves = next here (publish request event_id 3000 published_late refl)

terminal_forever_example : late (workflow_key request) ≡ some (workflow_item failed_item)
unfolding finished
terminal_forever_example =
    terminal_forever platform options failed late request failed_item failed_holds refl late-Evolves

mapping_forever_example :
    failed (idempotency_key_item (codes "acme") (codes "order-0001"))
    ≡ some (idempotency_item (new_mapping platform options input 1000))
mapping_forever_example =
    mapping_forever platform options stored failed (codes "acme") (codes "order-0001") _
      (create_writes-Stores platform options memory input 1000 empty_table).0 failed-Evolves

abbrev identity : Identity
identity = record {
  request_id = request;
  tenant_id = codes "acme";
  idempotency_key = codes "order-0001";
  payload_hash = zeros;
}

stored-identity : workflow_identity (stored (workflow_key request)) ≡ some identity
unfolding new_workflow
stored-identity =
    ap workflow_identity (create_writes-Stores platform options memory input 1000 empty_table).1

one_workflow_per_key_example : (request ≡ request) × (zeros ≡ zeros)
one_workflow_per_key_example =
    one_workflow_per_key platform options stored request request identity identity stored-Evolves
      stored-identity stored-identity refl refl

idempotency_key_item-injective_example : (codes "acme" ≡ codes "acme") × (codes "k1" ≡ codes "k1")
unfolding tenant_id_schema is_tenant_char
idempotency_key_item-injective_example =
    idempotency_key_item-injective (codes "acme") (codes "acme") (codes "k1") (codes "k1") refl refl
      refl

create_answer :
    (create_workflow platform options memory input 1000 empty_table).0
    ≡ ok (created (new_workflow platform options input 1000).document)
unfolding create_workflow try_catch create_writes new_workflow decode_workflow
    workflow_record_schema tenant_id_schema idempotency_key_schema is_tenant_char
    is_idempotency_char hex64_schema is_hex_char transact ttl_seconds_from_now
create_answer = refl

create_workflow_created_example :
    Stores platform options memory input 1000
      (create_workflow platform options memory input 1000 empty_table).1
create_workflow_created_example =
    (create_workflow_created platform options memory input 1000 empty_table _ create_answer).1

abbrev retry : CreateWorkflowInput
retry = record input { request_id = codes "6f1c2d3e-0000-4000-8000-000000000002" }

existing_answer :
    (create_workflow platform options memory retry 5000 stored).0
    ≡ ok (existing (new_workflow platform options input 1000).document)
unfolding create_workflow create_failed resolve_existing_workflow resolve_item resolve_mapping
    get_workflow or_throw try_catch create_writes new_workflow new_mapping new_event decode_workflow
    decode_idempotency idempotency_record_schema workflow_record_schema condition_failed_at
    tenant_id_schema idempotency_key_schema is_tenant_char is_idempotency_char hex64_schema
    is_hex_char transact ttl_seconds_from_now same_key idempotency_key_item workflow_key outbox_key
    text_eq derive_event_id digest
existing_answer = refl

create_workflow_existing_example :
    ((new_workflow platform options input 1000).document.tenant_id ≡ codes "acme")
    × ((new_workflow platform options input 1000).document.idempotency_key ≡ codes "order-0001")
    × ((new_workflow platform options input 1000).document.payload_hash ≡ zeros)
create_workflow_existing_example =
    create_workflow_existing platform options memory retry 5000 stored _ input_valid
      reachable_tables_example existing_answer

own_answer :
    (get_workflow_for_tenant platform options memory request (codes "acme") stored).0
    ≡ ok (some (new_workflow platform options input 1000).document)
unfolding get_workflow_for_tenant get_workflow owned_by try_catch create_writes new_workflow
    new_mapping new_event decode_workflow workflow_record_schema tenant_id_schema
    idempotency_key_schema is_tenant_char is_idempotency_char hex64_schema is_hex_char
    ttl_seconds_from_now same_key idempotency_key_item workflow_key outbox_key text_eq
    derive_event_id digest
own_answer = refl

get_workflow_for_tenant_owned_example :
    (new_workflow platform options input 1000).document.tenant_id ≡ codes "acme"
get_workflow_for_tenant_owned_example =
    (get_workflow_for_tenant_owned platform options memory request (codes "acme") stored _
      own_answer).0

-- A provider may decline with an empty reason.
abbrev silent : TerminalOutcome
silent = failed_with (record {
  code = ErrorCode.provider_rejected;
  message = [];
  failure_class = FailureClass.non_retryable;
})

decodable_before :
    workflow_record_schema platform (new_workflow platform options input 1000).document ≡ true
unfolding new_workflow workflow_record_schema tenant_id_schema idempotency_key_schema is_tenant_char
    is_idempotency_char hex64_schema is_hex_char ttl_seconds_from_now
decodable_before = refl

finished-decodable_example :
    workflow_record_schema platform
      (finished platform options silent 2000 (new_workflow platform options input 1000)).document
    ≡ false
unfolding workflow_error_schema
finished-decodable_example =
    finished-decodable platform options silent 2000 (new_workflow platform options input 1000)
      decodable_before refl
