-- ===== src/Tests/App.antt =====
-- Requests to an API with inline keys: one that is created, a lookup, and one while the task drains.
use api_proxy.Base.{◌≡◌, refl, codes, some, [], ◌∷◌, ok, text_eq, try_catch}
use api_proxy.Base.Trim.{starts_with}
use api_proxy.Contracts.Ids.{
  tenant_id_schema, idempotency_key_schema, is_tenant_char, is_idempotency_char, hex64_schema,
  is_hex_char,
}
use api_proxy.Contracts.Json.{Json, end, field}
use api_proxy.Contracts.Workflow.{WorkflowRecord, workflow_record_schema, workflow_error_schema}
use api_proxy.Persistence.Keys.{workflow_key}
use api_proxy.Persistence.Items.{decode_workflow}
use api_proxy.Repository.Commit.{Evolves}
use api_proxy.Repository.Soundness.{empty_table}
use api_proxy.Repository.Methods.{get_workflow, get_workflow_for_tenant, owned_by}
use api_proxy.Repository.Outcomes.Get.{Served}
use api_proxy.Lifecycle.{
  LifecycleState, Lifecycle, Call, new_lifecycle, mark_ready, begin_drain, run,
}
use api_proxy.Api.KeyStore.{inline_store}
use api_proxy.Api.App.{Method, process_route, Request, Reply, AppDependencies}
use api_proxy.Api.App.Replies.{draining_reply, terminal_reply}
use api_proxy.Api.App.Routes.{found_reply, get_process, handle}
use api_proxy.Api.App.Handled.{Shows}
use api_proxy.Api.App.Handle.{handle_told}
use api_proxy.Api.App.Lookup.{get_process_owned, handle_drained}
use api_proxy.Api.App.Implementations.{dynamo_workflow_waiter, inline_api_key_store}
use api_proxy.Tests.Memory.{platform, options}
use api_proxy.Tests.KeyStore.{document, index, index_built, caller}
use api_proxy.Tests.Timed.{
  timed_memory, clock, timer, progress, polling, request, finished_workflow, finished_table,
}

accepted : inline_store document 1_000_000 ≡ ok index
unfolding inline_store
accepted = index_built

abbrev deps : LifecycleState → AppDependencies timed_memory
deps state = record {
  settings = record {
    public_base_url = codes "https://api.example.com";
    sync_wait_timeout_ms = 2_000;
    deadline_ms = 60_000;
    max_request_payload_bytes = 122_880;
  };
  clock = clock;
  api_keys = inline_api_key_store platform document 1_000_000 index accepted timed_memory;
  waiter = dynamo_workflow_waiter clock timer polling progress;
  randomness = record {
    random_uuid = λ w. (request, w);
    random_uuid_lem = λ w. refl;
    random_uuid_valid = λ w. refl;
  };
  lifecycle = λ w. state;
}

abbrev charge : Json
charge = Json.object (
    field (codes "operation") (Json.text (codes "CHARGE")) (
      field (codes "amount")
        (Json.object (
          field (codes "currencyCode") (Json.text (codes "EUR"))
            (field (codes "minorUnits") (Json.number 1200) end)))
        (field (codes "reference") (Json.text (codes "invoice 7")) end)))

abbrev posted : Request
posted = record {
  method = Method.post;
  url = codes "/v1/process";
  route = process_route;
  authorization = some (codes "ApiKey k1");
  idempotency_key = some (codes "order-0001");
  body = ok charge;
}

handle_told_example :
    let a = handle (deps LifecycleState.ready) posted (empty_table, 5_000) in
    (reply : Reply) × (a.0 ≡ ok reply)
    × Evolves platform options empty_table a.1.0
    × Shows (deps LifecycleState.ready) posted (empty_table, 5_000) reply a.1
handle_told_example = handle_told (deps LifecycleState.ready) posted (empty_table, 5_000)

looked_up :
    (get_process (deps LifecycleState.ready) (some caller) request (finished_table, 5_000)).0
    ≡ ok (terminal_reply finished_workflow)
unfolding get_process get_workflow_for_tenant get_workflow owned_by finished_table decode_workflow
    workflow_record_schema workflow_error_schema tenant_id_schema idempotency_key_schema
    is_tenant_char is_idempotency_char hex64_schema is_hex_char text_eq try_catch workflow_key
looked_up = refl

get_process_owned_example :
    (d : WorkflowRecord) × (terminal_reply finished_workflow
      ≡ found_reply (deps LifecycleState.ready) (some d))
    × (d.tenant_id ≡ codes "acme")
    × Served platform options timed_memory request
        (finished_table, 5_000)
        (get_process (deps LifecycleState.ready) (some caller) request (finished_table, 5_000)).1
        (some d)
unfolding terminal_reply
get_process_owned_example =
    get_process_owned (deps LifecycleState.ready) caller request (finished_table, 5_000)
      (terminal_reply finished_workflow) looked_up refl

abbrev afterwards : Lifecycle
afterwards = run (Call.call_ready ∷ []) (begin_drain (mark_ready new_lifecycle))

handle_drained_example :
    handle (deps afterwards.state) posted (empty_table, 5_000)
    ≡ (ok draining_reply, (empty_table, 5_000))
unfolding starts_with
handle_drained_example =
    handle_drained (deps afterwards.state) posted (empty_table, 5_000) (mark_ready new_lifecycle)
      (Call.call_ready ∷ []) refl refl refl
