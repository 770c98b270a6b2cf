-- ===== src/Tests/Waiter.antt =====
-- A wait for a workflow that is finished, and one that runs out of time.
use api_proxy.Base.{◌≡◌, ◌≢◌, refl, true, none, some, ok, text_eq, try_catch, arith}
use api_proxy.Contracts.Ids.{
  tenant_id_schema, idempotency_key_schema, is_tenant_char, is_idempotency_char, hex64_schema,
  is_hex_char,
}
use api_proxy.Contracts.Workflow.{is_terminal, workflow_record_schema, workflow_error_schema}
use api_proxy.Persistence.Keys.{workflow_key}
use api_proxy.Persistence.Items.{decode_workflow}
use api_proxy.Repository.Methods.{get_workflow}
use api_proxy.Waiter.{terminal}
use api_proxy.Waiter.Poll.{wait_for_terminal_state}
use api_proxy.Waiter.Told.{Told}
use api_proxy.Waiter.Found.{IsLate, wait-Told, wait-finds}
use api_proxy.Waiter.Ends.{wait_ends}
use api_proxy.Tests.Timed.{
  clock, timer, progress, polling, request, finished_workflow, finished_table,
}

found :
    (wait_for_terminal_state clock timer polling request 9_000 5 (finished_table, 3_000)).0
    ≡ ok (some (terminal finished_workflow 1))
unfolding wait_for_terminal_state get_workflow finished_table decode_workflow workflow_record_schema
    workflow_error_schema tenant_id_schema idempotency_key_schema is_tenant_char is_idempotency_char
    hex64_schema is_hex_char text_eq try_catch workflow_key
found = refl

wait-Told_example :
    Told clock timer polling request 9_000 finished_table
      (IsLate clock timer polling request 9_000 progress)
      (terminal finished_workflow 1)
      (wait_for_terminal_state clock timer polling request 9_000 5 (finished_table, 3_000)).1
wait-Told_example =
    wait-Told clock timer polling request 9_000 progress 5 (finished_table, 3_000) _ found

wait-finds_example : is_terminal finished_workflow.status ≡ true
unfolding finished_table text_eq workflow_key
wait-finds_example =
    wait-finds clock timer polling request 9_000 5 (finished_table, 3_000)
      (terminal finished_workflow 1) refl found

wait_ends_example :
    (wait_for_terminal_state clock timer polling request 9_000 6_001 (finished_table, 3_000)).0
    ≢ ok none
wait_ends_example =
    wait_ends clock timer progress polling request 9_000 6_001 (finished_table, 3_000) (omega arith)
      (omega arith)
