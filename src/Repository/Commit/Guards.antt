-- ===== src/Repository/Commit/Guards.antt =====
-- What the conditions of the accepted writes say of the table before.
use api_proxy.Base.{ℕ, ◌≡◌, true, ◌&&◌, Text, is_some}
use api_proxy.Contracts.Ids.{Platform}
use api_proxy.Contracts.Workflow.{StepId}
use api_proxy.Persistence.Keys.{workflow_key, step_key, outbox_key, idempotency_key_item}
use api_proxy.Persistence.Dynamo.{Table, AllHold, holds}
use api_proxy.Repository.{RepositoryOptions, CreateWorkflowInput, AdvanceParams, TerminalParams}
use api_proxy.Repository.Writes.{
  create_writes, mark_unknown_write, advance_writes, terminal_writes, event_id_for, in_flight,
  not_succeeded, absent,
}

module _ (platform : Platform) (options : RepositoryOptions) (t : Table) where
  pub create_guard :
      (input : CreateWorkflowInput) (now : ℕ)
      → AllHold (create_writes platform options input now) t
      → (absent (t (idempotency_key_item input.tenant_id input.idempotency_key)) ≡ true)
        × (absent (t (workflow_key input.request_id)) ≡ true)
        × (absent (
              t (
                outbox_key input.request_id
                  (event_id_for platform options input.request_id StepId.enrich)))
            ≡ true)
  unfolding create_writes
  create_guard input now h = (h.0, h.1.0, h.1.1.0)

  pub mark_guard :
      (r : Text) (s : StepId) (now : ℕ)
      → holds t (mark_unknown_write platform options r s now) ≡ true
      → (is_some (t (step_key r s)) && not_succeeded (t (step_key r s))) ≡ true
  unfolding mark_unknown_write
  mark_guard r s now h = h

  pub advance_guard :
      (p : AdvanceParams) (now : ℕ)
      → AllHold (advance_writes platform options p now) t
      → (in_flight (t (workflow_key p.request_id)) ≡ true)
        × (not_succeeded (t (step_key p.request_id p.step_id)) ≡ true)
        × (absent
              (t (outbox_key p.request_id (event_id_for platform options p.request_id p.next_step)))
            ≡ true)
  unfolding advance_writes
  advance_guard p now h = (h.0, h.1.0, h.1.1.0)

  pub finish_guard :
      (p : TerminalParams) (now : ℕ)
      → AllHold (terminal_writes platform options p now) t
      → in_flight (t (workflow_key p.request_id)) ≡ true
  unfolding terminal_writes
  finish_guard p now h = h.0
