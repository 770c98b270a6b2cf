-- ===== src/Repository/Methods.antt =====
-- The methods of the class WorkflowRepository. Each takes the clock's reading as `now`.
use api_proxy.Base.{
  ℕ, ◌+◌, not, ◌||◌, Text, codes, text_eq, Option, none, some, get_elem?, if◌then◌else◌, Result, ok,
  err, Exec, pure, throw, lift, try_catch, ◌>>=◌, ◌>>◌,
}
use api_proxy.Contracts.Errors.{ErrorCode, Thrown, app_error, retryable_error}
use api_proxy.Contracts.Ids.{Platform}
use api_proxy.Contracts.Json.{Json}
use api_proxy.Contracts.Workflow.{
  WorkflowRecord, WorkflowError, StepRecord, StepId, StepStatus, step_record_schema,
}
use api_proxy.Contracts.Messages.{OutboxEvent}
use api_proxy.Persistence.Keys.{workflow_key, step_key, outbox_key, idempotency_key_item}
use api_proxy.Persistence.Items.{
  Item, workflow_item, IdempotencyItem, decode_workflow, decode_step, decode_outbox,
  decode_idempotency, decode_with, ttl_seconds_from_now,
}
use api_proxy.Persistence.Failures.{
  is_conditional_check_failed, condition_failed_at, read_transaction_outcome, is_condition_failure,
  classify_dynamo_error,
}
use api_proxy.Repository.{
  RepositoryOptions, CreateWorkflowInput, CreateWorkflowResult, created, existing, conflict,
  TerminalWriteResult, applied, already_terminal, missing, AdvanceStepResult, advanced,
  already_advanced, workflow_terminal, workflow_missing, BeginStepResult, started, resumed,
  already_succeeded, AdvanceParams, TerminalParams, completed_with, failed_with,
}
use api_proxy.Repository.Writes.{
  new_workflow, create_writes, begin_write, mark_unknown_write, advance_writes, terminal_writes,
  publish_write,
}
use api_proxy.Repository.Service.{Service}

-- `undefined`, or the item decoded.
abbrev pub decode_found :
    {A : Type 0} → (Item → Result Thrown A) → Option Item → Result Thrown (Option A)
decode_found decode none = ok none
decode_found decode (some raw) = elim (decode raw) [ ok a ↦ ok (some a) | err e ↦ err e ]

-- `throw classifyDynamoError(error)`
unfoldable pub rethrow : {W A : Type 0} → Thrown → Exec W Thrown A
unfolding throw
rethrow error = throw (app_error (classify_dynamo_error error))

unfoldable pub or_throw : {W A : Type 0} → Option A → ErrorCode → Text → Exec W Thrown A
unfolding pure throw
or_throw none code message = throw (app_error (retryable_error code message))
or_throw (some a) code message = pure a

-- `workflow.tenantId === tenantId ? workflow : undefined`
unfoldable pub owned_by : Text → Option WorkflowRecord → Option WorkflowRecord
owned_by tenant_id none = none
owned_by tenant_id (some w) = if text_eq w.tenant_id tenant_id then some w else none

module _ (platform : Platform) (options : RepositoryOptions) (s : Service platform options) where
  open s use {World}

  abbrev pub Method : Type 0 → Type 0
  Method A = Exec World Thrown A

  -- A strongly consistent read of one item, decoded inside the `try`.
  unfoldable pub get_workflow : Text → Method (Option WorkflowRecord)
  get_workflow request_id =
      try_catch
        (s.get (workflow_key request_id) >>= λ item.
          lift (decode_found (decode_workflow platform) item))
        pure rethrow

  unfoldable pub get_workflow_for_tenant : Text → Text → Method (Option WorkflowRecord)
  get_workflow_for_tenant request_id tenant_id = do
    workflow ← get_workflow request_id
    pure (owned_by tenant_id workflow)

  unfoldable pub get_step : Text → StepId → Method (Option StepRecord)
  get_step request_id step_id =
      try_catch
        (s.get (step_key request_id step_id) >>= λ item.
          lift (decode_found (decode_step platform) item))
        pure rethrow

  unfoldable pub get_outbox_event : Text → Text → Method (Option OutboxEvent)
  get_outbox_event request_id event_id =
      try_catch
        (s.get (outbox_key request_id event_id) >>= λ item.
          lift (decode_found (decode_outbox platform) item))
        pure rethrow

  -- The mapping was read: a conflict, or the workflow that it points at.
  unfoldable pub resolve_mapping :
      CreateWorkflowInput → IdempotencyItem → Method CreateWorkflowResult
  resolve_mapping input mapping =
      if text_eq mapping.payload_hash input.payload_hash
      then (do
        workflow ← get_workflow mapping.request_id
        found ←
            or_throw workflow ErrorCode.workflow_missing
              (codes "idempotency mapping points at missing workflow")
        pure (existing found))
      else pure (conflict mapping.request_id mapping.payload_hash)

  -- The rest of #resolveExistingWorkflow, from the item that was read.
  unfoldable pub resolve_item : CreateWorkflowInput → Option Item → Method CreateWorkflowResult
  resolve_item input item = do
    raw ←
        or_throw item ErrorCode.state_conflict
          (codes "idempotency mapping disappeared between conflict and read")
    mapping ← lift (decode_idempotency platform raw)
    resolve_mapping input mapping

  unfoldable pub resolve_existing_workflow : CreateWorkflowInput → Method CreateWorkflowResult
  unfolding resolve_item
  resolve_existing_workflow input =
      s.get (idempotency_key_item input.tenant_id input.idempotency_key) >>= resolve_item input

  -- The `catch` of the creation.
  unfoldable pub create_failed : CreateWorkflowInput → Thrown → Method CreateWorkflowResult
  create_failed input error =
      if condition_failed_at error 0 then resolve_existing_workflow input else rethrow error

  unfoldable pub create_workflow : CreateWorkflowInput → ℕ → Method CreateWorkflowResult
  create_workflow input now =
      try_catch
        (s.transact (create_writes platform options input now)
          >> lift
              (decode_workflow platform (workflow_item (new_workflow platform options input now))))
        (λ workflow. pure (created workflow)) (create_failed input)

  abbrev claimed_record : Text → StepId → Option Text → ℕ → StepRecord
  claimed_record request_id step_id external_ref now = record {
    request_id = request_id;
    step_id = step_id;
    status = StepStatus.in_progress;
    attempt = 1;
    external_ref = external_ref;
    external_result = none;
    created_at = now;
    updated_at = now;
    expires_at = some (ttl_seconds_from_now now options.workflow_ttl_days);
  }

  abbrev reclaimed_record : StepRecord → Option Text → ℕ → StepRecord
  reclaimed_record prior external_ref now = record prior {
    status = StepStatus.in_progress;
    attempt = prior.attempt + 1;
    updated_at = now;
    external_ref = elim prior.external_ref [ none ↦ external_ref | some e ↦ some e ];
  }

  abbrev decode_record : StepRecord → Result Thrown StepRecord
  decode_record r =
      decode_with (step_record_schema platform) (some r)
        (codes "persisted step item failed validation")

  -- The answer of the claim, from the item as it was before.
  unfoldable pub claim_answer :
      Text → StepId → Option Text → ℕ → Option Item → Method BeginStepResult
  unfolding decode_with
  claim_answer request_id step_id external_ref now none = do
    step ← lift (decode_record (claimed_record request_id step_id external_ref now))
    pure (started step)
  claim_answer request_id step_id external_ref now (some old) = do
    prior ← lift (decode_step platform old)
    step ← lift (decode_record (reclaimed_record prior external_ref now))
    pure (resumed step prior.status)

  -- The `catch` of the claim.
  unfoldable pub claim_failed : Text → StepId → Thrown → Method BeginStepResult
  claim_failed request_id step_id error =
      if is_conditional_check_failed error
      then (do
        found ← get_step request_id step_id
        step ←
            or_throw found ErrorCode.state_conflict
              (codes "step claim failed but no step record exists")
        pure (already_succeeded step))
      else rethrow error

  unfoldable pub begin_step : Text → StepId → Option Text → ℕ → Method BeginStepResult
  begin_step request_id step_id external_ref now =
      try_catch
        (s.update (begin_write platform options request_id step_id external_ref now)
          >>= claim_answer request_id step_id external_ref now)
        pure (claim_failed request_id step_id)

  unfoldable pub mark_step_unknown_external_state : Text → StepId → ℕ → Method (Unit {0})
  mark_step_unknown_external_state request_id step_id now =
      try_catch (s.update (mark_unknown_write platform options request_id step_id now))
        (λ _. pure tt)
        (λ error. if is_conditional_check_failed error then pure tt else rethrow error)

  -- The `catch` of the advance: which condition was it?
  unfoldable pub advance_failed : Text → Thrown → Method AdvanceStepResult
  advance_failed request_id error =
      let reasons = (read_transaction_outcome error).reasons in
      if not (read_transaction_outcome error).cancelled
      then rethrow error
      else if is_condition_failure (get_elem? reasons 0)
      then (do
        workflow ← get_workflow request_id
        pure (elim workflow [ none ↦ workflow_missing | some w ↦ workflow_terminal ]))
      else if is_condition_failure (get_elem? reasons 1)
          || is_condition_failure (get_elem? reasons 2)
      then pure already_advanced
      else rethrow error

  unfoldable pub advance_step_with_outbox : AdvanceParams → ℕ → Method AdvanceStepResult
  unfolding advance_failed
  advance_step_with_outbox params now =
      try_catch (s.transact (advance_writes platform options params now)) (λ _. pure advanced)
        (advance_failed params.request_id)

  -- The read after a terminal write.
  unfoldable pub read_back : Text → Method WorkflowRecord
  read_back request_id = do
    workflow ← get_workflow request_id
    or_throw workflow ErrorCode.workflow_missing
        (codes "workflow vanished immediately after a terminal write")

  -- The `catch` of the terminal write.
  unfoldable pub terminal_failed : Text → Thrown → Method TerminalWriteResult
  terminal_failed request_id error =
      if condition_failed_at error 0
      then (do
        workflow ← get_workflow request_id
        pure (elim workflow [ none ↦ missing | some w ↦ already_terminal w ]))
      else rethrow error

  unfoldable pub write_terminal : TerminalParams → ℕ → Method TerminalWriteResult
  unfolding read_back terminal_failed
  write_terminal params now =
      try_catch
        (s.transact (terminal_writes platform options params now) >> read_back params.request_id)
        (λ workflow. pure (applied workflow)) (terminal_failed params.request_id)

  unfoldable pub complete_if_processing : Text → StepId → Json → ℕ → Method TerminalWriteResult
  complete_if_processing request_id step_id result =
      write_terminal
        (record { request_id = request_id; step_id = step_id; outcome = completed_with result })

  unfoldable pub fail_if_processing : Text → StepId → WorkflowError → ℕ → Method TerminalWriteResult
  fail_if_processing request_id step_id error =
      write_terminal
        (record { request_id = request_id; step_id = step_id; outcome = failed_with error })

  unfoldable pub mark_outbox_published : Text → Text → ℕ → Method (Unit {0})
  mark_outbox_published request_id event_id now =
      try_catch (s.update (publish_write platform options request_id event_id now)) (λ _. pure tt)
        (λ error. if is_conditional_check_failed error then pure tt else rethrow error)
