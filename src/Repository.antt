-- ===== src/Repository.antt =====
-- packages/persistence/src/workflow-repository.ts: its parameters and results. The children hold the
-- write requests, the transitions they make, the methods, and what is proved of them.
pub mod Writes
pub mod Commit
pub mod Service
pub mod Clock
pub mod Methods
pub mod Sweep
pub mod Safety
pub mod Soundness
pub mod Outcomes
pub mod Decodable
use api_proxy.Base.{ℕ, Text, Option}
use api_proxy.Contracts.Json.{Json}
use api_proxy.Contracts.Workflow.{WorkflowRecord, WorkflowError, StepRecord, StepId, StepStatus}
use api_proxy.Contracts.Messages.{OutboxDestination, Payload}

pub record RepositoryOptions : Type 0 where
  pub workflow_ttl_days : ℕ
  pub outbox_ttl_days : ℕ

pub record CreateWorkflowInput : Type 0 where
  pub request_id : Text
  pub tenant_id : Text
  pub idempotency_key : Text
  pub payload_hash : Text
  pub input : Json
  pub sync_deadline_at : ℕ
  pub business_deadline_at : ℕ

pub data CreateWorkflowResult : Type 0 where
  created : WorkflowRecord → CreateWorkflowResult
  existing : WorkflowRecord → CreateWorkflowResult
  conflict : Text → Text → CreateWorkflowResult

pub data TerminalWriteResult : Type 0 where
  applied : WorkflowRecord → TerminalWriteResult
  already_terminal : WorkflowRecord → TerminalWriteResult
  missing : TerminalWriteResult

pub data AdvanceStepResult : Type 0 where
  advanced already_advanced workflow_terminal workflow_missing : AdvanceStepResult

pub data BeginStepResult : Type 0 where
  started : StepRecord → BeginStepResult
  resumed : StepRecord → StepStatus → BeginStepResult
  already_succeeded : StepRecord → BeginStepResult

pub record AdvanceParams : Type 0 where
  pub request_id : Text
  pub tenant_id : Text
  pub step_id : StepId
  pub step_result : Json
  pub next_step : StepId
  pub destination : OutboxDestination
  pub next_payload : Payload

-- `status` with the `result` or `error` that goes with it.
pub data TerminalOutcome : Type 0 where
  completed_with : Json → TerminalOutcome
  failed_with : WorkflowError → TerminalOutcome

pub record TerminalParams : Type 0 where
  pub request_id : Text
  pub step_id : StepId
  pub outcome : TerminalOutcome
