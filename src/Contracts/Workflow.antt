-- ===== src/Contracts/Workflow.antt =====
-- packages/contracts/src/workflow.ts: statuses, steps, and the two persisted records.
use api_proxy.Base.{ℕ, zero, suc, Bool, true, false, ◌&&◌, Text, Option, none, some}
use api_proxy.Contracts.Errors.{ErrorCode, FailureClass}
use api_proxy.Contracts.Ids.{
  Platform, length_within, tenant_id_schema, idempotency_key_schema, hex64_schema,
}
use api_proxy.Contracts.Json.{Json}

pub data WorkflowStatus : Type 0 where
  processing completed failed : WorkflowStatus

abbrev pub is_terminal : WorkflowStatus → Bool
is_terminal WorkflowStatus.processing = false
is_terminal WorkflowStatus.completed = true
is_terminal WorkflowStatus.failed = true

abbrev pub is_processing : WorkflowStatus → Bool
is_processing WorkflowStatus.processing = true
is_processing WorkflowStatus.completed = false
is_processing WorkflowStatus.failed = false

pub data StepId : Type 0 where
  enrich finalize : StepId

pub data StepStatus : Type 0 where
  in_progress succeeded failed unknown_external_state : StepStatus

abbrev pub is_succeeded : StepStatus → Bool
is_succeeded StepStatus.succeeded = true
is_succeeded StepStatus.in_progress = false
is_succeeded StepStatus.failed = false
is_succeeded StepStatus.unknown_external_state = false

abbrev pub current_workflow_version : ℕ
current_workflow_version = 1

-- `code` is always a member of ERROR_CODES where the source writes one.
pub record WorkflowError : Type 0 where
  pub code : ErrorCode
  pub message : Text
  pub failure_class : FailureClass

pub record WorkflowRecord : Type 0 where
  pub request_id : Text
  pub tenant_id : Text
  pub idempotency_key : Text
  pub status : WorkflowStatus
  pub workflow_version : ℕ
  pub state_version : ℕ
  pub payload_hash : Text
  pub input : Json
  pub created_at : ℕ
  pub updated_at : ℕ
  pub sync_deadline_at : Option ℕ
  pub business_deadline_at : Option ℕ
  pub result : Option Json
  pub error : Option WorkflowError
  pub expires_at : Option ℕ

pub record StepRecord : Type 0 where
  pub request_id : Text
  pub step_id : StepId
  pub status : StepStatus
  pub attempt : ℕ
  pub external_ref : Option Text
  pub external_result : Option Json
  pub created_at : ℕ
  pub updated_at : ℕ
  pub expires_at : Option ℕ

abbrev pub positive : ℕ → Bool
positive zero = false
positive (suc n) = true

abbrev pub optional {ℓ} : {A : Type ℓ} → (A → Bool) → Option A → Bool
optional p none = true
optional p (some a) = p a

-- Every member of ERROR_CODES has between 1 and 64 characters, so only the message can fail.
unfoldable pub workflow_error_schema : WorkflowError → Bool
workflow_error_schema e = length_within 1 1024 e.message

module _ (platform : Platform) where
  unfoldable pub workflow_record_schema : WorkflowRecord → Bool
  workflow_record_schema w =
      platform.is_uuid w.request_id
      && tenant_id_schema w.tenant_id
      && idempotency_key_schema w.idempotency_key
      && positive w.workflow_version
      && hex64_schema w.payload_hash
      && positive w.created_at
      && positive w.updated_at
      && optional positive w.sync_deadline_at
      && optional positive w.business_deadline_at
      && optional workflow_error_schema w.error
      && optional positive w.expires_at

  unfoldable pub step_record_schema : StepRecord → Bool
  step_record_schema s =
      platform.is_uuid s.request_id
      && optional hex64_schema s.external_ref
      && positive s.created_at
      && positive s.updated_at
      && optional positive s.expires_at
