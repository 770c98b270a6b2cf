-- ===== src/Persistence/Items.antt =====
-- packages/persistence/src/items.ts: the stored items and their validation on the way out.
use api_proxy.Base.{
  ℕ, ◌+◌, ◌*◌, ◌/◌, Bool, ◌&&◌, Text, codes, Option, none, some, if◌then◌else◌, Result, ok, err,
}
use api_proxy.Contracts.Errors.{ErrorCode, Thrown, app_error, non_retryable_error}
use api_proxy.Contracts.Ids.{Platform, hex64_schema}
use api_proxy.Contracts.Json.{Json}
use api_proxy.Contracts.Workflow.{
  WorkflowRecord, StepRecord, StepId, StepStatus, positive, workflow_record_schema,
  step_record_schema,
}
use api_proxy.Contracts.Messages.{OutboxEvent, outbox_event_schema}
use api_proxy.Persistence.Keys.{IndexKeys}

-- A workflow item: the record, and its entry in the sparse index of processing workflows.
pub record WorkflowItem : Type 0 where
  pub document : WorkflowRecord
  pub gsi2 : Option IndexKeys

-- A step item is made by upserts, so any attribute may be missing.
pub record StepItem : Type 0 where
  pub request_id : Option Text
  pub step_id : Option StepId
  pub status : Option StepStatus
  pub attempt : Option ℕ
  pub external_ref : Option Text
  pub external_result : Option Json
  pub created_at : Option ℕ
  pub updated_at : Option ℕ
  pub expires_at : Option ℕ

abbrev pub no_attributes : StepItem
no_attributes = record {
  request_id = none;
  step_id = none;
  status = none;
  attempt = none;
  external_ref = none;
  external_result = none;
  created_at = none;
  updated_at = none;
  expires_at = none;
}

-- An outbox item: the event, and its entry in the sparse index of pending events.
pub record OutboxItem : Type 0 where
  pub event : OutboxEvent
  pub gsi1 : Option IndexKeys

pub record IdempotencyItem : Type 0 where
  pub tenant_id : Text
  pub idempotency_key : Text
  pub request_id : Text
  pub payload_hash : Text
  pub created_at : ℕ
  pub expires_at : ℕ

-- The four values of ITEM_TYPES.
pub data Item : Type 0 where
  workflow_item : WorkflowItem → Item
  idempotency_item : IdempotencyItem → Item
  step_item : StepItem → Item
  outbox_item : OutboxItem → Item

-- The list of zod's issues at the end of the message is left out.
unfoldable pub decode_failure : Text → Thrown
decode_failure message = app_error (non_retryable_error ErrorCode.internal_error message)

unfoldable pub decode_with : {A : Type 0} → (A → Bool) → Option A → Text → Result Thrown A
unfolding decode_failure
decode_with schema none message = err (decode_failure message)
decode_with schema (some a) message = if schema a then ok a else err (decode_failure message)

abbrev pub workflow_of : Item → Option WorkflowRecord
workflow_of (workflow_item i) = some i.document
workflow_of (idempotency_item i) = none
workflow_of (step_item i) = none
workflow_of (outbox_item i) = none

-- The attributes that the schema requires have to be there.
abbrev step_attributes :
    Option Text
    → Option StepId
    → Option StepStatus
    → Option ℕ
    → Option ℕ
    → Option ℕ
    → StepItem
    → Option StepRecord
step_attributes (some r) (some s) (some st) (some n) (some c) (some u) i = some (record {
  request_id = r;
  step_id = s;
  status = st;
  attempt = n;
  external_ref = i.external_ref;
  external_result = i.external_result;
  created_at = c;
  updated_at = u;
  expires_at = i.expires_at;
})
step_attributes _ _ _ _ _ _ i = none

abbrev pub step_of : Item → Option StepRecord
step_of (step_item i) =
    step_attributes i.request_id i.step_id i.status i.attempt i.created_at i.updated_at i
step_of (workflow_item i) = none
step_of (idempotency_item i) = none
step_of (outbox_item i) = none

abbrev pub outbox_of : Item → Option OutboxEvent
outbox_of (outbox_item i) = some i.event
outbox_of (workflow_item i) = none
outbox_of (idempotency_item i) = none
outbox_of (step_item i) = none

abbrev pub mapping_of : Item → Option IdempotencyItem
mapping_of (idempotency_item i) = some i
mapping_of (workflow_item i) = none
mapping_of (step_item i) = none
mapping_of (outbox_item i) = none

module _ (platform : Platform) where
  unfoldable pub idempotency_record_schema : IdempotencyItem → Bool
  idempotency_record_schema i =
      platform.is_uuid i.request_id && hex64_schema i.payload_hash && positive i.created_at

  unfoldable pub decode_workflow : Item → Result Thrown WorkflowRecord
  unfolding decode_with
  decode_workflow raw =
      decode_with (workflow_record_schema platform) (workflow_of raw)
        (codes "persisted workflow item failed validation")

  unfoldable pub decode_step : Item → Result Thrown StepRecord
  unfolding decode_with
  decode_step raw =
      decode_with (step_record_schema platform) (step_of raw)
        (codes "persisted step item failed validation")

  unfoldable pub decode_outbox : Item → Result Thrown OutboxEvent
  unfolding decode_with
  decode_outbox raw =
      decode_with (outbox_event_schema platform) (outbox_of raw)
        (codes "persisted outbox item failed validation")

  unfoldable pub decode_idempotency : Item → Result Thrown IdempotencyItem
  unfolding decode_with
  decode_idempotency raw =
      decode_with idempotency_record_schema (mapping_of raw)
        (codes "persisted idempotency item failed validation")

unfoldable pub ttl_seconds_from_now : ℕ → ℕ → ℕ
ttl_seconds_from_now now_millis days = now_millis / 1000 + days * 24 * 60 * 60
