-- ===== src/Contracts/Messages.antt =====
-- packages/contracts/src/messages.ts and outbox.ts: the envelope of a step and the outbox event.
pub mod Unknown
use api_proxy.Base.{ℕ, Bool, true, false, ◌&&◌, Text, Option}
use api_proxy.Contracts.Ids.{Platform, hex64_schema, tenant_id_schema, length_within}
use api_proxy.Contracts.Workflow.{StepId, positive, optional}
use api_proxy.Contracts.Domain.{Enrichment}

pub data Payload : Type 0 where
  enrich_payload : Payload
  finalize_payload : Enrichment → Payload

pub record WorkflowMessage : Type 0 where
  pub message_id : Text
  pub request_id : Text
  pub tenant_id : Text
  pub workflow_version : ℕ
  pub created_at : ℕ
  pub step : StepId
  pub payload : Payload

pub data OutboxDestination : Type 0 where
  start_queue step_queue : OutboxDestination

pub record OutboxEvent : Type 0 where
  pub event_id : Text
  pub request_id : Text
  pub destination : OutboxDestination
  pub message : WorkflowMessage
  pub created_at : ℕ
  pub published_at : Option ℕ
  pub expires_at : Option ℕ

unfoldable pub enrichment_schema : Enrichment → Bool
enrichment_schema e = length_within 1 80 e.normalized_reference && positive e.enriched_at

-- The discriminated union: the payload is the one that the step calls for.
unfoldable pub payload_schema : StepId → Payload → Bool
unfolding enrichment_schema
payload_schema StepId.enrich enrich_payload = true
payload_schema StepId.finalize (finalize_payload e) = enrichment_schema e
payload_schema StepId.enrich (finalize_payload e) = false
payload_schema StepId.finalize enrich_payload = false

module _ (platform : Platform) where
  unfoldable pub workflow_message_schema : WorkflowMessage → Bool
  workflow_message_schema m =
      hex64_schema m.message_id
      && platform.is_uuid m.request_id
      && tenant_id_schema m.tenant_id
      && positive m.workflow_version
      && positive m.created_at
      && payload_schema m.step m.payload

  unfoldable pub outbox_event_schema : OutboxEvent → Bool
  unfolding workflow_message_schema
  outbox_event_schema e =
      hex64_schema e.event_id
      && platform.is_uuid e.request_id
      && workflow_message_schema e.message
      && positive e.created_at
      && optional positive e.published_at
      && optional positive e.expires_at
