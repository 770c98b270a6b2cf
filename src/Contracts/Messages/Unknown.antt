-- ===== src/Contracts/Messages/Unknown.antt =====
-- packages/contracts/src/messages.ts: `workflowMessageSchema` on a value of type `unknown`.
use api_proxy.Base.{Text, codes, text_eq, Option, none, some, List, [], ◌∷◌, if◌then◌else◌}
use api_proxy.Contracts.Ids.{Platform}
use api_proxy.Contracts.Json.{Json, property, entries}
use api_proxy.Contracts.Workflow.{StepId, positive}
use api_proxy.Contracts.Domain.{RiskBand, Enrichment, ◌>>=◌, keep_if, text_schema, number_schema}
use api_proxy.Contracts.Messages.{
  Payload, enrich_payload, finalize_payload, WorkflowMessage, workflow_message_schema,
}

step_id_of : Json → Option StepId
step_id_of (Json.text t) =
    if text_eq t (codes "ENRICH")
    then some StepId.enrich
    else if text_eq t (codes "FINALIZE")
    then some StepId.finalize
    else none
step_id_of _ = none

risk_band_of : Json → Option RiskBand
risk_band_of (Json.text t) =
    if text_eq t (codes "LOW")
    then some RiskBand.low
    else if text_eq t (codes "MEDIUM")
    then some RiskBand.medium
    else if text_eq t (codes "HIGH")
    then some RiskBand.high
    else none
risk_band_of _ = none

enrichment_of : Json → Option Enrichment
unfolding risk_band_of text_schema number_schema property
enrichment_of (Json.object fs) = do
  reference ← property (codes "normalizedReference") fs >>= text_schema 1 80
  band ← property (codes "riskBand") fs >>= risk_band_of
  at ← property (codes "enrichedAt") fs >>= number_schema positive
  some (record { normalized_reference = reference; risk_band = band; enriched_at = at })
enrichment_of _ = none

-- `.strict()`: the payload of ENRICH has no key, and that of FINALIZE the one.
strict_payload : StepId → List (Text × Json) → Option Payload
unfolding enrichment_of
strict_payload StepId.enrich [] = some enrich_payload
strict_payload StepId.enrich (e ∷ es) = none
strict_payload StepId.finalize ((key, value) ∷ []) =
    if text_eq key (codes "enrichment")
    then (enrichment_of value >>= λ e. some (finalize_payload e))
    else none
strict_payload StepId.finalize [] = none
strict_payload StepId.finalize (e ∷ f ∷ es) = none

payload_of : StepId → Json → Option Payload
unfolding strict_payload
payload_of step (Json.object fs) = strict_payload step (entries fs)
payload_of step _ = none

any_text : Json → Option Text
any_text (Json.text t) = some t
any_text _ = none

-- The values that the envelope names, before the tests of their form.
unfoldable pub envelope_of : Json → Option WorkflowMessage
unfolding step_id_of payload_of any_text number_schema property
envelope_of (Json.object fs) = do
  step ← property (codes "step") fs >>= step_id_of
  message_id ← property (codes "messageId") fs >>= any_text
  request_id ← property (codes "requestId") fs >>= any_text
  tenant_id ← property (codes "tenantId") fs >>= any_text
  version ← property (codes "workflowVersion") fs >>= number_schema positive
  created_at ← property (codes "createdAt") fs >>= number_schema positive
  payload ← property (codes "payload") fs >>= payload_of step
  some (record {
    message_id = message_id;
    request_id = request_id;
    tenant_id = tenant_id;
    workflow_version = version;
    created_at = created_at;
    step = step;
    payload = payload;
  })
envelope_of _ = none

unfoldable pub safe_parse_message : Platform → Json → Option WorkflowMessage
unfolding envelope_of workflow_message_schema
safe_parse_message platform raw = do
  message ← envelope_of raw
  keep_if (workflow_message_schema platform message) message
