-- ===== src/Idempotency.antt =====
-- packages/idempotency/src/fingerprint.ts: the derived identities.
pub mod Canonical
pub mod Order
use api_proxy.Base.{ℕ, ◌++◌, Text, codes, decimal}
use api_proxy.Contracts.Ids.{Platform}
use api_proxy.Contracts.Workflow.{StepId}

-- The spelling of a member of `stepIdSchema`.
unfoldable pub step_name : StepId → Text
step_name StepId.enrich = codes "ENRICH"
step_name StepId.finalize = codes "FINALIZE"

module _ (platform : Platform) where
  unfoldable pub derive_event_id : Text → Text → ℕ → Text
  derive_event_id request_id step workflow_version =
      platform.sha256_hex
        (request_id ++ (codes "|" ++ (step ++ (codes "|" ++ decimal workflow_version))))

  unfoldable pub derive_external_ref : Text → Text → Text
  derive_external_ref request_id step_id =
      platform.sha256_hex (codes "external|" ++ (request_id ++ (codes "|" ++ step_id)))
